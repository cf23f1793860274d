-- ===== src/Wire/Values/Size.antt =====
-- An encoding is longer than its value is deep, so that the fuel of decodeFrame is enough.
use lotor_go.Common.{
  ◌+◌, ◌≤◌, ◌<◌, ◌≡◌, refl, inl, inr, List, [], ◌∷◌, ◌++◌, length, length-append, Bool-cases, arith,
}
use lotor_go.Common.Bytes.{Bytes, bytes_lt}
use lotor_go.Wire.Numbers.{put_uvarint}
use lotor_go.Wire.Numbers.RoundTrip.{one-le-length-put_uvarint}
use lotor_go.Wire.Values.{
  Value, Values, Entries, null, bool, u64, i64, str, addr, bytes, list, map, nil, cons, end, entry,
  count, count_entries, insert_key, sort_keys, put_bytes, put_fields, encode_value, encode_items,
  encode_entries,
}
use lotor_go.Wire.Values.Shape.{depth, depth_items, depth_entries}

length-insert_key :
    (k c : Bytes) (m : List (Bytes × Bytes))
    → length (put_fields (insert_key k c m))
      ≡ length (put_bytes k) + length c + length (put_fields m)
unfolding put_fields insert_key
length-insert_key k c [] = omega (arith, length-append (put_bytes k) (c ++ []), length-append c [])
length-insert_key k c ((j, d) ∷ m) = elim (Bool-cases (bytes_lt j k)) [
  | inl e ↦ rw e (
      omega (
        arith,
        length-append (put_bytes j) (d ++ put_fields (insert_key k c m)),
        length-append d (put_fields (insert_key k c m)),
        length-append (put_bytes j) (d ++ put_fields m),
        length-append d (put_fields m),
        length-insert_key k c m,
      ))
  | inr e ↦ rw e (
      omega (
        arith,
        length-append (put_bytes k) (c ++ (put_bytes j ++ (d ++ put_fields m))),
        length-append c (put_bytes j ++ (d ++ put_fields m)),
      ))
]

length-sort_keys :
    (m : List (Bytes × Bytes)) → length (put_fields (sort_keys m)) ≡ length (put_fields m)
unfolding sort_keys put_fields
length-sort_keys [] = refl
length-sort_keys ((k, c) ∷ m) = omega (
  arith,
  length-insert_key k c (sort_keys m),
  length-sort_keys m,
  length-append (put_bytes k) (c ++ put_fields m),
  length-append c (put_fields m),
)

mutual
  unfolding depth encode_value put_fields

  depth-lt : (v : Value) → depth v < length (encode_value v)
  depth-lt null = omega arith
  depth-lt (bool b) = omega arith
  depth-lt (u64 n) = omega arith
  depth-lt (i64 z) = omega arith
  depth-lt (str s) = omega arith
  depth-lt (addr s) = omega arith
  depth-lt (bytes s) = omega arith
  depth-lt (list vs) = omega (
    arith,
    length-append (put_uvarint (count vs)) (encode_items vs),
    one-le-length-put_uvarint (count vs),
    depth_items-le vs,
  )
  depth-lt (map m) = omega (
    arith,
    length-append (put_uvarint (count_entries m)) (put_fields (sort_keys (encode_entries m))),
    length-sort_keys (encode_entries m),
    one-le-length-put_uvarint (count_entries m),
    depth_entries-le m,
  )

  depth_items-le : (vs : Values) → depth_items vs ≤ length (encode_items vs)
  depth_items-le nil = omega arith
  depth_items-le (cons v vs) =
      omega (arith, length-append (encode_value v) (encode_items vs), depth-lt v, depth_items-le vs)

  depth_entries-le : (m : Entries) → depth_entries m ≤ length (put_fields (encode_entries m))
  depth_entries-le end = omega arith
  depth_entries-le (entry k v m) = omega (
    arith,
    length-append (put_bytes k) (encode_value v ++ put_fields (encode_entries m)),
    length-append (encode_value v) (put_fields (encode_entries m)),
    depth-lt v,
    depth_entries-le m,
  )

pub depth_items-le-encode : (vs : Values) → depth_items vs ≤ length (encode_items vs)
depth_items-le-encode vs = depth_items-le vs
