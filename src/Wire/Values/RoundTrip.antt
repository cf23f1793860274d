-- ===== src/Wire/Values/RoundTrip.antt =====
-- decodeValue reads back what encodeValue wrote.
use lotor_go.Common.{
  ℕ, zero, suc, ◌^◌, ◌≤◌, ◌<◌, ◌≡◌, refl, sym, ap, ◌∙◌, ◌≢◌, true, false, List, [], ◌∷◌, ◌++◌,
  append_assoc, length, length-append, take_append, drop_append, All, arith,
}
use lotor_go.Common.Bytes.{Bytes, bytes_eq_ne}
use lotor_go.Wire.Reader.{Reader, done, bind-done}
use lotor_go.Wire.Numbers.{put_uvarint, uint64_to_int, zigzag}
use lotor_go.Wire.Numbers.RoundTrip.{read_uvarint-put_uvarint, unzigzag-zigzag, zigzag-lt}
use lotor_go.Wire.Values.{
  Value, Values, Entries, null, bool, u64, i64, str, addr, bytes, list, map, nil, cons, end, entry,
  count, count_entries, sort_keys, put_bytes, put_fields, encode_value, encode_items,
  encode_entries, read_bytes, put_entry, read_items, read_entries, decode_tagged, decode_value,
}
use lotor_go.Wire.Values.Sorting.{
  Absent, Distinct, All-sort_keys, IsAscending-Distinct, Absent-map_values, sort_keys-IsAscending,
  length-sort_keys, map_values, sort_keys-map_values,
}
use lotor_go.Wire.Values.Canonical.{pairs, sorted_fields, count_entries-pairs}
use lotor_go.Wire.Values.Shape.{
  Fits, FitItems, FitEntries, depth, depth_items, depth_entries, from_pairs, sort_maps, sort_items,
  sort_fields,
}

read_bytes-put_bytes :
    (s rest : Bytes) → length s < 2 ^ 63 → read_bytes (put_bytes s ++ rest) ≡ done s rest
unfolding read_bytes put_bytes uint64_to_int
read_bytes-put_bytes s rest h = rw append_assoc (
    rw (read_uvarint-put_uvarint (length s) (s ++ rest) (omega arith))
      (ground (arith, length-append s rest, take_append s rest, drop_append s rest)))

sort_fields-pairs : (m : Entries) → sort_fields m ≡ map_values sort_maps (pairs m)
unfolding sort_fields
sort_fields-pairs end = refl
sort_fields-pairs (entry k v m) = ap (◌∷◌ (k, sort_maps v)) (sort_fields-pairs m)

-- The entries are appended one by one, since no key is there already.
abbrev append_pairs : Entries → List (Bytes × Value) → Entries
append_pairs end ys = from_pairs ys
append_pairs (entry k v m) ys = entry k v (append_pairs m ys)

put_entry_new :
    (k : Bytes) (v : Value) (m : Entries) (ys : List (Bytes × Value))
    → Absent k (pairs m)
    → append_pairs (put_entry k v m) ys ≡ append_pairs m ((k, v) ∷ ys)
unfolding put_entry
put_entry_new k v end ys h = refl
put_entry_new k v (entry j w m) ys (h, hs) =
    rw (bytes_eq_ne j k h) (ap (entry j w) (put_entry_new k v m ys hs))

Absent-put_entry :
    (i k : Bytes) (v : Value) (m : Entries)
    → k ≢ i
    → Absent i (pairs m)
    → Absent i (pairs (put_entry k v m))
unfolding put_entry
Absent-put_entry i k v end h n = (h, tt)
Absent-put_entry i k v (entry j w m) h (n, ns) = ground (arith, Absent-put_entry i k v m h ns)

append_pairs-end : (m : Entries) → append_pairs m [] ≡ m
append_pairs-end end = refl
append_pairs-end (entry k v m) = ap (entry k v) (append_pairs-end m)

-- No key of the list is in the map.
Fresh : List (Bytes × Value) → Entries → Type 0
Fresh [] m = Unit
Fresh ((k, v) ∷ xs) m = Absent k (pairs m) × Fresh xs m

Fresh-put_entry :
    (k : Bytes) (v : Value) (m : Entries) (xs : List (Bytes × Value))
    → Absent k xs
    → Fresh xs m
    → Fresh xs (put_entry k v m)
unfolding Fresh
Fresh-put_entry k v m [] n f = tt
Fresh-put_entry k v m ((j, w) ∷ xs) (n, ns) (f, fs) =
    (Absent-put_entry j k v m (λ e. n (sym e)) f, Fresh-put_entry k v m xs ns fs)

Fresh-end : (xs : List (Bytes × Value)) → Fresh xs end
unfolding Fresh
Fresh-end [] = tt
Fresh-end ((k, v) ∷ xs) = (tt, Fresh-end xs)

-- `dec` reads back the value of a field, whatever follows it.
abbrev Readable : Reader Value → Bytes × Value → Type 0
Readable dec (k, v) =
    (length k < 2 ^ 63) × ((rest : Bytes) → dec (encode_value v ++ rest) ≡ done (sort_maps v) rest)

read_entries_lem :
    (dec : Reader Value) (xs : List (Bytes × Value)) (m : Entries) (rest : Bytes)
    → All (Readable dec) xs
    → Distinct xs
    → Fresh (map_values sort_maps xs) m
    → read_entries dec (length xs) m (put_fields (map_values encode_value xs) ++ rest)
      ≡ done (append_pairs m (map_values sort_maps xs)) rest
unfolding read_entries put_fields Fresh
read_entries_lem dec [] m rest a d f = rw append_pairs-end
read_entries_lem dec ((k, v) ∷ xs) m rest ((hk, hv), a) (n, d) (f, fs) =
    let more : Bytes = put_fields (map_values encode_value xs) ++ rest in
    let key = read_bytes-put_bytes k (encode_value v ++ more) hk in
    rw (append_assoc, append_assoc)
      (bind-done read_bytes _ _ key
        ∙ bind-done dec _ _ (hv more)
        ∙ read_entries_lem dec xs (put_entry k (sort_maps v) m) rest a d (
            Fresh-put_entry k (sort_maps v) m (map_values sort_maps xs)
              (Absent-map_values sort_maps k xs n) fs)
        ∙ ap (λ e. done e rest) (put_entry_new k (sort_maps v) m (map_values sort_maps xs) f))

-- The whole map: its sorted listing is read back in order.
read_map :
    (dec : Reader Value) (m : Entries) (rest : Bytes)
    → All (Readable dec) (pairs m)
    → Distinct (pairs m)
    → read_entries dec (count_entries m) end (put_fields (sort_keys (encode_entries m)) ++ rest)
      ≡ done (from_pairs (sort_keys (sort_fields m))) rest
read_map dec m rest a d =
    let sorted = sort_keys (pairs m) in
    let size : count_entries m ≡ length sorted =
      count_entries-pairs m ∙ sym (length-sort_keys (pairs m)) in
    let fields : sort_keys (sort_fields m) ≡ map_values sort_maps sorted =
      ap sort_keys (sort_fields-pairs m) ∙ sort_keys-map_values sort_maps (pairs m) in
    rw (size, sorted_fields m, fields)
      (read_entries_lem dec sorted end rest (All-sort_keys (Readable dec) (pairs m) a)
        (IsAscending-Distinct sorted (sort_keys-IsAscending (pairs m) d))
        (Fresh-end (map_values sort_maps sorted)))

-- A list or map within the limits, over what its items read back.
read_list :
    (slice_limit n : ℕ) (dec : Reader Value) (code rest : Bytes) (vs : Values)
    → n ≤ slice_limit
    → n < 2 ^ 64
    → read_items dec n (code ++ rest) ≡ done vs rest
    → decode_tagged slice_limit dec 0x07 ((put_uvarint n ++ code) ++ rest) ≡ done (list vs) rest
unfolding decode_tagged
read_list slice_limit n dec code rest vs h k e =
    rw (append_assoc, read_uvarint-put_uvarint n (code ++ rest) k) (ground (arith, e))

read_entries_tagged :
    (slice_limit n : ℕ) (dec : Reader Value) (code rest : Bytes) (m : Entries)
    → n < 2 ^ 64
    → read_entries dec n end (code ++ rest) ≡ done m rest
    → decode_tagged slice_limit dec 0x08 ((put_uvarint n ++ code) ++ rest) ≡ done (map m) rest
unfolding decode_tagged
read_entries_tagged slice_limit n dec code rest m k e =
    rw (append_assoc, read_uvarint-put_uvarint n (code ++ rest) k, e)

read_cons :
    (dec : Reader Value) (n : ℕ) (a b rest : Bytes) (v : Value) (vs : Values)
    → dec (a ++ (b ++ rest)) ≡ done v (b ++ rest)
    → read_items dec n (b ++ rest) ≡ done vs rest
    → read_items dec (suc n) ((a ++ b) ++ rest) ≡ done (cons v vs) rest
unfolding read_items
read_cons dec n a b rest v vs e g = rw (append_assoc, e, g)

mutual
  unfolding decode_value decode_tagged encode_value sort_maps Fits depth read_items

  decode-encode :
      (slice_limit : ℕ) (v : Value) (f : ℕ) (rest : Bytes)
      → Fits slice_limit v
      → depth v ≤ f
      → decode_value slice_limit (suc f) (encode_value v ++ rest) ≡ done (sort_maps v) rest
  decode-encode slice_limit null f rest w h = refl
  decode-encode slice_limit (bool true) f rest w h = refl
  decode-encode slice_limit (bool false) f rest w h = refl
  decode-encode slice_limit (u64 n) f rest w h = rw (read_uvarint-put_uvarint n rest w)
  decode-encode slice_limit (i64 z) f rest w h =
      rw (read_uvarint-put_uvarint (zigzag z) rest (zigzag-lt z w), unzigzag-zigzag z w)
  decode-encode slice_limit (str s) f rest w h = rw (read_bytes-put_bytes s rest w)
  decode-encode slice_limit (addr s) f rest w h = rw (read_bytes-put_bytes s rest w)
  decode-encode slice_limit (bytes s) f rest w h = rw (read_bytes-put_bytes s rest w)
  decode-encode slice_limit (list vs) zero rest w h = absurd (omega arith)
  decode-encode slice_limit (list vs) (suc f) rest (k, l, w) h =
      read_list slice_limit (count vs) (decode_value slice_limit (suc f)) (encode_items vs) rest
        (sort_items vs) k l (items-encode slice_limit vs f rest w (omega arith))
  decode-encode slice_limit (map m) zero rest w h = absurd (omega arith)
  decode-encode slice_limit (map m) (suc f) rest (l, d, w) h =
      read_entries_tagged slice_limit (count_entries m) (decode_value slice_limit (suc f))
        (put_fields (sort_keys (encode_entries m))) rest (from_pairs (sort_keys (sort_fields m))) l
        (read_map (decode_value slice_limit (suc f)) m rest
          (entries-encode slice_limit m f w (omega arith)) d)

  items-encode :
      (slice_limit : ℕ) (vs : Values) (f : ℕ) (rest : Bytes)
      → FitItems slice_limit vs
      → depth_items vs ≤ f
      → read_items (decode_value slice_limit (suc f)) (count vs) (encode_items vs ++ rest)
        ≡ done (sort_items vs) rest
  items-encode slice_limit nil f rest w h = refl
  items-encode slice_limit (cons v vs) f rest (w, ws) h =
      read_cons (decode_value slice_limit (suc f)) (count vs) (encode_value v) (encode_items vs)
        rest (sort_maps v) (sort_items vs)
        (decode-encode slice_limit v f (encode_items vs ++ rest) w (omega arith))
        (items-encode slice_limit vs f rest ws (omega arith))

  entries-encode :
      (slice_limit : ℕ) (m : Entries) (f : ℕ)
      → FitEntries slice_limit m
      → depth_entries m ≤ f
      → All (Readable (decode_value slice_limit (suc f))) (pairs m)
  entries-encode slice_limit end f w h = tt
  entries-encode slice_limit (entry k v m) f (l, w, ws) h = (
    (l, λ rest. decode-encode slice_limit v f rest w (omega arith)),
    entries-encode slice_limit m f ws (omega arith),
  )

-- Decoding what was encoded gives the value with its maps listed in key order, and leaves the
-- bytes that follow, for every value within the limits and enough fuel for its nesting.
pub decode_value-encode_value :
    (slice_limit : ℕ) (v : Value) (fuel : ℕ) (rest : Bytes)
    → Fits slice_limit v
    → depth v < fuel
    → decode_value slice_limit fuel (encode_value v ++ rest) ≡ done (sort_maps v) rest
decode_value-encode_value slice_limit v zero rest w h = elim h [ ]
decode_value-encode_value slice_limit v (suc f) rest w h =
    decode-encode slice_limit v f rest w (omega arith)

pub read_items-encode_items :
    (slice_limit : ℕ) (vs : Values) (fuel : ℕ) (rest : Bytes)
    → FitItems slice_limit vs
    → depth_items vs ≤ fuel
    → read_items (decode_value slice_limit (suc fuel)) (count vs) (encode_items vs ++ rest)
      ≡ done (sort_items vs) rest
read_items-encode_items slice_limit vs fuel rest w h = items-encode slice_limit vs fuel rest w h
