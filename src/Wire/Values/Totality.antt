-- ===== src/Wire/Values/Totality.antt =====
-- decodeValue ends on every input, well formed or not, and never reads past the end.
use lotor_go.Common.{
  ℕ, zero, suc, ◌^◌, ◌<◌, ◌≡◌, ◌≢◌, inl, inr, Bool, true, false, Option, none, some, [], ◌∷◌, ◌++◌,
  length, length-drop, Bool-cases, ltb, ◌==◌, if◌then◌else◌, arith,
}
use lotor_go.Common.Bytes.{Bytes}
use lotor_go.Wire.Reader.{
  Reader, panicked, stuck, ◌>>=◌, pure, Within, Within-bind, Within-mono, Within-ne_stuck,
}
use lotor_go.Wire.Numbers.{put_uvarint, read_uvarint, uint64_to_int, unzigzag}
use lotor_go.Wire.Numbers.RoundTrip.{read_uvarint-put_uvarint, read_uvarint-Within}
use lotor_go.Wire.Values.{
  Value, Entries, u64, i64, str, addr, bytes, list, map, cons, end, cut, read_bytes, put_entry,
  read_bool, read_items, read_entries, make_slice, decode_tagged, decode_value,
}

cut-Within : (o : Option ℕ) (b : Bytes) → Within (length b) (cut o b)
unfolding cut
cut-Within none b = tt
cut-Within (some n) b = ground (arith, length-drop n b)

read_bytes-Within : (b : Bytes) → Within (length b) (read_bytes b)
unfolding read_bytes
read_bytes-Within b =
    Within-bind (read_uvarint b) (λ n. cut (uint64_to_int n)) (length b) (read_uvarint-Within b)
      (λ n rest h. Within-mono _ _ _ (cut-Within (uint64_to_int n) rest) h)

-- What is asked of the reader of nested values, on inputs shorter than `f`.
abbrev pub EndsBelow : ℕ → Reader Value → Type 0
EndsBelow f dec = (b : Bytes) → length b < f → Within (length b) (dec b)

pub read_items-Within :
    (f : ℕ) (dec : Reader Value) (n : ℕ) (b : Bytes)
    → EndsBelow f dec
    → length b < f
    → Within (length b) (read_items dec n b)
unfolding read_items
read_items-Within f dec zero b e h = omega arith
read_items-Within f dec (suc n) b e h = Within-bind (dec b) _ (length b) (e b h) λ v rest k.
    Within-bind (read_items dec n rest) (λ vs. pure (cons v vs)) (length b)
      (Within-mono _ _ _ (read_items-Within f dec n rest e (omega arith)) k) (λ vs left l. l)

read_entries-Within :
    (f : ℕ) (dec : Reader Value) (n : ℕ) (m : Entries) (b : Bytes)
    → EndsBelow f dec
    → length b < f
    → Within (length b) (read_entries dec n m b)
unfolding read_entries
read_entries-Within f dec zero m b e h = omega arith
read_entries-Within f dec (suc n) m b e h =
    Within-bind (read_bytes b) _ (length b) (read_bytes-Within b) λ key rest k.
      Within-bind (dec rest) _ (length b) (Within-mono _ _ _ (e rest (omega arith)) k) λ v left l.
        Within-mono _ _ _ (read_entries-Within f dec n (put_entry key v m) left e (omega arith)) l

map_read :
    {A : Type 0} (r : Reader A) (g : A → Value) (b : Bytes)
    → Within (length b) (r b)
    → Within (length b) ((do a ← r; pure (g a)) b)
map_read r g b w = Within-bind (r b) (λ a. pure (g a)) (length b) w (λ a rest h. h)

read_list-Within :
    (slice_limit f : ℕ) (dec : Reader Value) (b : Bytes)
    → EndsBelow f dec
    → length b < f
    → Within (length b) (decode_tagged slice_limit dec 0x07 b)
unfolding decode_tagged
read_list-Within slice_limit f dec b e h =
    Within-bind (read_uvarint b) _ (length b) (read_uvarint-Within b) λ n rest k.
      elim (Bool-cases (ltb slice_limit n)) [
        | inl past ↦ rw past tt
        | inr fits ↦ rw fits (
            Within-mono _ _ _
              (map_read (read_items dec n) list rest
                (read_items-Within f dec n rest e (omega arith)))
              k)
      ]

read_map-Within :
    (slice_limit f : ℕ) (dec : Reader Value) (b : Bytes)
    → EndsBelow f dec
    → length b < f
    → Within (length b) (decode_tagged slice_limit dec 0x08 b)
unfolding decode_tagged
read_map-Within slice_limit f dec b e h =
    Within-bind (read_uvarint b) _ (length b) (read_uvarint-Within b) λ n rest k.
      Within-mono _ _ _
        (map_read (read_entries dec n end) map rest
          (read_entries-Within f dec n end rest e (omega arith)))
        k

-- A branch ends if both of its sides do.
if-Within :
    (t : Bool) (r s : Reader Value) (b : Bytes)
    → Within (length b) (r b)
    → Within (length b) (s b)
    → Within (length b) ((if t then r else s) b)
if-Within true r s b h k = h
if-Within false r s b h k = k

read_bool-Within : (b : Bytes) → Within (length b) (read_bool b)
unfolding read_bool
read_bool-Within [] = tt
read_bool-Within (c ∷ b) = omega arith

decode_tagged-Within :
    (slice_limit f : ℕ) (dec : Reader Value) (tag : ℕ) (b : Bytes)
    → EndsBelow f dec
    → length b < f
    → Within (length b) (decode_tagged slice_limit dec tag b)
unfolding decode_tagged
decode_tagged-Within slice_limit f dec tag b e h = if-Within (tag == 0x00) _ _ b (omega arith) (
    if-Within (tag == 0x01) _ _ b (read_bool-Within b) (
      if-Within (tag == 0x02) _ _ b (map_read read_uvarint u64 b (read_uvarint-Within b)) (
        if-Within (tag == 0x03) _ _ b
          (map_read read_uvarint (λ n. i64 (unzigzag n)) b (read_uvarint-Within b))
          (if-Within (tag == 0x04) _ _ b (map_read read_bytes str b (read_bytes-Within b)) (
            if-Within (tag == 0x06) _ _ b (map_read read_bytes addr b (read_bytes-Within b)) (
              if-Within (tag == 0x05) _ _ b (map_read read_bytes bytes b (read_bytes-Within b)) (
                if-Within (tag == 0x07) _ _ b (read_list-Within slice_limit f dec b e h) (
                  if-Within (tag == 0x08) _ _ b (read_map-Within slice_limit f dec b e h) tt))))))))

pub decode_value-Within :
    (slice_limit f : ℕ) (b : Bytes)
    → length b < f
    → Within (length b) (decode_value slice_limit f b)
unfolding decode_value
decode_value-Within slice_limit zero b h = elim h [ ]
decode_value-Within slice_limit (suc f) [] h = tt
decode_value-Within slice_limit (suc f) (tag ∷ b) h =
    Within-mono _ (length b) (suc (length b))
      (decode_tagged-Within slice_limit f (decode_value slice_limit f) tag b
        (decode_value-Within slice_limit f) (omega arith))
      (omega arith)

-- With more fuel than there are bytes decoding ends on any input: the nesting never uses it up.
pub decode_value-ne_stuck :
    (slice_limit f : ℕ) (b : Bytes) → length b < f → decode_value slice_limit f b ≢ stuck
decode_value-ne_stuck slice_limit f b h =
    Within-ne_stuck _ (length b) (decode_value-Within slice_limit f b h)

-- A list header that announces more items than the runtime can allocate makes the decoder panic,
-- whatever the bytes that follow.
pub decode_value_panics :
    (slice_limit f n : ℕ) (rest : Bytes)
    → n < 2 ^ 64
    → slice_limit < n
    → decode_value slice_limit (suc f) (0x07 ∷ (put_uvarint n ++ rest)) ≡ panicked
unfolding decode_value decode_tagged make_slice
decode_value_panics slice_limit f n rest h k = rw (read_uvarint-put_uvarint n rest h) (ground arith)
