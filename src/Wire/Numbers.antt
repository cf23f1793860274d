-- ===== src/Wire/Numbers.antt =====
-- The number codecs of lotor/wire.go: putUvarint, readUvarint, zigzag, unzigzag and the
-- conversions between the integer types. A slice is the list of its bytes; the encoders give
-- the bytes that the code appends.
pub mod RoundTrip
use Prim.Native.Nat.{bit_or}
use lotor_go.Common.{
  ℕ, zero, suc, ◌+◌, ◌-◌, ◌*◌, ◌/◌, ◌%◌, ◌^◌, Bool, Option, none, some, [], ◌∷◌, ltb, ◌==◌,
  if◌then◌else◌,
}
use lotor_go.Common.Bytes.{Bytes}
use lotor_go.Common.Int.{ℤ, pos, negsuc}
use lotor_go.Wire.Reader.{Reader, done, fail, short}

-- One round for each group of seven bits; a `uint64` has at most ten.
unfoldable pub uvarint_loop : ℕ → ℕ → Bytes
uvarint_loop zero v = []
uvarint_loop (suc rounds) v =
    let c = v % 128 in
    let v' = v / 128 in
    let rest = uvarint_loop rounds v' in if v' == 0 then c ∷ [] else bit_or c 0x80 ∷ rest

unfoldable pub put_uvarint : ℕ → Bytes
put_uvarint v = uvarint_loop 10 v

-- `result |= uint64(c&0x7f) << shift`, in 64 bits: a shift of 64 or more leaves nothing.
pub read_uvarint_loop : ℕ → ℕ → Reader ℕ
read_uvarint_loop result shift [] = fail short
read_uvarint_loop result shift (c ∷ b) =
    let result' = bit_or result (c % 128 * 2 ^ shift % 2 ^ 64) in
    let more = read_uvarint_loop result' (shift + 7) b in
    if c / 128 % 2 == 0 then done result' b else more

pub read_uvarint : Reader ℕ
read_uvarint b = read_uvarint_loop 0 0 b

-- `uint64ToInt64`: what does not fit becomes 0.
unfoldable pub uint64_to_int64 : ℕ → ℕ
uint64_to_int64 n = if ltb (2 ^ 63 - 1) n then 0 else n

pub non_negative_int64_to_uint64 : ℤ → ℕ
non_negative_int64_to_uint64 (pos n) = n
non_negative_int64_to_uint64 (negsuc n) = 0

-- `uint64ToInt`, where `int` has 64 bits.
unfoldable pub uint64_to_int : ℕ → Option ℕ
uint64_to_int n = if ltb (2 ^ 63 - 1) n then none else some n

-- `none` is the panic "frame too large".
unfoldable pub int_to_uint32 : ℕ → Option ℕ
int_to_uint32 n = if ltb (2 ^ 32 - 1) n then none else some n

-- `-(v + 1)` of a negative v.
abbrev magnitude : ℕ → ℤ
magnitude n = pos n

unfoldable pub zigzag : ℤ → ℕ
unfolding non_negative_int64_to_uint64
zigzag (pos n) = n * 2 % 2 ^ 64
zigzag (negsuc n) = (non_negative_int64_to_uint64 (magnitude n) * 2 + 1) % 2 ^ 64

pub unzigzag : ℕ → ℤ
unfolding uint64_to_int64
unzigzag v =
    let half = v / 2 in
    if v % 2 == 0 then pos (uint64_to_int64 half) else negsuc (uint64_to_int64 half)
