-- ===== src/Wire/Values.antt =====
-- The value codec of lotor/wire.go: the tagged values, encodeValue, decodeValue and readBytes.
-- `value` is a tagged union here: each constructor is a `Kind` with the one field that it uses.
-- A Go map is a list of entries in some order, with no key twice.
pub mod Sorting
pub mod Canonical
pub mod Shape
pub mod RoundTrip
pub mod Totality
pub mod Size
use lotor_go.Common.{
  ℕ, zero, suc, ◌+◌, Bool, true, false, not, ◌||◌, Option, none, some, List, [], ◌∷◌, ◌++◌, ltb,
  ◌==◌, if◌then◌else◌, length, take, drop,
}
use lotor_go.Common.Bytes.{Bytes, bytes_eq, bytes_lt}
use lotor_go.Common.Int.{ℤ}
use lotor_go.Wire.Reader.{
  Reader, done, fail, panicked, stuck, short, unknown_tag, continue, ◌>>=◌, ◌>>◌, pure,
}
use lotor_go.Wire.Numbers.{put_uvarint, read_uvarint, uint64_to_int, zigzag, unzigzag}

mutual
  pub data Value : Type 0 where
    null : Value
    bool : Bool → Value
    u64 : ℕ → Value
    i64 : ℤ → Value
    str addr bytes : Bytes → Value
    list : Values → Value
    map : Entries → Value

  pub data Values : Type 0 where
    nil : Values
    cons : Value → Values → Values

  pub data Entries : Type 0 where
    end : Entries
    entry : Bytes → Value → Entries → Entries

abbrev pub tag_null : ℕ
tag_null = 0x00

abbrev pub tag_bool : ℕ
tag_bool = 0x01

abbrev pub tag_u64 : ℕ
tag_u64 = 0x02

abbrev pub tag_i64 : ℕ
tag_i64 = 0x03

abbrev pub tag_str : ℕ
tag_str = 0x04

abbrev pub tag_bytes : ℕ
tag_bytes = 0x05

abbrev pub tag_addr : ℕ
tag_addr = 0x06

abbrev pub tag_list : ℕ
tag_list = 0x07

abbrev pub tag_map : ℕ
tag_map = 0x08

abbrev pub count : Values → ℕ
count nil = 0
count (cons v vs) = suc (count vs)

abbrev pub count_entries : Entries → ℕ
count_entries end = 0
count_entries (entry k v m) = suc (count_entries m)

-- `sort.Strings` on the keys, each with what belongs to it.
module _ {ℓ} {A : Type ℓ} where
  unfoldable pub insert_key : Bytes → A → List (Bytes × A) → List (Bytes × A)
  insert_key k a [] = (k, a) ∷ []
  insert_key k a ((j, b) ∷ m) =
      if bytes_lt j k then (j, b) ∷ insert_key k a m else (k, a) ∷ (j, b) ∷ m

  unfoldable pub sort_keys : List (Bytes × A) → List (Bytes × A)
  unfolding insert_key
  sort_keys [] = []
  sort_keys ((k, a) ∷ m) = insert_key k a (sort_keys m)

unfoldable pub put_bytes : Bytes → Bytes
put_bytes s = put_uvarint (length s) ++ s

-- Keys with their encoded values, in the order of the list.
unfoldable pub put_fields : List (Bytes × Bytes) → Bytes
put_fields [] = []
put_fields ((k, code) ∷ m) = put_bytes k ++ (code ++ put_fields m)

bool_byte : Bool → ℕ
bool_byte true = 1
bool_byte false = 0

unfoldable mutual
  unfolding bool_byte

  pub encode_value : Value → Bytes
  encode_value null = tag_null ∷ []
  encode_value (bool b) = tag_bool ∷ bool_byte b ∷ []
  encode_value (u64 n) = tag_u64 ∷ put_uvarint n
  encode_value (i64 n) = tag_i64 ∷ put_uvarint (zigzag n)
  encode_value (str s) = tag_str ∷ put_bytes s
  encode_value (addr s) = tag_addr ∷ put_bytes s
  encode_value (bytes s) = tag_bytes ∷ put_bytes s
  encode_value (list vs) = tag_list ∷ (put_uvarint (count vs) ++ encode_items vs)
  encode_value (map m) =
      tag_map ∷ (put_uvarint (count_entries m) ++ put_fields (sort_keys (encode_entries m)))

  pub encode_items : Values → Bytes
  encode_items nil = []
  encode_items (cons v vs) = encode_value v ++ encode_items vs

  pub encode_entries : Entries → List (Bytes × Bytes)
  encode_entries end = []
  encode_entries (entry k v m) = (k, encode_value v) ∷ encode_entries m

-- The bytes that are there, or a short read.
cut : Option ℕ → Reader Bytes
cut none b = fail short
cut (some n) b = if ltb (length b) n then fail short else done (take n b) (drop n b)

pub read_bytes : Reader Bytes
unfolding cut
read_bytes = do n ← read_uvarint; cut (uint64_to_int n)

-- `m[key] = val`: a key that is there keeps its place and takes the new value.
pub put_entry : Bytes → Value → Entries → Entries
put_entry k v end = entry k v end
put_entry k v (entry j w m) = if bytes_eq j k then entry j v m else entry j w (put_entry k v m)

unfoldable pub read_items : Reader Value → ℕ → Reader Values
read_items dec zero = pure nil
read_items dec (suc n) = do v ← dec; vs ← read_items dec n; pure (cons v vs)

pub read_entries : Reader Value → ℕ → Entries → Reader Entries
read_entries dec zero m = pure m
read_entries dec (suc n) m = do
  key ← read_bytes
  val ← dec
  read_entries dec n (put_entry key val m)

read_bool : Reader Value
read_bool [] = fail short
read_bool (c ∷ b) = done (bool (not (c == 0))) b

-- `make([]value, 0, n)` panics where n is past what the Go runtime can allocate.
unfoldable pub make_slice : ℕ → ℕ → Reader (Unit {0})
make_slice slice_limit n b = if ltb slice_limit n then panicked else done tt b

-- The body of decodeValue behind the tag, over `dec` for the nested values.
pub decode_tagged : ℕ → Reader Value → ℕ → Reader Value
unfolding read_bool make_slice
decode_tagged slice_limit dec tag =
    if tag == tag_null
    then pure null
    else if tag == tag_bool
    then read_bool
    else if tag == tag_u64
    then (do n ← read_uvarint; pure (u64 n))
    else if tag == tag_i64
    then (do n ← read_uvarint; pure (i64 (unzigzag n)))
    else if tag == tag_str
    then (do s ← read_bytes; pure (str s))
    else if tag == tag_addr
    then (do s ← read_bytes; pure (addr s))
    else if tag == tag_bytes
    then (do s ← read_bytes; pure (bytes s))
    else if tag == tag_list
    then (do
      n ← read_uvarint
      make_slice slice_limit n
      items ← read_items dec n
      pure (list items))
    else if tag == tag_map
    then (do n ← read_uvarint; m ← read_entries dec n end; pure (map m))
    else (λ b. fail (unknown_tag tag))

-- Fuel bounds the nesting.
pub decode_value : ℕ → ℕ → Reader Value
decode_value slice_limit zero b = stuck
decode_value slice_limit (suc depth) [] = fail short
decode_value slice_limit (suc depth) (tag ∷ b) =
    decode_tagged slice_limit (decode_value slice_limit depth) tag b
