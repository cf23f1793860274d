-- ===== src/Wire/Frames.antt =====
-- The frame codec of lotor/wire.go: encodeFrame and decodeFrame. A frame is a length of four
-- bytes and that many bytes of payload.
pub mod RoundTrip
pub mod Streams
use lotor_go.Common.{
  ℕ, zero, suc, ◌+◌, ◌*◌, ◌/◌, ◌%◌, ◌^◌, Option, none, some, [], ◌∷◌, ◌++◌, ltb, if◌then◌else◌,
  length, drop,
}
use lotor_go.Common.Bytes.{Bytes}
use lotor_go.Wire.Reader.{Read, Reader, done, fail, panicked, stuck, continue, ◌>>=◌, ◌>>◌, pure}
use lotor_go.Wire.Numbers.{put_uvarint, read_uvarint, int_to_uint32}
use lotor_go.Wire.Values.{Values, count, encode_items, read_items, make_slice, decode_value}

pub record Frame : Type 0 where
  pub args : Values
  pub typ : ℕ
  pub flags : ℕ
  pub req_id : ℕ
  pub opcode : ℕ

abbrev pub proto_version : ℕ
proto_version = 1

abbrev pub frame_req : ℕ
frame_req = 1

abbrev pub frame_resp : ℕ
frame_resp = 2

abbrev pub frame_event : ℕ
frame_event = 3

abbrev pub frame_pong : ℕ
frame_pong = 5

abbrev pub status_ok : ℕ
status_ok = 0

abbrev pub status_err : ℕ
status_err = 1

-- `binary.BigEndian.AppendUint16` and `AppendUint32`.
abbrev pub be16 : ℕ → Bytes
be16 n = (n / 2 ^ 8 % 2 ^ 8) ∷ (n % 2 ^ 8) ∷ []

abbrev pub be32 : ℕ → Bytes
be32 n = (n / 2 ^ 24 % 2 ^ 8) ∷ (n / 2 ^ 16 % 2 ^ 8) ∷ (n / 2 ^ 8 % 2 ^ 8) ∷ (n % 2 ^ 8) ∷ []

unfoldable pub payload : Frame → Bytes
payload f =
    proto_version
    ∷ f.typ
    ∷ (be16 f.flags
        ++ (be32 f.req_id
            ++ (be16 f.opcode ++ (put_uvarint (count f.args) ++ encode_items f.args))))

with_length : Bytes → Option ℕ → Option Bytes
with_length p none = none
with_length p (some n) = some (be32 n ++ p)

-- `none` is the panic of `intToUint32`.
unfoldable pub encode_frame : Frame → Option Bytes
unfolding with_length
encode_frame f = with_length (payload f) (int_to_uint32 (length (payload f)))

-- Reads out of range panic.
read_byte : Reader ℕ
read_byte [] = panicked
read_byte (a ∷ b) = done a b

read_be16 : Reader ℕ
read_be16 (x ∷ y ∷ b) = done (x * 2 ^ 8 + y) b
read_be16 _ = panicked

read_be32 : Reader ℕ
read_be32 (w ∷ x ∷ y ∷ z ∷ b) = done (w * 2 ^ 24 + x * 2 ^ 16 + y * 2 ^ 8 + z) b
read_be32 _ = panicked

-- The payload from the version byte on. Nothing holds it to the announced length.
read_frame : Reader Values → Reader Frame
unfolding read_byte read_be16 read_be32
read_frame dec = do
  ver ← read_byte
  typ ← read_byte
  flags ← read_be16
  req_id ← read_be32
  opcode ← read_be16
  args ← dec
  pure (record { args = args; typ = typ; flags = flags; req_id = req_id; opcode = opcode })

read_args : ℕ → ℕ → Reader Values
read_args slice_limit fuel = do
  argc ← read_uvarint
  make_slice slice_limit argc
  read_items (decode_value slice_limit fuel) argc

-- `decodeFrame`: a frame with the bytes consumed, `ok == false`, or a panic.
pub data Decoded : Type 0 where
  complete : Frame → ℕ → Decoded
  incomplete crashed out_of_fuel : Decoded

decoded : ℕ → Read Frame → Decoded
decoded total (done f rest) = complete f total
decoded total (fail e) = incomplete
decoded total panicked = crashed
decoded total stuck = out_of_fuel

-- Behind the length prefix; `b` is `buf[4:]` and `total` is `4 + n`.
decode_body : ℕ → ℕ → Bytes → Decoded
unfolding decoded read_frame read_args
decode_body slice_limit n b =
    if ltb (length b) n
    then incomplete
    else decoded (4 + n) (read_frame (read_args slice_limit (suc (length b))) b)

pub decode_frame : ℕ → Bytes → Decoded
decode_frame slice_limit (w ∷ x ∷ y ∷ z ∷ b) =
    decode_body slice_limit (w * 2 ^ 24 + x * 2 ^ 16 + y * 2 ^ 8 + z) b
decode_frame slice_limit _ = incomplete
