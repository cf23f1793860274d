-- ===== src/Wire/Frames/RoundTrip.antt =====
-- decodeFrame reads back what encodeFrame wrote, and waits on any proper prefix of it.
use lotor_go.Common.{
  ℕ, suc, ◌+◌, ◌*◌, ◌/◌, ◌%◌, ◌^◌, ◌≤◌, ◌<◌, ◌≡◌, refl, ap, ◌∙◌, some, ◌++◌, append_assoc, length,
  length-append, arith,
}
use lotor_go.Common.Bytes.{Bytes}
use lotor_go.Wire.Reader.{Reader, done}
use lotor_go.Wire.Numbers.{put_uvarint, int_to_uint32}
use lotor_go.Wire.Numbers.RoundTrip.{read_uvarint-put_uvarint}
use lotor_go.Wire.Values.{Values, count, encode_items, make_slice}
use lotor_go.Wire.Values.Shape.{FitItems, depth_items, sort_items}
use lotor_go.Wire.Values.RoundTrip.{read_items-encode_items}
use lotor_go.Wire.Values.Size.{depth_items-le-encode}
use lotor_go.Wire.Frames.{
  Frame, be32, payload, encode_frame, read_frame, read_args, complete, decode_body, decode_frame,
}

-- A frame that the program can send: each field in its type, and arguments that have an LWP form.
pub record IsSendable (slice_limit : ℕ) (f : Frame) : Type 0 where
  pub typ_byte : f.typ < 2 ^ 8
  pub flags_u16 : f.flags < 2 ^ 16
  pub req_id_u32 : f.req_id < 2 ^ 32
  pub opcode_u16 : f.opcode < 2 ^ 16
  pub args_fit : FitItems slice_limit f.args
  pub few_args : count f.args ≤ slice_limit
  pub count_u64 : count f.args < 2 ^ 64
  pub payload_u32 : length (payload f) < 2 ^ 32

-- The frame with every map listed in key order.
abbrev pub sorted_frame : Frame → Frame
sorted_frame f = record f { args = sort_items f.args }

bytes_u16 : (n : ℕ) → n < 2 ^ 16 → n / 2 ^ 8 % 2 ^ 8 * 2 ^ 8 + n % 2 ^ 8 ≡ n
bytes_u16 n h = omega arith

pub bytes_u32 :
    (n : ℕ)
    → n < 2 ^ 32
    → n / 2 ^ 24 % 2 ^ 8 * 2 ^ 24
        + n / 2 ^ 16 % 2 ^ 8 * 2 ^ 16
        + n / 2 ^ 8 % 2 ^ 8 * 2 ^ 8
        + n % 2 ^ 8
      ≡ n
bytes_u32 n h = omega arith

read_args-encode :
    (slice_limit fuel : ℕ) (vs : Values) (rest : Bytes)
    → FitItems slice_limit vs
    → count vs ≤ slice_limit
    → count vs < 2 ^ 64
    → depth_items vs ≤ fuel
    → read_args slice_limit (suc fuel) ((put_uvarint (count vs) ++ encode_items vs) ++ rest)
      ≡ done (sort_items vs) rest
unfolding read_args make_slice
read_args-encode slice_limit fuel vs rest w k l d =
    rw (append_assoc, read_uvarint-put_uvarint (count vs) (encode_items vs ++ rest) l)
      (ground (arith, read_items-encode_items slice_limit vs fuel rest w d))

read_frame-payload :
    (slice_limit : ℕ) (f : Frame) (dec : Reader Values) (rest : Bytes)
    → IsSendable slice_limit f
    → dec ((put_uvarint (count f.args) ++ encode_items f.args) ++ rest)
      ≡ done (sort_items f.args) rest
    → read_frame dec (payload f ++ rest) ≡ done (sorted_frame f) rest
unfolding read_frame payload
read_frame-payload slice_limit f dec rest s e = rw (
  bytes_u16 f.flags s.flags_u16,
  bytes_u32 f.req_id s.req_id_u32,
  bytes_u16 f.opcode s.opcode_u16,
  e,
)

length-payload-args : (f : Frame) → length (encode_items f.args) ≤ length (payload f)
unfolding payload
length-payload-args f =
    omega (arith, length-append (put_uvarint (count f.args)) (encode_items f.args))

-- What `encodeFrame` gives: the length of the payload, and the payload.
pub encode_frame-payload :
    (slice_limit : ℕ) (f : Frame)
    → IsSendable slice_limit f
    → encode_frame f ≡ some (be32 (length (payload f)) ++ payload f)
unfolding encode_frame int_to_uint32
encode_frame-payload slice_limit f s = ground arith

decode_body-payload :
    (slice_limit n : ℕ) (f : Frame) (rest : Bytes)
    → IsSendable slice_limit f
    → n ≡ length (payload f)
    → decode_body slice_limit n (payload f ++ rest) ≡ complete (sorted_frame f) (4 + n)
unfolding decode_body
decode_body-payload slice_limit n f rest s e =
    let fuel = length (payload f ++ rest) in
    ground (
      arith,
      length-append (payload f) rest,
      read_frame-payload slice_limit f (read_args slice_limit (suc fuel)) rest s (
          read_args-encode slice_limit fuel f.args rest s.args_fit s.few_args s.count_u64 (
            omega (
              arith,
              depth_items-le-encode f.args,
              length-payload-args f,
              length-append (payload f) rest,
            ))),
    )

-- A frame that the program can send is encoded without a panic, and decoding the encoding in
-- front of any further bytes gives the frame, its maps in key order, with exactly the bytes of
-- the encoding consumed.
pub decode_frame-encode_frame :
    (slice_limit : ℕ) (f : Frame) (rest : Bytes)
    → IsSendable slice_limit f
    → (code : Bytes) × (encode_frame f ≡ some code)
      × (decode_frame slice_limit (code ++ rest) ≡ complete (sorted_frame f) (length code))
unfolding decode_frame
decode_frame-encode_frame slice_limit f rest s = (
  be32 (length (payload f)) ++ payload f,
  encode_frame-payload slice_limit f s,
  rw (bytes_u32 (length (payload f)) s.payload_u32) (
      decode_body-payload slice_limit (length (payload f)) f rest s refl
      ∙ ap (λ n. complete (sorted_frame f) n) (omega arith)),
)
