-- ===== src/Wire/Frames/Streams.antt =====
-- decodeFrame on input that is cut short, on any input at all, and on hostile input.
use lotor_go.Common.{
  ℕ, suc, ◌+◌, ◌*◌, ◌^◌, ◌≤◌, ◌<◌, ◌≡◌, refl, ap, ◌∙◌, ◌≢◌, some, [], ◌∷◌, ◌++◌, length,
  length-append, ltb, inl, inr, Bool-cases, arith,
}
use lotor_go.Common.Bytes.{Bytes}
use lotor_go.Wire.Reader.{
  Read, Reader, done, fail, panicked, stuck, Within, Within-bind, Within-mono,
}
use lotor_go.Wire.Numbers.{put_uvarint, read_uvarint}
use lotor_go.Wire.Numbers.RoundTrip.{read_uvarint-put_uvarint, read_uvarint-Within}
use lotor_go.Wire.Values.{Values, make_slice, decode_value}
use lotor_go.Wire.Values.Totality.{decode_value-Within, read_items-Within}
use lotor_go.Wire.Frames.{
  Frame, be16, be32, payload, encode_frame, read_byte, read_be16, read_be32, read_frame, read_args,
  incomplete, crashed, out_of_fuel, decoded, decode_body, decode_frame,
}
use lotor_go.Wire.Frames.RoundTrip.{IsSendable, encode_frame-payload, bytes_u32}

decode_body_short :
    (slice_limit n : ℕ) (b : Bytes) → length b < n → decode_body slice_limit n b ≡ incomplete
unfolding decode_body
decode_body_short slice_limit n b h = ground arith

pub decode_frame_nil : (slice_limit : ℕ) → decode_frame slice_limit [] ≡ incomplete
unfolding decode_frame
decode_frame_nil slice_limit = refl

-- The prefix of a framed payload.
decode_frame_cut :
    (slice_limit : ℕ) (front p : Bytes) (x : ℕ) (back : Bytes)
    → length p < 2 ^ 32
    → be32 (length p) ++ p ≡ front ++ x ∷ back
    → decode_frame slice_limit front ≡ incomplete
unfolding decode_frame
decode_frame_cut slice_limit [] p x back h e = refl
decode_frame_cut slice_limit (a ∷ []) p x back h e = refl
decode_frame_cut slice_limit (a ∷ b ∷ []) p x back h e = refl
decode_frame_cut slice_limit (a ∷ b ∷ c ∷ []) p x back h e = refl
decode_frame_cut slice_limit (a ∷ b ∷ c ∷ d ∷ front) p x back h e =
    let size : length p ≡ length (front ++ x ∷ back) = omega (arith, ap length e) in
    let prefix : a * 2 ^ 24 + b * 2 ^ 16 + c * 2 ^ 8 + d ≡ length p =
      ground (arith, bytes_u32 (length p) h) in
    decode_body_short slice_limit _ front
      (omega (arith, size, prefix, length-append front (x ∷ back)))

-- While a sent frame has not arrived whole, the decoder waits for more: no proper prefix of an
-- encoding gives a frame or a panic.
pub decode_frame_waits :
    (slice_limit : ℕ) (f : Frame) (code front : Bytes) (x : ℕ) (back : Bytes)
    → IsSendable slice_limit f
    → encode_frame f ≡ some code
    → code ≡ front ++ x ∷ back
    → decode_frame slice_limit front ≡ incomplete
decode_frame_waits slice_limit f code front x back s e split =
    decode_frame_cut slice_limit front (payload f) x back s.payload_u32
      (cc (encode_frame-payload slice_limit f s, e, split))

read_byte-Within : (b : Bytes) → Within (length b) (read_byte b)
unfolding read_byte
read_byte-Within [] = tt
read_byte-Within (x ∷ b) = omega arith

read_be16-Within : (b : Bytes) → Within (length b) (read_be16 b)
unfolding read_be16
read_be16-Within [] = tt
read_be16-Within (x ∷ []) = tt
read_be16-Within (x ∷ y ∷ b) = omega arith

read_be32-Within : (b : Bytes) → Within (length b) (read_be32 b)
unfolding read_be32
read_be32-Within [] = tt
read_be32-Within (w ∷ []) = tt
read_be32-Within (w ∷ x ∷ []) = tt
read_be32-Within (w ∷ x ∷ y ∷ []) = tt
read_be32-Within (w ∷ x ∷ y ∷ z ∷ b) = omega arith

read_args-Within :
    (slice_limit f : ℕ) (b : Bytes) → length b < f → Within (length b) (read_args slice_limit f b)
unfolding read_args make_slice
read_args-Within slice_limit f b h =
    Within-bind (read_uvarint b) _ (length b) (read_uvarint-Within b) λ n rest k.
      elim (Bool-cases (ltb slice_limit n)) [
        | inl past ↦ rw past tt
        | inr fits ↦ rw fits (
            Within-mono _ _ _
              (read_items-Within f (decode_value slice_limit f) n rest
                (decode_value-Within slice_limit f) (omega arith))
              k)
      ]

read_frame-Within :
    (dec : Reader Values) (n : ℕ) (b : Bytes)
    → ((rest : Bytes) → length rest ≤ n → Within n (dec rest))
    → length b ≤ n
    → Within n (read_frame dec b)
unfolding read_frame
read_frame-Within dec n b h k =
    Within-bind (read_byte b) _ n (Within-mono _ _ _ (read_byte-Within b) k) λ ver b1 k1.
      Within-bind (read_byte b1) _ n (Within-mono _ _ _ (read_byte-Within b1) k1) λ typ b2 k2.
        Within-bind (read_be16 b2) _ n (Within-mono _ _ _ (read_be16-Within b2) k2) λ flags b3 k3.
          Within-bind (read_be32 b3) _ n (Within-mono _ _ _ (read_be32-Within b3) k3) λ id b4 k4.
            Within-bind (read_be16 b4) _ n (Within-mono _ _ _ (read_be16-Within b4) k4)
              λ op b5 k5. Within-bind (dec b5) _ n (h b5 k5) λ args rest left. left

decoded-ne_out_of_fuel : (total n : ℕ) (r : Read Frame) → Within n r → decoded total r ≢ out_of_fuel
unfolding decoded
decoded-ne_out_of_fuel total n (done f rest) w e = cc
decoded-ne_out_of_fuel total n (fail x) w e = cc
decoded-ne_out_of_fuel total n panicked w e = cc
decoded-ne_out_of_fuel total n stuck w e = absurd w

decode_body-ne_out_of_fuel :
    (slice_limit n : ℕ) (b : Bytes) → decode_body slice_limit n b ≢ out_of_fuel
unfolding decode_body
decode_body-ne_out_of_fuel slice_limit n b = elim (Bool-cases (ltb (length b) n)) [
  | inl short ↦ rw short (λ e. cc)
  | inr whole ↦ rw whole (
      decoded-ne_out_of_fuel (4 + n) (length b) _ (
        read_frame-Within (read_args slice_limit (suc (length b))) (length b) b
          (λ rest k.
            Within-mono _ _ _ (read_args-Within slice_limit (suc (length b)) rest (omega arith)) k)
          (omega arith)))
]

-- Decoding a frame ends on every input: its fuel is never used up.
pub decode_frame-ne_out_of_fuel :
    (slice_limit : ℕ) (buf : Bytes) → decode_frame slice_limit buf ≢ out_of_fuel
unfolding decode_frame
decode_frame-ne_out_of_fuel slice_limit [] = λ e. cc
decode_frame-ne_out_of_fuel slice_limit (w ∷ []) = λ e. cc
decode_frame-ne_out_of_fuel slice_limit (w ∷ x ∷ []) = λ e. cc
decode_frame-ne_out_of_fuel slice_limit (w ∷ x ∷ y ∷ []) = λ e. cc
decode_frame-ne_out_of_fuel slice_limit (w ∷ x ∷ y ∷ z ∷ b) =
    decode_body-ne_out_of_fuel slice_limit _ b

-- A payload with any header, `argc` announced arguments, and anything behind.
abbrev pub announce : (ver typ flags req_id opcode argc : ℕ) → Bytes → Bytes
announce ver typ flags req_id opcode argc junk =
    ver ∷ typ ∷ (be16 flags ++ (be32 req_id ++ (be16 opcode ++ (put_uvarint argc ++ junk))))

read_frame-announce :
    (slice_limit fuel ver typ flags req_id opcode argc total : ℕ) (junk : Bytes)
    → argc < 2 ^ 64
    → slice_limit < argc
    → decoded total
        (read_frame (read_args slice_limit fuel) (announce ver typ flags req_id opcode argc junk))
      ≡ crashed
unfolding decoded read_frame read_args make_slice
read_frame-announce slice_limit fuel ver typ flags req_id opcode argc total junk h past =
    rw (read_uvarint-put_uvarint argc junk h) (ground arith)

decode_body_whole :
    (slice_limit n : ℕ) (b : Bytes)
    → n ≤ length b
    → decode_body slice_limit n b
      ≡ decoded (4 + n) (read_frame (read_args slice_limit (suc (length b))) b)
unfolding decode_body
decode_body_whole slice_limit n b h = ground arith

-- A frame that announces more arguments than the runtime can allocate crashes the client, with
-- any header and whatever follows the count, as soon as its announced length has arrived.
pub decode_frame_crashes :
    (slice_limit ver typ flags req_id opcode argc n : ℕ) (junk : Bytes)
    → argc < 2 ^ 64
    → slice_limit < argc
    → n < 2 ^ 32
    → n ≤ length (announce ver typ flags req_id opcode argc junk)
    → decode_frame slice_limit (be32 n ++ announce ver typ flags req_id opcode argc junk) ≡ crashed
unfolding decode_frame
decode_frame_crashes slice_limit ver typ flags req_id opcode argc n junk h past fits whole =
    let body : Bytes = announce ver typ flags req_id opcode argc junk in
    rw (bytes_u32 n fits) (
      decode_body_whole slice_limit n body whole
      ∙ read_frame-announce slice_limit (suc (length body)) ver typ flags req_id opcode argc (4 + n)
          junk h past)
