-- ===== src/Wire/Tests.antt =====
-- Concrete runs of the codec, and the theorems about it at concrete inputs.
use lotor_go.Common.{ℕ, ◌^◌, ◌≡◌, refl, sym, ◌≢◌, some, true, [], ◌∷◌, ◌++◌, length, arith}
use lotor_go.Common.Bytes.{Bytes, ascii, bytes_lt, bytes_eq_iff}
use lotor_go.Common.Int.{negsuc}
use lotor_go.Wire.Reader.{done, stuck}
use lotor_go.Wire.Numbers.{uvarint_loop, put_uvarint, zigzag}
use lotor_go.Wire.Values.{
  Value, Entries, null, bool, u64, i64, addr, list, map, nil, cons, end, entry, insert_key,
  sort_keys, put_bytes, put_fields, encode_value, decode_value,
}
use lotor_go.Wire.Values.Sorting.{lookup}
use lotor_go.Wire.Values.Canonical.{pairs, encode_value_canonical}
use lotor_go.Wire.Values.Shape.{Fits, depth, sort_maps}
use lotor_go.Wire.Values.RoundTrip.{decode_value-encode_value}
use lotor_go.Wire.Values.Totality.{decode_value-ne_stuck}
use lotor_go.Wire.Frames.{
  Frame, be32, payload, encode_frame, complete, incomplete, crashed, out_of_fuel, decode_frame,
}
use lotor_go.Wire.Frames.RoundTrip.{
  IsSendable, sorted_frame, encode_frame-payload, decode_frame-encode_frame,
}
use lotor_go.Wire.Frames.Streams.{
  decode_frame_waits, decode_frame-ne_out_of_fuel, announce, decode_frame_crashes,
}

abbrev two_keys : Entries
two_keys = entry (ascii "b") (u64 300) (entry (ascii "a") (i64 (negsuc 4)) end)

abbrev swapped : Entries
swapped = entry (ascii "a") (i64 (negsuc 4)) (entry (ascii "b") (u64 300) end)

abbrev sample : Value
sample = list (cons (map two_keys) (cons (addr (ascii "org:x")) (cons (bool true) nil)))

abbrev question : Frame
question = record {
  args = cons sample (cons null nil);
  typ = 1;
  flags = 0;
  req_id = 77;
  opcode = 0x20;
}

-- A map goes out in key order: the number -5 under "a", then 300 under "b".
map_bytes : encode_value (map two_keys) ≡ 8 ∷ 2 ∷ 1 ∷ b'a' ∷ 3 ∷ 9 ∷ 1 ∷ b'b' ∷ 2 ∷ 0xac ∷ 2 ∷ []
unfolding encode_value put_fields sort_keys insert_key put_bytes put_uvarint uvarint_loop zigzag
    bytes_lt
map_bytes = refl

a≢b : ◌≢◌ {A = Bytes} (ascii "a") (ascii "b")
a≢b e = absurd (ground (arith, e))

two_keys-Fits : (n : ℕ) → Fits n (map two_keys)
unfolding Fits
two_keys-Fits n =
    (omega arith, ((a≢b, tt), (tt, tt)), (omega arith, omega arith, (omega arith, omega arith, tt)))

sample-Fits : Fits 1000 sample
unfolding Fits
sample-Fits = (omega arith, omega arith, (two_keys-Fits 1000, (omega arith, (tt, tt))))

question-IsSendable : IsSendable 1000 question
unfolding payload encode_value put_fields sort_keys insert_key put_bytes put_uvarint uvarint_loop
    zigzag bytes_lt Fits
question-IsSendable = record {
  typ_byte = omega arith;
  flags_u16 = omega arith;
  req_id_u32 = omega arith;
  opcode_u16 = omega arith;
  args_fit = (sample-Fits, (tt, tt));
  few_args = omega arith;
  count_u64 = omega arith;
  payload_u32 = omega arith;
}

decode_frame-encode_frame_example :
    (code : Bytes) × (encode_frame question ≡ some code)
    × (decode_frame 1000 (code ++ (9 ∷ 9 ∷ [])) ≡ complete (sorted_frame question) (length code))
decode_frame-encode_frame_example =
    decode_frame-encode_frame 1000 question (9 ∷ 9 ∷ []) question-IsSendable

decode_value-encode_value_example :
    decode_value 1000 5 (encode_value sample ++ (7 ∷ [])) ≡ done (sort_maps sample) (7 ∷ [])
decode_value-encode_value_example =
    decode_value-encode_value 1000 sample 5 (7 ∷ []) sample-Fits (unfold depth in omega arith)

same_map : (k : Bytes) → lookup k (pairs two_keys) ≡ lookup k (pairs swapped)
unfolding lookup
same_map k = ground (
  arith,
  bytes_eq_iff (ascii "a") k,
  bytes_eq_iff (ascii "b") k,
  λ (e : ascii "a" ≡ ascii "b"). a≢b e,
)

encode_value_canonical_example : encode_value (map two_keys) ≡ encode_value (map swapped)
encode_value_canonical_example =
    encode_value_canonical two_keys swapped ((a≢b, tt), (tt, tt))
      (((λ e. a≢b (sym e)), tt), (tt, tt)) same_map

abbrev front : Bytes
front = 0 ∷ 0 ∷ 0 ∷ []

question_splits :
    be32 (length (payload question)) ++ payload question
    ≡ front ++ length (payload question) ∷ payload question
unfolding payload encode_value put_fields sort_keys insert_key put_bytes put_uvarint uvarint_loop
    zigzag bytes_lt
question_splits = refl

decode_frame_waits_example : decode_frame 1000 front ≡ incomplete
decode_frame_waits_example =
    decode_frame_waits 1000 question (be32 (length (payload question)) ++ payload question) front
      (length (payload question)) (payload question) question-IsSendable
      (encode_frame-payload 1000 question question-IsSendable) question_splits

decode_frame-ne_out_of_fuel_example : decode_frame 10 (0 ∷ 0 ∷ 0 ∷ 1 ∷ 1 ∷ []) ≢ out_of_fuel
decode_frame-ne_out_of_fuel_example = decode_frame-ne_out_of_fuel 10 (0 ∷ 0 ∷ 0 ∷ 1 ∷ 1 ∷ [])

decode_value-ne_stuck_example : decode_value 10 9 (7 ∷ 1 ∷ 7 ∷ 1 ∷ []) ≢ stuck
decode_value-ne_stuck_example = decode_value-ne_stuck 10 9 (7 ∷ 1 ∷ 7 ∷ 1 ∷ []) (omega arith)

-- Fourteen bytes and a length prefix, on a runtime that allocates at most 2 ^ 41 values.
decode_frame_crashes_example :
    decode_frame (2 ^ 41) (be32 10 ++ announce 1 2 0 1 0 (2 ^ 50) []) ≡ crashed
unfolding put_uvarint uvarint_loop
decode_frame_crashes_example =
    decode_frame_crashes (2 ^ 41) 1 2 0 1 0 (2 ^ 50) 10 [] (omega arith) (omega arith) (omega arith)
      (omega arith)
