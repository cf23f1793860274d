-- ===== src/Client/Tests.antt =====
-- A client with two requests, and the theorems about it applied to concrete frames.
use lotor_go.Common.{◌<◌, ◌^◌, take, drop, map, arith, ℕ, ◌≡◌, refl, true, some, List, [], ◌∷◌}
use lotor_go.Common.Bytes.{Bytes, ascii}
use lotor_go.Wire.Values.{Values, nil, cons, bool, str}
use lotor_go.Wire.Numbers.{put_uvarint, uvarint_loop, int_to_uint32}
use lotor_go.Wire.Values.{encode_value, put_bytes}
use lotor_go.Wire.Values.Shape.{Fits}
use lotor_go.Wire.Frames.RoundTrip.{IsSendable, sorted_frame}
use lotor_go.Wire.Frames.{payload, encode_frame, Frame, frame_resp, status_ok}
use lotor_go.Client.{Loop, waiting, mem, get_slot}
use lotor_go.Client.Correlation.{Waits, first_response, handle_all}
use lotor_go.Client.Drain.{written, wire}
use lotor_go.Client.Stream.{concat, receive_all, receive_all-wire, receive_all_first}

abbrev response : ℕ → Bytes → Frame
response id s = record {
  args = cons (str s) nil;
  typ = frame_resp;
  flags = 0;
  req_id = id;
  opcode = status_ok;
}

abbrev two_requests : Loop
two_requests = record {
  client = record {
    pend = 2 ∷ 1 ∷ [];
    channels = (2, waiting) ∷ (1, waiting) ∷ [];
    next_id = 2;
    subs = [];
  };
  buffer = [];
  events = [];
}

abbrev arrivals : List Frame
arrivals = response 2 (ascii "b") ∷ response 1 (ascii "a") ∷ response 1 (ascii "c") ∷ []

first-Waits : Waits 1 two_requests.client
unfolding mem get_slot
first-Waits = (refl, refl)

response-IsSendable : (id : ℕ) → id < 2 ^ 32 → IsSendable 1000 (response id (ascii "a"))
unfolding payload encode_value put_bytes put_uvarint uvarint_loop Fits
response-IsSendable id h = record {
  typ_byte = omega arith;
  flags_u16 = omega arith;
  req_id_u32 = h;
  opcode_u16 = omega arith;
  args_fit = (omega arith, tt);
  few_args = omega arith;
  count_u64 = omega arith;
  payload_u32 = omega arith;
}

abbrev sent : List Frame
sent = response 2 (ascii "a") ∷ response 1 (ascii "a") ∷ []

-- The first read ends inside the first frame.
abbrev reads : List Bytes
reads = take 7 (wire sent) ∷ drop 7 (wire sent) ∷ []

reads-wire : concat reads ≡ wire sent
unfolding concat wire written encode_frame int_to_uint32 payload encode_value put_bytes put_uvarint
    uvarint_loop
reads-wire = refl

receive_all-wire_example :
    receive_all 1000 reads two_requests ≡ some (handle_all (map sorted_frame sent) two_requests)
receive_all-wire_example =
    receive_all-wire 1000 reads sent two_requests
      (response-IsSendable 2 (omega arith), (response-IsSendable 1 (omega arith), tt)) reads-wire
      refl

receive_all_first_example :
    (m : Loop) × (receive_all 1000 reads two_requests ≡ some m)
    × (get_slot 1 m.client.channels ≡ some (first_response 1 (map sorted_frame sent)))
receive_all_first_example =
    receive_all_first 1000 reads sent two_requests 1
      (response-IsSendable 2 (omega arith), (response-IsSendable 1 (omega arith), tt)) reads-wire
      refl first-Waits

-- A reply of three values, too short for most readers.
abbrev short_reply : Values
short_reply = cons (bool true) (cons (str (ascii "r")) (cons (bool true) nil))
