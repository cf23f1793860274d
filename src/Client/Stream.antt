-- ===== src/Client/Stream.antt =====
-- The read loop over a stream of frames, however the network cuts the stream into reads.
use mathlib.Core.List.{map-append}
use lotor_go.Common.{
  ℕ, suc, ◌≡◌, refl, sym, ap, ◌∙◌, Option, none, some, List, [], ◌∷◌, ◌++◌, map, append_assoc,
  length, length-append, All, arith,
}
use lotor_go.Common.Bytes.{Bytes}
use lotor_go.Wire.Frames.{Frame, encode_frame}
use lotor_go.Wire.Frames.RoundTrip.{IsSendable, sorted_frame}
use lotor_go.Client.{Loop, handle, receive, get_slot}
use lotor_go.Client.Correlation.{handle_all, Waits, first_response, handle_all_first}
use lotor_go.Client.Drain.{
  written, wire, Waiting, Drained, handle_all_buffer, frame_has_bytes, drain_frames,
}

unfoldable pub concat : List Bytes → Bytes
concat [] = []
concat (chunk ∷ chunks) = chunk ++ concat chunks

then_read : (Loop → Option Loop) → Option Loop → Option Loop
then_read more none = none
then_read more (some l) = more l

-- Reads one after the other, the first one first.
unfoldable pub receive_all : ℕ → List Bytes → Loop → Option Loop
unfolding then_read
receive_all slice_limit [] l = some l
receive_all slice_limit (chunk ∷ chunks) l =
    then_read (receive_all slice_limit chunks) (receive slice_limit chunk l)

handle_all-append :
    (xs ys : List Frame) (l : Loop) → handle_all (xs ++ ys) l ≡ handle_all ys (handle_all xs l)
unfolding handle_all
handle_all-append [] ys l = refl
handle_all-append (f ∷ xs) ys l = handle_all-append xs ys (handle f l)

-- A buffer that is put in on the way makes no difference but to the buffer.
forget_buffers :
    (xs ys frames : List Frame) (l : Loop) (b c : Bytes)
    → xs ++ ys ≡ frames
    → record (handle_all
        (map sorted_frame ys)
        (record (handle_all (map sorted_frame xs) (record l { buffer = b })) { buffer = c })) {
          buffer = [];
        }
      ≡ record (handle_all (map sorted_frame frames) l) { buffer = [] }
forget_buffers xs ys frames l b c e =
    let X = map sorted_frame xs in
    let Y = map sorted_frame ys in
    let blank : Loop → Loop = λ m. record m { buffer = [] } in
    ap blank (handle_all_buffer Y (handle_all X (record l { buffer = b })) c)
    ∙ ap blank (sym (handle_all-append X Y (record l { buffer = b })))
    ∙ ap blank (handle_all_buffer (X ++ Y) l b)
    ∙ ap (λ (fs : List Frame). blank (handle_all fs l))
        (sym (map-append sorted_frame xs ys) ∙ ap (map sorted_frame) e)

receive_all_step :
    (slice_limit : ℕ) (chunk : Bytes) (chunks : List Bytes) (l m : Loop)
    → receive slice_limit chunk l ≡ some m
    → receive_all slice_limit (chunk ∷ chunks) l ≡ receive_all slice_limit chunks m
unfolding receive_all then_read
receive_all_step slice_limit chunk chunks l m e = ap (then_read (receive_all slice_limit chunks)) e

nothing_left :
    (slice_limit : ℕ) (frames : List Frame) (l : Loop)
    → l.buffer ++ [] ≡ wire frames
    → Waiting frames l.buffer
    → some l ≡ some (record (handle_all (map sorted_frame frames) l) { buffer = [] })
unfolding wire Waiting handle_all
nothing_left slice_limit [] l e w = ap (λ (b : Bytes). some (record l { buffer = b })) w
nothing_left slice_limit (f ∷ frames) l e w = absurd (
    omega (
      arith,
      ap length e,
      length-append l.buffer [],
      length-append (written (encode_frame f)) (wire frames),
    ))

Waiting-nil :
    (slice_limit : ℕ) (frames : List Frame) (b : Bytes)
    → All (IsSendable slice_limit) frames
    → b ≡ []
    → Waiting frames b
unfolding Waiting
Waiting-nil slice_limit [] b s empty = empty
Waiting-nil slice_limit (f ∷ frames) b (s, more) empty =
    omega (arith, ap length empty, frame_has_bytes slice_limit f s)

receive_frames :
    (slice_limit : ℕ) (chunks : List Bytes) (frames : List Frame) (l : Loop)
    → All (IsSendable slice_limit) frames
    → l.buffer ++ concat chunks ≡ wire frames
    → Waiting frames l.buffer
    → receive_all slice_limit chunks l
      ≡ some (record (handle_all (map sorted_frame frames) l) { buffer = [] })
unfolding receive_all concat receive
receive_frames slice_limit [] frames l s e w = nothing_left slice_limit frames l e w
receive_frames slice_limit (chunk ∷ chunks) frames l s e w =
    let all : Bytes = l.buffer ++ chunk in
    let d : Drained slice_limit (suc (length all)) (record l { buffer = all }) frames
        (concat chunks) =
      drain_frames slice_limit (suc (length all)) (record l { buffer = all }) frames (concat chunks)
        s (append_assoc l.buffer chunk (concat chunks) ∙ e) (omega arith) in
    let m : Loop = record (handle_all (map sorted_frame d.handled) (record l { buffer = all })) {
      buffer = d.rest;
    } in
    receive_all_step slice_limit chunk chunks l m d.drained
    ∙ receive_frames slice_limit chunks d.left m d.left_sendable d.rest_begins d.rest_waits
    ∙ ap some (forget_buffers d.handled d.left frames l all d.rest d.all_frames)

-- However the network cuts the encodings of sent frames into reads, the read loop handles those
-- frames, each once and in their order, with their maps in key order, and no byte is left over; it
-- starts with an empty buffer.
pub receive_all-wire :
    (slice_limit : ℕ) (chunks : List Bytes) (frames : List Frame) (l : Loop)
    → All (IsSendable slice_limit) frames
    → concat chunks ≡ wire frames
    → l.buffer ≡ []
    → receive_all slice_limit chunks l ≡ some (handle_all (map sorted_frame frames) l)
receive_all-wire slice_limit chunks frames l s e empty =
    receive_frames slice_limit chunks frames l s (ap (λ (b : Bytes). b ++ concat chunks) empty ∙ e)
      (Waiting-nil slice_limit frames l.buffer s empty)
    ∙ ap some (
        sym (handle_all_buffer (map sorted_frame frames) l [])
        ∙ ap (λ (b : Bytes). handle_all (map sorted_frame frames) (record l { buffer = b }))
            (sym empty))

-- However the network cuts the encodings of sent frames into reads, a request that waits is given
-- the first of them that is a response with its number, and still waits if there is none; the read
-- loop starts with an empty buffer and does not panic.
pub receive_all_first :
    (slice_limit : ℕ) (chunks : List Bytes) (frames : List Frame) (l : Loop) (id : ℕ)
    → All (IsSendable slice_limit) frames
    → concat chunks ≡ wire frames
    → l.buffer ≡ []
    → Waits id l.client
    → (m : Loop) × (receive_all slice_limit chunks l ≡ some m)
      × (get_slot id m.client.channels ≡ some (first_response id (map sorted_frame frames)))
receive_all_first slice_limit chunks frames l id s e empty waits = (
  handle_all (map sorted_frame frames) l,
  receive_all-wire slice_limit chunks frames l s e empty,
  handle_all_first id (map sorted_frame frames) l waits,
)
