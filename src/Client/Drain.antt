-- ===== src/Client/Drain.antt =====
-- The inner loop of readLoop on a buffer that begins the encodings of frames.
use lotor_go.Common.{
  ℕ, zero, suc, ◌≤◌, ◌<◌, ◌≡◌, refl, ap, ◌∙◌, Option, none, some, List, [], ◌∷◌, ◌++◌, map, length,
  length-append, drop, drop_append, All, append-split, Bool-cases, ◌==◌, inl, inr, arith,
}
use lotor_go.Common.Bytes.{Bytes}
use lotor_go.Wire.Frames.{
  Frame, encode_frame, incomplete, complete, decode_frame, frame_resp, frame_event,
}
use lotor_go.Wire.Frames.RoundTrip.{
  IsSendable, sorted_frame, encode_frame-payload, decode_frame-encode_frame,
}
use lotor_go.Wire.Frames.Streams.{decode_frame_nil, decode_frame_waits}
use lotor_go.Client.{Loop, handle, drain, taken}
use lotor_go.Client.Correlation.{handle_all}

unfoldable pub written : Option Bytes → Bytes
written none = []
written (some code) = code

-- The encodings of frames, one behind the other.
unfoldable pub wire : List Frame → Bytes
unfolding written
wire [] = []
wire (f ∷ frames) = written (encode_frame f) ++ wire frames

pub handle_buffer :
    (f : Frame) (l : Loop) (b : Bytes)
    → handle f (record l { buffer = b }) ≡ record (handle f l) { buffer = b }
unfolding handle
handle_buffer f l b = elim (Bool-cases (f.typ == frame_resp)) [
  | inl e ↦ rw e refl
  | inr e ↦
      rw e (elim (Bool-cases (f.typ == frame_event)) [ inl d ↦ rw d refl | inr d ↦ rw d refl ])
]

drain_waits :
    (slice_limit fuel : ℕ) (l : Loop)
    → decode_frame slice_limit l.buffer ≡ incomplete
    → drain slice_limit (suc fuel) l ≡ some l
unfolding drain taken
drain_waits slice_limit fuel l e = rw e refl

drain_takes :
    (slice_limit fuel n : ℕ) (l : Loop) (f : Frame)
    → decode_frame slice_limit l.buffer ≡ complete f n
    → drain slice_limit (suc fuel) l
      ≡ drain slice_limit fuel (handle f (record l { buffer = drop n l.buffer }))
unfolding drain taken
drain_takes slice_limit fuel n l f e = rw e refl

pub handle_all_buffer :
    (frames : List Frame) (l : Loop) (b : Bytes)
    → handle_all frames (record l { buffer = b }) ≡ record (handle_all frames l) { buffer = b }
unfolding handle_all
handle_all_buffer [] l b = refl
handle_all_buffer (f ∷ frames) l b =
    ap (handle_all frames) (handle_buffer f l b) ∙ handle_all_buffer frames (handle f l) b

-- What is left in the buffer when the loop waits: less than the next frame.
unfoldable pub Waiting : List Frame → Bytes → Type 0
Waiting [] b = b ≡ []
Waiting (f ∷ frames) b = length b < length (written (encode_frame f))

-- A buffer that begins the encodings of frames: the loop has handled some, and waits for the others.
pub record Drained (slice_limit fuel : ℕ) (l : Loop) (frames : List Frame) (later : Bytes)
    : Type 0 where
  pub handled : List Frame
  pub left : List Frame
  pub rest : Bytes
  pub all_frames : handled ++ left ≡ frames
  pub rest_begins : rest ++ later ≡ wire left
  pub left_sendable : All (IsSendable slice_limit) left
  pub rest_waits : Waiting left rest
  pub drained :
      drain slice_limit fuel l
      ≡ some (record (handle_all (map sorted_frame handled) l) { buffer = rest })

encoded :
    (slice_limit : ℕ) (f : Frame)
    → IsSendable slice_limit f
    → encode_frame f ≡ some (written (encode_frame f))
unfolding written
encoded slice_limit f s =
    let (code, e, d) = decode_frame-encode_frame slice_limit f [] s in rw e refl

decodes :
    (slice_limit : ℕ) (f : Frame) (rest : Bytes)
    → IsSendable slice_limit f
    → decode_frame slice_limit (written (encode_frame f) ++ rest)
      ≡ complete (sorted_frame f) (length (written (encode_frame f)))
unfolding written
decodes slice_limit f rest s =
    let (code, e, d) = decode_frame-encode_frame slice_limit f rest s in rw e d

-- An empty buffer is never a frame, so that a frame has bytes.
pub frame_has_bytes :
    (slice_limit : ℕ) (f : Frame) → IsSendable slice_limit f → 1 ≤ length (written (encode_frame f))
unfolding written
frame_has_bytes slice_limit f s = rw (encode_frame-payload slice_limit f s) (omega arith)

-- Nothing of the next frame is complete.
nothing_taken :
    (slice_limit fuel : ℕ) (l : Loop) (frames : List Frame) (later : Bytes)
    → All (IsSendable slice_limit) frames
    → l.buffer ++ later ≡ wire frames
    → Waiting frames l.buffer
    → decode_frame slice_limit l.buffer ≡ incomplete
    → Drained slice_limit (suc fuel) l frames later
unfolding handle_all
nothing_taken slice_limit fuel l frames later s e w d = record {
  handled = [];
  left = frames;
  rest = l.buffer;
  all_frames = refl;
  rest_begins = e;
  left_sendable = s;
  rest_waits = w;
  drained = drain_waits slice_limit fuel l d;
}

-- The first frame is taken, and the loop goes on.
one_taken :
    (slice_limit fuel : ℕ) (l : Loop) (f : Frame) (frames : List Frame) (after later : Bytes)
    → IsSendable slice_limit f
    → l.buffer ≡ written (encode_frame f) ++ after
    → Drained slice_limit fuel (record (handle (sorted_frame f) l) { buffer = after }) frames later
    → Drained slice_limit (suc fuel) l (f ∷ frames) later
unfolding handle_all
one_taken slice_limit fuel l f frames after later s e d =
    let code = written (encode_frame f) in
    let step : drain slice_limit (suc fuel) l
        ≡ drain slice_limit fuel (record (handle (sorted_frame f) l) { buffer = after }) =
      drain_takes slice_limit fuel (length code) l (sorted_frame f)
        (ap (decode_frame slice_limit) e ∙ decodes slice_limit f after s)
      ∙ ap
          (λ (b : Bytes).
            drain slice_limit fuel (handle (sorted_frame f) (record l { buffer = b })))
          (ap (drop (length code)) e ∙ drop_append code after)
      ∙ ap (drain slice_limit fuel) (handle_buffer (sorted_frame f) l after) in
    record {
      handled = f ∷ d.handled;
      left = d.left;
      rest = d.rest;
      all_frames = ap (λ (fs : List Frame). f ∷ fs) d.all_frames;
      rest_begins = d.rest_begins;
      left_sendable = d.left_sendable;
      rest_waits = d.rest_waits;
      drained =
          step
          ∙ d.drained
          ∙ ap some (
              ap (λ (m : Loop). record m { buffer = d.rest })
                (handle_all_buffer (map sorted_frame d.handled) (handle (sorted_frame f) l) after));
    }

nil_of_append : (p q : Bytes) → p ++ q ≡ [] → p ≡ []
nil_of_append [] q e = refl
nil_of_append (x ∷ p) q e = cc

-- A loop whose buffer begins the encodings of frames handles those that are complete.
pub drain_frames :
    (slice_limit fuel : ℕ) (l : Loop) (frames : List Frame) (later : Bytes)
    → All (IsSendable slice_limit) frames
    → l.buffer ++ later ≡ wire frames
    → length l.buffer < fuel
    → Drained slice_limit fuel l frames later
unfolding wire Waiting
drain_frames slice_limit zero l frames later s e h = absurd (omega arith)
drain_frames slice_limit (suc fuel) l [] later s e h =
    let empty : l.buffer ≡ [] = nil_of_append l.buffer later e in
    nothing_taken slice_limit fuel l [] later s e empty
      (ap (decode_frame slice_limit) empty ∙ decode_frame_nil slice_limit)
drain_frames slice_limit (suc fuel) l (f ∷ frames) later (s, more) e h =
    let code = written (encode_frame f) in
    elim (append-split l.buffer later code (wire frames) e) [
      | inl (after, d, r) ↦ one_taken slice_limit fuel l f frames after later s d (
          drain_frames slice_limit fuel (record (handle (sorted_frame f) l) { buffer = after })
            frames later more r
            (omega (arith, ap length d, length-append code after, frame_has_bytes slice_limit f s)))
      | inr (x, back, d) ↦
          nothing_taken slice_limit fuel l (f ∷ frames) later (s, more) e
            (omega (arith, ap length d, length-append l.buffer (x ∷ back)))
            (decode_frame_waits slice_limit f code l.buffer x back s (encoded slice_limit f s) d)
    ]
