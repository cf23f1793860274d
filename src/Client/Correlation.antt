-- ===== src/Client/Correlation.antt =====
-- A request gets the first response that carries its number, whatever else arrives.
use lotor_go.Common.{
  ℕ, ◌≡◌, refl, ◌∙◌, true, false, ◌&&◌, some, List, [], ◌∷◌, inl, inr, Bool-cases, ◌==◌,
  if◌then◌else◌, arith,
}
use lotor_go.Wire.Frames.{Frame, frame_resp, frame_event}
use lotor_go.Client.{
  Slot, waiting, delivered, Client, Loop, mem, remove, put_slot, get_slot, deliver, handle,
}

get_slot-put_slot :
    (id k : ℕ) (s t : Slot) (slots : List (ℕ × Slot))
    → (k == id) ≡ true
    → get_slot id slots ≡ some t
    → get_slot id (put_slot k s slots) ≡ some s
unfolding get_slot put_slot
get_slot-put_slot id k s t [] same h = cc
get_slot-put_slot id k s t ((j, u) ∷ slots) same h =
    ground (arith, get_slot-put_slot id k s t slots same)

get_slot-put_other :
    (id k : ℕ) (s : Slot) (slots : List (ℕ × Slot))
    → (k == id) ≡ false
    → get_slot id (put_slot k s slots) ≡ get_slot id slots
unfolding get_slot put_slot
get_slot-put_other id k s [] n = refl
get_slot-put_other id k s ((j, u) ∷ slots) n = ground (arith, get_slot-put_other id k s slots n)

mem-remove : (id k : ℕ) (ids : List ℕ) → (k == id) ≡ true → mem id (remove k ids) ≡ false
unfolding mem remove
mem-remove id k [] same = refl
mem-remove id k (j ∷ ids) same = ground (arith, mem-remove id k ids same)

mem-same : (id k : ℕ) (ids : List ℕ) → (k == id) ≡ true → mem k ids ≡ mem id ids
mem-same id k ids same = (let equal : k ≡ id = ground arith in rw equal refl)

mem-remove_other :
    (id k : ℕ) (ids : List ℕ) → (k == id) ≡ false → mem id (remove k ids) ≡ mem id ids
unfolding mem remove
mem-remove_other id k [] n = refl
mem-remove_other id k (j ∷ ids) n = ground (arith, mem-remove_other id k ids n)

-- The first response to the request among frames in their order.
abbrev pub first_response : ℕ → List Frame → Slot
first_response id [] = waiting
first_response id (f ∷ frames) =
    if f.typ == frame_resp && (f.req_id == id) then delivered f else first_response id frames

unfoldable pub handle_all : List Frame → Loop → Loop
handle_all [] l = l
handle_all (f ∷ frames) l = handle_all frames (handle f l)

client-handle :
    (f : Frame) (l : Loop)
    → (handle f l).client ≡ (if f.typ == frame_resp then deliver f l.client else l.client)
unfolding handle
client-handle f l = elim (Bool-cases (f.typ == frame_resp)) [
  | inl e ↦ rw e refl
  | inr e ↦
      rw e (elim (Bool-cases (f.typ == frame_event)) [ inl d ↦ rw d refl | inr d ↦ rw d refl ])
]

-- The request still waits for its response.
abbrev pub Waits : ℕ → Client → Type 0
Waits id c = (mem id c.pend ≡ true) × (get_slot id c.channels ≡ some waiting)

-- The request has its slot, and no frame can reach it any more.
Settled : ℕ → Slot → Client → Type 0
Settled id s c = (mem id c.pend ≡ false) × (get_slot id c.channels ≡ some s)

deliver-Waits :
    (id : ℕ) (f : Frame) (c : Client)
    → (f.req_id == id) ≡ false
    → Waits id c
    → Waits id (deliver f c)
unfolding deliver
deliver-Waits id f c n (there, slot) = elim (Bool-cases (mem f.req_id c.pend)) [
  | inr e ↦ rw e (there, slot)
  | inl e ↦ rw e (
    mem-remove_other id f.req_id c.pend n ∙ there,
    get_slot-put_other id f.req_id (delivered f) c.channels n ∙ slot,
  )
]

deliver-Settled :
    (id : ℕ) (f : Frame) (c : Client)
    → (f.req_id == id) ≡ true
    → Waits id c
    → Settled id (delivered f) (deliver f c)
unfolding deliver Settled
deliver-Settled id f c n (there, slot) = rw (mem-same id f.req_id c.pend n ∙ there) (
  mem-remove id f.req_id c.pend n,
  get_slot-put_slot id f.req_id (delivered f) waiting c.channels n slot,
)

stays-Settled :
    (id : ℕ) (s : Slot) (f : Frame) (c : Client) → Settled id s c → Settled id s (deliver f c)
unfolding deliver Settled
stays-Settled id s f c (gone, slot) = elim (Bool-cases (f.req_id == id)) [
  | inl n ↦ rw (mem-same id f.req_id c.pend n ∙ gone) (gone, slot)
  | inr n ↦ elim (Bool-cases (mem f.req_id c.pend)) [
    | inr e ↦ rw e (gone, slot)
    | inl e ↦ rw e (
      mem-remove_other id f.req_id c.pend n ∙ gone,
      get_slot-put_other id f.req_id (delivered f) c.channels n ∙ slot,
    )
  ]
]

handle-Settled :
    (id : ℕ) (s : Slot) (f : Frame) (l : Loop)
    → Settled id s l.client
    → Settled id s (handle f l).client
handle-Settled id s f l h = rw (client-handle f l) (elim (Bool-cases (f.typ == frame_resp)) [
  | inl e ↦ rw e (stays-Settled id s f l.client h)
  | inr e ↦ rw e h
])

handle_all-Settled :
    (id : ℕ) (s : Slot) (frames : List Frame) (l : Loop)
    → Settled id s l.client
    → get_slot id (handle_all frames l).client.channels ≡ some s
unfolding handle_all Settled
handle_all-Settled id s [] l h = h.1
handle_all-Settled id s (f ∷ frames) l h =
    handle_all-Settled id s frames (handle f l) (handle-Settled id s f l h)

-- A request that waits is given the first response that carries its number among the frames that
-- arrive, and keeps it; frames of other requests, events and other types leave it alone, and it
-- still waits if there is none.
pub handle_all_first :
    (id : ℕ) (frames : List Frame) (l : Loop)
    → Waits id l.client
    → get_slot id (handle_all frames l).client.channels ≡ some (first_response id frames)
unfolding handle_all
handle_all_first id [] l h = h.1
handle_all_first id (f ∷ frames) l h = elim (Bool-cases (f.typ == frame_resp)) [
  | inr e ↦ rw e (handle_all_first id frames (handle f l) (rw (client-handle f l, e) h))
  | inl e ↦ elim (Bool-cases (f.req_id == id)) [
    | inr n ↦
        rw (e, n)
          (handle_all_first id frames (handle f l)
            (rw (client-handle f l, e) (deliver-Waits id f l.client n h)))
    | inl n ↦
        rw (e, n)
          (handle_all-Settled id (delivered f) frames (handle f l)
            (rw (client-handle f l, e) (deliver-Settled id f l.client n h)))
  ]
]
