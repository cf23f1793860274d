-- ===== src/Bridge/Runtime/Serve/Interleaving.antt =====
-- Requests of bridge/runtime.go served at the same time over one journal, interleaved in any
-- order, with requests that are never finished because their server stops.
use native.Mathlib.Omega.{arith}
use lotor_go.Common.{
  ℕ, suc, ◌+◌, ◌≤◌, ◌≡◌, refl, inl, inr, Bool, Option, none, some, List, [], ◌∷◌, ◌++◌,
  if◌then◌else◌, Bool-cases,
}
use lotor_go.Common.Once.{times}
use lotor_go.Common.Bytes.{Bytes, bytes_eq, bytes_eq_iff}
use mathlib.Core.Path.{subst, sym}
use lotor_go.Bridge.Platform.{Result, Platform}
use lotor_go.Bridge.Protocol.{Error}
use lotor_go.Bridge.Journal.{Journal, fresh}
use lotor_go.Bridge.Runtime.{Runtime}
use lotor_go.Bridge.Runtime.Admission.{Request, Env}
use lotor_go.Bridge.Runtime.Serve.{World, completed}
use lotor_go.Bridge.Runtime.Serve.Steps.{
  OwnedCall, Turn, answered, claimed, begin, call_handler, conclude,
}
use lotor_go.Bridge.Runtime.Serve.Arrival.{Arrival, passed, asked, owned, begin-Arrival}

-- A request between two of its moments: before its handler, or with the output of it.
pub data Flight (F : Type 0) : Type 0 where
  reserved : OwnedCall F → Flight F
  executed : OwnedCall F → Option Bytes → Flight F

pub record System (S F : Type 0) : Type 0 where
  pub world : World S
  pub flights : List (Flight F)

-- A request that is answered does not fly.
unfoldable pub launch : {F : Type 0} → Turn F → List (Flight F) → List (Flight F)
launch (answered r) l = l
launch (claimed c) l = reserved c ∷ l

module _ {S F : Type 0} (platform : Platform) (journal : Journal S F) where
  pub data Step (s : System S F) : System S F → Type 0 where
    arrive :
        (runtime : Runtime) (env : Env F) (r : Request)
        → Step s (record {
          world = record s.world {
            journal = (begin platform journal runtime env r s.world.journal).1;
          };
          flights = launch (begin platform journal runtime env r s.world.journal).0 s.flights;
        })
    handle :
        (before : List (Flight F)) (c : OwnedCall F) (after : List (Flight F))
        → s.flights ≡ before ++ (reserved c ∷ after)
        → Step s (record {
          world = record s.world { runs = (call_handler platform journal c s.world.runs).1 };
          flights = before ++ (executed c (call_handler platform journal c s.world.runs).0 ∷ after);
        })
    complete :
        (before : List (Flight F)) (c : OwnedCall F) (output : Option Bytes)
        (after : List (Flight F))
        → s.flights ≡ before ++ (executed c output ∷ after)
        → Step s (record {
          world = (conclude platform journal c output s.world).1;
          flights = before ++ after;
        })
    -- the server stops with the request in it
    lose :
        (before : List (Flight F)) (x : Flight F) (after : List (Flight F))
        → s.flights ≡ before ++ (x ∷ after)
        → Step s (record s { flights = before ++ after })

  pub data Reach (journal_start : S) : System S F → Type 0 where
    start :
        Reach journal_start
          (record { world = record { journal = journal_start; runs = [] }; flights = [] })
    later : {s t : System S F} → Reach journal_start s → Step s t → Reach journal_start t

-- How many requests hold a reservation of an operation whose handler they have not called.
waiting : {F : Type 0} → Bytes → List (Flight F) → ℕ
waiting id [] = 0
waiting id (reserved c ∷ l) =
    let rest = waiting id l in if bytes_eq c.identity id then suc rest else rest
waiting id (executed c output ∷ l) = waiting id l

-- The calls of the operation's handler that have happened or still may.
pending : {S F : Type 0} → Bytes → System S F → ℕ
unfolding waiting
pending id s = waiting id s.flights + times id s.world.runs

waiting-append :
    {F : Type 0} (id : Bytes) (xs ys : List (Flight F))
    → waiting id (xs ++ ys) ≡ waiting id xs + waiting id ys
unfolding waiting
waiting-append id [] ys = omega arith
waiting-append id (executed c output ∷ xs) ys = waiting-append id xs ys
waiting-append id (reserved c ∷ xs) ys = elim (Bool-cases (bytes_eq c.identity id)) [
  | inl own ↦ rw (own, waiting-append id xs ys) (omega arith)
  | inr other ↦ rw (other, waiting-append id xs ys) refl
]

waiting-drop :
    {F : Type 0} (id : Bytes) (before : List (Flight F)) (x : Flight F) (after : List (Flight F))
    → waiting id (before ++ after) ≤ waiting id (before ++ (x ∷ after))
unfolding waiting
waiting-drop id before (executed c output) after =
    rw (waiting-append id before after, waiting-append id before (executed c output ∷ after))
      (omega arith)
waiting-drop id before (reserved c) after =
    rw (waiting-append id before after, waiting-append id before (reserved c ∷ after))
      (elim (Bool-cases (bytes_eq c.identity id)) [
        | inl own ↦ rw own (omega arith)
        | inr other ↦ rw other (omega arith)
      ])

-- A called handler moves its operation from the waiting to the run.
waiting-handled :
    {F : Type 0} (id : Bytes) (before : List (Flight F)) (c : OwnedCall F) (output : Option Bytes)
    (after : List (Flight F)) (called : Bool) (runs : List Bytes)
    → waiting id (before ++ (executed c output ∷ after))
        + times id (if called then c.identity ∷ runs else runs)
      ≤ waiting id (before ++ (reserved c ∷ after)) + times id runs
unfolding waiting
waiting-handled id before c output after called runs =
    rw
      (
        waiting-append id before (executed c output ∷ after),
        waiting-append id before (reserved c ∷ after),
      )
      (elim (Bool-cases (bytes_eq c.identity id)) [
        | inl own ↦ elim (Bool-cases called) [
          | inl ran ↦ rw (ran, own) (omega arith)
          | inr skipped ↦ rw (skipped, own) (omega arith)
        ]
        | inr other ↦ elim (Bool-cases called) [
          | inl ran ↦ rw (ran, other) (omega arith)
          | inr skipped ↦ rw (skipped, other) (omega arith)
        ]
      ])

module _ {S F : Type 0} (platform : Platform) (journal : Journal S F) where
  -- An operation has at most one call, and with one it is taken in the journal.
  record Inv (s : System S F) : Type 0 where
    few : (id : Bytes) → pending id s ≤ 1
    taken : (id : Bytes) → 1 ≤ pending id s → journal.Taken id s.world.journal

  -- A step that adds no call, and forgets nothing in the journal.
  fewer-Inv :
      {s t : System S F}
      → ((id : Bytes) → pending id t ≤ pending id s)
      → ((id : Bytes) → journal.Taken id s.world.journal → journal.Taken id t.world.journal)
      → Inv s
      → Inv t
  fewer-Inv less keeps v = record {
    few = λ id. let bound = v.few id in let step = less id in omega arith;
    taken = λ id some_call. let step = less id in keeps id (v.taken id (omega arith));
  }

  -- A new reservation is of an operation without a call.
  owned-Inv :
      (w : World S) (flights : List (Flight F)) (c : OwnedCall F) (f : F) (digest : Bytes)
      → (journal.reserve f c.identity digest w.journal).0 ≡ fresh
      → Inv (record { world = w; flights = flights })
      → Inv (record {
        world = record w { journal = (journal.reserve f c.identity digest w.journal).1 };
        flights = reserved c ∷ flights;
      })
  unfolding waiting pending
  owned-Inv w flights c f digest e v = record {
    few = λ id. elim (Bool-cases (bytes_eq c.identity id)) [
      | inl own ↦
          let same : c.identity ≡ id = (bytes_eq_iff c.identity id).0 own in
          let free : ¬ (1 ≤ waiting id flights + times id w.runs) = λ some_call.
            journal.fresh_untaken f c.identity digest w.journal e
              (subst (λ i. journal.Taken i w.journal) (sym same) (v.taken id some_call)) in
          rw own (omega arith)
      | inr other ↦ rw other (v.few id)
    ];
    taken = λ id. elim (Bool-cases (bytes_eq c.identity id)) [
      | inl own ↦ λ some_call.
          subst (λ i. journal.Taken i (journal.reserve f c.identity digest w.journal).1)
            ((bytes_eq_iff c.identity id).0 own)
            (journal.fresh_taken f c.identity digest w.journal e)
      | inr other ↦ rw other (λ some_call.
          journal.reserve_keeps f c.identity digest id w.journal (v.taken id some_call))
    ];
  }

  Arrival-Inv :
      (w : World S) (flights : List (Flight F)) (p : Turn F × S)
      → Arrival platform journal w.journal p
      → Inv (record { world = w; flights = flights })
      → Inv (record { world = record w { journal = p.1 }; flights = launch p.0 flights })
  unfolding pending launch
  Arrival-Inv w flights _ (passed r) v = v
  Arrival-Inv w flights _ (asked r f id digest) v =
      fewer-Inv (λ i. omega arith) (λ i. journal.reserve_keeps f id digest i w.journal) v
  Arrival-Inv w flights _ (owned c f digest e) v = owned-Inv w flights c f digest e v

  completed_keeps :
      (runtime : Runtime) (r : Result) (p : Option Error × S) (runs : List Bytes)
      → (completed platform journal runtime r p runs).1 ≡ record { journal = p.1; runs = runs }
  unfolding completed
  completed_keeps runtime r (none, s) runs = refl
  completed_keeps runtime r (some e, s) runs = refl

  Step-Inv : {s t : System S F} → Step platform journal s t → Inv s → Inv t
  unfolding pending call_handler conclude
  Step-Inv {s = s} (arrive runtime env r) v =
      Arrival-Inv s.world s.flights _ (begin-Arrival platform journal runtime env r s.world.journal)
        v
  Step-Inv {s = s} (handle before c after e) v =
      fewer-Inv (λ id. rw e (waiting-handled id before c _ after _ s.world.runs))
        (λ id known. known) v
  Step-Inv {s = s} (complete before c output after e) v = rw completed_keeps (
      fewer-Inv
        (λ id. let step = waiting-drop id before (executed c output) after in rw e (omega arith))
        (λ id. journal.complete_keeps c.env.complete_fault c.identity c.digest id _ _) v)
  Step-Inv {s = s} (lose before x after e) v =
      fewer-Inv (λ id. let step = waiting-drop id before x after in rw e (omega arith))
        (λ id known. known) v

  Reach-Inv : {start_journal : S} {s : System S F} → Reach platform journal start_journal s → Inv s
  unfolding pending waiting
  Reach-Inv Reach.start = record {
    few = λ id. omega arith;
    taken = λ id some_call. absurd (omega arith);
  }
  Reach-Inv (later r step) = Step-Inv step (Reach-Inv r)

-- However requests to any runtimes that share a journal are interleaved between their
-- reservations, handlers and results, and whichever of them are lost when a server stops, the
-- handler of an operation is called at most once, if none had been called at the start.
pub reach_once :
    {S F : Type 0} (platform : Platform) (journal : Journal S F) (start_journal : S)
    (s : System S F) (id : Bytes)
    → Reach platform journal start_journal s
    → times id s.world.runs ≤ 1
unfolding pending
reach_once platform journal start_journal s id r =
    let bound = (Reach-Inv platform journal r).few id in omega arith
