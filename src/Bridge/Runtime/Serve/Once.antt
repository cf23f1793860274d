-- ===== src/Bridge/Runtime/Serve/Once.antt =====
-- What one request can do to the world, and that a handler is called at most once for an
-- operation, over any sequence of requests, restarts and faults.
use mathlib.Core.Path.{subst}
use lotor_go.Common.{
  ◌≤◌, ◌≡◌, refl, inl, inr, Bool, true, false, Option, none, some, List, [], ◌∷◌, if◌then◌else◌,
  All, Bool-cases,
}
use lotor_go.Common.Once.{Unseen, Once, times, times-Once}
use lotor_go.Common.Bytes.{Bytes, ascii, bytes_eq}
use lotor_go.Bridge.Platform.{Function, Authorization, Result, Platform}
use lotor_go.Bridge.Protocol.{Error}
use lotor_go.Bridge.Journal.{Journal, Reserved, fresh, stored, refused}
use lotor_go.Bridge.Runtime.{Runtime, Handler, find_handler}
use lotor_go.Bridge.Runtime.Admission.{Request, Env, Stage, stop, go, grant_active, authorize}
use lotor_go.Bridge.Runtime.Serve.{
  World, identity_of, completed, run, start, resume, reserved, invoke, dispatch, serve, serve_all,
}

module _ {S F : Type 0} (platform : Platform) (journal : Journal S F) where
  -- What is left of the world by one request.
  data Effect (w : World S) : World S → Type 0 where
    untouched : Effect w w
    asked :
        (f : F) (id digest : Bytes)
        → Effect w (record w { journal = (journal.reserve f id digest w.journal).1 })
    tried :
        (f f' : F) (id digest : Bytes) (r : Result) (called : Bool)
        → (journal.reserve f id digest w.journal).0 ≡ fresh
        → Effect w (record {
          journal = (journal.complete f' id digest r (journal.reserve f id digest w.journal).1).1;
          runs = if called then id ∷ w.runs else w.runs;
        })

  completed_world :
      (runtime : Runtime) (r : Result) (p : Option Error × S) (runs : List Bytes)
      → (completed platform journal runtime r p runs).1 ≡ record { journal = p.1; runs = runs }
  unfolding completed
  completed_world runtime r (none, s) runs = refl
  completed_world runtime r (some e, s) runs = refl

  run-Effect :
      (runtime : Runtime) (env : Env F) (a : Authorization) (raw id digest : Bytes) (w : World S)
      (h : Option Handler)
      → (journal.reserve env.reserve_fault id digest w.journal).0 ≡ fresh
      → Effect w
          (run platform journal runtime env a raw id digest
            (record w { journal = (journal.reserve env.reserve_fault id digest w.journal).1 })
            h).1
  unfolding run
  run-Effect runtime env a raw id digest w h e =
      rw completed_world (tried env.reserve_fault env.complete_fault id digest _ _ e)

  start-Effect :
      (runtime : Runtime) (env : Env F) (a : Authorization) (raw id digest : Bytes) (w : World S)
      (f : Option Function)
      → (journal.reserve env.reserve_fault id digest w.journal).0 ≡ fresh
      → Effect w
          (start platform journal runtime env a raw id digest
            (record w { journal = (journal.reserve env.reserve_fault id digest w.journal).1 })
            f).1
  unfolding start
  start-Effect runtime env a raw id digest w none e = asked env.reserve_fault id digest
  start-Effect runtime env a raw id digest w (some f) e =
      run-Effect runtime env a raw id digest w (find_handler f runtime.functions) e

  resume-Effect :
      (runtime : Runtime) (env : Env F) (a : Authorization) (raw id digest : Bytes) (w : World S)
      (reply : Reserved)
      → (journal.reserve env.reserve_fault id digest w.journal).0 ≡ reply
      → Effect w
          (resume platform journal runtime env a raw id digest
            (record w { journal = (journal.reserve env.reserve_fault id digest w.journal).1 })
            reply).1
  unfolding resume
  resume-Effect runtime env a raw id digest w (refused x) e = asked env.reserve_fault id digest
  resume-Effect runtime env a raw id digest w (stored r) e = asked env.reserve_fault id digest
  resume-Effect runtime env a raw id digest w fresh e =
      start-Effect runtime env a raw id digest w a.function e

  reserved-Effect :
      (runtime : Runtime) (env : Env F) (a : Authorization) (raw id digest : Bytes) (w : World S)
      → Effect w
          (reserved platform journal runtime env a raw id digest
            (journal.reserve env.reserve_fault id digest w.journal)
            w.runs).1
  unfolding reserved
  reserved-Effect runtime env a raw id digest w =
      elim (Bool-cases (grant_active env.second_cancelled env.second_now a)) [
        | inl on ↦ rw on (resume-Effect runtime env a raw id digest w _ refl)
        | inr off ↦ rw off (asked env.reserve_fault id digest)
      ]

  invoke-Effect :
      (runtime : Runtime) (env : Env F) (a : Authorization) (raw : Bytes) (w : World S)
      (json : Option Bytes)
      → Effect w (invoke platform journal runtime env a raw w json).1
  unfolding invoke
  invoke-Effect runtime env a raw w none = untouched
  invoke-Effect runtime env a raw w (some json) =
      reserved-Effect runtime env a raw (identity_of runtime a) (platform.sha256_hex json) w

  dispatch-Effect :
      (runtime : Runtime) (env : Env F) (w : World S) (st : Stage (Authorization × Bytes))
      → Effect w (dispatch platform journal runtime env w st).1
  unfolding dispatch
  dispatch-Effect runtime env w (stop r) = untouched
  dispatch-Effect runtime env w (go (a, raw)) =
      elim (Bool-cases (bytes_eq a.kind (ascii "challenge"))) [
        | inl challenge ↦ rw challenge untouched
        | inr invocation ↦ rw invocation (invoke-Effect runtime env a raw w _)
      ]

  serve-Effect :
      (runtime : Runtime) (env : Env F) (r : Request) (w : World S)
      → Effect w (serve platform journal runtime env r w).1
  unfolding serve
  serve-Effect runtime env r w = dispatch-Effect runtime env w (authorize platform runtime env r)

  -- Every operation that has run is taken in the journal, and has run once.
  record Inv (w : World S) : Type 0 where
    taken : All (λ id. journal.Taken id w.journal) w.runs
    once : Once w.runs

  All-imp :
      {P Q : Bytes → Type 0} (xs : List Bytes) → ((x : Bytes) → P x → Q x) → All P xs → All Q xs
  All-imp [] f h = h
  All-imp (x ∷ xs) f (h, hs) = (f x h, All-imp xs f hs)

  Taken-reserve :
      (f : F) (id digest : Bytes) (w : World S)
      → Inv w
      → All (λ i. journal.Taken i (journal.reserve f id digest w.journal).1) w.runs
  Taken-reserve f id digest w v =
      All-imp w.runs (λ i. journal.reserve_keeps f id digest i w.journal) v.taken

  Taken-complete :
      (f : F) (id digest : Bytes) (r : Result) (s : S) (ids : List Bytes)
      → All (λ i. journal.Taken i s) ids
      → All (λ i. journal.Taken i (journal.complete f id digest r s).1) ids
  Taken-complete f id digest r s ids h =
      All-imp ids (λ i. journal.complete_keeps f id digest i r s) h

  Unseen-of_Taken :
      (id : Bytes) (s : S) (ids : List Bytes)
      → ¬ (journal.Taken id s)
      → All (λ i. journal.Taken i s) ids
      → Unseen id ids
  Unseen-of_Taken id s [] n h = tt
  Unseen-of_Taken id s (j ∷ js) n (h, hs) =
      (λ e. n (subst (λ i. journal.Taken i s) e h), Unseen-of_Taken id s js n hs)

  Effect-Inv : {w w' : World S} → Effect w w' → Inv w → Inv w'
  Effect-Inv untouched v = v
  Effect-Inv {w = w} (asked f id digest) v = record {
    taken = Taken-reserve f id digest w v;
    once = v.once;
  }
  Effect-Inv {w = w} (tried f f' id digest r false e) v = record {
    taken = Taken-complete f' id digest r _ w.runs (Taken-reserve f id digest w v);
    once = v.once;
  }
  Effect-Inv {w = w} (tried f f' id digest r true e) v = record {
    taken =
        Taken-complete f' id digest r _ (id ∷ w.runs)
          (journal.fresh_taken f id digest w.journal e, Taken-reserve f id digest w v);
    once = (
      Unseen-of_Taken id w.journal w.runs (journal.fresh_untaken f id digest w.journal e) v.taken,
      v.once,
    );
  }

  serve_all-Inv :
      (requests : List (Runtime × Env F × Request)) (w : World S)
      → Inv w
      → Inv (serve_all platform journal requests w)
  unfolding serve_all
  serve_all-Inv [] w v = v
  serve_all-Inv ((runtime, env, r) ∷ more) w v =
      serve_all-Inv more (serve platform journal runtime env r w).1
        (Effect-Inv (serve-Effect runtime env r w) v)

-- Over any sequence of requests, to any runtimes that share the journal, with any clocks,
-- cancellations, callback answers and faults, the handler of an operation is called at most once,
-- if none had been called when the sequence began.
pub serve_all_once :
    {S F : Type 0} (platform : Platform) (journal : Journal S F)
    (requests : List (Runtime × Env F × Request)) (s : S) (id : Bytes)
    → times id (serve_all platform journal requests (record { journal = s; runs = [] })).runs ≤ 1
serve_all_once platform journal requests s id =
    times-Once id _
      (serve_all-Inv platform journal requests (record { journal = s; runs = [] })
        (record { taken = tt; once = tt })).once
