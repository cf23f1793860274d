-- ===== src/Bridge/Runtime/Serve/Arrival.antt =====
-- What a request of bridge/runtime.go does to the journal up to its reservation.
use lotor_go.Common.{◌≡◌, refl, inl, inr, Option, none, some, Bool-cases}
use lotor_go.Common.Bytes.{Bytes, ascii, bytes_eq}
use lotor_go.Bridge.Platform.{Function, Authorization, Platform}
use lotor_go.Bridge.Journal.{Journal, Reserved, fresh, stored, refused}
use lotor_go.Bridge.Runtime.{Runtime}
use lotor_go.Bridge.Runtime.Admission.{
  Request, Env, Response, Stage, stop, go, grant_active, authorize,
}
use lotor_go.Bridge.Runtime.Serve.{identity_of}
use lotor_go.Bridge.Runtime.Serve.Steps.{
  OwnedCall, Turn, answered, claimed, claim_call, settle, decide, take_up, route_stage, begin,
}

module _ {S F : Type 0} (platform : Platform) (journal : Journal S F) where
  -- What the first moment of a request does to the journal.
  pub data Arrival (s : S) : Turn F × S → Type 0 where
    passed : (r : Response) → Arrival s (answered r, s)
    asked :
        (r : Response) (f : F) (id digest : Bytes)
        → Arrival s (answered r, (journal.reserve f id digest s).1)
    owned :
        (c : OwnedCall F) (f : F) (digest : Bytes)
        → (journal.reserve f c.identity digest s).0 ≡ fresh
        → Arrival s (claimed c, (journal.reserve f c.identity digest s).1)

  claim_call-Arrival :
      (runtime : Runtime) (env : Env F) (a : Authorization) (raw id digest : Bytes) (s : S)
      (f : Option Function)
      → (journal.reserve env.reserve_fault id digest s).0 ≡ fresh
      → Arrival s (
        claim_call platform journal runtime env a raw id digest f,
        (journal.reserve env.reserve_fault id digest s).1,
      )
  unfolding claim_call
  claim_call-Arrival runtime env a raw id digest s none e = asked _ env.reserve_fault id digest
  claim_call-Arrival runtime env a raw id digest s (some f) e = owned _ env.reserve_fault digest e

  settle-Arrival :
      (runtime : Runtime) (env : Env F) (a : Authorization) (raw id digest : Bytes) (s : S)
      (reply : Reserved)
      → (journal.reserve env.reserve_fault id digest s).0 ≡ reply
      → Arrival s (
        settle platform journal runtime env a raw id digest reply,
        (journal.reserve env.reserve_fault id digest s).1,
      )
  unfolding settle
  settle-Arrival runtime env a raw id digest s (refused x) e = asked _ env.reserve_fault id digest
  settle-Arrival runtime env a raw id digest s (stored r) e = asked _ env.reserve_fault id digest
  settle-Arrival runtime env a raw id digest s fresh e =
      claim_call-Arrival runtime env a raw id digest s a.function e

  decide-Arrival :
      (runtime : Runtime) (env : Env F) (a : Authorization) (raw id digest : Bytes) (s : S)
      → Arrival s (
          decide platform journal runtime env a raw id digest
            (journal.reserve env.reserve_fault id digest s))
  unfolding decide
  decide-Arrival runtime env a raw id digest s =
      elim (Bool-cases (grant_active env.second_cancelled env.second_now a)) [
        | inl on ↦ rw on (settle-Arrival runtime env a raw id digest s _ refl)
        | inr off ↦ rw off (asked _ env.reserve_fault id digest)
      ]

  take_up-Arrival :
      (runtime : Runtime) (env : Env F) (a : Authorization) (raw : Bytes) (s : S)
      (json : Option Bytes)
      → Arrival s (take_up platform journal runtime env a raw s json)
  unfolding take_up
  take_up-Arrival runtime env a raw s none = passed _
  take_up-Arrival runtime env a raw s (some json) =
      decide-Arrival runtime env a raw (identity_of runtime a) (platform.sha256_hex json) s

  route_stage-Arrival :
      (runtime : Runtime) (env : Env F) (s : S) (st : Stage (Authorization × Bytes))
      → Arrival s (route_stage platform journal runtime env s st)
  unfolding route_stage
  route_stage-Arrival runtime env s (stop r) = passed r
  route_stage-Arrival runtime env s (go (a, raw)) =
      elim (Bool-cases (bytes_eq a.kind (ascii "challenge"))) [
        | inl challenge ↦ rw challenge (passed _)
        | inr invocation ↦ rw invocation (take_up-Arrival runtime env a raw s _)
      ]

  pub begin-Arrival :
      (runtime : Runtime) (env : Env F) (r : Request) (s : S)
      → Arrival s (begin platform journal runtime env r s)
  unfolding begin
  begin-Arrival runtime env r s =
      route_stage-Arrival runtime env s (authorize platform runtime env r)
