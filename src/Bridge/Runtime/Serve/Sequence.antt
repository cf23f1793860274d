-- ===== src/Bridge/Runtime/Serve/Sequence.antt =====
-- `ServeHTTP` of bridge/runtime.go is its three moments, one after the other.
use lotor_go.Common.{◌≡◌, refl, inl, inr, Option, none, some, List, Bool-cases}
use lotor_go.Common.Bytes.{Bytes, ascii, bytes_eq}
use lotor_go.Bridge.Platform.{Function, Authorization, Platform}
use lotor_go.Bridge.Journal.{Journal, Reserved, fresh, stored, refused}
use lotor_go.Bridge.Runtime.{Runtime}
use lotor_go.Bridge.Runtime.Admission.{Request, Env, Stage, stop, go, grant_active, authorize}
use lotor_go.Bridge.Runtime.Serve.{World, run, start, resume, reserved, invoke, dispatch, serve}
use lotor_go.Bridge.Runtime.Serve.Steps.{
  claim_call, settle, decide, take_up, route_stage, begin, follow,
}

module _ {S F : Type 0} (platform : Platform) (journal : Journal S F) where
  start-follow :
      (runtime : Runtime) (env : Env F) (a : Authorization) (raw identity digest : Bytes)
      (w : World S) (f : Option Function)
      → start platform journal runtime env a raw identity digest w f
        ≡ follow platform journal
            (claim_call platform journal runtime env a raw identity digest f, w.journal)
            w.runs
  unfolding start run follow claim_call
  start-follow runtime env a raw identity digest w none = refl
  start-follow runtime env a raw identity digest w (some f) = refl

  resume-follow :
      (runtime : Runtime) (env : Env F) (a : Authorization) (raw identity digest : Bytes)
      (w : World S) (reply : Reserved)
      → resume platform journal runtime env a raw identity digest w reply
        ≡ follow platform journal
            (settle platform journal runtime env a raw identity digest reply, w.journal)
            w.runs
  unfolding resume follow settle
  resume-follow runtime env a raw identity digest w (refused e) = refl
  resume-follow runtime env a raw identity digest w (stored r) = refl
  resume-follow runtime env a raw identity digest w fresh =
      start-follow runtime env a raw identity digest w a.function

  reserved-follow :
      (runtime : Runtime) (env : Env F) (a : Authorization) (raw identity digest : Bytes)
      (reply : Reserved × S) (runs : List Bytes)
      → reserved platform journal runtime env a raw identity digest reply runs
        ≡ follow platform journal
            (decide platform journal runtime env a raw identity digest reply)
            runs
  unfolding reserved follow decide
  reserved-follow runtime env a raw identity digest (reply, s) runs =
      elim (Bool-cases (grant_active env.second_cancelled env.second_now a)) [
        | inl on ↦ rw on (
            resume-follow runtime env a raw identity digest (record { journal = s; runs = runs })
              reply)
        | inr off ↦ rw off refl
      ]

  invoke-follow :
      (runtime : Runtime) (env : Env F) (a : Authorization) (raw : Bytes) (w : World S)
      (json : Option Bytes)
      → invoke platform journal runtime env a raw w json
        ≡ follow platform journal (take_up platform journal runtime env a raw w.journal json) w.runs
  unfolding invoke follow take_up
  invoke-follow runtime env a raw w none = refl
  invoke-follow runtime env a raw w (some json) = reserved-follow runtime env a raw _ _ _ w.runs

  dispatch-follow :
      (runtime : Runtime) (env : Env F) (w : World S) (st : Stage (Authorization × Bytes))
      → dispatch platform journal runtime env w st
        ≡ follow platform journal (route_stage platform journal runtime env w.journal st) w.runs
  unfolding dispatch follow route_stage
  dispatch-follow runtime env w (stop r) = refl
  dispatch-follow runtime env w (go (a, raw)) =
      elim (Bool-cases (bytes_eq a.kind (ascii "challenge"))) [
        | inl challenge ↦ rw challenge refl
        | inr invocation ↦ rw invocation (invoke-follow runtime env a raw w _)
      ]

  -- A request that nothing interrupts does what its three moments do, one after the other.
  pub serve-follow :
      (runtime : Runtime) (env : Env F) (r : Request) (w : World S)
      → serve platform journal runtime env r w
        ≡ follow platform journal (begin platform journal runtime env r w.journal) w.runs
  unfolding serve begin
  serve-follow runtime env r w = dispatch-follow runtime env w (authorize platform runtime env r)
