-- ===== src/Bridge/Runtime/Serve.antt =====
-- `ServeHTTP` of bridge/runtime.go, stage by stage: the admitted request, the journal, the handler and the signed result.
pub mod Once
pub mod Authority
pub mod Retry
pub mod Steps
pub mod Sequence
pub mod Arrival
pub mod Interleaving
use lotor_go.Common.{
  ℕ, zero, suc, ◌+◌, ◌*◌, ◌^◌, Bool, true, false, not, ◌&&◌, ◌||◌, Option, none, some, List, [],
  ◌∷◌, ◌++◌, ltb, leb, ◌==◌, if◌then◌else◌, length, all,
}
use lotor_go.Common.Bytes.{Bytes, ascii, bytes_eq}
use lotor_go.Common.Int.{ℤ, pos, ltz, lez, eqz, sub64}
use lotor_go.Bridge.Platform.{Function, SignedMessage, Authorization, Result, Platform}
use lotor_go.Bridge.Protocol.{
  Error, unavailable, conflict, in_progress, protocol_version, maximum_input_bytes,
  maximum_body_bytes, identifier, is_digest, strict_json, verify_authorization, sign_result,
}
use lotor_go.Bridge.Journal.{Journal, Reserved, fresh, stored, refused}
use lotor_go.Bridge.Runtime.{
  Ran, returned, failed, panicked, Handler, Config, Runtime, find_handler, scope_eq,
}
use lotor_go.Bridge.Runtime.Admission.{
  Request, Env, Response, failure, success, crashed, Stage, stop, go, unauthorized_response,
  invalid_response, grant_active, authorize,
}

-- The journal, and the operations whose handler has been called, the latest first.
pub record World (S : Type 0) : Type 0 where
  pub journal : S
  pub runs : List Bytes

-- The handler's output, or `none` for an error, a panic or a cancelled context.
output_of : Ran → Bool → Option Bytes
output_of (returned o) cancelled = if cancelled then none else some o
output_of failed cancelled = none
output_of panicked cancelled = none

-- `execute`: the output, and whether the handler was called.
unfoldable pub execute : {F : Type 0} → Env F → Option Handler → Authorization → Option Bytes × Bool
unfolding output_of
execute env none a = (none, false)
execute env (some handler) a =
    if env.cancelled_before
    then (none, false)
    else (output_of (handler a) env.cancelled_after, true)

unfoldable pub identity_of : Runtime → Authorization → Bytes
identity_of runtime a = runtime.config.binding_id ++ (b':' ∷ a.id)

unfoldable pub semantic : Authorization → Authorization
semantic a = record a { issued_at = pos 0; expires_at = pos 0 }

module _ (platform : Platform) where
  open platform use {sha256_hex, compact, json_valid}

  unfoldable pub base_result : Authorization → Bytes → ℤ → Result
  base_result a raw now = record {
    id = a.id;
    binding_id = a.binding_id;
    manifest_digest = a.manifest_digest;
    authorization_digest = sha256_hex raw;
    kind = a.kind;
    nonce = [];
    error_code = [];
    output = [];
    protocol_version = protocol_version;
    binding_revision = a.binding_revision;
    completed_at = now;
  }

  pub finish : Runtime → Result → Response
  finish runtime r =
      elim (sign_result platform r runtime.config.signing_key_id runtime.config.signing_key) [
        | none ↦ failure 503 (ascii "result_unavailable")
        | some m ↦ success m
      ]

  unfoldable pub with_output : Option Bytes → Option Bytes → Result → Result
  with_output (some output) (some canonical) r =
      if not (json_valid output)
        || (ltb maximum_input_bytes (length output) || ltb maximum_input_bytes (length canonical))
      then record r { error_code = ascii "outcome_unknown" }
      else record r { output = canonical }
  with_output _ _ r = record r { error_code = ascii "outcome_unknown" }

  unfoldable pub compacted : Option Bytes → Option Bytes
  compacted none = none
  compacted (some o) = compact o

module _ {S F : Type 0} (platform : Platform) (journal : Journal S F) where
  -- Behind `Complete`.
  completed : Runtime → Result → Option Error × S → List Bytes → Response × World S
  completed runtime r (none, s) runs =
      (finish platform runtime r, record { journal = s; runs = runs })
  completed runtime r (some e, s) runs =
      (failure 503 (ascii "outcome_unknown"), record { journal = s; runs = runs })

  -- With a new reservation: the handler, and its result in the journal.
  run :
      Runtime
      → Env F
      → Authorization
      → Bytes
      → (identity digest : Bytes) → World S
      → Option Handler
      → Response × World S
  unfolding completed
  run runtime env a raw identity digest w handler =
      let (output, called) = execute env handler a in
      let r =
        with_output platform output (compacted platform output)
          (record (base_result platform a raw env.result_now) { completed_at = env.done_now }) in
      let runs = if called then identity ∷ w.runs else w.runs in
      completed runtime r (journal.complete env.complete_fault identity digest r w.journal) runs

  -- `*authorization.Function`
  start :
      Runtime
      → Env F
      → Authorization
      → Bytes
      → (identity digest : Bytes) → World S
      → Option Function
      → Response × World S
  unfolding run
  start runtime env a raw identity digest w none = (crashed, w)
  start runtime env a raw identity digest w (some f) =
      run runtime env a raw identity digest w (find_handler f runtime.functions)

  pub refusal : Error → Response
  refusal in_progress = failure 409 (ascii "operation_conflict")
  refusal conflict = failure 409 (ascii "operation_conflict")
  refusal e = failure 503 (ascii "storage_unavailable")

  -- With the grant still active: what the answer of `Reserve` leads to.
  resume :
      Runtime
      → Env F
      → Authorization
      → Bytes
      → (identity digest : Bytes) → World S
      → Reserved
      → Response × World S
  unfolding start refusal
  resume runtime env a raw identity digest w (refused e) = (refusal e, w)
  resume runtime env a raw identity digest w (stored r) =
      (finish platform runtime (record r { authorization_digest = platform.sha256_hex raw }), w)
  resume runtime env a raw identity digest w fresh =
      start runtime env a raw identity digest w a.function

  -- Behind `Reserve`.
  reserved :
      Runtime
      → Env F
      → Authorization
      → Bytes
      → (identity digest : Bytes) → Reserved × S
      → List Bytes
      → Response × World S
  unfolding resume
  reserved runtime env a raw identity digest (reply, s) runs =
      let w : World S = record { journal = s; runs = runs } in
      if not (grant_active env.second_cancelled env.second_now a)
      then (unauthorized_response, w)
      else resume runtime env a raw identity digest w reply

  invoke : Runtime → Env F → Authorization → Bytes → World S → Option Bytes → Response × World S
  unfolding reserved
  invoke runtime env a raw w none = (invalid_response, w)
  invoke runtime env a raw w (some json) =
      let identity = identity_of runtime a in
      let digest = platform.sha256_hex json in
      reserved runtime env a raw identity digest
        (journal.reserve env.reserve_fault identity digest w.journal) w.runs

  dispatch : Runtime → Env F → World S → Stage (Authorization × Bytes) → Response × World S
  unfolding invoke
  dispatch runtime env w (stop r) = (r, w)
  dispatch runtime env w (go (a, raw)) =
      if bytes_eq a.kind (ascii "challenge")
      then (
        finish platform runtime
            (record (base_result platform a raw env.result_now) { nonce = a.nonce }),
        w,
      )
      else invoke runtime env a raw w (platform.marshal_authorization (semantic a))

  -- `ServeHTTP` on one request.
  pub serve : Runtime → Env F → Request → World S → Response × World S
  unfolding dispatch
  serve runtime env r w = dispatch runtime env w (authorize platform runtime env r)

  -- Requests one after the other; handlers of a runtime and its restarts share the journal.
  pub serve_all : List (Runtime × Env F × Request) → World S → World S
  serve_all [] w = w
  serve_all ((runtime, env, r) ∷ more) w = serve_all more (serve runtime env r w).1
