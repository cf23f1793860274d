-- ===== src/Bridge/Runtime/Serve/Steps.antt =====
-- The three moments at which a request of bridge/runtime.go acts on shared state: `Reserve` with
-- what precedes it, the handler, and `Complete`. Between them other requests may act.
use lotor_go.Common.{not, Option, none, some, List, ◌∷◌, if◌then◌else◌}
use lotor_go.Common.Bytes.{Bytes, ascii, bytes_eq}
use lotor_go.Bridge.Platform.{Function, Authorization, Platform}
use lotor_go.Bridge.Journal.{Journal, Reserved, fresh, stored, refused}
use lotor_go.Bridge.Runtime.{Runtime, Handler, find_handler}
use lotor_go.Bridge.Runtime.Admission.{
  Request, Env, Response, crashed, Stage, stop, go, unauthorized_response, invalid_response,
  grant_active, authorize,
}
use lotor_go.Bridge.Runtime.Serve.{
  World, execute, identity_of, semantic, base_result, finish, with_output, compacted, completed,
  refusal,
}

-- A request that owns a new reservation.
pub record OwnedCall (F : Type 0) : Type 0 where
  pub runtime : Runtime
  pub env : Env F
  pub authorization : Authorization
  pub raw : Bytes
  pub identity : Bytes
  pub digest : Bytes
  pub handler : Option Handler

pub data Turn (F : Type 0) : Type 0 where
  answered : Response → Turn F
  claimed : OwnedCall F → Turn F

module _ {S F : Type 0} (platform : Platform) (journal : Journal S F) where
  -- `*authorization.Function`
  unfoldable pub claim_call :
      Runtime → Env F → Authorization → Bytes → (identity digest : Bytes) → Option Function → Turn F
  claim_call runtime env a raw identity digest none = answered crashed
  claim_call runtime env a raw identity digest (some f) = claimed record {
    runtime = runtime;
    env = env;
    authorization = a;
    raw = raw;
    identity = identity;
    digest = digest;
    handler = find_handler f runtime.functions;
  }

  unfoldable pub settle :
      Runtime → Env F → Authorization → Bytes → (identity digest : Bytes) → Reserved → Turn F
  unfolding claim_call
  settle runtime env a raw identity digest (refused e) = answered (refusal platform journal e)
  settle runtime env a raw identity digest (stored r) =
      answered
        (finish platform runtime (record r { authorization_digest = platform.sha256_hex raw }))
  settle runtime env a raw identity digest fresh =
      claim_call runtime env a raw identity digest a.function

  -- Behind `Reserve`.
  unfoldable pub decide :
      Runtime
      → Env F
      → Authorization
      → Bytes
      → (identity digest : Bytes) → Reserved × S
      → Turn F × S
  unfolding settle
  decide runtime env a raw identity digest (reply, s) = (
    if not (grant_active env.second_cancelled env.second_now a)
        then answered unauthorized_response
        else settle runtime env a raw identity digest reply,
    s,
  )

  unfoldable pub take_up : Runtime → Env F → Authorization → Bytes → S → Option Bytes → Turn F × S
  unfolding decide
  take_up runtime env a raw s none = (answered invalid_response, s)
  take_up runtime env a raw s (some json) =
      let identity = identity_of runtime a in
      let digest = platform.sha256_hex json in
      decide runtime env a raw identity digest (journal.reserve env.reserve_fault identity digest s)

  unfoldable pub route_stage : Runtime → Env F → S → Stage (Authorization × Bytes) → Turn F × S
  unfolding take_up
  route_stage runtime env s (stop r) = (answered r, s)
  route_stage runtime env s (go (a, raw)) =
      if bytes_eq a.kind (ascii "challenge")
      then (
        answered (
            finish platform runtime
              (record (base_result platform a raw env.result_now) { nonce = a.nonce })),
        s,
      )
      else take_up runtime env a raw s (platform.marshal_authorization (semantic a))

  -- The request up to its reservation.
  unfoldable pub begin : Runtime → Env F → Request → S → Turn F × S
  unfolding route_stage
  begin runtime env r s = route_stage runtime env s (authorize platform runtime env r)

  -- The handler: its output, and the operations called after it.
  unfoldable pub call_handler : OwnedCall F → List Bytes → Option Bytes × List Bytes
  call_handler c runs =
      let (output, called) = execute c.env c.handler c.authorization in
      (output, if called then c.identity ∷ runs else runs)

  -- The result, in the journal and then in the response.
  unfoldable pub conclude : OwnedCall F → Option Bytes → World S → Response × World S
  unfolding completed
  conclude c output w =
      let r =
        with_output platform output (compacted platform output)
          (record (base_result platform c.authorization c.raw c.env.result_now) {
            completed_at = c.env.done_now;
          }) in
      completed platform journal c.runtime r
        (journal.complete c.env.complete_fault c.identity c.digest r w.journal) w.runs

  -- The rest of a request that nothing interrupts.
  unfoldable pub follow : Turn F × S → List Bytes → Response × World S
  unfolding call_handler conclude
  follow (answered r, s) runs = (r, record { journal = s; runs = runs })
  follow (claimed c, s) runs =
      let (output, after) = call_handler c runs in
      conclude c output (record { journal = s; runs = after })
