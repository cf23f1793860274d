-- ===== src/Bridge/Tests/Interleaving.antt =====
-- The moments of a request, and two requests that interleave, at concrete inputs.
use lotor_go.Common.{◌≤◌, ◌≡◌, refl, some, List, [], ◌∷◌}
use lotor_go.Common.Bytes.{ascii, bytes_eq}
use lotor_go.Bridge.Protocol.{function_eq}
use lotor_go.Bridge.SqlStore.{Row, Fault, new_row, select}
use lotor_go.Bridge.SqlStore.Contract.{sql_journal}
use lotor_go.Bridge.SqlStore.Replay.{reserve_new}
use lotor_go.Common.Once.{times}
use lotor_go.Bridge.Runtime.{find_handler}
use lotor_go.Bridge.Runtime.Admission.{grant_active}
use lotor_go.Bridge.Runtime.Serve.{identity_of, execute}
use lotor_go.Bridge.Runtime.Serve.Steps.{
  OwnedCall, claimed, claim_call, settle, decide, take_up, route_stage, begin, call_handler,
}
use lotor_go.Bridge.Runtime.Serve.Interleaving.{
  System, Reach, reserved, start, later, arrive, handle, launch, reach_once,
}
use lotor_go.Bridge.Tests.{
  toy, machine, calm, invocation, grant, operation, double, a_digest, invocation_admitted,
  operation-valid,
}

abbrev empty_table : List Row
empty_table = []

abbrev held : OwnedCall Fault
held = record {
  runtime = machine;
  env = calm;
  authorization = grant;
  raw = ascii "grant";
  identity = operation;
  digest = a_digest;
  handler = some double;
}

abbrev one_row : List Row
one_row = new_row (ascii "b1") operation a_digest ∷ []

first_moment :
    begin toy (sql_journal toy (ascii "b1")) machine calm invocation empty_table
    ≡ (claimed held, one_row)
unfolding begin route_stage take_up decide settle claim_call grant_active bytes_eq identity_of
    find_handler function_eq
first_moment =
    rw
      (
        invocation_admitted,
        reserve_new toy (ascii "b1") operation a_digest empty_table operation-valid
            (unfold select in refl),
      )
      refl

launched :
    launch (begin toy (sql_journal toy (ascii "b1")) machine calm invocation empty_table).0 []
    ≡ reserved held ∷ []
unfolding launch
launched = rw first_moment refl

-- The same request again, between the handler and the result of the first.
abbrev overtaken :
    (s : System (List Row) Fault) × Reach toy (sql_journal toy (ascii "b1")) empty_table s
overtaken = (
  _,
  later (later (later start (arrive machine calm invocation)) (handle [] held [] launched))
      (arrive machine calm invocation),
)

reach_once_example : times operation overtaken.0.world.runs ≤ 1
reach_once_example =
    reach_once toy (sql_journal toy (ascii "b1")) empty_table overtaken.0 operation overtaken.1

-- The handler has run once in it, and its result is in the air.
overtaken_runs : overtaken.0.world.runs ≡ operation ∷ []
unfolding call_handler execute
overtaken_runs = refl
