-- ===== src/Bridge/Tests.antt =====
-- A concrete platform, runtime and requests, and the theorems about the runtime and its journal
-- at concrete inputs.
pub mod Interleaving
use lotor_go.Common.{
  ℕ, suc, ◌*◌, ◌^◌, ◌≤◌, ◌≡◌, refl, ap, ◌⊎◌, true, false, none, some, List, [], ◌∷◌, ◌==◌,
  if◌then◌else◌, length, arith,
}
use lotor_go.Common.Bytes.{Bytes, ascii, bytes_eq}
use lotor_go.Common.Int.{pos, sub64}
use lotor_go.Bridge.Platform.{Scope, Function, SignedMessage, Authorization, Result, Platform}
use lotor_go.Bridge.Protocol.{
  conflict, identifier, is_digest, function_eq, verify, strict_json, verify_authorization,
}
use lotor_go.Bridge.Journal.{fresh, refused}
use lotor_go.Bridge.SqlStore.{Row, Fault, select, valid_identity, new_row, reserve}
use lotor_go.Bridge.SqlStore.Rows.{reserves, completes, calls, calls_completed}
use lotor_go.Bridge.SqlStore.Contract.{sql_journal, reserve_fresh}
use lotor_go.Bridge.SqlStore.Replay.{no_fault, IsStorable, reserve_new, reserve_conflict}
use lotor_go.Bridge.Runtime.{returned, Handler, Runtime, find_handler, scope_eq}
use lotor_go.Bridge.Runtime.Admission.{
  Request, Env, granted, go, challenge_path, invoke_path, find_key, grant_active, authorize,
  valid_static, valid_challenge, valid_invocation, valid_authorization, read_request,
}
use lotor_go.Bridge.Runtime.Admission.Validity.{IsForRuntime, IsTimely, valid_authorization_sound}
use lotor_go.Bridge.Runtime.Serve.{
  finish, identity_of, base_result, execute, with_output, compacted, serve, serve_all,
}
use lotor_go.Common.Once.{times}
use lotor_go.Bridge.Runtime.Serve.Once.{serve_all_once}
use lotor_go.Bridge.Runtime.Serve.Authority.{IsDue, serve_needs_authority, serve_challenge}
use lotor_go.Bridge.Runtime.Serve.Retry.{IsReady, result_of, serve_retry}

abbrev repeat : ℕ → ℕ → Bytes
repeat Prim.Native.Nat.zero c = []
repeat (suc n) c = c ∷ repeat n c

abbrev a_digest : Bytes
a_digest = repeat 64 b'a'

abbrev home : Scope
home = record {
  tenant_id = ascii "t";
  application_id = ascii "app";
  environment_id = ascii "env";
  owner_resource = ascii "org:1";
}

abbrev greet : Function
greet = record {
  name = ascii "greet";
  version = ascii "1";
  input_schema_digest = a_digest;
  output_schema_digest = a_digest;
}

abbrev grant : Authorization
grant = record {
  function = some greet;
  scope = home;
  kind = ascii "invocation";
  issuer = ascii "control";
  audience = ascii "here";
  binding_id = ascii "b1";
  policy_digest = [];
  manifest_digest = a_digest;
  input_digest = a_digest;
  id = ascii "op1";
  nonce = [];
  principal = ascii "user:1";
  resources = ascii "doc:1" ∷ [];
  capabilities = ascii "resource.read" ∷ [];
  input = ascii "1";
  expires_at = pos 1200;
  issued_at = pos 1000;
  protocol_version = pos 1;
  binding_revision = pos 3;
}

abbrev answer_result : Result
answer_result = record {
  id = ascii "op1";
  binding_id = ascii "b1";
  manifest_digest = a_digest;
  authorization_digest = a_digest;
  kind = ascii "invocation";
  nonce = [];
  error_code = [];
  output = ascii "2";
  protocol_version = pos 1;
  binding_revision = pos 3;
  completed_at = pos 1101;
}

abbrev signed_grant : SignedMessage
signed_grant = record { key_id = ascii "k1"; payload = ascii "grant"; signature = repeat 86 b's' }

-- A platform on which one message, one authorization and one result are known.
abbrev toy : Platform
toy = record {
  sha256_hex = λ b. a_digest;
  ed25519_verify = λ key m s. true;
  ed25519_sign = λ key m. repeat 64 b's';
  base64_encode = λ b. b;
  base64_decode = λ b. if length b == 86 then some (repeat 64 b's') else some b;
  marshal_functions = λ f. some [];
  marshal_authorization = λ a. some (ascii "semantic");
  marshal_result = λ r. some (ascii "result");
  compact = λ b. some b;
  json_valid = λ b. true;
  decode_message = λ b. some (signed_grant, []);
  decode_authorization = λ b. some (grant, []);
  decode_result = λ b. none;
  at_end = λ b. true;
  unmarshal_result = λ b. some answer_result;
}

abbrev double : Handler
double a = returned (ascii "2")

abbrev machine : Runtime
machine = record {
  functions = (greet, double) ∷ [];
  manifest_digest = a_digest;
  config = record {
    has_store = true;
    has_authorize = true;
    trusted_keys = (ascii "k1", repeat 32 b'k') ∷ [];
    scope = home;
    audience = ascii "here";
    binding_id = ascii "b1";
    signing_key_id = ascii "s1";
    issuer = ascii "control";
    signing_key = repeat 64 b'x';
    functions = record { handler = some double; function = greet } ∷ [];
    binding_revision = pos 3;
    execution_timeout = pos (30 * 10 ^ 9);
  };
}

abbrev calm : Env Fault
calm = record {
  valid_now = pos 1100;
  first_now = pos 1100;
  result_now = pos 1100;
  second_now = pos 1100;
  done_now = pos 1101;
  first_cancelled = false;
  second_cancelled = false;
  cancelled_before = false;
  cancelled_after = false;
  answer = granted;
  reserve_fault = no_fault;
  complete_fault = no_fault;
}

abbrev invocation : Request
invocation = record {
  path = invoke_path;
  method = ascii "POST";
  content_type = some (ascii "application/json");
  raw_query = [];
  body = ascii "{}";
  body_fails = false;
}

abbrev challenge : Request
challenge = record invocation { path = challenge_path }

invocation_admitted : authorize toy machine calm invocation ≡ go (grant, ascii "grant")
unfolding authorize valid_authorization valid_static valid_challenge valid_invocation find_key
    read_request grant_active verify_authorization verify strict_json identifier is_digest
    function_eq find_handler scope_eq sub64 bytes_eq
invocation_admitted = refl

invocation-IsReady : IsReady toy machine calm invocation grant (ascii "grant") (ascii "semantic")
unfolding bytes_eq grant_active
invocation-IsReady = record {
  authorized = invocation_admitted;
  is_invocation = refl;
  marshalled = refl;
  still_active = refl;
  reserves_well = refl;
  completes_well = refl;
}

abbrev operation : Bytes
operation = ascii "b1:op1"

operation-valid : valid_identity operation a_digest ≡ true
unfolding valid_identity bytes_eq
operation-valid = refl

named_operation : identity_of machine grant ≡ operation
unfolding identity_of
named_operation = refl

handler_there : find_handler greet machine.functions ≡ some double
unfolding find_handler function_eq bytes_eq
handler_there = refl

result-IsStorable :
    IsStorable toy (result_of toy calm (some double) grant (ascii "grant")) (ascii "result")
unfolding execute with_output compacted base_result
result-IsStorable = record {
  marshalled = refl;
  restored = refl;
  compacted = refl;
  output_bounded = omega arith;
  not_empty = omega arith;
  raw_bounded = omega arith;
}

serve_retry_example :
    (rows' : List Row) × (serve toy
        (sql_journal toy (ascii "b1"))
        machine
        calm
        invocation
        (record { journal = []; runs = [] })
      ≡ (
        finish toy machine (result_of toy calm (some double) grant (ascii "grant")),
        record { journal = rows'; runs = identity_of machine grant ∷ [] },
      ))
    × (serve toy
          (sql_journal toy (ascii "b1"))
          machine
          calm
          invocation
          (record { journal = rows'; runs = identity_of machine grant ∷ [] })
        ≡ (
          finish toy machine (record (result_of toy calm (some double) grant (ascii "grant")) {
            authorization_digest = a_digest;
          }),
          record { journal = rows'; runs = identity_of machine grant ∷ [] },
        ))
unfolding identity_of select
serve_retry_example =
    serve_retry toy (ascii "b1") machine calm calm invocation invocation grant grant (ascii "grant")
      (ascii "grant") (ascii "semantic") (ascii "result") [] [] greet double invocation-IsReady
      invocation-IsReady refl refl handler_there refl operation-valid refl tt result-IsStorable

serve_all_once_example :
    times operation
      (serve_all toy
        (sql_journal toy (ascii "b1"))
        ((machine, calm, invocation) ∷ (machine, calm, invocation) ∷ [])
        (record { journal = []; runs = [] })).runs
    ≤ 1
serve_all_once_example =
    serve_all_once toy (sql_journal toy (ascii "b1"))
      ((machine, calm, invocation) ∷ (machine, calm, invocation) ∷ []) [] operation

serve_needs_authority_example :
    ((serve toy
        (sql_journal toy (ascii "b1"))
        machine
        calm
        invocation
        (record { journal = []; runs = [] })).1.runs
      ≡ [])
    ⊎ IsDue toy machine calm invocation
serve_needs_authority_example =
    serve_needs_authority toy (sql_journal toy (ascii "b1")) machine calm invocation
      (record { journal = []; runs = [] })

grant-valid : valid_authorization toy machine grant invoke_path (pos 1100) ≡ true
unfolding valid_authorization valid_static valid_challenge valid_invocation identifier is_digest
    function_eq find_handler scope_eq sub64 bytes_eq
grant-valid = refl

valid_authorization_sound_example : IsForRuntime machine grant × IsTimely grant (pos 1100)
valid_authorization_sound_example =
    valid_authorization_sound toy machine grant invoke_path (pos 1100) (omega arith) grant-valid

abbrev open_row : Row
open_row = new_row (ascii "b1") operation a_digest

abbrev done_row : Row
done_row = record open_row { result = some (ascii "result") }

done_row-there : select (ascii "b1") operation (done_row ∷ []) ≡ some done_row
unfolding select bytes_eq
done_row-there = refl

calls_completed_example :
    select (ascii "b1") operation (
      calls toy
        ((ascii "b1", completes no_fault operation a_digest answer_result)
          ∷ (ascii "b2", reserves no_fault operation a_digest)
          ∷ [])
        (done_row ∷ []))
    ≡ some done_row
calls_completed_example =
    calls_completed toy
      ((ascii "b1", completes no_fault operation a_digest answer_result)
        ∷ (ascii "b2", reserves no_fault operation a_digest)
        ∷ [])
      (ascii "b1") operation (ascii "result") (done_row ∷ []) done_row done_row-there refl

handed_out : (reserve toy (ascii "b1") no_fault operation a_digest []).0 ≡ fresh
handed_out =
    ap (λ p. p.0)
      (reserve_new toy (ascii "b1") operation a_digest [] operation-valid (unfold select in refl))

abbrev b_digest : Bytes
b_digest = repeat 64 b'b'

b_digest-valid : valid_identity operation b_digest ≡ true
unfolding valid_identity bytes_eq
b_digest-valid = refl
