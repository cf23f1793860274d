-- ===== src/Bridge/Client/Tests.antt =====
-- The theorems on Invoke at a concrete grant, endpoint and answer.
use lotor_go.Common.{none, ◌*◌, ◌^◌, ◌≡◌, refl, ◌⊎◌, true, false, not, some, [], ◌∷◌, ◌==◌, length}
use lotor_go.Common.Bytes.{Bytes, ascii, bytes_eq}
use lotor_go.Common.Int.{pos, sub64, add64}
use lotor_go.Bridge.Platform.{Function, SignedMessage, Authorization, Result, Platform}
use lotor_go.Bridge.Protocol.{verify, strict_json, function_eq, verify_authorization, verify_result}
use lotor_go.Bridge.Protocol.Verify.{IsResultOf}
use lotor_go.Bridge.Runtime.{returned, Handler, Runtime, find_handler, scope_eq}
use lotor_go.Bridge.Runtime.Admission.{invoke_path, find_key, valid_authorization}
use lotor_go.Bridge.SqlStore.{identifier, hex_decode, hex_digest}
use lotor_go.Bridge.Resource.Tests.{repeat, a_digest, home, grant, toy}
use lotor_go.Bridge.Client.Grant.{IsAccepted}
use lotor_go.Bridge.Client.{
  Options, Env, done, digest, configured, in_time, valid_input, valid_named, valid_values,
  valid_grant, accepted_grant, checked_result, judged, dispatched, admitted, invoke,
}
use lotor_go.Bridge.Client.Agreement.{IsSameBinding, valid_grant-valid_authorization}
use lotor_go.Bridge.Client.Invoke.{IsSuccess, is_refused, invoke_sends, invoke_sound}

abbrev greet : Function
greet = record {
  name = ascii "greet";
  version = ascii "1";
  input_schema_digest = a_digest;
  output_schema_digest = a_digest;
}

abbrev called : Authorization
called = record grant { function = some greet }

abbrev answer : Result
answer = record {
  id = ascii "op1";
  binding_id = ascii "b1";
  manifest_digest = a_digest;
  authorization_digest = a_digest;
  kind = ascii "invocation";
  nonce = [];
  error_code = [];
  output = ascii "2";
  protocol_version = pos 1;
  binding_revision = pos 3;
  completed_at = pos 1101;
}

abbrev network : Platform
network = record toy {
  json_valid = λ b. not (length b == 0);
  decode_authorization = λ b. some (called, []);
  decode_result = λ b. some (answer, []);
}

abbrev options : Options
options = record {
  trusted_keys = (ascii "k1", repeat 32 b'k') ∷ [];
  scope = home;
  manifest_digest = a_digest;
  endpoint_url = ascii "https://functions.example";
  issuer = ascii "control";
  signing_key_id = ascii "s1";
  audience = ascii "here";
  binding_id = ascii "b1";
  authentication_mode = ascii "signed_https";
  signing_public_key = repeat 32 b's';
  binding_revision = pos 3;
}

abbrev message : SignedMessage
message = record { key_id = ascii "k1"; payload = ascii "grant"; signature = repeat 86 b's' }

abbrev env : Env
env = record {
  now = pos 1100;
  later = pos 1101;
  cancelled = false;
  send = λ tls url m. some (record m { key_id = ascii "s1" });
}

runs : (invoke network options env message []).0 ≡ done answer
unfolding invoke admitted dispatched judged checked_result accepted_grant valid_grant configured
    in_time valid_input valid_named valid_values digest find_key verify_authorization verify_result
    verify strict_json identifier hex_decode hex_digest scope_eq bytes_eq sub64 add64
    lotor_go.Bridge.Protocol.identifier
runs = refl

invoke_sends_example :
    ((is_refused (invoke network options env message []).0 ≡ true)
      × ((invoke network options env message []).1 ≡ [])
      × ((accepted_grant network options env.now message ≡ none) ⊎ (env.cancelled ≡ true)))
    ⊎ ((is_refused (invoke network options env message []).0 ≡ false)
        × ((invoke network options env message []).1 ≡ message ∷ [])
        × (env.cancelled ≡ false)
        × ((g : Authorization × Bytes) × IsAccepted network options env.now message g))
invoke_sends_example = invoke_sends network options env message []

invoke_sound_example :
    (g : Authorization × Bytes) × (accepted_grant network options env.now message ≡ some g)
    × IsAccepted network options env.now message g
    × IsSuccess network options env.later answer
    × IsResultOf network g.0 g.1 answer
invoke_sound_example = invoke_sound network options env message [] answer runs

abbrev double : Handler
double a = returned (ascii "2")

abbrev machine : Runtime
machine = record {
  functions = (greet, double) ∷ [];
  manifest_digest = a_digest;
  config = record {
    has_store = true;
    has_authorize = true;
    trusted_keys = (ascii "k1", repeat 32 b'k') ∷ [];
    scope = home;
    audience = ascii "here";
    binding_id = ascii "b1";
    signing_key_id = ascii "s1";
    issuer = ascii "control";
    signing_key = repeat 64 b'x';
    functions = record { handler = some double; function = greet } ∷ [];
    binding_revision = pos 3;
    execution_timeout = pos (30 * 10 ^ 9);
  };
}

same_binding : IsSameBinding options machine
same_binding = record {
  issuer = refl;
  audience = refl;
  binding_id = refl;
  binding_revision = refl;
  manifest_digest = refl;
  scope = refl;
}

passes : valid_grant network options called (pos 1100) ≡ true
unfolding valid_grant configured in_time valid_input valid_named valid_values digest identifier
    hex_decode hex_digest scope_eq bytes_eq sub64
passes = refl

has_handler : find_handler greet machine.functions ≡ some double
unfolding find_handler function_eq bytes_eq
has_handler = refl

valid_grant-valid_authorization_example :
    valid_authorization network machine called invoke_path (pos 1100) ≡ true
valid_grant-valid_authorization_example =
    valid_grant-valid_authorization network options machine called (pos 1100) greet double refl
      same_binding refl has_handler passes
