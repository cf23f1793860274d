-- ===== src/Bridge/Resource/Tests.antt =====
-- Payload access and identity at a concrete invocation.
use lotor_go.Common.{
  ℕ, suc, ◌-◌, ◌*◌, ◌/◌, ◌^◌, ◌≡◌, refl, true, false, none, some, [], ◌∷◌, ◌++◌, ◌==◌, length, take,
  if◌then◌else◌,
}
use lotor_go.Common.Bytes.{Bytes, ascii, bytes_eq}
use lotor_go.Common.Int.{pos, mul64}
use lotor_go.Common.Http.{Reply, answered}
use lotor_go.Bridge.Platform.{Scope, SignedMessage, Authorization, Platform}
use lotor_go.Bridge.Protocol.{encoded_len, identifier, is_digest, sign, strict_json}
use lotor_go.Bridge.Runtime.{valid_scope, scope_eq}
use lotor_go.Bridge.Resource.{
  ok, Context, PayloadManifest, AccessLease, PayloadAccess, Workload, Codec, contains, lookup_field,
  is_some, take_fields, object_fields, reply_error, access_error, workload_fields, scope_fields,
  same_identity, same_payload, lease_for, may_read, bytes_of, proof, workload_context,
  access_payload,
}

abbrev pub repeat : ℕ → ℕ → Bytes
repeat Prim.Native.Nat.zero c = []
repeat (suc n) c = c ∷ repeat n c

abbrev pub a_digest : Bytes
a_digest = repeat 64 b'a'

abbrev pub home : Scope
home = record {
  tenant_id = ascii "t";
  application_id = ascii "app";
  environment_id = ascii "env";
  owner_resource = ascii "org:1";
}

abbrev pub grant : Authorization
grant = record {
  function = none;
  scope = home;
  kind = ascii "invocation";
  issuer = ascii "control";
  audience = ascii "here";
  binding_id = ascii "b1";
  policy_digest = a_digest;
  manifest_digest = a_digest;
  input_digest = a_digest;
  id = ascii "op1";
  nonce = [];
  principal = ascii "user:1";
  resources = ascii "doc:1" ∷ [];
  capabilities = ascii "payload.read" ∷ ascii "custody.use" ∷ [];
  input = ascii "1";
  expires_at = pos 1200;
  issued_at = pos 1000;
  protocol_version = pos 1;
  binding_revision = pos 3;
}

abbrev pub original : SignedMessage
original = record { key_id = ascii "k1"; payload = ascii "grant"; signature = repeat 86 b's' }

abbrev pub now : Context
now = record {
  invocation = some (grant, original);
  ended = false;
  unix = pos 1100;
  unix_micro = pos (1100 * 10 ^ 6);
}

abbrev pub digits : Bytes → Bytes
digits [] = []
digits (c ∷ b) = (if c == 1 then b'1' else c) ∷ digits b

abbrev pub undigits : Bytes → Bytes
undigits [] = []
undigits (c ∷ b) = (if c == b'1' then 1 else c) ∷ undigits b

abbrev pub padded : Bytes → Bytes
padded b = digits b ++ repeat (encoded_len (length b) - length b) b'-'

abbrev pub toy : Platform
toy = record {
  sha256_hex = λ b. a_digest;
  ed25519_verify = λ key m s. true;
  ed25519_sign = λ key m. repeat 64 b's';
  base64_encode = padded;
  base64_decode = λ s. some (undigits (take (length s * 3 / 4) s));
  marshal_functions = λ f. some [];
  marshal_authorization = λ a. some [];
  marshal_result = λ r. some [];
  compact = λ b. some b;
  json_valid = λ b. true;
  decode_message = λ b. none;
  decode_authorization = λ b. none;
  decode_result = λ b. none;
  at_end = λ b. true;
  unmarshal_result = λ b. none;
}

abbrev pub manifest : PayloadManifest
manifest = record {
  resource = ascii "doc:1";
  slot = ascii "main";
  schema_id = ascii "note";
  representation = ascii "encrypted-envelope-v1";
  object_digest = a_digest;
  encryption_suite = ascii "AES-256-GCM";
  key_binding_ref = ascii "key:1";
  wrapped_payload_key = padded (1 ∷ repeat 60 b'w');
  aad_hash = padded (repeat 32 b'h');
  encryptor_subject = ascii "user:1";
  encryptor_key_id = ascii "k1";
  state = ascii "committed";
  payload_version = pos 2;
  object_size = pos 31;
  key_version = pos 1;
  resource_revision = pos 4;
  lifecycle_generation = pos 1;
  committed_at = pos 900;
}

abbrev pub lease : AccessLease
lease = record {
  resource = ascii "doc:1";
  slot = ascii "main";
  representation = ascii "encrypted-envelope-v1";
  object_digest = a_digest;
  download_url = ascii "https://objects.example/1";
  download_method = ascii "GET";
  audience = ascii "function:b1";
  payload_version = pos 2;
  object_size = pos 31;
  expires_at = pos (1150 * 10 ^ 6);
  resource_revision = pos 4;
  lifecycle_generation = pos 1;
}

abbrev pub access : PayloadAccess
access = record { custody_owner = a_digest; lease = lease; manifest = manifest }

abbrev pub me : Workload
me = record {
  invocation_id = ascii "op1";
  binding_id = ascii "b1";
  scope = home;
  principal = ascii "user:1";
  authority_kind = ascii "subject";
  authority_resource = [];
}

abbrev pub codec : Codec
codec = record {
  marshal_access = λ r. some (ascii "request");
  marshal_validation = λ m. some (ascii "request");
  marshal_proof = λ m. some (ascii "proof");
  decode_access = λ b. some (access, []);
  decode_workload = λ b. some (me, []);
  members = λ b. if length b == 2 then some [] else some ((ascii "scope", ascii "{}") ∷ []);
}

abbrev pub yes : Reply
yes = answered 200 (some (ascii "answer"))

abbrev pub service_key : Bytes
service_key = repeat 64 b'x'

pub access_runs :
    access_payload toy codec
      (ascii "s1")
      service_key
      now
      yes
      (ascii "doc:1")
      (ascii "main")
      (pos 2)
      true
    ≡ ok access
unfolding access_payload sign strict_json proof access_error bytes_of same_payload mul64 identifier
    is_digest bytes_eq lease_for may_read contains
access_runs = refl

pub identity_runs : workload_context toy codec (ascii "s1") service_key now yes ≡ ok me
unfolding workload_context sign strict_json proof reply_error bytes_of object_fields take_fields
    workload_fields scope_fields same_identity is_some lookup_field contains scope_eq valid_scope
    identifier is_digest bytes_eq
identity_runs = refl
