-- ===== src/Bridge/Resource.antt =====
-- bridge/resource.go and bridge/workload.go: what a handler may ask of Control about its own
-- invocation. The reply of Control and the clock are arguments of a call; `Context` is what a call
-- finds in its context.Context.
pub mod Bound
pub mod Tests
use lotor_go.Common.{
  ℕ, ◌*◌, ◌^◌, Bool, true, false, not, ◌&&◌, ◌||◌, Option, none, some, List, [], ◌∷◌, ◌++◌, ltb,
  leb, ◌==◌, if◌then◌else◌, length,
}
use lotor_go.Common.Options
use lotor_go.Common.Results.{Result}
pub use lotor_go.Common.Results.{ok, err, ◌>>=◌, ◌>>◌, require, found}
use lotor_go.Common.Bytes.{Bytes, ascii, bytes_eq}
use lotor_go.Common.Int.{ℤ, pos, ltz, lez, eqz, mul64}
use lotor_go.Common.Http.{Reply, unreachable, answered}
use lotor_go.Bridge.Platform.{Scope, SignedMessage, Authorization, Decoder, Platform}
use lotor_go.Bridge.Protocol.{
  Error, invalid, unauthorized, unavailable, not_found, conflict, maximum_body_bytes, newline,
  identifier, sign, strict_json,
}
use lotor_go.Bridge.Runtime.{valid_scope, scope_eq}

abbrev pub Fallible : Type 0 → Type 0
Fallible A = Result Error A

-- The grant of the running invocation with the message that carried it, if there is one; whether the
-- context has ended; the clock in seconds and in microseconds.
pub record Context : Type 0 where
  pub invocation : Option (Authorization × SignedMessage)
  pub ended : Bool
  pub unix : ℤ
  pub unix_micro : ℤ

pub record PayloadManifest : Type 0 where
  pub resource : Bytes
  pub slot : Bytes
  pub schema_id : Bytes
  pub representation : Bytes
  pub object_digest : Bytes
  pub encryption_suite : Bytes
  pub key_binding_ref : Bytes
  pub wrapped_payload_key : Bytes
  pub aad_hash : Bytes
  pub encryptor_subject : Bytes
  pub encryptor_key_id : Bytes
  pub state : Bytes
  pub payload_version : ℤ
  pub object_size : ℤ
  pub key_version : ℤ
  pub resource_revision : ℤ
  pub lifecycle_generation : ℤ
  pub committed_at : ℤ

pub record AccessLease : Type 0 where
  pub resource : Bytes
  pub slot : Bytes
  pub representation : Bytes
  pub object_digest : Bytes
  pub download_url : Bytes
  pub download_method : Bytes
  pub audience : Bytes
  pub payload_version : ℤ
  pub object_size : ℤ
  pub expires_at : ℤ
  pub resource_revision : ℤ
  pub lifecycle_generation : ℤ

pub record PayloadAccess : Type 0 where
  pub custody_owner : Bytes
  pub lease : AccessLease
  pub manifest : PayloadManifest

pub record Workload : Type 0 where
  pub invocation_id : Bytes
  pub binding_id : Bytes
  pub scope : Scope
  pub principal : Bytes
  pub authority_kind : Bytes
  pub authority_resource : Bytes

pub record AccessRequest : Type 0 where
  pub authorization : SignedMessage
  pub resource : Bytes
  pub slot : Bytes
  pub payload_version : ℤ
  pub use_custody : Bool

-- JSON of these messages, from Go's standard library.
pub record Codec : Type 0 where
  pub marshal_access : AccessRequest → Option Bytes
  pub marshal_validation : SignedMessage → Option Bytes
  pub marshal_proof : SignedMessage → Option Bytes
  pub decode_access : Decoder PayloadAccess
  pub decode_workload : Decoder Workload
  -- the members of the one object that the text holds, read token by token
  pub members : Bytes → Option (List (Bytes × Bytes))

abbrev pub validation_purpose : Bytes
validation_purpose = ascii "lotor-function-validation-v1" ++ newline

abbrev pub resource_access_purpose : Bytes
resource_access_purpose = ascii "lotor-function-resource-access-v1" ++ newline

-- `slices.Contains`
unfoldable pub contains : List Bytes → Bytes → Bool
contains [] s = false
contains (x ∷ xs) s = bytes_eq x s || contains xs s

pub lookup_field : Bytes → List (Bytes × Bytes) → Option Bytes
lookup_field name [] = none
lookup_field name ((j, value) ∷ fields) =
    if bytes_eq j name then some value else lookup_field name fields

is_some : Option Bytes → Bool
is_some none = false
is_some (some s) = true

-- The loop of `workloadObjectFields`, with the fields so far.
take_fields :
    List Bytes → List (Bytes × Bytes) → List (Bytes × Bytes) → Option (List (Bytes × Bytes))
unfolding is_some lookup_field
take_fields names [] fields = some fields
take_fields names ((name, value) ∷ more) fields =
    let rest = take_fields names more ((name, value) ∷ fields) in
    if is_some (lookup_field name fields) || not (contains names name) then none else rest

-- The fields of an object with no duplicate and no other name.
object_fields :
    (Bytes → Option (List (Bytes × Bytes))) → Bytes → List Bytes → Option (List (Bytes × Bytes))
unfolding take_fields
object_fields members raw names =
    Options.◌>>=◌ (members raw) (λ fields. take_fields names fields [])

-- The body of a reply of status 200; the other statuses as their errors.
reply_error : Reply → Fallible (Option Bytes)
reply_error unreachable = err unavailable
reply_error (answered status body) =
    if status == 403 || status == 401
    then err unauthorized
    else if status == 200
    then ok body
    else err unavailable

access_error : Reply → Fallible (Option Bytes)
access_error unreachable = err unavailable
access_error (answered status body) =
    if status == 403 || status == 401
    then err unauthorized
    else if status == 409
    then err conflict
    else if status == 404
    then err not_found
    else if status == 400
    then err invalid
    else if status == 200
    then ok body
    else err unavailable

workload_fields : List Bytes
workload_fields =
    ascii "invocation_id"
    ∷ ascii "binding_id"
    ∷ ascii "scope"
    ∷ ascii "principal"
    ∷ ascii "authority_kind"
    ∷ ascii "authority_resource"
    ∷ []

scope_fields : List Bytes
scope_fields =
    ascii "tenant_id"
    ∷ ascii "application_id"
    ∷ ascii "environment_id"
    ∷ ascii "owner_resource"
    ∷ []

-- The identity that Control gives is that of the grant.
same_identity : Workload → Authorization → Bool → Bool
same_identity w a has_authority_resource =
    bytes_eq w.invocation_id a.id
    && (bytes_eq w.binding_id a.binding_id
        && (scope_eq w.scope a.scope
            && (bytes_eq w.principal a.principal
                && (valid_scope w.scope
                    && (identifier w.principal 256
                        && ((bytes_eq w.authority_kind (ascii "subject")
                              && not has_authority_resource)
                            || (bytes_eq w.authority_kind (ascii "resource_credential")
                                && identifier w.authority_resource 256)))))))

-- The manifest and the lease speak of the payload that was asked for, under this grant.
same_payload : PayloadManifest → AccessLease → Bytes → Bytes → ℤ → Bool
same_payload m l resource slot version =
    bytes_eq m.resource resource
    && (bytes_eq l.resource resource
        && (bytes_eq m.slot slot
            && (bytes_eq l.slot slot
                && (eqz m.payload_version version
                    && (eqz l.payload_version version
                        && (bytes_eq m.object_digest l.object_digest
                            && (eqz m.object_size l.object_size
                                && (bytes_eq m.representation l.representation
                                    && (eqz m.resource_revision l.resource_revision
                                        && eqz m.lifecycle_generation
                                            l.lifecycle_generation)))))))))

lease_for : AccessLease → Authorization → ℤ → Bool
lease_for l a now =
    bytes_eq l.audience (ascii "function:" ++ a.binding_id)
    && (ltz now l.expires_at && lez l.expires_at (mul64 a.expires_at (10 ^ 6)))

may_read : Authorization → Bytes → Bool → Bool
may_read a resource use_custody =
    contains a.resources resource
    && (contains a.capabilities (ascii "payload.read")
        && (not use_custody || contains a.capabilities (ascii "custody.use")))

bytes_of : Option Bytes → ℕ → Fallible Bytes
bytes_of none limit = err unavailable
bytes_of (some raw) limit = if ltb limit (length raw) then err unavailable else ok raw

module _ (platform : Platform) (codec : Codec) (key_id key : Bytes) where
  open codec use {
    marshal_access, marshal_validation, marshal_proof, decode_access, decode_workload, members,
  }

  -- The proof of the original grant, as it is posted to Control.
  proof : Option Bytes → Bytes → Fallible Bytes
  proof marshalled purpose = do
    message ← found (sign platform marshalled purpose key_id key) invalid
    found (marshal_proof message) invalid

  -- The method `WorkloadContext`.
  pub workload_context : Context → Reply → Fallible Workload
  unfolding proof reply_error bytes_of object_fields workload_fields scope_fields same_identity
      is_some lookup_field
  workload_context ctx reply = do
    (a, original) ← found ctx.invocation unauthorized
    require (bytes_eq a.kind (ascii "invocation")) unauthorized
    body ← proof (marshal_validation original) validation_purpose
    answer ← reply_error reply
    raw ← bytes_of answer (16 * 2 ^ 10)
    fields ← found (object_fields members raw workload_fields) unavailable
    scope ← found (lookup_field (ascii "scope") fields) unavailable
    inner ← found (object_fields members scope scope_fields) unavailable
    result ← found (strict_json platform decode_workload raw) unavailable
    require (same_identity result a (is_some (lookup_field (ascii "authority_resource") fields)))
        unavailable
    ok result

  -- `accessPayload`
  pub access_payload : Context → Reply → Bytes → Bytes → ℤ → Bool → Fallible PayloadAccess
  unfolding proof access_error bytes_of same_payload lease_for may_read
  access_payload ctx reply resource slot version use_custody = do
    (a, original) ← found ctx.invocation unauthorized
    require (may_read a resource use_custody) unauthorized
    require (identifier resource 256 && (identifier slot 128 && not (ltz version (pos 1)))) invalid
    let request : AccessRequest = record {
      authorization = original;
      resource = resource;
      slot = slot;
      payload_version = version;
      use_custody = use_custody;
    }
    body ← proof (marshal_access request) resource_access_purpose
    answer ← access_error reply
    raw ← bytes_of answer maximum_body_bytes
    result ← found (strict_json platform decode_access raw) unavailable
    require
        (same_payload result.manifest result.lease resource slot version
          && lease_for result.lease a ctx.unix_micro)
        unauthorized
    ok result
