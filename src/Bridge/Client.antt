-- ===== src/Bridge/Client.antt =====
-- bridge/client/client.go: a caller that sends a signed grant to one function endpoint. The network
-- and the clock at each reading are arguments of a call; `List SignedMessage` are the messages sent.
-- `identifier` and `digest` there are the checks that bridge/sqlstore has, with the same text.
pub mod Grant
pub mod Invoke
pub mod Agreement
mod Tests
use lotor_go.Common.{
  ℕ, ◌+◌, ◌*◌, ◌^◌, Bool, true, false, not, ◌&&◌, ◌||◌, Option, none, some, List, [], ◌∷◌, ◌++◌,
  ltb, leb, ◌==◌, if◌then◌else◌, length, all,
}
use lotor_go.Common.Bytes.{Bytes, ascii, bytes_eq}
use lotor_go.Common.Int.{ℤ, pos, ltz, lez, eqz, add64, sub64}
use lotor_go.Common.Options.{guard, ◌>>=◌, ◌>>◌}
use lotor_go.Bridge.Platform.{Scope, Function, SignedMessage, Authorization, Result, Platform}
use lotor_go.Bridge.Protocol.{
  Error, unauthorized, unavailable, protocol_version, maximum_input_bytes, ed25519_public_key_size,
  verify_authorization, verify_result,
}
use lotor_go.Bridge.Runtime.{scope_eq}
use lotor_go.Bridge.Runtime.Admission.{find_key}
use lotor_go.Bridge.SqlStore.{identifier, hex_decode, hex_digest}

pub record Options : Type 0 where
  pub trusted_keys : List (Bytes × Bytes)
  pub scope : Scope
  pub manifest_digest : Bytes
  pub endpoint_url : Bytes
  pub issuer : Bytes
  pub signing_key_id : Bytes
  pub audience : Bytes
  pub binding_id : Bytes
  pub authentication_mode : Bytes
  pub signing_public_key : Bytes
  pub binding_revision : ℤ

-- What a call meets: the clock in seconds when the grant is admitted and when the result is, whether
-- the context has ended, and the answer of the endpoint, by whether mutual TLS is used.
pub record Env : Type 0 where
  pub now : ℤ
  pub later : ℤ
  pub cancelled : Bool
  pub send : Bool → Bytes → SignedMessage → Option SignedMessage

-- What Invoke returns: an error before the dispatch, ErrOutcomeUnknown without a result and with
-- one, and a result.
pub data Invoked : Type 0 where
  refused : Error → Invoked
  unknown : Invoked
  unsure done : Result → Invoked

abbrev pub mutual_tls : Bytes
mutual_tls = ascii "mtls"

digest : Bytes → Bool
digest value = hex_digest (hex_decode value) value

names : Options → List Bytes
names o =
    o.binding_id ∷ o.audience ∷ o.issuer ∷ o.signing_key_id ∷ o.scope.tenant_id
    ∷ o.scope.application_id ∷ o.scope.environment_id ∷ o.scope.owner_resource ∷ []

valid_mode : Bytes → Bool
valid_mode mode = bytes_eq mode (ascii "signed_https") || bytes_eq mode mutual_tls

-- `New`: whether transport.ValidateEndpoint accepts the endpoint, and whether the dispatcher, which
-- is given or built, has mutual TLS configured (`none` where building it fails).
pub new_client : Bool → Option Bool → Options → Option Options
unfolding names digest valid_mode
new_client endpoint_valid dispatcher o = do
  guard endpoint_valid
  guard (all (λ name. identifier name 256) (names o))
  guard (not (ltz o.binding_revision (pos 1)))
  guard (digest o.manifest_digest)
  guard (length o.signing_public_key == ed25519_public_key_size)
  guard (not (length o.trusted_keys == 0))
  guard (valid_mode o.authentication_mode)
  guard (
      all
        (λ (entry : Bytes × Bytes).
          identifier entry.0 256 && length entry.1 == ed25519_public_key_size)
        o.trusted_keys)
  has_tls ← dispatcher
  guard (not (bytes_eq o.authentication_mode mutual_tls) || has_tls)
  some o

-- The checks of `validGrant` on the named function.
valid_named : Option Function → Bool
unfolding digest
valid_named none = false
valid_named (some f) =
    identifier f.name 128
    && (identifier f.version 128 && (digest f.input_schema_digest && digest f.output_schema_digest))

valid_values : Authorization → Bool
valid_values a =
    not (ltb 128 (length a.resources))
    && (not (ltb 64 (length a.capabilities))
        && all (λ value. identifier value 256) (a.resources ++ a.capabilities))

-- The grant is for the configured binding.
configured : Options → Authorization → Bool
configured o a =
    eqz a.protocol_version protocol_version
    && (bytes_eq a.kind (ascii "invocation")
        && (scope_eq a.scope o.scope
            && (bytes_eq a.binding_id o.binding_id
                && (eqz a.binding_revision o.binding_revision
                    && (bytes_eq a.audience o.audience
                        && (bytes_eq a.manifest_digest o.manifest_digest
                            && bytes_eq a.issuer o.issuer))))))

in_time : Authorization → ℤ → Bool
in_time a now =
    ltz (pos 0) a.issued_at
    && (lez a.issued_at now
        && (ltz now a.expires_at
            && (ltz a.issued_at a.expires_at && lez (sub64 a.expires_at a.issued_at) (pos 300))))

module _ (platform : Platform) where
  open platform use {sha256_hex, json_valid}

  valid_input : Authorization → Bool
  unfolding digest
  valid_input a =
      json_valid a.input
      && (bytes_eq a.input_digest (sha256_hex a.input)
          && (bytes_eq a.policy_digest [] || digest a.policy_digest))

  -- `validGrant`
  pub valid_grant : Options → Authorization → ℤ → Bool
  unfolding configured in_time valid_input valid_named valid_values
  valid_grant o a now =
      not (ltb maximum_input_bytes (length a.input))
      && (configured o a
          && (identifier a.id 256
              && (identifier a.principal 256
                  && (bytes_eq a.nonce []
                      && (in_time a now
                          && (valid_input a && (valid_named a.function && valid_values a)))))))

  -- The grant of a message that may be sent, with its bytes.
  pub accepted_grant : Options → ℤ → SignedMessage → Option (Authorization × Bytes)
  accepted_grant o now message = do
    key ← find_key message.key_id o.trusted_keys
    (a, raw) ← verify_authorization platform message key
    guard (valid_grant o a now)
    some (a, raw)

  -- The result of a response, signed by the endpoint for this grant.
  pub checked_result : Options → ℤ → Authorization → Bytes → Option SignedMessage → Option Result
  checked_result o later a raw answer = do
    response ← answer
    guard (bytes_eq response.key_id o.signing_key_id)
    result ← verify_result platform response o.signing_public_key a raw
    guard (ltz (pos 0) result.completed_at)
    guard (lez result.completed_at (add64 later (pos 5)))
    some result

  judged : Option Result → Invoked
  judged none = unknown
  judged (some r) =
      if not (bytes_eq r.error_code []) || not (json_valid r.output) then unsure r else done r

  dispatched :
      Options
      → Env
      → SignedMessage
      → Authorization × Bytes
      → List SignedMessage
      → Invoked × List SignedMessage
  unfolding judged
  dispatched o env message (a, raw) sent =
      let answer = env.send (bytes_eq o.authentication_mode mutual_tls) o.endpoint_url message in
      (judged (checked_result o env.later a raw answer), message ∷ sent)

  admitted :
      Options
      → Env
      → SignedMessage
      → Option (Authorization × Bytes)
      → List SignedMessage
      → Invoked × List SignedMessage
  unfolding dispatched
  admitted o env message none sent = (refused unauthorized, sent)
  admitted o env message (some grant) sent =
      if env.cancelled then (refused unavailable, sent) else dispatched o env message grant sent

  -- `Invoke`
  pub invoke : Options → Env → SignedMessage → List SignedMessage → Invoked × List SignedMessage
  unfolding admitted
  invoke o env message sent = admitted o env message (accepted_grant o env.now message) sent
