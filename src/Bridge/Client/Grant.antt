-- ===== src/Bridge/Client/Grant.antt =====
-- What the checks of validGrant of bridge/client/client.go have seen of a grant.
use lotor_go.Common.{◌≡◌, ap, ◌∙◌, true, some, arith}
use mathlib.Core.Path.{subst}
use lotor_go.Common.Bytes.{Bytes, ascii, bytes_eq_iff}
use lotor_go.Common.Int.{ℤ, pos, ltz, lez, sub64, eqz→eq}
use lotor_go.Common.Options.{>>=-eq-some, guard-eq-some}
use lotor_go.Bridge.Platform.{SignedMessage, Authorization, Platform}
use lotor_go.Bridge.Protocol.{
  protocol_version, authorization_purpose, verify, strict_json, verify_authorization,
}
use lotor_go.Bridge.Runtime.{scope_eq→eq}
use lotor_go.Bridge.Runtime.Admission.{find_key}
use lotor_go.Bridge.Client.{Options, configured, in_time, valid_input, valid_grant, accepted_grant}

-- The grant is for the binding that the client is configured for, and alive.
pub record IsForBinding (platform : Platform) (o : Options) (now : ℤ) (a : Authorization)
    : Type 0 where
  pub protocol : a.protocol_version ≡ protocol_version
  pub kind : a.kind ≡ ascii "invocation"
  pub scope : a.scope ≡ o.scope
  pub binding_id : a.binding_id ≡ o.binding_id
  pub binding_revision : a.binding_revision ≡ o.binding_revision
  pub audience : a.audience ≡ o.audience
  pub manifest_digest : a.manifest_digest ≡ o.manifest_digest
  pub issuer : a.issuer ≡ o.issuer
  pub issued : lez a.issued_at now ≡ true
  pub unexpired : ltz now a.expires_at ≡ true
  pub short_lived : lez (sub64 a.expires_at a.issued_at) (pos 300) ≡ true
  pub input_digest : a.input_digest ≡ platform.sha256_hex a.input
  pub json : platform.json_valid a.input ≡ true

-- A trusted key has signed the grant of the message, whose bytes are `g.1`.
pub record IsAccepted (platform : Platform) (o : Options) (now : ℤ) (message : SignedMessage)
    (g : Authorization × Bytes) : Type 0 where
  pub key : Bytes
  pub trusted : find_key message.key_id o.trusted_keys ≡ some key
  pub verified : verify platform message authorization_purpose key ≡ some g.1
  pub decoded : strict_json platform platform.decode_authorization g.1 ≡ some g.0
  pub for_binding : IsForBinding platform o now g.0

module _ (platform : Platform) (o : Options) (now : ℤ) where
  valid_grant-IsForBinding :
      (a : Authorization) → valid_grant platform o a now ≡ true → IsForBinding platform o now a
  unfolding valid_grant configured in_time valid_input
  valid_grant-IsForBinding a h = record {
    protocol = eqz→eq _ _ (ground arith);
    kind = (bytes_eq_iff _ _).0 (ground arith);
    scope = scope_eq→eq _ _ (ground arith);
    binding_id = (bytes_eq_iff _ _).0 (ground arith);
    binding_revision = eqz→eq _ _ (ground arith);
    audience = (bytes_eq_iff _ _).0 (ground arith);
    manifest_digest = (bytes_eq_iff _ _).0 (ground arith);
    issuer = (bytes_eq_iff _ _).0 (ground arith);
    issued = ground arith;
    unexpired = ground arith;
    short_lived = ground arith;
    input_digest = (bytes_eq_iff _ _).0 (ground arith);
    json = ground arith;
  }

  pub accepted_grant-IsAccepted :
      (message : SignedMessage) (g : Authorization × Bytes)
      → accepted_grant platform o now message ≡ some g
      → IsAccepted platform o now message g
  unfolding accepted_grant verify_authorization
  accepted_grant-IsAccepted message g h =
      let (key, trusted, h1) = >>=-eq-some (find_key message.key_id o.trusted_keys) _ h in
      let ((a, raw), verified, h2) = >>=-eq-some (verify_authorization platform message key) _ h1 in
      let (valid, h3) = guard-eq-some (valid_grant platform o a now) _ h2 in
      let (bytes, signature, v1) =
        >>=-eq-some (verify platform message authorization_purpose key) _ verified in
      let (value, decoded, v2) =
        >>=-eq-some (strict_json platform platform.decode_authorization bytes) _ v1 in
      let read : ◌≡◌ {A = Authorization × Bytes} (value, bytes) (a, raw) = cc in
      let same : ◌≡◌ {A = Authorization × Bytes} (a, raw) g = cc in
      subst (IsAccepted platform o now message) same (record {
        key = key;
        trusted = trusted;
        verified = signature ∙ ap (λ (x : Authorization × Bytes). some x.1) read;
        decoded =
            subst
              (λ (x : Authorization × Bytes).
                strict_json platform platform.decode_authorization x.1 ≡ some x.0)
              read decoded;
        for_binding = valid_grant-IsForBinding a valid;
      })
