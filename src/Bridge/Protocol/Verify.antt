-- ===== src/Bridge/Protocol/Verify.antt =====
-- What VerifyResult of bridge/protocol.go has checked.
use mathlib.Core.Path.{subst}
use lotor_go.Common.{◌≡◌, ap, ◌∙◌, true, not, some, ltb, length, arith}
use lotor_go.Common.Bytes.{Bytes, bytes_eq_iff}
use lotor_go.Common.Int.{eqz→eq}
use lotor_go.Common.Options.{>>=-eq-some, guard-eq-some}
use lotor_go.Bridge.Platform.{SignedMessage, Authorization, Result, Platform}
use lotor_go.Bridge.Protocol.{
  maximum_input_bytes, result_purpose, verify, strict_json, bound_to, verify_result,
}

-- The result answers this grant.
pub record IsResultOf (platform : Platform) (a : Authorization) (raw : Bytes) (r : Result)
    : Type 0 where
  pub id : r.id ≡ a.id
  pub kind : r.kind ≡ a.kind
  pub binding_id : r.binding_id ≡ a.binding_id
  pub binding_revision : r.binding_revision ≡ a.binding_revision
  pub manifest_digest : r.manifest_digest ≡ a.manifest_digest
  pub authorization_digest : r.authorization_digest ≡ platform.sha256_hex raw
  pub nonce : r.nonce ≡ a.nonce

bound_to-IsResultOf :
    (platform : Platform) (a : Authorization) (raw : Bytes) (r : Result)
    → bound_to platform r a raw ≡ true
    → IsResultOf platform a raw r
unfolding bound_to
bound_to-IsResultOf platform a raw r h = record {
  id = (bytes_eq_iff _ _).0 (ground arith);
  kind = (bytes_eq_iff _ _).0 (ground arith);
  binding_id = (bytes_eq_iff _ _).0 (ground arith);
  binding_revision = eqz→eq _ _ (ground arith);
  manifest_digest = (bytes_eq_iff _ _).0 (ground arith);
  authorization_digest = (bytes_eq_iff _ _).0 (ground arith);
  nonce = (bytes_eq_iff _ _).0 (ground arith);
}

pub verify_result_sound :
    (platform : Platform) (message : SignedMessage) (key : Bytes) (a : Authorization) (raw : Bytes)
    (r : Result)
    → verify_result platform message key a raw ≡ some r
    → IsResultOf platform a raw r
      × ((body : Bytes) × (verify platform message result_purpose key ≡ some body)
          × (strict_json platform platform.decode_result body ≡ some r))
unfolding verify_result
verify_result_sound platform message key a raw r h =
    let (body, verified, h1) = >>=-eq-some (verify platform message result_purpose key) _ h in
    let (value, decoded, h2) =
      >>=-eq-some (strict_json platform platform.decode_result body) _ h1 in
    let (small, h3) = guard-eq-some (not (ltb maximum_input_bytes (length value.output))) _ h2 in
    let (bound, h4) = guard-eq-some (bound_to platform value a raw) _ h3 in
    let same : value ≡ r = cc in
    (
      subst (λ (x : Result). IsResultOf platform a raw x) same
          (bound_to-IsResultOf platform a raw value bound),
      (body, verified, decoded ∙ ap some same),
    )
