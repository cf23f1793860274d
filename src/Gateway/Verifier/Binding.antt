-- ===== src/Gateway/Verifier/Binding.antt =====
-- What an accepted gateway assertion is bound to.
use lotor_go.Common.{
  ℕ, ◌+◌, ◌≡◌, refl, sym, ap, ◌∙◌, Bool, true, false, ◌&&◌, Option, none, some, ◌==◌, ◌⊎◌, length,
  and-eq-true, inl, inr, arith,
}
use lotor_go.Common.Bytes.{Bytes, bytes_eq_iff}
use lotor_go.Common.Int.{pos, ltz, eqz→eq, sub64}
use lotor_go.Common.Options.{>>=-eq-some, guard-eq-some}
use lotor_go.Gateway.{
  Claims, Authority, GatewayRequest, Library, instant, same_authority, timely, before_now,
  matches_request, idempotency_hash, well_formed, replay_policy, is_safe, valid_request,
  valid_claims,
}
use lotor_go.Gateway.Verifier.{
  Verifier, accepted, Consumed, first, again, failed, ReplayStore, verdict_of, read_assertion,
  find_key, signed, authentic, check_replay, decided, verify,
}

-- The claims name the trusted route and placement.
pub record IsFor (c : Claims) (a : Authority) : Type 0 where
  pub issuer : c.issuer ≡ a.issuer
  pub audience : c.audience ≡ a.audience
  pub tenant_id : c.tenant_id ≡ a.tenant_id
  pub application_id : c.application_id ≡ a.application_id
  pub environment_id : c.environment_id ≡ a.environment_id
  pub binding_id : c.binding_id ≡ a.binding_id
  pub route_id : c.route_id ≡ a.route_id
  pub route_pin : c.route_pin ≡ a.route_pin
  pub gateway_placement_id : c.gateway_placement_id ≡ a.gateway_placement_id
  pub gateway_ownership_epoch : c.gateway_ownership_epoch ≡ a.gateway_ownership_epoch
  pub runtime_placement_id : c.runtime_placement_id ≡ a.runtime_placement_id
  pub runtime_ownership_epoch : c.runtime_ownership_epoch ≡ a.runtime_ownership_epoch
  pub operation : c.operation ≡ a.operation
  pub configuration_version : c.configuration_version ≡ a.configuration_version
  pub binding_activation_epoch : c.binding_activation_epoch ≡ a.binding_activation_epoch

pub record IsTimely (now skew : ℕ) (c : Claims) : Type 0 where
  pub lives : ltz c.issued_at c.expires_at ≡ true
  pub short_lived : ltz (pos 30) (sub64 c.expires_at c.issued_at) ≡ false
  pub issued : ltz (pos (now + skew)) (instant c.issued_at) ≡ false
  pub unexpired : ltz (before_now now skew) (instant c.expires_at) ≡ true

module _ (library : Library) where
  pub record IsOf (c : Claims) (r : GatewayRequest) : Type 0 where
    pub method : c.method ≡ r.method
    pub path : c.path ≡ r.path
    pub body : c.body_sha256 ≡ library.sha256_hex r.body
    pub query : c.query_sha256 ≡ library.sha256_hex r.raw_query
    pub idempotency : c.idempotency_key_sha256 ≡ idempotency_hash library r.idempotency_key

  -- The claims are those of the assertion, and a trusted key signed their bytes.
  pub record IsSigned (v : Verifier) (encoded : Bytes) (c : Claims) : Type 0 where
    pub body : Bytes
    pub signature : Bytes
    pub key : Bytes
    pub reads : read_assertion library encoded ≡ some (c, body, signature)
    pub trusted : find_key c.key_id v.keys ≡ some key
    pub verified : library.ed25519_verify key body signature ≡ true

  authority-IsFor : (c : Claims) (a : Authority) → same_authority c a ≡ true → IsFor c a
  unfolding same_authority
  authority-IsFor c a h = record {
    issuer = (bytes_eq_iff _ _).0 (ground arith);
    audience = (bytes_eq_iff _ _).0 (ground arith);
    tenant_id = (bytes_eq_iff _ _).0 (ground arith);
    application_id = (bytes_eq_iff _ _).0 (ground arith);
    environment_id = (bytes_eq_iff _ _).0 (ground arith);
    binding_id = (bytes_eq_iff _ _).0 (ground arith);
    route_id = (bytes_eq_iff _ _).0 (ground arith);
    route_pin = (bytes_eq_iff _ _).0 (ground arith);
    gateway_placement_id = (bytes_eq_iff _ _).0 (ground arith);
    gateway_ownership_epoch = eqz→eq _ _ (ground arith);
    runtime_placement_id = (bytes_eq_iff _ _).0 (ground arith);
    runtime_ownership_epoch = eqz→eq _ _ (ground arith);
    operation = (bytes_eq_iff _ _).0 (ground arith);
    configuration_version = eqz→eq _ _ (ground arith);
    binding_activation_epoch = eqz→eq _ _ (ground arith);
  }

  timely-IsTimely : (now skew : ℕ) (c : Claims) → timely now skew c ≡ true → IsTimely now skew c
  unfolding timely
  timely-IsTimely now skew c h = record {
    lives = ground arith;
    short_lived = ground arith;
    issued = ground arith;
    unexpired = ground arith;
  }

  request-IsOf : (c : Claims) (r : GatewayRequest) → matches_request library c r ≡ true → IsOf c r
  unfolding matches_request
  request-IsOf c r h = record {
    method = (bytes_eq_iff _ _).0 (ground arith);
    path = (bytes_eq_iff _ _).0 (ground arith);
    body = (bytes_eq_iff _ _).0 (ground arith);
    query = (bytes_eq_iff _ _).0 (ground arith);
    idempotency = (bytes_eq_iff _ _).0 (ground arith);
  }

  signed-IsSigned :
      (v : Verifier) (encoded : Bytes) (parts : Claims × Bytes × Bytes) (c : Claims)
      → read_assertion library encoded ≡ some parts
      → signed library v parts ≡ some c
      → IsSigned v encoded c
  unfolding signed
  signed-IsSigned v encoded (claims, body, signature) c e h =
      let (key, trusted, h1) = >>=-eq-some (find_key claims.key_id v.keys) _ h in
      let (size, h2) = guard-eq-some (length key == 32) _ h1 in
      let (good, h3) = guard-eq-some (library.ed25519_verify key body signature) _ h2 in
      let same : claims ≡ c = cc in
      record {
        body = body;
        signature = signature;
        key = key;
        reads = e ∙ ap (λ (d : Claims). some (d, body, signature)) same;
        trusted = ap (λ (d : Claims). find_key d.key_id v.keys) (sym same) ∙ trusted;
        verified = good;
      }

  -- What the checks before the replay store establish.
  pub record IsAuthentic (v : Verifier) (now : ℕ) (encoded : Bytes) (r : GatewayRequest)
      (c : Claims) : Type 0 where
    pub signed_claims : IsSigned v encoded c
    pub for_authority : IsFor c v.authority
    pub in_time : IsTimely now v.clock_skew c
    pub of_request : IsOf c r
    pub policy :
        replay_policy
          (is_safe r.method)
          c.replay_eligible
          (idempotency_hash library r.idempotency_key)
        ≡ true

  valid-IsAuthentic :
      (v : Verifier) (now : ℕ) (encoded : Bytes) (r : GatewayRequest) (c : Claims)
      → IsSigned v encoded c
      → valid_claims library v.authority now v.clock_skew c r ≡ true
      → IsAuthentic v now encoded r c
  unfolding valid_claims
  valid-IsAuthentic v now encoded r c signs h =
      let policy =
        replay_policy (is_safe r.method) c.replay_eligible
          (idempotency_hash library r.idempotency_key) in
      let (same, h1) =
        and-eq-true (same_authority c v.authority)
          (timely now v.clock_skew c
            && (well_formed library c && (matches_request library c r && policy)))
          h in
      let (time, h2) =
        and-eq-true (timely now v.clock_skew c)
          (well_formed library c && (matches_request library c r && policy)) h1 in
      let (formed, h3) =
        and-eq-true (well_formed library c) (matches_request library c r && policy) h2 in
      let (of, p) = and-eq-true (matches_request library c r) policy h3 in
      record {
        signed_claims = signs;
        for_authority = authority-IsFor c v.authority same;
        in_time = timely-IsTimely now v.clock_skew c time;
        of_request = request-IsOf c r of;
        policy = p;
      }

  pub authentic-IsAuthentic :
      (v : Verifier) (now : ℕ) (encoded : Bytes) (r : GatewayRequest) (c : Claims)
      → authentic library v now encoded r ≡ some c
      → IsAuthentic v now encoded r c
  unfolding authentic
  authentic-IsAuthentic v now encoded r c h =
      let (ok, h1) = guard-eq-some (valid_request library r) _ h in
      let (parts, reads, h2) = >>=-eq-some (read_assertion library encoded) _ h1 in
      let (claims, signs, h3) = >>=-eq-some (signed library v parts) _ h2 in
      let (valid, h4) =
        guard-eq-some (valid_claims library v.authority now v.clock_skew claims r) _ h3 in
      let same : claims ≡ c = cc in
      valid-IsAuthentic v now encoded r c
        (signed-IsSigned v encoded parts c reads (signs ∙ ap some same))
        (ap (λ (d : Claims). valid_claims library v.authority now v.clock_skew d r) (sym same)
          ∙ valid)

  module _ {S F : Type 0} (store : ReplayStore S F) where
    verdict-accepted :
        (c d : Claims) (answer : Consumed)
        → verdict_of c answer ≡ accepted d
        → (c ≡ d) × (answer ≡ first)
    unfolding verdict_of
    verdict-accepted c d first h = (cc, refl)
    verdict-accepted c d again h = cc
    verdict-accepted c d failed h = cc

    checked-accepted :
        (eligible has : Bool) (f : F) (now : ℕ) (s : S) (d c : Claims)
        → (check_replay library store eligible has f now s d).0 ≡ accepted c
        → (d ≡ c)
          × ((eligible ≡ true)
              ⊎ ((store.consume f (pos now) d.request_id (instant d.expires_at) s).0 ≡ first))
    unfolding check_replay
    checked-accepted true has f now s d c h = (cc, inl refl)
    checked-accepted false false f now s d c h = cc
    checked-accepted false true f now s d c h =
        let (same, new) = verdict-accepted d c _ h in (same, inr new)

    decided-accepted :
        (has : Bool) (f : F) (now : ℕ) (s : S) (o : Option Claims) (c : Claims)
        → (decided library store has f now s o).0 ≡ accepted c
        → (o ≡ some c)
          × ((c.replay_eligible ≡ true)
              ⊎ ((store.consume f (pos now) c.request_id (instant c.expires_at) s).0 ≡ first))
    unfolding decided
    decided-accepted has f now s none c h = cc
    decided-accepted has f now s (some d) c h =
        let (same, new) = checked-accepted d.replay_eligible has f now s d c h in
        (ap some same, rw same at new)

    -- An accepted assertion that is not replay-eligible is the first of its request id in the store.
    pub verify-accepted :
        (v : Verifier) (f : F) (now asked : ℕ) (encoded : Bytes) (r : GatewayRequest) (s : S)
        (c : Claims)
        → (verify library store v f now asked encoded r s).0 ≡ accepted c
        → (authentic library v now encoded r ≡ some c)
          × ((c.replay_eligible ≡ true)
              ⊎ ((store.consume f (pos asked) c.request_id (instant c.expires_at) s).0 ≡ first))
    unfolding verify
    verify-accepted v f now asked encoded r s c h =
        decided-accepted v.has_replay f asked s (authentic library v now encoded r) c h

    -- An accepted assertion was signed by a trusted key over the verifier's own authority and the
    -- exact method, path, body, query and idempotency key of the request, within its time.
    pub verify_sound :
        (v : Verifier) (f : F) (now asked : ℕ) (encoded : Bytes) (r : GatewayRequest) (s : S)
        (c : Claims)
        → (verify library store v f now asked encoded r s).0 ≡ accepted c
        → IsAuthentic v now encoded r c
    verify_sound v f now asked encoded r s c h =
        authentic-IsAuthentic v now encoded r c (verify-accepted v f now asked encoded r s c h).0
