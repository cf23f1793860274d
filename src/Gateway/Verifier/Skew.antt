-- ===== src/Gateway/Verifier/Skew.antt =====
-- A tolerated clock skew outlives the replay store's observation of a request id.
use lotor_go.Common.{
  ℕ, ◌+◌, ◌≤◌, ◌≡◌, refl, sym, ap, ◌∙◌, ◌⊎◌, inl, inr, Bool, true, false, ◌&&◌, some, and-eq-true,
  arith,
}
use lotor_go.Common.Bytes.{Bytes}
use lotor_go.Common.Int.{ℤ, pos, negsuc, ltz}
use lotor_go.Common.Options.{>>=-eq-some, guard-eq-some}
use lotor_go.Gateway.{
  Claims, GatewayRequest, Library, instant, before_now, timely, same_authority, well_formed,
  matches_request, replay_policy, is_safe, idempotency_hash, valid_request, valid_claims,
}
use lotor_go.Gateway.Verifier.{
  Verifier, accepted, first, ReplayStore, verdict_of, read_assertion, signed, authentic,
  check_replay, decided, verify,
}

issued_later :
    (now later skew : ℕ) (at : ℤ)
    → now ≤ later
    → ltz (pos (now + skew)) at ≡ false
    → ltz (pos (later + skew)) at ≡ false
issued_later now later skew (pos n) h k = ground arith
issued_later now later skew (negsuc n) h k = refl

timely_later :
    (now later skew : ℕ) (c : Claims)
    → now ≤ later
    → ltz (before_now later skew) (instant c.expires_at) ≡ true
    → timely now skew c ≡ true
    → timely later skew c ≡ true
unfolding timely
timely_later now later skew c h k e =
    let issued : ltz (pos (now + skew)) (instant c.issued_at) ≡ false = ground arith in
    let still : ltz (pos (later + skew)) (instant c.issued_at) ≡ false =
      issued_later now later skew (instant c.issued_at) h issued in
    ground arith

module _ (library : Library) where
  -- Claims stay valid until their end and the skew behind it.
  valid_later :
      (v : Verifier) (now later : ℕ) (c : Claims) (r : GatewayRequest)
      → now ≤ later
      → ltz (before_now later v.clock_skew) (instant c.expires_at) ≡ true
      → valid_claims library v.authority now v.clock_skew c r ≡ true
      → valid_claims library v.authority later v.clock_skew c r ≡ true
  unfolding valid_claims
  valid_later v now later c r h k e =
      let rest =
        well_formed library c
        && (matches_request library c r
            && replay_policy (is_safe r.method) c.replay_eligible
                (idempotency_hash library r.idempotency_key)) in
      let (same, e1) =
        and-eq-true (same_authority c v.authority) (timely now v.clock_skew c && rest) e in
      let (time, e2) = and-eq-true (timely now v.clock_skew c) rest e1 in
      rw (same, timely_later now later v.clock_skew c h k time) e2

  authentic_later :
      (v : Verifier) (now later : ℕ) (encoded : Bytes) (r : GatewayRequest) (c : Claims)
      → now ≤ later
      → ltz (before_now later v.clock_skew) (instant c.expires_at) ≡ true
      → authentic library v now encoded r ≡ some c
      → authentic library v later encoded r ≡ some c
  unfolding authentic
  authentic_later v now later encoded r c h k e =
      let (ok, e1) = guard-eq-some (valid_request library r) _ e in
      let (parts, reads, e2) = >>=-eq-some (read_assertion library encoded) _ e1 in
      let (claims, signs, e3) = >>=-eq-some (signed library v parts) _ e2 in
      let (valid, e4) =
        guard-eq-some (valid_claims library v.authority now v.clock_skew claims r) _ e3 in
      let same : claims ≡ c = cc in
      let valid' : valid_claims library v.authority later v.clock_skew c r ≡ true =
        valid_later v now later c r h k (
          ap (λ (d : Claims). valid_claims library v.authority now v.clock_skew d r) (sym same)
          ∙ valid) in
      rw (ok, reads, signs ∙ ap some same, valid') refl

  module _ {S F : Type 0} (store : ReplayStore S F) where
    -- With a store, the answer to an assertion that may not be repeated is the store's.
    check-consume :
        (has eligible : Bool) (f : F) (asked : ℕ) (s : S) (c : Claims)
        → has ≡ true
        → eligible ≡ false
        → check_replay library store eligible has f asked s c ≡ (
          verdict_of c (store.consume f (pos asked) c.request_id (instant c.expires_at) s).0,
          (store.consume f (pos asked) c.request_id (instant c.expires_at) s).1,
        )
    unfolding check_replay
    check-consume true false f asked s c h k = refl
    check-consume true true f asked s c h k = cc
    check-consume false eligible f asked s c h k = cc

    -- An authentic assertion that may not be repeated is accepted, and accepted again at a later time
    -- that is behind its end by less than the tolerated skew, from a replay store that holds nothing
    -- of its request id, if the store is asked the second time behind the assertion's end by its own
    -- clock. The store answers that an observation is the first where it holds none that has not
    -- ended, and it holds nothing but what it has been told.
    pub verify_again_in_skew :
        (v : Verifier) (f : F) (now asked later asked_later : ℕ) (encoded : Bytes)
        (r : GatewayRequest) (c : Claims) (s : S)
        → ((t : ℤ) (id : Bytes) (end : ℤ) (s : S)
            → ((before : ℤ) → store.Held id before s → ltz before t ≡ true)
            → (store.consume f t id end s).0 ≡ first)
        → ((t : ℤ) (id other : Bytes) (end before : ℤ) (s : S)
            → store.Held other before (store.consume f t id end s).1
            → store.Held other before s ⊎ ((other ≡ id) × (before ≡ end)))
        → v.has_replay ≡ true
        → c.replay_eligible ≡ false
        → authentic library v now encoded r ≡ some c
        → ((before : ℤ) → ¬ (store.Held c.request_id before s))
        → now ≤ later
        → ltz (before_now later v.clock_skew) (instant c.expires_at) ≡ true
        → ltz (instant c.expires_at) (pos asked_later) ≡ true
        → ((verify library store v f now asked encoded r s).0 ≡ accepted c)
          × ((verify library store v f later asked_later encoded r
                (verify library store v f now asked encoded r s).1).0
              ≡ accepted c)
    unfolding verify decided verdict_of
    verify_again_in_skew v f now asked later asked_later encoded r c s free only has single e unheld
          h in_skew past =
        let end = instant c.expires_at in
        let s' = (store.consume f (pos asked) c.request_id end s).1 in
        let new : (store.consume f (pos asked) c.request_id end s).0 ≡ first =
          free (pos asked) c.request_id end s (λ before held. absurd (unheld before held)) in
        let again : (store.consume f (pos asked_later) c.request_id end s').0 ≡ first =
          free (pos asked_later) c.request_id end s' (λ before held.
            held_ended before (only (pos asked) c.request_id c.request_id end before s held)) in
        rw
          (
            e,
            authentic_later v now later encoded r c h in_skew e,
            check-consume v.has_replay c.replay_eligible f asked s c has single,
            check-consume v.has_replay c.replay_eligible f asked_later s' c has single,
            new,
            again,
          )
          (refl, refl)
      where
        held_ended :
            (before : ℤ)
            → store.Held c.request_id before s
              ⊎ ((c.request_id ≡ c.request_id) × (before ≡ instant c.expires_at))
            → ltz before (pos asked_later) ≡ true
        held_ended before (inl held) = absurd (unheld before held)
        held_ended before (inr (p, q)) = rw q past
