-- ===== src/Ownership/Answers.antt =====
-- What one call of a resolver answers, and what it leaves behind.
use lotor_go.Common.{
  ℕ, ◌^◌, ◌<◌, ◌≡◌, ◌≢◌, refl, sym, ◌∙◌, inl, inr, true, false, not, ◌&&◌, ◌||◌, Option, none, some,
  ltb, length, Bool-cases, arith,
}
use mathlib.Core.Bool.{true≢false}
use lotor_go.Common.Bytes.{Bytes, bytes_eq, bytes_eq_iff}
use lotor_go.Common.Int.{ℤ, pos, negsuc, ltz, lez, eqz, add64, eqz→eq}
use lotor_go.Ownership.Trust.{VerifiedAt, Trusted, Checked, Settled, fetched-Checked, cache-Settled}
use lotor_go.Ownership.{
  Ownership, Library, Resolver, Env, maximum_response, five_seconds, same_scope, named, current,
  verify_ownership, cache, resolve, advanced, accepted, accept_moved,
}

module _ (library : Library) where
  -- The cached assertion, which the clock has not come close to the end of.
  cached-VerifiedAt :
      (r : Resolver)
      → Trusted library r
      → eqz r.cached.version (pos 0) ≡ false
      → (t : ℤ) × VerifiedAt library t r.cached
  cached-VerifiedAt r h e = elim (h.cache_verified) [
    | inl d ↦ absurd (true≢false (sym d ∙ e))
    | inr v ↦ v
  ]

  unexpired :
      (now : ℤ) (o : Ownership) (key : Bytes)
      → verify_ownership library o key now ≡ true
      → ltz now o.expires_at ≡ true
  unfolding verify_ownership current
  unexpired now o key h = ground arith

  before_end :
      (now : ℤ) (n : ℕ) (end : ℤ)
      → now ≡ pos n
      → n < 2 ^ 62
      → ltz (add64 now five_seconds) end ≡ true
      → ltz now end ≡ true
  unfolding add64
  before_end (pos k) n (pos m) clock small h = ground arith
  before_end (pos k) n (negsuc m) clock small h = ground arith
  before_end (negsuc k) n end clock small h = cc

  -- What resolve answers, and the resolver behind it.
  unfoldable pub Answered : ℤ → Option Ownership × Resolver → Type 0
  Answered now (none, s) = Trusted library s
  Answered now (some o, s) =
      Trusted library s
      × (s.cached ≡ o)
      × (ltz now o.expires_at ≡ true)
      × ((t : ℤ) × VerifiedAt library t o)

  Settled-Answered :
      (now : ℤ) (answer : Option Ownership × Resolver)
      → Settled library now answer
      → Answered now answer
  unfolding Settled Answered
  Settled-Answered now (none, s) h = h
  Settled-Answered now (some o, s) (trusted, (key, fit, sound), same) =
      (trusted, same, unexpired now o key sound, (now, (key, fit, sound)))

  pub resolve-Answered :
      (env : Env) (r : Resolver) (n : ℕ)
      → Trusted library r
      → env.now ≡ pos n
      → n < 2 ^ 62
      → Answered env.now (resolve library env r)
  unfolding resolve Answered
  resolve-Answered env r n h clock small =
      let hit =
        not (eqz r.cached.version (pos 0))
        && ltz (add64 env.now five_seconds) r.cached.expires_at in
      elim (Bool-cases hit) [
        | inl e ↦ rw e (
          h,
          refl,
          before_end env.now n r.cached.expires_at clock small (ground arith),
          cached-VerifiedAt r h (ground arith),
        )
        | inr e ↦ rw e (
            Settled-Answered env.now _ (
              cache-Settled library env.now r _ h (fetched-Checked library env r _ (h.keys_match))))
      ]

  -- The moved assertion is a later one of the same scope, at another endpoint.
  pub record Advances (prior moved : Ownership) : Type 0 where
    pub tenant : moved.tenant_id ≡ prior.tenant_id
    pub application : moved.application_id ≡ prior.application_id
    pub environment : moved.environment_id ≡ prior.environment_id
    pub later : ltz prior.ownership_epoch moved.ownership_epoch ≡ true
    pub elsewhere : moved.endpoint ≢ prior.endpoint

  -- What accept_moved answers, and the resolver behind it.
  unfoldable pub Moved : ℤ → Ownership → Option Ownership × Resolver → Type 0
  Moved now prior (none, s) = Trusted library s
  Moved now prior (some o, s) =
      Trusted library s × (s.cached ≡ o) × VerifiedAt library now o × Advances prior o

  Advances-of :
      (prior moved : Ownership)
      → not (same_scope moved prior) ≡ false
      → (lez moved.ownership_epoch prior.ownership_epoch || bytes_eq moved.endpoint prior.endpoint)
        ≡ false
      → Advances prior moved
  unfolding same_scope
  Advances-of prior moved h k = record {
    tenant = (bytes_eq_iff _ _).0 (ground arith);
    application = (bytes_eq_iff _ _).0 (ground arith);
    environment = (bytes_eq_iff _ _).0 (ground arith);
    later = ground arith;
    elsewhere = λ e.
        let apart : bytes_eq moved.endpoint prior.endpoint ≡ false = ground arith in
        true≢false (sym ((bytes_eq_iff _ _).1 e) ∙ apart);
  }

  advanced-Moved :
      (now : ℤ) (prior : Ownership) (r : Resolver) (answer : Option Ownership × Resolver)
      → Trusted library r
      → Checked library now r answer
      → Moved now prior (advanced prior answer)
  unfolding advanced cache Moved Checked Settled
  advanced-Moved now prior r (none, s) h k = cache-Settled library now r (none, s) h k
  advanced-Moved now prior r (some o, s) h (keys, same, sound) =
      let kept : Trusted library s = record {
        keys_match = keys;
        cache_verified = rw same (h.cache_verified);
      } in
      elim (Bool-cases (not (same_scope o prior))) [
        | inl e ↦ rw e kept
        | inr e ↦
            rw e
              (elim (Bool-cases (
                lez o.ownership_epoch prior.ownership_epoch
                || bytes_eq o.endpoint prior.endpoint)) [
                  | inl d ↦ rw d kept
                  | inr d ↦ rw d (
                    record { keys_match = keys; cache_verified = inr (now, sound) },
                    refl,
                    sound,
                    Advances-of prior o e d,
                  )
                ])
      ]

  Settled-Trusted :
      (now : ℤ) (answer : Option Ownership × Resolver)
      → Settled library now answer
      → Trusted library answer.1
  unfolding Settled
  Settled-Trusted now (none, s) h = h
  Settled-Trusted now (some o, s) h = h.0

  pub Moved-Trusted :
      (now : ℤ) (prior : Ownership) (answer : Option Ownership × Resolver)
      → Moved now prior answer
      → Trusted library answer.1
  unfolding Moved
  Moved-Trusted now prior (none, s) h = h
  Moved-Trusted now prior (some o, s) h = h.0

  pub accept_moved-Moved :
      (env : Env) (raw : Bytes) (prior : Ownership) (r : Resolver)
      → Trusted library r
      → Moved env.now prior (accept_moved library env raw prior r)
  unfolding accept_moved accepted Moved
  accept_moved-Moved env raw prior r h = elim (Bool-cases (ltb maximum_response (length raw))) [
    | inl e ↦ rw e h
    | inr e ↦ rw e (
        advanced-Moved env.now prior r _ h
          (fetched-Checked library env r (library.unmarshal_ownership raw) (h.keys_match)))
  ]

  pub resolve-Trusted :
      (env : Env) (r : Resolver) → Trusted library r → Trusted library (resolve library env r).1
  unfolding resolve
  resolve-Trusted env r h =
      let hit =
        not (eqz r.cached.version (pos 0))
        && ltz (add64 env.now five_seconds) r.cached.expires_at in
      elim (Bool-cases hit) [
        | inl e ↦ rw e h
        | inr e ↦ rw e (
            Settled-Trusted env.now _ (
              cache-Settled library env.now r _ h (fetched-Checked library env r _ (h.keys_match))))
      ]

  pub versioned :
      (o : Ownership) (key : Bytes) (t : ℤ)
      → verify_ownership library o key t ≡ true
      → eqz o.version (pos 0) ≡ false
  unfolding verify_ownership named
  versioned o key t h = let one : o.version ≡ pos 1 = eqz→eq _ _ (ground arith) in rw one refl

  pub cached-hit :
      (env : Env) (r : Resolver)
      → eqz r.cached.version (pos 0) ≡ false
      → ltz (add64 env.now five_seconds) r.cached.expires_at ≡ true
      → resolve library env r ≡ (some r.cached, r)
  unfolding resolve
  cached-hit env r e early = rw (e, early) refl
