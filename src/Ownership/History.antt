-- ===== src/Ownership/History.antt =====
-- What a resolver holds and answers, over every sequence of its calls.
use lotor_go.Common.{ℕ, ◌^◌, ◌<◌, ◌≡◌, refl, sym, inl, true, some, List, [], ◌∷◌}
use lotor_go.Common.Bytes.{Bytes}
use lotor_go.Common.Int.{ℤ, pos, ltz, add64}
use lotor_go.Ownership.Trust.{VerifiedAt, Trusted}
use lotor_go.Ownership.Answers.{
  Moved-Trusted, accept_moved-Moved, resolve-Trusted, versioned, cached-hit, resolve-Answered,
  Answered, Moved, Advances,
}
use lotor_go.Ownership.{
  Ownership, Library, Resolver, Env, zero_ownership, five_seconds, resolve, accept_moved,
  invalidate,
}

module _ (library : Library) where
  -- The calls of a resolver.
  pub data Call : Type 0 where
    asks : Env → Call
    follows : Env → Bytes → Ownership → Call
    drops : Call

  unfoldable pub call : Call → Resolver → Resolver
  call (asks env) r = (resolve library env r).1
  call (follows env raw prior) r = (accept_moved library env raw prior r).1
  call drops r = invalidate r

  unfoldable pub calls : List Call → Resolver → Resolver
  calls [] r = r
  calls (c ∷ more) r = calls more (call c r)

  pub calls-Trusted :
      (cs : List Call) (r : Resolver) → Trusted library r → Trusted library (calls cs r)
  unfolding calls call
  calls-Trusted [] r h = h
  calls-Trusted (asks env ∷ cs) r h = calls-Trusted cs _ (resolve-Trusted library env r h)
  calls-Trusted (follows env raw prior ∷ cs) r h =
      calls-Trusted cs _
        (Moved-Trusted library env.now prior _ (accept_moved-Moved library env raw prior r h))
  calls-Trusted (drops ∷ cs) r h =
      calls-Trusted cs _ (record { keys_match = h.keys_match; cache_verified = inl refl })

  abbrev pub new_resolver : Resolver
  new_resolver = record { keys = []; cached = zero_ownership }

  pub new_resolver-Trusted : Trusted library new_resolver
  new_resolver-Trusted = record { keys_match = tt; cache_verified = inl refl }

  -- An assertion that a resolver gives has passed every check under a key of the right size, and
  -- has not expired, whatever calls came before and whatever the control plane replies, while the
  -- clock reads between 0 and 2 ^ 62 microseconds.
  pub resolve_sound :
      (cs : List Call) (env : Env) (n : ℕ) (o : Ownership) (r : Resolver)
      → env.now ≡ pos n
      → n < 2 ^ 62
      → resolve library env (calls cs new_resolver) ≡ (some o, r)
      → (ltz env.now o.expires_at ≡ true) × ((t : ℤ) × VerifiedAt library t o)
  unfolding Answered
  resolve_sound cs env n o r clock small e =
      let known =
        resolve-Answered library env (calls cs new_resolver) n
          (calls-Trusted cs new_resolver new_resolver-Trusted) clock small in
      let answer : Answered library env.now (some o, r) = rw e at known in (answer.2, answer.3)

  -- Whatever calls came before, an assertion that a resolver takes from a MOVED reply has passed
  -- every check at that time, has the scope of the prior one, a later epoch and another endpoint,
  -- and is cached.
  pub accept_moved-Advances :
      (cs : List Call) (env : Env) (raw : Bytes) (prior o : Ownership) (r : Resolver)
      → accept_moved library env raw prior (calls cs new_resolver) ≡ (some o, r)
      → VerifiedAt library env.now o × Advances library prior o × (r.cached ≡ o)
  unfolding Moved
  accept_moved-Advances cs env raw prior o r e =
      let known =
        accept_moved-Moved library env raw prior (calls cs new_resolver)
          (calls-Trusted cs new_resolver new_resolver-Trusted) in
      let answer : Moved library env.now prior (some o, r) = rw e at known in
      (answer.2, answer.3, answer.1)

  -- An assertion that a resolver gave is given again, whatever the control plane would reply, while
  -- the clock is more than five seconds before its end; the resolver does not change. The clock of
  -- the first call reads between 0 and 2 ^ 62 microseconds.
  pub resolve_again :
      (cs : List Call) (env later : Env) (n : ℕ) (o : Ownership) (r : Resolver)
      → env.now ≡ pos n
      → n < 2 ^ 62
      → resolve library env (calls cs new_resolver) ≡ (some o, r)
      → ltz (add64 later.now five_seconds) o.expires_at ≡ true
      → resolve library later r ≡ (some o, r)
  unfolding Answered
  resolve_again cs env later n o r clock small e early =
      let known =
        resolve-Answered library env (calls cs new_resolver) n
          (calls-Trusted cs new_resolver new_resolver-Trusted) clock small in
      let answer : Answered library env.now (some o, r) = rw e at known in
      let (trusted, same, late, (t, (key, fit, sound))) = answer in
      rw (sym same)
        (cached-hit library later r (rw same (versioned library o key t sound)) (rw same early))
