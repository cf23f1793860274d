-- ===== src/Ownership/Retry/Bound.antt =====
-- How often WithOwnerRetry runs its operation, and on which owners.
use lotor_go.Common.{
  ℕ, ◌^◌, ◌<◌, ◌≡◌, refl, Bool, true, Option, none, some, List, [], ◌∷◌, ◌==◌, inl, inr, Bool-cases,
  Option-cases, arith,
}
use lotor_go.Common.Bytes.{Bytes}
use lotor_go.Common.Int.{ℤ, pos, ltz}
use lotor_go.Ownership.{Ownership, Library, Resolver, Env}
use lotor_go.Ownership.Trust.{VerifiedAt, Trusted}
use lotor_go.Ownership.Answers.{Answered, Advances, Moved, resolve-Answered, accept_moved-Moved}
use lotor_go.Ownership.History.{Call, calls, calls-Trusted, new_resolver, new_resolver-Trusted}
use lotor_go.Ownership.Retry.{
  Failure, lwp, other, Answer, returned, error, Attempt, moved_code, dials, dialed, dial_owned,
  operate, follow, judge, begin, owner_retry,
}

module _ (library : Library) where
  -- Verified at some time, and not expired at this one.
  abbrev pub Valid : Env → Ownership → Type 0
  Valid env o = (ltz env.now o.expires_at ≡ true) × ((t : ℤ) × VerifiedAt library t o)

  -- The owners that the operation may run on, the latest first, for an outcome of its first run: none,
  -- a valid one, or a valid one and after a MOVED reply the owner that it moved to.
  abbrev pub Allowed : {A : Type 0} → Env → Env → Answer A → List Ownership → Type 0
  Allowed env env_again outcome [] = Unit {0}
  Allowed env env_again outcome (o ∷ []) = Valid env o
  Allowed env env_again outcome (m ∷ o ∷ []) =
      Valid env o
      × VerifiedAt library env_again.now m
      × Advances library o m
      × ((message : Bytes) × (outcome ≡ error (lwp moved_code message)))
  Allowed env env_again outcome (_ ∷ _ ∷ _ ∷ _) = ⊥

  Begun : Env → Option Ownership × Resolver → Type 0
  Begun env (none, r) = Unit {0}
  Begun env (some o, r) = Trusted library r × Valid env o

  dialed-Begun :
      (env : Env) (tls connects : Bool) (answer : Option Ownership × Resolver)
      → Answered library env.now answer
      → Begun env (dialed library tls connects answer)
  unfolding dialed Begun Answered
  dialed-Begun env tls connects (none, r) h = tt
  dialed-Begun env tls connects (some o, r) (trusted, same, late, verified) =
      elim (Bool-cases (dials library tls connects o)) [
        | inl e ↦ rw e (trusted, (late, verified))
        | inr e ↦ rw e tt
      ]

  module _ {A : Type 0} where
    follow-Allowed :
        (env env_again : Env) (tls : Bool) (again : Attempt A) (message : Bytes) (o : Ownership)
        (answer : Option Ownership × Resolver)
        → Valid env o
        → Moved library env_again.now o answer
        → Allowed {A = A} env env_again
            (error (lwp moved_code message))
            (follow library tls again (o ∷ []) answer).1
    unfolding follow operate Moved
    follow-Allowed env env_again tls again message o (none, r) valid h = valid
    follow-Allowed env env_again tls again message o (some m, r) valid (trusted, same, sound, up) =
        elim (Bool-cases (dials library tls again.connects m)) [
          | inr e ↦ rw e valid
          | inl e ↦ elim (Option-cases again.auth_error) [
            | inl d ↦ rw (e, d) (valid, sound, up, (message, refl))
            | inr (x, d) ↦ rw (e, d) valid
          ]
        ]

    judge-Allowed :
        (env env_again : Env) (tls : Bool) (again : Attempt A) (o : Ownership) (r : Resolver)
        (outcome : Answer A)
        → Trusted library r
        → Valid env o
        → Allowed env env_again outcome (judge library tls env_again again o r outcome).1
    unfolding judge
    judge-Allowed env env_again tls again o r (returned a) trusted valid = valid
    judge-Allowed env env_again tls again o r (error other) trusted valid = valid
    judge-Allowed env env_again tls again o r (error (lwp code message)) trusted valid =
        elim (Bool-cases (code == moved_code)) [
          | inr e ↦ rw e valid
          | inl e ↦
              (let same : code ≡ moved_code = ground arith in
                rw same (
                  follow-Allowed env env_again tls again message o _ valid
                    (accept_moved-Moved library env_again message o r trusted)))
        ]

    begin-Allowed :
        (env env_again : Env) (tls : Bool) (first again : Attempt A) (failure : Option Failure)
        (answer : Option Ownership × Resolver)
        → Begun env answer
        → Allowed env env_again first.outcome
            (begin library env_again tls first again failure answer).1
    unfolding begin Begun
    begin-Allowed env env_again tls first again failure (none, r) h = tt
    begin-Allowed env env_again tls first again (some x) (some o, r) h = tt
    begin-Allowed env env_again tls first again none (some o, r) (trusted, valid) =
        judge-Allowed env env_again tls again o r first.outcome trusted valid

    -- WithOwnerRetry runs its operation at most twice, whatever calls the resolver served before:
    -- first on an owner that is verified and has not expired, and again only if the first run ended
    -- in the MOVED error, on an owner of the same scope with a later epoch, another endpoint and
    -- a valid assertion. The clock of the first resolution reads between 0 and 2 ^ 62 microseconds.
    pub owner_retry_runs :
        (cs : List (Call library)) (tls : Bool) (env env_again : Env) (first again : Attempt A)
        (n : ℕ)
        → env.now ≡ pos n
        → n < 2 ^ 62
        → Allowed env env_again first.outcome
            (owner_retry library tls env env_again first again
              (calls library cs (new_resolver library))).1
    unfolding owner_retry dial_owned
    owner_retry_runs cs tls env env_again first again n clock small =
        begin-Allowed env env_again tls first again first.auth_error _ (
          dialed-Begun env tls first.connects _ (
            resolve-Answered library env _ n
              (calls-Trusted library cs _ (new_resolver-Trusted library)) clock small))
