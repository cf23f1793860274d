-- ===== src/Ownership/Retry.antt =====
-- WithOwnerRetry and DialOwned of lotor/ownership.go: one operation against the owner, and once more
-- against the owner that a MOVED reply names. The resolver and the operation are there; whether a
-- TLS configuration is given is an argument. What the network and the operation do is an `Attempt`.
pub mod Bound
use lotor_go.Common.{
  ℕ, Bool, true, false, not, Option, none, some, List, [], ◌∷◌, ◌==◌, if◌then◌else◌,
}
use lotor_go.Common.Bytes.{Bytes}
use lotor_go.Ownership.{
  Ownership, Library, Resolver, Env, address, resolve, accept_moved, invalidate,
}

-- An error of the SDK: a protocol error or another one.
pub data Failure : Type 0 where
  lwp : ℕ → Bytes → Failure
  other : Failure

pub data Answer (A : Type 0) : Type 0 where
  returned : A → Answer A
  error : Failure → Answer A

pub record Attempt (A : Type 0) : Type 0 where
  pub connects : Bool
  pub auth_error : Option Failure
  pub outcome : Answer A

abbrev pub moved_code : ℕ
moved_code = 0x0014

can_dial : Bool → Bool → Option (Bytes × Bool) → Bool
can_dial tls connects none = false
can_dial tls connects (some (host, required)) =
    if required then connects else if tls then false else connects

module _ (library : Library) where
  -- `dialOwnership`
  pub dials : Bool → Bool → Ownership → Bool
  unfolding can_dial
  dials tls connects o = can_dial tls connects (address library o)

  dialed : Bool → Bool → Option Ownership × Resolver → Option Ownership × Resolver
  dialed tls connects (none, r) = (none, r)
  dialed tls connects (some o, r) =
      if dials tls connects o then (some o, r) else (none, invalidate r)

  -- `DialOwned`
  dial_owned : Bool → Bool → Env → Resolver → Option Ownership × Resolver
  unfolding dialed
  dial_owned tls connects env r = dialed tls connects (resolve library env r)

  module _ {A : Type 0} where
    -- `Auth` and the operation on a client of `o`, and the owners that the operation ran on.
    operate : Ownership → Answer A → Option Failure → List Ownership → Answer A × List Ownership
    operate o outcome none runs = (outcome, o ∷ runs)
    operate o outcome (some e) runs = (error e, runs)

    follow :
        Bool
        → Attempt A
        → List Ownership
        → Option Ownership × Resolver
        → Answer A × List Ownership × Resolver
    unfolding operate
    follow tls again runs (none, r) = (error other, runs, r)
    follow tls again runs (some moved, r) =
        if dials tls again.connects moved
        then (let (answer, all) = operate moved again.outcome again.auth_error runs in
            (answer, all, r))
        else (error other, runs, r)

    -- Behind the first operation.
    judge :
        Bool
        → Env
        → Attempt A
        → Ownership
        → Resolver
        → Answer A
        → Answer A × List Ownership × Resolver
    unfolding follow
    judge tls env again o r (returned a) = (returned a, o ∷ [], r)
    judge tls env again o r (error other) = (error other, o ∷ [], r)
    judge tls env again o r (error (lwp code message)) =
        if code == moved_code
        then follow tls again (o ∷ []) (accept_moved library env message o r)
        else (error (lwp code message), o ∷ [], r)

    begin :
        Env
        → (tls : Bool) → Attempt A
        → Attempt A
        → Option Failure
        → Option Ownership × Resolver
        → Answer A × List Ownership × Resolver
    unfolding judge
    begin env tls first again failure (none, r) = (error other, [], r)
    begin env tls first again (some e) (some o, r) = (error e, [], r)
    begin env tls first again none (some o, r) = judge tls env again o r first.outcome

    -- `WithOwnerRetry`: the answer, the owners that the operation ran on, the latest first, and the
    -- resolver behind it.
    pub owner_retry :
        Bool
        → (env env_again : Env) → (first again : Attempt A) → Resolver
        → Answer A × List Ownership × Resolver
    unfolding begin dial_owned
    owner_retry tls env env_again first again r =
        begin env_again tls first again first.auth_error (dial_owned tls first.connects env r)
