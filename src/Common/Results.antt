-- ===== src/Common/Results.antt =====
-- Chains of calls that end in a result or in an error.
use mathlib.Core.Path.{◌≡◌, refl}
use mathlib.Core.Bool.{Bool, true, false}
use mathlib.Core.Option.{Option, none, some}

pub data Result (E A : Type 0) : Type 0 where
  ok : A → Result E A
  err : E → Result E A

infixl 5 ◌>>=◌ ◌>>◌
abbrev pub ◌>>=◌ : {E A B : Type 0} → Result E A → (A → Result E B) → Result E B
ok a >>= f = f a
err e >>= f = err e

abbrev pub ◌>>◌ : {E B : Type 0} → Result E (Unit {0}) → Result E B → Result E B
m >> k = m >>= λ _. k

abbrev pub require : {E : Type 0} → Bool → E → Result E (Unit {0})
require true e = ok tt
require false e = err e

abbrev pub found : {E A : Type 0} → Option A → E → Result E A
found none e = err e
found (some a) e = ok a

module _ {E : Type 0} where
  -- A chain succeeds only if each step does.
  pub >>=-eq-ok :
      {A B : Type 0} {result : B} (step : Result E A) (next : A → Result E B)
      → (step >>= next) ≡ ok result
      → (value : A) × (step ≡ ok value) × (next value ≡ ok result)
  >>=-eq-ok (ok value) next e = (value, refl, e)
  >>=-eq-ok (err failure) next e = cc

  pub require-eq-ok :
      {B : Type 0} (t : Bool) (e : E) (k : Result E B) {b : B}
      → (require t e >> k) ≡ ok b
      → (t ≡ true) × (k ≡ ok b)
  require-eq-ok true e k h = (refl, h)
  require-eq-ok false e k h = cc

  pub found-eq-ok :
      {A B : Type 0} (o : Option A) (e : E) (f : A → Result E B) {b : B}
      → (found o e >>= f) ≡ ok b
      → (a : A) × (o ≡ some a) × (f a ≡ ok b)
  found-eq-ok none e f h = cc
  found-eq-ok (some a) e f h = (a, refl, h)
