-- ===== src/Client/Total.antt =====
-- Reading the arguments of a reply inside its length.
use lotor_go.Common.{
  ℕ, zero, suc, ◌<◌, ◌≡◌, refl, Bool, true, false, Option, none, some, leb, if◌then◌else◌, arith,
}
use lotor_go.Common.Options.{◌>>=◌}
use lotor_go.Wire.Values.{Value, Values, nil, cons, count}
use lotor_go.Client.{arg}

-- A reader that does not panic.
abbrev pub Reads {ℓ} : {A : Type ℓ} → Option A → Type ℓ
Reads {A = A} o = (r : A) × (o ≡ some r)

pub arg-Reads : (i : ℕ) (a : Values) → i < count a → Reads (arg i a)
unfolding arg
arg-Reads i nil h = absurd (omega arith)
arg-Reads zero (cons v vs) h = (v, refl)
arg-Reads (suc i) (cons v vs) h = arg-Reads i vs (omega arith)

-- A chain does not panic if its steps do not.
pub then-Reads :
    {A B : Type 0} (step : Option A) (next : A → Option B)
    → Reads step
    → ((r : A) → Reads (next r))
    → Reads (step >>= next)
then-Reads (some r) next (r', e) h = h r
then-Reads none next (r', e) h = cc

-- The next argument is inside a reply of at least `n`.
pub arg_then-Reads :
    {B : Type 0} (i n : ℕ) (a : Values) (next : Value → Option B)
    → leb n (count a) ≡ true
    → i < n
    → ((v : Value) → Reads (next v))
    → Reads (arg i a >>= next)
arg_then-Reads i n a next h k f = then-Reads (arg i a) next (arg-Reads i a (ground arith)) f

pub if-Reads :
    {A : Type 0} (t : Bool) (x y : Option A)
    → (t ≡ true → Reads x)
    → (t ≡ false → Reads y)
    → Reads (if t then x else y)
if-Reads true x y h k = h refl
if-Reads false x y h k = k refl
