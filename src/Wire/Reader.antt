-- ===== src/Wire/Reader.antt =====
-- The result of reading from the front of a byte slice: Go's (value, error) with the moved
-- position, as the bytes that are left. `panicked` is a Go panic; `stuck` is no Go result, and
-- says that the fuel of a model function ran out.
use lotor_go.Common.{ℕ, ◌≤◌, ◌≡◌, ◌≢◌, ap, length, arith}
use lotor_go.Common.Bytes.{Bytes}

pub data ReadError : Type 0 where
  short : ReadError
  unknown_tag : ℕ → ReadError

pub data Read {ℓ} (A : Type ℓ) : Type ℓ where
  done : A → Bytes → Read A
  fail : ReadError → Read A
  panicked stuck : Read A

abbrev pub Reader : Type 0 → Type 0
Reader A = Bytes → Read A

abbrev pub continue : {A B : Type 0} → Read A → (A → Reader B) → Read B
continue (done a rest) f = f a rest
continue (fail e) f = fail e
continue panicked f = panicked
continue stuck f = stuck

infixl 5 ◌>>=◌ ◌>>◌
abbrev pub ◌>>=◌ : {A B : Type 0} → Reader A → (A → Reader B) → Reader B
◌>>=◌ r f b = continue (r b) f

abbrev pub pure : {A : Type 0} → A → Reader A
pure a b = done a b

abbrev pub ◌>>◌ : {B : Type 0} → Reader (Unit {0}) → Reader B → Reader B
r >> s = r >>= λ _. s

-- The rest of a chain runs on what the first step gave.
pub bind-done :
    {A B : Type 0} (r : Reader A) (f : A → Reader B) (b : Bytes) {a : A} {rest : Bytes}
    → r b ≡ done a rest
    → (r >>= f) b ≡ f a rest
bind-done r f b e = ap (λ x. continue x f) e

-- A read that ends, with at most `n` bytes left if it succeeds.
abbrev pub Within : {A : Type 0} → ℕ → Read A → Type 0
Within n (done a rest) = length rest ≤ n
Within n (fail e) = Unit
Within n panicked = Unit
Within n stuck = ⊥

pub Within-bind :
    {A B : Type 0} (r : Read A) (f : A → Reader B) (n : ℕ)
    → Within n r
    → ((a : A) (rest : Bytes) → length rest ≤ n → Within n (f a rest))
    → Within n (continue r f)
Within-bind (done a rest) f n w h = h a rest w
Within-bind (fail e) f n w h = tt
Within-bind panicked f n w h = tt
Within-bind stuck f n w h = absurd w

pub Within-ne_stuck : {A : Type 0} (r : Read A) (n : ℕ) → Within n r → r ≢ stuck
Within-ne_stuck (done a rest) n w e = cc
Within-ne_stuck (fail x) n w e = cc
Within-ne_stuck panicked n w e = cc
Within-ne_stuck stuck n w e = absurd w

pub Within-mono : {A : Type 0} (r : Read A) (n m : ℕ) → Within n r → n ≤ m → Within m r
Within-mono (done a rest) n m w h = omega arith
Within-mono (fail x) n m w h = tt
Within-mono panicked n m w h = tt
Within-mono stuck n m w h = absurd w
