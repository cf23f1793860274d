-- ===== src/Common/Once.antt =====
-- Lists of byte strings in which each occurs at most once.
use Prim.Native.Nat.{ℕ, suc, ◌≤◌}
use mathlib.Core.Path.{◌≡◌, refl, subst}
use mathlib.Core.Logic.{◌≢◌, inl, inr}
use mathlib.Core.List.{List, [], ◌∷◌}
use native.Mathlib.Omega.{arith}
use lotor_go.Common.Tests.{if◌then◌else◌, Bool-cases}
use lotor_go.Common.Bytes.{Bytes, bytes_eq, bytes_eq_iff, bytes_eq_ne}

-- A string is in no place of a list; no string is in two.
abbrev pub Unseen : Bytes → List Bytes → Type 0
Unseen id [] = Unit
Unseen id (j ∷ js) = (j ≢ id) × Unseen id js

abbrev pub Once : List Bytes → Type 0
Once [] = Unit
Once (id ∷ ids) = Unseen id ids × Once ids

-- How often a string is in a list.
abbrev pub times : Bytes → List Bytes → ℕ
times id [] = 0
times id (j ∷ js) = if bytes_eq j id then suc (times id js) else times id js

times-Unseen : (id : Bytes) (ids : List Bytes) → Unseen id ids → times id ids ≡ 0
times-Unseen id [] h = refl
times-Unseen id (j ∷ js) (h, hs) = rw (bytes_eq_ne j id h) (times-Unseen id js hs)

pub times-Once : (id : Bytes) (ids : List Bytes) → Once ids → times id ids ≤ 1
times-Once id [] h = omega arith
times-Once id (j ∷ js) (h, hs) = elim (Bool-cases (bytes_eq j id)) [
  | inl own ↦
      let unseen : Unseen id js = subst (λ x. Unseen x js) ((bytes_eq_iff j id).0 own) h in
      rw (own, times-Unseen id js unseen) (omega arith)
  | inr other ↦ rw other (times-Once id js hs)
]
