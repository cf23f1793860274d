-- ===== src/Common/Text.antt =====
-- What the code uses of Go's package strings, on byte strings.
use Prim.Native.Nat.{ℕ}
use mathlib.Core.Path.{◌≡◌, refl}
use mathlib.Core.Bool.{Bool, true, false, ◌&&◌, ◌||◌}
use mathlib.Core.List.{List, [], ◌∷◌, ◌++◌}
use native.Mathlib.Omega.{arith}
use lotor_go.Common.Tests.{◌==◌, if◌then◌else◌}
use lotor_go.Common.Lists.{length, drop}
use lotor_go.Common.Bytes.{Bytes, bytes_eq}

-- `strings.HasPrefix(s, p)`, with the prefix first.
unfoldable pub has_prefix : Bytes → Bytes → Bool
has_prefix [] s = true
has_prefix (c ∷ p) [] = false
has_prefix (c ∷ p) (d ∷ s) = c == d && has_prefix p s

-- `strings.HasSuffix(s, t)`, with the suffix first.
unfoldable pub has_suffix : Bytes → Bytes → Bool
has_suffix t [] = bytes_eq [] t
has_suffix t (c ∷ s) = bytes_eq (c ∷ s) t || has_suffix t s

-- `strings.Contains(s, t)`, with the part first.
unfoldable pub contains_text : Bytes → Bytes → Bool
unfolding has_prefix
contains_text t [] = has_prefix t []
contains_text t (c ∷ s) = has_prefix t (c ∷ s) || contains_text t s

-- `strings.TrimPrefix`, with the prefix first.
unfoldable pub trim_prefix : Bytes → Bytes → Bytes
unfolding has_prefix
trim_prefix p s = if has_prefix p s then drop (length p) s else s

-- `strings.TrimSuffix`, with the suffix first.
unfoldable pub trim_suffix : Bytes → Bytes → Bytes
trim_suffix t [] = []
trim_suffix t (c ∷ s) = let rest = trim_suffix t s in if bytes_eq (c ∷ s) t then [] else c ∷ rest

unfoldable pub add_to_first : ℕ → List Bytes → List Bytes
add_to_first c [] = (c ∷ []) ∷ []
add_to_first c (part ∷ parts) = (c ∷ part) ∷ parts

-- `strings.Split` at one byte.
unfoldable pub split_at : ℕ → Bytes → List Bytes
unfolding add_to_first
split_at sep [] = [] ∷ []
split_at sep (c ∷ s) =
    let rest = split_at sep s in if c == sep then [] ∷ rest else add_to_first c rest

pub prefix-append : (p s : Bytes) → has_prefix p (p ++ s) ≡ true
unfolding has_prefix
prefix-append [] s = refl
prefix-append (c ∷ p) s = ground (arith, prefix-append p s)
