-- ===== src/Wire/Values/Sorting.antt =====
-- `sort.Strings` on the keys of a map: what the sorted list holds, and that it depends only on
-- the map and not on the order in which the keys were listed.
use lotor_go.Common.{
  suc, ◌≡◌, refl, ◌∙◌, ap, ◌≢◌, inl, inr, true, Option, none, some, List, [], ◌∷◌, if◌then◌else◌,
  All, length, Bool-cases, arith,
}
use lotor_go.Common.Bytes.{
  Bytes, bytes_eq, bytes_eq_iff, bytes_eq_ne, bytes_lt, bytes_lt_irrefl, bytes_lt_trans,
  bytes_lt_total,
}
use lotor_go.Wire.Values.{insert_key, sort_keys}

module _ {ℓ} {A : Type ℓ} where
  abbrev pub Absent : Bytes → List (Bytes × A) → Type 0
  Absent k [] = Unit
  Absent k ((j, a) ∷ m) = (j ≢ k) × Absent k m

  abbrev pub Distinct : List (Bytes × A) → Type 0
  Distinct [] = Unit
  Distinct ((k, a) ∷ m) = Absent k m × Distinct m

  -- The value of a key in a map.
  unfoldable pub lookup : Bytes → List (Bytes × A) → Option A
  lookup k [] = none
  lookup k ((j, a) ∷ m) = if bytes_eq j k then some a else lookup k m

  abbrev pub Above : Bytes → List (Bytes × A) → Type 0
  Above k [] = Unit
  Above k ((j, a) ∷ m) = (bytes_lt k j ≡ true) × Above k m

  abbrev pub IsAscending : List (Bytes × A) → Type 0
  IsAscending [] = Unit
  IsAscending ((k, a) ∷ m) = Above k m × IsAscending m

  Absent-insert_key :
      (i k : Bytes) (a : A) (m : List (Bytes × A))
      → k ≢ i
      → Absent i m
      → Absent i (insert_key k a m)
  unfolding insert_key
  Absent-insert_key i k a [] h n = (h, tt)
  Absent-insert_key i k a ((j, b) ∷ m) h (n, ns) = ground (arith, Absent-insert_key i k a m h ns)

  Absent-sort_keys : (k : Bytes) (m : List (Bytes × A)) → Absent k m → Absent k (sort_keys m)
  unfolding sort_keys
  Absent-sort_keys k [] n = tt
  Absent-sort_keys k ((j, b) ∷ m) (n, ns) =
      Absent-insert_key k j b (sort_keys m) n (Absent-sort_keys k m ns)

  Above-insert_key :
      (i k : Bytes) (a : A) (m : List (Bytes × A))
      → bytes_lt i k ≡ true
      → Above i m
      → Above i (insert_key k a m)
  unfolding insert_key
  Above-insert_key i k a [] h n = (h, tt)
  Above-insert_key i k a ((j, b) ∷ m) h (n, ns) = ground (arith, Above-insert_key i k a m h ns)

  pub Above-trans :
      (i k : Bytes) (m : List (Bytes × A)) → bytes_lt i k ≡ true → Above k m → Above i m
  Above-trans i k [] h n = tt
  Above-trans i k ((j, b) ∷ m) h (n, ns) = (bytes_lt_trans i k j h n, Above-trans i k m h ns)

  insert_key-IsAscending :
      (k : Bytes) (a : A) (m : List (Bytes × A))
      → Absent k m
      → IsAscending m
      → IsAscending (insert_key k a m)
  unfolding insert_key
  insert_key-IsAscending k a [] n s = (tt, tt)
  insert_key-IsAscending k a ((j, b) ∷ m) (n, ns) (lo, s) = elim (Bool-cases (bytes_lt j k)) [
    | inl e ↦ rw e (Above-insert_key j k a m e lo, insert_key-IsAscending k a m ns s)
    | inr e ↦
        let lt : bytes_lt k j ≡ true = bytes_lt_total j k e n in
        rw e ((lt, Above-trans k j m lt lo), (lo, s))
  ]

  pub sort_keys-IsAscending : (m : List (Bytes × A)) → Distinct m → IsAscending (sort_keys m)
  unfolding sort_keys
  sort_keys-IsAscending [] d = tt
  sort_keys-IsAscending ((k, a) ∷ m) (n, d) =
      insert_key-IsAscending k a (sort_keys m) (Absent-sort_keys k m n) (sort_keys-IsAscending m d)

  pub Above-Absent : (k : Bytes) (m : List (Bytes × A)) → Above k m → Absent k m
  Above-Absent k [] h = tt
  Above-Absent k ((j, b) ∷ m) (h, hs) =
      (λ e. ground (arith, bytes_lt_irrefl k, e), Above-Absent k m hs)

  pub IsAscending-Distinct : (m : List (Bytes × A)) → IsAscending m → Distinct m
  IsAscending-Distinct [] s = tt
  IsAscending-Distinct ((k, a) ∷ m) (lo, s) = (Above-Absent k m lo, IsAscending-Distinct m s)

  pub lookup-Absent : (k : Bytes) (m : List (Bytes × A)) → Absent k m → lookup k m ≡ none
  unfolding lookup
  lookup-Absent k [] h = refl
  lookup-Absent k ((j, b) ∷ m) (h, hs) = rw (bytes_eq_ne j k h) (lookup-Absent k m hs)

  lookup-insert_key :
      (i k : Bytes) (a : A) (m : List (Bytes × A))
      → Absent k m
      → lookup i (insert_key k a m) ≡ (if bytes_eq k i then some a else lookup i m)
  unfolding lookup insert_key
  lookup-insert_key i k a [] n = refl
  lookup-insert_key i k a ((j, b) ∷ m) (n, ns) =
      ground (arith, lookup-insert_key i k a m ns, bytes_eq_iff k i, bytes_eq_iff j i)

  -- Sorting keeps the map.
  pub lookup-sort_keys :
      (i : Bytes) (m : List (Bytes × A)) → Distinct m → lookup i (sort_keys m) ≡ lookup i m
  unfolding lookup sort_keys
  lookup-sort_keys i [] d = refl
  lookup-sort_keys i ((k, a) ∷ m) (n, d) = ground (
    arith,
    lookup-insert_key i k a (sort_keys m) (Absent-sort_keys k m n),
    lookup-sort_keys i m d,
  )

  All-insert_key {κ} :
      (P : Bytes × A → Type κ) (k : Bytes) (a : A) (m : List (Bytes × A))
      → P (k, a)
      → All P m
      → All P (insert_key k a m)
  unfolding insert_key
  All-insert_key P k a [] h hs = (h, hs)
  All-insert_key P k a ((j, b) ∷ m) h (p, ps) = elim (Bool-cases (bytes_lt j k)) [
    | inl e ↦ rw e (p, All-insert_key P k a m h ps)
    | inr e ↦ rw e (h, (p, ps))
  ]

  pub All-sort_keys {κ} :
      (P : Bytes × A → Type κ) (m : List (Bytes × A)) → All P m → All P (sort_keys m)
  unfolding sort_keys
  All-sort_keys P [] h = h
  All-sort_keys P ((k, a) ∷ m) (h, hs) = All-insert_key P k a (sort_keys m) h (All-sort_keys P m hs)

  length-insert_key :
      (k : Bytes) (a : A) (m : List (Bytes × A)) → length (insert_key k a m) ≡ suc (length m)
  unfolding insert_key
  length-insert_key k a [] = refl
  length-insert_key k a ((j, b) ∷ m) = ground (arith, length-insert_key k a m)

  pub length-sort_keys : (m : List (Bytes × A)) → length (sort_keys m) ≡ length m
  unfolding sort_keys
  length-sort_keys [] = refl
  length-sort_keys ((k, a) ∷ m) = length-insert_key k a (sort_keys m) ∙ ap suc (length-sort_keys m)

-- The order of the keys does not read what belongs to them.
module _ {ℓ κ} {A : Type ℓ} {B : Type κ} (f : A → B) where
  abbrev pub map_values : List (Bytes × A) → List (Bytes × B)
  map_values [] = []
  map_values ((k, a) ∷ m) = (k, f a) ∷ map_values m

  insert_key-map_values :
      (k : Bytes) (a : A) (m : List (Bytes × A))
      → insert_key k (f a) (map_values m) ≡ map_values (insert_key k a m)
  unfolding insert_key
  insert_key-map_values k a [] = refl
  insert_key-map_values k a ((j, b) ∷ m) = elim (Bool-cases (bytes_lt j k)) [
    | inl e ↦ rw (e, insert_key-map_values k a m)
    | inr e ↦ rw e
  ]

  pub sort_keys-map_values :
      (m : List (Bytes × A)) → sort_keys (map_values m) ≡ map_values (sort_keys m)
  unfolding sort_keys
  sort_keys-map_values [] = refl
  sort_keys-map_values ((k, a) ∷ m) =
      ap (insert_key k (f a)) (sort_keys-map_values m) ∙ insert_key-map_values k a (sort_keys m)

  pub Absent-map_values : (k : Bytes) (m : List (Bytes × A)) → Absent k m → Absent k (map_values m)
  Absent-map_values k [] h = tt
  Absent-map_values k ((j, a) ∷ m) (h, hs) = (h, Absent-map_values k m hs)
