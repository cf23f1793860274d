-- ===== src/Wire/Values/Canonical.antt =====
-- Two listings of one Go map are encoded alike: the bytes depend on the map alone.
use mathlib.Core.Path.{subst}
use lotor_go.Common.{
  suc, ◌≡◌, refl, sym, ◌∙◌, ap, inl, inr, true, none, some, List, [], ◌∷◌, length, Bool-cases,
}
use lotor_go.Common.Bytes.{Bytes, bytes_eq, bytes_eq_iff, bytes_eq_refl, bytes_lt, bytes_lt_total}
use lotor_go.Wire.Values.{
  sort_keys, Value, Entries, end, entry, map, count_entries, encode_value, encode_entries,
}
use lotor_go.Wire.Values.Sorting.{
  Distinct, Above, IsAscending, lookup, Above-Absent, Above-trans, lookup-Absent,
  sort_keys-IsAscending, lookup-sort_keys, map_values, sort_keys-map_values, length-sort_keys,
}

abbrev pub pairs : Entries → List (Bytes × Value)
pairs end = []
pairs (entry k v m) = (k, v) ∷ pairs m

module _ {ℓ} {A : Type ℓ} where
  lookup_head : (k : Bytes) (a : A) (m : List (Bytes × A)) → lookup k ((k, a) ∷ m) ≡ some a
  unfolding lookup
  lookup_head k a m = rw (bytes_eq_refl k)

  lookup_below :
      (k j : Bytes) (b : A) (m : List (Bytes × A))
      → bytes_lt k j ≡ true
      → Above j m
      → lookup k ((j, b) ∷ m) ≡ none
  lookup_below k j b m h hs =
      lookup-Absent k ((j, b) ∷ m) (Above-Absent k ((j, b) ∷ m) (h, Above-trans k j m h hs))

  tails_agree :
      (k : Bytes) (a : A) (m n : List (Bytes × A))
      → Above k m
      → Above k n
      → ((i : Bytes) → lookup i ((k, a) ∷ m) ≡ lookup i ((k, a) ∷ n))
      → (i : Bytes) → lookup i m ≡ lookup i n
  unfolding lookup
  tails_agree k a m n lo lo' h i = elim (Bool-cases (bytes_eq k i)) [
    | inl e ↦
        let same : k ≡ i = (bytes_eq_iff k i).0 e in
        rw (← same)
          (lookup-Absent k m (Above-Absent k m lo) ∙ sym (lookup-Absent k n (Above-Absent k n lo')))
    | inr e ↦ rw e at (h i)
  ]

  same_head :
      (k : Bytes) (a b : A) (j : Bytes) (m n : List (Bytes × A))
      → k ≡ j
      → Above k m
      → Above j n
      → ((i : Bytes) → lookup i ((k, a) ∷ m) ≡ lookup i ((j, b) ∷ n))
      → (((i : Bytes) → lookup i m ≡ lookup i n) → m ≡ n)
      → ◌≡◌ {A = List (Bytes × A)} ((k, a) ∷ m) ((j, b) ∷ n)
  same_head k a b j m n e lo lo' h tails =
      let lo'' : Above k n = subst (λ i. Above i n) (sym e) lo' in
      let heads : a ≡ b = cc (lookup_head k a m, h k, lookup_head j b n) in
      let g : (i : Bytes) → lookup i ((k, a) ∷ m) ≡ lookup i ((k, a) ∷ n) =
        λ i. h i ∙ rw (e, heads) in
      let rest : m ≡ n = tails (tails_agree k a m n lo lo'' g) in rw (e, heads, rest)

  -- An ascending listing is determined by the map.
  ascending_unique :
      (m n : List (Bytes × A))
      → IsAscending m
      → IsAscending n
      → ((i : Bytes) → lookup i m ≡ lookup i n)
      → m ≡ n
  ascending_unique [] [] s t h = refl
  ascending_unique [] ((j, b) ∷ n) s t h = cc (lookup_head j b n, h j, lookup-Absent j [] tt)
  ascending_unique ((k, a) ∷ m) [] s t h = cc (lookup_head k a m, h k, lookup-Absent k [] tt)
  ascending_unique ((k, a) ∷ m) ((j, b) ∷ n) (lo, s) (lo', t) h = elim (Bool-cases (bytes_lt k j)) [
    | inl e ↦ cc (lookup_head k a m, h k, lookup_below k j b n e lo')
    | inr e ↦ elim (Bool-cases (bytes_eq k j)) [
      | inl same ↦
          same_head k a b j m n ((bytes_eq_iff k j).0 same) lo lo' h (ascending_unique m n s t)
      | inr other ↦ cc (
        lookup_head j b n,
        h j,
        lookup_below j k a m (bytes_lt_total k j e (λ same. cc ((bytes_eq_iff k j).1 same))) lo,
      )
    ]
  ]

-- The entries with their encodings are the encodings of the entries.
encode_entries-pairs : (m : Entries) → encode_entries m ≡ map_values encode_value (pairs m)
unfolding encode_entries
encode_entries-pairs end = refl
encode_entries-pairs (entry k v m) = ap (◌∷◌ (k, encode_value v)) (encode_entries-pairs m)

pub count_entries-pairs : (m : Entries) → count_entries m ≡ length (pairs m)
count_entries-pairs end = refl
count_entries-pairs (entry k v m) = ap suc (count_entries-pairs m)

-- A map's sorted listing, with each value encoded.
pub sorted_fields :
    (m : Entries) → sort_keys (encode_entries m) ≡ map_values encode_value (sort_keys (pairs m))
sorted_fields m =
    ap sort_keys (encode_entries-pairs m) ∙ sort_keys-map_values encode_value (pairs m)

-- Two listings that agree on every key give the same sorted listing.
pub sort_keys_unique :
    (m n : Entries)
    → Distinct (pairs m)
    → Distinct (pairs n)
    → ((k : Bytes) → lookup k (pairs m) ≡ lookup k (pairs n))
    → sort_keys (pairs m) ≡ sort_keys (pairs n)
sort_keys_unique m n d e h =
    ascending_unique (sort_keys (pairs m)) (sort_keys (pairs n)) (sort_keys-IsAscending (pairs m) d)
      (sort_keys-IsAscending (pairs n) e)
      (λ k. lookup-sort_keys k (pairs m) d ∙ h k ∙ sym (lookup-sort_keys k (pairs n) e))

-- Two listings of the same map, each with distinct keys and in any order, have the same
-- encoding: Go's random order of iteration does not reach the wire.
pub encode_value_canonical :
    (m n : Entries)
    → Distinct (pairs m)
    → Distinct (pairs n)
    → ((k : Bytes) → lookup k (pairs m) ≡ lookup k (pairs n))
    → encode_value (map m) ≡ encode_value (map n)
unfolding encode_value
encode_value_canonical m n d e h =
    let same = sort_keys_unique m n d e h in
    let sizes : count_entries m ≡ count_entries n =
      count_entries-pairs m
      ∙ sym (length-sort_keys (pairs m))
      ∙ ap length same
      ∙ length-sort_keys (pairs n)
      ∙ sym (count_entries-pairs n) in
    rw (sizes, sorted_fields m, sorted_fields n, same)
