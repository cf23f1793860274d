-- ===== src/Wire/Values/Shape.antt =====
-- Values that have an LWP form: numbers and lengths in range, lists within the slice limit, and
-- no key twice in a map. How deep they nest, and the value with its maps listed in key order.
use lotor_go.Common.{ℕ, suc, ◌^◌, ◌≤◌, ◌<◌, max, List, [], ◌∷◌, length}
use lotor_go.Common.Bytes.{Bytes}
use lotor_go.Common.Int.{IsInt64}
use lotor_go.Wire.Values.{
  Value, Values, Entries, null, bool, u64, i64, str, addr, bytes, list, map, nil, cons, end, entry,
  count, count_entries, sort_keys,
}
use lotor_go.Wire.Values.Sorting.{Distinct}
use lotor_go.Wire.Values.Canonical.{pairs}

unfoldable mutual
  pub Fits : ℕ → Value → Type 0
  Fits slice_limit null = Unit
  Fits slice_limit (bool b) = Unit
  Fits slice_limit (u64 n) = n < 2 ^ 64
  Fits slice_limit (i64 z) = IsInt64 z
  Fits slice_limit (str s) = length s < 2 ^ 63
  Fits slice_limit (addr s) = length s < 2 ^ 63
  Fits slice_limit (bytes s) = length s < 2 ^ 63
  Fits slice_limit (list vs) =
      (count vs ≤ slice_limit) × (count vs < 2 ^ 64) × FitItems slice_limit vs
  Fits slice_limit (map m) =
      (count_entries m < 2 ^ 64) × Distinct (pairs m) × FitEntries slice_limit m

  pub FitItems : ℕ → Values → Type 0
  FitItems slice_limit nil = Unit
  FitItems slice_limit (cons v vs) = Fits slice_limit v × FitItems slice_limit vs

  pub FitEntries : ℕ → Entries → Type 0
  FitEntries slice_limit end = Unit
  FitEntries slice_limit (entry k v m) =
      (length k < 2 ^ 63) × Fits slice_limit v × FitEntries slice_limit m

unfoldable mutual
  pub depth : Value → ℕ
  depth (list vs) = suc (depth_items vs)
  depth (map m) = suc (depth_entries m)
  depth _ = 0

  pub depth_items : Values → ℕ
  depth_items nil = 0
  depth_items (cons v vs) = max (depth v) (depth_items vs)

  pub depth_entries : Entries → ℕ
  depth_entries end = 0
  depth_entries (entry k v m) = max (depth v) (depth_entries m)

abbrev pub from_pairs : List (Bytes × Value) → Entries
from_pairs [] = end
from_pairs ((k, v) ∷ m) = entry k v (from_pairs m)

unfoldable mutual
  pub sort_maps : Value → Value
  sort_maps null = null
  sort_maps (bool b) = bool b
  sort_maps (u64 n) = u64 n
  sort_maps (i64 z) = i64 z
  sort_maps (str s) = str s
  sort_maps (addr s) = addr s
  sort_maps (bytes s) = bytes s
  sort_maps (list vs) = list (sort_items vs)
  sort_maps (map m) = map (from_pairs (sort_keys (sort_fields m)))

  pub sort_items : Values → Values
  sort_items nil = nil
  sort_items (cons v vs) = cons (sort_maps v) (sort_items vs)

  pub sort_fields : Entries → List (Bytes × Value)
  sort_fields end = []
  sort_fields (entry k v m) = (k, sort_maps v) ∷ sort_fields m
