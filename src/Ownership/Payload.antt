-- ===== src/Ownership/Payload.antt =====
-- The signed payload of ownershipPayload determines every field that it joins.
use lotor_go.Common.{
  ℕ, suc, ◌+◌, ◌≡◌, refl, ap, true, Option, none, some, List, [], ◌∷◌, ◌++◌, ◌==◌, if◌then◌else◌,
  length, arith,
}
use lotor_go.Common.Bytes.{Bytes}
use lotor_go.Common.Int.{ℤ}
use lotor_go.Ownership.{
  Ownership, Library, join_fields, ownership_fields, ownership_payload, verify_ownership, signed_by,
}

-- The NUL bytes of a string, and of all strings of a list.
unfoldable pub nuls : Bytes → ℕ
nuls [] = 0
nuls (c ∷ s) = if c == 0 then suc (nuls s) else nuls s

unfoldable pub all_nuls : List Bytes → ℕ
all_nuls [] = 0
all_nuls (s ∷ fields) = nuls s + all_nuls fields

nuls-append : (s t : Bytes) → nuls (s ++ t) ≡ nuls s + nuls t
unfolding nuls
nuls-append [] t = omega arith
nuls-append (c ∷ s) t = ground (arith, nuls-append s t)

-- One separator between any two fields.
nuls-join_fields :
    (s : Bytes) (fields : List Bytes)
    → nuls (join_fields (s ∷ fields)) ≡ all_nuls (s ∷ fields) + length fields
unfolding join_fields all_nuls nuls
nuls-join_fields s [] = omega arith
nuls-join_fields s (t ∷ fields) =
    omega (arith, nuls-append s (0 ∷ join_fields (t ∷ fields)), nuls-join_fields t fields)

split_nul :
    (s t a b : Bytes) → nuls s ≡ 0 → nuls t ≡ 0 → s ++ (0 ∷ a) ≡ t ++ (0 ∷ b) → (s ≡ t) × (a ≡ b)
unfolding nuls
split_nul [] [] a b h k e = (refl, cc)
split_nul [] (d ∷ t) a b h k e = ground arith
split_nul (c ∷ s) [] a b h k e = ground arith
split_nul (c ∷ s) (d ∷ t) a b h k e = ground (arith, split_nul s t a b)

join_injective :
    (fields others : List Bytes)
    → length fields ≡ length others
    → all_nuls fields ≡ 0
    → all_nuls others ≡ 0
    → join_fields fields ≡ join_fields others
    → fields ≡ others
unfolding join_fields all_nuls
join_injective [] [] l h k e = refl
join_injective [] (t ∷ others) l h k e = absurd (omega arith)
join_injective (s ∷ fields) [] l h k e = absurd (omega arith)
join_injective (s ∷ []) (t ∷ []) l h k e = cc
join_injective (s ∷ []) (t ∷ u ∷ others) l h k e = absurd (omega arith)
join_injective (s ∷ r ∷ fields) (t ∷ []) l h k e = absurd (omega arith)
join_injective (s ∷ r ∷ fields) (t ∷ u ∷ others) l h k e =
    let parts = split_nul s t _ _ (omega arith) (omega arith) e in
    let rest =
      join_injective (r ∷ fields) (u ∷ others) (omega arith) (omega arith) (omega arith) parts.1 in
    cc

-- The separators can be counted, so that the second list holds no NUL byte either.
join_clean :
    (s : Bytes) (fields : List Bytes) (t : Bytes) (others : List Bytes)
    → length fields ≡ length others
    → all_nuls (s ∷ fields) ≡ 0
    → join_fields (s ∷ fields) ≡ join_fields (t ∷ others)
    → s ∷ fields ≡ t ∷ others
join_clean s fields t others l clean e =
    join_injective (s ∷ fields) (t ∷ others) (ap (λ (n : ℕ). suc n) l) clean
      (omega (arith, nuls-join_fields s fields, nuls-join_fields t others, ap nuls e)) e

-- What the signature covers.
abbrev pub unsigned : Ownership → Ownership
unsigned o = record o { signature = [] }

unsigned-fields :
    (library : Library)
    → ((x y : ℤ) → library.decimal x ≡ library.decimal y → x ≡ y)
    → (a b : Ownership) → ownership_fields library a ≡ ownership_fields library b
    → unsigned a ≡ unsigned b
unfolding ownership_fields
unsigned-fields library inj a b e =
    let v : a.version ≡ b.version = inj _ _ (cc) in
    let p : a.ownership_epoch ≡ b.ownership_epoch = inj _ _ (cc) in
    let i : a.issued_at ≡ b.issued_at = inj _ _ (cc) in
    let x : a.expires_at ≡ b.expires_at = inj _ _ (cc) in cc

-- Two assertions with the same payload agree on every field but the signature, when the printed
-- numbers determine the numbers and no field of the first holds a NUL byte, whatever the other holds.
pub ownership_payload_injective :
    (library : Library)
    → ((x y : ℤ) → library.decimal x ≡ library.decimal y → x ≡ y)
    → (a b : Ownership) → all_nuls (ownership_fields library a) ≡ 0
    → ownership_payload library a ≡ ownership_payload library b
    → unsigned a ≡ unsigned b
unfolding ownership_payload ownership_fields
ownership_payload_injective library inj a b clean e =
    unsigned-fields library inj a b (join_clean _ _ _ _ refl clean e)

signature_of_verified :
    (library : Library) (o : Ownership) (key : Bytes) (signature : Option Bytes)
    → signed_by library o key signature ≡ true
    → (s : Bytes) × (library.ed25519_verify key (ownership_payload library o) s ≡ true)
unfolding signed_by
signature_of_verified library o key none h = cc
signature_of_verified library o key (some s) h = (s, ground arith)

-- Where a key signs nothing but the payloads of issued assertions, and the issued ones hold no NUL
-- byte, an assertion that verifyOwnership accepts under this key at any time says what an issued
-- one says.
pub verify_ownership_issued :
    (library : Library)
    → ((x y : ℤ) → library.decimal x ≡ library.decimal y → x ≡ y)
    → (key : Bytes) (Issued : Ownership → Type 0)
    → ((a : Ownership) → Issued a → all_nuls (ownership_fields library a) ≡ 0)
    → ((m s : Bytes)
        → library.ed25519_verify key m s ≡ true
        → (a : Ownership) × Issued a × (ownership_payload library a ≡ m))
    → (o : Ownership) (now : ℤ) → verify_ownership library o key now ≡ true
    → (a : Ownership) × Issued a × (unsigned a ≡ unsigned o)
unfolding verify_ownership
verify_ownership_issued library inj key Issued clean unforged o now h =
    let checked : signed_by library o key (library.base64_decode o.signature) ≡ true =
      ground arith in
    let (s, good) =
      signature_of_verified library o key (library.base64_decode o.signature) checked in
    let (a, issued, e) = unforged _ s good in
    (a, issued, ownership_payload_injective library inj a o (clean a issued) e)
