-- ===== src/Bridge/SqlStore/Digest.antt =====
-- The checks of identifiers and digests in bridge/sqlstore and bridge/client agree with those of
-- bridge/protocol.go.
use mathlib.Core.Bool.{false≢true}
use lotor_go.Common.{
  ℕ, ◌+◌, ◌*◌, ◌/◌, ◌%◌, ◌<◌, ◌≡◌, refl, sym, ap, ◌∙◌, inl, inr, true, false, not, ◌&&◌, ◌||◌,
  Option, none, some, [], ◌∷◌, ltb, leb, ◌==◌, length, all, Bool-cases, and-eq-true, arith,
}
use lotor_go.Common.Bytes.{Bytes, bytes_eq, bytes_eq_iff}
use lotor_go.Bridge.Protocol
use lotor_go.Bridge.Protocol.{hex_digit, graphic, is_digest}
use lotor_go.Bridge.SqlStore.{
  hex_value, join_hex, hex_decode, hex_char, hex_encode, hex_digest, refused_rune, no_index,
  identifier,
}

hex_value_bound : (c x : ℕ) → hex_value c ≡ some x → x < 16
unfolding hex_value
hex_value_bound c x h = ground arith

hex_char_digit : (x : ℕ) → x < 16 → hex_digit (hex_char x) ≡ true
unfolding hex_char hex_digit
hex_char_digit x h = ground arith

join_hex-eq-some :
    (x y : Option ℕ) (rest : Option Bytes) (d : Bytes)
    → join_hex x y rest ≡ some d
    → (m : ℕ) × (n : ℕ) × (t : Bytes) × (x ≡ some m)
      × (y ≡ some n)
      × (rest ≡ some t)
      × (d ≡ (m * 16 + n) ∷ t)
unfolding join_hex
join_hex-eq-some (some m) (some n) (some t) d h = (m, n, t, refl, refl, refl, cc)
join_hex-eq-some (some m) (some n) none d h = cc
join_hex-eq-some (some m) none rest d h = cc
join_hex-eq-some none y rest d h = cc

encoded_digits :
    (v d : Bytes)
    → hex_decode v ≡ some d
    → (all hex_digit (hex_encode d) ≡ true) × (length (hex_encode d) ≡ 2 * length d)
unfolding hex_decode hex_encode
encoded_digits [] d h = let empty : d ≡ [] = cc in rw empty (refl, refl)
encoded_digits (c ∷ []) d h = cc
encoded_digits (c ∷ e ∷ v) d h =
    let (m, n, t, high, low, rest, same) =
      join_hex-eq-some (hex_value c) (hex_value e) (hex_decode v) d h in
    let (digits, size) = encoded_digits v t rest in
    let m_small = hex_value_bound c m high in
    let n_small = hex_value_bound e n low in
    let first = hex_char_digit ((m * 16 + n) / 16) (omega arith) in
    let second = hex_char_digit ((m * 16 + n) % 16) (omega arith) in
    rw same (rw (first, second, digits) refl, omega arith)

digest_of :
    (v : Bytes) (decoded : Option Bytes)
    → hex_decode v ≡ decoded
    → hex_digest decoded v ≡ true
    → is_digest v ≡ true
unfolding hex_digest is_digest
digest_of v none e h = cc
digest_of v (some d) e h =
    let (size, same) = and-eq-true (length d == 32) (bytes_eq (hex_encode d) v) h in
    let equal = (bytes_eq_iff (hex_encode d) v).0 same in
    let (digits, double) = encoded_digits v d e in
    let size_32 : length d ≡ 32 = ground arith in
    let long : length v ≡ 64 = omega (arith, ap length equal, double, size_32) in
    let is_64 : (length v == 64) ≡ true = ground arith in
    rw (is_64) (ap (all hex_digit) (sym equal) ∙ digits)

pub digest_agrees : (v : Bytes) → hex_digest (hex_decode v) v ≡ true → is_digest v ≡ true
digest_agrees v h = digest_of v (hex_decode v) refl h

no_index-graphic : (v : Bytes) → no_index v ≡ true → all graphic v ≡ true
unfolding no_index refused_rune graphic
no_index-graphic [] h = refl
no_index-graphic (c ∷ v) h = elim (Bool-cases (leb c 32 || leb 127 c)) [
  | inl bad ↦ absurd (false≢true (rw bad at h))
  | inr good ↦ rw good (no_index-graphic v (rw good at h))
]

pub identifier_agrees : (v : Bytes) (n : ℕ) → identifier v n ≡ true → Protocol.identifier v n ≡ true
unfolding identifier Protocol.identifier bytes_eq
identifier_agrees [] n h = absurd (false≢true h)
identifier_agrees (c ∷ v) n h =
    let (some_name, rest) =
      and-eq-true (not (bytes_eq (c ∷ v) [])) (leb (length (c ∷ v)) n && no_index (c ∷ v)) h in
    let (short, plain) = and-eq-true (leb (length (c ∷ v)) n) (no_index (c ∷ v)) rest in
    let fits : (ltb (length (c ∷ v)) 1 || ltb n (length (c ∷ v))) ≡ false = ground arith in
    rw (fits) (no_index-graphic (c ∷ v) plain)
