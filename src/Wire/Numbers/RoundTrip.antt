-- ===== src/Wire/Numbers/RoundTrip.antt =====
-- What is written by putUvarint and zigzag is read back.
use Prim.Native.Nat.{bit_or}
use native.Mathlib.Decide.{dec_lt}
use native.Mathlib.Nat.{mod-eq_of_lt, pow-suc}
use native.Mathlib.Numerals.{towards_suc}
use lotor_go.Common.{
  ℕ, zero, suc, ◌+◌, ◌*◌, ◌/◌, ◌%◌, ◌^◌, ◌≤◌, ◌<◌, ◌≡◌, sym, ap, [], ◌∷◌, ◌∙◌, ◌++◌, length, inl,
  inr, Bool-cases, ◌==◌, arith,
}
use lotor_go.Common.Bits.{bit_or-disjoint}
use lotor_go.Common.Bytes.{Bytes}
use lotor_go.Common.Int.{ℤ, pos, negsuc, IsInt64}
use lotor_go.Wire.Reader.{done, Within, Within-mono}
use lotor_go.Wire.Numbers.{
  uvarint_loop, put_uvarint, read_uvarint_loop, read_uvarint, zigzag, unzigzag,
}

pow_group : (s : ℕ) → 2 ^ (s + 7) ≡ 128 * 2 ^ s
pow_group s = simp towards_suc (omega arith)

split_low : (w s : ℕ) → w * 2 ^ s ≡ w % 128 * 2 ^ s + w / 128 * 2 ^ (s + 7)
split_low w s =
    let parts : w * 2 ^ s ≡ (w / 128 * 128 + w % 128) * 2 ^ s =
      ap (λ (v : ℕ). v * 2 ^ s) (omega arith) in
    rw (pow_group s) (omega (arith, parts))

-- One group is added above the bits that are there.
add_group :
    (acc g s : ℕ)
    → acc < 2 ^ s
    → acc + g * 2 ^ s < 2 ^ 64
    → bit_or acc (g * 2 ^ s % 2 ^ 64) ≡ acc + g * 2 ^ s
add_group acc g s low fits =
    rw (mod-eq_of_lt {n = g * 2 ^ s} {m = 2 ^ 64} (omega arith)) (bit_or-disjoint s acc g low)

writes_last : (k w : ℕ) → w < 128 → uvarint_loop (suc k) w ≡ w ∷ []
unfolding uvarint_loop
writes_last k w h = ground arith

writes_more :
    (k w : ℕ) → 128 ≤ w → uvarint_loop (suc k) w ≡ (w % 128 + 128) ∷ uvarint_loop k (w / 128)
unfolding uvarint_loop
writes_more k w h = ground (arith, bit_or-disjoint 7 (w % 128) 1 (omega arith))

group_count : (k w : ℕ) → w < 128 ^ suc (suc k) → w / 128 < 128 ^ suc k
group_count k w h = omega (arith, pow-suc 128 (suc k))

reads_last :
    (c acc s : ℕ) (rest : Bytes)
    → c < 128
    → acc < 2 ^ s
    → acc + c * 2 ^ s < 2 ^ 64
    → read_uvarint_loop acc s (c ∷ rest) ≡ done (acc + c * 2 ^ s) rest
unfolding read_uvarint_loop
reads_last c acc s rest h low fits =
    rw (mod-eq_of_lt {n = c} {m = 128} h, add_group acc c s low fits) (ground arith)

reads_more :
    (g acc s : ℕ) (rest : Bytes)
    → g < 128
    → acc < 2 ^ s
    → acc + g * 2 ^ s < 2 ^ 64
    → read_uvarint_loop acc s ((g + 128) ∷ rest) ≡ read_uvarint_loop (acc + g * 2 ^ s) (s + 7) rest
unfolding read_uvarint_loop
reads_more g acc s rest h low fits =
    let e : (g + 128) % 128 ≡ g = omega arith in rw (e, add_group acc g s low fits) (ground arith)

group_fits : (g acc s : ℕ) → g < 128 → acc < 2 ^ s → acc + g * 2 ^ s < 2 ^ (s + 7)
group_fits g acc s h low = grind (arith, pow_group s)

-- What the loop reads, when the rest of the number is read from the next group on.
reads_then :
    (k w acc s : ℕ) (rest : Bytes)
    → acc < 2 ^ s
    → acc + w * 2 ^ s < 2 ^ 64
    → read_uvarint_loop (acc + w % 128 * 2 ^ s) (s + 7) (uvarint_loop k (w / 128) ++ rest)
      ≡ done (acc + w % 128 * 2 ^ s + w / 128 * 2 ^ (s + 7)) rest
    → read_uvarint_loop acc s ((w % 128 + 128) ∷ (uvarint_loop k (w / 128) ++ rest))
      ≡ done (acc + w * 2 ^ s) rest
reads_then k w acc s rest low fits ih =
    let sum : acc + w * 2 ^ s ≡ acc + w % 128 * 2 ^ s + w / 128 * 2 ^ (s + 7) =
      omega (arith, split_low w s) in
    reads_more (w % 128) acc s _ (omega arith) low (omega (arith, split_low w s))
    ∙ ih
    ∙ ap (λ (t : ℕ). done t rest) (sym sum)

read_loop-uvarint_loop :
    (k w acc s : ℕ) (rest : Bytes)
    → w < 128 ^ suc k
    → acc < 2 ^ s
    → acc + w * 2 ^ s < 2 ^ 64
    → read_uvarint_loop acc s (uvarint_loop (suc k) w ++ rest) ≡ done (acc + w * 2 ^ s) rest
read_loop-uvarint_loop zero w acc s rest hw low fits =
    rw (writes_last 0 w (omega arith)) (reads_last w acc s rest (omega arith) low fits)
read_loop-uvarint_loop (suc k) w acc s rest hw low fits = elim (dec_lt w 128) [
  | yes h ↦ rw (writes_last (suc k) w h) (reads_last w acc s rest h low fits)
  | no h ↦ rw (writes_more (suc k) w (omega arith)) (
      reads_then (suc k) w acc s rest low fits (
        read_loop-uvarint_loop k (w / 128) (acc + w % 128 * 2 ^ s) (s + 7) rest (group_count k w hw)
          (group_fits (w % 128) acc s (omega arith) low) (omega (arith, split_low w s))))
]

-- Reading after writing returns any uint64, and leaves the bytes that follow it.
pub read_uvarint-put_uvarint :
    (v : ℕ) (rest : Bytes) → v < 2 ^ 64 → read_uvarint (put_uvarint v ++ rest) ≡ done v rest
unfolding read_uvarint put_uvarint
read_uvarint-put_uvarint v rest h =
    let e : 0 + v * 2 ^ 0 ≡ v = omega arith in
    rw (read_loop-uvarint_loop 9 v 0 0 rest (omega arith) (omega arith) (omega arith), e)

-- Every int64 survives the zigzag code.
pub unzigzag-zigzag : (v : ℤ) → IsInt64 v → unzigzag (zigzag v) ≡ v
unfolding unzigzag zigzag
unzigzag-zigzag (pos n) h = ground arith
unzigzag-zigzag (negsuc n) h = ground arith

-- Every uint64 is the zigzag code of one int64.
pub zigzag-unzigzag : (v : ℕ) → v < 2 ^ 64 → (zigzag (unzigzag v) ≡ v) × IsInt64 (unzigzag v)
unfolding unzigzag zigzag
zigzag-unzigzag v h = ground arith

pub zigzag-lt : (v : ℤ) → IsInt64 v → zigzag v < 2 ^ 64
unfolding zigzag
zigzag-lt (pos n) h = omega arith
zigzag-lt (negsuc n) h = omega arith

-- A read of a number takes at least one byte, or fails.
read_uvarint_loop-Within : (acc s : ℕ) (b : Bytes) → Within (length b) (read_uvarint_loop acc s b)
unfolding read_uvarint_loop
read_uvarint_loop-Within acc s [] = tt
read_uvarint_loop-Within acc s (c ∷ b) =
    let acc' = bit_or acc (c % 128 * 2 ^ s % 2 ^ 64) in
    elim (Bool-cases (c / 128 % 2 == 0)) [
      | inl e ↦ rw e (omega arith)
      | inr e ↦ rw e (
          Within-mono _ (length b) (suc (length b)) (read_uvarint_loop-Within acc' (s + 7) b)
            (omega arith))
    ]

pub read_uvarint-Within : (b : Bytes) → Within (length b) (read_uvarint b)
unfolding read_uvarint
read_uvarint-Within b = read_uvarint_loop-Within 0 0 b

pub one-le-length-put_uvarint : (v : ℕ) → 1 ≤ length (put_uvarint v)
unfolding put_uvarint uvarint_loop
one-le-length-put_uvarint v = ground arith
