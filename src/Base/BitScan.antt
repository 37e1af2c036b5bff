-- ===== src/Base/BitScan.antt =====
-- What the counts of zero bits of `<bit>` and a mask of the low bits say of the bits of a word.
use Prim.Native.Nat.{ℕ, zero, suc, ◌*◌, ◌/◌, ◌%◌, ◌^◌, ◌≤◌, ◌<◌}
use mathlib.Core.Path.{◌≡◌, refl, ap, ◌∙◌, sym}
use mathlib.Core.Logic.{inl, inr}
use native.Mathlib.Omega.{arith}
use native.Mathlib.Nat.{pow-suc, pow-succ', pow-zero, div-div-eq-div-mul}
use cth.Base.Tests.{◌==◌, Bool-cases}
use cth.Base.Bits.{bit, countr_zero, highest_bit}

-- The lowest bit that is set.
pub countr_zero-bit : (w x : ℕ) → 0 < x → x < 2 ^ w → bit x (countr_zero w x) ≡ 1
unfolding bit countr_zero
countr_zero-bit zero x pos lt = absurd (omega arith)
countr_zero-bit (suc w) x pos lt = elim (Bool-cases (x % 2 == 1)) [
  | inl odd ↦ rw odd (ground arith)
  | inr even ↦ rw even (countr_zero-bit w (x / 2) (ground arith) (omega (arith, pow-suc 2 w)))
]

pub countr_zero-below : (w x j : ℕ) → j < countr_zero w x → bit x j ≡ 0
unfolding bit countr_zero
countr_zero-below zero x j lt = absurd (omega arith)
countr_zero-below (suc w) x zero lt = ground (arith, lt)
countr_zero-below (suc w) x (suc j) lt = elim (Bool-cases (x % 2 == 1)) [
  | inl odd ↦ absurd (ground (arith, odd, lt))
  | inr even ↦ countr_zero-below w (x / 2) j (ground (arith, even, lt))
]

-- Half of a masked word is the masked half.
mask_half : (x s : ℕ) → x / 2 ^ suc s * 2 ^ suc s ≡ x / 2 / 2 ^ s * 2 ^ s * 2
mask_half x s =
    ap (λ p. x / p * p) (pow-succ' 2 s)
    ∙ ap (λ q. q * (2 * 2 ^ s)) (sym (div-div-eq-div-mul x 2 (2 ^ s)))
    ∙ omega arith

-- The bits that a mask of the bits from `s` on leaves.
half_bit : (x s j : ℕ) → bit (x / 2 ^ suc s * 2 ^ suc s) (suc j) ≡ bit (x / 2 / 2 ^ s * 2 ^ s) j
unfolding bit
half_bit x s j = ap (λ y. bit y j) (omega (arith, mask_half x s))

pub bit-mask_low : (x s j : ℕ) → j < s → bit (x / 2 ^ s * 2 ^ s) j ≡ 0
unfolding bit
bit-mask_low x zero j lt = absurd (omega arith)
bit-mask_low x (suc s) zero lt = omega (arith, mask_half x s)
bit-mask_low x (suc s) (suc j) lt = half_bit x s j ∙ bit-mask_low (x / 2) s j (omega arith)

pub bit-mask_high : (x s j : ℕ) → s ≤ j → bit (x / 2 ^ s * 2 ^ s) j ≡ bit x j
unfolding bit
bit-mask_high x zero j le =
    ap (λ y. bit y j) {x = x / 2 ^ 0 * 2 ^ 0} {y = x} (omega (arith, pow-zero 2))
bit-mask_high x (suc s) zero le = absurd (omega arith)
bit-mask_high x (suc s) (suc j) le = half_bit x s j ∙ bit-mask_high (x / 2) s j (omega arith)

-- The highest bit that is set.
pub highest_bit-bit : (w x : ℕ) → 0 < x → x < 2 ^ w → bit x (highest_bit w x) ≡ 1
unfolding bit highest_bit
highest_bit-bit zero x pos lt = absurd (omega arith)
highest_bit-bit (suc w) x pos lt = elim (Bool-cases (x / 2 == 0)) [
  | inl low ↦ rw low (ground arith)
  | inr high ↦ rw high (highest_bit-bit w (x / 2) (ground arith) (omega (arith, pow-suc 2 w)))
]

bit-zero : (i : ℕ) → bit 0 i ≡ 0
unfolding bit
bit-zero zero = refl
bit-zero (suc i) = bit-zero i

-- The word 0 has no bit.
pub bit-of_zero : (x i : ℕ) → x ≡ 0 → bit x i ≡ 0
bit-of_zero x i h = ap (λ y. bit y i) h ∙ bit-zero i

pub highest_bit-above : (w x j : ℕ) → x < 2 ^ w → highest_bit w x < j → bit x j ≡ 0
unfolding bit highest_bit
highest_bit-above zero x j lt above = bit-of_zero x j (omega arith)
highest_bit-above (suc w) x zero lt above = absurd (omega arith)
highest_bit-above (suc w) x (suc j) lt above = elim (Bool-cases (x / 2 == 0)) [
  | inl low ↦ bit-of_zero (x / 2) j (ground (arith, low))
  | inr high ↦
      highest_bit-above w (x / 2) j (omega (arith, pow-suc 2 w)) (ground (arith, high, above))
]

-- A bit that is set is below the width.
pub bit-width : (n x j : ℕ) → x < 2 ^ n → bit x j ≡ 1 → j < n
unfolding bit
bit-width zero x j lt set = absurd (omega (arith, bit-of_zero x j (omega arith)))
bit-width (suc n) x zero lt set = omega arith
bit-width (suc n) x (suc j) lt set =
    omega (arith, bit-width n (x / 2) j (omega (arith, pow-suc 2 n)) set)
