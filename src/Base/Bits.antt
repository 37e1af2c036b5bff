-- ===== src/Base/Bits.antt =====
-- The bits of an unsigned word: `x & 1 << i`, `x |= 1 << i`, `x &= ~(1 << i)`, and the counts of zero
-- bits of the header `<bit>`.
use Prim.Native.Nat.{ℕ, zero, suc, ◌+◌, ◌*◌, ◌/◌, ◌%◌, ◌^◌, ◌≤◌, ◌<◌}
use mathlib.Core.Path.{◌≡◌, refl, ap, ◌∙◌}
use native.Mathlib.Omega.{arith}
use native.Mathlib.Nat.{pow-suc}
use cth.Base.Tests.{◌==◌, if◌then◌else◌, Bool-cases}
use mathlib.Core.Logic.{inl, inr}

unfoldable pub bit : ℕ → ℕ → ℕ
bit x zero = x % 2
bit x (suc i) = bit (x / 2) i

unfoldable pub set_bit : ℕ → ℕ → ℕ
set_bit x zero = x / 2 * 2 + 1
set_bit x (suc i) = set_bit (x / 2) i * 2 + x % 2

unfoldable pub clear_bit : ℕ → ℕ → ℕ
clear_bit x zero = x / 2 * 2
clear_bit x (suc i) = clear_bit (x / 2) i * 2 + x % 2

-- `std::countr_zero` of a word of `w` bits.
unfoldable pub countr_zero : ℕ → ℕ → ℕ
countr_zero zero x = 0
countr_zero (suc w) x = let rest = countr_zero w (x / 2) in if x % 2 == 1 then 0 else suc rest

-- `w - 1 - std::countl_zero(x)` of a word of `w` bits that is not 0.
unfoldable pub highest_bit : ℕ → ℕ → ℕ
highest_bit zero x = 0
highest_bit (suc w) x = let rest = highest_bit w (x / 2) in if x / 2 == 0 then 0 else suc rest

bit-lt : (x i : ℕ) → bit x i < 2
unfolding bit
bit-lt x zero = omega arith
bit-lt x (suc i) = bit-lt (x / 2) i

pub zero-bit : (i : ℕ) → bit 0 i ≡ 0
unfolding bit
zero-bit zero = refl
zero-bit (suc i) = zero-bit i

pub bit-set_bit : (x i j : ℕ) → bit (set_bit x i) j ≡ (if i == j then 1 else bit x j)
unfolding bit set_bit
bit-set_bit x zero zero = omega arith
bit-set_bit x zero (suc j) =
    ap (λ k. bit k j) {x = (x / 2 * 2 + 1) / 2} {y = x / 2} (omega arith) ∙ ground arith
bit-set_bit x (suc i) zero = ground arith
bit-set_bit x (suc i) (suc j) =
    ap (λ k. bit k j) {x = (set_bit (x / 2) i * 2 + x % 2) / 2} {y = set_bit (x / 2) i}
      (omega arith)
    ∙ bit-set_bit (x / 2) i j
    ∙ ground arith

bit-clear_bit : (x i j : ℕ) → bit (clear_bit x i) j ≡ (if i == j then 0 else bit x j)
unfolding bit clear_bit
bit-clear_bit x zero zero = omega arith
bit-clear_bit x zero (suc j) =
    ap (λ k. bit k j) {x = x / 2 * 2 / 2} {y = x / 2} (omega arith) ∙ ground arith
bit-clear_bit x (suc i) zero = ground arith
bit-clear_bit x (suc i) (suc j) =
    ap (λ k. bit k j) {x = (clear_bit (x / 2) i * 2 + x % 2) / 2} {y = clear_bit (x / 2) i}
      (omega arith)
    ∙ bit-clear_bit (x / 2) i j
    ∙ ground arith

-- The highest bit brackets the word.
pub highest_bit_bounds :
    (w x : ℕ) → 0 < x → x < 2 ^ w → (2 ^ highest_bit w x ≤ x) × (x < 2 * 2 ^ highest_bit w x)
unfolding highest_bit
highest_bit_bounds zero x pos lt = absurd (omega arith)
highest_bit_bounds (suc w) x pos lt = elim (Bool-cases (x / 2 == 0)) [
  | inl low ↦ rw low (ground arith)
  | inr high ↦ rw high (
      omega (
        arith,
        pow-suc 2 (highest_bit w (x / 2)),
        highest_bit_bounds w (x / 2) (ground arith) (omega (arith, pow-suc 2 w)),
      ))
]
