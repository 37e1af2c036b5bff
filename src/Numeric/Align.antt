-- ===== src/Numeric/Align.antt =====
-- `align_to` (cth/incl/cth/numeric.hpp).
use cth.Base.{ℕ, ◌+◌, ◌-◌, ◌*◌, ◌/◌, ◌%◌, ◌^◌, ◌≤◌, ◌<◌, ◌≡◌, sym, ap, subst, ◌∙◌, arith}
use cth.Base.Words.{add_word-eq}
use native.Mathlib.Nat.{div-add-mod, mod-lt, mul-mod_left, one-le-pow}
use cth.Numeric.{align_to_power, align_to_padded}

-- `align_to` of a power of two returns the least multiple that is not below its argument, if the
-- sum does not wrap.
pub align_to_power-least :
    (w k x : ℕ)
    → x + 2 ^ k < 2 ^ w
    → (x ≤ align_to_power w k x)
      × (align_to_power w k x < x + 2 ^ k)
      × (align_to_power w k x % 2 ^ k ≡ 0)
unfolding align_to_power
align_to_power-least w k x lt =
    subst
      (λ t.
        (x ≤ t / 2 ^ k * 2 ^ k) × (t / 2 ^ k * 2 ^ k < x + 2 ^ k) × (t / 2 ^ k * 2 ^ k % 2 ^ k ≡ 0))
      (sym (add_word-eq w x (2 ^ k - 1) (omega (arith, unit))))
      (omega (arith, unit, split, rest), omega (arith, unit, split, rest), mul-mod_left _ (2 ^ k))
  where
    unit : 1 ≤ 2 ^ k
    unit = one-le-pow k 2 (omega arith)

    split : 2 ^ k * ((x + (2 ^ k - 1)) / 2 ^ k) + (x + (2 ^ k - 1)) % 2 ^ k ≡ x + (2 ^ k - 1)
    split = div-add-mod (x + (2 ^ k - 1)) (2 ^ k)

    rest : (x + (2 ^ k - 1)) % 2 ^ k < 2 ^ k
    rest = mod-lt (x + (2 ^ k - 1)) unit

-- `align_to` of another multiple returns the least multiple above its argument, if the sum does not
-- wrap: an argument that is a multiple already moves on by one multiple.
pub align_to_padded-above :
    (w m x : ℕ)
    → 0 < m
    → x + m < 2 ^ w
    → (x < align_to_padded w m x)
      × (align_to_padded w m x ≤ x + m)
      × (align_to_padded w m x % m ≡ 0)
      × (x % m ≡ 0 → align_to_padded w m x ≡ x + m)
unfolding align_to_padded
align_to_padded-above w m x pos lt =
    subst (λ t. (x < t) × (t ≤ x + m) × (t % m ≡ 0) × (x % m ≡ 0 → t ≡ x + m))
      (sym (add_word-eq w x (m - x % m) (omega arith)))
      (omega (arith, rest), omega arith, multiple, λ exact. omega arith)
  where
    rest : x % m < m
    rest = mod-lt x pos

    multiple : (x + (m - x % m)) % m ≡ 0
    multiple =
        ap (λ t. t % m) {x = x + (m - x % m)} {y = (x / m + 1) * m}
          (omega (arith, rest, div-add-mod x m))
        ∙ mul-mod_left (x / m + 1) m
