-- ===== src/Miniram/Float/Laws.antt =====
-- How the size classes of basic_miniram bound the sizes in them
-- (cth/incl/cth/data/inl/miniram.inl).
use cth.Base.{
  ℕ, ◌+◌, ◌-◌, ◌*◌, ◌^◌, ◌≤◌, ◌<◌, ◌≡◌, sym, ap, subst, ◌↔◌, inl, inr, arith, dec_lt, dec_le,
}
use native.Mathlib.Nat.{mod-eq_of_lt}
use cth.Miniram.Float.{floor_to_float, ceil_to_float, float_size, to_uint}
use cth.Miniram.Float.Units.{
  Scaled, scaled, floor_to_float-small, ceil_to_float-small, float_size-small, floor_scaled,
  ceil_scaled, size_here, size_next, float_size-increases, float_size_le, float_size_lt,
}

-- The class that `floor_to_float` gives a size of `w` bits stands for at most the size, and the class
-- after it for more.
pub floor-bounds :
    (w size : ℕ)
    → size < 2 ^ w
    → float_size (floor_to_float w size) ≤ size × size < float_size (floor_to_float w size + 1)
floor-bounds w size lt = elim (dec_lt size 8) [
  | yes h ↦
      subst (λ f. float_size f ≤ size × size < float_size (f + 1))
        (sym (floor_to_float-small w size h))
        (small (float_size-small size h) (float_size-increases size))
  | no h ↦ large (scaled w size (omega arith) lt)
]
  where
    small :
        float_size size ≡ size
        → float_size size < float_size (size + 1)
        → float_size size ≤ size × size < float_size (size + 1)
    small e l = (omega arith, omega arith)

    large :
        (k : ℕ) × (q : ℕ) × Scaled w size k q
        → float_size (floor_to_float w size) ≤ size × size < float_size (floor_to_float w size + 1)
    large (k, q, s) =
        subst (λ f. float_size f ≤ size × size < float_size (f + 1)) (sym (floor_scaled s))
          (
            grind (arith, size_here s, size_next s, Scaled.whole s, Scaled.rest s),
            grind (arith, size_here s, size_next s, Scaled.whole s, Scaled.rest s),
          )

-- The class that `ceil_to_float` gives a size of `w` bits stands for at least the size, and, unless the
-- size is 0, the class before it for less.
pub ceil-bounds :
    (w size : ℕ)
    → size < 2 ^ w
    → size ≤ float_size (ceil_to_float w size)
      × (0 < size → float_size (ceil_to_float w size - 1) < size)
ceil-bounds w size lt = elim (dec_lt size 8) [
  | yes h ↦ subst Bounds (sym (ceil_to_float-small w size h)) (
    omega (arith, float_size-small size h),
    λ pos. omega (arith, float_size-small (size - 1) (omega arith)),
  )
  | no h ↦ large (scaled w size (omega arith) lt)
]
  where
    Bounds : ℕ → Type 0
    Bounds f = size ≤ float_size f × (0 < size → float_size (f - 1) < size)

    at_before : {u : ℕ} → (f : ℕ) → float_size f ≡ u → u < size → float_size (f + 1 - 1) < size
    at_before f e l = subst (λ x. float_size x < size) {x = f} (omega arith) (omega arith)

    large : (k : ℕ) × (q : ℕ) × Scaled w size k q → Bounds (ceil_to_float w size)
    large (k, q, s) = elim (ceil_scaled s) [
      | inl (exact, eq) ↦ subst Bounds (sym eq) (
        grind (arith, size_here s, Scaled.whole s),
        λ pos. grind (
          arith,
          size_here s,
          Scaled.whole s,
          float_size_lt (8 * k + q - 1) (8 * k + q) (omega (arith, Scaled.low s)),
        ),
      )
      | inr (more, eq) ↦ subst Bounds (sym eq) (
        grind (arith, size_next s, Scaled.whole s, Scaled.rest s),
        λ pos. at_before (8 * k + q) (size_here s) (grind (arith, Scaled.whole s)),
      )
    ]

-- The bin of a block of `w` bits is the class that `ceil_to_float` gives a size or a later one, if and
-- only if the block is at least as long as this class stands for.
pub ceil_le_floor :
    (w size block : ℕ)
    → block < 2 ^ w
    → ceil_to_float w size ≤ floor_to_float w block ↔ float_size (ceil_to_float w size) ≤ block
ceil_le_floor w size block lt = (above, below)
  where
    bounds :
        float_size (floor_to_float w block) ≤ block
        × block < float_size (floor_to_float w block + 1)
    bounds = floor-bounds w block lt

    above :
        ceil_to_float w size ≤ floor_to_float w block → float_size (ceil_to_float w size) ≤ block
    above le =
        omega (arith, bounds.0, float_size_le (ceil_to_float w size) (floor_to_float w block) le)

    below :
        float_size (ceil_to_float w size) ≤ block → ceil_to_float w size ≤ floor_to_float w block
    below le = elim (dec_le (ceil_to_float w size) (floor_to_float w block)) [
      | yes h ↦ h
      | no h ↦ absurd (
          omega (
            arith,
            bounds.1,
            float_size_le (floor_to_float w block + 1) (ceil_to_float w size) (omega arith),
          ))
    ]

-- The class of a size that is not 0 stands for neither 0 nor more than the size.
pub to_uint-floor :
    (w size : ℕ)
    → 0 < size
    → size < 2 ^ w
    → 0 < to_uint w (floor_to_float w size) × to_uint w (floor_to_float w size) ≤ size
unfolding to_uint
to_uint-floor w size pos lt =
    subst (λ x. 0 < x × x ≤ size) (sym (mod-eq_of_lt (omega (arith, floor-bounds w size lt))))
      (positive, omega (arith, floor-bounds w size lt))
  where
    class : ℕ
    class = floor_to_float w size

    positive : 0 < float_size class
    positive = elim (dec_lt 0 class) [
      | yes h ↦ omega (arith, float_size_lt 0 class h)
      | no h ↦ absurd (
          omega (
            arith,
            floor-bounds w size lt,
            float_size-small 1 (omega arith),
            ap (λ f. float_size (f + 1)) {x = class} {y = 0} (omega arith),
          ))
    ]

-- A class that stands for a number of `w` bits.
pub to_uint-eq : (w f : ℕ) → float_size f < 2 ^ w → to_uint w f ≡ float_size f
unfolding to_uint
to_uint-eq w f lt = mod-eq_of_lt lt
