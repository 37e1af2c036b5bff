-- ===== src/Miniram/Float/Units.antt =====
-- Sizes of basic_miniram as units of a power of two, and the classes that they have
-- (cth/incl/cth/data/inl/miniram.inl).
use cth.Base.{
  ℕ, zero, suc, ◌+◌, ◌-◌, ◌*◌, ◌/◌, ◌%◌, ◌^◌, ◌≤◌, ◌<◌, ◌≡◌, refl, sym, ap, subst, ◌∙◌, ◌⊎◌, inl,
  inr, arith, ◌==◌, if◌then◌else◌, lt→ltb, ltb-false, if-true, if-false, ap₂, ◌≢◌, ==_iff, dec_lt,
  dec_le, ℕ_discrete,
}
use cth.Base.Bits.{highest_bit, highest_bit_bounds}
use native.Mathlib.Nat.{pow-suc, div-add-mod, mod-lt, one-le-pow, pow-le-pow_right}
use native.Mathlib.Numerals.{towards_suc}
use cth.Miniram.Float.{floor_to_float, ceil_to_float, float_size}

-- A size of 8 or more is `q` units of `2 ^ k` with `8 ≤ q < 16`, and a rest below one unit.
pub record Scaled (w size k q : ℕ) : Type 0 where
  pub exponent : highest_bit w size ≡ k + 3
  pub units : size / 2 ^ k ≡ q
  pub low : 8 ≤ q
  pub high : q < 16
  pub whole : 2 ^ k * q + size % 2 ^ k ≡ size
  pub rest : size % 2 ^ k < 2 ^ k
  pub unit_pos : 0 < 2 ^ k

pow-add-three : (k : ℕ) → 2 ^ (k + 3) ≡ 8 * 2 ^ k
pow-add-three k =
    simp towards_suc (omega (arith, pow-suc 2 k, pow-suc 2 (suc k), pow-suc 2 (suc (suc k))))

pub scaled : (w size : ℕ) → 8 ≤ size → size < 2 ^ w → (k : ℕ) × (q : ℕ) × Scaled w size k q
scaled w size big lt = (
  k,
  size / 2 ^ k,
  record {
    exponent = exponent;
    units = refl;
    low = grind (arith, whole, rest, bounds, pow3);
    high = grind (arith, whole, rest, bounds, pow3);
    whole = whole;
    rest = rest;
    unit_pos = unit_pos;
  },
)
  where
    k : ℕ
    k = highest_bit w size - 3

    bounds : (2 ^ highest_bit w size ≤ size) × (size < 2 * 2 ^ highest_bit w size)
    bounds = highest_bit_bounds w size (omega arith) lt

    exponent : highest_bit w size ≡ k + 3
    exponent = elim (dec_le 3 (highest_bit w size)) [
      | yes h ↦ omega arith
      | no h ↦ absurd (
          omega (
            arith,
            bounds,
            pow-le-pow_right {n = 2} (omega arith) {i = highest_bit w size} {j = 2} (omega arith),
          ))
    ]

    pow3 : 2 ^ highest_bit w size ≡ 8 * 2 ^ k
    pow3 = ap (λ t. 2 ^ t) exponent ∙ pow-add-three k

    unit_pos : 0 < 2 ^ k
    unit_pos = one-le-pow k 2 (omega arith)

    whole : 2 ^ k * (size / 2 ^ k) + size % 2 ^ k ≡ size
    whole = div-add-mod size (2 ^ k)

    rest : size % 2 ^ k < 2 ^ k
    rest = mod-lt size unit_pos

-- A size below 8 is its own class.
pub floor_to_float-small : (w size : ℕ) → size < 8 → floor_to_float w size ≡ size
unfolding floor_to_float
floor_to_float-small w size lt = if-true (lt→ltb _ 8 lt) _ _

pub ceil_to_float-small : (w size : ℕ) → size < 8 → ceil_to_float w size ≡ size
unfolding ceil_to_float
ceil_to_float-small w size lt = if-true (lt→ltb _ 8 lt) _ _

pub float_size-small : (f : ℕ) → f < 8 → float_size f ≡ f
unfolding float_size
float_size-small f lt = if-true (lt→ltb _ 8 lt) _ _

-- The size of class `8 * k + q` with a mantissa of three bits.
float_size-units : (k q : ℕ) → 8 ≤ q → q < 16 → float_size (8 * k + q) ≡ q * 2 ^ k
unfolding float_size
float_size-units k q low high =
    if-false (ltb-false (8 * k + q) 8 (omega arith)) _ _ ∙ ap₂ (λ m e. m * 2 ^ e) mantissa exponent
  where
    mantissa : (8 * k + q) % 8 + 8 ≡ q
    mantissa = omega arith

    exponent : (8 * k + q) / 8 - 1 ≡ k
    exponent = omega arith

at_class : {f g v : ℕ} → f ≡ g → float_size f ≡ v → float_size g ≡ v
at_class {v = v} eq h = subst (λ x. float_size x ≡ v) eq h

float_size-next : (k q : ℕ) → 8 ≤ q → q < 16 → float_size (8 * k + q + 1) ≡ (q + 1) * 2 ^ k
float_size-next k q low high = elim (dec_lt q 15) [
  | yes h ↦ at_class (omega arith) (float_size-units k (q + 1) (omega arith) (omega arith))
  | no h ↦
      let class : 8 * k + q + 1 ≡ 8 * (k + 1) + 8 = omega arith in
      ap float_size class
      ∙ float_size-units (k + 1) 8 (omega arith) (omega arith)
      ∙ top (omega arith)
]
  where
    top : q ≡ 15 → 8 * 2 ^ (k + 1) ≡ (q + 1) * 2 ^ k
    top h = simp towards_suc (omega (arith, pow-suc 2 k, ap (λ x. x * 2 ^ k) h))

module _ {w size k q : ℕ} (s : Scaled w size k q) where
  pub begin_scaled : highest_bit w size - 3 ≡ k
  begin_scaled = omega (arith, Scaled.exponent s)

  pub big_scaled : 8 ≤ size
  big_scaled = ground (arith, Scaled.whole s, Scaled.unit_pos s, Scaled.low s)

  -- The class of a scaled size.
  pub floor_scaled : floor_to_float w size ≡ 8 * k + q
  unfolding floor_to_float
  floor_scaled =
      if-false (ltb-false _ 8 big_scaled) _ _
      ∙ ap (λ b. (b + 1) * 8 + size / 2 ^ b % 8) begin_scaled
      ∙ ap (λ u. (k + 1) * 8 + u % 8) (Scaled.units s)
      ∙ omega (arith, Scaled.low s, Scaled.high s)

  pub ceil_scaled :
      (size % 2 ^ k ≡ 0 × ceil_to_float w size ≡ 8 * k + q)
      ⊎ (size % 2 ^ k ≢ 0 × ceil_to_float w size ≡ 8 * k + q + 1)
  unfolding ceil_to_float
  ceil_scaled = elim (ℕ_discrete (size % 2 ^ k) 0) [
    | yes h ↦ inl (
      h,
      ceil_at
          ∙ if-true ((==_iff (size % 2 ^ k) 0).1 h) _ _
          ∙ omega (arith, Scaled.low s, Scaled.high s),
    )
    | no h ↦ inr (
      h,
      ceil_at
          ∙ if-false {b = size % 2 ^ k == 0} (ground (arith, h)) _ _
          ∙ omega (arith, Scaled.low s, Scaled.high s),
    )
  ]
    where
      ceil_at :
          ceil_to_float w size
          ≡ (if size % 2 ^ k == 0 then (k + 1) * 8 + q % 8 else (k + 1) * 8 + (q % 8 + 1))
      ceil_at =
          if-false (ltb-false _ 8 big_scaled) _ _
          ∙ ap
              (λ b.
                if size % 2 ^ b == 0
                then (b + 1) * 8 + size / 2 ^ b % 8
                else (b + 1) * 8 + (size / 2 ^ b % 8 + 1))
              begin_scaled
          ∙ ap (λ u. if size % 2 ^ k == 0 then (k + 1) * 8 + u % 8 else (k + 1) * 8 + (u % 8 + 1))
              (Scaled.units s)

  -- The size of the class, and of the class after it, in units.
  pub size_here : float_size (8 * k + q) ≡ q * 2 ^ k
  size_here = float_size-units k q (Scaled.low s) (Scaled.high s)

  pub size_next : float_size (8 * k + q + 1) ≡ (q + 1) * 2 ^ k
  size_next = float_size-next k q (Scaled.low s) (Scaled.high s)

at_seven : float_size 7 < float_size 8
unfolding float_size
at_seven = omega arith

-- Every class stands for more than the class before it.
pub float_size-increases : (f : ℕ) → float_size f < float_size (f + 1)
float_size-increases f = elim (dec_lt f 7) [
  | yes h ↦ omega (arith, float_size-small f (omega arith), float_size-small (f + 1) (omega arith))
  | no h ↦ elim (dec_lt f 8) [
    | yes h' ↦ first (omega arith)
    | no h' ↦ step (f / 8 - 1) (f % 8 + 8) (omega arith) (omega arith) (omega arith)
  ]
]
  where
    first : f ≡ 7 → float_size f < float_size (f + 1)
    first eq = subst (λ x. float_size x < float_size (x + 1)) (sym eq) at_seven

    step : (k q : ℕ) → f ≡ 8 * k + q → 8 ≤ q → q < 16 → float_size f < float_size (f + 1)
    step k q eq low high =
        subst (λ x. float_size x < float_size (x + 1)) (sym eq)
          (grind (
            arith,
            float_size-units k q low high,
            float_size-next k q low high,
            one-le-pow k 2 (omega arith),
          ))

float_size_mono : (a d : ℕ) → float_size a ≤ float_size (a + d)
float_size_mono a zero =
    subst (λ x. float_size a ≤ float_size x) {x = a} (omega arith) (omega arith)
float_size_mono a (suc d) =
    subst (λ x. float_size a ≤ float_size x) {x = a + d + 1} (omega arith)
      (omega (arith, float_size_mono a d, float_size-increases (a + d)))

-- A greater class stands for more.
pub float_size_le : (a b : ℕ) → a ≤ b → float_size a ≤ float_size b
float_size_le a b le =
    subst (λ x. float_size a ≤ float_size x) (omega arith) (float_size_mono a (b - a))

pub float_size_lt : (a b : ℕ) → a < b → float_size a < float_size b
float_size_lt a b lt = omega (arith, float_size-increases a, float_size_le (a + 1) b (omega arith))
