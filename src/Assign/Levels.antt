-- ===== src/Assign/Levels.antt =====
-- The levels of `assign`, which rise to the most that each b may have
-- (cth/incl/cth/algorithm/combine.hpp).
use cth.Base.{
  ℕ, zero, suc, ◌+◌, ◌≤◌, ◌<◌, ◌≡◌, refl, sym, ap, ap₂, ◌∙◌, Bool, true, false, List, [], ◌∷◌,
  length, get_or, replicate, ltb, if◌then◌else◌, Bool-cases, inl, inr, arith,
}
use cth.Combine.Lists.{has, not_both}
use cth.Assign.{raise, sum, all_below, all_options_below}

-- No level is above the most.
abbrev pub Fit : List ℕ → List ℕ → Type 0
Fit [] [] = Unit
Fit [] (most ∷ b_max) = ⊥
Fit (level ∷ levels) [] = ⊥
Fit (level ∷ levels) (most ∷ b_max) = (level ≤ most) × Fit levels b_max

pub Fit-length : (levels b_max : List ℕ) → Fit levels b_max → length levels ≡ length b_max
Fit-length [] [] fit = refl
Fit-length [] (most ∷ b_max) fit = absurd fit
Fit-length (level ∷ levels) [] fit = absurd fit
Fit-length (level ∷ levels) (most ∷ b_max) fit = ap suc (Fit-length levels b_max fit.1)

pub Fit-le :
    (levels b_max : List ℕ) (b : ℕ) → Fit levels b_max → get_or levels b 0 ≤ get_or b_max b 0
Fit-le [] [] b fit = omega arith
Fit-le [] (most ∷ b_max) b fit = absurd fit
Fit-le (level ∷ levels) [] b fit = absurd fit
Fit-le (level ∷ levels) (most ∷ b_max) zero fit = fit.0
Fit-le (level ∷ levels) (most ∷ b_max) (suc b) fit = Fit-le levels b_max b fit.1

pub Fit-sum : (levels b_max : List ℕ) → Fit levels b_max → sum levels ≤ sum b_max
Fit-sum [] [] fit = omega arith
Fit-sum [] (most ∷ b_max) fit = absurd fit
Fit-sum (level ∷ levels) [] fit = absurd fit
Fit-sum (level ∷ levels) (most ∷ b_max) fit = omega (arith, fit.0, Fit-sum levels b_max fit.1)

pub zero-Fit : (b_max : List ℕ) → Fit (replicate (length b_max) 0) b_max
zero-Fit [] = tt
zero-Fit (most ∷ b_max) = (omega arith, zero-Fit b_max)

pub zero-sum : (n : ℕ) → sum (replicate n 0) ≡ 0
zero-sum zero = refl
zero-sum (suc n) = omega (arith, zero-sum n)

-- One level and the rest, by whether the level rises.
abbrev raised_by : Bool → ℕ → List ℕ × Bool → List ℕ × Bool
raised_by rises level rest = if rises then (suc level ∷ rest.0, true) else (level ∷ rest.0, rest.1)

at_most : (level most : ℕ) → ltb level most ≡ false → level ≤ most → level ≡ most
at_most level most full fit = ground arith

pub raise-Fit : (levels b_max : List ℕ) → Fit levels b_max → Fit (raise levels b_max).0 b_max
raise-Fit [] [] fit = tt
raise-Fit [] (most ∷ b_max) fit = absurd fit
raise-Fit (level ∷ levels) [] fit = absurd fit
raise-Fit (level ∷ levels) (most ∷ b_max) fit = ground (arith, fit.0, raise-Fit levels b_max fit.1)

pub raise-le :
    (levels b_max : List ℕ) (b : ℕ) → get_or levels b 0 ≤ get_or (raise levels b_max).0 b 0
raise-le [] b_max b = omega arith
raise-le (level ∷ levels) [] b = omega arith
raise-le (level ∷ levels) (most ∷ b_max) zero = ground arith
raise-le (level ∷ levels) (most ∷ b_max) (suc b) = ground (arith, raise-le levels b_max b)

raise-sum_le : (levels b_max : List ℕ) → sum levels ≤ sum (raise levels b_max).0
raise-sum_le [] b_max = omega arith
raise-sum_le (level ∷ levels) [] = omega arith
raise-sum_le (level ∷ levels) (most ∷ b_max) = ground (arith, raise-sum_le levels b_max)

pub raise-sum :
    (levels b_max : List ℕ)
    → (raise levels b_max).1 ≡ true
    → sum levels + 1 ≤ sum (raise levels b_max).0
raise-sum [] b_max rose = cc
raise-sum (level ∷ levels) [] rose = cc
raise-sum (level ∷ levels) (most ∷ b_max) rose =
    ground (arith, raise-sum_le levels b_max, raise-sum levels b_max)

-- Levels of which none rose are as high as they may be.
pub raise_full :
    (levels b_max : List ℕ)
    → Fit levels b_max
    → (raise levels b_max).1 ≡ false
    → (raise levels b_max).0 ≡ b_max
raise_full [] [] fit rose = refl
raise_full [] (most ∷ b_max) fit rose = absurd fit
raise_full (level ∷ levels) [] fit rose = absurd fit
raise_full (level ∷ levels) (most ∷ b_max) fit rose = elim (Bool-cases (ltb level most)) [
  | inl rises ↦ absurd (
      not_both (raised_by (ltb level most) level (raise levels b_max)).1
        (ap (λ t. (raised_by t level (raise levels b_max)).1) rises) rose)
  | inr full ↦
      ap (λ t. (raised_by t level (raise levels b_max)).0) full
      ∙ ap₂ (λ first others. first ∷ others) (at_most level most full fit.0)
          (raise_full levels b_max fit.1
            (sym (ap (λ t. (raised_by t level (raise levels b_max)).1) full) ∙ rose))
]

all_below-lt :
    (bound : ℕ) (xs : List ℕ) (n : ℕ) → all_below bound xs ≡ true → has xs n ≡ true → n < bound
all_below-lt bound [] n below member = absurd (not_both false member refl)
all_below-lt bound (first ∷ others) n below member = ground (arith, all_below-lt bound others n)

-- The check says of each option that it is a number of a b.
pub all_options_below-lt :
    (bound : ℕ) (options : List (List ℕ)) (a b : ℕ)
    → all_options_below bound options ≡ true
    → has (get_or options a []) b ≡ true
    → b < bound
all_options_below-lt bound [] a b below member = absurd (not_both false member refl)
all_options_below-lt bound (first ∷ others) zero b below member =
    all_below-lt bound first b (ground arith) member
all_options_below-lt bound (first ∷ others) (suc a) b below member =
    all_options_below-lt bound others a b (ground arith) member
