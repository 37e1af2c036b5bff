-- ===== src/Numeric/Power.antt =====
-- `pow` by repeated squaring (cth/incl/cth/numeric.hpp).
use cth.Base.{
  ℕ, zero, suc, ◌+◌, ◌*◌, ◌/◌, ◌%◌, ◌^◌, ◌<◌, ◌≡◌, sym, ap, subst, ◌∙◌, ok, ◌==◌, if◌then◌else◌,
  if-true, if-false, arith, true, Bool-cases, inl, inr,
}
use native.Mathlib.Nat.{
  div-add-mod, add-mul-mod_self_left, mod-eq_of_lt, pow-suc, pow-succ', pow-zero, mul_comm,
  one-le-pow, mod-lt, pow-le-pow_right,
}
use cth.Numeric.{pow_loop, pow}

mul-mod_first : (a b m : ℕ) → a % m * b % m ≡ a * b % m
mul-mod_first a b m = sym (add-mul-mod_self_left (a % m * b) m (a / m * b)) ∙ ap (λ t. t % m) whole
  where
    whole : a % m * b + m * (a / m * b) ≡ a * b
    whole = omega arith ∙ ap (λ t. t * b) (div-add-mod a m)

mul-mod_second : (a b m : ℕ) → a * (b % m) % m ≡ a * b % m
mul-mod_second a b m =
    ap (λ t. t % m) (mul_comm a (b % m)) ∙ mul-mod_first b a m ∙ ap (λ t. t % m) (mul_comm b a)

pow-mod : (b k m : ℕ) → (b % m) ^ k % m ≡ b ^ k % m
pow-mod b zero m = ap (λ t. t % m) (pow-zero (b % m) ∙ sym (pow-zero b))
pow-mod b (suc k) m =
    ap (λ t. t % m) (pow-suc (b % m) k)
    ∙ mul-mod_second ((b % m) ^ k) b m
    ∙ sym (mul-mod_first ((b % m) ^ k) b m)
    ∙ ap (λ t. t * b % m) (pow-mod b k m)
    ∙ mul-mod_first (b ^ k) b m
    ∙ ap (λ t. t % m) (sym (pow-suc b k))

pow_square : (b k : ℕ) → (b * b) ^ k ≡ b ^ (k + k)
pow_square b zero =
    pow-zero (b * b) ∙ sym (pow-zero b) ∙ ap (λ t. b ^ t) {x = 0} {y = 0 + 0} (omega arith)
pow_square b (suc k) =
    pow-suc (b * b) k
    ∙ ap (λ t. t * (b * b)) (pow_square b k)
    ∙ omega arith
    ∙ ap (λ t. t * b) (sym (pow-suc b (k + k)))
    ∙ sym (pow-suc b (suc (k + k)))
    ∙ ap (λ t. b ^ t) {x = suc (suc (k + k))} {y = suc k + suc k} (omega arith)

-- One round does not change what is still to be computed.
round :
    (w result base power : ℕ)
    → (if power % 2 == 1 then result * base % 2 ^ w else result)
        * (base * base % 2 ^ w) ^ (power / 2)
        % 2 ^ w
      ≡ result * base ^ power % 2 ^ w
round w result base power = elim (Bool-cases (power % 2 == 1)) [
  | inl odd ↦
      ap (λ t. t * squared % 2 ^ w) (if-true odd _ _)
      ∙ reduced (result * base % 2 ^ w)
      ∙ mul-mod_first (result * base) whole (2 ^ w)
      ∙ ap (λ t. t % 2 ^ w)
          (omega arith ∙ ap (λ t. result * t) (sym (split_odd (ground (arith, odd)))))
  | inr even ↦
      ap (λ t. t * squared % 2 ^ w) (if-false even _ _)
      ∙ reduced result
      ∙ ap (λ t. result * t % 2 ^ w) (sym (split_even (ground (arith, even))))
]
  where
    squared : ℕ
    squared = (base * base % 2 ^ w) ^ (power / 2)

    whole : ℕ
    whole = (base * base) ^ (power / 2)

    reduced : (r : ℕ) → r * squared % 2 ^ w ≡ r * whole % 2 ^ w
    reduced r =
        sym (mul-mod_second r squared (2 ^ w))
        ∙ ap (λ t. r * t % 2 ^ w) (pow-mod (base * base) (power / 2) (2 ^ w))
        ∙ mul-mod_second r whole (2 ^ w)

    split_odd : power % 2 ≡ 1 → base ^ power ≡ base * whole
    split_odd odd =
        ap (λ t. base ^ t) {x = power} {y = suc (power / 2 + power / 2)} (omega arith)
        ∙ pow-succ' base (power / 2 + power / 2)
        ∙ ap (λ t. base * t) (sym (pow_square base (power / 2)))

    split_even : power % 2 ≡ 0 → base ^ power ≡ whole
    split_even even =
        ap (λ t. base ^ t) {x = power} {y = power / 2 + power / 2} (omega arith)
        ∙ sym (pow_square base (power / 2))

-- Nothing is left to be computed for the power 0.
unchanged :
    (w result base power : ℕ) → result < 2 ^ w → power ≡ 0 → result ≡ result * base ^ power % 2 ^ w
unchanged w result base power small h =
    sym (mod-eq_of_lt small)
    ∙ ap (λ t. t % 2 ^ w) {x = result} {y = result * 1} (omega arith)
    ∙ ap (λ t. result * t % 2 ^ w) (sym (pow-zero base))
    ∙ ap (λ t. result * base ^ t % 2 ^ w) (sym h)

round_small :
    (w result base power : ℕ)
    → result < 2 ^ w
    → (if power % 2 == 1 then result * base % 2 ^ w else result) < 2 ^ w
round_small w result base power small = elim (Bool-cases (power % 2 == 1)) [
  | inl odd ↦
      subst (λ t. t < 2 ^ w) (sym (if-true odd _ _))
        (mod-lt (result * base) (one-le-pow w 2 (omega arith)))
  | inr even ↦ subst (λ t. t < 2 ^ w) (sym (if-false even _ _)) small
]

pow_loop-eq :
    (w fuel result base power : ℕ)
    → result < 2 ^ w
    → power < 2 ^ fuel
    → pow_loop w fuel result base power ≡ ok (result * base ^ power % 2 ^ w)
unfolding pow_loop
pow_loop-eq w zero result base power small bound =
    if-true (zero_test (omega arith)) _ _
    ∙ ap ok (unchanged w result base power small (omega arith))
  where
    zero_test : power ≡ 0 → (power == 0) ≡ true
    zero_test h = ground arith
pow_loop-eq w (suc fuel) result base power small bound = elim (Bool-cases (power == 0)) [
  | inl stop ↦ if-true stop _ _ ∙ ap ok (unchanged w result base power small (ground (arith, stop)))
  | inr more ↦
      if-false more _ _
      ∙ pow_loop-eq w fuel _ (base * base % 2 ^ w) (power / 2)
          (round_small w result base power small) (omega (arith, pow-suc 2 fuel))
      ∙ ap ok (round w result base power)
]

-- `pow` with a power that fits its type ends and returns the power modulo `2 ^ w`.
pub pow-eq :
    (w v base power : ℕ) → 0 < w → power < 2 ^ v → pow w v base power ≡ ok (base ^ power % 2 ^ w)
unfolding pow
pow-eq w v base power pos bound =
    pow_loop-eq w v 1 base power
      (omega (arith, pow-le-pow_right {n = 2} (omega arith) {i = 1} {j = w} pos)) bound
    ∙ ap (λ t. ok (t % 2 ^ w)) {x = 1 * base ^ power} (omega arith)
