-- ===== src/Assign/Seats.antt =====
-- Swap and pop, with which an a leaves its b (`assign` of cth/incl/cth/algorithm/combine.hpp).
use cth.Base.{
  ℕ, ◌+◌, ◌<◌, ◌≡◌, ◌≢◌, inl, inr, refl, sym, ap, subst, ◌∙◌, Bool, true, false, List, [], ◌∷◌,
  length, ◌==◌, ==_iff, if◌then◌else◌, if-true, if-false, Bool-cases, arith, ℕ_discrete,
}
use cth.Combine.Lists.{has, has_cases, Distinct, not_both}
use cth.Assign.{replace_first, back, pop_back, unseat}

pub ==_no : (a b : ℕ) → a ≢ b → (a == b) ≡ false
==_no a b other = ground arith

-- The last element moved to the front.
abbrev rotated : ℕ → List ℕ → List ℕ
rotated first others = back (first ∷ others) ∷ pop_back (first ∷ others)

rotated-has :
    (first : ℕ) (others : List ℕ) (n : ℕ) → has (rotated first others) n ≡ has (first ∷ others) n
rotated-has first [] n = refl
rotated-has first (second ∷ others) n = ground (arith, rotated-has second others n)

rotated-length :
    (first : ℕ) (others : List ℕ) → length (rotated first others) ≡ length (first ∷ others)
rotated-length first [] = refl
rotated-length first (second ∷ others) = omega (arith, rotated-length second others)

rotated-Distinct :
    (first : ℕ) (others : List ℕ) → Distinct (first ∷ others) → Distinct (rotated first others)
rotated-Distinct first [] d = d
rotated-Distinct first (second ∷ others) d =
    let rest = rotated-Distinct second others d.1 in
    let same = rotated-has second others first in
    (ground (arith, same, rest.0, d.0), (ground (arith, same, d.0), rest.1))

pop_back-cons :
    (first : ℕ) (others : List ℕ)
    → 0 < length others
    → pop_back (first ∷ others) ≡ first ∷ pop_back others
pop_back-cons first [] some_left = absurd (omega arith)
pop_back-cons first (second ∷ others) some_left = refl

replace_first-length :
    (seats : List ℕ) (a value : ℕ) → length (replace_first seats a value) ≡ length seats
replace_first-length [] a value = refl
replace_first-length (first ∷ others) a value = ground (arith, replace_first-length others a value)

unseat-cons :
    (first second : ℕ) (others : List ℕ) (a : ℕ)
    → unseat (first ∷ second ∷ others) a
      ≡ (if first == a then rotated second others else first ∷ unseat (second ∷ others) a)
unseat-cons first second others a = elim (Bool-cases (first == a)) [
  | inl same ↦
      ap
        (λ b. pop_back (
          if b
          then back (second ∷ others) ∷ second ∷ others
          else first ∷ replace_first (second ∷ others) a (back (second ∷ others))))
        same
      ∙ sym (if-true same (rotated second others) (first ∷ unseat (second ∷ others) a))
  | inr other ↦
      ap
        (λ b. pop_back (
          if b
          then back (second ∷ others) ∷ second ∷ others
          else first ∷ replace_first (second ∷ others) a (back (second ∷ others))))
        other
      ∙ pop_back-cons first (replace_first (second ∷ others) a (back (second ∷ others)))
          (omega (arith, replace_first-length (second ∷ others) a (back (second ∷ others))))
      ∙ sym (if-false other (rotated second others) (first ∷ unseat (second ∷ others) a))
]

-- Whoever leaves is gone, and nobody else.
pub record Leaves (seats : List ℕ) (a : ℕ) (rest : List ℕ) : Type 0 where
  pub shorter : length rest + 1 ≡ length seats
  pub distinct : Distinct rest
  pub gone : has rest a ≡ false
  pub stay : (n : ℕ) → a ≢ n → has rest n ≡ has seats n

unseat-rotated :
    (first second : ℕ) (others : List ℕ) (a : ℕ)
    → first ≡ a
    → Distinct (first ∷ second ∷ others)
    → Leaves (first ∷ second ∷ others) a (rotated second others)
unseat-rotated first second others a same d = record {
  shorter = omega (arith, rotated-length second others);
  distinct = rotated-Distinct second others d.1;
  gone = rotated-has second others a ∙ ap (has (second ∷ others)) (sym same) ∙ d.0;
  stay = λ n other.
      rotated-has second others n
      ∙ sym (if-false (==_no first n (λ e. other (sym same ∙ e))) true (has (second ∷ others) n));
}

unseat-later :
    (first : ℕ) (others rest : List ℕ) (a : ℕ)
    → first ≢ a
    → Distinct (first ∷ others)
    → Leaves others a rest
    → Leaves (first ∷ others) a (first ∷ rest)
unseat-later first others rest a other d leaves = record {
  shorter = omega (arith, leaves.shorter);
  distinct = (leaves.stay first (λ e. other (sym e)) ∙ d.0, leaves.distinct);
  gone = if-false (==_no first a other) true (has rest a) ∙ leaves.gone;
  stay = λ n away. ap (λ b. if first == n then true else b) (leaves.stay n away);
}

pub unseat-Leaves :
    (seats : List ℕ) (a : ℕ) → Distinct seats → has seats a ≡ true → Leaves seats a (unseat seats a)
unseat-Leaves [] a d member = cc
unseat-Leaves (first ∷ []) a d member =
    subst (Leaves (first ∷ []) a) (sym (alone (first == a) first)) (record {
      shorter = omega arith;
      distinct = tt;
      gone = refl;
      stay = λ n away. elim (has_cases first [] a member) [
        | inl same ↦ sym (if-false (==_no first n (λ e. away (sym same ∙ e))) true false)
        | inr never ↦ absurd (not_both false never refl)
      ];
    })
  where
    alone : (b : Bool) (x : ℕ) → pop_back (if b then x ∷ [] else x ∷ []) ≡ []
    alone true x = refl
    alone false x = refl
unseat-Leaves (first ∷ second ∷ others) a d member = elim (ℕ_discrete first a) [
  | yes same ↦
      subst (Leaves (first ∷ second ∷ others) a)
        (sym (unseat-cons first second others a ∙ if-true ((==_iff first a).1 same) _ _))
        (unseat-rotated first second others a same d)
  | no other ↦
      subst (Leaves (first ∷ second ∷ others) a)
        (sym (unseat-cons first second others a ∙ if-false (==_no first a other) _ _))
        (unseat-later first (second ∷ others) (unseat (second ∷ others) a) a other d (
          unseat-Leaves (second ∷ others) a d.1 (elim (has_cases first (second ∷ others) a member) [
            | inl same ↦ absurd (other same)
            | inr deeper ↦ deeper
          ])))
]
