-- ===== src/Assign/Vacant.antt =====
-- How many a's have no b, and how many different numbers there are below a bound (`assign` of
-- cth/incl/cth/algorithm/combine.hpp).
use cth.Base.{
  ℕ, zero, suc, ◌≤◌, ◌<◌, ◌≡◌, ◌≢◌, ◌↔◌, refl, sym, ap, ◌∙◌, true, false, List, [], ◌∷◌, length,
  get_or, replicate, ◌==◌, ==_iff, if◌then◌else◌, if-true, if-false, arith,
}
use cth.Combine.Lists.{has, Distinct, Within-length}
use cth.Assign.Seats.{==_no}

-- How many a's have no b.
abbrev pub vacant : ℕ → List ℕ → ℕ
vacant unassigned [] = 0
vacant unassigned (first ∷ others) =
    if first == unassigned then suc (vacant unassigned others) else vacant unassigned others

==_same :
    (unassigned x y : ℕ)
    → (x ≡ unassigned) ↔ (y ≡ unassigned)
    → (x == unassigned) ≡ (y == unassigned)
==_same unassigned x y same = ground arith

pub vacant_same :
    (unassigned : ℕ) (xs ys : List ℕ)
    → length xs ≡ length ys
    → ((n : ℕ) → (get_or xs n unassigned ≡ unassigned) ↔ (get_or ys n unassigned ≡ unassigned))
    → vacant unassigned xs ≡ vacant unassigned ys
vacant_same unassigned [] [] sizes same = refl
vacant_same unassigned [] (y ∷ ys) sizes same = absurd (omega arith)
vacant_same unassigned (x ∷ xs) [] sizes same = absurd (omega arith)
vacant_same unassigned (x ∷ xs) (y ∷ ys) sizes same = ground (
  arith,
  ==_same unassigned x y (same 0),
  vacant_same unassigned xs ys (omega arith) (λ n. same (suc n)),
)

-- One a more has a b.
pub vacant_less :
    (unassigned : ℕ) (xs ys : List ℕ) (k : ℕ)
    → length xs ≡ length ys
    → k < length xs
    → get_or xs k unassigned ≡ unassigned
    → ((n : ℕ)
        → (get_or ys n unassigned ≡ unassigned) ↔ (get_or xs n unassigned ≡ unassigned) × (n ≢ k))
    → vacant unassigned xs ≡ suc (vacant unassigned ys)
vacant_less unassigned [] ys k sizes bound free same = absurd (omega arith)
vacant_less unassigned (x ∷ xs) [] k sizes bound free same = absurd (omega arith)
vacant_less unassigned (x ∷ xs) (y ∷ ys) zero sizes bound free same =
    if-true ((==_iff x unassigned).1 free) (suc (vacant unassigned xs)) (vacant unassigned xs)
    ∙ ap suc (
        vacant_same unassigned xs ys (omega arith)
          (λ n. ((λ e. (same (suc n)).1 (e, (λ z. omega arith))), (λ e. ((same (suc n)).0 e).0)))
        ∙ sym (
            if-false (==_no y unassigned (λ e. ((same 0).0 e).1 refl)) (suc (vacant unassigned ys))
              (vacant unassigned ys)))
vacant_less unassigned (x ∷ xs) (y ∷ ys) (suc k) sizes bound free same = ground (
  arith,
  ==_same unassigned x y ((λ e. (same 0).1 (e, (λ z. omega arith))), (λ e. ((same 0).0 e).0)),
  vacant_less unassigned xs ys k (omega arith) (omega arith) free (λ n. (
    (λ e. (((same (suc n)).0 e).0, (λ z. ((same (suc n)).0 e).1 (ap suc z)))),
    (λ e. (same (suc n)).1 (e.0, (λ z. e.1 (omega arith)))),
  )),
)

-- The numbers below `n`.
abbrev upto : ℕ → List ℕ
upto zero = []
upto (suc n) = n ∷ upto n

upto-has : (n m : ℕ) → m < n → has (upto n) m ≡ true
upto-has zero m bound = absurd (omega arith)
upto-has (suc n) m bound = ground (arith, upto-has n m)

upto-length : (n : ℕ) → length (upto n) ≡ n
upto-length zero = refl
upto-length (suc n) = ap suc (upto-length n)

pub Distinct-length :
    (xs : List ℕ) (n : ℕ) → Distinct xs → ((m : ℕ) → has xs m ≡ true → m < n) → length xs ≤ n
Distinct-length xs n d below =
    omega (
      arith,
      upto-length n,
      Within-length xs (upto n) d (λ m member. upto-has n m (below m member)),
    )

pub vacant_none :
    (unassigned : ℕ) (xs : List ℕ)
    → ((n : ℕ) → n < length xs → get_or xs n unassigned ≢ unassigned)
    → vacant unassigned xs ≡ 0
vacant_none unassigned [] seated = refl
vacant_none unassigned (first ∷ others) seated =
    if-false (==_no first (seated 0 (omega arith))) (suc (vacant unassigned others))
      (vacant unassigned others)
    ∙ vacant_none unassigned others (λ n bound. seated (suc n) (omega arith))
  where
    ==_no : (a : ℕ) → a ≢ unassigned → (a == unassigned) ≡ false
    ==_no a other = ground arith

pub none_vacant :
    (unassigned : ℕ) (xs : List ℕ) (n : ℕ)
    → vacant unassigned xs ≡ 0
    → n < length xs
    → get_or xs n unassigned ≢ unassigned
none_vacant unassigned [] n empty bound = absurd (omega arith)
none_vacant unassigned (first ∷ others) zero empty bound = ground arith
none_vacant unassigned (first ∷ others) (suc n) empty bound =
    none_vacant unassigned others n (ground arith) (omega arith)

pub vacant-replicate : (unassigned n : ℕ) → vacant unassigned (replicate n unassigned) ≡ n
vacant-replicate unassigned zero = refl
vacant-replicate unassigned (suc n) =
    if-true ((==_iff unassigned unassigned).1 refl)
      (suc (vacant unassigned (replicate n unassigned)))
      (vacant unassigned (replicate n unassigned))
    ∙ ap suc (vacant-replicate unassigned n)
