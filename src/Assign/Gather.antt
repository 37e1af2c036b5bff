-- ===== src/Assign/Gather.antt =====
-- Lists put together from the lists of several b's, and where a b is chosen
-- (`assign` of cth/incl/cth/algorithm/combine.hpp).
use cth.Base.{
  ℕ, zero, suc, ◌+◌, ◌≤◌, ◌<◌, ◌≡◌, inl, inr, refl, sym, ap, subst, ◌∙◌, true, false, List, [], ◌∷◌,
  ◌++◌, length, length-append, get_or, ◌==◌, ==_iff, if◌then◌else◌, if-true, if-false, Bool-cases,
  arith,
}
use cth.Combine.Lists.{has, has_cases, has-other, here, later, Distinct, not_both, Bool_no}

abbrev pub gather : (ℕ → List ℕ) → List ℕ → List ℕ
gather f [] = []
gather f (b ∷ others) = f b ++ gather f others

++-has : (xs ys : List ℕ) (n : ℕ) → has (xs ++ ys) n ≡ (if has xs n then true else has ys n)
++-has [] ys n = refl
++-has (first ∷ others) ys n = ground (arith, ++-has others ys n)

++-Distinct :
    (xs ys : List ℕ)
    → Distinct xs
    → Distinct ys
    → ((n : ℕ) → has xs n ≡ true → has ys n ≡ false)
    → Distinct (xs ++ ys)
++-Distinct [] ys dx dy apart = dy
++-Distinct (first ∷ others) ys dx dy apart = (
  ++-has others ys first ∙ if-false dx.0 true (has ys first) ∙ apart first (here first others),
  ++-Distinct others ys dx.1 dy (λ n member. apart n (later first others n member)),
)

pub gather-has :
    (f : ℕ → List ℕ) (bs : List ℕ) (b n : ℕ)
    → has bs b ≡ true
    → has (f b) n ≡ true
    → has (gather f bs) n ≡ true
gather-has f [] b n key member = absurd (not_both false key refl)
gather-has f (first ∷ others) b n key member =
    ++-has (f first) (gather f others) n ∙ elim (has_cases first others b key) [
      | inl same ↦ if-true (ap (λ i. has (f i) n) same ∙ member) true (has (gather f others) n)
      | inr deeper ↦ elim (Bool-cases (has (f first) n)) [
        | inl there ↦ if-true there true (has (gather f others) n)
        | inr away ↦
            if-false away true (has (gather f others) n) ∙ gather-has f others b n deeper member
      ]
    ]

pub gather-from :
    (f : ℕ → List ℕ) (bs : List ℕ) (n : ℕ)
    → has (gather f bs) n ≡ true
    → (b : ℕ) × (has bs b ≡ true) × (has (f b) n ≡ true)
gather-from f [] n member = absurd (not_both false member refl)
gather-from f (first ∷ others) n member = elim (Bool-cases (has (f first) n)) [
  | inl there ↦ (first, here first others, there)
  | inr away ↦
      let rest = gather-from f others n (
        sym (if-false away true (has (gather f others) n))
        ∙ sym (++-has (f first) (gather f others) n)
        ∙ member) in
      (rest.0, later first others rest.0 rest.1, rest.2)
]

pub gather-Distinct :
    (f : ℕ → List ℕ) (bs : List ℕ)
    → ((b : ℕ) → Distinct (f b))
    → ((a b n : ℕ) → has (f a) n ≡ true → has (f b) n ≡ true → a ≡ b)
    → Distinct bs
    → Distinct (gather f bs)
gather-Distinct f [] each apart d = tt
gather-Distinct f (first ∷ others) each apart d =
    ++-Distinct (f first) (gather f others) (each first) (gather-Distinct f others each apart d.1)
      (λ n member. Bool_no (has (gather f others) n) (λ again.
        let from = gather-from f others n again in
        has-other others first from.0 d.0 from.1 (apart first from.0 n member from.2)))

pub gather-length :
    (f g : ℕ → List ℕ) (bs : List ℕ)
    → ((b : ℕ) → has bs b ≡ true → length (f b) ≤ length (g b))
    → length (gather f bs) ≤ length (gather g bs)
gather-length f g [] each = omega arith
gather-length f g (first ∷ others) each = omega (
  arith,
  length-append (f first) (gather f others),
  length-append (g first) (gather g others),
  each first (here first others),
  gather-length f g others (λ b key. each b (later first others b key)),
)

-- The a's from number `i` on that have `b`.
abbrev pub choosers_from : ℕ → List ℕ → ℕ → List ℕ
choosers_from i [] b = []
choosers_from i (first ∷ others) b =
    if first == b then i ∷ choosers_from (suc i) others b else choosers_from (suc i) others b

abbrev pub choosers : List ℕ → ℕ → List ℕ
choosers out b = choosers_from 0 out b

pub choosers_from-has :
    (i : ℕ) (out : List ℕ) (b a : ℕ)
    → has (choosers_from i out b) a ≡ true
    → (k : ℕ) × (a ≡ k + i) × (k < length out) × (get_or out k b ≡ b)
choosers_from-has i [] b a member = absurd (not_both false member refl)
choosers_from-has i (first ∷ others) b a member = elim (Bool-cases (first == b)) [
  | inl same ↦
      elim (has_cases i (choosers_from (suc i) others b) a
        (sym (ap (λ l. has l a) (chosen_here same)) ∙ member)) [
          | inl is_i ↦ (0, omega (arith, is_i), omega arith, (==_iff first b).0 same)
          | inr deeper ↦
              let rest = choosers_from-has (suc i) others b a deeper in
              (suc rest.0, omega (arith, rest.1), omega (arith, rest.2), rest.3)
        ]
  | inr other ↦
      let rest =
        choosers_from-has (suc i) others b a
          (sym (ap (λ l. has l a) (chosen_later other)) ∙ member) in
      (suc rest.0, omega (arith, rest.1), omega (arith, rest.2), rest.3)
]
  where
    chosen_here :
        (first == b) ≡ true
        → choosers_from i (first ∷ others) b ≡ i ∷ choosers_from (suc i) others b
    chosen_here same =
        if-true same (i ∷ choosers_from (suc i) others b) (choosers_from (suc i) others b)

    chosen_later :
        (first == b) ≡ false → choosers_from i (first ∷ others) b ≡ choosers_from (suc i) others b
    chosen_later other =
        if-false other (i ∷ choosers_from (suc i) others b) (choosers_from (suc i) others b)

pub has-choosers_from :
    (i : ℕ) (out : List ℕ) (b k d : ℕ)
    → k < length out
    → get_or out k d ≡ b
    → has (choosers_from i out b) (k + i) ≡ true
has-choosers_from i [] b k d bound chosen = absurd (omega arith)
has-choosers_from i (first ∷ others) b zero d bound chosen =
    subst (λ n. has (choosers_from i (first ∷ others) b) n ≡ true) {x = i} {y = 0 + i} (omega arith)
      (ap (λ l. has l i)
          (if-true ((==_iff first b).1 chosen) (i ∷ choosers_from (suc i) others b)
            (choosers_from (suc i) others b))
        ∙ here i (choosers_from (suc i) others b))
has-choosers_from i (first ∷ others) b (suc k) d bound chosen =
    let rest =
      subst (λ n. has (choosers_from (suc i) others b) n ≡ true) {x = k + suc i} {y = suc k + i}
        (omega arith) (has-choosers_from (suc i) others b k d (omega arith) chosen) in
    elim (Bool-cases (first == b)) [
      | inl same ↦
          ap (λ l. has l (suc k + i))
            (if-true same (i ∷ choosers_from (suc i) others b) (choosers_from (suc i) others b))
          ∙ later i (choosers_from (suc i) others b) (suc k + i) rest
      | inr other ↦
          ap (λ l. has l (suc k + i))
            (if-false other (i ∷ choosers_from (suc i) others b) (choosers_from (suc i) others b))
          ∙ rest
    ]

pub choosers_from-Distinct : (i : ℕ) (out : List ℕ) (b : ℕ) → Distinct (choosers_from i out b)
choosers_from-Distinct i [] b = tt
choosers_from-Distinct i (first ∷ others) b = elim (Bool-cases (first == b)) [
  | inl same ↦
      subst Distinct
        (sym (if-true same (i ∷ choosers_from (suc i) others b) (choosers_from (suc i) others b)))
        (
          Bool_no (has (choosers_from (suc i) others b) i) (λ again.
              let from = choosers_from-has (suc i) others b i again in omega (arith, from.1)),
          choosers_from-Distinct (suc i) others b,
        )
  | inr other ↦
      subst Distinct
        (sym (if-false other (i ∷ choosers_from (suc i) others b) (choosers_from (suc i) others b)))
        (choosers_from-Distinct (suc i) others b)
]
