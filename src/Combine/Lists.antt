-- ===== src/Combine/Lists.antt =====
-- Members of lists of numbers, and lists without repetition.
use cth.Base.{
  ℕ, suc, ◌+◌, ◌≤◌, ◌≡◌, ◌≢◌, ◌⊎◌, inl, inr, refl, sym, ap, ◌∙◌, Bool, true, false, List, [], ◌∷◌,
  ◌++◌, length, map, ◌==◌, ==_iff, if◌then◌else◌, if-true, Bool-cases, arith,
}

abbrev pub has : List ℕ → ℕ → Bool
has [] n = false
has (first ∷ others) n = if first == n then true else has others n

abbrev pub Distinct : List ℕ → Type 0
Distinct [] = Unit
Distinct (first ∷ others) = (has others first ≡ false) × Distinct others

abbrev pub Within : List ℕ → List ℕ → Type 0
Within xs ys = (n : ℕ) → has xs n ≡ true → has ys n ≡ true

-- One element less: the first that is `n`.
abbrev without : List ℕ → ℕ → List ℕ
without [] n = []
without (first ∷ others) n = if first == n then others else first ∷ without others n

without-length : (ys : List ℕ) (n : ℕ) → has ys n ≡ true → length (without ys n) + 1 ≡ length ys
without-length [] n h = cc
without-length (first ∷ others) n h = ground (arith, without-length others n)

without-has : (ys : List ℕ) (n m : ℕ) → has ys m ≡ true → n ≢ m → has (without ys n) m ≡ true
without-has [] n m h other = cc
without-has (first ∷ others) n m h other = ground (arith, without-has others n m)

pub not_both : (b : Bool) → b ≡ true → b ≡ false → ⊥
not_both b yes_it no_it = ground arith

pub Bool_no : (b : Bool) → (b ≡ true → ⊥) → b ≡ false
Bool_no b never = ground arith

pub has-other : (xs : List ℕ) (first m : ℕ) → has xs first ≡ false → has xs m ≡ true → first ≢ m
has-other xs first m absent present same =
    not_both (has xs m) present (ap (has xs) (sym same) ∙ absent)

pub later :
    (first : ℕ) (others : List ℕ) (n : ℕ) → has others n ≡ true → has (first ∷ others) n ≡ true
later first others n member = ground arith

pub here : (first : ℕ) (others : List ℕ) → has (first ∷ others) first ≡ true
here first others = if-true ((==_iff first first).1 refl) true (has others first)

pub has_cases :
    (first : ℕ) (others : List ℕ) (n : ℕ)
    → has (first ∷ others) n ≡ true
    → (first ≡ n) ⊎ (has others n ≡ true)
has_cases first others n member = ground arith

pub has-append :
    (xs : List ℕ) (y n : ℕ) → has (xs ++ y ∷ []) n ≡ (if y == n then true else has xs n)
has-append [] y n = ground arith
has-append (first ∷ others) y n = ground (arith, has-append others y n)

pub here_eq : (first : ℕ) (others : List ℕ) (n : ℕ) → first ≡ n → has (first ∷ others) n ≡ true
here_eq first others n same = ground arith

pub append_cases :
    (xs : List ℕ) (y n : ℕ) → has (xs ++ y ∷ []) n ≡ true → (y ≡ n) ⊎ (has xs n ≡ true)
append_cases xs y n member = ground (arith, has-append xs y n)

pub append_last : (xs : List ℕ) (y n : ℕ) → y ≡ n → has (xs ++ y ∷ []) n ≡ true
append_last xs y n same = ground (arith, has-append xs y n)

pub append_first : (xs : List ℕ) (y n : ℕ) → has xs n ≡ true → has (xs ++ y ∷ []) n ≡ true
append_first xs y n member = ground (arith, has-append xs y n)

-- A map that tells apart the members of a list keeps it free of repetition.
pub map-has :
    (f : ℕ → ℕ) (xs : List ℕ) (n : ℕ)
    → has (map f xs) n ≡ true
    → (m : ℕ) × (has xs m ≡ true) × (f m ≡ n)
map-has f [] n member = cc
map-has f (first ∷ others) n member = elim (has_cases (f first) (map f others) n member) [
  | inl same ↦ (first, here first others, same)
  | inr deeper ↦
      let origin = map-has f others n deeper in
      (origin.0, later first others origin.0 origin.1, origin.2)
]

pub map-Distinct :
    (f : ℕ → ℕ) (xs : List ℕ)
    → ((m n : ℕ) → has xs m ≡ true → has xs n ≡ true → f m ≡ f n → m ≡ n)
    → Distinct xs
    → Distinct (map f xs)
map-Distinct f [] different distinct = tt
map-Distinct f (first ∷ others) different distinct = (
  elim (Bool-cases (has (map f others) (f first))) [
    | inl member ↦
        let origin = map-has f others (f first) member in
        absurd (
          has-other others first origin.0 distinct.0 origin.1 (
            sym (
              different origin.0 first (later first others origin.0 origin.1) (here first others)
                origin.2)))
    | inr absent ↦ absent
  ],
  map-Distinct f others
      (λ m n at_m at_n. different m n (later first others m at_m) (later first others n at_n))
      distinct.1,
)

pub map-length : (f : ℕ → ℕ) (xs : List ℕ) → length (map f xs) ≡ length xs
map-length f [] = refl
map-length f (first ∷ others) = ap suc (map-length f others)

-- The pigeonhole principle.
pub Within-length : (xs ys : List ℕ) → Distinct xs → Within xs ys → length xs ≤ length ys
Within-length [] ys distinct within = omega arith
Within-length (first ∷ others) ys distinct within = omega (
  arith,
  without-length ys first (within first (here first others)),
  Within-length others (without ys first) distinct.1 (λ n member.
      without-has ys first n (within n (later first others n member))
        (has-other others first n distinct.0 member)),
)
