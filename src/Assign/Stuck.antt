-- ===== src/Assign/Stuck.antt =====
-- Where `assign` finds no path, its levels have no room for all a's
-- (cth/incl/cth/algorithm/combine.hpp).
use cth.Base.{
  ℕ, zero, suc, ◌+◌, ◌≤◌, ◌<◌, ◌≡◌, inl, inr, refl, sym, subst, ◌∙◌, true, false, List, [], ◌∷◌,
  length, get_or, arith,
}
use cth.Combine.Keys.{keys}
use cth.Combine.Lists.{has, has_cases, Distinct, Within-length, not_both, Bool_no}
use cth.Assign.{Flow, Search, residents}
use cth.Assign.Flows.{IsFlow}
use cth.Assign.Midway.{Visited, Trail, IsMidway}
use cth.Assign.Gather.{
  gather, gather-has, gather-from, gather-Distinct, gather-length, choosers, has-choosers_from,
}

-- Each a has one of its options, and no b more a's than it may have.
pub record Assigns (options : List (List ℕ)) (most : List ℕ) (out : List ℕ) : Type 0 where
  pub sized : length out ≡ length options
  pub fits : (a : ℕ) → a < length options → has (get_or options a []) (get_or out a 0) ≡ true
  pub within : (b : ℕ) → length (choosers out b) ≤ get_or most b 0

pub options-lt :
    (lists : List (List ℕ)) (n m : ℕ) → has (get_or lists n []) m ≡ true → n < length lists
options-lt [] n m member = absurd (not_both false member refl)
options-lt (first ∷ others) zero m member = omega arith
options-lt (first ∷ others) (suc n) m member = omega (arith, options-lt others n m member)

pub keys-Distinct :
    (options : List (List ℕ)) (b_count unassigned : ℕ) (f : Flow) (start : ℕ) (trail : List (ℕ × ℕ))
    → Trail options b_count unassigned f start trail
    → Distinct (keys trail)
keys-Distinct options b_count unassigned f start [] path = tt
keys-Distinct options b_count unassigned f start ((b, a) ∷ earlier) path =
    (path.0, keys-Distinct options b_count unassigned f start earlier path.3)

module _ (options : List (List ℕ)) (b_count unassigned : ℕ) (f : Flow) (start : ℕ)
    (law : IsFlow options b_count unassigned f)
    (absent : (b : ℕ) → has (residents f b) start ≡ false) (inside : start < length options)
    (t : Search) (trail : List (ℕ × ℕ))
    (mid : IsMidway options b_count unassigned f start start [] t trail []) where
  abbrev visits : List ℕ
  visits = start ∷ gather (residents f) (keys trail)

  visits-Visited :
      (a : ℕ) → has visits a ≡ true → Visited options b_count unassigned f start trail a
  visits-Visited a member = elim (has_cases start (gather (residents f) (keys trail)) a member) [
    | inl same ↦ inl (sym same)
    | inr deeper ↦
        let from = gather-from (residents f) (keys trail) a deeper in inr (from.0, from.2, from.1)
  ]

  visits-lt : (a : ℕ) → has visits a ≡ true → a < length options
  visits-lt a member = elim (visits-Visited a member) [
    | inl first ↦ omega arith
    | inr (b, sits, _) ↦ options-lt options a b (law.offered a b sits)
  ]

  visits-Distinct : Distinct visits
  visits-Distinct = (
    Bool_no (has (gather (residents f) (keys trail)) start) (λ member.
        let from = gather-from (residents f) (keys trail) start member in
        not_both (has (residents f from.0) start) from.2 (absent from.0)),
    gather-Distinct (residents f) (keys trail) law.distinct
        (λ a b n at_a at_b. sym (law.resident n a at_a) ∙ law.resident n b at_b)
        (keys-Distinct options b_count unassigned f start trail mid.path),
  )

  -- More a's than the b's that they offer may have.
  pub no_Assigns : (out : List ℕ) → Assigns options f.current_b_max out → ⊥
  no_Assigns out whole =
      let few =
        Within-length visits (gather (choosers out) (keys trail)) visits-Distinct (λ a member.
          elim (mid.covered a (visits-Visited a member)) [
            | inl waits ↦ absurd (not_both false waits refl)
            | inr knows ↦ elim (knows (get_or out a 0) (whole.fits a (visits-lt a member))) [
              | inl key ↦ gather-has (choosers out) (keys trail) (get_or out a 0) a key (
                  subst (λ n. has (choosers out (get_or out a 0)) n ≡ true) {x = a + 0} {y = a}
                    (omega arith)
                    (has-choosers_from 0 out (get_or out a 0) a 0
                      (omega (arith, visits-lt a member, whole.sized)) refl))
              | inr (_, never) ↦ absurd (not_both false never refl)
            ]
          ]) in
      let room =
        gather-length (choosers out) (residents f) (keys trail)
          (λ b key. omega (arith, whole.within b, mid.full b key)) in
      omega (arith, few, room)
