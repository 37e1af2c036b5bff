-- ===== src/Combine/DeadEnd.antt =====
-- Where `unique_combine` of cth/incl/cth/algorithm/combine.hpp finds no path, there is no choice of
-- different elements.
use cth.Base.{
  ℕ, ◌<◌, ◌≡◌, inl, inr, refl, sym, ap, subst, ◌∙◌, true, false, List, [], ◌∷◌, length, map, get_or,
  arith, none, some,
}
use cth.Combine.{Matching}
use cth.Combine.Lists.{
  has, has_cases, Distinct, map-has, map-Distinct, map-length, Within-length, not_both, Bool_no,
}
use cth.Combine.Keys.{keys, IsMatching, some-injective}
use cth.Combine.Search.{Visited, Trail, IsSearched}
use cth.Combine.Flip.{get_or-lt}

-- One element of each selection, no two the same.
pub record Picks (selections : List (List ℕ)) (out : List ℕ) : Type 0 where
  pub sized : length out ≡ length selections
  pub fits : (i : ℕ) → i < length selections → has (get_or selections i []) (get_or out i 0) ≡ true
  pub different :
      (i j : ℕ)
      → i < length selections
      → j < length selections
      → get_or out i 0 ≡ get_or out j 0
      → i ≡ j

module _ (selections : List (List ℕ)) (m : Matching) (start : ℕ) (law : IsMatching selections m)
    (unassigned : get_or m.chosen start none ≡ none) (inside : start < length selections)
    (parents : List (ℕ × ℕ)) (s : IsSearched selections m start parents []) where
  keys-Distinct :
      (earlier : List (ℕ × ℕ)) → Trail selections m start earlier → Distinct (keys earlier)
  keys-Distinct [] trail = tt
  keys-Distinct ((node, r) ∷ earlier) trail = (trail.0, keys-Distinct earlier trail.3)

  abbrev owner_of : ℕ → ℕ
  owner_of node = elim (m.owner node) [ none ↦ 0 | some i ↦ i ]

  chosen_owner :
      (node : ℕ) → has (keys parents) node ≡ true → get_or m.chosen (owner_of node) none ≡ some node
  chosen_owner node key =
      let claim = s.claimed node key in
      ap (λ o. get_or m.chosen (elim o [ none ↦ 0 | some i ↦ i ]) none) claim.1
      ∙ law.chose claim.0 node claim.1

  abbrev visits : List ℕ
  visits = start ∷ map owner_of (keys parents)

  visits-Visited : (i : ℕ) → has visits i ≡ true → Visited selections m start parents i
  visits-Visited i member = elim (has_cases start (map owner_of (keys parents)) i member) [
    | inl same ↦ inl (sym same)
    | inr deeper ↦
        let key = map-has owner_of (keys parents) i deeper in
        inr (key.0, ap (λ r. get_or m.chosen r none) (sym key.2) ∙ chosen_owner key.0 key.1, key.1)
  ]

  visits-lt : (i : ℕ) → has visits i ≡ true → i < length selections
  visits-lt i member = elim (visits-Visited i member) [
    | inl first ↦ omega arith
    | inr (node, at, _) ↦ omega (arith, get_or-lt m.chosen i node at, law.sized)
  ]

  visits-Distinct : Distinct visits
  visits-Distinct = (
    Bool_no (has (map owner_of (keys parents)) start) (λ member.
        let key = map-has owner_of (keys parents) start member in
        none_some (
          sym unassigned
          ∙ ap (λ r. get_or m.chosen r none) (sym key.2)
          ∙ chosen_owner key.0 key.1)),
    map-Distinct owner_of (keys parents)
        (λ a b at_a at_b same.
          some-injective (
            sym (chosen_owner a at_a)
            ∙ ap (λ r. get_or m.chosen r none) same
            ∙ chosen_owner b at_b))
        (keys-Distinct parents s.trail),
  )
    where
      none_some : {n : ℕ} → none ≡ some n → ⊥
      none_some e = cc

  -- More selections than nodes that they offer.
  pub no_Picks : (out : List ℕ) → Picks selections out → ⊥
  no_Picks out picks =
      let pick : (ℕ → ℕ) = λ i. get_or out i 0 in
      let few =
        Within-length (map pick visits) (keys parents)
          (map-Distinct pick visits
            (λ i j at_i at_j. picks.different i j (visits-lt i at_i) (visits-lt j at_j))
            visits-Distinct)
          (λ n member.
            let origin = map-has pick visits n member in
            elim (s.covered origin.0 (visits-Visited origin.0 origin.1)) [
              | inl waits ↦ absurd (not_both false waits refl)
              | inr within ↦
                  subst (λ k. has (keys parents) k ≡ true) origin.2
                    (within (pick origin.0) (picks.fits origin.0 (visits-lt origin.0 origin.1)))
            ]) in
      omega (arith, few, map-length pick visits, map-length owner_of (keys parents))
