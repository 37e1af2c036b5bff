-- ===== src/Combine/Unique.antt =====
-- `unique_combine` as a whole (cth/incl/cth/algorithm/combine.hpp).
use cth.Base.{
  ℕ, zero, suc, ◌+◌, ◌≤◌, ◌<◌, ◌≡◌, ◌≢◌, ◌↔◌, ◌⊎◌, inl, inr, refl, sym, ap, ◌∙◌, true, false, List,
  [], ◌∷◌, length, length-replicate, get_or, get_or-replicate, arith, Option, none, some, ok,
  critical, ◌>>=◌,
}
use cth.Combine.{
  Matching, extend, combine_loop, take_out, no_matching, format_output, unique_combine,
}
use cth.Combine.Lists.{has, has_cases, here_eq, Bool_no, not_both}
use cth.Combine.Keys.{IsMatching, some-injective, unreached-length}
use cth.Combine.Search.{IsSearched}
use cth.Combine.Ends.{Ends, find_loop-Ends}
use cth.Combine.Climb.{flip_loop-Filled}
use cth.Combine.DeadEnd.{Picks, no_Picks}

cons-chosen :
    (node : ℕ) (others : List (Option ℕ)) (out : List ℕ)
    → ((k : ℕ) → k < length others → get_or others k none ≡ some (get_or out k 0))
    → (k : ℕ) → k < length (some node ∷ others)
    → get_or (some node ∷ others) k none ≡ some (get_or (node ∷ out) k 0)
cons-chosen node others out same zero lt = refl
cons-chosen node others out same (suc k) lt = same k (omega arith)

-- The output has what the selections chose, if each chose something and no two the same.
take_out-chosen :
    (chosen : List (Option ℕ)) (gone : List ℕ)
    → ((k : ℕ) → k < length chosen → get_or chosen k none ≢ none)
    → ((k node : ℕ) → get_or chosen k none ≡ some node → has gone node ≡ false)
    → ((j k node : ℕ) → get_or chosen j none ≡ some node → get_or chosen k none ≡ some node → j ≡ k)
    → (out : List ℕ) × (take_out chosen gone ≡ ok out)
      × (length out ≡ length chosen)
      × ((k : ℕ) → k < length chosen → get_or chosen k none ≡ some (get_or out k 0))
unfolding take_out
take_out-chosen [] gone full fresh single = ([], refl, refl, λ k lt. absurd (omega arith))
take_out-chosen (none ∷ others) gone full fresh single = absurd (full 0 (omega arith) refl)
take_out-chosen (some node ∷ others) gone full fresh single =
    let rest =
      take_out-chosen others (node ∷ gone) (λ k lt. full (suc k) (omega arith))
        (λ k other at. Bool_no (has (node ∷ gone) other) (λ member.
          elim (has_cases node gone other member) [
            | inl same ↦ zero_suc k (single 0 (suc k) other (ap some same) at)
            | inr old ↦ not_both (has gone other) old (fresh (suc k) other at)
          ]))
        (λ j k other at_j at_k. suc-injective (single (suc j) (suc k) other at_j at_k)) in
    (
      node ∷ rest.0,
      ap
            (λ b. elim b [
              | true ↦ critical
              | false ↦ take_out others (node ∷ gone) >>= λ out. ok (node ∷ out)
            ])
            (fresh 0 node refl)
          ∙ ap (λ r. r >>= λ out. ok (node ∷ out)) rest.1,
      ap suc rest.2,
      cons-chosen node others rest.0 rest.3,
    )
  where
    zero_suc : (k : ℕ) → 0 ≡ suc k → ⊥
    zero_suc k e = omega arith

    suc-injective : {a b : ℕ} → suc a ≡ suc b → a ≡ b
    suc-injective e = omega arith

module _ (selections : List (List ℕ)) where
  abbrev Finished : Option Matching → Type 0
  Finished none = (out : List ℕ) → Picks selections out → ⊥
  Finished (some m) =
      IsMatching selections m × ((k : ℕ) → k < length selections → get_or m.chosen k none ≢ none)

  -- The selections before `i` have a node, and no others.
  abbrev HasFirst : Matching → ℕ → Type 0
  HasFirst m i = (k : ℕ) → (get_or m.chosen k none ≡ none) ↔ (i ≤ k)

  first-IsSearched : (m : Matching) (start : ℕ) → IsSearched selections m start [] (start ∷ [])
  first-IsSearched m start = record {
    trail = tt;
    queued = λ r waits. elim (has_cases start [] r waits) [
      | inl same ↦ inl (sym same)
      | inr old ↦ absurd (not_both false old refl)
    ];
    claimed = λ node key. absurd (not_both false key refl);
    covered = λ r v. elim v [
      | inl first ↦ inl (here_eq start [] r (sym first))
      | inr (node, at, key) ↦ absurd (not_both false key refl)
    ];
  }

  after_search :
      (m : Matching) (i : ℕ) (left : ℕ)
      → IsMatching selections m
      → HasFirst m i
      → i < length selections
      → (end : Option ℕ × List (ℕ × ℕ)) → Ends selections m i end
      → ((larger : Matching)
          → IsMatching selections larger
          → HasFirst larger (suc i)
          → (result : Option Matching) × (combine_loop left selections larger (suc i) ≡ ok result)
            × Finished result)
      → (result : Option Matching) × ((extend m end >>= λ extended. elim extended [
        | none ↦ ok none
        | some larger ↦ combine_loop left selections larger (suc i)
      ])
          ≡ ok result)
        × Finished result
  after_search m i left law firsts inside (none, parents) ends rest =
      (none, refl, no_Picks selections m i law ((firsts i).1 (omega arith)) inside parents ends)
  after_search m i left law firsts inside (some node, parents) ends rest =
      let up =
        flip_loop-Filled selections m i parents node law ((firsts i).1 (omega arith)) inside ends.0
          ends.1 ends.2 in
      let later = rest up.0 up.2 (λ k. (
        (λ e. omega (arith, (firsts k).0 (((up.3 k).0 e).0), ((up.3 k).0 e).1)),
        (λ le. (up.3 k).1 ((firsts k).1 (omega arith), (λ e. omega arith))),
      )) in
      (
        later.0,
        ap
              (λ r. (r >>= λ flipped. ok (some flipped)) >>= λ extended. elim extended [
                | none ↦ ok none
                | some larger ↦ combine_loop left selections larger (suc i)
              ])
              up.1
            ∙ later.1,
        later.2,
      )

  combine_loop-Finished :
      (left : ℕ) (m : Matching) (i : ℕ)
      → IsMatching selections m
      → HasFirst m i
      → left + i ≡ length selections
      → (result : Option Matching) × (combine_loop left selections m i ≡ ok result)
        × Finished result
  unfolding combine_loop
  combine_loop-Finished zero m i law firsts count =
      (some m, refl, (law, λ k lt unassigned. ge_lt k (omega (arith, (firsts k).0 unassigned)) lt))
    where
      ge_lt : (k : ℕ) → length selections ≤ k → k < length selections → ⊥
      ge_lt k ge lt = omega arith
  combine_loop-Finished (suc left) m i law firsts count =
      let search =
        find_loop-Ends selections m i law (suc (length selections)) [] (i ∷ [])
          (first-IsSearched m i) (omega (arith, unreached-length m.chosen, law.sized)) in
      let after =
        after_search m i left law firsts (omega arith) search.0 search.2
          (λ larger law_larger firsts_larger.
            combine_loop-Finished left larger (suc i) law_larger firsts_larger (omega arith)) in
      (
        after.0,
        ap
              (λ r. (r >>= λ end. extend m end) >>= λ extended. elim extended [
                | none ↦ ok none
                | some larger ↦ combine_loop left selections larger (suc i)
              ])
              search.1
            ∙ after.1,
        after.2,
      )

  no_matching-IsMatching : IsMatching selections (no_matching selections)
  no_matching-IsMatching = record {
    sized = length-replicate (length selections) none;
    owned = λ i node e. absurd (none_some (sym (get_or-replicate (length selections) i none) ∙ e));
    chose = λ i node e. absurd (none_some e);
    offered =
        λ i node e. absurd (none_some (sym (get_or-replicate (length selections) i none) ∙ e));
  }
    where
      none_some : {n : ℕ} → none ≡ some n → ⊥
      none_some e = cc

  -- What a matching that gives each selection a node puts out.
  matching-Picks :
      (m : Matching)
      → Finished (some m)
      → (out : List ℕ) × (take_out m.chosen [] ≡ ok out) × Picks selections out
  matching-Picks m (law, full) =
      let taken =
        take_out-chosen m.chosen [] (λ k lt. full k (omega (arith, law.sized))) (λ _ _ _. refl)
          (λ j k node at_j at_k.
            some-injective (sym (law.owned j node at_j) ∙ law.owned k node at_k)) in
      (
        taken.0,
        taken.1,
        record {
          sized = taken.2 ∙ law.sized;
          fits = λ i lt. law.offered i (get_or taken.0 i 0) (taken.3 i (omega (arith, law.sized)));
          different = λ i j at_i at_j same. some-injective (
              sym (law.owned i (get_or taken.0 i 0) (taken.3 i (omega (arith, law.sized))))
              ∙ ap m.owner same
              ∙ law.owned j (get_or taken.0 j 0) (taken.3 j (omega (arith, law.sized))));
        },
      )

  -- What follows the main loop.
  output :
      (result : Option Matching)
      → Finished result
      → (out : List ℕ) × (format_output result ≡ ok out)
        × (Picks selections out ⊎ (out ≡ []) × ((picks : List ℕ) → Picks selections picks → ⊥))
  output none never = ([], refl, inr (refl, never))
  output (some m) finished = let put = matching-Picks m finished in (put.0, put.1, inl put.2)

-- `unique_combine` ends, and returns one element of each selection, no two the same, or it returns
-- nothing, and no such choice exists.
pub unique_combine-Picks :
    (selections : List (List ℕ))
    → (out : List ℕ) × (unique_combine selections ≡ ok out)
      × (Picks selections out ⊎ (out ≡ []) × ((picks : List ℕ) → Picks selections picks → ⊥))
unfolding unique_combine
unique_combine-Picks selections =
    let loop =
      combine_loop-Finished selections (length selections) (no_matching selections) 0
        (no_matching-IsMatching selections)
        (λ k. ((λ _. omega arith), (λ _. get_or-replicate (length selections) k none)))
        (omega arith) in
    let put = output selections loop.0 loop.2 in
    (put.0, ap (λ r. r >>= λ m. format_output m) loop.1 ∙ put.1, put.2)
