-- ===== src/Combine/Ends.antt =====
-- That `find_augmenting_path` of cth/incl/cth/algorithm/combine.hpp ends, and what it found.
use cth.Base.{
  ℕ, zero, suc, ◌+◌, ◌≤◌, ◌≡◌, inl, inr, refl, sym, ap, ◌∙◌, true, List, [], ◌∷◌, length, get_or,
  arith, Option, none, some, ok,
}
use cth.Combine.{Matching, Scan, found, more, scan, find_loop}
use cth.Combine.Lists.{has, has_cases, here, later}
use cth.Combine.Keys.{keys, IsMatching, unreached}
use cth.Combine.Search.{Trail, IsSearched, IsMidway, Outcome, scan-Outcome}

module _ (selections : List (List ℕ)) (m : Matching) (start : ℕ) where
  -- What the search ends with: a path to a node that nobody has, or no free key at all.
  abbrev pub Ends : Option ℕ × List (ℕ × ℕ) → Type 0
  Ends (some node, parents) =
      Trail selections m start parents × (has (keys parents) node ≡ true) × (m.owner node ≡ none)
  Ends (none, parents) = IsSearched selections m start parents []

  begin-IsMidway :
      (current : ℕ) (parents : List (ℕ × ℕ)) (queue : List ℕ)
      → IsSearched selections m start parents (current ∷ queue)
      → IsMidway selections m start current (get_or selections current []) parents queue
  begin-IsMidway current parents queue s = record {
    trail = s.trail;
    queued = λ r waits. s.queued r (later current queue r waits);
    claimed = s.claimed;
    covered = λ r v. elim (s.covered r v) [
      | inl waits ↦ elim (has_cases current queue r waits) [
        | inl same ↦ inr (λ value offered.
            inr (sym same, ap (λ i. has (get_or selections i []) value) same ∙ offered))
        | inr old ↦ inl old
      ]
      | inr knows ↦ inr (λ value offered. inl (knows value offered))
    ];
    visited = s.queued current (here current queue);
    left = λ value member. member;
  }

  after_round :
      (rounds : ℕ) (scanned : Scan)
      → Outcome selections m start rounds scanned
      → ((parents : List (ℕ × ℕ)) (queue : List ℕ)
          → IsSearched selections m start parents queue
          → length queue + unreached (keys parents) m.chosen ≤ rounds
          → (end : Option ℕ × List (ℕ × ℕ)) × (find_loop rounds selections m.owner parents queue
              ≡ ok end)
            × Ends end)
      → (end : Option ℕ × List (ℕ × ℕ)) × (elim scanned [
        | found node reached ↦ ok (some node, reached)
        | more reached longer ↦ find_loop rounds selections m.owner reached longer
      ]
          ≡ ok end)
        × Ends end
  after_round rounds (found node parents) outcome rest = ((some node, parents), refl, outcome)
  after_round rounds (more parents queue) outcome rest = rest parents queue outcome.0 outcome.1

  -- With a round for each selection that waits and each node that may be reached, the search ends.
  pub find_loop-Ends :
      IsMatching selections m
      → (rounds : ℕ) (parents : List (ℕ × ℕ)) (queue : List ℕ)
      → IsSearched selections m start parents queue
      → length queue + unreached (keys parents) m.chosen ≤ rounds
      → (end : Option ℕ × List (ℕ × ℕ)) × (find_loop rounds selections m.owner parents queue
          ≡ ok end)
        × Ends end
  unfolding find_loop
  find_loop-Ends law rounds parents [] s bound = ((none, parents), refl, s)
  find_loop-Ends law zero parents (current ∷ queue) s bound = absurd (omega arith)
  find_loop-Ends law (suc rounds) parents (current ∷ queue) s bound =
      after_round rounds (scan m.owner current (get_or selections current []) parents queue)
        (scan-Outcome selections m start law current (get_or selections current []) parents queue
          rounds (begin-IsMidway current parents queue s) (omega arith))
        (find_loop-Ends law rounds)
