-- ===== src/Combine.antt =====
-- cth/incl/cth/algorithm/combine.hpp: `unique_combine`. The elements, which the code only hashes and
-- compares, are numbers. A node is the address of an element of `pool`, which has each element once, so
-- that it is the element here. An `unordered_map` is the list of its pairs, the latest first, or a
-- function.
pub mod Lists
pub mod Keys
pub mod Search
pub mod Ends
pub mod Flip
pub mod Climb
pub mod DeadEnd
pub mod Unique
mod Tests
use cth.Base.{
  ℕ, zero, suc, ◌+◌, Bool, true, false, List, [], ◌∷◌, ◌++◌, length, get_or, set, replicate, ◌==◌,
  if◌then◌else◌, Option, none, some, Result, ok, critical, diverged, ◌>>=◌,
}
use cth.Combine.Lists.{has}

-- `parent`: from nodes to selections.
abbrev pub lookup : List (ℕ × ℕ) → ℕ → Option ℕ
lookup [] node = none
lookup ((key, selection) ∷ others) node = if key == node then some selection else lookup others node

-- `nodeToSelection` and `selectionToNode`.
pub record Matching : Type 0 where
  pub owner : ℕ → Option ℕ
  pub chosen : List (Option ℕ)

pub data Scan : Type 0 where
  found : ℕ → List (ℕ × ℕ) → Scan
  more : List (ℕ × ℕ) → List ℕ → Scan

-- The inner loop of `find_augmenting_path` over the values of a selection: it ends with a node that no
-- selection has, or with more parents and a longer queue.
abbrev pub scan : (ℕ → Option ℕ) → ℕ → List ℕ → List (ℕ × ℕ) → List ℕ → Scan
scan owner current [] parents queue = more parents queue
scan owner current (node ∷ values) parents queue = elim (lookup parents node) [
  | some _ ↦ scan owner current values parents queue
  | none ↦ elim (owner node) [
    | none ↦ found node ((node, current) ∷ parents)
    | some selection ↦
        scan owner current values ((node, current) ∷ parents) (queue ++ selection ∷ [])
  ]
]

-- The loop of `find_augmenting_path` on rounds: the node at the end of a path, if there is one, and the
-- parents.
unfoldable pub find_loop :
    ℕ → List (List ℕ) → (ℕ → Option ℕ) → List (ℕ × ℕ) → List ℕ → Result (Option ℕ × List (ℕ × ℕ))
find_loop rounds selections owner parents [] = ok (none, parents)
find_loop zero selections owner parents (current ∷ queue) = diverged
find_loop (suc rounds) selections owner parents (current ∷ queue) =
    elim (scan owner current (get_or selections current []) parents queue) [
      | found node reached ↦ ok (some node, reached)
      | more reached longer ↦ find_loop rounds selections owner reached longer
    ]

-- `parent[current]`, which is 0 for a missing key.
abbrev pub parent_of : List (ℕ × ℕ) → ℕ → ℕ
parent_of parents node = elim (lookup parents node) [ none ↦ 0 | some selection ↦ selection ]

abbrev pub flip : Matching → ℕ → ℕ → Matching
flip m right current = record {
  owner = λ node. if node == current then some right else m.owner node;
  chosen = set m.chosen right (some current);
}

-- The loop that flips the assignments up a path, on rounds.
unfoldable pub flip_loop : ℕ → List (ℕ × ℕ) → Matching → ℕ → Result Matching
flip_loop zero parents m current = diverged
flip_loop (suc rounds) parents m current = elim (get_or m.chosen (parent_of parents current) none) [
  | none ↦ ok (flip m (parent_of parents current) current)
  | some previous ↦ flip_loop rounds parents (flip m (parent_of parents current) current) previous
]

-- What follows the search for a path: `none` is the dead end.
abbrev pub extend : Matching → Option ℕ × List (ℕ × ℕ) → Result (Option Matching)
extend m (none, parents) = ok none
extend m (some end_node, parents) =
    flip_loop (length parents) parents m end_node >>= λ flipped. ok (some flipped)

abbrev pub extend_with : List (List ℕ) → Matching → ℕ → Result (Option Matching)
extend_with selections m i =
    find_loop (suc (length selections)) selections m.owner [] (i ∷ []) >>= λ end. extend m end

-- The main loop from selection `i` on, with so many selections left.
unfoldable pub combine_loop : ℕ → List (List ℕ) → Matching → ℕ → Result (Option Matching)
combine_loop zero selections m i = ok (some m)
combine_loop (suc left) selections m i = extend_with selections m i >>= λ extended. elim extended [
  | none ↦ ok none
  | some larger ↦ combine_loop left selections larger (suc i)
]

-- The output: `pool` gives each element once. A null pointer and an element that is gone, where the
-- code has undefined behaviour, count as failed checks.
unfoldable pub take_out : List (Option ℕ) → List ℕ → Result (List ℕ)
take_out [] gone = ok []
take_out (none ∷ others) gone = critical
take_out (some node ∷ others) gone = elim (has gone node) [
  | true ↦ critical
  | false ↦ take_out others (node ∷ gone) >>= λ out. ok (node ∷ out)
]

abbrev pub no_matching : List (List ℕ) → Matching
no_matching selections = record { owner = λ _. none; chosen = replicate (length selections) none }

abbrev pub format_output : Option Matching → Result (List ℕ)
format_output none = ok []
format_output (some m) = take_out m.chosen []

unfoldable pub unique_combine : List (List ℕ) → Result (List ℕ)
unique_combine selections =
    combine_loop (length selections) selections (no_matching selections) 0 >>= λ m. format_output m
