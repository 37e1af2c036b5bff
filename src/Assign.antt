-- ===== src/Assign.antt =====
-- cth/incl/cth/algorithm/combine.hpp: `assign`. The a's and the b's are numbered, `unassigned` is -1 in
-- the type of the indices, and the `size_t` -1 at the end of a search is `none`.
pub mod Seats
pub mod Flows
pub mod Displaced
pub mod Midway
pub mod Round
pub mod Path
pub mod Moved
pub mod Shift
pub mod Gather
pub mod Stuck
pub mod Vacant
pub mod Places
pub mod Levels
pub mod Water
pub mod Whole
mod Tests
use cth.Base.{
  ℕ, zero, suc, ◌+◌, Bool, true, false, not, ◌&&◌, List, [], ◌∷◌, ◌++◌, length, get_or, set,
  replicate, ltb, ◌==◌, if◌then◌else◌, Option, none, some, Result, ok, critical, diverged, check,
  ◌>>=◌, ◌>>◌,
}

-- `aToB`, `bToA`, `current_b_max` and `assignedCount`.
pub record Flow : Type 0 where
  pub a_to_b : List ℕ
  pub b_to_a : List (List ℕ)
  pub current_b_max : List ℕ
  pub assigned_count : ℕ

-- `visitedA`, `visitedB`, `parentA` and `parentB`.
pub record Search : Type 0 where
  pub visited_a : List Bool
  pub visited_b : List Bool
  pub parent_a : List ℕ
  pub parent_b : List ℕ

abbrev pub residents : Flow → ℕ → List ℕ
residents f b = get_or f.b_to_a b []

abbrev pub visit_a : Search → ℕ → ℕ → Search
visit_a s a b = record s { visited_a = set s.visited_a a true; parent_a = set s.parent_a a b }

abbrev pub visit_b : Search → ℕ → ℕ → Search
visit_b s b a = record s { visited_b = set s.visited_b b true; parent_b = set s.parent_b b a }

-- The loop over the residents of `b`: those that were not visited are asked to move.
abbrev pub displace : ℕ → List ℕ → Search → List ℕ → Search × List ℕ
displace b [] s queue = (s, queue)
displace b (a ∷ others) s queue = elim (get_or s.visited_a a true) [
  | true ↦ displace b others s queue
  | false ↦ displace b others (visit_a s a b) (queue ++ a ∷ [])
]

pub data Explored : Type 0 where
  reached : ℕ → Search → Explored
  onward : Search → List ℕ → Explored

-- The loop over the options of `a`: it ends at a b with room, or with a longer queue.
abbrev pub explore : Flow → ℕ → List ℕ → Search → List ℕ → Explored
explore f a [] s queue = onward s queue
explore f a (b ∷ options) s queue = elim (get_or s.visited_b b true) [
  | true ↦ explore f a options s queue
  | false ↦ elim (ltb (length (residents f b)) (get_or f.current_b_max b 0)) [
    | true ↦ reached b (visit_b s b a)
    | false ↦
        let moved = displace b (residents f b) (visit_b s b a) queue in
        explore f a options moved.0 moved.1
  ]
]

-- The loop of `find_augmenting_path`, on rounds.
unfoldable pub path_loop : ℕ → List (List ℕ) → Flow → Search → List ℕ → Result (Option ℕ × Search)
path_loop rounds a_b_options f s [] = ok (none, s)
path_loop zero a_b_options f s (a ∷ queue) = diverged
path_loop (suc rounds) a_b_options f s (a ∷ queue) =
    elim (explore f a (get_or a_b_options a []) s queue) [
      | reached b found ↦ ok (some b, found)
      | onward further longer ↦ path_loop rounds a_b_options f further longer
    ]

-- `std::ranges::fill` and the first visit.
abbrev pub begin_search : List (List ℕ) → List ℕ → Search → ℕ → Search
begin_search a_b_options b_max s start = record s {
  visited_a = set (replicate (length a_b_options) false) start true;
  visited_b = replicate (length b_max) false;
}

unfoldable pub find_augmenting_path :
    List (List ℕ) → List ℕ → Flow → Search → ℕ → Result (Option ℕ × Search)
find_augmenting_path a_b_options b_max f s start =
    path_loop (length a_b_options) a_b_options f (begin_search a_b_options b_max s start)
      (start ∷ [])

-- Swap and pop: the first `a` takes the value of the last element, which is dropped.
abbrev pub replace_first : List ℕ → ℕ → ℕ → List ℕ
replace_first [] a value = []
replace_first (first ∷ others) a value =
    if first == a then value ∷ others else first ∷ replace_first others a value

abbrev pub back : List ℕ → ℕ
back [] = 0
back (first ∷ []) = first
back (first ∷ second ∷ others) = back (second ∷ others)

abbrev pub pop_back : List ℕ → List ℕ
pop_back [] = []
pop_back (first ∷ []) = []
pop_back (first ∷ second ∷ others) = first ∷ pop_back (second ∷ others)

abbrev pub unseat : List ℕ → ℕ → List ℕ
unseat seats a = pop_back (replace_first seats a (back seats))

abbrev pub leave : Flow → ℕ → ℕ → Flow
leave f b a = record f { b_to_a = set f.b_to_a b (unseat (residents f b) a) }

abbrev pub seat : Flow → ℕ → ℕ → Flow
seat f b a = record f {
  b_to_a = set f.b_to_a b (residents f b ++ a ∷ []);
  a_to_b = set f.a_to_b a b;
}

-- The loop that moves each a on the way back, on rounds.
unfoldable pub shift_loop : ℕ → Flow → Search → ℕ → ℕ → Result Flow
shift_loop zero f s start b = diverged
shift_loop (suc rounds) f s start b = elim (get_or s.parent_b b 0 == start) [
  | true ↦ ok (seat f b (get_or s.parent_b b 0))
  | false ↦
      shift_loop rounds
        (seat (leave f (get_or s.parent_a (get_or s.parent_b b 0) 0) (get_or s.parent_b b 0)) b
          (get_or s.parent_b b 0))
        s start (get_or s.parent_a (get_or s.parent_b b 0) 0)
]

-- One a that has no b: the search, and on success the way back.
abbrev pub after_path : List ℕ → Flow → ℕ → Option ℕ × Search → Result (Flow × Search)
after_path b_max f a (none, s) = ok (f, s)
after_path b_max f a (some b, s) = shift_loop (length b_max) f s a b >>= λ moved.
    ok (record moved { assigned_count = suc moved.assigned_count }, s)

abbrev pub place : List (List ℕ) → List ℕ → ℕ → Flow → Search → ℕ → Result (Flow × Search)
place a_b_options b_max unassigned f s a = elim (get_or f.a_to_b a unassigned == unassigned) [
  | true ↦ find_augmenting_path a_b_options b_max f s a >>= λ path. after_path b_max f a path
  | false ↦ ok (f, s)
]

-- Step 3b, from `a` on, with so many a's left.
unfoldable pub place_loop :
    ℕ → List (List ℕ) → List ℕ → ℕ → Flow → Search → ℕ → Result (Flow × Search)
place_loop zero a_b_options b_max unassigned f s a = ok (f, s)
place_loop (suc left) a_b_options b_max unassigned f s a =
    place a_b_options b_max unassigned f s a >>= λ placed.
    place_loop left a_b_options b_max unassigned placed.0 placed.1 (suc a)

-- Step 3a: the new levels, and whether one of them rose.
abbrev pub raise : List ℕ → List ℕ → List ℕ × Bool
raise [] b_max = ([], false)
raise (level ∷ levels) [] = (level ∷ levels, false)
raise (level ∷ levels) (most ∷ b_max) =
    let rest = raise levels b_max in
    if ltb level most then (suc level ∷ rest.0, true) else (level ∷ rest.0, rest.1)

-- The water-filling loop, on rounds.
unfoldable pub water_loop : ℕ → List (List ℕ) → List ℕ → ℕ → Flow → Search → Bool → Result Flow
water_loop rounds a_b_options b_max unassigned f s false = ok f
water_loop zero a_b_options b_max unassigned f s true =
    if ltb f.assigned_count (length a_b_options) then diverged else ok f
water_loop (suc rounds) a_b_options b_max unassigned f s true =
    elim (ltb f.assigned_count (length a_b_options)) [
      | false ↦ ok f
      | true ↦
          place_loop (length a_b_options) a_b_options b_max unassigned
            (record f { current_b_max = (raise f.current_b_max b_max).0 }) s 0
          >>= λ placed.
              water_loop rounds a_b_options b_max unassigned placed.0 placed.1
                (raise f.current_b_max b_max).1
    ]

abbrev pub sum : List ℕ → ℕ
sum [] = 0
sum (first ∷ others) = first + sum others

abbrev pub all_below : ℕ → List ℕ → Bool
all_below bound [] = true
all_below bound (first ∷ others) = ltb first bound && all_below bound others

abbrev pub all_options_below : ℕ → List (List ℕ) → Bool
all_options_below bound [] = true
all_options_below bound (options ∷ others) =
    all_below bound options && all_options_below bound others

abbrev pub no_flow : List (List ℕ) → List ℕ → ℕ → Flow
no_flow a_b_options b_max unassigned = record {
  a_to_b = replicate (length a_b_options) unassigned;
  b_to_a = replicate (length b_max) [];
  current_b_max = replicate (length b_max) 0;
  assigned_count = 0;
}

abbrev pub no_search : List (List ℕ) → List ℕ → Search
no_search a_b_options b_max = record {
  visited_a = replicate (length a_b_options) false;
  visited_b = replicate (length b_max) false;
  parent_a = replicate (length a_b_options) 0;
  parent_b = replicate (length b_max) 0;
}

-- What is returned after the loop; without a's this is nothing as well.
abbrev pub put_out : List (List ℕ) → Flow → List ℕ
put_out a_b_options f = if ltb f.assigned_count (length a_b_options) then [] else f.a_to_b

unfoldable pub assign : List (List ℕ) → List ℕ → ℕ → Result (List ℕ)
assign a_b_options b_max unassigned =
    check (not (all_options_below (length b_max) a_b_options))
    >> (if length a_b_options == 0
        then ok []
        else water_loop (suc (suc (sum b_max))) a_b_options b_max unassigned
            (no_flow a_b_options b_max unassigned) (no_search a_b_options b_max) true
          >>= λ f. ok (put_out a_b_options f))
