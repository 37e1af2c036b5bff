-- ===== src/Assign/Path.antt =====
-- That `find_augmenting_path` of `assign` ends, and what it found (cth/incl/cth/algorithm/combine.hpp).
use cth.Base.{
  ℕ, zero, suc, ◌+◌, ◌≤◌, ◌<◌, ◌≡◌, inl, inr, refl, sym, ap, ◌∙◌, Bool, true, false, List, [], ◌∷◌,
  length, length-replicate, length-set, get_or, get_or-set_ne, replicate, ltb, arith, ℕ_discrete,
  Option, none, some, ok,
}
use cth.Combine.Lists.{has, has_cases, here, here_eq, later, not_both}
use cth.Assign.{
  Flow, Search, residents, visit_b, displace, Explored, reached, onward, explore, path_loop,
  begin_search, find_augmenting_path,
}
use cth.Assign.Flows.{IsFlow}
use cth.Assign.Displaced.{unvisited, set-unvisited, displace-Displaced}
use cth.Assign.Midway.{IsMidway, IsFound}
use cth.Assign.Round.{skip-IsMidway, new-IsFound, moved-IsMidway, residents_free}

ltb_le : (a b : ℕ) → ltb a b ≡ false → b ≤ a
ltb_le a b test = ground arith

ltb_lt : (a b : ℕ) → ltb a b ≡ true → a < b
ltb_lt a b test = ground arith

get_or-replicate-lt : (n i : ℕ) → i < n → get_or (replicate n false) i true ≡ false
get_or-replicate-lt zero i bound = absurd (omega arith)
get_or-replicate-lt (suc n) zero bound = refl
get_or-replicate-lt (suc n) (suc i) bound = get_or-replicate-lt n i (omega arith)

unvisited-replicate : (n : ℕ) → unvisited (replicate n false) ≡ n
unvisited-replicate zero = refl
unvisited-replicate (suc n) = ap suc (unvisited-replicate n)

module _ (options : List (List ℕ)) (b_count unassigned : ℕ) (f : Flow) (start : ℕ)
    (law : IsFlow options b_count unassigned f)
    (absent : (b : ℕ) → has (residents f b) start ≡ false)
    (fits : (a b : ℕ) → has (get_or options a []) b ≡ true → b < b_count) where
  abbrev Midway : ℕ → List ℕ → Search → List (ℕ × ℕ) → List ℕ → Type 0
  Midway current values s trail queue =
      IsMidway options b_count unassigned f start current values s trail queue

  abbrev Outcome : ℕ → Explored → Type 0
  Outcome rounds (reached b t) =
      (trail : List (ℕ × ℕ)) × (a : ℕ) × IsFound options b_count unassigned f start b t trail a
  Outcome rounds (onward t queue) =
      (trail : List (ℕ × ℕ)) × Midway start [] t trail queue
      × (length queue + unvisited t.visited_a ≤ rounds)

  explore_step :
      (current b : ℕ) (values : List ℕ) (s : Search) (trail : List (ℕ × ℕ)) (queue : List ℕ)
      (rounds : ℕ) (seen room : Bool)
      → Midway current (b ∷ values) s trail queue
      → length queue + unvisited s.visited_a ≤ rounds
      → get_or s.visited_b b true ≡ seen
      → ltb (length (residents f b)) (get_or f.current_b_max b 0) ≡ room
      → ((t : Search) (more_trail : List (ℕ × ℕ)) (longer : List ℕ)
          → Midway current values t more_trail longer
          → length longer + unvisited t.visited_a ≤ rounds
          → Outcome rounds (explore f current values t longer))
      → Outcome rounds (elim seen [
        | true ↦ explore f current values s queue
        | false ↦ elim room [
          | true ↦ reached b (visit_b s b current)
          | false ↦
              let moved = displace b (residents f b) (visit_b s b current) queue in
              explore f current values moved.0 moved.1
        ]
      ])
  explore_step current b values s trail queue rounds true room mid bound seen has_room rest =
      rest s trail queue
        (skip-IsMidway options b_count unassigned f start law absent fits current b values s trail
          queue mid (sym (mid.marked_b b (fits current b (mid.left b (here b values)))) ∙ seen))
        bound
  explore_step current b values s trail queue rounds false true mid bound seen has_room rest = (
    trail,
    current,
    new-IsFound options b_count unassigned f start law absent fits current b values s trail queue
        mid (sym (mid.marked_b b (fits current b (mid.left b (here b values)))) ∙ seen)
        (ltb_lt (length (residents f b)) (get_or f.current_b_max b 0) has_room),
  )
  explore_step current b values s trail queue rounds false false mid bound seen has_room rest =
      let fresh = sym (mid.marked_b b (fits current b (mid.left b (here b values)))) ∙ seen in
      let moved =
        displace-Displaced b (residents f b) (visit_b s b current) queue (law.distinct b)
          (mid.sized.a_parents ∙ sym mid.sized.a_sized)
          (residents_free options b_count unassigned f start law absent fits current b values s
            trail queue mid fresh) in
      let done = displace b (residents f b) (visit_b s b current) queue in
      rest done.0 ((b, current) ∷ trail) done.1
        (moved-IsMidway options b_count unassigned f start law absent fits current b values s trail
          queue mid fresh (ltb_le (length (residents f b)) (get_or f.current_b_max b 0) has_room)
          done.0 done.1 moved)
        (omega (arith, moved.measure))

  -- Between two rounds no options are left.
  end-Midway :
      (current : ℕ) (s : Search) (trail : List (ℕ × ℕ)) (queue : List ℕ)
      → Midway current [] s trail queue
      → Midway start [] s trail queue
  end-Midway current s trail queue mid = record {
    sized = mid.sized;
    path = mid.path;
    marked_b = mid.marked_b;
    marked_a = mid.marked_a;
    parents_b = mid.parents_b;
    parents_a = mid.parents_a;
    queued = mid.queued;
    full = mid.full;
    covered = λ a v. elim (mid.covered a v) [
      | inl waits ↦ inl waits
      | inr knows ↦ inr (λ b offered. elim (knows b offered) [
        | inl known ↦ inl known
        | inr (_, member) ↦ absurd (not_both false member refl)
      ])
    ];
    visited = inl refl;
    left = λ b member. absurd (not_both false member refl);
  }

  begin-Midway :
      (current : ℕ) (s : Search) (trail : List (ℕ × ℕ)) (queue : List ℕ)
      → Midway start [] s trail (current ∷ queue)
      → Midway current (get_or options current []) s trail queue
  begin-Midway current s trail queue mid = record {
    sized = mid.sized;
    path = mid.path;
    marked_b = mid.marked_b;
    marked_a = mid.marked_a;
    parents_b = mid.parents_b;
    parents_a = mid.parents_a;
    queued = λ a waits. mid.queued a (later current queue a waits);
    full = mid.full;
    covered = λ a v. elim (mid.covered a v) [
      | inl waits ↦ elim (has_cases current queue a waits) [
        | inl same ↦
            inr (λ b offered. inr (sym same, ap (λ i. has (get_or options i []) b) same ∙ offered))
        | inr old ↦ inl old
      ]
      | inr knows ↦ inr (λ b offered. elim (knows b offered) [
        | inl known ↦ inl known
        | inr (_, member) ↦ absurd (not_both false member refl)
      ])
    ];
    visited = mid.queued current (here current queue);
    left = λ b member. member;
  }

  explore-Outcome :
      (current : ℕ) (values : List ℕ) (s : Search) (trail : List (ℕ × ℕ)) (queue : List ℕ)
      (rounds : ℕ)
      → Midway current values s trail queue
      → length queue + unvisited s.visited_a ≤ rounds
      → Outcome rounds (explore f current values s queue)
  explore-Outcome current [] s trail queue rounds mid bound =
      (trail, end-Midway current s trail queue mid, bound)
  explore-Outcome current (b ∷ values) s trail queue rounds mid bound =
      explore_step current b values s trail queue rounds (get_or s.visited_b b true)
        (ltb (length (residents f b)) (get_or f.current_b_max b 0)) mid bound refl refl
        (λ t more_trail longer. explore-Outcome current values t more_trail longer rounds)

  -- What the search ends with: a path to a b with room, or no b with room at all.
  abbrev pub Ends : Option ℕ × Search → Type 0
  Ends (some b, t) =
      (trail : List (ℕ × ℕ)) × (a : ℕ) × IsFound options b_count unassigned f start b t trail a
  Ends (none, t) = (trail : List (ℕ × ℕ)) × Midway start [] t trail []

  after_round :
      (rounds : ℕ) (explored : Explored)
      → Outcome rounds explored
      → ((t : Search) (trail : List (ℕ × ℕ)) (queue : List ℕ)
          → Midway start [] t trail queue
          → length queue + unvisited t.visited_a ≤ rounds
          → (end : Option ℕ × Search) × (path_loop rounds options f t queue ≡ ok end) × Ends end)
      → (end : Option ℕ × Search) × (elim explored [
        | reached b found ↦ ok (some b, found)
        | onward further longer ↦ path_loop rounds options f further longer
      ]
          ≡ ok end)
        × Ends end
  after_round rounds (reached b t) outcome rest = ((some b, t), refl, outcome)
  after_round rounds (onward t queue) outcome rest = rest t outcome.0 queue outcome.1 outcome.2

  path_loop-Ends :
      (rounds : ℕ) (s : Search) (trail : List (ℕ × ℕ)) (queue : List ℕ)
      → Midway start [] s trail queue
      → length queue + unvisited s.visited_a ≤ rounds
      → (end : Option ℕ × Search) × (path_loop rounds options f s queue ≡ ok end) × Ends end
  unfolding path_loop
  path_loop-Ends rounds s trail [] mid bound = ((none, s), refl, (trail, mid))
  path_loop-Ends zero s trail (a ∷ queue) mid bound = absurd (omega arith)
  path_loop-Ends (suc rounds) s trail (a ∷ queue) mid bound =
      after_round rounds (explore f a (get_or options a []) s queue)
        (explore-Outcome a (get_or options a []) s trail queue rounds
          (begin-Midway a s trail queue mid) (omega arith))
        (path_loop-Ends rounds)

  first-Midway :
      (b_max : List ℕ) (s : Search)
      → length b_max ≡ b_count
      → length s.parent_a ≡ length options
      → length s.parent_b ≡ b_count
      → start < length options
      → Midway start [] (begin_search options b_max s start) [] (start ∷ [])
  first-Midway b_max s b_sized a_parents b_parents inside = record {
    sized = record {
      a_sized =
          length-set (replicate (length options) false) start true
          ∙ length-replicate (length options) false;
      a_parents = a_parents;
      b_sized = length-replicate (length b_max) false ∙ b_sized;
      b_parents = b_parents;
    };
    path = tt;
    marked_b = λ b bound. get_or-replicate-lt (length b_max) b (omega (arith, b_sized));
    marked_a = λ a bound marked. elim (ℕ_discrete a start) [
      | yes same ↦ inl same
      | no other ↦ absurd (
          not_both (get_or (begin_search options b_max s start).visited_a a true) marked (
            get_or-set_ne (replicate (length options) false) start a true true (λ e. other (sym e))
            ∙ get_or-replicate-lt (length options) a bound))
    ];
    parents_b = λ b a e. absurd (none_some e);
    parents_a = λ a b sits key. absurd (not_both false key refl);
    queued = λ a waits. elim (has_cases start [] a waits) [
      | inl same ↦ inl (sym same)
      | inr never ↦ absurd (not_both false never refl)
    ];
    full = λ b key. absurd (not_both false key refl);
    covered = λ a v. elim v [
      | inl first ↦ inl (here_eq start [] a (sym first))
      | inr (b, sits, key) ↦ absurd (not_both false key refl)
    ];
    visited = inl refl;
    left = λ b member. absurd (not_both false member refl);
  }
    where
      none_some : {n : ℕ} → none ≡ some n → ⊥
      none_some e = cc

  -- The search ends in as many rounds as there are a's.
  pub find_augmenting_path-Ends :
      (b_max : List ℕ) (s : Search)
      → length b_max ≡ b_count
      → length s.parent_a ≡ length options
      → length s.parent_b ≡ b_count
      → start < length options
      → (end : Option ℕ × Search) × (find_augmenting_path options b_max f s start ≡ ok end)
        × Ends end
  unfolding find_augmenting_path
  find_augmenting_path-Ends b_max s b_sized a_parents b_parents inside =
      path_loop-Ends (length options) (begin_search options b_max s start) [] (start ∷ [])
        (first-Midway b_max s b_sized a_parents b_parents inside)
        (omega (
          arith,
          set-unvisited (replicate (length options) false) start
              (get_or-replicate-lt (length options) start inside),
          unvisited-replicate (length options),
        ))
