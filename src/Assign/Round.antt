-- ===== src/Assign/Round.antt =====
-- What `find_augmenting_path` of `assign` knows after each option that it looks at (cth/incl/cth/algorithm/combine.hpp).
use cth.Base.{
  ℕ, zero, suc, ◌≤◌, ◌<◌, ◌≡◌, ◌⊎◌, inl, inr, refl, sym, ap, subst, ◌∙◌, true, false, List, [], ◌∷◌,
  length, length-set, get_or, set, get_or-set_self, get_or-set_ne, ==_iff, if-true, if-false,
  Bool-cases, arith, ℕ_discrete, some,
}
use cth.Combine.{lookup}
use cth.Combine.Keys.{keys, some-injective}
use cth.Combine.Lists.{has, has_cases, here, here_eq, later, not_both, Bool_no}
use cth.Assign.{Flow, Search, residents, visit_b}
use cth.Assign.Seats.{==_no}
use cth.Assign.Flows.{IsFlow}
use cth.Assign.Midway.{Visited, Trail, IsSized, IsMidway, IsFound, Visited-later}
use cth.Assign.Displaced.{Displaced}

module _ (options : List (List ℕ)) (b_count unassigned : ℕ) (f : Flow) (start : ℕ) where
  module _ (law : IsFlow options b_count unassigned f)
      (absent : (b : ℕ) → has (residents f b) start ≡ false)
      (fits : (a b : ℕ) → has (get_or options a []) b ≡ true → b < b_count) (current b : ℕ)
      (values : List ℕ) (s : Search) (trail : List (ℕ × ℕ)) (queue : List ℕ)
      (mid : IsMidway options b_count unassigned f start current (b ∷ values) s trail queue) where
    in_range : b < b_count
    in_range = fits current b (mid.left b (here b values))

    pub skip-IsMidway :
        has (keys trail) b ≡ true
        → IsMidway options b_count unassigned f start current values s trail queue
    skip-IsMidway key = record {
      sized = mid.sized;
      path = mid.path;
      marked_b = mid.marked_b;
      marked_a = mid.marked_a;
      parents_b = mid.parents_b;
      parents_a = mid.parents_a;
      queued = mid.queued;
      full = mid.full;
      covered = λ a v. elim (mid.covered a v) [
        | inl waits ↦ inl waits
        | inr knows ↦ inr (λ at offered. elim (knows at offered) [
          | inl known ↦ inl known
          | inr (same, member) ↦ elim (has_cases b values at member) [
            | inl first ↦ inl (ap (has (keys trail)) (sym first) ∙ key)
            | inr deeper ↦ inr (same, deeper)
          ]
        ])
      ];
      visited = mid.visited;
      left = λ at member. mid.left at (later b values at member);
    }

    new_path :
        has (keys trail) b ≡ false → Trail options b_count unassigned f start ((b, current) ∷ trail)
    new_path fresh = (fresh, mid.left b (here b values), mid.visited, mid.path)

    new-IsSized : IsSized options b_count unassigned f start (visit_b s b current)
    new-IsSized = record {
      a_sized = mid.sized.a_sized;
      a_parents = mid.sized.a_parents;
      b_sized = length-set s.visited_b b true ∙ mid.sized.b_sized;
      b_parents = length-set s.parent_b b current ∙ mid.sized.b_parents;
    }

    new_parents_b :
        (at n : ℕ)
        → lookup ((b, current) ∷ trail) at ≡ some n
        → get_or (visit_b s b current).parent_b at 0 ≡ n
    new_parents_b at n e = elim (ℕ_discrete b at) [
      | yes same ↦
          ap (λ i. get_or (set s.parent_b b current) i 0) (sym same)
          ∙ get_or-set_self s.parent_b b current 0 (omega (arith, in_range, mid.sized.b_parents))
          ∙ some-injective
              (sym (if-true ((==_iff b at).1 same) (some current) (lookup trail at)) ∙ e)
      | no other ↦
          get_or-set_ne s.parent_b b at current 0 other
          ∙ mid.parents_b at n
              (sym (if-false (==_no b at other) (some current) (lookup trail at)) ∙ e)
    ]

    pub new-IsFound :
        has (keys trail) b ≡ false
        → length (residents f b) < get_or f.current_b_max b 0
        → IsFound options b_count unassigned f start b (visit_b s b current) trail current
    new-IsFound fresh room = record {
      sized = new-IsSized;
      path = new_path fresh;
      parents_b = new_parents_b;
      parents_a = mid.parents_a;
      room = room;
    }

    module _ (fresh : has (keys trail) b ≡ false)
        (unfull : get_or f.current_b_max b 0 ≤ length (residents f b)) (t : Search)
        (longer : List ℕ)
        (moved : Displaced b (residents f b) (visit_b s b current) queue t longer) where
      moved_marked_b :
          (at : ℕ) → at < b_count → get_or t.visited_b at true ≡ has (b ∷ keys trail) at
      moved_marked_b at bound =
          ap (λ marks. get_or marks at true) moved.same_visited_b ∙ elim (ℕ_discrete b at) [
            | yes same ↦
                ap (λ i. get_or (set s.visited_b b true) i true) (sym same)
                ∙ get_or-set_self s.visited_b b true true
                    (omega (arith, in_range, mid.sized.b_sized))
                ∙ sym (here_eq b (keys trail) at same)
            | no other ↦
                get_or-set_ne s.visited_b b at true true other
                ∙ mid.marked_b at bound
                ∙ sym (if-false (==_no b at other) true (has (keys trail) at))
          ]

      moved_marked_a :
          (a : ℕ)
          → a < length options
          → get_or t.visited_a a true ≡ true
          → Visited options b_count unassigned f start ((b, current) ∷ trail) a
      moved_marked_a a bound marked = elim (Bool-cases (has (residents f b) a)) [
        | inl sits ↦ inr (b, sits, here b (keys trail))
        | inr away ↦
            Visited-later options b_count unassigned f start (b, current) trail a
              (mid.marked_a a bound (
                sym (if-false away true (get_or s.visited_a a true))
                ∙ sym (moved.visited a)
                ∙ marked))
      ]

      moved_parents_a :
          (a at : ℕ)
          → has (residents f at) a ≡ true
          → has (b ∷ keys trail) at ≡ true
          → get_or t.parent_a a 0 ≡ at
      moved_parents_a a at sits key = moved.parent a ∙ elim (has_cases b (keys trail) at key) [
        | inl same ↦
            if-true (ap (λ i. has (residents f i) a) same ∙ sits) b (get_or s.parent_a a 0) ∙ same
        | inr old ↦
            if-false
              (Bool_no (has (residents f b) a) (λ here_too.
                not_both (has (keys trail) b)
                  (ap (has (keys trail)) (sym (law.resident a b here_too) ∙ law.resident a at sits)
                    ∙ old)
                  fresh))
              b (get_or s.parent_a a 0)
            ∙ mid.parents_a a at sits old
      ]

      moved_queued :
          (a : ℕ)
          → has longer a ≡ true
          → Visited options b_count unassigned f start ((b, current) ∷ trail) a
      moved_queued a waits = elim (Bool-cases (has queue a)) [
        | inl old ↦
            Visited-later options b_count unassigned f start (b, current) trail a (mid.queued a old)
        | inr new ↦ inr (
          b,
          sym (if-false new true (has (residents f b) a)) ∙ sym (moved.queued a) ∙ waits,
          here b (keys trail),
        )
      ]

      abbrev Covers : ℕ → Type 0
      Covers a =
          (has longer a ≡ true)
          ⊎ ((at : ℕ)
              → has (get_or options a []) at ≡ true
              → (has (b ∷ keys trail) at ≡ true) ⊎ (a ≡ current) × (has values at ≡ true))

      older-Covers : (a : ℕ) → Visited options b_count unassigned f start trail a → Covers a
      older-Covers a v = elim (mid.covered a v) [
        | inl waits ↦ inl (moved.queued a ∙ if-true waits true (has (residents f b) a))
        | inr knows ↦ inr (λ at offered. elim (knows at offered) [
          | inl known ↦ inl (later b (keys trail) at known)
          | inr (same, member) ↦ elim (has_cases b values at member) [
            | inl first ↦ inl (here_eq b (keys trail) at first)
            | inr deeper ↦ inr (same, deeper)
          ]
        ])
      ]

      moved-Covers :
          (a : ℕ) → Visited options b_count unassigned f start ((b, current) ∷ trail) a → Covers a
      moved-Covers a (inl first) = older-Covers a (inl first)
      moved-Covers a (inr (at, sits, key)) = elim (has_cases b (keys trail) at key) [
        | inl same ↦ inl (
            moved.queued a ∙ elim (Bool-cases (has queue a)) [
              | inl old ↦ if-true old true (has (residents f b) a)
              | inr new ↦
                  if-false new true (has (residents f b) a)
                  ∙ ap (λ i. has (residents f i) a) same
                  ∙ sits
            ])
        | inr old ↦ older-Covers a (inr (at, sits, old))
      ]

      pub moved-IsMidway :
          IsMidway options b_count unassigned f start current values t ((b, current) ∷ trail) longer
      moved-IsMidway = record {
        sized = record {
          a_sized = moved.same_length ∙ mid.sized.a_sized;
          a_parents = moved.same_parents ∙ mid.sized.a_parents;
          b_sized = ap length moved.same_visited_b ∙ new-IsSized.b_sized;
          b_parents = ap length moved.same_parent_b ∙ new-IsSized.b_parents;
        };
        path = new_path fresh;
        marked_b = moved_marked_b;
        marked_a = moved_marked_a;
        parents_b = λ at n e.
            ap (λ parents. get_or parents at 0) moved.same_parent_b ∙ new_parents_b at n e;
        parents_a = moved_parents_a;
        queued = moved_queued;
        full = λ at key. elim (has_cases b (keys trail) at key) [
          | inl same ↦ subst (λ i. get_or f.current_b_max i 0 ≤ length (residents f i)) same unfull
          | inr old ↦ mid.full at old
        ];
        covered = moved-Covers;
        visited =
            Visited-later options b_count unassigned f start (b, current) trail current mid.visited;
        left = λ at member. mid.left at (later b values at member);
      }

    -- Nobody who sits with a b that was not visited was visited.
    pub residents_free :
        has (keys trail) b ≡ false
        → (a : ℕ) → has (residents f b) a ≡ true
        → get_or s.visited_a a true ≡ false
    residents_free fresh a sits = Bool_no (get_or s.visited_a a true) (λ marked.
        elim (mid.marked_a a (has_options a b sits) marked) [
          | inl first ↦
              not_both (has (residents f b) a) sits (ap (has (residents f b)) first ∙ absent b)
          | inr (at, there, key) ↦
              not_both (has (keys trail) b)
                (ap (has (keys trail)) (sym (law.resident a b sits) ∙ law.resident a at there)
                  ∙ key)
                fresh
        ])
      where
        options-lt :
            (lists : List (List ℕ)) (n m : ℕ) → has (get_or lists n []) m ≡ true → n < length lists
        options-lt [] n m member = absurd (not_both false member refl)
        options-lt (first ∷ others) zero m member = omega arith
        options-lt (first ∷ others) (suc n) m member = omega (arith, options-lt others n m member)

        has_options : (n m : ℕ) → has (residents f m) n ≡ true → n < length options
        has_options n m there = options-lt options n m (law.offered n m there)
