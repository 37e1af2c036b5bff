-- ===== src/Assign/Shift.antt =====
-- The loop of `assign` that moves the a's on a path, each to the b that the search saw it offer
-- (cth/incl/cth/algorithm/combine.hpp).
use cth.Base.{
  ℕ, zero, suc, ◌≤◌, ◌<◌, ◌≡◌, ◌≢◌, ◌↔◌, inl, inr, refl, sym, ap, subst, ◌∙◌, Bool, true, false,
  List, [], ◌∷◌, length, get_or, ◌==◌, ==_iff, arith, ℕ_discrete, some, ok,
}
use cth.Combine.{lookup}
use cth.Combine.Keys.{keys, lookup-here, lookup-later}
use cth.Combine.Lists.{has, has_cases, has-other, here, later, not_both}
use cth.Assign.{Flow, Search, residents, leave, seat, shift_loop}
use cth.Assign.Seats.{==_no}
use cth.Assign.Flows.{IsFlow, absent-IsFlowBut, seat-IsFlow, seat_a}
use cth.Assign.Moved.{IsShifting, moved-IsShifting, not_start}
use cth.Assign.Midway.{Visited, Trail, IsFound}

-- The a's with a b are those of before and the new one.
abbrev pub Filled : ℕ → Flow → Flow → ℕ → Type 0
Filled unassigned before after new =
    (n : ℕ)
    → (get_or after.a_to_b n unassigned ≡ unassigned)
      ↔ (get_or before.a_to_b n unassigned ≡ unassigned) × (n ≢ new)

module _ (options : List (List ℕ)) (b_count unassigned : ℕ) (f0 : Flow) (start : ℕ) (s : Search)
    (law : IsFlow options b_count unassigned f0)
    (absent : (b : ℕ) → has (residents f0 b) start ≡ false)
    (fits : (a b : ℕ) → has (get_or options a []) b ≡ true → b < b_count)
    (small : b_count ≤ unassigned) (inside : start < length options) where
  abbrev Shifts : Flow → ℕ → ℕ → Type 0
  Shifts f rounds b =
      (after : Flow) × (shift_loop rounds f s start b ≡ ok after)
      × IsFlow options b_count unassigned after
      × Filled unassigned f0 after start
      × (after.current_b_max ≡ f0.current_b_max)
      × (after.assigned_count ≡ f0.assigned_count)

  -- One turn of the loop, by the a that it moves.
  shift_loop-suc :
      (rounds : ℕ) (f : Flow) (b a : ℕ) (last : Bool)
      → get_or s.parent_b b 0 ≡ a
      → (a == start) ≡ last
      → shift_loop (suc rounds) f s start b ≡ (elim last [
        | true ↦ ok (seat f b a)
        | false ↦
            shift_loop rounds
              (seat (leave f (get_or s.parent_a a 0) a) b a)
              s
              start
              (get_or s.parent_a a 0)
      ])
  unfolding shift_loop
  shift_loop-suc rounds f b a last parent test =
      ap
        (λ n. elim (n == start) [
          | true ↦ ok (seat f b n)
          | false ↦
              shift_loop rounds (seat (leave f (get_or s.parent_a n 0) n) b n) s start
                (get_or s.parent_a n 0)
        ])
        parent
      ∙ ap
          (λ t. elim t [
            | true ↦ ok (seat f b a)
            | false ↦
                shift_loop rounds (seat (leave f (get_or s.parent_a a 0) a) b a) s start
                  (get_or s.parent_a a 0)
          ])
          test

  -- The last turn: `start` sits down.
  last-Filled :
      (f : Flow) (b : ℕ) (earlier : List (ℕ × ℕ))
      → IsShifting options b_count unassigned f0 start f earlier b
      → has (get_or options start []) b ≡ true
      → IsFlow options b_count unassigned (seat f b start)
        × Filled unassigned f0 (seat f b start) start
  last-Filled f b earlier c offers =
      let but = absent-IsFlowBut options b_count unassigned f start c.flow c.start_absent in
      (
        seat-IsFlow options b_count unassigned f b start but (fits start b offers) inside c.room
            offers,
        λ n. elim (seat_a options b_count unassigned f b start but (fits start b offers) inside n) [
          | inl (same, now) ↦ ((λ e. absurd (real (sym now ∙ e))), (λ e. absurd (e.1 same)))
          | inr (other, now) ↦
              ((λ e. ((c.placed n).0 (sym now ∙ e), other)), (λ e. now ∙ (c.placed n).1 e.0))
        ],
      )
    where
      real : b ≡ unassigned → ⊥
      real e = omega (arith, fits start b offers, small)

  -- The turn of the b at the end of the path.
  shift_head :
      (rounds : ℕ) (f : Flow) (b a : ℕ) (earlier : List (ℕ × ℕ))
      → IsShifting options b_count unassigned f0 start f ((b, a) ∷ earlier) b
      → Trail options b_count unassigned f0 start ((b, a) ∷ earlier)
      → get_or s.parent_b b 0 ≡ a
      → ((n at : ℕ)
          → has (residents f0 at) n ≡ true
          → has (keys earlier) at ≡ true
          → get_or s.parent_a n 0 ≡ at)
      → Visited options b_count unassigned f0 start earlier a
      → ((next : Flow) (previous : ℕ)
          → IsShifting options b_count unassigned f0 start next earlier previous
          → has (keys earlier) previous ≡ true
          → Shifts next rounds previous)
      → Shifts f (suc rounds) b
  shift_head rounds f b a earlier c path parent parents_a (inl first) rest =
      let offers = ap (λ i. has (get_or options i []) b) (sym first) ∙ path.1 in
      let last = last-Filled f b ((b, a) ∷ earlier) c offers in
      (
        seat f b start,
        shift_loop-suc rounds f b start true (parent ∙ first) ((==_iff start start).1 refl),
        last.0,
        last.1,
        c.same_level,
        c.same_count,
      )
  shift_head rounds f b a earlier c path parent parents_a (inr (previous, sits0, key)) rest =
      let up =
        rest (seat (leave f previous a) b a) previous
          (moved-IsShifting options b_count unassigned f0 start law absent fits small inside f b a
            previous earlier c path sits0 key)
          key in
      (
        up.0,
        shift_loop-suc rounds f b a false parent (
              ==_no a start (
                not_start options b_count unassigned f0 start law absent fits small inside f b a
                  previous earlier c path sits0 key))
            ∙ ap (λ at. shift_loop rounds (seat (leave f at a) b a) s start at)
                (parents_a a previous sits0 key)
            ∙ up.1,
        up.2,
        up.3,
        up.4,
        up.5,
      )

  skip-IsShifting :
      (f : Flow) (key a : ℕ) (earlier : List (ℕ × ℕ)) (b : ℕ)
      → IsShifting options b_count unassigned f0 start f ((key, a) ∷ earlier) b
      → IsShifting options b_count unassigned f0 start f earlier b
  skip-IsShifting f key a earlier b c = record {
    flow = c.flow;
    room = c.room;
    start_absent = c.start_absent;
    kept = λ n at there reached. c.kept n at there (later key (keys earlier) at reached);
    placed = c.placed;
    same_level = c.same_level;
    same_count = c.same_count;
  }

  shift_loop-Shifts :
      (rounds : ℕ) (earlier : List (ℕ × ℕ)) (f : Flow) (b : ℕ)
      → IsShifting options b_count unassigned f0 start f earlier b
      → Trail options b_count unassigned f0 start earlier
      → ((at n : ℕ) → lookup earlier at ≡ some n → get_or s.parent_b at 0 ≡ n)
      → ((n at : ℕ)
          → has (residents f0 at) n ≡ true
          → has (keys earlier) at ≡ true
          → at ≢ b
          → get_or s.parent_a n 0 ≡ at)
      → has (keys earlier) b ≡ true
      → length earlier ≤ rounds
      → Shifts f rounds b
  shift_loop-Shifts rounds [] f b c path parents_b parents_a reached bound =
      absurd (not_both false reached refl)
  shift_loop-Shifts zero ((key, a) ∷ earlier) f b c path parents_b parents_a reached bound =
      absurd (omega arith)
  shift_loop-Shifts (suc rounds) ((key, a) ∷ earlier) f b c path parents_b parents_a reached bound =
      elim (ℕ_discrete key b) [
        | yes same ↦
            shift_head rounds f b a earlier
              (subst (λ k. IsShifting options b_count unassigned f0 start f ((k, a) ∷ earlier) b)
                same c)
              (subst (λ k. Trail options b_count unassigned f0 start ((k, a) ∷ earlier)) same path)
              (parents_b b a (ap (λ k. lookup ((k, a) ∷ earlier) b) same ∙ lookup-here b a earlier))
              (λ n at there key_at.
                parents_a n at there (later key (keys earlier) at key_at)
                  (λ is_b. has-other (keys earlier) key at path.0 key_at (same ∙ sym is_b)))
              path.2
              (λ next previous up reached_up.
                shift_loop-Shifts rounds earlier next previous up path.3
                  (λ at n e. parents_b at n (lookup-later key a earlier at n path.0 e))
                  (λ n at there key_at _.
                    parents_a n at there (later key (keys earlier) at key_at)
                      (λ is_b. has-other (keys earlier) key at path.0 key_at (same ∙ sym is_b)))
                  reached_up (omega arith))
        | no other ↦
            shift_loop-Shifts (suc rounds) earlier f b (skip-IsShifting f key a earlier b c) path.3
              (λ at n e. parents_b at n (lookup-later key a earlier at n path.0 e))
              (λ n at there key_at. parents_a n at there (later key (keys earlier) at key_at))
              (elim (has_cases key (keys earlier) b reached) [
                | inl same ↦ absurd (other same)
                | inr deeper ↦ deeper
              ])
              (omega arith)
      ]

-- From the end of a path that the search found, each a moves on and the first one sits down.
pub shift_loop-Filled :
    (options : List (List ℕ)) (b_count unassigned : ℕ) (f : Flow) (start : ℕ) (s : Search) (b a : ℕ)
    (trail : List (ℕ × ℕ)) (rounds : ℕ)
    → IsFlow options b_count unassigned f
    → ((at : ℕ) → has (residents f at) start ≡ false)
    → ((n at : ℕ) → has (get_or options n []) at ≡ true → at < b_count)
    → b_count ≤ unassigned
    → start < length options
    → IsFound options b_count unassigned f start b s trail a
    → suc (length trail) ≤ rounds
    → (after : Flow) × (shift_loop rounds f s start b ≡ ok after)
      × IsFlow options b_count unassigned after
      × Filled unassigned f after start
      × (after.current_b_max ≡ f.current_b_max)
      × (after.assigned_count ≡ f.assigned_count)
shift_loop-Filled options b_count unassigned f start s b a trail rounds law absent fits small inside
      found bound =
    shift_loop-Shifts options b_count unassigned f start s law absent fits small inside rounds
      ((b, a) ∷ trail) f b
      (record {
        flow = law;
        room = found.room;
        start_absent = absent;
        kept = λ _ _ there _ _. there;
        placed = λ _. ((λ e. e), (λ e. e));
        same_level = refl;
        same_count = refl;
      })
      found.path found.parents_b
      (λ n at there key other. elim (has_cases b (keys trail) at key) [
        | inl same ↦ absurd (other (sym same))
        | inr old ↦ found.parents_a n at there old
      ])
      (here b (keys trail)) bound
