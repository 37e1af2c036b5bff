-- ===== src/Assign/Moved.antt =====
-- One a on a path of `assign` moves from its b to the next (cth/incl/cth/algorithm/combine.hpp).
use cth.Base.{
  ℕ, zero, suc, ◌≤◌, ◌<◌, ◌≡◌, ◌≢◌, ◌↔◌, inl, inr, refl, sym, ap, ◌∙◌, true, false, List, [], ◌∷◌,
  length, get_or, ==_iff, if-true, arith,
}
use cth.Combine.Keys.{keys}
use cth.Combine.Lists.{has, has-other, later, not_both, Bool_no}
use cth.Assign.{Flow, residents, leave, seat}
use cth.Assign.Flows.{
  IsFlow, IsFlowBut, leave-IsFlowBut, leave_still, leave_was, length-leave, seat-IsFlow, seat_still,
  seat_was, seat_a, seat_b,
}
use cth.Assign.Midway.{Trail}

-- What holds while the a's on a path move, where the path is free from `b` on.
module _ (options : List (List ℕ)) (b_count unassigned : ℕ) (f0 : Flow) (start : ℕ) where
  pub record IsShifting (f : Flow) (earlier : List (ℕ × ℕ)) (b : ℕ) : Type 0 where
    pub flow : IsFlow options b_count unassigned f
    pub room : length (residents f b) < get_or f.current_b_max b 0
    pub start_absent : (at : ℕ) → has (residents f at) start ≡ false
    pub kept :
        (n at : ℕ)
        → has (residents f0 at) n ≡ true
        → has (keys earlier) at ≡ true
        → at ≢ b
        → has (residents f at) n ≡ true
    pub placed :
        (n : ℕ)
        → (get_or f.a_to_b n unassigned ≡ unassigned) ↔ (get_or f0.a_to_b n unassigned ≡ unassigned)
    pub same_level : f.current_b_max ≡ f0.current_b_max
    pub same_count : f.assigned_count ≡ f0.assigned_count

module _ (options : List (List ℕ)) (b_count unassigned : ℕ) (f0 : Flow) (start : ℕ)
    (law : IsFlow options b_count unassigned f0)
    (absent : (b : ℕ) → has (residents f0 b) start ≡ false)
    (fits : (a b : ℕ) → has (get_or options a []) b ≡ true → b < b_count)
    (small : b_count ≤ unassigned) (inside : start < length options) where
  options-lt :
      (lists : List (List ℕ)) (n m : ℕ) → has (get_or lists n []) m ≡ true → n < length lists
  options-lt [] n m member = absurd (not_both false member refl)
  options-lt (first ∷ others) zero m member = omega arith
  options-lt (first ∷ others) (suc n) m member = omega (arith, options-lt others n m member)

  module _ (f : Flow) (b a previous : ℕ) (earlier : List (ℕ × ℕ))
      (c : IsShifting options b_count unassigned f0 start f ((b, a) ∷ earlier) b)
      (path : Trail options b_count unassigned f0 start ((b, a) ∷ earlier))
      (sits0 : has (residents f0 previous) a ≡ true)
      (key : has (keys earlier) previous ≡ true) where
    apart : previous ≢ b
    apart e = has-other (keys earlier) b previous path.0 key (sym e)

    sits : has (residents f previous) a ≡ true
    sits = c.kept a previous sits0 (later b (keys earlier) previous key) apart

    pub not_start : a ≢ start
    not_start e =
        not_both (has (residents f0 previous) a) sits0
          (ap (has (residents f0 previous)) e ∙ absent previous)

    previous-lt : previous < b_count
    previous-lt = fits a previous (law.offered a previous sits0)

    b-lt : b < b_count
    b-lt = fits a b path.1

    a-lt : a < length options
    a-lt = options-lt options a b path.1

    away : IsFlowBut options b_count unassigned a (leave f previous a)
    away = leave-IsFlowBut options b_count unassigned f previous a c.flow sits previous-lt

    abbrev moved : Flow
    moved = seat (leave f previous a) b a

    moved-room_b : length (residents (leave f previous a) b) < get_or f.current_b_max b 0
    moved-room_b = omega (
      arith,
      length-leave options b_count unassigned f previous a c.flow sits previous-lt b,
      c.room,
    )

    moved-IsFlow : IsFlow options b_count unassigned moved
    moved-IsFlow =
        seat-IsFlow options b_count unassigned (leave f previous a) b a away b-lt a-lt moved-room_b
          path.1

    -- The b that was left has room now.
    moved-room : length (residents moved previous) < get_or f.current_b_max previous 0
    moved-room =
        elim (seat_b options b_count unassigned (leave f previous a) b a away b-lt a-lt previous) [
          | inl (same, _) ↦ absurd (apart same)
          | inr (_, now) ↦ omega (
            arith,
            ap length now,
            length-leave options b_count unassigned f previous a c.flow sits previous-lt previous,
            if-true {A = ℕ} ((==_iff previous previous).1 refl) 1 0,
            c.flow.loaded previous,
          )
        ]

    moved-absent : (at : ℕ) → has (residents moved at) start ≡ false
    moved-absent at = Bool_no (has (residents moved at) start) (λ there.
        elim (seat_was options b_count unassigned (leave f previous a) b a away b-lt a-lt at start
          there) [
            | inl (same, _) ↦ not_start (sym same)
            | inr (_, old) ↦
                not_both (has (residents f at) start)
                  (leave_was options b_count unassigned f previous a c.flow sits previous-lt at
                    start old)
                  (c.start_absent at)
          ])

    moved-kept :
        (n at : ℕ)
        → has (residents f0 at) n ≡ true
        → has (keys earlier) at ≡ true
        → at ≢ previous
        → has (residents moved at) n ≡ true
    moved-kept n at there reached other =
        seat_still options b_count unassigned (leave f previous a) b a away b-lt a-lt at n (
          leave_still options b_count unassigned f previous a c.flow sits previous-lt at n
            (λ same. other (
              sym (law.resident n at there)
              ∙ law.resident n previous (ap (has (residents f0 previous)) (sym same) ∙ sits0)))
            (c.kept n at there (later b (keys earlier) at reached)
              (λ same. has-other (keys earlier) b at path.0 reached (sym same))))

    moved-placed :
        (n : ℕ)
        → (get_or moved.a_to_b n unassigned ≡ unassigned)
          ↔ (get_or f0.a_to_b n unassigned ≡ unassigned)
    moved-placed n =
        elim (seat_a options b_count unassigned (leave f previous a) b a away b-lt a-lt n) [
          | inl (same, now) ↦ (
            (λ e. absurd (never b-lt (sym now ∙ e))),
            (λ e. absurd (
                never previous-lt (
                  sym (law.resident a previous sits0)
                  ∙ ap (λ i. get_or f0.a_to_b i unassigned) (sym same)
                  ∙ e))),
          )
          | inr (_, now) ↦ ((λ e. (c.placed n).0 (sym now ∙ e)), (λ e. now ∙ (c.placed n).1 e))
        ]
      where
        never : {at : ℕ} → at < b_count → at ≡ unassigned → ⊥
        never bound e = omega (arith, small)

    pub moved-IsShifting : IsShifting options b_count unassigned f0 start moved earlier previous
    moved-IsShifting = record {
      flow = moved-IsFlow;
      room = moved-room;
      start_absent = moved-absent;
      kept = moved-kept;
      placed = moved-placed;
      same_level = c.same_level;
      same_count = c.same_count;
    }
