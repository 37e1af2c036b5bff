-- ===== src/Assign/Water.antt =====
-- The outer loop of `assign`, which raises the levels while some a has no b
-- (cth/incl/cth/algorithm/combine.hpp).
use cth.Base.{
  ℕ, zero, suc, ◌+◌, ◌≤◌, ◌<◌, ◌≡◌, ◌≢◌, ◌⊎◌, inl, inr, refl, sym, ap, subst, ◌∙◌, Bool, true,
  false, List, [], length, length-replicate, get_or, get_or-replicate, ltb, arith, Result, ok,
  ◌>>=◌,
}
use cth.Combine.Lists.{has, Distinct, not_both}
use cth.Assign.{Flow, Search, residents, place_loop, raise, water_loop, sum, no_flow, no_search}
use cth.Assign.Stuck.{Assigns}
use cth.Assign.Vacant.{vacant_none, vacant-replicate}
use cth.Assign.Places.{IsReady, place_loop-Placed}
use cth.Assign.Levels.{
  Fit, Fit-length, Fit-sum, zero-Fit, zero-sum, raise-Fit, raise-le, raise-sum, raise_full,
}

module _ (options : List (List ℕ)) (b_max : List ℕ) (unassigned : ℕ)
    (fits : (a b : ℕ) → has (get_or options a []) b ≡ true → b < length b_max)
    (small : length b_max ≤ unassigned) where
  abbrev pub Stuck : List ℕ → Type 0
  Stuck levels = (out : List ℕ) → Assigns options levels out → ⊥

  -- What the loop ends with: every a has a b, or there is no room for all.
  pub record IsDone (f : Flow) (s : Search) : Type 0 where
    pub ready : IsReady options b_max unassigned fits small f s
    pub fit : Fit f.current_b_max b_max
    pub settled : (length options ≤ f.assigned_count) ⊎ Stuck b_max

  raised-IsReady :
      (f : Flow) (s : Search)
      → IsReady options b_max unassigned fits small f s
      → Fit f.current_b_max b_max
      → IsReady options b_max unassigned fits small
          (record f { current_b_max = (raise f.current_b_max b_max).0 })
          s
  raised-IsReady f s ready fit = record {
    flow = record {
      a_sized = ready.flow.a_sized;
      b_sized = ready.flow.b_sized;
      level_sized =
          Fit-length (raise f.current_b_max b_max).0 b_max (raise-Fit f.current_b_max b_max fit);
      seated = ready.flow.seated;
      resident = ready.flow.resident;
      distinct = ready.flow.distinct;
      loaded = λ b. omega (arith, ready.flow.loaded b, raise-le f.current_b_max b_max b);
      offered = ready.flow.offered;
    };
    a_parents = ready.a_parents;
    b_parents = ready.b_parents;
    counted = ready.counted;
  }

  -- One round of the loop, by the test of the count.
  abbrev water_of : ℕ → Flow → Search → Bool → Result Flow
  water_of rounds f s false = ok f
  water_of rounds f s true =
      place_loop (length options) options b_max unassigned
        (record f { current_b_max = (raise f.current_b_max b_max).0 }) s 0
      >>= λ placed.
          water_loop rounds options b_max unassigned placed.0 placed.1
            (raise f.current_b_max b_max).1

  abbrev Waters : Result Flow → Type 0
  Waters result = (after : Flow) × (t : Search) × (result ≡ ok after) × IsDone after t

  -- The rounds that are left are enough, and without a further round the work is done.
  pub record IsRunning (rounds : ℕ) (f : Flow) (s : Search) (increased : Bool) : Type 0 where
    ready : IsReady options b_max unassigned fits small f s
    fit : Fit f.current_b_max b_max
    enough : increased ≡ true → sum b_max + 1 ≤ rounds + sum f.current_b_max
    settled : increased ≡ false → (length options ≤ f.assigned_count) ⊎ Stuck b_max

  -- After every a had its turn at the raised levels.
  placed-IsRunning :
      (rounds : ℕ) (f : Flow) (s : Search) (after : Flow) (t : Search)
      → IsRunning (suc rounds) f s true
      → IsReady options b_max unassigned fits small after t
      → after.current_b_max ≡ (raise f.current_b_max b_max).0
      → (((n : ℕ) → 0 ≤ n → n < length options → get_or after.a_to_b n unassigned ≢ unassigned)
          ⊎ Stuck (raise f.current_b_max b_max).0)
      → IsRunning rounds after t (raise f.current_b_max b_max).1
  placed-IsRunning rounds f s after t running ready level outcome = record {
    ready = ready;
    fit =
        subst (λ levels. Fit levels b_max) (sym level)
          (raise-Fit f.current_b_max b_max running.fit);
    enough = λ rose.
        omega (arith, running.enough refl, raise-sum f.current_b_max b_max rose, ap sum level);
    settled = λ full. elim outcome [
      | inl seated ↦ inl (
          omega (
            arith,
            ready.counted,
            vacant_none unassigned after.a_to_b
                (λ n bound. seated n (omega arith) (omega (arith, ready.flow.a_sized))),
          ))
      | inr stuck ↦ inr (subst Stuck (raise_full f.current_b_max b_max running.fit full) stuck)
    ];
  }

  water_turn :
      (rounds : ℕ) (f : Flow) (s : Search) (test : Bool)
      → IsRunning (suc rounds) f s true
      → ltb f.assigned_count (length options) ≡ test
      → ((g : Flow) (t : Search) (increased : Bool)
          → IsRunning rounds g t increased
          → Waters (water_loop rounds options b_max unassigned g t increased))
      → Waters (water_of rounds f s test)
  water_turn rounds f s false running tested rest = (
    f,
    s,
    refl,
    record {
      ready = running.ready;
      fit = running.fit;
      settled = inl (ltb_le f.assigned_count (length options) tested);
    },
  )
    where
      ltb_le : (a b : ℕ) → ltb a b ≡ false → b ≤ a
      ltb_le a b test = ground arith
  water_turn rounds f s true running tested rest =
      let placed =
        place_loop-Placed options b_max unassigned fits small (length options)
          (record f { current_b_max = (raise f.current_b_max b_max).0 }) s 0
          (raised-IsReady f s running.ready running.fit) (omega arith) in
      let later =
        rest placed.0 placed.1 (raise f.current_b_max b_max).1
          (placed-IsRunning rounds f s placed.0 placed.1 running placed.3 placed.4 placed.6) in
      (
        later.0,
        later.1,
        ap
              (λ r. r >>= λ done.
                water_loop rounds options b_max unassigned done.0 done.1
                  (raise f.current_b_max b_max).1)
              placed.2
            ∙ later.2,
        later.3,
      )

  -- A round for each unit of capacity and one more are enough.
  pub water_loop-IsDone :
      (rounds : ℕ) (f : Flow) (s : Search) (increased : Bool)
      → IsRunning rounds f s increased
      → Waters (water_loop rounds options b_max unassigned f s increased)
  unfolding water_loop
  water_loop-IsDone rounds f s false running = (
    f,
    s,
    refl,
    record { ready = running.ready; fit = running.fit; settled = running.settled refl },
  )
  water_loop-IsDone zero f s true running =
      absurd (omega (arith, running.enough refl, Fit-sum f.current_b_max b_max running.fit))
  water_loop-IsDone (suc rounds) f s true running =
      water_turn rounds f s (ltb f.assigned_count (length options)) running refl
        (water_loop-IsDone rounds)

  no_residents : (b a : ℕ) → has (residents (no_flow options b_max unassigned) b) a ≡ false
  no_residents b a = ap (λ seats. has seats a) (get_or-replicate (length b_max) b [])

  pub first-IsRunning :
      IsRunning
        (suc (suc (sum b_max)))
        (no_flow options b_max unassigned)
        (no_search options b_max)
        true
  first-IsRunning = record {
    ready = record {
      flow = record {
        a_sized = length-replicate (length options) unassigned;
        b_sized = length-replicate (length b_max) [];
        level_sized = length-replicate (length b_max) 0;
        seated =
            λ a b e real. absurd (real (sym e ∙ get_or-replicate (length options) a unassigned));
        resident = λ a b there. absurd (
            not_both (has (residents (no_flow options b_max unassigned) b) a) there
              (no_residents b a));
        distinct = λ b. subst Distinct (sym (get_or-replicate (length b_max) b [])) tt;
        loaded = λ b. omega (arith, ap (length {A = ℕ}) (get_or-replicate (length b_max) b []));
        offered = λ a b there. absurd (
            not_both (has (residents (no_flow options b_max unassigned) b) a) there
              (no_residents b a));
      };
      a_parents = length-replicate (length options) 0;
      b_parents = length-replicate (length b_max) 0;
      counted = omega (arith, vacant-replicate unassigned (length options));
    };
    fit = zero-Fit b_max;
    enough = λ _. omega (arith, zero-sum (length b_max));
    settled = λ never. cc;
  }
