-- ===== src/Assign/Whole.antt =====
-- `assign` as a whole (cth/incl/cth/algorithm/combine.hpp).
use cth.Base.{
  ℕ, zero, suc, ◌+◌, ◌≤◌, ◌<◌, ◌≡◌, ◌≢◌, ◌⊎◌, inl, inr, refl, sym, ap, ◌∙◌, Bool, true, false, not,
  List, [], ◌∷◌, length, get_or, ltb, ◌==◌, ==_iff, if◌then◌else◌, arith, ok, check, ◌>>=◌, ◌>>◌,
}
use cth.Combine.Lists.{has, Within-length}
use cth.Assign.{
  Flow, Search, residents, water_loop, sum, all_options_below, no_flow, no_search, put_out, assign,
}
use cth.Assign.Flows.{IsFlow}
use cth.Assign.Gather.{choosers, choosers_from-has, choosers_from-Distinct}
use cth.Assign.Stuck.{Assigns}
use cth.Assign.Vacant.{vacant, none_vacant}
use cth.Assign.Water.{Stuck, IsDone, water_loop-IsDone, first-IsRunning}
use cth.Assign.Levels.{Fit-le, all_options_below-lt}

get_or-same : (xs : List ℕ) (n c d : ℕ) → n < length xs → get_or xs n c ≡ get_or xs n d
get_or-same [] n c d bound = absurd (omega arith)
get_or-same (first ∷ others) zero c d bound = refl
get_or-same (first ∷ others) (suc n) c d bound = get_or-same others n c d (omega arith)

module _ (options : List (List ℕ)) (b_max : List ℕ) (unassigned : ℕ)
    (fits : (a b : ℕ) → has (get_or options a []) b ≡ true → b < length b_max)
    (small : length b_max ≤ unassigned) where
  -- A state in which every a has a b is what is asked for.
  full-Assigns :
      (f : Flow) (s : Search)
      → IsDone options b_max unassigned fits small f s
      → length options ≤ f.assigned_count
      → Assigns options b_max f.a_to_b
  full-Assigns f s done all = record {
    sized = flow.a_sized;
    fits = λ a bound. flow.offered a (get_or f.a_to_b a 0) (
        flow.seated a (get_or f.a_to_b a 0)
          (get_or-same f.a_to_b a unassigned 0 (omega (arith, flow.a_sized)))
          (λ e.
            seated a (omega (arith, flow.a_sized))
              (get_or-same f.a_to_b a unassigned 0 (omega (arith, flow.a_sized)) ∙ e)));
    within = λ b. omega (
      arith,
      Within-length (choosers f.a_to_b b) (residents f b) (choosers_from-Distinct 0 f.a_to_b b)
          (λ a member. sits b a (choosers_from-has 0 f.a_to_b b a member)),
      flow.loaded b,
      Fit-le f.current_b_max b_max b done.fit,
    );
  }
    where
      flow : IsFlow options (length b_max) unassigned f
      flow = done.ready.flow

      empty : vacant unassigned f.a_to_b ≡ 0
      empty = omega (arith, done.ready.counted, all)

      seated : (n : ℕ) → n < length f.a_to_b → get_or f.a_to_b n unassigned ≢ unassigned
      seated n bound = none_vacant unassigned f.a_to_b n empty bound

      sits :
          (b a : ℕ)
          → (k : ℕ) × (a ≡ k + 0) × (k < length f.a_to_b) × (get_or f.a_to_b k b ≡ b)
          → has (residents f b) a ≡ true
      sits b a (k, is_k, bound, chosen) =
          let at = get_or-same f.a_to_b k unassigned b bound ∙ chosen in
          ap (has (residents f b)) {x = a} {y = k} (omega (arith, is_k))
          ∙ flow.seated k b at (λ e. seated k bound (at ∙ e))

  Waters_put_out :
      (f : Flow) (s : Search)
      → IsDone options b_max unassigned fits small f s
      → (test : Bool) → ltb f.assigned_count (length options) ≡ test
      → Assigns options b_max (if test then [] else f.a_to_b)
        ⊎ ((if test then [] else f.a_to_b) ≡ []) × Stuck options b_max unassigned fits small b_max
  Waters_put_out f s done true tested = elim done.settled [
    | inl all ↦ absurd (ltb_no f.assigned_count (length options) tested all)
    | inr stuck ↦ inr (refl, stuck)
  ]
    where
      ltb_no : (a b : ℕ) → ltb a b ≡ true → b ≤ a → ⊥
      ltb_no a b test le = ground arith
  Waters_put_out f s done false tested =
      inl (full-Assigns f s done (ltb_le f.assigned_count (length options) tested))
    where
      ltb_le : (a b : ℕ) → ltb a b ≡ false → b ≤ a
      ltb_le a b test = ground arith

  -- What `assign` does behind its check, by whether there are a's.
  behind_check :
      (nobody : Bool)
      → (length options == 0) ≡ nobody
      → (out : List ℕ) × ((if nobody
            then ok []
            else water_loop
                (suc (suc (sum b_max)))
                options
                b_max
                unassigned
                (no_flow options b_max unassigned)
                (no_search options b_max)
                true
              >>= λ f. ok (put_out options f))
          ≡ ok out)
        × (Assigns options b_max out ⊎ (out ≡ []) × Stuck options b_max unassigned fits small b_max)
  behind_check true test =
      let empty = (==_iff (length options) 0).0 test in
      (
        [],
        refl,
        inl (record {
          sized = sym empty;
          fits = λ a bound. absurd (omega (arith, empty));
          within = λ b. omega arith;
        }),
      )
  behind_check false test =
      let run =
        water_loop-IsDone options b_max unassigned fits small (suc (suc (sum b_max)))
          (no_flow options b_max unassigned) (no_search options b_max) true
          (first-IsRunning options b_max unassigned fits small) in
      (
        put_out options run.0,
        ap (λ r. r >>= λ f. ok (put_out options f)) run.2,
        Waters_put_out run.0 run.1 run.3 (ltb run.0.assigned_count (length options)) refl,
      )

-- `assign`, where each option is the number of a b and fewer b's than the index type can number: it ends
-- and returns one option of each a, no b more often than it may be, or nothing, and then no such choice
-- exists.
pub assign-Assigns :
    (options : List (List ℕ)) (b_max : List ℕ) (unassigned : ℕ)
    → all_options_below (length b_max) options ≡ true
    → length b_max ≤ unassigned
    → (out : List ℕ) × (assign options b_max unassigned ≡ ok out)
      × (Assigns options b_max out
          ⊎ (out ≡ []) × ((picks : List ℕ) → Assigns options b_max picks → ⊥))
unfolding assign
assign-Assigns options b_max unassigned below small =
    let done =
      behind_check options b_max unassigned
        (λ a b. all_options_below-lt (length b_max) options a b below) small (length options == 0)
        refl in
    (
      done.0,
      ap
            (λ b.
              check (not b)
              >> (if length options == 0
                  then ok []
                  else water_loop (suc (suc (sum b_max))) options b_max unassigned
                      (no_flow options b_max unassigned) (no_search options b_max) true
                    >>= λ f. ok (put_out options f)))
            below
          ∙ done.1,
      done.2,
    )
