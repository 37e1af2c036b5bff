-- ===== src/Assign/Places.antt =====
-- One a after the other is placed (`assign` of cth/incl/cth/algorithm/combine.hpp).
use cth.Base.{
  ℕ, zero, suc, ◌+◌, ◌≤◌, ◌<◌, ◌≡◌, ◌≢◌, ◌⊎◌, inl, inr, refl, sym, ap, subst, ◌∙◌, Bool, true,
  false, List, [], ◌∷◌, length, get_or, ◌==◌, ==_iff, arith, ℕ_discrete, Option, none, some, Result,
  ok, ◌>>=◌,
}
use cth.Combine.Keys.{keys}
use cth.Combine.Lists.{has, has_cases, not_both, Bool_no}
use cth.Assign.{Flow, Search, residents, find_augmenting_path, after_path, place, place_loop}
use cth.Assign.Vacant.{vacant, vacant_less, Distinct-length}
use cth.Assign.Flows.{IsFlow}
use cth.Assign.Midway.{Trail, IsFound}
use cth.Assign.Path.{Ends, find_augmenting_path-Ends}
use cth.Assign.Shift.{shift_loop-Filled}
use cth.Assign.Stuck.{Assigns, keys-Distinct, no_Assigns}

module _ (options : List (List ℕ)) (b_max : List ℕ) (unassigned : ℕ)
    (fits : (a b : ℕ) → has (get_or options a []) b ≡ true → b < length b_max)
    (small : length b_max ≤ unassigned) where
  pub record IsReady (f : Flow) (s : Search) : Type 0 where
    pub flow : IsFlow options (length b_max) unassigned f
    pub a_parents : length s.parent_a ≡ length options
    pub b_parents : length s.parent_b ≡ length b_max
    pub counted : f.assigned_count + vacant unassigned f.a_to_b ≡ length options

  -- What has become of the state when `a` had its turn.
  pub record Placed (f : Flow) (a : ℕ) (after : Flow) (t : Search) : Type 0 where
    pub ready : IsReady after t
    pub same_level : after.current_b_max ≡ f.current_b_max
    pub stay :
        (n : ℕ)
        → get_or after.a_to_b n unassigned ≡ unassigned
        → get_or f.a_to_b n unassigned ≡ unassigned
    pub turn :
        (get_or after.a_to_b a unassigned ≢ unassigned)
        ⊎ ((out : List ℕ) → Assigns options f.current_b_max out → ⊥)

  keys-offered :
      (f : Flow) (start : ℕ) (trail : List (ℕ × ℕ)) (b : ℕ)
      → Trail options (length b_max) unassigned f start trail
      → has (keys trail) b ≡ true
      → b < length b_max
  keys-offered f start [] b path key = absurd (not_both false key refl)
  keys-offered f start ((at, a) ∷ earlier) b path key = elim (has_cases at (keys earlier) b key) [
    | inl same ↦ subst (λ n. n < length b_max) same (fits a at path.1)
    | inr old ↦ keys-offered f start earlier b path.3 old
  ]

  keys-length : (trail : List (ℕ × ℕ)) → length (keys trail) ≡ length trail
  keys-length [] = refl
  keys-length ((b, a) ∷ earlier) = ap suc (keys-length earlier)

  Trail-length :
      (f : Flow) (start : ℕ) (trail : List (ℕ × ℕ))
      → Trail options (length b_max) unassigned f start trail
      → length trail ≤ length b_max
  Trail-length f start trail path = omega (
    arith,
    keys-length trail,
    Distinct-length (keys trail) (length b_max)
        (keys-Distinct options (length b_max) unassigned f start trail path)
        (λ b key. keys-offered f start trail b path key),
  )

  module _ (f : Flow) (s : Search) (a : ℕ) (ready : IsReady f s) (inside : a < length options)
      (free : get_or f.a_to_b a unassigned ≡ unassigned)
      (absent : (b : ℕ) → has (residents f b) a ≡ false) where
    found_Placed :
        (b : ℕ) (t : Search) (trail : List (ℕ × ℕ)) (via : ℕ)
        → IsFound options (length b_max) unassigned f a b t trail via
        → (after : Flow) × (u : Search) × (after_path b_max f a (some b, t) ≡ ok (after, u))
          × Placed f a after u
    found_Placed b t trail via found =
        let moved =
          shift_loop-Filled options (length b_max) unassigned f a t b via trail (length b_max)
            ready.flow absent fits small inside found
            (Trail-length f a ((b, via) ∷ trail) found.path) in
        let flow = moved.2 in
        (
          record (moved.0) { assigned_count = suc moved.0.assigned_count },
          t,
          ap (λ r. r >>= λ done. ok (record done { assigned_count = suc done.assigned_count }, t))
              moved.1,
          record {
            ready = record {
              flow = record {
                a_sized = flow.a_sized;
                b_sized = flow.b_sized;
                level_sized = flow.level_sized;
                seated = flow.seated;
                resident = flow.resident;
                distinct = flow.distinct;
                loaded = flow.loaded;
                offered = flow.offered;
              };
              a_parents = found.sized.a_parents;
              b_parents = found.sized.b_parents;
              counted = omega (
                arith,
                moved.5,
                ready.counted,
                vacant_less unassigned f.a_to_b moved.0.a_to_b a
                    (ready.flow.a_sized ∙ sym flow.a_sized) (omega (arith, ready.flow.a_sized)) free
                    moved.3,
              );
            };
            same_level = moved.4;
            stay = λ n e. ((moved.3 n).0 e).0;
            turn = inl (λ e. ((moved.3 a).0 e).1 refl);
          },
        )

    path_Placed :
        (end : Option ℕ × Search)
        → Ends options (length b_max) unassigned f a ready.flow absent fits end
        → (after : Flow) × (t : Search) × (after_path b_max f a end ≡ ok (after, t))
          × Placed f a after t
    path_Placed (none, t) (trail, mid) = (
      f,
      t,
      refl,
      record {
        ready = record {
          flow = ready.flow;
          a_parents = mid.sized.a_parents;
          b_parents = mid.sized.b_parents;
          counted = ready.counted;
        };
        same_level = refl;
        stay = λ n e. e;
        turn =
            inr (
              no_Assigns options (length b_max) unassigned f a ready.flow absent inside t trail
                mid);
      },
    )
    path_Placed (some b, t) (trail, via, found) = found_Placed b t trail via found

    search_Placed :
        (after : Flow) × (t : Search) × ((find_augmenting_path options b_max f s a >>= λ path.
        after_path b_max f a path)
          ≡ ok (after, t))
        × Placed f a after t
    search_Placed =
        let search =
          find_augmenting_path-Ends options (length b_max) unassigned f a ready.flow absent fits
            b_max s refl ready.a_parents ready.b_parents inside in
        let done = path_Placed search.0 search.2 in
        (
          done.0,
          done.1,
          ap (λ r. r >>= λ path. after_path b_max f a path) search.1 ∙ done.2,
          done.3,
        )

  -- What `place` does by whether the a has no b.
  abbrev turn_of : Flow → Search → ℕ → Bool → Result (Flow × Search)
  turn_of f s a true =
      find_augmenting_path options b_max f s a >>= λ path. after_path b_max f a path
  turn_of f s a false = ok (f, s)

  -- The turn of one a, whether it had a b or not.
  place_turn :
      (f : Flow) (s : Search) (a : ℕ) (vacant_seat : Bool)
      → IsReady f s
      → a < length options
      → (get_or f.a_to_b a unassigned == unassigned) ≡ vacant_seat
      → (after : Flow) × (t : Search) × (turn_of f s a vacant_seat ≡ ok (after, t))
        × Placed f a after t
  place_turn f s a true ready inside test =
      let free = (==_iff (get_or f.a_to_b a unassigned) unassigned).0 test in
      search_Placed f s a ready inside free (λ b. Bool_no (has (residents f b) a) (λ there. omega (
        arith,
        free,
        ready.flow.resident a b there,
        fits a b (ready.flow.offered a b there),
        small,
      )))
  place_turn f s a false ready inside test = (
    f,
    s,
    refl,
    record {
      ready = ready;
      same_level = refl;
      stay = λ n e. e;
      turn = inl (λ e.
          not_both (get_or f.a_to_b a unassigned == unassigned)
            ((==_iff (get_or f.a_to_b a unassigned) unassigned).1 e) test);
    },
  )

  pub place-Placed :
      (f : Flow) (s : Search) (a : ℕ)
      → IsReady f s
      → a < length options
      → (after : Flow) × (t : Search) × (place options b_max unassigned f s a ≡ ok (after, t))
        × Placed f a after t
  place-Placed f s a ready inside =
      place_turn f s a (get_or f.a_to_b a unassigned == unassigned) ready inside refl

  -- From `a` on every a has a turn: each has a b at the end, or the levels have no room for all.
  pub place_loop-Placed :
      (left : ℕ) (f : Flow) (s : Search) (a : ℕ)
      → IsReady f s
      → left + a ≡ length options
      → (after : Flow) × (t : Search) × (place_loop left options b_max unassigned f s a
          ≡ ok (after, t))
        × IsReady after t
        × (after.current_b_max ≡ f.current_b_max)
        × ((n : ℕ)
            → get_or after.a_to_b n unassigned ≡ unassigned
            → get_or f.a_to_b n unassigned ≡ unassigned)
        × (((n : ℕ) → a ≤ n → n < length options → get_or after.a_to_b n unassigned ≢ unassigned)
            ⊎ ((out : List ℕ) → Assigns options f.current_b_max out → ⊥))
  unfolding place_loop
  place_loop-Placed zero f s a ready count =
      (f, s, refl, ready, refl, (λ n e. e), inl (λ n low high. absurd (omega arith)))
  place_loop-Placed (suc left) f s a ready count =
      let first = place-Placed f s a ready (omega arith) in
      let placed = first.3 in
      let rest = place_loop-Placed left first.0 first.1 (suc a) placed.ready (omega arith) in
      (
        rest.0,
        rest.1,
        ap (λ r. r >>= λ done. place_loop left options b_max unassigned done.0 done.1 (suc a))
              first.2
            ∙ rest.2,
        rest.3,
        rest.4 ∙ placed.same_level,
        (λ n e. placed.stay n (rest.5 n e)),
        elim rest.6 [
          | inr stuck ↦ inr (
              subst (λ levels. (out : List ℕ) → Assigns options levels out → ⊥) placed.same_level
                stuck)
          | inl later_placed ↦ elim placed.turn [
            | inr stuck ↦ inr stuck
            | inl seated ↦ inl (λ n low high. elim (ℕ_discrete n a) [
              | yes same ↦ (λ e.
                  seated (ap (λ i. get_or first.0.a_to_b i unassigned) (sym same) ∙ rest.5 n e))
              | no other ↦ later_placed n (omega (arith, ne_lt n a low other)) high
            ])
          ]
        ],
      )
    where
      ne_lt : (n m : ℕ) → m ≤ n → n ≢ m → suc m ≤ n
      ne_lt n m low other = omega arith
