-- ===== src/Assign/Flows.antt =====
-- The state of `assign` (cth/incl/cth/algorithm/combine.hpp): every a with a b sits with this b and
-- nowhere else, and no b has more than its level allows.
use cth.Base.{
  ℕ, ◌+◌, ◌≤◌, ◌<◌, ◌≡◌, ◌≢◌, ◌⊎◌, inl, inr, refl, sym, ap, subst, ◌∙◌, true, false, List, [], ◌∷◌,
  ◌++◌, length, length-append, length-set, get_or, set, get_or-set_self, get_or-set_ne, ◌==◌,
  ==_iff, if◌then◌else◌, if-true, if-false, arith, ℕ_discrete,
}
use cth.Combine.Lists.{
  has, has-append, append_cases, append_last, append_first, Distinct, not_both, Bool_no,
}
use cth.Assign.{Flow, residents, leave, seat, unseat}
use cth.Assign.Seats.{Leaves, unseat-Leaves, ==_no}

append-Distinct : (xs : List ℕ) (y : ℕ) → Distinct xs → has xs y ≡ false → Distinct (xs ++ y ∷ [])
append-Distinct [] y d absent = (refl, tt)
append-Distinct (first ∷ others) y d absent = (
  ground (arith, has-append others y first, d.0, absent),
  append-Distinct others y d.1 (ground (arith, absent)),
)

module _ (options : List (List ℕ)) (b_count unassigned : ℕ) where
  pub record IsFlow (f : Flow) : Type 0 where
    pub a_sized : length f.a_to_b ≡ length options
    pub b_sized : length f.b_to_a ≡ b_count
    pub level_sized : length f.current_b_max ≡ b_count
    pub seated :
        (a b : ℕ) → get_or f.a_to_b a unassigned ≡ b → b ≢ unassigned → has (residents f b) a ≡ true
    pub resident : (a b : ℕ) → has (residents f b) a ≡ true → get_or f.a_to_b a unassigned ≡ b
    pub distinct : (b : ℕ) → Distinct (residents f b)
    pub loaded : (b : ℕ) → length (residents f b) ≤ get_or f.current_b_max b 0
    pub offered : (a b : ℕ) → has (residents f b) a ≡ true → has (get_or options a []) b ≡ true

  -- The state while an a changes: only what does not ask where this a sits.
  pub record IsFlowBut (away : ℕ) (f : Flow) : Type 0 where
    a_sized : length f.a_to_b ≡ length options
    b_sized : length f.b_to_a ≡ b_count
    level_sized : length f.current_b_max ≡ b_count
    seated :
        (a b : ℕ)
        → a ≢ away
        → get_or f.a_to_b a unassigned ≡ b
        → b ≢ unassigned
        → has (residents f b) a ≡ true
    resident : (a b : ℕ) → has (residents f b) a ≡ true → get_or f.a_to_b a unassigned ≡ b
    absent : (b : ℕ) → has (residents f b) away ≡ false
    distinct : (b : ℕ) → Distinct (residents f b)
    loaded : (b : ℕ) → length (residents f b) ≤ get_or f.current_b_max b 0
    offered : (a b : ℕ) → has (residents f b) a ≡ true → has (get_or options a []) b ≡ true

  -- What is written for one b is read there and nowhere else.
  residents_changed :
      (f : Flow) (b : ℕ) (seats : List ℕ) (at : ℕ)
      → b < length f.b_to_a
      → (at ≡ b) × (get_or (set f.b_to_a b seats) at [] ≡ seats)
        ⊎ (at ≢ b) × (get_or (set f.b_to_a b seats) at [] ≡ residents f at)
  residents_changed f b seats at bound = elim (ℕ_discrete at b) [
    | yes same ↦ inl (
      same,
      ap (λ i. get_or (set f.b_to_a b seats) i []) same ∙ get_or-set_self f.b_to_a b seats [] bound,
    )
    | no other ↦ inr (other, get_or-set_ne f.b_to_a b at seats [] (λ e. other (sym e)))
  ]

  module _ (f : Flow) (b a : ℕ) (v : IsFlow f) (sits : has (residents f b) a ≡ true)
      (bound : b < b_count) where
    leaves : Leaves (residents f b) a (unseat (residents f b) a)
    leaves = unseat-Leaves (residents f b) a (v.distinct b) sits

    left_b :
        (at : ℕ)
        → (at ≡ b) × (residents (leave f b a) at ≡ unseat (residents f b) a)
          ⊎ (at ≢ b) × (residents (leave f b a) at ≡ residents f at)
    left_b at = residents_changed f b (unseat (residents f b) a) at (omega (arith, v.b_sized))

    leave_absent : (at : ℕ) → has (residents (leave f b a) at) a ≡ false
    leave_absent at = elim (left_b at) [
      | inl (same, now) ↦ ap (λ seats. has seats a) now ∙ leaves.gone
      | inr (other, now) ↦
          ap (λ seats. has seats a) now
          ∙ Bool_no (has (residents f at) a)
              (λ there. other (sym (v.resident a at there) ∙ v.resident a b sits))
    ]

    pub leave_still :
        (at n : ℕ)
        → a ≢ n
        → has (residents f at) n ≡ true
        → has (residents (leave f b a) at) n ≡ true
    leave_still at n away there = elim (left_b at) [
      | inl (same, now) ↦
          ap (λ seats. has seats n) now
          ∙ leaves.stay n away
          ∙ ap (λ i. has (residents f i) n) (sym same)
          ∙ there
      | inr (_, now) ↦ ap (λ seats. has seats n) now ∙ there
    ]

    pub leave_was :
        (at n : ℕ) → has (residents (leave f b a) at) n ≡ true → has (residents f at) n ≡ true
    leave_was at n there = elim (left_b at) [
      | inl (same, now) ↦ elim (ℕ_discrete a n) [
        | yes gone ↦ absurd (
            not_both (has (residents (leave f b a) at) a)
              (ap (has (residents (leave f b a) at)) gone ∙ there) (leave_absent at))
        | no away ↦
            ap (λ i. has (residents f i) n) same
            ∙ sym (leaves.stay n away)
            ∙ ap (λ seats. has seats n) (sym now)
            ∙ there
      ]
      | inr (_, now) ↦ ap (λ seats. has seats n) (sym now) ∙ there
    ]

    leave-Distinct : (at : ℕ) → Distinct (residents (leave f b a) at)
    leave-Distinct at = elim (left_b at) [
      | inl (_, now) ↦ subst Distinct (sym now) leaves.distinct
      | inr (_, now) ↦ subst Distinct (sym now) (v.distinct at)
    ]

    pub length-leave :
        (at : ℕ)
        → length (residents (leave f b a) at) + (if at == b then 1 else 0) ≡ length (residents f at)
    length-leave at = elim (left_b at) [
      | inl (same, now) ↦ omega (
        arith,
        leaves.shorter,
        ap length now,
        ap (λ i. length (residents f i)) same,
        if-true {A = ℕ} ((==_iff at b).1 same) 1 0,
      )
      | inr (other, now) ↦ omega (arith, ap length now, if-false {A = ℕ} (==_no at b other) 1 0)
    ]

    -- An a that sits with `b` leaves it.
    pub leave-IsFlowBut : IsFlowBut a (leave f b a)
    leave-IsFlowBut = record {
      a_sized = v.a_sized;
      b_sized = length-set f.b_to_a b (unseat (residents f b) a) ∙ v.b_sized;
      level_sized = v.level_sized;
      seated =
          λ n at other e real. leave_still at n (λ same. other (sym same)) (v.seated n at e real);
      resident = λ n at there. v.resident n at (leave_was at n there);
      absent = leave_absent;
      distinct = leave-Distinct;
      loaded = λ at. omega (arith, length-leave at, v.loaded at);
      offered = λ n at there. v.offered n at (leave_was at n there);
    }

  module _ (f : Flow) (b a : ℕ) (v : IsFlowBut a f) (bound : b < b_count)
      (a_bound : a < length options) where
    pub seat_b :
        (at : ℕ)
        → (at ≡ b) × (residents (seat f b a) at ≡ residents f b ++ a ∷ [])
          ⊎ (at ≢ b) × (residents (seat f b a) at ≡ residents f at)
    seat_b at = residents_changed f b (residents f b ++ a ∷ []) at (omega (arith, v.b_sized))

    pub seat_a :
        (n : ℕ)
        → (n ≡ a) × (get_or (seat f b a).a_to_b n unassigned ≡ b)
          ⊎ (n ≢ a) × (get_or (seat f b a).a_to_b n unassigned ≡ get_or f.a_to_b n unassigned)
    seat_a n = elim (ℕ_discrete n a) [
      | yes same ↦ inl (
        same,
        ap (λ i. get_or (seat f b a).a_to_b i unassigned) same
            ∙ get_or-set_self f.a_to_b a b unassigned (omega (arith, v.a_sized)),
      )
      | no other ↦ inr (other, get_or-set_ne f.a_to_b a n b unassigned (λ e. other (sym e)))
    ]

    pub seat_still :
        (at n : ℕ) → has (residents f at) n ≡ true → has (residents (seat f b a) at) n ≡ true
    seat_still at n there = elim (seat_b at) [
      | inl (same, now) ↦
          ap (λ seats. has seats n) now
          ∙ append_first (residents f b) a n (ap (λ i. has (residents f i) n) (sym same) ∙ there)
      | inr (_, now) ↦ ap (λ seats. has seats n) now ∙ there
    ]

    seat_sits : has (residents (seat f b a) b) a ≡ true
    seat_sits = elim (seat_b b) [
      | inl (_, now) ↦ ap (λ seats. has seats a) now ∙ append_last (residents f b) a a refl
      | inr (other, _) ↦ absurd (other refl)
    ]

    pub seat_was :
        (at n : ℕ)
        → has (residents (seat f b a) at) n ≡ true
        → (n ≡ a) × (at ≡ b) ⊎ (n ≢ a) × (has (residents f at) n ≡ true)
    seat_was at n there = elim (seat_b at) [
      | inl (same, now) ↦
          elim (append_cases (residents f b) a n (ap (λ seats. has seats n) (sym now) ∙ there)) [
            | inl is_a ↦ inl (sym is_a, same)
            | inr old ↦ inr (other n b old, ap (λ i. has (residents f i) n) same ∙ old)
          ]
      | inr (_, now) ↦
          let old = ap (λ seats. has seats n) (sym now) ∙ there in inr (other n at old, old)
    ]
      where
        other : (n at : ℕ) → has (residents f at) n ≡ true → n ≢ a
        other n at there same =
            not_both (has (residents f at) n) there (ap (has (residents f at)) same ∙ v.absent at)

    seat-Distinct : (at : ℕ) → Distinct (residents (seat f b a) at)
    seat-Distinct at = elim (seat_b at) [
      | inl (_, now) ↦
          subst Distinct (sym now) (append-Distinct (residents f b) a (v.distinct b) (v.absent b))
      | inr (_, now) ↦ subst Distinct (sym now) (v.distinct at)
    ]

    -- An a that sits nowhere sits down with `b`, which has room.
    pub seat-IsFlow :
        length (residents f b) < get_or f.current_b_max b 0
        → has (get_or options a []) b ≡ true
        → IsFlow (seat f b a)
    seat-IsFlow room offers = record {
      a_sized = length-set f.a_to_b a b ∙ v.a_sized;
      b_sized = length-set f.b_to_a b (residents f b ++ a ∷ []) ∙ v.b_sized;
      level_sized = v.level_sized;
      seated = λ n at e real. elim (seat_a n) [
        | inl (same, now) ↦
            ap (λ i. has (residents (seat f b a) i) n) (sym e ∙ now)
            ∙ ap (has (residents (seat f b a) b)) same
            ∙ seat_sits
        | inr (other, now) ↦ seat_still at n (v.seated n at other (sym now ∙ e) real)
      ];
      resident = λ n at there. elim (seat_was at n there) [
        | inl (is_a, is_b) ↦ elim (seat_a n) [
          | inl (_, now) ↦ now ∙ sym is_b
          | inr (other, _) ↦ absurd (other is_a)
        ]
        | inr (other, old) ↦ elim (seat_a n) [
          | inl (is_a, _) ↦ absurd (other is_a)
          | inr (_, now) ↦ now ∙ v.resident n at old
        ]
      ];
      distinct = seat-Distinct;
      loaded = λ at. elim (seat_b at) [
        | inl (same, now) ↦ omega (
          arith,
          ap length now,
          length-append (residents f b) (a ∷ []),
          room,
          ap (λ i. get_or f.current_b_max i 0) same,
        )
        | inr (_, now) ↦ omega (arith, ap length now, v.loaded at)
      ];
      offered = λ n at there. elim (seat_was at n there) [
        | inl (is_a, is_b) ↦
            ap (λ i. has (get_or options i []) at) is_a
            ∙ ap (has (get_or options a [])) is_b
            ∙ offers
        | inr (_, old) ↦ v.offered n at old
      ];
    }

  -- Who sits nowhere.
  pub absent-IsFlowBut :
      (f : Flow) (a : ℕ) → IsFlow f → ((b : ℕ) → has (residents f b) a ≡ false) → IsFlowBut a f
  absent-IsFlowBut f a v absent = record {
    a_sized = v.a_sized;
    b_sized = v.b_sized;
    level_sized = v.level_sized;
    seated = λ n at _. v.seated n at;
    resident = v.resident;
    absent = absent;
    distinct = v.distinct;
    loaded = v.loaded;
    offered = v.offered;
  }
