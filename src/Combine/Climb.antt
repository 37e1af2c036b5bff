-- ===== src/Combine/Climb.antt =====
-- The loop of `unique_combine` that flips the assignments up a path, which ends with a larger matching
-- (cth/incl/cth/algorithm/combine.hpp).
use cth.Base.{
  ℕ, zero, suc, ◌≤◌, ◌<◌, ◌≡◌, ◌≢◌, ◌↔◌, ◌⊎◌, inl, inr, refl, sym, ap, subst, ◌∙◌, true, false,
  List, [], ◌∷◌, length, get_or, arith, Option, none, some, ℕ_discrete, ok,
}
use cth.Combine.{Matching, lookup, flip, flip_loop}
use cth.Combine.Lists.{has, later, has-other, not_both}
use cth.Combine.Keys.{lookup-here, lookup-later, keys, IsMatching, some-injective}
use cth.Combine.Search.{Visited, Trail}
use cth.Combine.Flip.{IsBroken, get_or-lt, flip_chosen, flip-IsMatching, flip-IsBroken}

-- The selections that have a node are those of before and the new one.
abbrev pub Filled : Matching → Matching → ℕ → Type 0
Filled before after new =
    (i : ℕ) → (get_or after.chosen i none ≡ none) ↔ (get_or before.chosen i none ≡ none) × (i ≢ new)

module _ (selections : List (List ℕ)) (m0 : Matching) (start : ℕ) (parents : List (ℕ × ℕ))
    (unassigned : get_or m0.chosen start none ≡ none) (inside : start < length selections) where
  -- The path goes on among `earlier`, whose other nodes are as the search saw them.
  record IsClimbing (m : Matching) (earlier : List (ℕ × ℕ)) (current : ℕ) : Type 0 where
    trail : Trail selections m0 start earlier
    part : (node r : ℕ) → lookup earlier node ≡ some r → lookup parents node ≡ some r
    broken : IsBroken selections m current
    start_kept : get_or m.chosen start none ≡ none
    kept :
        (r node : ℕ)
        → get_or m0.chosen r none ≡ some node
        → has (keys earlier) node ≡ true
        → node ≢ current
        → get_or m.chosen r none ≡ some node
    filled : (i : ℕ) → (get_or m.chosen i none ≡ none) ↔ (get_or m0.chosen i none ≡ none)

  -- A node above the path: the search goes on behind it.
  skip-IsClimbing :
      (m : Matching) (key r : ℕ) (earlier : List (ℕ × ℕ)) (current : ℕ)
      → IsClimbing m ((key, r) ∷ earlier) current
      → IsClimbing m earlier current
  skip-IsClimbing m key r earlier current c = record {
    trail = c.trail.3;
    part = λ node s e. c.part node s (lookup-later key r earlier node s c.trail.0 e);
    broken = c.broken;
    start_kept = c.start_kept;
    kept =
        λ s node at reached other. c.kept s node at (later key (keys earlier) node reached) other;
    filled = c.filled;
  }

  -- A node of the path whose selection had another node before.
  up-IsClimbing :
      (m : Matching) (current r previous : ℕ) (earlier : List (ℕ × ℕ))
      → IsClimbing m ((current, r) ∷ earlier) current
      → get_or m0.chosen r none ≡ some previous
      → get_or m.chosen r none ≡ some previous
      → IsClimbing (flip m r current) earlier previous
  up-IsClimbing m current r previous earlier c at0 at = record {
    trail = c.trail.3;
    part = λ node s e. c.part node s (lookup-later current r earlier node s c.trail.0 e);
    broken = flip-IsBroken selections m r current c.broken bound c.trail.1 previous at;
    start_kept = elim (changed start) [
      | inl (same, _) ↦
          absurd (none_some (sym unassigned ∙ ap (λ i. get_or m0.chosen i none) same ∙ at0))
      | inr (_, now) ↦ now ∙ c.start_kept
    ];
    kept = λ s node node_at reached other. elim (changed s) [
      | inl (same, _) ↦
          absurd
            (other (some-injective (sym node_at ∙ ap (λ i. get_or m0.chosen i none) same ∙ at0)))
      | inr (_, now) ↦
          now
          ∙ c.kept s node node_at (later current (keys earlier) node reached)
              (λ e. has-other (keys earlier) current node c.trail.0 reached (sym e))
    ];
    filled = λ i. elim (changed i) [
      | inl (same, now) ↦ (
        (λ e. absurd (none_some (sym e ∙ now))),
        (λ e. absurd (none_some (sym e ∙ ap (λ k. get_or m0.chosen k none) same ∙ at0))),
      )
      | inr (_, now) ↦ ((λ e. (c.filled i).0 (sym now ∙ e)), (λ e. now ∙ (c.filled i).1 e))
    ];
  }
    where
      bound : r < length m.chosen
      bound = get_or-lt m.chosen r previous at

      none_some : {n : ℕ} → none ≡ some n → ⊥
      none_some e = cc

      changed :
          (i : ℕ)
          → (i ≡ r) × (get_or (flip m r current).chosen i none ≡ some current)
            ⊎ (i ≢ r) × (get_or (flip m r current).chosen i none ≡ get_or m.chosen i none)
      changed = flip_chosen selections m r current c.broken bound c.trail.1

  -- The end of the path.
  last_Filled :
      (m : Matching) (current : ℕ) (earlier : List (ℕ × ℕ))
      → IsClimbing m ((current, start) ∷ earlier) current
      → IsMatching selections (flip m start current) × Filled m0 (flip m start current) start
  last_Filled m current earlier c = (
    flip-IsMatching selections m start current c.broken bound c.trail.1 c.start_kept,
    λ i. elim (flip_chosen selections m start current c.broken bound c.trail.1 i) [
      | inl (same, now) ↦ ((λ e. absurd (none_some (sym e ∙ now))), (λ e. absurd (e.1 same)))
      | inr (other, now) ↦
          ((λ e. ((c.filled i).0 (sym now ∙ e), other)), (λ e. now ∙ (c.filled i).1 e.0))
    ],
  )
    where
      bound : start < length m.chosen
      bound = omega (arith, c.broken.sized)

      none_some : {n : ℕ} → none ≡ some n → ⊥
      none_some e = cc

  flip_loop-suc :
      (rounds : ℕ) (m : Matching) (current r : ℕ) (had : Option ℕ)
      → lookup parents current ≡ some r
      → get_or m.chosen r none ≡ had
      → flip_loop (suc rounds) parents m current ≡ (elim had [
        | none ↦ ok (flip m r current)
        | some previous ↦ flip_loop rounds parents (flip m r current) previous
      ])
  unfolding flip_loop
  flip_loop-suc rounds m current r had found at =
      ap
        (λ s. elim (get_or m.chosen s none) [
          | none ↦ ok (flip m s current)
          | some previous ↦ flip_loop rounds parents (flip m s current) previous
        ])
        (ap (λ o. elim o [ none ↦ 0 | some s ↦ s ]) found)
      ∙ ap
          (λ o. elim o [
            | none ↦ ok (flip m r current)
            | some previous ↦ flip_loop rounds parents (flip m r current) previous
          ])
          at

  abbrev Climbs : Matching → ℕ → ℕ → Type 0
  Climbs m rounds current =
      (after : Matching) × (flip_loop rounds parents m current ≡ ok after)
      × IsMatching selections after
      × Filled m0 after start

  climb_head :
      (rounds : ℕ) (m : Matching) (current r : ℕ) (earlier : List (ℕ × ℕ))
      → IsClimbing m ((current, r) ∷ earlier) current
      → Visited selections m0 start earlier r
      → ((next : Matching) (previous : ℕ)
          → IsClimbing next earlier previous
          → has (keys earlier) previous ≡ true
          → Climbs next rounds previous)
      → Climbs m (suc rounds) current
  climb_head rounds m current r earlier c (inl first) rest =
      let c' : IsClimbing m ((current, start) ∷ earlier) current =
        subst (λ s. IsClimbing m ((current, s) ∷ earlier) current) first c in
      let last = last_Filled m current earlier c' in
      (
        flip m start current,
        flip_loop-suc rounds m current start none
            (c'.part current start (lookup-here current start earlier)) c'.start_kept,
        last.0,
        last.1,
      )
  climb_head rounds m current r earlier c (inr (previous, at0, reached)) rest =
      let at =
        c.kept r previous at0 (later current (keys earlier) previous reached)
          (λ e. has-other (keys earlier) current previous c.trail.0 reached (sym e)) in
      let up =
        rest (flip m r current) previous (up-IsClimbing m current r previous earlier c at0 at)
          reached in
      (
        up.0,
        flip_loop-suc rounds m current r (some previous)
              (c.part current r (lookup-here current r earlier)) at
            ∙ up.1,
        up.2,
        up.3,
      )

  -- With a round for each node above, the path ends, and the first selection has a node as well.
  flip_loop-Climbs :
      (rounds : ℕ) (earlier : List (ℕ × ℕ)) (m : Matching) (current : ℕ)
      → IsClimbing m earlier current
      → has (keys earlier) current ≡ true
      → length earlier ≤ rounds
      → Climbs m rounds current
  flip_loop-Climbs rounds [] m current c reached bound = absurd (not_both false reached refl)
  flip_loop-Climbs zero ((key, r) ∷ earlier) m current c reached bound = absurd (omega arith)
  flip_loop-Climbs (suc rounds) ((key, r) ∷ earlier) m current c reached bound =
      elim (ℕ_discrete key current) [
        | yes same ↦
            let here_it : IsClimbing m ((current, r) ∷ earlier) current =
              subst (λ k. IsClimbing m ((k, r) ∷ earlier) current) same c in
            climb_head rounds m current r earlier here_it c.trail.2 (λ next previous up reached_up.
              flip_loop-Climbs rounds earlier next previous up reached_up (omega arith))
        | no other ↦
            flip_loop-Climbs (suc rounds) earlier m current
              (skip-IsClimbing m key r earlier current c)
              (key_later key (keys earlier) current other reached) (omega arith)
      ]
    where
      key_later : (k : ℕ) (ks : List ℕ) (n : ℕ) → k ≢ n → has (k ∷ ks) n ≡ true → has ks n ≡ true
      key_later k ks n other member = ground arith

-- From the end of a path that the search found, the loop makes a matching in which the first
-- selection has a node as well as those that had one.
pub flip_loop-Filled :
    (selections : List (List ℕ)) (m : Matching) (start : ℕ) (parents : List (ℕ × ℕ)) (end : ℕ)
    → IsMatching selections m
    → get_or m.chosen start none ≡ none
    → start < length selections
    → Trail selections m start parents
    → has (keys parents) end ≡ true
    → m.owner end ≡ none
    → (after : Matching) × (flip_loop (length parents) parents m end ≡ ok after)
      × IsMatching selections after
      × Filled m after start
flip_loop-Filled selections m start parents end law unassigned inside trail reached unowned =
    flip_loop-Climbs selections m start parents unassigned inside (length parents) parents m end
      (record {
        trail = trail;
        part = λ _ _ e. e;
        broken = record {
          sized = law.sized;
          owned = law.owned;
          chose = λ i n _ e. law.chose i n e;
          free = λ i e. none_some (sym unowned ∙ law.owned i end e);
          offered = law.offered;
        };
        start_kept = unassigned;
        kept = λ _ _ at _ _. at;
        filled = λ i. ((λ e. e), (λ e. e));
      })
      reached (omega arith)
  where
    none_some : {n : ℕ} → none ≡ some n → ⊥
    none_some e = cc
