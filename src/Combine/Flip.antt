-- ===== src/Combine/Flip.antt =====
-- One flip of an assignment in `unique_combine` (cth/incl/cth/algorithm/combine.hpp).
use cth.Base.{
  ℕ, zero, suc, ◌<◌, ◌≡◌, ◌≢◌, ◌⊎◌, inl, inr, sym, ap, ◌∙◌, true, false, List, [], ◌∷◌, length,
  length-set, get_or, get_or-set_self, get_or-set_ne, ◌==◌, ==_iff, if-true, if-false, arith,
  Option, none, some, ℕ_discrete,
}
use cth.Combine.{Matching, flip}
use cth.Combine.Lists.{has}
use cth.Combine.Keys.{IsMatching, some-injective}

pub get_or-lt {ℓ} :
    {A : Type ℓ} (xs : List (Option A)) (i : ℕ) (x : A) → get_or xs i none ≡ some x → i < length xs
get_or-lt [] i x e = cc
get_or-lt (first ∷ others) zero x e = omega arith
get_or-lt (first ∷ others) (suc i) x e = omega (arith, get_or-lt others i x e)

-- A matching but for one node, which no selection has, whatever its owner.
pub record IsBroken (selections : List (List ℕ)) (m : Matching) (node : ℕ) : Type 0 where
  pub sized : length m.chosen ≡ length selections
  pub owned : (i n : ℕ) → get_or m.chosen i none ≡ some n → m.owner n ≡ some i
  pub chose : (i n : ℕ) → n ≢ node → m.owner n ≡ some i → get_or m.chosen i none ≡ some n
  pub free : (i : ℕ) → get_or m.chosen i none ≢ some node
  pub offered : (i n : ℕ) → get_or m.chosen i none ≡ some n → has (get_or selections i []) n ≡ true

module _ (selections : List (List ℕ)) (m : Matching) (right current : ℕ)
    (v : IsBroken selections m current) (bound : right < length m.chosen)
    (offers : has (get_or selections right []) current ≡ true) where
  pub flip_chosen :
      (i : ℕ)
      → (i ≡ right) × (get_or (flip m right current).chosen i none ≡ some current)
        ⊎ (i ≢ right) × (get_or (flip m right current).chosen i none ≡ get_or m.chosen i none)
  flip_chosen i = elim (ℕ_discrete i right) [
    | yes same ↦ inl (
      same,
      ap (λ at. get_or (flip m right current).chosen at none) same
          ∙ get_or-set_self m.chosen right (some current) none bound,
    )
    | no other ↦
        inr (other, get_or-set_ne m.chosen right i (some current) none (λ e. other (sym e)))
  ]

  flip_owner :
      (n : ℕ)
      → (n ≡ current) × ((flip m right current).owner n ≡ some right)
        ⊎ (n ≢ current) × ((flip m right current).owner n ≡ m.owner n)
  flip_owner n = elim (ℕ_discrete n current) [
    | yes same ↦ inl (same, if-true ((==_iff n current).1 same) (some right) (m.owner n))
    | no other ↦ inr (other, if-false (==_no n current other) (some right) (m.owner n))
  ]
    where
      ==_no : (a b : ℕ) → a ≢ b → (a == b) ≡ false
      ==_no a b other = ground arith

  flip_owned :
      (i n : ℕ)
      → get_or (flip m right current).chosen i none ≡ some n
      → (flip m right current).owner n ≡ some i
  flip_owned i n e = elim (flip_chosen i) [
    | inl (same, at) ↦ elim (flip_owner n) [
      | inl (_, owns) ↦ owns ∙ ap some (sym same)
      | inr (other, _) ↦ absurd (other (some-injective (sym e ∙ at)))
    ]
    | inr (_, at) ↦ elim (flip_owner n) [
      | inl (same, _) ↦ absurd (v.free i (sym at ∙ e ∙ ap some same))
      | inr (_, owns) ↦ owns ∙ v.owned i n (sym at ∙ e)
    ]
  ]

  flip_offered :
      (i n : ℕ)
      → get_or (flip m right current).chosen i none ≡ some n
      → has (get_or selections i []) n ≡ true
  flip_offered i n e = elim (flip_chosen i) [
    | inl (same, at) ↦
        ap (λ r. has (get_or selections r []) n) same
        ∙ ap (has (get_or selections right [])) (some-injective (sym e ∙ at))
        ∙ offers
    | inr (_, at) ↦ v.offered i n (sym at ∙ e)
  ]

  -- What the selection had before is the only node that may lose it.
  flip_chose :
      (i n : ℕ)
      → get_or m.chosen right none ≢ some n
      → (flip m right current).owner n ≡ some i
      → get_or (flip m right current).chosen i none ≡ some n
  flip_chose i n kept e = elim (flip_owner n) [
    | inl (same, owns) ↦ elim (flip_chosen i) [
      | inl (_, at) ↦ at ∙ ap some (sym same)
      | inr (other, _) ↦ absurd (other (some-injective (sym e ∙ owns)))
    ]
    | inr (other, owns) ↦
        let had = v.chose i n other (sym owns ∙ e) in
        elim (flip_chosen i) [
          | inl (same, _) ↦ absurd (kept (ap (λ r. get_or m.chosen r none) (sym same) ∙ had))
          | inr (_, at) ↦ at ∙ had
        ]
  ]

  -- The selection had no node: this is the end of the path.
  pub flip-IsMatching :
      get_or m.chosen right none ≡ none → IsMatching selections (flip m right current)
  flip-IsMatching nothing = record {
    sized = length-set m.chosen right (some current) ∙ v.sized;
    owned = flip_owned;
    chose = λ i n. flip_chose i n (λ e. none_some (sym nothing ∙ e));
    offered = flip_offered;
  }
    where
      none_some : {n : ℕ} → none ≡ some n → ⊥
      none_some e = cc

  -- The selection had a node, which is the next one to be assigned.
  pub flip-IsBroken :
      (previous : ℕ)
      → get_or m.chosen right none ≡ some previous
      → IsBroken selections (flip m right current) previous
  flip-IsBroken previous had = record {
    sized = length-set m.chosen right (some current) ∙ v.sized;
    owned = flip_owned;
    chose = λ i n other. flip_chose i n (λ e. other (some-injective (sym e ∙ had)));
    free = λ i e. elim (flip_chosen i) [
      | inl (_, at) ↦ v.free right (had ∙ sym e ∙ at)
      | inr (other, at) ↦
          other
            (some-injective (sym (v.owned i previous (sym at ∙ e)) ∙ v.owned right previous had))
    ];
    offered = flip_offered;
  }
