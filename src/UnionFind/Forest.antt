-- ===== src/UnionFind/Forest.antt =====
-- The parent array of a union_find as a forest: the root of a node, and ranks, which show that
-- every path up ends (cth/incl/cth/data/union_find.hpp).
use cth.Base.{
  ℕ, zero, suc, ◌+◌, ◌≤◌, ◌<◌, ◌≡◌, refl, sym, ap, subst, ◌∙◌, ◌⊎◌, inl, inr, List, arith, ltb,
  if◌then◌else◌, length, dec_lt,
}
use cth.UnionFind.{parent}

-- `Root ps r i`: the path up from `i` ends in the root `r`.
pub data Root (ps : List ℕ) (r : ℕ) : ℕ → Type 0 where
  here : parent ps r ≡ r → Root ps r r
  up : {i : ℕ} → Root ps r (parent ps i) → Root ps r i

pub Root-top : {ps : List ℕ} {r i : ℕ} → Root ps r i → parent ps r ≡ r
Root-top (here h) = h
Root-top (up rest) = Root-top rest

-- One step up does not change the root.
pub Root-parent : {ps : List ℕ} {r i : ℕ} → Root ps r i → Root ps r (parent ps i)
Root-parent {ps} {r} (here h) = rw h (here h)
Root-parent (up rest) = rest

pub Root_of_root : {ps : List ℕ} {r i : ℕ} → parent ps i ≡ i → Root ps r i → r ≡ i
Root_of_root h (here _) = refl
Root_of_root {ps} h (up rest) = Root_of_root (ap (parent ps) h) rest ∙ h

pub Root-unique : {ps : List ℕ} {r q i : ℕ} → Root ps r i → Root ps q i → r ≡ q
Root-unique (here h) y = sym (Root_of_root h y)
Root-unique (up rest) (here h) = Root_of_root h (up rest)
Root-unique (up rest) (up rest') = Root-unique rest rest'

-- Parents stay in range, and a node that is no root ranks below its parent.
pub record Ranked (ps : List ℕ) (rank : ℕ → ℕ) : Type 0 where
  pub inside : (i : ℕ) → i < length ps → parent ps i < length ps
  pub rising : (i : ℕ) → i < length ps → (parent ps i ≡ i) ⊎ (rank i < rank (parent ps i))

module _ (rank : ℕ → ℕ) where
  -- How many of the first `n` nodes rank above `k`.
  pub above : ℕ → ℕ → ℕ
  above zero k = 0
  above (suc n) k = above n k + (if ltb k (rank n) then 1 else 0)

  above_mono : (n j k : ℕ) → j ≤ k → above n k ≤ above n j
  unfolding above
  above_mono zero j k h = omega arith
  above_mono (suc n) j k h = ground (arith, above_mono n j k h)

  pub above-lt : (n j k : ℕ) → j < n → k < rank j → above n (rank j) < above n k
  unfolding above
  above-lt zero j k h lt = absurd (omega arith)
  above-lt (suc n) j k h lt = elim (dec_lt j n) [
    | yes below ↦ ground (arith, above-lt n j k below lt)
    | no last ↦
        let e : j ≡ n = omega arith in
        subst
          (λ m.
            above m (rank j) + (if ltb (rank j) (rank m) then 1 else 0)
            < above m k + (if ltb k (rank m) then 1 else 0))
          e (ground (arith, above_mono j k (rank j)))
  ]

  above-le : (n k : ℕ) → above n k ≤ n
  unfolding above
  above-le zero k = omega arith
  above-le (suc n) k = ground (arith, above-le n k)

  pub above_self : (n j : ℕ) → j < n → above n (rank j) < n
  unfolding above
  above_self zero j h = absurd (omega arith)
  above_self (suc n) j h = elim (dec_lt j n) [
    | yes below ↦ ground (arith, above_self n j below)
    | no last ↦ let e : n ≡ j = omega arith in ground (arith, above-le n (rank j), ap rank e)
  ]

-- Every node of a ranked array has a root in range: climb while nodes of higher rank are left.
Root_below :
    (fuel : ℕ) {ps : List ℕ} {rank : ℕ → ℕ} (i : ℕ)
    → Ranked ps rank
    → i < length ps
    → above rank (length ps) (rank i) < fuel
    → (r : ℕ) × (r < length ps) × Root ps r i
Root_below zero i f h m = absurd (omega arith)
Root_below (suc fuel) {ps} {rank} i f h m = elim (f.rising i h) [
  | inl top ↦ (i, h, here top)
  | inr rise ↦
      let (r, hr, path) =
        Root_below fuel (parent ps i) f (f.inside i h)
          (omega (arith, above-lt rank (length ps) (parent ps i) (rank i) (f.inside i h) rise)) in
      (r, hr, up path)
]

pub Root-total :
    {ps : List ℕ} {rank : ℕ → ℕ} (i : ℕ)
    → Ranked ps rank
    → i < length ps
    → (r : ℕ) × (r < length ps) × Root ps r i
Root-total {ps} {rank} i f h = Root_below (length ps) i f h (above_self rank (length ps) i h)
