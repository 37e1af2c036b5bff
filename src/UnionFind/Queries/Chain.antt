-- ===== src/UnionFind/Queries/Chain.antt =====
-- `chain_length` of a union_find (cth/incl/cth/data/union_find.hpp).
use cth.Base.{
  ℕ, zero, suc, ◌+◌, ◌<◌, ◌≡◌, ap, ◌∙◌, List, ok, false, arith, length, ==_iff, if-true, if-false,
  Bool-cases, inl, inr,
}
use cth.UnionFind.{UnionFind, parent, is_root}
use cth.UnionFind.Forest.{Root, here, up, Ranked, above, above-lt, above_self}
use cth.UnionFind.Find.{IsForest}
use cth.UnionFind.Queries.{chain_loop, chain_length}

-- The node `n` steps up from `x`.
abbrev pub climb : List ℕ → ℕ → ℕ → ℕ
climb ps zero x = x
climb ps (suc n) x = climb ps n (parent ps x)

-- The path from `x` up to its root has `n` steps, and no root before.
pub record Chain (ps : List ℕ) (x n : ℕ) : Type 0 where
  pub path : Root ps (climb ps n x) x
  pub least : (k : ℕ) → k < n → is_root ps (climb ps k x) ≡ false

Chain-up :
    {ps : List ℕ} {x n : ℕ} → is_root ps x ≡ false → Chain ps (parent ps x) n → Chain ps x (suc n)
Chain-up {ps} {x} {n} go c = record { path = up c.path; least = before }
  where
    before : (k : ℕ) → k < suc n → is_root ps (climb ps k x) ≡ false
    before zero lt = go
    before (suc k) lt = c.least k (omega arith)

chain_loop-Chain :
    (fuel len : ℕ) {ps : List ℕ} {rank : ℕ → ℕ} (x : ℕ)
    → Ranked ps rank
    → x < length ps
    → above rank (length ps) (rank x) < fuel
    → (n : ℕ) × (chain_loop fuel ps x len ≡ ok (len + n)) × (n < fuel) × Chain ps x n
unfolding chain_loop
chain_loop-Chain zero len x f h m = absurd (omega arith)
chain_loop-Chain (suc fuel) len {ps} {rank} x f h m = elim (Bool-cases (is_root ps x)) [
  | inl stop ↦ (
    0,
    if-true stop _ _ ∙ ap ok (omega arith),
    omega arith,
    record { path = here ((==_iff _ _).0 stop); least = λ k lt. absurd (omega arith) },
  )
  | inr go ↦ elim (f.rising x h) [
    | inl top ↦ absurd (ground (arith, go, top))
    | inr rise ↦
        let (n, run, lt, c) =
          chain_loop-Chain fuel (len + 1) (parent ps x) f (f.inside x h)
            (omega (arith, above-lt rank (length ps) (parent ps x) (rank x) (f.inside x h) rise)) in
        (suc n, if-false go _ _ ∙ run ∙ ap ok (omega arith), omega arith, Chain-up go c)
  ]
]

-- On a forest `chain_length(x)` with `x` in bounds ends and returns the number of steps from `x` up to
-- its root, which is below the size.
pub chain_length-Chain :
    (s : UnionFind) (x : ℕ)
    → IsForest s
    → x < s.size
    → (n : ℕ) × (chain_length s x ≡ ok n) × (n < s.size) × Chain s.parents x n
unfolding chain_length
chain_length-Chain s x f h =
    let (n, run, lt, c) =
      chain_loop-Chain s.size 0 x f.ranked (omega (arith, f.count))
        (omega (arith, f.count, above_self f.rank (length s.parents) x (omega (arith, f.count)))) in
    (n, run ∙ ap ok (omega arith), lt, c)
