-- ===== src/UnionFind/Init.antt =====
-- The constructor `union_find(n)`: a forest of single nodes (cth/incl/cth/data/union_find.hpp).
use cth.Base.{
  ℕ, zero, suc, ◌+◌, ◌<◌, ◌≡◌, refl, sym, ap, ◌∙◌, inl, arith, length, get_or, replicate,
  length-replicate,
}
use cth.UnionFind.{parent, iota, init}
use cth.UnionFind.Forest.{here, Root_of_root}
use cth.UnionFind.Find.{IsForest}
use cth.UnionFind.Same.{Same}
use cth.UnionFind.Sizes.{IsSized, members_id}

length-iota : (k n : ℕ) → length (iota k n) ≡ n
unfolding iota
length-iota k zero = refl
length-iota k (suc n) = ap suc (length-iota (suc k) n)

parent-iota : (k n i : ℕ) → i < n → parent (iota k n) i ≡ k + i
unfolding iota
parent-iota k zero i h = absurd (omega arith)
parent-iota k (suc n) zero h = omega arith
parent-iota k (suc n) (suc i) h = omega (arith, parent-iota (suc k) n i)

get_or-ones : (n i : ℕ) → i < n → get_or (replicate {A = ℕ} n 1) i 0 ≡ 1
get_or-ones zero i h = absurd (omega arith)
get_or-ones (suc n) zero h = refl
get_or-ones (suc n) (suc i) h = get_or-ones n i (omega arith)

init-parent : (n i : ℕ) → i < n → parent (init n).parents i ≡ i
unfolding init
init-parent n i h = parent-iota 0 n i h ∙ omega arith

pub init-IsForest : (n : ℕ) → IsForest (init n)
unfolding init
init-IsForest n = record {
  rank = λ _. 0;
  ranked = record {
    inside = λ i h. omega (arith, length-iota 0 n, parent-iota 0 n i);
    rising = λ i h. inl (parent-iota 0 n i (omega (arith, length-iota 0 n)) ∙ omega arith);
  };
  count = length-iota 0 n;
}

pub init-IsSized : (n : ℕ) → IsSized (init n)
unfolding init
init-IsSized n = record {
  root_of = λ i. i;
  paths = λ i h. here (init-parent n i h);
  room = length-replicate n 1;
  exact = λ r h _. ground (arith, get_or-ones n r h, members_id n r);
}

-- `union_find(n)` is a forest with exact sizes, and no two nodes in
-- bounds share a group.
pub init_discrete :
    (n : ℕ)
    → IsForest (init n) × IsSized (init n) × ((x y : ℕ) → x < n → y < n → Same (init n) x y → x ≡ y)
init_discrete n = (
  init-IsForest n,
  init-IsSized n,
  λ x y hx hy (r, px, py).
      sym (Root_of_root (init-parent n x hx) px) ∙ Root_of_root (init-parent n y hy) py,
)
