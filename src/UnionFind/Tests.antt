-- ===== src/UnionFind/Tests.antt =====
-- Small runs of the union_find, and its theorems applied to them.
use cth.Base.{
  ℕ, zero, suc, ◌<◌, ◌≡◌, refl, ◌↔◌, ◌⊎◌, inl, inr, List, [], ◌∷◌, Bool, true, ok, arith,
  if◌then◌else◌, ◌==◌,
}
use cth.UnionFind.{
  UnionFind, init, iota, merge, merge_group, find, find_loop, link, attach, adopt, adopt_all,
  check_bounds, parent,
}
use cth.UnionFind.Forest.{Root, here, up, Root-unique, Root_of_root}
use cth.UnionFind.Find.{IsForest, Finds, find-Finds}
use cth.UnionFind.Same.{Same, merge-Same}
use cth.UnionFind.Sizes.{IsSized, merge-IsSized}
use cth.UnionFind.Group.{All, contains, merge_group-Root, merge_group_loses}
use cth.UnionFind.Init.{init-IsForest, init-IsSized}
use cth.UnionFind.Queries.{chain_length, all_of, equal}
use cth.UnionFind.Queries.Chain.{Chain, chain_length-Chain}
use cth.UnionFind.Queries.Laws.{all_of-Same, equal_iff}

-- Node 1 hangs below node 2, and node 0 is alone.
abbrev linked : UnionFind
linked = record { parents = 0 ∷ 2 ∷ 2 ∷ []; sizes = 1 ∷ 1 ∷ 2 ∷ []; size = 3 }

abbrev linked_rank : ℕ → ℕ
linked_rank i = if i == 2 then 1 else 0

linked-IsForest : IsForest linked
linked-IsForest = record {
  rank = linked_rank;
  ranked = record { inside = λ i h. small i h; rising = λ i h. climbs i h };
  count = refl;
}
  where
    small : (i : ℕ) → i < 3 → parent (0 ∷ 2 ∷ 2 ∷ []) i < 3
    small zero h = omega arith
    small (suc zero) h = omega arith
    small (suc (suc zero)) h = omega arith
    small (suc (suc (suc i))) h = absurd (omega arith)

    climbs :
        (i : ℕ)
        → i < 3
        → (parent (0 ∷ 2 ∷ 2 ∷ []) i ≡ i)
          ⊎ (linked_rank i < linked_rank (parent (0 ∷ 2 ∷ 2 ∷ []) i))
    climbs zero h = inl refl
    climbs (suc zero) h = inr (ground arith)
    climbs (suc (suc zero)) h = inl refl
    climbs (suc (suc (suc i))) h = absurd (omega arith)

-- Three nodes, one merged into another.
merged :
    merge (init 3) 0 1 ≡ ok (record { parents = 1 ∷ 1 ∷ 2 ∷ []; sizes = 1 ∷ 2 ∷ 1 ∷ []; size = 3 })
unfolding merge init iota find find_loop check_bounds link attach
merged = refl

merge-Same_example :
    (t : UnionFind) × (merge linked 0 1 ≡ ok t)
    × IsForest t
    × (t.size ≡ 3)
    × ((x y : ℕ)
        → x < 3
        → y < 3
        → Same t x y ↔ (
            Same linked x y
            ⊎ (Same linked x 0 × Same linked y 1)
            ⊎ (Same linked x 1 × Same linked y 0)))
merge-Same_example = merge-Same linked 0 1 linked-IsForest (omega arith) (omega arith)

find-Finds_example : Finds linked 1
find-Finds_example = find-Finds linked 1 linked-IsForest (omega arith)

merge-IsSized_example : (t : UnionFind) × (merge (init 3) 0 1 ≡ ok t) × IsForest t × IsSized t
unfolding init
merge-IsSized_example =
    merge-IsSized (init 3) 0 1 (init-IsForest 3) (init-IsSized 3) (omega arith) (omega arith)
      (omega arith)

merge_group-Root_example :
    (t : UnionFind) × (root : ℕ) × (merge_group linked (1 ∷ 0 ∷ []) ≡ ok t)
    × Root linked.parents root 1
    × IsForest t
    × (t.size ≡ 3)
    × All (λ node. Root t.parents root node) (1 ∷ 0 ∷ [])
    × ((i : ℕ) → Root linked.parents root i → Root t.parents root i)
merge_group-Root_example =
    merge_group-Root linked 1 (0 ∷ []) linked-IsForest (omega arith, (omega arith, tt))

-- `merge({0, 1})` takes node 1 away from node 2.
abbrev torn : UnionFind
torn = record { parents = 0 ∷ 0 ∷ 2 ∷ []; sizes = 2 ∷ 1 ∷ 2 ∷ []; size = 3 }

linked_merged : merge_group linked (0 ∷ 1 ∷ []) ≡ ok torn
unfolding merge_group find find_loop check_bounds adopt adopt_all
linked_merged = refl

linked_apart : ¬ Same linked 0 1
linked_apart (r, p, q) = omega (
  arith,
  Root_of_root {ps = linked.parents} refl p,
  Root-unique {ps = linked.parents} {q = 2} q (up (here refl)),
)

merge_group_loses_example : Same linked 2 1 × (¬ Same torn 2 1)
merge_group_loses_example =
    merge_group_loses linked torn 0 1 2 linked-IsForest (omega arith) (omega arith) (up (here refl))
      (λ e. omega arith) linked_apart linked_merged

all_of-Same_example :
    (out : List ℕ) × (t : UnionFind) × (all_of linked 2 ≡ ok (out, t))
    × IsForest t
    × (t.size ≡ 3)
    × ((k : ℕ) → (contains out k ≡ true) ↔ ((k < 3) × Same linked k 2))
all_of-Same_example = all_of-Same linked 2 linked-IsForest (omega arith)

equal_iff_example :
    (b : Bool) × (s' t' : UnionFind) × (equal linked (init 3) ≡ ok (b, s', t'))
    × ((b ≡ true) ↔ (
        (linked.size ≡ (init 3).size)
        × ((k r : ℕ) → k < 3 → Root linked.parents r k → Root (init 3).parents r k)))
equal_iff_example = equal_iff linked (init 3) linked-IsForest (init-IsForest 3)

chain_length-Chain_example :
    (n : ℕ) × (chain_length linked 1 ≡ ok n) × (n < 3) × Chain linked.parents 1 n
chain_length-Chain_example = chain_length-Chain linked 1 linked-IsForest (omega arith)
