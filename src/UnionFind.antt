-- ===== src/UnionFind.antt =====
-- cth/incl/cth/data/union_find.hpp: the class `union_find`, with its parent and size arrays as
-- lists. A method that changes the object returns the new object beside its result.
pub mod Forest
pub mod Halve
pub mod Find
pub mod Merge
pub mod Same
pub mod Sizes
pub mod Group
pub mod Init
pub mod Queries
mod Tests
use cth.Base.{
  ℕ, zero, suc, ◌+◌, ◌%◌, ◌^◌, Bool, true, false, List, [], ◌∷◌, Result, ok, critical, diverged,
  ◌>>=◌, ◌>>◌, check, leb, ltb, ◌==◌, if◌then◌else◌, get_or, set, replicate,
}

-- `_data` holds the parents (`data<0>`) and the sizes (`data<1>`, `uint32_t`) of `_size` nodes.
pub record UnionFind : Type 0 where
  pub parents : List ℕ
  pub sizes : List ℕ
  pub size : ℕ

abbrev pub parent : List ℕ → ℕ → ℕ
parent ps x = get_or ps x 0

abbrev pub size_ref : UnionFind → ℕ → ℕ
size_ref s x = get_or s.sizes x 0

-- `root(x)`
abbrev pub is_root : List ℕ → ℕ → Bool
is_root ps x = parent ps x == x

-- `for(i = 0; i < size; i++) parent(i) = i`, from index `i` on.
pub iota : ℕ → ℕ → List ℕ
iota i zero = []
iota i (suc n) = i ∷ iota (suc i) n

pub init : ℕ → UnionFind
unfolding iota
init n = record { parents = iota 0 n; sizes = replicate n 1; size = n }

pub check_bounds : UnionFind → ℕ → Result (Unit {0})
check_bounds s x = check (leb s.size x)

-- The loop of `find`: halves the path from `r` on; a round for each unit of fuel.
pub find_loop : ℕ → List ℕ → ℕ → Result (ℕ × List ℕ)
find_loop zero ps r = diverged
find_loop (suc fuel) ps r =
    let p = parent ps (parent ps r) in
    let ps' = set ps r p in
    let rest = find_loop fuel ps' p in if is_root ps' p then ok (p, ps') else rest

-- `find(x)`; `_data` is mutable, so the object changes.
pub find : UnionFind → ℕ → Result (ℕ × UnionFind)
unfolding check_bounds find_loop
find s x = do
  check_bounds s x
  found ← find_loop s.size s.parents x
  ok (found.0, record s { parents = found.1 })

-- `s.parent(child) = parent; s.size_ref(parent) += s.size_ref(child)`
pub attach : UnionFind → ℕ → ℕ → UnionFind
attach s child top = record s {
  parents = set s.parents child top;
  sizes = set s.sizes top ((size_ref s top + size_ref s child) % 2 ^ 32);
}

-- The rest of `merge` once both roots are known.
pub link : UnionFind → ℕ → ℕ → UnionFind
unfolding attach
link s child top =
    if child == top then s else if ltb top child then attach s top child else attach s child top

-- `merge(lhs, rhs)`
pub merge : UnionFind → ℕ → ℕ → Result UnionFind
unfolding find link
merge s lhs rhs = do child ← find s lhs; top ← find child.1 rhs; ok (link top.1 child.0 top.0)

-- One round of the loop of `merge(group)`.
pub adopt : ℕ → UnionFind → ℕ → UnionFind
adopt root s node = if parent s.parents node == root then s else record s {
  parents = set s.parents node root;
  sizes = set s.sizes root ((size_ref s root + 1) % 2 ^ 32);
}

pub adopt_all : ℕ → UnionFind → List ℕ → UnionFind
adopt_all root s [] = s
adopt_all root s (node ∷ group) = adopt_all root (adopt root s node) group

-- `merge(group)`
pub merge_group : UnionFind → List ℕ → Result UnionFind
unfolding find adopt adopt_all
merge_group s [] = ok s
merge_group s (first ∷ group) = do
  found ← find s first
  ok (adopt_all found.0 found.1 (first ∷ group))

-- `union_find(n, groups)`: the groups in order.
pub merge_groups : UnionFind → List (List ℕ) → Result UnionFind
unfolding merge_group
merge_groups s [] = ok s
merge_groups s (group ∷ groups) = do s' ← merge_group s group; merge_groups s' groups
