-- ===== src/UnionFind/Queries.antt =====
-- The queries of a union_find: `chain_length`, `roots`, `all_of`, `all` and `operator==`
-- (cth/incl/cth/data/union_find.hpp). Each `find` that a query calls may shorten paths.
pub mod Laws
pub mod Chain
use cth.Base.{
  ℕ, zero, suc, ◌+◌, Bool, true, false, not, List, [], ◌∷◌, ◌++◌, Option, none, some, Result, ok,
  critical, diverged, ◌>>=◌, ◌>>◌, ◌==◌, if◌then◌else◌, length, get_or, set,
}
use cth.UnionFind.{UnionFind, parent, is_root, find, check_bounds}

-- `for(; !root(p); len++) p = parent(p)`
pub chain_loop : ℕ → List ℕ → ℕ → ℕ → Result ℕ
chain_loop zero ps p len = diverged
chain_loop (suc fuel) ps p len =
    let rest = chain_loop fuel ps (parent ps p) (len + 1) in if is_root ps p then ok len else rest

pub chain_length : UnionFind → ℕ → Result ℕ
unfolding chain_loop
chain_length s x = chain_loop s.size s.parents x 0

-- The indices of `[i, i + n)` that pass a test, in order: `for(...) if(test(i)) push_back(i)`.
pub select : (ℕ → Bool) → ℕ → ℕ → List ℕ
select test i zero = []
select test i (suc n) = let rest = select test (suc i) n in if test i then i ∷ rest else rest

pub roots : UnionFind → List ℕ
unfolding select
roots s = select (is_root s.parents) 0 s.size

-- The loop of `all_of` over the `n` indices from `i` on.
pub all_of_loop : ℕ → ℕ → ℕ → UnionFind → Result (List ℕ × UnionFind)
all_of_loop top i zero s = ok ([], s)
all_of_loop top i (suc n) s = do
  found ← find s i
  rest ← all_of_loop top (suc i) n found.1
  ok (if found.0 == top then i ∷ rest.0 else rest.0, rest.1)

pub all_of : UnionFind → ℕ → Result (List ℕ × UnionFind)
unfolding check_bounds
all_of s x = do check_bounds s x; found ← find s x; all_of_loop found.0 0 s.size found.1

-- `groups.find(key)` of an `unordered_map`
pub lookup : ℕ → List (ℕ × ℕ) → Option ℕ
lookup key [] = none
lookup key ((k, v) ∷ m) = if k == key then some v else lookup key m

-- `result[at].emplace_back(idx)`, or a new group `{idx}` registered under its root.
pub place : ℕ → ℕ → List (ℕ × ℕ) → List (List ℕ) → List (ℕ × ℕ) × List (List ℕ)
unfolding lookup
place idx root groups result = elim (lookup root groups) [
  | some at ↦ (groups, set result at (get_or result at [] ++ idx ∷ []))
  | none ↦ ((root, length result) ∷ groups, result ++ (idx ∷ []) ∷ [])
]

-- The loop of `all` over the `n` indices from `idx` on.
pub all_loop : ℕ → ℕ → List (ℕ × ℕ) → List (List ℕ) → UnionFind → Result (List (List ℕ) × UnionFind)
all_loop idx zero groups result s = ok (result, s)
all_loop idx (suc n) groups result s = do
  found ← find s idx
  all_loop (suc idx) n (place idx found.0 groups result).0 (place idx found.0 groups result).1
      found.1

pub all : UnionFind → Result (List (List ℕ) × UnionFind)
unfolding find place all_loop
all s = all_loop 0 s.size [] [] s

-- The loop of `operator==` over the `n` indices from `i` on; it stops at the first difference.
pub eq_loop : ℕ → ℕ → UnionFind → UnionFind → Result (Bool × UnionFind × UnionFind)
eq_loop i zero s t = ok (true, s, t)
eq_loop i (suc n) s t = do
  mine ← find s i
  other ← find t i
  let rest = eq_loop (suc i) n mine.1 other.1
  if mine.0 == other.0 then rest else ok (false, mine.1, other.1)

-- `operator==`
pub equal : UnionFind → UnionFind → Result (Bool × UnionFind × UnionFind)
unfolding find eq_loop
equal s t = if s.size == t.size then eq_loop 0 s.size s t else ok (false, s, t)
