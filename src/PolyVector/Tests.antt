-- ===== src/PolyVector/Tests.antt =====
-- Tests of `raw_poly_vector`, with an allocator that takes the storage behind all that is allocated.
use cth.Base.{ℕ, suc, ◌+◌, ◌*◌, ◌^◌, ◌≤◌, ◌≡◌, inl, inr, refl, List, [], ◌∷◌, max, arith, ok}
use cth.PolyVector.{Kind, Heap, Allocator, alloc_exponent, place_blocks, realloc, move_new}
use cth.PolyVector.Storage.{Allocated, IsAllocator, IsStored, realloc-IsStored}
use native.Mathlib.Nat.{mul-mod_left, one-le-pow}

abbrev top : Heap → ℕ
top [] = 0
top ((at, taken) ∷ others) = max (at + taken) (top others)

abbrev bump : Allocator
bump heap size k = suc (top heap) * 2 ^ k

Allocated-top : (heap : Heap) (at taken : ℕ) → Allocated heap at taken → at + taken ≤ top heap
Allocated-top [] at taken there = absurd there
Allocated-top ((block, size) ∷ others) at taken (inl (e, f)) = omega arith
Allocated-top ((block, size) ∷ others) at taken (inr deeper) =
    omega (arith, Allocated-top others at taken deeper)

bump-le : (n k : ℕ) → n ≤ n * 2 ^ k
bump-le n k = grind (arith, one-le-pow k 2 (omega arith))

bump-IsAllocator : IsAllocator bump
bump-IsAllocator = record {
  not_null = λ heap size k. omega (arith, bump-le (suc (top heap)) k);
  aligned = λ heap size k. mul-mod_left (suc (top heap)) (2 ^ k);
  separate = λ heap size k at taken there.
      inr (omega (arith, Allocated-top heap at taken there, bump-le (suc (top heap)) k));
}

-- `char`, `double` and `size_t`.
abbrev kinds : List Kind
kinds =
    record { size = 1; exponent = 0 }
    ∷ record { size = 8; exponent = 3 }
    ∷ record { size = 8; exponent = 3 }
    ∷ []

three_blocks :
    realloc bump 4 kinds (5 ∷ 3 ∷ 2 ∷ []) (0 ∷ 0 ∷ 0 ∷ []) []
    ≡ ok (16 ∷ 32 ∷ 64 ∷ [], (16, 64) ∷ [])
unfolding realloc place_blocks alloc_exponent cth.Numeric.align_to_power
three_blocks = refl

moved_twice : (move_new (16 ∷ 32 ∷ 64 ∷ [])).1 ≡ 0 ∷ 32 ∷ 64 ∷ []
unfolding move_new
moved_twice = refl

-- A vector that is assigned to gets new storage, and the old one stays.
realloc-IsStored_example :
    (stored : List ℕ × Heap) × (realloc bump 4 kinds
        (5 ∷ 3 ∷ 2 ∷ [])
        (16 ∷ 32 ∷ 64 ∷ [])
        ((16, 64) ∷ [])
      ≡ ok stored)
    × IsStored 4 kinds (5 ∷ 3 ∷ 2 ∷ []) ((16, 64) ∷ []) stored.0 stored.1
realloc-IsStored_example =
    realloc-IsStored bump 4 kinds (5 ∷ 3 ∷ 2 ∷ []) (16 ∷ 32 ∷ 64 ∷ []) ((16, 64) ∷ []) 1
      bump-IsAllocator refl (omega arith) (omega arith) (omega arith)
