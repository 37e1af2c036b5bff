-- ===== src/PolyVector/Storage.antt =====
-- The storage that `realloc` of cth/incl/cth/data/poly_vector.hpp gets, and how it is given back.
use cth.Base.{
  ℕ, zero, suc, ◌+◌, ◌%◌, ◌^◌, ◌≤◌, ◌<◌, ◌≡◌, ◌⊎◌, inl, inr, refl, sym, ap, subst, ◌∙◌, false, not,
  List, [], ◌∷◌, map, length, get_or, arith, ◌==◌, ==_iff, if◌then◌else◌, if-true, if-false, ok,
  check, ◌>>◌,
}
use cth.PolyVector.{
  Kind, Heap, Allocator, move_new, block_exponent, alloc_exponent, place_blocks, data_ref,
  place_begins, realloc, remove, free,
}
use cth.PolyVector.Layout.{
  no_kind, bytes, room, IsLaidOut, place_blocks-IsLaidOut, place_blocks_first,
}
use Prim.Native.Nat.{◌∣◌, ◌-◌}
use native.Mathlib.Nat.{
  dvd_refl, dvd_trans, dvd-add, dvd-mul_left, mod-eq-zero_of_dvd, dvd_of_mod-eq-zero, pow-succ',
}

abbrev pub Allocated : Heap → ℕ → ℕ → Type 0
Allocated [] at size = ⊥
Allocated ((block, taken) ∷ others) at size =
    (block ≡ at) × (taken ≡ size) ⊎ Allocated others at size

-- What `operator new` promises: a block with the alignment that is asked for, in none of those that
-- are allocated.
pub record IsAllocator (new : Allocator) : Type 0 where
  pub not_null : (heap : Heap) (size k : ℕ) → 0 < new heap size k
  pub aligned : (heap : Heap) (size k : ℕ) → new heap size k % 2 ^ k ≡ 0
  pub separate :
      (heap : Heap) (size k at taken : ℕ)
      → Allocated heap at taken
      → (new heap size k + size ≤ at) ⊎ (at + taken ≤ new heap size k)

pow-dvd : (extra k : ℕ) → 2 ^ k ∣ 2 ^ (extra + k)
pow-dvd zero k = subst (λ n. 2 ^ k ∣ 2 ^ n) {x = k} {y = 0 + k} (omega arith) (dvd_refl (2 ^ k))
pow-dvd (suc extra) k =
    subst (λ n. 2 ^ k ∣ 2 ^ n) {x = suc (extra + k)} {y = suc extra + k} (omega arith)
      (dvd_trans (2 ^ k) (pow-dvd extra k) (
        subst (λ n. 2 ^ (extra + k) ∣ n) (sym (pow-succ' 2 (extra + k)))
          (dvd-mul_left (2 ^ (extra + k)) 2)))

-- A sum is aligned less strictly than one part if the other part is.
aligned_sum :
    (block offset k most : ℕ)
    → k ≤ most
    → block % 2 ^ most ≡ 0
    → offset % 2 ^ k ≡ 0
    → (block + offset) % 2 ^ k ≡ 0
aligned_sum block offset k most le block_aligned offset_aligned = mod-eq-zero_of_dvd (2 ^ k) (
    dvd-add (2 ^ k)
      (dvd_trans (2 ^ k)
        (subst (λ n. 2 ^ k ∣ 2 ^ n) {x = most - k + k} {y = most} (omega arith)
          (pow-dvd (most - k) k))
        (dvd_of_mod-eq-zero (2 ^ most) block_aligned))
      (dvd_of_mod-eq-zero (2 ^ k) offset_aligned))

alloc_exponent-le :
    (min_exponent : ℕ) (kinds : List Kind) (i : ℕ)
    → i < length kinds
    → block_exponent min_exponent (get_or kinds i no_kind) ≤ alloc_exponent min_exponent kinds
unfolding alloc_exponent
alloc_exponent-le min_exponent [] i bound = absurd (omega arith)
alloc_exponent-le min_exponent (kind ∷ kinds) zero bound = omega arith
alloc_exponent-le min_exponent (kind ∷ kinds) (suc i) bound =
    omega (arith, alloc_exponent-le min_exponent kinds i (omega arith))

get_or-map :
    (block : ℕ) (offsets : List ℕ) (i : ℕ)
    → i < length offsets
    → get_or (map (λ offset. block + offset) offsets) i 0 ≡ block + get_or offsets i 0
get_or-map block [] i bound = absurd (omega arith)
get_or-map block (offset ∷ offsets) zero bound = refl
get_or-map block (offset ∷ offsets) (suc i) bound = get_or-map block offsets i (omega arith)

get_or-place_begins :
    (block : ℕ) (offsets : List ℕ) (i : ℕ)
    → get_or offsets 0 0 ≡ 0
    → i < length offsets
    → get_or (place_begins block offsets) i 0 ≡ block + get_or offsets i 0
get_or-place_begins block [] i starts bound = absurd (omega arith)
get_or-place_begins block (first ∷ offsets) zero starts bound = refl
get_or-place_begins block (first ∷ offsets) (suc i) starts bound =
    omega (arith, starts, get_or-map (block + first) offsets i (omega arith))

-- What `realloc` leaves: blocks for all types, aligned, apart from one another and from what was
-- allocated, in one piece that is given back as a whole.
pub record IsStored (min_exponent : ℕ) (kinds : List Kind) (counts : List ℕ) (heap : Heap)
    (begins : List ℕ) (after : Heap) : Type 0 where
  pub aligned :
      (i : ℕ)
      → i < length kinds
      → get_or begins i 0 % 2 ^ block_exponent min_exponent (get_or kinds i no_kind) ≡ 0
  pub apart :
      (i j : ℕ)
      → i < j
      → j < length kinds
      → get_or begins i 0 + bytes kinds counts i ≤ get_or begins j 0
  pub separate :
      (i at taken : ℕ)
      → i < length kinds
      → Allocated heap at taken
      → (get_or begins i 0 + bytes kinds counts i ≤ at) ⊎ (at + taken ≤ get_or begins i 0)
  pub given_back : free begins after ≡ heap

remove-first : (block size : ℕ) (heap : Heap) → remove block ((block, size) ∷ heap) ≡ heap
remove-first block size heap =
    if-true ((==_iff block block).1 refl) heap ((block, size) ∷ remove block heap)

module _ (new : Allocator) (law : IsAllocator new) (min_exponent : ℕ) (kinds : List Kind)
    (counts : List ℕ) (heap : Heap) (same : length counts ≡ length kinds)
    (small : room min_exponent kinds counts < 2 ^ 64) where
  module _ (placed : List ℕ × ℕ) (laid : IsLaidOut min_exponent kinds counts 0 placed.0 placed.1)
      (first : get_or placed.0 0 0 ≡ 0) (some_kind : 0 < length kinds) where
    abbrev block : ℕ
    block = new heap placed.1 (alloc_exponent min_exponent kinds)

    abbrev begins : List ℕ
    begins = place_begins block placed.0

    at_offset : (i : ℕ) → i < length kinds → get_or begins i 0 ≡ block + get_or placed.0 i 0
    at_offset i bound = get_or-place_begins block placed.0 i first (omega (arith, laid.sized))

    begins_first : data_ref begins ≡ block
    begins_first = omega (arith, at_offset 0 some_kind, first)

    freed : free begins ((block, placed.1) ∷ heap) ≡ heap
    unfolding free
    freed =
        ap
          (λ at. if at == 0 then (block, placed.1) ∷ heap else remove at ((block, placed.1) ∷ heap))
          begins_first
        ∙ if-false (positive block (law.not_null heap placed.1 (alloc_exponent min_exponent kinds)))
            ((block, placed.1) ∷ heap) (remove block ((block, placed.1) ∷ heap))
        ∙ remove-first block placed.1 heap
      where
        positive : (n : ℕ) → 0 < n → (n == 0) ≡ false
        positive n pos = ground arith

    placed-IsStored : IsStored min_exponent kinds counts heap begins ((block, placed.1) ∷ heap)
    placed-IsStored = record {
      aligned = λ i bound.
          ap (λ at. at % 2 ^ block_exponent min_exponent (get_or kinds i no_kind))
            (at_offset i bound)
          ∙ aligned_sum block (get_or placed.0 i 0)
              (block_exponent min_exponent (get_or kinds i no_kind))
              (alloc_exponent min_exponent kinds) (alloc_exponent-le min_exponent kinds i bound)
              (law.aligned heap placed.1 (alloc_exponent min_exponent kinds))
              (laid.inside i bound).2;
      apart = λ i j lt bound.
          omega (arith, at_offset i (omega arith), at_offset j bound, laid.apart i j lt bound);
      separate = λ i at taken bound there.
          elim (law.separate heap placed.1 (alloc_exponent min_exponent kinds) at taken there) [
            | inl below ↦ inl (omega (arith, at_offset i bound, (laid.inside i bound).1, below))
            | inr above ↦ inr (omega (arith, at_offset i bound, above))
          ];
      given_back = freed;
    }

-- `realloc` with a count for each type, where the blocks and their padding fit into `size_t` and some
-- block is not empty, gets new storage for all blocks: they have their alignment, lie apart from one
-- another and from all that was allocated, and to free the object gives back exactly this storage.
-- What the object held before stays allocated.
pub realloc-IsStored :
    (new : Allocator) (min_exponent : ℕ) (kinds : List Kind) (counts begins : List ℕ) (heap : Heap)
    (i : ℕ)
    → IsAllocator new
    → length counts ≡ length kinds
    → room min_exponent kinds counts < 2 ^ 64
    → i < length kinds
    → 0 < bytes kinds counts i
    → (stored : List ℕ × Heap) × (realloc new min_exponent kinds counts begins heap ≡ ok stored)
      × IsStored min_exponent kinds counts heap stored.0 stored.1
unfolding realloc
realloc-IsStored new min_exponent kinds counts begins heap i law same small bound some_bytes = (
  (place_begins place placed.0, (place, placed.1) ∷ heap),
  ap (λ equal. check (not equal) >> (if placed.1 == 0 then ok (begins, heap) else ok stored))
        ((==_iff (length counts) (length kinds)).1 same)
      ∙ if-false (positive placed.1 (omega (arith, (laid.inside i bound).1))) (ok (begins, heap))
          (ok stored),
  placed-IsStored new law min_exponent kinds counts heap same small placed laid
      (place_blocks_first min_exponent kinds counts same small) (omega arith),
)
  where
    placed : List ℕ × ℕ
    placed = place_blocks min_exponent kinds counts 0

    place : ℕ
    place = new heap placed.1 (alloc_exponent min_exponent kinds)

    stored : List ℕ × Heap
    stored = (place_begins place placed.0, (place, placed.1) ∷ heap)

    laid : IsLaidOut min_exponent kinds counts 0 placed.0 placed.1
    laid = place_blocks-IsLaidOut min_exponent kinds counts 0 same (omega arith)

    positive : (n : ℕ) → 0 < n → (n == 0) ≡ false
    positive n pos = ground arith

-- The object that was moved from frees nothing.
pub move_new-free : (begins : List ℕ) (heap : Heap) → free (move_new begins).1 heap ≡ heap
unfolding free move_new
move_new-free [] heap = refl
move_new-free (first ∷ others) heap = refl
