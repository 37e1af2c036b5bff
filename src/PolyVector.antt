-- ===== src/PolyVector.antt =====
-- cth/incl/cth/data/poly_vector.hpp: `raw_poly_vector`. A type of `Ts` is its size and its alignment, a
-- power of two. The heap is the list of what is allocated, each block with its address and its size;
-- where `operator new` finds room is a parameter. A null pointer is 0.
pub mod Layout
pub mod Storage
mod Tests
use cth.Base.{
  ℕ, zero, suc, ◌+◌, ◌*◌, ◌%◌, ◌^◌, ◌≤◌, ◌<◌, ◌≡◌, ◌≢◌, max, Bool, true, false, not, List, [], ◌∷◌,
  map, length, get_or, set, replicate, ◌==◌, if◌then◌else◌, Result, ok, check, ◌>>=◌, ◌>>◌,
}
use cth.Base.Words.{add64}
use cth.Numeric.{align_to_power}

pub record Kind : Type 0 where
  pub size : ℕ
  pub exponent : ℕ

-- `std::max(MIN_ALIGN, alignof(T))`, as an exponent.
abbrev pub block_exponent : ℕ → Kind → ℕ
block_exponent min_exponent kind = max min_exponent kind.exponent

-- `ALLOC_ALIGN`
unfoldable pub alloc_exponent : ℕ → List Kind → ℕ
alloc_exponent min_exponent [] = 0
alloc_exponent min_exponent (kind ∷ kinds) =
    max (block_exponent min_exponent kind) (alloc_exponent min_exponent kinds)

-- The loop of `realloc`: the byte offsets and the offset behind the last block. The lists are equally
-- long, as `realloc` has checked.
unfoldable pub place_blocks : ℕ → List Kind → List ℕ → ℕ → List ℕ × ℕ
place_blocks min_exponent [] counts offset = ([], offset)
place_blocks min_exponent (kind ∷ kinds) [] offset = ([], offset)
place_blocks min_exponent (kind ∷ kinds) (count ∷ counts) offset =
    let start = align_to_power 64 (block_exponent min_exponent kind) offset in
    let rest = place_blocks min_exponent kinds counts (add64 start (kind.size * count % 2 ^ 64)) in
    (start ∷ rest.0, rest.1)

abbrev pub Heap : Type 0
Heap = List (ℕ × ℕ)

-- `operator new(bytes, align)` on a heap.
abbrev pub Allocator : Type 0
Allocator = Heap → ℕ → ℕ → ℕ

-- `_begins[0]`
abbrev pub data_ref : List ℕ → ℕ
data_ref begins = get_or begins 0 0

-- The loop that sets `_begins`: its first turn moves `_begins[0]`, from which the others count.
abbrev pub place_begins : ℕ → List ℕ → List ℕ
place_begins block [] = []
place_begins block (first ∷ offsets) =
    (block + first) ∷ map (λ offset. block + first + offset) offsets

unfoldable pub realloc : Allocator → ℕ → List Kind → List ℕ → List ℕ → Heap → Result (List ℕ × Heap)
realloc new min_exponent kinds counts begins heap =
    check (not (length counts == length kinds))
    >> (let placed = place_blocks min_exponent kinds counts 0 in
        if placed.1 == 0
        then ok (begins, heap)
        else (let block = new heap placed.1 (alloc_exponent min_exponent kinds) in
            ok (place_begins block placed.0, (block, placed.1) ∷ heap)))

-- `operator delete`
abbrev pub remove : ℕ → Heap → Heap
remove block [] = []
remove block ((at, bytes) ∷ others) =
    if at == block then others else (at, bytes) ∷ remove block others

unfoldable pub free : List ℕ → Heap → Heap
free begins heap = if data_ref begins == 0 then heap else remove (data_ref begins) heap

-- The constructor.
unfoldable pub new_vector : Allocator → ℕ → List Kind → List ℕ → Heap → Result (List ℕ × Heap)
new_vector new min_exponent kinds counts heap =
    realloc new min_exponent kinds counts (replicate (length kinds) 0) heap

-- The move constructor: the new object, and what is left of the other.
unfoldable pub move_new : List ℕ → List ℕ × List ℕ
move_new other = (other, set other 0 0)

-- The move assignment from another object.
unfoldable pub move_assign : List ℕ → List ℕ → Heap → List ℕ × List ℕ × Heap
move_assign begins other heap = (other, set other 0 0, free begins heap)
