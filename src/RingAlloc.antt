-- ===== src/RingAlloc.antt =====
-- cth/incl/cth/data/ringalloc.hpp: the class `ring_alloc`. The counters `_head` and `_tail` are
-- `uint64_t`, and so is `size_t`. Here the methods run alone; `Threads` interleaves them.
pub mod MaxAlloc
pub mod Threads
mod Tests
use cth.Base.{ℕ, ◌+◌, ◌-◌, ◌%◌, Bool, Option, none, some, ltb, leb, if◌then◌else◌, max}
use cth.Base.Words.{add64, sub64}

pub record Ring : Type 0 where
  pub size : ℕ
  pub head : ℕ
  pub tail : ℕ

-- `ring_allocation`; the token is the head after the allocation.
pub record Allocation : Type 0 where
  pub begin : ℕ
  pub cleanup : ℕ

-- `begin` and `totalSize` of one round of `alloc`.
pub record Plan : Type 0 where
  pub begin : ℕ
  pub total : ℕ

abbrev pub wraps : ℕ → ℕ → ℕ → Bool
wraps size head n = ltb size (add64 (head % size) n)

-- One round of the loop of `alloc` up to the commit; `none` for "not enough space".
unfoldable pub plan : ℕ → ℕ → ℕ → ℕ → Option Plan
plan size head tail n =
    let begin = if wraps size head n then 0 else head % size in
    let total = if wraps size head n then add64 n (sub64 size (head % size)) else n in
    if ltb size (sub64 (add64 head total) tail)
    then none
    else some (record { begin = begin; total = total })

pub create_token : ℕ → ℕ → ℕ
create_token head total = add64 head total

-- `alloc(n)` with nobody else on the ring: the first commit succeeds.
pub alloc : Ring → ℕ → Option (Allocation × Ring)
unfolding create_token
alloc r n = elim (plan r.size r.head r.tail n) [
  | none ↦ none
  | some p ↦ some (
    record { begin = p.begin; cleanup = create_token r.head p.total },
    record r { head = add64 r.head p.total },
  )
]

-- `free(token)` with nobody else on the ring.
pub free : Ring → ℕ → Ring
free r token = if ltb r.tail token then record r { tail = token } else r

pub allocated : Ring → ℕ
allocated r = sub64 r.head r.tail

pub max_alloc : Ring → ℕ
max_alloc r =
    if leb r.size (sub64 r.head r.tail)
    then 0
    else if ltb (r.head % r.size) (r.tail % r.size)
    then r.tail % r.size - r.head % r.size
    else max (r.size - r.head % r.size) (r.tail % r.size)
