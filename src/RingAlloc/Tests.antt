-- ===== src/RingAlloc/Tests.antt =====
-- Small runs of the ring_alloc, and its theorems applied to them.
use cth.Base.{◌+◌, ◌-◌, ◌*◌, ◌%◌, ◌≤◌, ◌^◌, ◌≡◌, ◌≢◌, ◌↔◌, refl, ℕ_discrete, none, some, arith}
use cth.RingAlloc.{Ring, plan, alloc, max_alloc, create_token}
use cth.RingAlloc.MaxAlloc.{IsSound, alloc_iff, plan_fits, alloc_overflows}
use cth.RingAlloc.Threads.{System, Reach, start, later, call_alloc, has_space, win}
use cth.RingAlloc.Threads.Invariant.{Inv, Reach-Inv}
use cth.RingAlloc.Threads.Disjoint.{NoOverlap, Reach-NoOverlap}

-- 16 bytes, of which 4 to 12 are in use.
abbrev ring : Ring
ring = record { size = 16; head = 12; tail = 4 }

ring-IsSound : IsSound ring
ring-IsSound = record {
  nonempty = omega arith;
  small = omega arith;
  far = omega arith;
  order = omega arith;
  within = omega arith;
}

-- A block that does not fit behind the head goes to the start of the buffer.
wrapped : alloc ring 4 ≡ some (record { begin = 12; cleanup = 16 }, record ring { head = 16 })
unfolding alloc plan create_token
wrapped = refl

alloc_iff_example : (alloc ring 4 ≢ none) ↔ (4 ≤ max_alloc ring)
alloc_iff_example = alloc_iff ring 4 ring-IsSound (omega arith)

plan_fits_example :
    (12 + 4 ≤ 16) × (4 ≤ 4) × (4 ≤ 2 * 16) × (12 + 4 ≤ 4 + 16) × ((12 + 4 - 4) % 16 ≡ 12)
unfolding plan
plan_fits_example =
    plan_fits 16 12 4 4 (record { begin = 12; total = 4 }) (omega arith) (omega arith) (omega arith)
      (omega arith) (omega arith) refl

-- All that was in use is freed, and the head stands in the middle of the buffer.
abbrev drained : Ring
drained = record { size = 16; head = 20; tail = 16 }

drained-IsSound : IsSound drained
drained-IsSound = record {
  nonempty = omega arith;
  small = omega arith;
  far = omega arith;
  order = omega arith;
  within = omega arith;
}

alloc_overflows_example :
    alloc drained (2 ^ 64 - 20 % 16)
    ≡ some
        (record { begin = 20 % 16; cleanup = 20 - 20 % 16 }, record drained { head = 20 - 20 % 16 })
alloc_overflows_example = alloc_overflows drained drained-IsSound (omega arith) (omega arith)

-- Thread 0 allocates 4 bytes, then thread 1 allocates 8.
abbrev two_allocations : (s : System) × Reach 16 s
unfolding ℕ_discrete plan
two_allocations = (
  _,
  later 1
      (later 1
        (later 1
          (later 0
            (later 0 (later 0 start (call_alloc 4 0 (omega arith)))
              (has_space 0 (record { begin = 0; total = 4 }) (omega arith) refl))
            (win refl))
          (call_alloc 8 4 (omega arith)))
        (has_space 0 (record { begin = 4; total = 8 }) (omega arith) refl))
      (win refl),
)

Reach-NoOverlap_example : NoOverlap 0 two_allocations.0.grants
unfolding ℕ_discrete plan
Reach-NoOverlap_example =
    Reach-NoOverlap (omega arith) (omega arith) two_allocations.1 (omega arith)

Reach-Inv_example : Inv 16 two_allocations.0
unfolding ℕ_discrete plan
Reach-Inv_example = Reach-Inv (omega arith) (omega arith) two_allocations.1 (omega arith)
