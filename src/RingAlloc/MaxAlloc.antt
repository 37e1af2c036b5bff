-- ===== src/RingAlloc/MaxAlloc.antt =====
-- `max_alloc` of a ring_alloc against `alloc` (cth/incl/cth/data/ringalloc.hpp).
use cth.Base.{
  ℕ, ◌+◌, ◌-◌, ◌*◌, ◌/◌, ◌%◌, ◌^◌, ◌≤◌, ◌<◌, ◌≡◌, ◌∙◌, ◌↔◌, ◌⊎◌, inl, inr, ◌≢◌, none, some, arith,
  ap, dec_lt, Bool-cases, Option-cases,
}
use cth.Base.Words.{add64, sub64}
use cth.RingAlloc.{Ring, Plan, plan, alloc, max_alloc, wraps, create_token}
use native.Mathlib.Nat.{
  mod-lt, mod-eq_of_lt, mod-add-mod, mod-eq-sub-mod, div-add-mod, mul-mod_right,
}

-- A ring whose counters have not wrapped, with at most its size between them.
pub record IsSound (r : Ring) : Type 0 where
  pub nonempty : 0 < r.size
  pub small : r.size < 2 ^ 63
  pub far : r.head < 2 ^ 63
  pub order : r.tail ≤ r.head
  pub within : r.head ≤ r.tail + r.size

-- The head's place in the buffer, from the tail's and the distance.
head_place :
    (size head tail : ℕ)
    → 0 < size
    → tail ≤ head
    → head < tail + size
    → (head % size ≡ tail % size + (head - tail))
      ⊎ (head % size + size ≡ tail % size + (head - tail))
head_place size head tail pos le lt = elim (dec_lt (tail % size + (head - tail)) size) [
  | yes h ↦ inl (omega (arith, same, mod-add-mod tail size (head - tail), mod-eq_of_lt h))
  | no h ↦ inr (
      omega (
        arith,
        same,
        mod-add-mod tail size (head - tail),
        mod-eq-sub-mod {n = tail % size + (head - tail)} {m = size} (omega arith),
        mod-lt tail {m = size} pos,
        mod-eq_of_lt {n = tail % size + (head - tail) - size} {m = size}
            (omega (arith, mod-lt tail {m = size} pos)),
      ))
]
  where
    same : head % size ≡ (tail + (head - tail)) % size
    same = ap (λ k. k % size) (omega arith)

-- With its counters in range a ring plans a request exactly when it is at most `max_alloc()`.
abbrev Planned : Ring → ℕ → Type 0
Planned r n = (p : Plan) × (plan r.size r.head r.tail n ≡ some p)

Planned-into : (r : Ring) (n : ℕ) → IsSound r → n < 2 ^ 62 → Planned r n → n ≤ max_alloc r
unfolding plan max_alloc
Planned-into r n v h (p, e) = elim (dec_lt r.head (r.tail + r.size)) [
  | yes room ↦ ground (
    arith,
    head_place r.size r.head r.tail v.nonempty v.order room,
    mod-lt r.head {m = r.size} v.nonempty,
    mod-lt r.tail {m = r.size} v.nonempty,
  )
  | no full ↦ ground (arith, mod-lt r.head {m = r.size} v.nonempty)
]

Planned-back : (r : Ring) (n : ℕ) → IsSound r → n ≤ max_alloc r → Planned r n
unfolding plan max_alloc
Planned-back r n v h = elim (Bool-cases (wraps r.size r.head n)) [
  | inl wrap ↦ (
    record { begin = 0; total = add64 n (sub64 r.size (r.head % r.size)) },
    rw wrap (elim (dec_lt r.head (r.tail + r.size)) [
      | yes room ↦ ground (
        arith,
        head_place r.size r.head r.tail v.nonempty v.order room,
        mod-lt r.head {m = r.size} v.nonempty,
        mod-lt r.tail {m = r.size} v.nonempty,
      )
      | no full ↦ ground (arith, mod-lt r.head {m = r.size} v.nonempty)
    ]),
  )
  | inr stay ↦ (
    record { begin = r.head % r.size; total = n },
    rw stay (elim (dec_lt r.head (r.tail + r.size)) [
      | yes room ↦ ground (
        arith,
        head_place r.size r.head r.tail v.nonempty v.order room,
        mod-lt r.head {m = r.size} v.nonempty,
        mod-lt r.tail {m = r.size} v.nonempty,
      )
      | no full ↦ ground (arith, mod-lt r.head {m = r.size} v.nonempty)
    ]),
  )
]

-- On a ring of fewer than `2 ^ 63` bytes whose head is below `2 ^ 63` and that has at most its size in
-- use, `alloc(n)` with `n` below `2 ^ 62` succeeds exactly when `n` is at most `max_alloc()`.
pub alloc_iff : (r : Ring) (n : ℕ) → IsSound r → n < 2 ^ 62 → (alloc r n ≢ none) ↔ (n ≤ max_alloc r)
unfolding alloc
alloc_iff r n v h = (
  λ some_alloc. elim (Option-cases (plan r.size r.head r.tail n)) [
    | inl e ↦ absurd (some_alloc (rw (e, alloc)))
    | inr planned ↦ Planned-into r n v h planned
  ],
  λ le e. let (p, planned) = Planned-back r n v le in ground arith,
)

-- To skip to the end of the buffer brings the head to its start.
wrap_round : (size head : ℕ) → 0 < size → (head + (size - head % size)) % size ≡ 0
wrap_round size head pos =
    ap (λ k. k % size) {x = head + (size - head % size)} {y = size * (head / size + 1)}
      (omega (arith, mod-lt head {m = size} pos, div-add-mod head size))
    ∙ mul-mod_right size (head / size + 1)

-- A plan of at most `size` bytes, for a size below `2 ^ 62`, made on a head below `2 ^ 63` and a tail
-- that is not behind it: the bytes lie in the buffer, end at the new head modulo the size, and leave at
-- most `size` bytes between the counters.
pub plan_fits :
    (size head tail n : ℕ) (p : Plan)
    → 0 < size
    → size < 2 ^ 62
    → head < 2 ^ 63
    → tail ≤ head
    → n ≤ size
    → plan size head tail n ≡ some p
    → (p.begin + n ≤ size)
      × (n ≤ p.total)
      × (p.total ≤ 2 * size)
      × (head + p.total ≤ tail + size)
      × ((head + p.total - n) % size ≡ p.begin)
unfolding plan
plan_fits size head tail n p pos small far le fit e = elim (Bool-cases (wraps size head n)) [
  | inl wrap ↦ ground (
    arith,
    mod-lt head {m = size} pos,
    wrap_round size head pos,
    ap (λ k. k % size) {x = head + (n + (size - head % size)) - n} {y = head + (size - head % size)}
        (omega (arith, mod-lt head {m = size} pos)),
  )
  | inr stay ↦ ground (
    arith,
    mod-lt head {m = size} pos,
    ap (λ k. k % size) {x = head + n - n} {y = head} (omega arith),
  )
]

-- Nothing guards `actualHead + size` against wrapping: a request for `2 ^ 64 - head % size` bytes,
-- which is more than any ring of less than `2 ^ 63` bytes has, is granted when the bytes in use end at or
-- before the last wrap of the head, and moves the head back.
pub alloc_overflows :
    (r : Ring)
    → IsSound r
    → 0 < r.head % r.size
    → r.tail + r.head % r.size ≤ r.head
    → alloc r (2 ^ 64 - r.head % r.size)
      ≡ some (
        record { begin = r.head % r.size; cleanup = r.head - r.head % r.size },
        record r { head = r.head - r.head % r.size },
      )
unfolding alloc plan create_token
alloc_overflows r v some_head old = ground (arith, mod-lt r.head {m = r.size} v.nonempty)
