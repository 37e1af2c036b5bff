-- ===== src/RingAlloc/Threads/Defs.antt =====
-- The states and steps of threads on one ring_alloc (cth/incl/cth/data/ringalloc.hpp).
use cth.Base.{ℕ, ◌+◌, ◌≤◌, ◌<◌, ◌≡◌, ◌⊎◌, ite, ℕ_discrete, none, some, List, [], ◌∷◌}
use cth.Base.Words.{add64}
use cth.RingAlloc.{Plan, plan}

-- Where a thread stands, with its local variables.
pub data Pc : Type 0 where
  idle : Pc
  -- at the top of the loop of `alloc(n)`, `head` loaded
  looping : (n head : ℕ) → Pc
  -- before the compare-exchange of `alloc(n)`
  committing : (n head : ℕ) → Plan → Pc
  -- at the loop of `free`, `pos` taken from the token and `tail` loaded
  freeing : (pos tail : ℕ) → Pc

-- A successful allocation: `count` bytes from `begin`; the counter went from `lo` to `hi`, its token.
pub record Grant : Type 0 where
  pub lo : ℕ
  pub hi : ℕ
  pub begin : ℕ
  pub count : ℕ

-- `issued` is the sum of all that was added to `_head`, unbounded.
pub record System : Type 0 where
  pub head : ℕ
  pub tail : ℕ
  pub issued : ℕ
  pub grants : List Grant
  pub pcs : ℕ → Pc

abbrev pub update : (ℕ → Pc) → ℕ → Pc → ℕ → Pc
update f i a j = ite (ℕ_discrete i j) a (f j)

abbrev pub move : System → ℕ → Pc → System
move s i p = record s { pcs = update s.pcs i p }

-- The state after thread `i` has added `p.total` to the head.
abbrev pub commit : System → ℕ → ℕ → Plan → System
commit s i n p = record s {
  head = add64 s.head p.total;
  issued = s.issued + p.total;
  grants = record { lo = s.head; hi = add64 s.head p.total; begin = p.begin; count = n } ∷ s.grants;
  pcs = update s.pcs i idle;
}

-- `pos` is the token of a successful allocation.
abbrev pub IsToken : List Grant → ℕ → Type 0
IsToken [] pos = ⊥
IsToken (g ∷ gs) pos = (g.hi ≡ pos) ⊎ IsToken gs pos

-- A step of thread `i` on a ring of `size` bytes. Requests are at most the size.
pub data Step (size : ℕ) (s : System) (i : ℕ) : Pc → System → Type 0 where
  call_alloc : (n head : ℕ) → n ≤ size → Step size s i idle (move s i (looping n head))
  no_space :
      {n head : ℕ} (tail : ℕ)
      → tail ≤ s.tail
      → plan size head tail n ≡ none
      → Step size s i (looping n head) (move s i idle)
  has_space :
      {n head : ℕ} (tail : ℕ) (p : Plan)
      → tail ≤ s.tail
      → plan size head tail n ≡ some p
      → Step size s i (looping n head) (move s i (committing n head p))
  win :
      {n head : ℕ} {p : Plan} → s.head ≡ head → Step size s i (committing n head p) (commit s i n p)
  lose :
      {n head : ℕ} {p : Plan} (head' : ℕ)
      → Step size s i (committing n head p) (move s i (looping n head'))
  call_free :
      (pos tail : ℕ)
      → IsToken s.grants pos
      → tail ≤ s.tail
      → Step size s i idle (move s i (freeing pos tail))
  release :
      {pos tail : ℕ}
      → tail < pos
      → s.tail ≡ tail
      → Step size s i (freeing pos tail) (record s { tail = pos; pcs = update s.pcs i idle })
  retry :
      {pos tail : ℕ} (tail' : ℕ)
      → tail < pos
      → tail' ≤ s.tail
      → Step size s i (freeing pos tail) (move s i (freeing pos tail'))
  done : {pos tail : ℕ} → pos ≤ tail → Step size s i (freeing pos tail) (move s i idle)

abbrev pub init : System
init = record { head = 0; tail = 0; issued = 0; grants = []; pcs = λ _. idle }

-- The states that threads reach from a new ring.
pub data Reach (size : ℕ) : System → Type 0 where
  start : Reach size init
  later : {s t : System} (i : ℕ) → Reach size s → Step size s i (s.pcs i) t → Reach size t
