-- ===== src/RingAlloc/Threads/Invariant.antt =====
-- What every reachable state of threads on one ring_alloc satisfies
-- (cth/incl/cth/data/ringalloc.hpp).
use cth.Base.{
  ℕ, ◌+◌, ◌-◌, ◌*◌, ◌%◌, ◌^◌, ◌≤◌, ◌<◌, ◌≡◌, refl, sym, subst, ◌⊎◌, inl, inr, some, List, [], ◌∷◌,
  arith, ℕ_discrete, if_pos, if_neg,
}
use cth.RingAlloc.{Plan, plan}
use cth.RingAlloc.MaxAlloc.{plan_fits}
use cth.RingAlloc.Threads.Defs.{
  Pc, idle, looping, committing, freeing, Grant, System, update, move, commit, IsToken, Step,
  call_alloc, no_space, has_space, win, lose, call_free, release, retry, done, Reach, start, later,
}

-- The bytes of a grant lie in the buffer and end, modulo the size, where its counters end.
abbrev pub Fits : ℕ → Grant → Type 0
Fits size g =
    (g.lo + g.count ≤ g.hi) × (g.begin + g.count ≤ size) × ((g.hi - g.count) % size ≡ g.begin)

-- The grants, newest first, follow one another without a gap up to the head.
abbrev pub Chain : ℕ → List Grant → ℕ → Type 0
Chain size [] h = h ≡ 0
Chain size (g ∷ gs) h = (g.hi ≡ h) × Fits size g × Chain size gs g.lo

abbrev pub PcOk : ℕ → System → Pc → Type 0
PcOk size s idle = Unit
PcOk size s (looping n head) = n ≤ size
PcOk size s (committing n head p) =
    (n ≤ size) × (t : ℕ) × (t ≤ s.tail) × (plan size head t n ≡ some p)
PcOk size s (freeing pos tail) = IsToken s.grants pos

pub record Inv (size : ℕ) (s : System) : Type 0 where
  pub head : s.head ≡ s.issued
  pub order : s.tail ≤ s.head
  pub within : s.head ≤ s.tail + size
  pub chain : Chain size s.grants s.head
  pub boundary : (s.tail ≡ 0) ⊎ IsToken s.grants s.tail
  pub pcs : (i : ℕ) → PcOk size s (s.pcs i)

pub IsToken-le :
    (size : ℕ) (gs : List Grant) (h pos : ℕ) → Chain size gs h → IsToken gs pos → pos ≤ h
IsToken-le size [] h pos c t = absurd t
IsToken-le size (g ∷ gs) h pos c (inl e) = omega arith
IsToken-le size (g ∷ gs) h pos c (inr t) = omega (arith, IsToken-le size gs g.lo pos c.2 t, c.1.0)

update_all :
    (P : Pc → Type 0) (f : ℕ → Pc) (i : ℕ) (a : Pc)
    → P a
    → ((j : ℕ) → P (f j))
    → (j : ℕ) → P (update f i a j)
update_all P f i a new old j = elim (ℕ_discrete i j) [
  | yes e ↦ rw (if_pos (ℕ_discrete i j) e) new
  | no ne ↦ rw (if_neg (ℕ_discrete i j) ne) (old j)
]

-- A thread's facts survive a growing tail and new grants.
PcOk-mono :
    (size : ℕ) (s t : System) (p : Pc)
    → s.tail ≤ t.tail
    → ((pos : ℕ) → IsToken s.grants pos → IsToken t.grants pos)
    → PcOk size s p
    → PcOk size t p
PcOk-mono size s t idle le more ok = tt
PcOk-mono size s t (looping n head) le more ok = ok
PcOk-mono size s t (committing n head p) le more (fit, tail, old, e) = (fit, tail, omega arith, e)
PcOk-mono size s t (freeing pos tail) le more ok = more pos ok

module _ {size : ℕ} {s : System} (inv : Inv size s) (i : ℕ) where
  move-Inv : (p : Pc) → PcOk size s p → Inv size (move s i p)
  move-Inv p ok = record {
    head = inv.head;
    order = inv.order;
    within = inv.within;
    chain = inv.chain;
    boundary = inv.boundary;
    pcs =
        update_all (PcOk size (move s i p)) s.pcs i p
          (PcOk-mono size s (move s i p) p (omega arith) (λ _ t. t) ok)
          (λ j. PcOk-mono size s (move s i p) (s.pcs j) (omega arith) (λ _ t. t) (inv.pcs j));
  }

  -- A commit on the current head extends the chain.
  commit-Inv :
      (n : ℕ) (p : Plan)
      → 0 < size
      → size < 2 ^ 62
      → s.issued + p.total < 2 ^ 63
      → PcOk size s (committing n s.head p)
      → Inv size (commit s i n p)
  commit-Inv n p pos small far (fit, tail, old, e) = record {
    head = omega (arith, inv.head);
    order = omega (arith, inv.head, inv.order);
    within = omega (arith, inv.head, facts);
    chain = (refl, (omega (arith, inv.head, facts), facts.0, rw exact (facts.4)), inv.chain);
    boundary = bound inv.boundary;
    pcs =
        update_all (PcOk size (commit s i n p)) s.pcs i idle tt (λ j.
          PcOk-mono size s (commit s i n p) (s.pcs j) (omega arith) (λ _ t. inr t) (inv.pcs j));
  }
    where
      facts :
          (p.begin + n ≤ size)
          × (n ≤ p.total)
          × (p.total ≤ 2 * size)
          × (s.head + p.total ≤ tail + size)
          × ((s.head + p.total - n) % size ≡ p.begin)
      facts =
          plan_fits size s.head tail n p pos small (omega (arith, inv.head))
            (omega (arith, inv.order)) fit e

      exact : (s.head + p.total) % 2 ^ 64 ≡ s.head + p.total
      exact = omega (arith, inv.head)

      bound :
          (s.tail ≡ 0) ⊎ IsToken s.grants s.tail
          → (s.tail ≡ 0) ⊎ IsToken (commit s i n p).grants s.tail
      bound (inl z) = inl z
      bound (inr t) = inr (inr t)

  release-Inv :
      (pos : ℕ)
      → s.tail < pos
      → IsToken s.grants pos
      → Inv size (record s { tail = pos; pcs = update s.pcs i idle })
  release-Inv pos lt token = record {
    head = inv.head;
    order = IsToken-le size s.grants s.head pos inv.chain token;
    within = omega (arith, inv.within);
    chain = inv.chain;
    boundary = inr token;
    pcs =
        update_all (PcOk size (record s { tail = pos; pcs = update s.pcs i idle })) s.pcs i idle tt
          (λ j.
            PcOk-mono size s (record s { tail = pos; pcs = update s.pcs i idle }) (s.pcs j)
              (omega arith) (λ _ t. t) (inv.pcs j));
  }

-- No step takes back bytes that were issued.
Step-issued :
    {size : ℕ} {s : System} {i : ℕ} {p : Pc} {t : System} → Step size s i p t → s.issued ≤ t.issued
Step-issued (win h) = omega arith
Step-issued (call_alloc n head h) = omega arith
Step-issued (no_space tail h e) = omega arith
Step-issued (has_space tail p h e) = omega arith
Step-issued (lose head') = omega arith
Step-issued (call_free pos tail token h) = omega arith
Step-issued (release h e) = omega arith
Step-issued (retry tail' h h') = omega arith
Step-issued (done h) = omega arith

-- A step of thread `i`, whose place is `p`, keeps the invariant while fewer than `2 ^ 63` bytes in all
-- have been issued.
Step-Inv :
    {size : ℕ} {s : System} {i : ℕ} {p : Pc} {t : System}
    → 0 < size
    → size < 2 ^ 62
    → Step size s i p t
    → PcOk size s p
    → t.issued < 2 ^ 63
    → Inv size s
    → Inv size t
Step-Inv {i = i} pos small (call_alloc n head h) ok far inv = move-Inv inv i (looping n head) h
Step-Inv {i = i} pos small (no_space tail h e) ok far inv = move-Inv inv i idle tt
Step-Inv {i = i} pos small (has_space {n} {head} tail p h e) ok far inv =
    move-Inv inv i (committing n head p) (ok, tail, h, e)
Step-Inv {size = size} {s = s} {i = i} pos small (win {n} {head} {p} h) ok far inv =
    commit-Inv inv i n p pos small far (subst (λ k. PcOk size s (committing n k p)) (sym h) ok)
Step-Inv {i = i} pos small (lose {n} head') ok far inv = move-Inv inv i (looping n head') (ok.0)
Step-Inv {i = i} pos small (call_free pos' tail token h) ok far inv =
    move-Inv inv i (freeing pos' tail) token
Step-Inv {i = i} pos small (release {pos = pos'} h e) ok far inv =
    release-Inv inv i pos' (omega arith) ok
Step-Inv {i = i} pos small (retry {pos = pos'} tail' h h') ok far inv =
    move-Inv inv i (freeing pos' tail') ok
Step-Inv {i = i} pos small (done h) ok far inv = move-Inv inv i idle tt

-- Every state that threads reach from a new ring of fewer than `2 ^ 62` bytes satisfies the invariant,
-- as long as fewer than `2 ^ 63` bytes in all have been issued.
pub Reach-Inv :
    {size : ℕ} {s : System}
    → 0 < size
    → size < 2 ^ 62
    → Reach size s
    → s.issued < 2 ^ 63
    → Inv size s
Reach-Inv pos small start far = record {
  head = refl;
  order = omega arith;
  within = omega arith;
  chain = refl;
  boundary = inl refl;
  pcs = λ _. tt;
}
Reach-Inv pos small (later i r st) far =
    let inv = Reach-Inv pos small r (omega (arith, Step-issued st)) in
    Step-Inv pos small st (inv.pcs i) far inv
