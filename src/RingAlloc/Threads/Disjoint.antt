-- ===== src/RingAlloc/Threads/Disjoint.antt =====
-- No byte is in two allocations of a ring_alloc at once (cth/incl/cth/data/ringalloc.hpp).
use cth.Base.{
  ℕ, ◌+◌, ◌-◌, ◌%◌, ◌^◌, ◌≤◌, ◌<◌, ◌≡◌, sym, ◌∙◌, ◌⊎◌, inl, inr, List, [], ◌∷◌, arith, ap,
}
use native.Mathlib.Nat.{div-add-mod, mod-eq_of_lt, mod-add-mod}
use cth.RingAlloc.Threads.Defs.{Grant, System, IsToken, Reach}
use cth.RingAlloc.Threads.Invariant.{Fits, Chain, Reach-Inv, IsToken-le}

-- Two numbers less than `size` apart with one remainder are one.
mod-window : (size a b : ℕ) → a < b → b < a + size → a % size ≡ b % size → ⊥
mod-window size a b lt near e = grind (arith, div-add-mod a size, div-add-mod b size)

-- The counter value of the byte `x` of a grant.
address :
    (size : ℕ) (g : Grant) (x : ℕ)
    → Fits size g
    → g.begin ≤ x
    → x < g.begin + g.count
    → (g.hi - g.count + (x - g.begin)) % size ≡ x
address size g x fits lo hi =
    sym (mod-add-mod (g.hi - g.count) size (x - g.begin))
    ∙ ap (λ k. k % size) {x = (g.hi - g.count) % size + (x - g.begin)} {y = x} (omega arith)
    ∙ mod-eq_of_lt {n = x} {m = size} (omega arith)

-- The byte `x` of the buffer belongs to the grant.
abbrev pub Holds : Grant → ℕ → Type 0
Holds g x = (g.begin ≤ x) × (x < g.begin + g.count)

-- No byte of `g` belongs to a grant of the list that is not freed.
abbrev pub Apart : ℕ → Grant → List Grant → Type 0
Apart tail g [] = Unit
Apart tail g (o ∷ gs) = (tail < o.hi → (x : ℕ) → Holds g x → Holds o x → ⊥) × Apart tail g gs

-- No two grants of the list share a byte, unless the older one is freed: its token is at or below
-- the tail.
abbrev pub NoOverlap : ℕ → List Grant → Type 0
NoOverlap tail [] = Unit
NoOverlap tail (g ∷ gs) = Apart tail g gs × NoOverlap tail gs

-- The tail stands at the start, at the end of a grant of the list, or at or above them all.
abbrev Edge : List Grant → ℕ → ℕ → Type 0
Edge gs h tail = (tail ≡ 0) ⊎ IsToken gs tail ⊎ (h ≤ tail)

Edge-older :
    (size : ℕ) (g : Grant) (gs : List Grant) (h tail : ℕ)
    → Chain size (g ∷ gs) h
    → Edge (g ∷ gs) h tail
    → Edge gs g.lo tail
Edge-older size g gs h tail c (inl z) = inl z
Edge-older size g gs h tail c (inr (inl (inl e))) = inr (inr (omega arith))
Edge-older size g gs h tail c (inr (inl (inr t))) = inr (inl t)
Edge-older size g gs h tail c (inr (inr le)) = inr (inr (omega arith))

-- A grant that is not freed lies wholly above the tail.
tail-le-lo :
    (size : ℕ) (g : Grant) (gs : List Grant) (h tail : ℕ)
    → Chain size (g ∷ gs) h
    → Edge (g ∷ gs) h tail
    → tail < g.hi
    → tail ≤ g.lo
tail-le-lo size g gs h tail c (inl z) live = omega arith
tail-le-lo size g gs h tail c (inr (inl (inl e))) live = absurd (omega arith)
tail-le-lo size g gs h tail c (inr (inl (inr t))) live = IsToken-le size gs g.lo tail c.2 t
tail-le-lo size g gs h tail c (inr (inr le)) live = absurd (omega arith)

Apart-older :
    (size tail : ℕ) (g : Grant) (gs : List Grant) (h : ℕ)
    → Fits size g
    → g.hi ≤ tail + size
    → Chain size gs h
    → h ≤ g.lo
    → Edge gs h tail
    → Apart tail g gs
Apart-older size tail g [] h fits near c le edge = tt
Apart-older size tail g (o ∷ gs) h fits near c le edge = (
  λ live x mine other.
      let lo = tail-le-lo size o gs h tail c edge live in
      mod-window size (o.hi - o.count + (x - o.begin)) (g.hi - g.count + (x - g.begin))
        (omega arith) (omega arith)
        (address size o x c.1 other.0 other.1 ∙ sym (address size g x fits mine.0 mine.1)),
  Apart-older size tail g gs o.lo fits near c.2 (omega arith) (Edge-older size o gs h tail c edge),
)

no_overlap :
    (size tail : ℕ) (gs : List Grant) (h : ℕ)
    → h ≤ tail + size
    → Chain size gs h
    → Edge gs h tail
    → NoOverlap tail gs
no_overlap size tail [] h near c edge = tt
no_overlap size tail (g ∷ gs) h near c edge = (
  Apart-older size tail g gs g.lo c.1 (omega arith) c.2 (omega arith)
      (Edge-older size g gs h tail c edge),
  no_overlap size tail gs g.lo (omega arith) c.2 (Edge-older size g gs h tail c edge),
)

-- Whatever threads call `alloc` (of at most the size) and `free` (with tokens that `alloc` returned) on
-- a ring of fewer than `2 ^ 62` bytes, and in whatever order their loads and exchanges happen, no two
-- allocations share a byte of the buffer unless the older one is freed, by its token or by a later
-- one, as long as fewer than `2 ^ 63` bytes in all have been issued.
pub Reach-NoOverlap :
    {size : ℕ} {s : System}
    → 0 < size
    → size < 2 ^ 62
    → Reach size s
    → s.issued < 2 ^ 63
    → NoOverlap s.tail s.grants
Reach-NoOverlap {size} {s} pos small r far =
    let inv = Reach-Inv pos small r far in
    no_overlap size s.tail s.grants s.head inv.within inv.chain (edge inv.boundary)
  where
    edge : (s.tail ≡ 0) ⊎ IsToken s.grants s.tail → Edge s.grants s.head s.tail
    edge (inl z) = inl z
    edge (inr t) = inr (inl t)
