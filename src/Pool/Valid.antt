-- ===== src/Pool/Valid.antt =====
-- The invariant of a pool, and that every operation keeps it (cth/incl/cth/data/pool.hpp).
use cth.Base.{
  ℕ, zero, suc, ◌+◌, ◌≤◌, ◌<◌, ◌≡◌, refl, sym, ap, subst, true, false, Option, none, some, List, [],
  ◌∷◌, ok, arith, ltb, length, length-append,
}
use cth.Pool.{
  contains, push_range, Pool, emplace, append_range, reset_at, release, reset_active, clear,
}

-- Indices below `n`, each once.
abbrev pub Distinct : ℕ → List ℕ → Type 0
Distinct n [] = Unit
Distinct n (i ∷ is) = (i < n) × (contains is i ≡ false) × Distinct n is

-- The inactive objects are in the storage, and none is listed twice.
abbrev pub IsValid {ℓ} : {T : Type ℓ} → Pool T → Type 0
IsValid p = Distinct (length p.storage) p.inactive

Distinct-mono : (m n : ℕ) (is : List ℕ) → m ≤ n → Distinct m is → Distinct n is
Distinct-mono m n [] h d = tt
Distinct-mono m n (i ∷ is) h d = (omega arith, d.1, Distinct-mono m n is h d.2)

-- An index that is out of bounds is not listed.
pub contains-above : (n i : ℕ) (is : List ℕ) → Distinct n is → n ≤ i → contains is i ≡ false
contains-above n i [] d h = refl
contains-above n i (j ∷ is) d h = ground (arith, contains-above n i is d.2)

push_range-Distinct : (i k : ℕ) (is : List ℕ) → Distinct i is → Distinct (i + k) (push_range i k is)
push_range-Distinct i zero is d = Distinct-mono i (i + zero) is (omega arith) d
push_range-Distinct i (suc k) is d =
    subst (λ n. Distinct n (push_range (suc i) k (i ∷ is))) (omega arith)
      (push_range-Distinct (suc i) k (i ∷ is) (
        omega arith,
        contains-above i i is d (omega arith),
        Distinct-mono i (suc i) is (omega arith) d,
      ))

module _ {ℓ} {T : Type ℓ} where
  pub length-reset_at :
      (m : Option (T → T)) (ts : List T) (i : ℕ) → length (reset_at m ts i) ≡ length ts
  length-reset_at none ts i = refl
  length-reset_at (some f) [] i = refl
  length-reset_at (some f) (t ∷ ts) zero = refl
  length-reset_at (some f) (t ∷ ts) (suc i) = ap suc (length-reset_at (some f) ts i)

  length-reset_active :
      (m : Option (T → T)) (is : List ℕ) (i : ℕ) (ts : List T)
      → length (reset_active m is i ts) ≡ length ts
  length-reset_active none is i ts = refl
  length-reset_active (some f) is i [] = refl
  length-reset_active (some f) is i (t ∷ ts) = ap suc (length-reset_active (some f) is (suc i) ts)

  pub emplace-IsValid : (p : Pool T) (t : T) → IsValid p → IsValid (emplace p t)
  unfolding emplace
  emplace-IsValid p t v = (
    omega (arith, length-append p.storage (t ∷ [])),
    contains-above (length p.storage) (length p.storage) p.inactive v (omega arith),
    Distinct-mono (length p.storage) _ p.inactive (omega (arith, length-append p.storage (t ∷ [])))
        v,
  )

  pub append_range-IsValid : (p : Pool T) (ts : List T) → IsValid p → IsValid (append_range p ts)
  unfolding append_range
  append_range-IsValid p ts v =
      subst (λ n. Distinct n (push_range (length p.storage) (length ts) p.inactive))
        (sym (length-append p.storage ts))
        (push_range-Distinct (length p.storage) (length ts) p.inactive v)

  pub clear-IsValid : (p : Pool T) → IsValid (clear p)
  unfolding clear
  clear-IsValid p =
      subst (λ n. Distinct n (push_range 0 (length p.storage) []))
        (omega (arith, length-reset_active p.reset p.inactive 0 p.storage))
        (push_range-Distinct 0 (length p.storage) [] tt)

  -- `release(i)` of an active object of the pool succeeds and keeps the pool valid.
  pub release-IsValid :
      (p : Pool T) (i : ℕ)
      → IsValid p
      → i < length p.storage
      → contains p.inactive i ≡ false
      → (q : Pool T) × (release p i ≡ ok q)
        × IsValid q
        × (q.inactive ≡ i ∷ p.inactive)
        × (length q.storage ≡ length p.storage)
  unfolding release
  release-IsValid p i v h active =
      let same = length-reset_at p.reset p.storage i in
      let inside : ltb i (length p.storage) ≡ true = ground arith in
      (
        record p { storage = reset_at p.reset p.storage i; inactive = i ∷ p.inactive },
        rw (active, inside),
        (omega arith, active, Distinct-mono (length p.storage) _ p.inactive (omega arith) v),
        refl,
        same,
      )
