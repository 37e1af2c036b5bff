-- ===== src/Pool.antt =====
-- cth/incl/cth/data/pool.hpp: the class template `pool`. An object of the deque has a stable address,
-- which is its index here; the head of the list `inactive` is the back of the vector `_inactive`.
pub mod Valid
pub mod Lending
pub mod Timers
mod Tests
use cth.Base.{
  ℕ, zero, suc, ◌+◌, Bool, true, false, not, Option, none, some, List, [], ◌∷◌, ◌++◌, Result, ok,
  critical, diverged, ◌>>=◌, ◌>>◌, check, ltb, ◌==◌, ◌||◌, if◌then◌else◌, length, get_or, set,
}

-- `std::ranges::contains`
abbrev pub contains : List ℕ → ℕ → Bool
contains [] x = false
contains (y ∷ ys) x = (y == x) || contains ys x

-- The indices `i`, ..., `i + n - 1`, pushed in that order.
abbrev pub push_range : ℕ → ℕ → List ℕ → List ℕ
push_range i zero xs = xs
push_range i (suc n) xs = push_range (suc i) n (i ∷ xs)

abbrev pub is_empty : List ℕ → Bool
is_empty [] = true
is_empty (x ∷ xs) = false

-- `_manipulator` is `reset`, a function on the object if the type has one (`HAS_RESET`).
pub record Pool {ℓ} (T : Type ℓ) : Type ℓ where
  pub reset : Option (T → T)
  pub inactive : List ℕ
  pub storage : List T

module _ {ℓ} {T : Type ℓ} where
  pub init : Option (T → T) → Pool T
  init m = record { reset = m; inactive = []; storage = [] }

  abbrev pub capacity : Pool T → ℕ
  capacity p = length p.storage

  abbrev pub remaining : Pool T → ℕ
  remaining p = length p.inactive

  abbrev pub exhausted : Pool T → Bool
  exhausted p = is_empty p.inactive

  unfoldable pub emplace : Pool T → T → Pool T
  emplace p t = record p { storage = p.storage ++ t ∷ []; inactive = length p.storage ∷ p.inactive }

  unfoldable pub append_range : Pool T → List T → Pool T
  append_range p ts = record p {
    storage = p.storage ++ ts;
    inactive = push_range (length p.storage) (length ts) p.inactive;
  }

  -- `acquire()` on the vector `_inactive`.
  abbrev pub take_back : Pool T → List ℕ → Result (ℕ × Pool T)
  take_back p [] = critical
  take_back p (i ∷ rest) = ok (i, record p { inactive = rest })

  unfoldable pub acquire : Pool T → Result (ℕ × Pool T)
  acquire p = take_back p p.inactive

  -- `_manipulator.reset(_storage[i])`, if there is one.
  abbrev pub reset_at : Option (T → T) → List T → ℕ → List T
  reset_at none ts i = ts
  reset_at (some f) [] i = []
  reset_at (some f) (t ∷ ts) zero = f t ∷ ts
  reset_at (some f) (t ∷ ts) (suc i) = t ∷ reset_at (some f) ts i

  unfoldable pub release : Pool T → ℕ → Result (Pool T)
  release p i = do
    check (contains p.inactive i)
    check (not (ltb i (length p.storage)))
    ok (record p { storage = reset_at p.reset p.storage i; inactive = i ∷ p.inactive })

  -- `resetActive()`, from index `i` on.
  abbrev pub reset_active : Option (T → T) → List ℕ → ℕ → List T → List T
  reset_active none inactive i ts = ts
  reset_active (some f) inactive i [] = []
  reset_active (some f) inactive i (t ∷ ts) =
      (if contains inactive i then t else f t) ∷ reset_active (some f) inactive (suc i) ts

  unfoldable pub clear : Pool T → Pool T
  clear p = record p {
    storage = reset_active p.reset p.inactive 0 p.storage;
    inactive = push_range 0 (length p.storage) [];
  }
