-- ===== src/Pool/Tests.antt =====
-- Small runs of the pool, and its theorems applied to them.
use cth.Base.{ℕ, zero, suc, true, ◌≡◌, refl, some, List, [], ◌∷◌, false, ok, arith}
use cth.Pool.{Pool, contains, acquire, release, reset_at, emplace}
use cth.Pool.Valid.{IsValid}
use cth.Pool.Lending.{
  Call, emplaces, acquires, releases, IsLent, Acquires, acquire-Acquires, run, step, run-StaysLent,
  acquire-release,
}
use cth.Pool.Timers
use cth.Pool.Timers.{Action, sets, completes, Waits, IsKept, NoneFails, run-IsKept}

-- Three objects, of which object 2 is lent.
abbrev objects : Pool ℕ
objects = record { reset = some (λ _. 0); inactive = 1 ∷ 0 ∷ []; storage = 5 ∷ 6 ∷ 7 ∷ [] }

objects-IsValid : IsValid objects
objects-IsValid = (omega arith, refl, (omega arith, refl, tt))

acquired_one : acquire objects ≡ ok (1, record objects { inactive = 0 ∷ [] })
unfolding acquire
acquired_one = refl

acquire-Acquires_example :
    (i : ℕ) × (q : Pool ℕ) × (acquire objects ≡ ok (i, q)) × Acquires objects i q
acquire-Acquires_example = acquire-Acquires objects objects-IsValid refl

acquire-release_example :
    (i : ℕ) × (q : Pool ℕ) × (acquire objects ≡ ok (i, q))
    × (release q i ≡ ok (record objects { storage = reset_at objects.reset objects.storage i }))
acquire-release_example = acquire-release objects objects-IsValid refl

abbrev calls : List (Call ℕ)
calls = acquires ∷ releases 1 ∷ emplaces 8 ∷ acquires ∷ []

abbrev served : Pool ℕ
served = record { reset = some (λ _. 0); inactive = 1 ∷ 0 ∷ []; storage = 5 ∷ 0 ∷ 7 ∷ 8 ∷ [] }

calls-run : run objects calls ≡ ok (1 ∷ 3 ∷ [], served)
unfolding run step acquire release emplace
calls-run = refl

run-StaysLent_example : IsValid served × IsLent served 2 × (contains (1 ∷ 3 ∷ []) 2 ≡ false)
run-StaysLent_example =
    run-StaysLent objects served 2 calls (1 ∷ 3 ∷ []) objects-IsValid (omega arith, refl)
      (tt, ((λ e. omega arith), (tt, (tt, tt)))) calls-run

abbrev waits : Waits ℕ
waits = record { pool = objects; waiting = 2 ∷ []; lost = [] }

waits-IsKept : IsKept waits
waits-IsKept zero = refl
waits-IsKept (suc zero) = refl
waits-IsKept (suc (suc zero)) = refl
waits-IsKept (suc (suc (suc j))) = ground arith

-- Four timers are taken, for the last of which the pool grows; one handler gives its timer back, another
-- throws.
abbrev actions : List Action
actions = sets ∷ completes 2 false ∷ sets ∷ sets ∷ sets ∷ completes 1 true ∷ []

run-IsKept_example :
    (t : Waits ℕ) × (Timers.run 9 waits actions ≡ ok t)
    × IsKept t
    × (NoneFails actions → t.lost ≡ [])
run-IsKept_example = run-IsKept 9 waits actions waits-IsKept
