-- ===== src/Pool/Timers.antt =====
-- The client of the pool in cth_coro/src/coro/utility/timer_pool.hpp (Windows): a timer is taken from
-- the pool, which grows when it is exhausted, and the handler of its wait gives it back before it
-- runs the callback, or throws if the wait failed.
use cth.Base.{
  ℕ, ◌+◌, ◌<◌, ◌≡◌, refl, sym, ap, subst, ◌∙◌, Bool, true, false, ◌==◌, ltb, Option, none, some,
  List, [], ◌∷◌, Result, ok, ◌>>=◌, arith, Bool-cases, inl, inr, if◌then◌else◌, if-true, if-false,
  length, length-append,
}
use cth.Pool.{Pool, contains, emplace, acquire, release, exhausted, reset_at, take_back, is_empty}
use cth.Pool.Valid.{length-reset_at}

-- How often a timer is in a list.
abbrev pub count : List ℕ → ℕ → ℕ
count [] j = 0
count (i ∷ is) j = (if i == j then 1 else 0) + count is j

count-contains : (is : List ℕ) (j : ℕ) → count is j ≡ 0 → contains is j ≡ false
count-contains [] j e = refl
count-contains (i ∷ is) j e = ground (arith, count-contains is j)

count_present : (is : List ℕ) (j : ℕ) → contains is j ≡ true → 0 < count is j
count_present [] j e = cc
count_present (i ∷ is) j e = ground (arith, count_present is j)

-- Without one wait for a timer.
abbrev pub without : List ℕ → ℕ → List ℕ
without [] i = []
without (k ∷ is) i = if k == i then is else k ∷ without is i

count-without :
    (is : List ℕ) (i j : ℕ)
    → contains is i ≡ true
    → count is j ≡ (if i == j then 1 else 0) + count (without is i) j
count-without [] i j e = cc
count-without (k ∷ is) i j e = ground (arith, count-without is i j)

-- A call of `set`, or the end of the wait for a timer, which may have failed.
pub data Action : Type 0 where
  sets : Action
  completes : ℕ → Bool → Action

-- The pool with the timers whose handlers were not called yet, and those whose handlers threw.
pub record Waits {ℓ} (T : Type ℓ) : Type ℓ where
  pub pool : Pool T
  pub waiting : List ℕ
  pub lost : List ℕ

-- No wait fails.
abbrev pub NoneFails : List Action → Type 0
NoneFails [] = Unit
NoneFails (sets ∷ actions) = NoneFails actions
NoneFails (completes timer failed ∷ actions) = (failed ≡ false) × NoneFails actions

-- Each timer of the pool is inactive, or waited for once, or lost, and nothing else is.
abbrev pub IsKept {ℓ} : {T : Type ℓ} → Waits T → Type 0
IsKept s =
    (j : ℕ)
    → count s.pool.inactive j + count s.waiting j + count s.lost j
      ≡ (if ltb j (length s.pool.storage) then 1 else 0)

module _ {ℓ} {T : Type ℓ} (fresh : T) where
  -- `new_timer()`; `fresh` is the timer that `emplace(_ctx)` builds.
  pub new_timer : Pool T → Result (ℕ × Pool T)
  new_timer p = if exhausted p then acquire (emplace p fresh) else acquire p

  -- `set(time_point, callback)` up to the wait; the timer's own state is the waiting library's.
  pub set : Pool T → Result (ℕ × Pool T)
  unfolding new_timer
  set p = new_timer p

  -- The completion handler: it throws if the wait failed, which is `none`; otherwise `release(timer)`,
  -- and then the callback.
  pub fire : Bool → Pool T → ℕ → Result (Option (Pool T))
  fire failed p timer = if failed then ok none else release p timer >>= λ q. ok (some q)

  -- A timer whose wait ended.
  abbrev pub settle : Waits T → ℕ → Option (Pool T) → Waits T
  settle s timer none = record s { waiting = without s.waiting timer; lost = timer ∷ s.lost }
  settle s timer (some q) = record s { pool = q; waiting = without s.waiting timer }

  -- Only a timer that is waited for completes.
  unfoldable pub step : Waits T → Action → Result (Waits T)
  step s sets =
      set s.pool >>= λ taken. ok (record s { pool = taken.1; waiting = taken.0 ∷ s.waiting })
  step s (completes timer failed) =
      if contains s.waiting timer
      then (fire failed s.pool timer >>= λ fired. ok (settle s timer fired))
      else ok s

  unfoldable pub run : Waits T → List Action → Result (Waits T)
  run s [] = ok s
  run s (a ∷ actions) = step s a >>= λ next. run next actions

  -- The pool with one more inactive timer.
  grown-IsKept : (s : Waits T) → IsKept s → IsKept (record s { pool = emplace s.pool fresh })
  unfolding emplace
  grown-IsKept s kept j = ground (arith, kept j, length-append s.pool.storage (fresh ∷ []))

  take_back-IsKept :
      (s : Waits T) (is : List ℕ)
      → s.pool.inactive ≡ is
      → IsKept s
      → is_empty is ≡ false
      → (taken : ℕ × Pool T) × (take_back s.pool is ≡ ok taken)
        × IsKept (record s { pool = taken.1; waiting = taken.0 ∷ s.waiting })
  take_back-IsKept s [] e kept some_left = cc
  take_back-IsKept s (i ∷ rest) e kept some_left = (
    (i, record s.pool { inactive = rest }),
    refl,
    λ j. omega (arith, kept j, ap (λ is. count is j) e),
  )

  acquire-IsKept :
      (s : Waits T)
      → IsKept s
      → exhausted s.pool ≡ false
      → (taken : ℕ × Pool T) × (acquire s.pool ≡ ok taken)
        × IsKept (record s { pool = taken.1; waiting = taken.0 ∷ s.waiting })
  unfolding acquire
  acquire-IsKept s kept some_left = take_back-IsKept s s.pool.inactive refl kept some_left

  emplace-exhausted : (p : Pool T) → exhausted (emplace p fresh) ≡ false
  unfolding emplace
  emplace-exhausted p = refl

  set-IsKept :
      (s : Waits T)
      → IsKept s
      → (taken : ℕ × Pool T) × (set s.pool ≡ ok taken)
        × IsKept (record s { pool = taken.1; waiting = taken.0 ∷ s.waiting })
  unfolding set new_timer
  set-IsKept s kept = elim (Bool-cases (exhausted s.pool)) [
    | inl out ↦ rw out (
        acquire-IsKept (record s { pool = emplace s.pool fresh }) (grown-IsKept s kept)
          (emplace-exhausted s.pool))
    | inr left ↦ rw left (acquire-IsKept s kept left)
  ]

  -- A handler that does not throw gives its timer back.
  release-IsKept :
      (s : Waits T) (timer : ℕ)
      → IsKept s
      → contains s.waiting timer ≡ true
      → (q : Pool T) × (release s.pool timer ≡ ok q)
        × IsKept (record s { pool = q; waiting = without s.waiting timer })
  unfolding release
  release-IsKept s timer kept waits =
      let here = count_present s.waiting timer waits in
      let active : contains s.pool.inactive timer ≡ false =
        count-contains s.pool.inactive timer (ground (arith, kept timer)) in
      let inside : ltb timer (length s.pool.storage) ≡ true = ground (arith, kept timer) in
      (
        record s.pool {
          storage = reset_at s.pool.reset s.pool.storage timer;
          inactive = timer ∷ s.pool.inactive;
        },
        rw (active, inside),
        λ j.
            subst
              (λ n.
                (if timer == j then 1 else 0)
                  + count s.pool.inactive j
                  + count (without s.waiting timer) j
                  + count s.lost j
                ≡ (if ltb j n then 1 else 0))
              (sym (length-reset_at s.pool.reset s.pool.storage timer))
              (omega (arith, kept j, count-without s.waiting timer j waits)),
      )

  complete-IsKept :
      (s : Waits T) (timer : ℕ) (failed : Bool)
      → IsKept s
      → contains s.waiting timer ≡ true
      → (t : Waits T) × ((fire failed s.pool timer >>= λ fired. ok (settle s timer fired)) ≡ ok t)
        × IsKept t
        × (failed ≡ false → t.lost ≡ s.lost)
  unfolding fire
  complete-IsKept s timer true kept waits = (
    settle s timer none,
    refl,
    (λ j. omega (arith, kept j, count-without s.waiting timer j waits)),
    λ e. cc,
  )
  complete-IsKept s timer false kept waits =
      let (q, released, next) = release-IsKept s timer kept waits in
      (
        settle s timer (some q),
        ap (λ r. (r >>= λ p. ok (some p)) >>= λ fired. ok (settle s timer fired)) released,
        next,
        λ _. refl,
      )

  step-IsKept :
      (s : Waits T) (a : Action)
      → IsKept s
      → (t : Waits T) × (step s a ≡ ok t) × IsKept t × (NoneFails (a ∷ []) → t.lost ≡ s.lost)
  unfolding step
  step-IsKept s sets kept =
      let (taken, run_set, next) = set-IsKept s kept in
      (
        record s { pool = taken.1; waiting = taken.0 ∷ s.waiting },
        ap (λ r. r >>= λ t. ok (record s { pool = t.1; waiting = t.0 ∷ s.waiting })) run_set,
        next,
        λ _. refl,
      )
  step-IsKept s (completes timer failed) kept = elim (Bool-cases (contains s.waiting timer)) [
    | inl waits ↦
        let (t, done, next, same) = complete-IsKept s timer failed kept waits in
        (t, if-true waits _ _ ∙ done, next, λ e. same e.0)
    | inr nobody ↦ (s, if-false nobody _ _, kept, λ _. refl)
  ]

  NoneFails-first :
      (a : Action) (actions : List Action) → NoneFails (a ∷ actions) → NoneFails (a ∷ [])
  NoneFails-first sets actions n = tt
  NoneFails-first (completes timer failed) actions n = (n.0, tt)

  NoneFails-later :
      (a : Action) (actions : List Action) → NoneFails (a ∷ actions) → NoneFails actions
  NoneFails-later sets actions n = n
  NoneFails-later (completes timer failed) actions n = n.1

  -- Where each timer of the pool is inactive, or waited for once, or was lost, any calls of `set` and any
  -- ends of waits, failed or not and in any order, run without a failed check and leave it so: `set`
  -- takes a timer that nobody waits for, and a handler gives its timer back unless its wait failed.
  -- Where no wait fails, no more timers are lost.
  pub run-IsKept :
      (s : Waits T) (actions : List Action)
      → IsKept s
      → (t : Waits T) × (run s actions ≡ ok t) × IsKept t × (NoneFails actions → t.lost ≡ s.lost)
  unfolding run
  run-IsKept s [] kept = (s, refl, kept, λ _. refl)
  run-IsKept s (a ∷ actions) kept =
      let (next, stepped, next_kept, same) = step-IsKept s a kept in
      let (t, ran, t_kept, later) = run-IsKept next actions next_kept in
      (
        t,
        ap (λ r. r >>= λ n. run n actions) stepped ∙ ran,
        t_kept,
        λ n. later (NoneFails-later a actions n) ∙ same (NoneFails-first a actions n),
      )
