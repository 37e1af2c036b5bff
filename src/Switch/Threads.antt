-- ===== src/Switch/Threads.antt =====
-- Threads on one global_switch. `acquire` and `release` change the count atomically and call `_on` or
-- `_off` in a later step (cth/incl/cth/coro/global_switch.hpp).
use cth.Base.{ℕ, ◌≡◌, refl, sym, ◌∙◌, ◌≢◌, List, ◌∷◌, arith, ite, if_pos, if_neg, ℕ_discrete}
use cth.Base.Words.{add64, sub64}
use cth.Switch.{Event, on, off}

-- Where a thread stands: between calls, or before the call of `_on` or of `_off`.
pub data Pc : Type 0 where
  idle before_on before_off : Pc

pub record System : Type 0 where
  pub count : ℕ
  pub log : List Event
  pub pcs : ℕ → Pc

abbrev pub update : (ℕ → Pc) → ℕ → Pc → ℕ → Pc
update f i a j = ite (ℕ_discrete i j) a (f j)

-- A step of thread `i`: a fetch-and-add, or the call that it led to.
pub data Step (s : System) (i : ℕ) : Pc → System → Type 0 where
  acquire_first :
      s.count ≡ 0
      → Step s i idle (record s { count = add64 s.count 1; pcs = update s.pcs i before_on })
  acquire_more : s.count ≢ 0 → Step s i idle (record s { count = add64 s.count 1 })
  call_on : Step s i before_on (record s { log = on ∷ s.log; pcs = update s.pcs i idle })
  release_last :
      s.count ≡ 1
      → Step s i idle (record s { count = sub64 s.count 1; pcs = update s.pcs i before_off })
  release_more : s.count ≢ 1 → Step s i idle (record s { count = sub64 s.count 1 })
  call_off : Step s i before_off (record s { log = off ∷ s.log; pcs = update s.pcs i idle })

pub data Steps (s : System) : System → Type 0 where
  here : Steps s s
  next : {t u : System} (i : ℕ) (p : Pc) → Steps s t → t.pcs i ≡ p → Step t i p u → Steps s u

update_self : (f : ℕ → Pc) (i : ℕ) (a : Pc) → update f i a i ≡ a
update_self f i a = rw (if_pos (ℕ_discrete i i) refl)

update_ne : (f : ℕ → Pc) (i j : ℕ) (a : Pc) → i ≢ j → update f i a j ≡ f j
update_ne f i j a ne = rw (if_neg (ℕ_discrete i j) ne)

-- Where `release` races with `acquire`: whenever one acquire is held and two threads are between calls,
-- steps lead to a state in which one acquire is held, both threads are between calls again, and the
-- latest call was `_off`, after two calls of `_on` in a row if the switch was on before.
pub acquired_but_off :
    (s : System) (i j : ℕ)
    → i ≢ j
    → s.pcs i ≡ idle
    → s.pcs j ≡ idle
    → s.count ≡ 1
    → (t : System) × Steps s t
      × (t.count ≡ 1)
      × (t.log ≡ off ∷ on ∷ s.log)
      × (t.pcs i ≡ idle)
      × (t.pcs j ≡ idle)
acquired_but_off s i j ne hi hj one = (
  record called { log = off ∷ called.log; pcs = update called.pcs i idle },
  next i before_off
      (next j before_on
        (next j idle (next i idle here hi (release_last one))
          (update_ne s.pcs i j before_off ne ∙ hj) (acquire_first (omega arith)))
        (update_self released.pcs j before_on) call_on)
      waits call_off,
  omega arith,
  refl,
  update_self called.pcs i idle,
  update_ne called.pcs i j idle ne ∙ update_self taken.pcs j idle,
)
  where
    released : System
    released = record s { count = sub64 s.count 1; pcs = update s.pcs i before_off }

    taken : System
    taken = record released {
      count = add64 released.count 1;
      pcs = update released.pcs j before_on;
    }

    called : System
    called = record taken { log = on ∷ taken.log; pcs = update taken.pcs j idle }

    waits : called.pcs i ≡ before_off
    waits =
        update_ne taken.pcs j i idle (λ e. ne (sym e))
        ∙ update_ne released.pcs j i before_on (λ e. ne (sym e))
        ∙ update_self s.pcs i before_off
