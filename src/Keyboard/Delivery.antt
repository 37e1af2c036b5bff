-- ===== src/Keyboard/Delivery.antt =====
-- What the event queues of cth_win/src/cth/win/io/keyboard.cpp receive and give out while they come
-- and go.
use cth.Base.{
  ℕ, suc, ◌+◌, ◌^◌, ◌≤◌, ◌<◌, ◌≡◌, false, List, [], ◌∷◌, ◌++◌, length, ◌==◌, if◌then◌else◌, Option,
  none, some,
}
use cth.Keys.{Key, code, KeyUpdate}
use cth.Switch.Laws.{IsSound}
use cth.Keyboard.Queue.{empty, pop, pop_queue, clear}
use cth.Keyboard.Manager.{Manager, init, write, push_event, construct, destroy}

-- What a program and the hook do: a queue's constructor and destructor, an event of the hook, and the
-- methods that take events out of a queue.
pub data Action : Type 0 where
  constructs destroys pops pops_all clears : ℕ → Action
  raises : KeyUpdate → Action

abbrev pub after_pop : Manager → ℕ → Option (KeyUpdate × List KeyUpdate) → Manager
after_pop m queue none = m
after_pop m queue (some (first, others)) = record m { contents = write m.contents queue others }

abbrev pub step : Manager → Action → Manager
step m (constructs queue) = construct m queue
step m (destroys queue) = destroy m queue
step m (raises update) = push_event m update
step m (pops queue) = after_pop m queue (pop (m.contents queue))
step m (pops_all queue) = record m {
  contents = write m.contents queue (pop_queue (m.contents queue)).1;
}
step m (clears queue) = record m { contents = write m.contents queue (clear (m.contents queue)) }

-- How often a queue is subscribed.
abbrev pub occurs : List ℕ → ℕ → ℕ
occurs [] queue = 0
occurs (first ∷ others) queue =
    if first == queue then suc (occurs others queue) else occurs others queue

-- A queue is made where none is, and used where one is; a `pop` finds an event.
abbrev pub Allowed : Manager → Action → Type 0
Allowed m (constructs queue) = (occurs m.queues queue ≡ 0) × (length m.queues + 1 < 2 ^ 64)
Allowed m (destroys queue) = occurs m.queues queue ≡ 1
Allowed m (raises update) = Unit
Allowed m (pops queue) = (occurs m.queues queue ≡ 1) × (empty (m.contents queue) ≡ false)
Allowed m (pops_all queue) = occurs m.queues queue ≡ 1
Allowed m (clears queue) = occurs m.queues queue ≡ 1

-- The events since the queue at an address was made, those of no key left out.
abbrev pub raised : (ℕ → List KeyUpdate) → Action → ℕ → List KeyUpdate
raised log (constructs queue) at = if at == queue then [] else log at
raised log (raises update) at =
    if code update.data_.ex_key.key == code Key.none then log at else log at ++ update ∷ []
raised log _ at = log at

abbrev pub first_of : Option (KeyUpdate × List KeyUpdate) → List KeyUpdate
first_of none = []
first_of (some (first, others)) = first ∷ []

-- The events that were taken out of the queue at an address since it was made.
abbrev pub taken : Manager → (ℕ → List KeyUpdate) → Action → ℕ → List KeyUpdate
taken m log (constructs queue) at = if at == queue then [] else log at
taken m log (pops queue) at =
    if at == queue then log at ++ first_of (pop (m.contents queue)) else log at
taken m log (pops_all queue) at =
    if at == queue then log at ++ (pop_queue (m.contents queue)).0 else log at
taken m log (clears queue) at = if at == queue then log at ++ m.contents queue else log at
taken m log _ at = log at

-- The manager and the two logs.
pub record History : Type 0 where
  pub manager : Manager
  pub raised_log : ℕ → List KeyUpdate
  pub taken_log : ℕ → List KeyUpdate

abbrev pub note : History → Action → History
note h a = record {
  manager = step h.manager a;
  raised_log = raised h.raised_log a;
  taken_log = taken h.manager h.taken_log a;
}

abbrev pub run : History → List Action → History
run h [] = h
run h (a ∷ others) = run (note h a) others

abbrev pub AllAllowed : History → List Action → Type 0
AllAllowed h [] = Unit
AllAllowed h (a ∷ others) = Allowed h.manager a × AllAllowed (note h a) others

abbrev pub start : History
start = record { manager = init; raised_log = λ _. []; taken_log = λ _. [] }

pub record IsDelivering (h : History) : Type 0 where
  pub distinct : (queue : ℕ) → occurs h.manager.queues queue ≤ 1
  pub counted : h.manager.hook_switch.count ≡ length h.manager.queues
  pub sound : IsSound h.manager.hook_switch
  pub faithful :
      (queue : ℕ)
      → occurs h.manager.queues queue ≡ 1
      → h.taken_log queue ++ h.manager.contents queue ≡ h.raised_log queue
