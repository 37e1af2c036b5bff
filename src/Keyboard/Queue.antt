-- ===== src/Keyboard/Queue.antt =====
-- The class `event_queue` of cth_win/src/cth/win/io/keyboard.cpp: its methods on the events that it
-- holds, the oldest first. Its constructor and destructor are in `Manager`.
use mathlib.Core.List.{append-nil, append_assoc}
use cth.Base.{
  ℕ, ◌≡◌, refl, sym, ap, ◌∙◌, Bool, true, false, List, [], ◌∷◌, ◌++◌, length, Option, none, some,
}
use cth.Keys.{KeyUpdate}

abbrev pub empty : List KeyUpdate → Bool
empty [] = true
empty (first ∷ others) = false

abbrev pub size : List KeyUpdate → ℕ
size events = length events

-- Undefined on an empty queue.
abbrev pub front : List KeyUpdate → Option KeyUpdate
front [] = none
front (first ∷ others) = some first

-- What is returned and the rest; undefined on an empty queue.
abbrev pub pop : List KeyUpdate → Option (KeyUpdate × List KeyUpdate)
pop [] = none
pop (first ∷ others) = some (first, others)

-- The loop of `pop_queue`, with the events that it gathered.
pop_loop : List KeyUpdate → List KeyUpdate → List KeyUpdate × List KeyUpdate
pop_loop [] events = (events, [])
pop_loop (first ∷ others) events = pop_loop others (events ++ first ∷ [])

pub pop_queue : List KeyUpdate → List KeyUpdate × List KeyUpdate
pop_queue queue = pop_loop queue []

pub clear : List KeyUpdate → List KeyUpdate
clear [] = []
clear (first ∷ others) = clear others

abbrev pub push : List KeyUpdate → KeyUpdate → List KeyUpdate
push queue event = queue ++ event ∷ []

pop_loop-append : (queue events : List KeyUpdate) → pop_loop queue events ≡ (events ++ queue, [])
unfolding pop_loop
pop_loop-append [] events = ap (λ all. (all, [])) (sym (append-nil events))
pop_loop-append (first ∷ others) events =
    pop_loop-append others (events ++ first ∷ [])
    ∙ ap (λ all. (all, [])) (append_assoc events (first ∷ []) others)

pub pop_queue_all : (queue : List KeyUpdate) → pop_queue queue ≡ (queue, [])
unfolding pop_queue
pop_queue_all queue = pop_loop-append queue []

pub clear_empties : (queue : List KeyUpdate) → clear queue ≡ []
unfolding clear
clear_empties [] = refl
clear_empties (first ∷ others) = clear_empties others
