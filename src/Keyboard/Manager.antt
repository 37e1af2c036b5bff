-- ===== src/Keyboard/Manager.antt =====
-- The class `hook_manager` of cth_win/src/cth/win/io/keyboard.cpp, with the event queues that
-- subscribe to it: the constructor and the destructor of an `event_queue` do nothing else.
use cth.Base.{ℕ, List, [], ◌∷◌, ◌++◌, ◌==◌, if◌then◌else◌}
use cth.Keys.{Key, code, KeyUpdate}
use cth.Switch as Switch
use cth.Switch.{Switch, acquire, release}
use cth.Keyboard.Windows.{Windows}
use cth.Keyboard.Receive.{HookStruct, to_key_state_hook}
use cth.Keyboard.Queue.{push}

-- `_queues` and `_hookSwitch`, and what stands at the address of each event queue.
pub record Manager : Type 0 where
  pub queues : List ℕ
  pub hook_switch : Switch
  pub contents : ℕ → List KeyUpdate

abbrev pub init : Manager
init = record { queues = []; hook_switch = Switch.init; contents = λ _. [] }

-- What stands at one address is replaced.
abbrev pub write : (ℕ → List KeyUpdate) → ℕ → List KeyUpdate → ℕ → List KeyUpdate
write contents queue events at = if at == queue then events else contents at

abbrev pub erase : List ℕ → ℕ → List ℕ
erase [] queue = []
erase (first ∷ others) queue =
    if first == queue then erase others queue else first ∷ erase others queue

abbrev pub subscribe : Manager → ℕ → Manager
subscribe m queue = record m {
  queues = m.queues ++ queue ∷ [];
  hook_switch = (acquire m.hook_switch).1;
}

abbrev pub unsubscribe : Manager → ℕ → Manager
unsubscribe m queue = record m {
  queues = erase m.queues queue;
  hook_switch = (release m.hook_switch).1;
}

-- The loop of `push_event` over the subscribed queues.
abbrev pub push_all : List ℕ → KeyUpdate → (ℕ → List KeyUpdate) → ℕ → List KeyUpdate
push_all [] update contents = contents
push_all (queue ∷ others) update contents =
    push_all others update (write contents queue (push (contents queue) update))

abbrev pub push_event : Manager → KeyUpdate → Manager
push_event m update =
    if code update.data_.ex_key.key == code Key.none
    then m
    else record m { contents = push_all m.queues update m.contents }

-- `event_queue::event_queue()`
abbrev pub construct : Manager → ℕ → Manager
construct m queue = subscribe (record m { contents = write m.contents queue [] }) queue

-- `event_queue::~event_queue()`
abbrev pub destroy : Manager → ℕ → Manager
destroy m queue = unsubscribe m queue

-- `hook_callback`, which passes every call on to the next hook; `hc_action` is Windows' `HC_ACTION`.
abbrev pub hook_callback : Windows → ℕ → Manager → ℕ → HookStruct → ℕ → Manager
hook_callback w hc_action m n_code s now =
    if n_code == hc_action
    then push_event m (record { data_ = to_key_state_hook w s; time = now })
    else m
