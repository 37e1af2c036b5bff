-- ===== src/Keyboard/Hook.antt =====
-- The hook thread of cth_win/src/cth/win/io/keyboard.cpp: `start_hook`, `stop_hook` and `thread_proc`.
-- The thread goes on step by step, and not at all while it waits in `GetMessageW`.
use cth.Base.{ℕ, ◌==◌, Bool, true, false, List, [], ◌∷◌, ◌++◌, if◌then◌else◌, Option, none, some}
use cth.Keys.{KeyUpdate}
use cth.Keyboard.Windows.{Windows}
use cth.Keyboard.Receive.{RawKeyboard, to_key_update}

-- What `GetMessageW` takes from the thread's queue: `WM_QUIT`, `WM_INPUT` from a keyboard at a time,
-- and any other message.
pub data Message : Type 0 where
  quit other : Message
  input : RawKeyboard → ℕ → Message

-- Before the window is made and the keyboard registered, in the loop, after `thread_proc`, and where an
-- exception that left `thread_proc` ended the program.
pub data Place : Type 0 where
  beginning looping finished terminated : Place

-- What `CreateWindowExW` and `RegisterRawInputDevices` answer: there is no window, or it was made and the
-- keyboard was not registered, or it was.
pub data Setup : Type 0 where
  no_window unregistered registered : Setup

-- The thread, whether it was asked to stop, `_hookThreadId`, and its messages, the oldest first.
-- `id` is the number that Windows gives the thread.
pub record Hook : Type 0 where
  pub place : Place
  pub stop : Bool
  pub id : ℕ
  pub hook_thread_id : ℕ
  pub messages : List Message

-- A new thread begins; `id` is its number.
unfoldable pub start_hook : ℕ → Hook
start_hook id = record {
  place = beginning;
  stop = false;
  id = id;
  hook_thread_id = 0;
  messages = [];
}

-- What `stop_hook` does before it waits for the thread: `PostThreadMessageW` sends `WM_QUIT`.
unfoldable pub stop_hook : Hook → Hook
stop_hook h =
    if h.hook_thread_id == 0
    then record h { stop = true }
    else record h { stop = true; messages = h.messages ++ quit ∷ [] }

-- One round of the loop with the message that `GetMessageW` returned, and what `push_event` is given.
-- The message is looked at only if the thread was not asked to stop.
abbrev pub round : Windows → Hook → Message → List Message → Hook × List KeyUpdate
round w h quit rest = (record h { place = finished; hook_thread_id = 0; messages = rest }, [])
round w h other rest =
    if h.stop
    then (record h { place = finished; hook_thread_id = 0; messages = rest }, [])
    else (record h { messages = rest }, [])
round w h (input source now) rest =
    if h.stop
    then (record h { place = finished; hook_thread_id = 0; messages = rest }, [])
    else (record h { messages = rest }, to_key_update w source now ∷ [])

abbrev pub loop_step : Windows → Hook → List Message → Option (Hook × List KeyUpdate)
loop_step w h [] = none
loop_step w h (message ∷ rest) = some (round w h message rest)

-- The next step of the thread, or `none` where it waits for a message or is over.
unfoldable pub thread_step : Windows → Setup → Hook → Option (Hook × List KeyUpdate)
thread_step w setup h = elim h.place [
  | beginning ↦ elim setup [
    | no_window ↦ some (record h { place = terminated }, [])
    | unregistered ↦ some (record h { place = finished }, [])
    | registered ↦ some (record h { place = looping; hook_thread_id = h.id }, [])
  ]
  | looping ↦ loop_step w h h.messages
  | finished ↦ none
  | terminated ↦ none
]
