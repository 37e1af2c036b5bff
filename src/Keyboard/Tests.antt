-- ===== src/Keyboard/Tests.antt =====
-- Tests of the keyboard, at the numbers that Windows has.
use cth.Base.{ℕ, ◌≡◌, ◌↔◌, refl, true, false, List, [], ◌∷◌, none, some, arith, ok, critical}
use cth.Base.Bits.{bit, set_bit}
use cth.Keys.{Key, KeyState}
use cth.Keyboard.Numbers.{windows, windows-IsWindows}
use cth.Keyboard.Seen.{has_virtual_key}
use cth.Keyboard.Send.{Input, to_win_key, to_win_input}
use cth.Keyboard.Receive.{WinKeyParams, RawKeyboard, to_key_state_generic, to_key_update}
use cth.Keyboard.RoundTrip.{send-receive, to_win_input_iff}
use cth.Keyboard.Manager.{push_event}
use cth.Keyboard.Lost.{function_key_lost}
use cth.Keyboard.Delivery.{Action, constructs, destroys, raises, pops, run, start}
use cth.Keyboard.Hook.{
  other, looping, beginning, finished, registered, Hook, start_hook, stop_hook, thread_step,
}
use cth.Keyboard.Stopping.{Reach, starts, goes_on, receives, stop_hook-finished, stop_hook_waits}

abbrev right_alt_up : KeyState
right_alt_up = record { ex_key = record { key = Key.alt; right = true }; down = false }

-- Right Alt going up: VK_RMENU, with the flags KEYEVENTF_EXTENDEDKEY and KEYEVENTF_KEYUP.
abbrev right_alt_input : Input
right_alt_input = record { vk = 165; flags = 3 }

sends_right_alt : to_win_input windows right_alt_up ≡ ok right_alt_input
unfolding to_win_input to_win_key set_bit
sends_right_alt = refl

abbrev right_alt_params : WinKeyParams
right_alt_params = record { vk_code = 165; scan_code = 56; is_up = true; is_extended = true }

send-receive_example : to_key_state_generic windows right_alt_params ≡ right_alt_up
unfolding bit
send-receive_example =
    send-receive windows windows-IsWindows right_alt_up right_alt_input right_alt_params
      sends_right_alt refl refl

abbrev custom_down : KeyState
custom_down = record { ex_key = record { key = Key.custom_2; right = false }; down = true }

to_win_input_iff_example :
    (to_win_input windows custom_down ≡ critical) ↔ (has_virtual_key custom_down.ex_key.key ≡ false)
to_win_input_iff_example = to_win_input_iff windows windows-IsWindows custom_down

-- Two queues, of which one comes later and one goes.
abbrev press : Key → ℕ → Action
press key now = raises (record {
  data_ = record { ex_key = record { key = key; right = false }; down = true };
  time = now;
})

abbrev two_queues : List Action
two_queues =
    constructs 8
    ∷ press Key.a 1
    ∷ constructs 16
    ∷ press Key.none 2
    ∷ press Key.b 3
    ∷ pops 8
    ∷ destroys 16
    ∷ press Key.c 4
    ∷ []

-- A thread in its loop with a message.
abbrev waiting : Hook
waiting = record {
  place = looping;
  stop = false;
  id = 77;
  hook_thread_id = 77;
  messages = other ∷ [];
}

waiting-Reach : Reach windows waiting
unfolding start_hook thread_step
waiting-Reach = receives other (goes_on registered [] (starts 77 (omega arith)) refl)

stop_hook-finished_example :
    (later : Hook) × (thread_step windows registered (stop_hook waiting) ≡ some (later, []))
    × (later.place ≡ finished)
stop_hook-finished_example = stop_hook-finished windows waiting registered waiting-Reach refl

start_hook-beginning : (start_hook 77).place ≡ beginning
unfolding start_hook
start_hook-beginning = refl

start_hook_messages : (start_hook 77).messages ≡ []
unfolding start_hook
start_hook_messages = refl

stop_hook_waits_example :
    (later : Hook) × (thread_step windows registered (stop_hook (start_hook 77)) ≡ some (later, []))
    × (later.place ≡ looping)
    × (later.stop ≡ true)
    × (thread_step windows registered later ≡ none)
stop_hook_waits_example =
    stop_hook_waits windows (start_hook 77) (starts 77 (omega arith)) start_hook-beginning
      start_hook_messages

-- F1 going down as it is reported.
abbrev f1_down : RawKeyboard
f1_down = record { vkey = 112; make_code = 59; flags = 0 }

function_key_lost_example :
    push_event (run start two_queues).manager (to_key_update windows f1_down 5)
    ≡ (run start two_queues).manager
function_key_lost_example =
    function_key_lost windows windows-IsWindows (run start two_queues).manager f1_down Key.f1 5 refl
      refl
