-- ===== src/Keyboard/Lost.antt =====
-- The keys whose events no queue gets (cth_win/src/cth/win/io).
use cth.Base.{ℕ, ◌≡◌, sym, ap, ◌∙◌, true, ◌==◌, if-true}
use cth.Keys.{Key, code}
use cth.Keyboard.Windows.{Vk, Windows, IsWindows}
use cth.Keyboard.Send.{between, in_row}
use cth.Keyboard.Receive.{
  RawKeyboard, raw_params, to_key_state_generic, to_key_state_raw, to_key_update,
}
use cth.Keyboard.Rows.{function_row_seen, function_seen}
use cth.Keyboard.Manager.{Manager, push_event}

-- The keys F1 to F12 have a virtual key, which sending them uses, but no queue gets an event when
-- such a key goes down or up.
pub function_key_lost :
    (w : Windows)
    → IsWindows w
    → (m : Manager) (source : RawKeyboard) (key : Key) (now : ℕ) → between Key.f1 Key.f12 key ≡ true
    → source.vkey ≡ (in_row (w.vk Vk.f1) Key.f1 key).vk
    → push_event m (to_key_update w source now) ≡ m
unfolding to_key_state_generic
function_key_lost w law m source key now row e =
    if-true (ap (λ x. code x == code Key.none) no_key) _ _
  where
    no_key : (to_key_state_raw w source).ex_key.key ≡ Key.none
    no_key =
        ap (λ x. x.key)
          (function_row_seen w law (raw_params w source) key true row e
            ∙ sym (function_seen key true row))
