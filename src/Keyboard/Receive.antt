-- ===== src/Keyboard/Receive.antt =====
-- `to_key_state_generic` and the overloads of `to_key_state` and `to_key_update` of
-- cth_win/src/cth/win/io/win_key_convert.hpp: from what Windows reports to the state of a key.
use cth.Base.{
  ℕ, ◌+◌, ◌-◌, ◌/◌, ◌%◌, ◌^◌, Bool, true, false, not, ◌&&◌, List, [], ◌∷◌, ltb, leb, ◌==◌,
  if◌then◌else◌,
}
use cth.Base.Bits.{bit}
use cth.Keys.{Key, code, ExKey, KeyState, KeyUpdate}
use cth.Keys.Codes.{cast}
use cth.Keyboard.Windows.{Vk, Windows}

pub record WinKeyParams : Type 0 where
  pub vk_code : ℕ
  pub scan_code : ℕ
  pub is_up : Bool
  pub is_extended : Bool

-- The cases of the `switch`, each with the key and the side that it sets.
abbrev pub cases : List (Vk × (WinKeyParams → ExKey))
cases =
    (Vk.lshift, λ _. record { key = Key.shift; right = false })
    ∷ (Vk.rshift, λ _. record { key = Key.shift; right = true })
    ∷ (Vk.shift, λ p. record { key = Key.shift; right = (p.scan_code == 54) })
    ∷ (Vk.lcontrol, λ _. record { key = Key.control; right = false })
    ∷ (Vk.rcontrol, λ _. record { key = Key.control; right = true })
    ∷ (Vk.control, λ p. record { key = Key.control; right = p.is_extended })
    ∷ (Vk.lmenu, λ _. record { key = Key.alt; right = false })
    ∷ (Vk.rmenu, λ _. record { key = Key.alt; right = true })
    ∷ (Vk.menu, λ p. record { key = Key.alt; right = p.is_extended })
    ∷ (Vk.lwin, λ _. record { key = Key.platform; right = false })
    ∷ (Vk.rwin, λ _. record { key = Key.platform; right = true })
    ∷ (Vk.apps, λ _. record { key = Key.meta; right = false })
    ∷ (Vk.space, λ _. record { key = Key.space; right = false })
    ∷ (Vk.back, λ _. record { key = Key.backspace; right = false })
    ∷ (Vk.capital, λ _. record { key = Key.caps_lock; right = false })
    ∷ (Vk.return, λ _. record { key = Key.enter; right = false })
    ∷ (Vk.escape, λ _. record { key = Key.escape; right = false })
    ∷ (Vk.tab, λ _. record { key = Key.tab; right = false })
    ∷ (Vk.numlock, λ _. record { key = Key.num_lock; right = false })
    ∷ (Vk.delete, λ _. record { key = Key.delete; right = false })
    ∷ (Vk.end, λ _. record { key = Key.end; right = false })
    ∷ (Vk.home, λ _. record { key = Key.home; right = false })
    ∷ (Vk.insert, λ _. record { key = Key.insert; right = false })
    ∷ (Vk.next, λ _. record { key = Key.page_down; right = false })
    ∷ (Vk.prior, λ _. record { key = Key.page_up; right = false })
    ∷ (Vk.down, λ _. record { key = Key.arrow_down; right = false })
    ∷ (Vk.left, λ _. record { key = Key.arrow_left; right = false })
    ∷ (Vk.right, λ _. record { key = Key.arrow_right; right = false })
    ∷ (Vk.up, λ _. record { key = Key.arrow_up; right = false })
    ∷ (Vk.oem_3, λ _. record { key = Key.backtick; right = false })
    ∷ (Vk.oem_minus, λ _. record { key = Key.minus; right = false })
    ∷ (Vk.oem_plus, λ _. record { key = Key.equal; right = false })
    ∷ (Vk.oem_4, λ _. record { key = Key.open_bracket; right = false })
    ∷ (Vk.oem_6, λ _. record { key = Key.close_bracket; right = false })
    ∷ (Vk.oem_5, λ _. record { key = Key.backslash; right = false })
    ∷ (Vk.oem_1, λ _. record { key = Key.semicolon; right = false })
    ∷ (Vk.oem_7, λ _. record { key = Key.quote; right = false })
    ∷ (Vk.oem_comma, λ _. record { key = Key.comma; right = false })
    ∷ (Vk.oem_period, λ _. record { key = Key.period; right = false })
    ∷ (Vk.oem_2, λ _. record { key = Key.slash; right = false })
    ∷ (Vk.add, λ _. record { key = Key.plus; right = false })
    ∷ (Vk.multiply, λ _. record { key = Key.star; right = false })
    ∷ []

-- The first case with the virtual key, or what the default branch says.
abbrev pub switch_vk : Windows → List (Vk × (WinKeyParams → ExKey)) → WinKeyParams → Key → ExKey
switch_vk w [] p otherwise = record { key = otherwise; right = false }
switch_vk w ((name, found) ∷ others) p otherwise =
    if w.vk name == p.vk_code then found p else switch_vk w others p otherwise

-- The default branch: letters and digits.
abbrev pub default_key : ℕ → Key
default_key vk =
    if leb 65 vk && leb vk 90
    then cast (code Key.a + (vk - 65))
    else if leb 48 vk && leb vk 57
    then cast (code Key.digit_0 + (vk - 48))
    else Key.none

unfoldable pub to_key_state_generic : Windows → WinKeyParams → KeyState
to_key_state_generic w p = record {
  ex_key = switch_vk w cases p (default_key p.vk_code);
  down = not p.is_up;
}

-- `x & 1 << i` as a truth value.
abbrev pub flag : ℕ → ℕ → Bool
flag x i = bit x i == 1

-- `KBDLLHOOKSTRUCT`
pub record HookStruct : Type 0 where
  pub vk_code : ℕ
  pub scan_code : ℕ
  pub flags : ℕ

abbrev pub hook_params : Windows → HookStruct → WinKeyParams
hook_params w s = record {
  vk_code = s.vk_code;
  scan_code = s.scan_code;
  is_up = flag s.flags w.llkhf_up;
  is_extended = flag s.flags w.llkhf_extended;
}

abbrev pub to_key_state_hook : Windows → HookStruct → KeyState
to_key_state_hook w s = to_key_state_generic w (hook_params w s)

-- `RAWKEYBOARD`
pub record RawKeyboard : Type 0 where
  pub vkey : ℕ
  pub make_code : ℕ
  pub flags : ℕ

abbrev pub raw_params : Windows → RawKeyboard → WinKeyParams
raw_params w r = record {
  vk_code = r.vkey;
  scan_code = r.make_code;
  is_up = flag r.flags w.ri_key_break;
  is_extended = flag r.flags w.ri_key_e0;
}

abbrev pub to_key_state_raw : Windows → RawKeyboard → KeyState
to_key_state_raw w r = to_key_state_generic w (raw_params w r)

-- The overload for window messages. `1 << 31` is negative, so that as a mask of the 64 bits of `l_param`
-- it has the bits from 31 on.
abbrev pub to_key_state_message : Windows → ℕ → ℕ → KeyState
to_key_state_message w w_param l_param = to_key_state_generic w (record {
  vk_code = w_param % 2 ^ 32;
  scan_code = l_param / 2 ^ 16 % 256;
  is_up = ltb 0 (l_param / 2 ^ 31);
  is_extended = flag l_param 24;
})

-- `to_key_update`, at a time that the clock reads.
abbrev pub to_key_update : Windows → RawKeyboard → ℕ → KeyUpdate
to_key_update w source now = record { data_ = to_key_state_raw w source; time = now }
