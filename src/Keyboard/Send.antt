-- ===== src/Keyboard/Send.antt =====
-- `to_win_key` and `to_win_input` of cth_win/src/cth/win/io/win_key_convert.hpp: from a key to the
-- input that Windows is sent.
use cth.Base.{
  ℕ, ◌+◌, ◌-◌, ◌%◌, ◌^◌, Bool, ◌&&◌, leb, ◌==◌, if◌then◌else◌, List, [], ◌∷◌, Result, ok, check,
  ◌>>=◌, ◌>>◌,
}
use cth.Base.Bits.{set_bit}
use cth.Keys.{Key, code, ExKey, KeyState}
use cth.Keyboard.Windows.{Vk, Windows}

pub record WinKey : Type 0 where
  pub vk : ℕ
  pub flags : ℕ

abbrev plain : ℕ → WinKey
plain vk = record { vk = vk; flags = 0 }

-- `flags |= KEYEVENTF_EXTENDEDKEY`
abbrev extended : Windows → ℕ → WinKey
extended w vk = record { vk = vk; flags = set_bit 0 w.extendedkey }

-- The `switch` over the key. Where it has no case, `vk` stays 0.
abbrev pub switch_key : Windows → Key → Bool → WinKey
switch_key w Key.space right = plain (w.vk Vk.space)
switch_key w Key.backtick right = plain (w.vk Vk.oem_3)
switch_key w Key.minus right = plain (w.vk Vk.oem_minus)
switch_key w Key.equal right = plain (w.vk Vk.oem_plus)
switch_key w Key.open_bracket right = plain (w.vk Vk.oem_4)
switch_key w Key.close_bracket right = plain (w.vk Vk.oem_6)
switch_key w Key.backslash right = plain (w.vk Vk.oem_5)
switch_key w Key.semicolon right = plain (w.vk Vk.oem_1)
switch_key w Key.quote right = plain (w.vk Vk.oem_7)
switch_key w Key.comma right = plain (w.vk Vk.oem_comma)
switch_key w Key.period right = plain (w.vk Vk.oem_period)
switch_key w Key.slash right = plain (w.vk Vk.oem_2)
switch_key w Key.hash right = plain (w.vk Vk.oem_3)
switch_key w Key.plus right = plain (w.vk Vk.add)
switch_key w Key.star right = plain (w.vk Vk.multiply)
switch_key w Key.less_than right = plain (w.vk Vk.oem_comma)
switch_key w Key.backspace right = plain (w.vk Vk.back)
switch_key w Key.caps_lock right = plain (w.vk Vk.capital)
switch_key w Key.delete right = extended w (w.vk Vk.delete)
switch_key w Key.end right = extended w (w.vk Vk.end)
switch_key w Key.enter right = plain (w.vk Vk.return)
switch_key w Key.escape right = plain (w.vk Vk.escape)
switch_key w Key.home right = extended w (w.vk Vk.home)
switch_key w Key.insert right = extended w (w.vk Vk.insert)
switch_key w Key.page_down right = extended w (w.vk Vk.next)
switch_key w Key.page_up right = extended w (w.vk Vk.prior)
switch_key w Key.tab right = plain (w.vk Vk.tab)
switch_key w Key.arrow_down right = extended w (w.vk Vk.down)
switch_key w Key.arrow_left right = extended w (w.vk Vk.left)
switch_key w Key.arrow_right right = extended w (w.vk Vk.right)
switch_key w Key.arrow_up right = extended w (w.vk Vk.up)
switch_key w Key.alt right = if right then extended w (w.vk Vk.rmenu) else plain (w.vk Vk.lmenu)
switch_key w Key.control right =
    if right then extended w (w.vk Vk.rcontrol) else plain (w.vk Vk.lcontrol)
switch_key w Key.shift right = if right then plain (w.vk Vk.rshift) else plain (w.vk Vk.lshift)
switch_key w Key.meta right = plain (w.vk Vk.apps)
switch_key w Key.platform right = if right then plain (w.vk Vk.rwin) else plain (w.vk Vk.lwin)
switch_key w Key.num_lock right = extended w (w.vk Vk.numlock)
switch_key w Key.none right = plain 0
switch_key w Key.a right = plain 0
switch_key w Key.b right = plain 0
switch_key w Key.c right = plain 0
switch_key w Key.d right = plain 0
switch_key w Key.e right = plain 0
switch_key w Key.f right = plain 0
switch_key w Key.g right = plain 0
switch_key w Key.h right = plain 0
switch_key w Key.i right = plain 0
switch_key w Key.j right = plain 0
switch_key w Key.k right = plain 0
switch_key w Key.l right = plain 0
switch_key w Key.m right = plain 0
switch_key w Key.n right = plain 0
switch_key w Key.o right = plain 0
switch_key w Key.p right = plain 0
switch_key w Key.q right = plain 0
switch_key w Key.r right = plain 0
switch_key w Key.s right = plain 0
switch_key w Key.t right = plain 0
switch_key w Key.u right = plain 0
switch_key w Key.v right = plain 0
switch_key w Key.w right = plain 0
switch_key w Key.x right = plain 0
switch_key w Key.y right = plain 0
switch_key w Key.z right = plain 0
switch_key w Key.digit_0 right = plain 0
switch_key w Key.digit_1 right = plain 0
switch_key w Key.digit_2 right = plain 0
switch_key w Key.digit_3 right = plain 0
switch_key w Key.digit_4 right = plain 0
switch_key w Key.digit_5 right = plain 0
switch_key w Key.digit_6 right = plain 0
switch_key w Key.digit_7 right = plain 0
switch_key w Key.digit_8 right = plain 0
switch_key w Key.digit_9 right = plain 0
switch_key w Key.f1 right = plain 0
switch_key w Key.f2 right = plain 0
switch_key w Key.f3 right = plain 0
switch_key w Key.f4 right = plain 0
switch_key w Key.f5 right = plain 0
switch_key w Key.f6 right = plain 0
switch_key w Key.f7 right = plain 0
switch_key w Key.f8 right = plain 0
switch_key w Key.f9 right = plain 0
switch_key w Key.f10 right = plain 0
switch_key w Key.f11 right = plain 0
switch_key w Key.f12 right = plain 0
switch_key w Key.custom_0 right = plain 0
switch_key w Key.custom_1 right = plain 0
switch_key w Key.custom_2 right = plain 0
switch_key w Key.custom_3 right = plain 0
switch_key w Key.custom_4 right = plain 0

-- `key >= first && key <= last`
abbrev pub between : Key → Key → Key → Bool
between first last key = leb (code first) (code key) && leb (code key) (code last)

-- The place of a key in a row of keys, as the virtual key that is so far behind the row's first.
abbrev pub in_row : ℕ → Key → Key → WinKey
in_row start first key = plain ((start + (code key - code first)) % 2 ^ 16)

abbrev pub choose_vk : Windows → ExKey → WinKey
choose_vk w ex_key =
    if between Key.a Key.z ex_key.key
    then in_row 65 Key.a ex_key.key
    else if between Key.digit_0 Key.digit_9 ex_key.key
    then in_row 48 Key.digit_0 ex_key.key
    else if between Key.f1 Key.f12 ex_key.key
    then in_row (w.vk Vk.f1) Key.f1 ex_key.key
    else switch_key w ex_key.key ex_key.right

-- The check of `vk` follows the switch.
unfoldable pub to_win_key : Windows → ExKey → Result WinKey
to_win_key w ex_key = check ((choose_vk w ex_key).vk == 0) >> ok (choose_vk w ex_key)

-- `INPUT` of a keyboard, whose other fields are 0.
pub record Input : Type 0 where
  pub vk : ℕ
  pub flags : ℕ

unfoldable pub to_win_input : Windows → KeyState → Result Input
to_win_input w state = do
  key ← to_win_key w state.ex_key
  ok (record { vk = key.vk; flags = if state.down then key.flags else set_bit key.flags w.keyup })

-- `send` of several states: the inputs that `SendInput` is given.
pub send_all : Windows → List KeyState → Result (List Input)
send_all w [] = ok []
send_all w (state ∷ others) = do
  input ← to_win_input w state
  inputs ← send_all w others
  ok (input ∷ inputs)
