-- ===== src/Keyboard/Numbers.antt =====
-- The numbers that the headers of Windows give the names of win_key_convert.hpp, for the tests.
use cth.Base.{ℕ, ◌+◌, ◌<◌, ◌≡◌, ◌≢◌, refl, sym, ap, ◌∙◌, List, [], ◌∷◌, ◌==◌, if◌then◌else◌, arith}
use cth.Keyboard.Windows.{Vk, Windows, IsWindows, Outside, all_names}

abbrev pub number : Vk → ℕ
number Vk.f1 = 112
number Vk.space = 32
number Vk.oem_3 = 192
number Vk.oem_minus = 189
number Vk.oem_plus = 187
number Vk.oem_4 = 219
number Vk.oem_6 = 221
number Vk.oem_5 = 220
number Vk.oem_1 = 186
number Vk.oem_7 = 222
number Vk.oem_comma = 188
number Vk.oem_period = 190
number Vk.oem_2 = 191
number Vk.add = 107
number Vk.multiply = 106
number Vk.back = 8
number Vk.capital = 20
number Vk.delete = 46
number Vk.end = 35
number Vk.return = 13
number Vk.escape = 27
number Vk.home = 36
number Vk.insert = 45
number Vk.next = 34
number Vk.prior = 33
number Vk.tab = 9
number Vk.down = 40
number Vk.left = 37
number Vk.right = 39
number Vk.up = 38
number Vk.rmenu = 165
number Vk.lmenu = 164
number Vk.rcontrol = 163
number Vk.lcontrol = 162
number Vk.rshift = 161
number Vk.lshift = 160
number Vk.apps = 93
number Vk.rwin = 92
number Vk.lwin = 91
number Vk.numlock = 144
number Vk.shift = 16
number Vk.control = 17
number Vk.menu = 18

-- The first name in a list with a number.
abbrev name_of : ℕ → List Vk → Vk
name_of vk [] = Vk.f1
name_of vk (first ∷ others) = if number first == vk then first else name_of vk others

name_of-number : (n : Vk) → name_of (number n) all_names ≡ n
name_of-number Vk.f1 = refl
name_of-number Vk.space = refl
name_of-number Vk.oem_3 = refl
name_of-number Vk.oem_minus = refl
name_of-number Vk.oem_plus = refl
name_of-number Vk.oem_4 = refl
name_of-number Vk.oem_6 = refl
name_of-number Vk.oem_5 = refl
name_of-number Vk.oem_1 = refl
name_of-number Vk.oem_7 = refl
name_of-number Vk.oem_comma = refl
name_of-number Vk.oem_period = refl
name_of-number Vk.oem_2 = refl
name_of-number Vk.add = refl
name_of-number Vk.multiply = refl
name_of-number Vk.back = refl
name_of-number Vk.capital = refl
name_of-number Vk.delete = refl
name_of-number Vk.end = refl
name_of-number Vk.return = refl
name_of-number Vk.escape = refl
name_of-number Vk.home = refl
name_of-number Vk.insert = refl
name_of-number Vk.next = refl
name_of-number Vk.prior = refl
name_of-number Vk.tab = refl
name_of-number Vk.down = refl
name_of-number Vk.left = refl
name_of-number Vk.right = refl
name_of-number Vk.up = refl
name_of-number Vk.rmenu = refl
name_of-number Vk.lmenu = refl
name_of-number Vk.rcontrol = refl
name_of-number Vk.lcontrol = refl
name_of-number Vk.rshift = refl
name_of-number Vk.lshift = refl
name_of-number Vk.apps = refl
name_of-number Vk.rwin = refl
name_of-number Vk.lwin = refl
name_of-number Vk.numlock = refl
name_of-number Vk.shift = refl
name_of-number Vk.control = refl
name_of-number Vk.menu = refl

number_different : (n m : Vk) → number n ≡ number m → n ≡ m
number_different n m e =
    sym (name_of-number n) ∙ ap (λ vk. name_of vk all_names) e ∙ name_of-number m

number_positive : (n : Vk) → 0 < number n
number_positive n = ground arith

number_small : (n : Vk) → number n < 256
number_small n = ground arith

number_no_letter : (n : Vk) → Outside 65 90 (number n)
number_no_letter n = ground arith

number_no_digit : (n : Vk) → Outside 48 57 (number n)
number_no_digit n = ground arith

number_f_row : (n : Vk) → n ≢ Vk.f1 → Outside (number Vk.f1) (number Vk.f1 + 11) (number n)
number_f_row n other = ground arith

abbrev pub windows : Windows
windows = record {
  vk = number;
  extendedkey = 0;
  keyup = 1;
  llkhf_up = 7;
  llkhf_extended = 0;
  ri_key_break = 0;
  ri_key_e0 = 1;
}

pub windows-IsWindows : IsWindows windows
windows-IsWindows = record {
  different = number_different;
  positive = number_positive;
  small = number_small;
  no_letter = number_no_letter;
  no_digit = number_no_digit;
  f_row_above = omega arith;
  f_row_small = omega arith;
  f_row_alone = number_f_row;
  flags_differ = λ e. omega arith;
}
