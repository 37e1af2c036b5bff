-- ===== src/Keyboard/Windows.antt =====
-- What cth_win/src/cth/win/io/win_key_convert.hpp uses of the Windows API: the names of the virtual
-- keys and of the flags, whose numbers are the system's.
use cth.Base.{ℕ, ◌+◌, ◌<◌, ◌≡◌, ◌≢◌, ◌⊎◌, refl, sym, ap, ◌∙◌, List, [], ◌∷◌, get_or}

-- `VK_SPACE` and so on.
pub data Vk : Type 0 where
  f1 space oem_3 oem_minus oem_plus oem_4 oem_6 oem_5 oem_1 oem_7 oem_comma oem_period oem_2 add
        multiply back capital delete end return escape home insert next prior tab down left right up
        rmenu lmenu rcontrol lcontrol rshift lshift apps rwin lwin numlock shift control menu :
      Vk

-- The numbers of the system: a virtual key, and the bit that a flag is.
pub record Windows : Type 0 where
  pub vk : Vk → ℕ
  pub extendedkey : ℕ
  pub keyup : ℕ
  pub llkhf_up : ℕ
  pub llkhf_extended : ℕ
  pub ri_key_break : ℕ
  pub ri_key_e0 : ℕ

abbrev pub Outside : ℕ → ℕ → ℕ → Type 0
Outside first last n = (n < first) ⊎ (last < n)

-- The documented facts: virtual keys are different numbers of one byte, none of them 0, a letter or a
-- digit; `VK_F1` to `VK_F12` follow each other, and no other name stands among them.
pub record IsWindows (w : Windows) : Type 0 where
  pub different : (n m : Vk) → w.vk n ≡ w.vk m → n ≡ m
  pub positive : (n : Vk) → 0 < w.vk n
  pub small : (n : Vk) → w.vk n < 256
  pub no_letter : (n : Vk) → Outside 65 90 (w.vk n)
  pub no_digit : (n : Vk) → Outside 48 57 (w.vk n)
  pub f_row_above : 90 < w.vk Vk.f1
  pub f_row_small : w.vk Vk.f1 + 11 < 256
  pub f_row_alone : (n : Vk) → n ≢ Vk.f1 → Outside (w.vk Vk.f1) (w.vk Vk.f1 + 11) (w.vk n)
  pub flags_differ : w.extendedkey ≢ w.keyup

-- The place of a name in the list of them.
abbrev pub place : Vk → ℕ
place Vk.f1 = 0
place Vk.space = 1
place Vk.oem_3 = 2
place Vk.oem_minus = 3
place Vk.oem_plus = 4
place Vk.oem_4 = 5
place Vk.oem_6 = 6
place Vk.oem_5 = 7
place Vk.oem_1 = 8
place Vk.oem_7 = 9
place Vk.oem_comma = 10
place Vk.oem_period = 11
place Vk.oem_2 = 12
place Vk.add = 13
place Vk.multiply = 14
place Vk.back = 15
place Vk.capital = 16
place Vk.delete = 17
place Vk.end = 18
place Vk.return = 19
place Vk.escape = 20
place Vk.home = 21
place Vk.insert = 22
place Vk.next = 23
place Vk.prior = 24
place Vk.tab = 25
place Vk.down = 26
place Vk.left = 27
place Vk.right = 28
place Vk.up = 29
place Vk.rmenu = 30
place Vk.lmenu = 31
place Vk.rcontrol = 32
place Vk.lcontrol = 33
place Vk.rshift = 34
place Vk.lshift = 35
place Vk.apps = 36
place Vk.rwin = 37
place Vk.lwin = 38
place Vk.numlock = 39
place Vk.shift = 40
place Vk.control = 41
place Vk.menu = 42

abbrev pub all_names : List Vk
all_names =
    Vk.f1 ∷ Vk.space ∷ Vk.oem_3 ∷ Vk.oem_minus ∷ Vk.oem_plus ∷ Vk.oem_4 ∷ Vk.oem_6 ∷ Vk.oem_5
    ∷ Vk.oem_1 ∷ Vk.oem_7 ∷ Vk.oem_comma ∷ Vk.oem_period ∷ Vk.oem_2 ∷ Vk.add ∷ Vk.multiply ∷ Vk.back
    ∷ Vk.capital ∷ Vk.delete ∷ Vk.end ∷ Vk.return ∷ Vk.escape ∷ Vk.home ∷ Vk.insert ∷ Vk.next
    ∷ Vk.prior ∷ Vk.tab ∷ Vk.down ∷ Vk.left ∷ Vk.right ∷ Vk.up ∷ Vk.rmenu ∷ Vk.lmenu ∷ Vk.rcontrol
    ∷ Vk.lcontrol ∷ Vk.rshift ∷ Vk.lshift ∷ Vk.apps ∷ Vk.rwin ∷ Vk.lwin ∷ Vk.numlock ∷ Vk.shift
    ∷ Vk.control ∷ Vk.menu ∷ []

named-place : (n : Vk) → get_or all_names (place n) Vk.f1 ≡ n
named-place Vk.f1 = refl
named-place Vk.space = refl
named-place Vk.oem_3 = refl
named-place Vk.oem_minus = refl
named-place Vk.oem_plus = refl
named-place Vk.oem_4 = refl
named-place Vk.oem_6 = refl
named-place Vk.oem_5 = refl
named-place Vk.oem_1 = refl
named-place Vk.oem_7 = refl
named-place Vk.oem_comma = refl
named-place Vk.oem_period = refl
named-place Vk.oem_2 = refl
named-place Vk.add = refl
named-place Vk.multiply = refl
named-place Vk.back = refl
named-place Vk.capital = refl
named-place Vk.delete = refl
named-place Vk.end = refl
named-place Vk.return = refl
named-place Vk.escape = refl
named-place Vk.home = refl
named-place Vk.insert = refl
named-place Vk.next = refl
named-place Vk.prior = refl
named-place Vk.tab = refl
named-place Vk.down = refl
named-place Vk.left = refl
named-place Vk.right = refl
named-place Vk.up = refl
named-place Vk.rmenu = refl
named-place Vk.lmenu = refl
named-place Vk.rcontrol = refl
named-place Vk.lcontrol = refl
named-place Vk.rshift = refl
named-place Vk.lshift = refl
named-place Vk.apps = refl
named-place Vk.rwin = refl
named-place Vk.lwin = refl
named-place Vk.numlock = refl
named-place Vk.shift = refl
named-place Vk.control = refl
named-place Vk.menu = refl

pub place_injective : (n m : Vk) → place n ≡ place m → n ≡ m
place_injective n m e = sym (named-place n) ∙ ap (λ at. get_or all_names at Vk.f1) e ∙ named-place m
