-- ===== src/Keyboard/Switched.antt =====
-- The two switches of win_key_convert.hpp, one after the other (cth_win/src/cth/win/io/win_key_convert.hpp).
use cth.Base.{
  ◌≡◌, ◌≢◌, ◌⊎◌, inl, inr, refl, sym, ap, ap₂, ◌∙◌, Bool, true, false, List, [], ◌∷◌, ◌==◌, ==_iff,
  if◌then◌else◌, if-false, Bool_ext, arith,
}
use cth.Base.Bits.{set_bit}
use cth.Keys.{Key, ExKey}
use cth.Keyboard.Windows.{Vk, Windows, IsWindows, place, place_injective}
use cth.Keyboard.Seen.{seen}
use cth.Keyboard.Send.{switch_key}
use cth.Keyboard.Receive.{WinKeyParams, cases, switch_vk, default_key}

-- The switch by the names of the virtual keys in place of their numbers.
abbrev pub by_name : List (Vk × (WinKeyParams → ExKey)) → Vk → WinKeyParams → Key → ExKey
by_name [] n p otherwise = record { key = otherwise; right = false }
by_name ((name, found) ∷ others) n p otherwise =
    if place name == place n then found p else by_name others n p otherwise

module _ (w : Windows) (law : IsWindows w) (p : WinKeyParams) where
  same_place :
      (name n : Vk) → p.vk_code ≡ w.vk n → (w.vk name == p.vk_code) ≡ (place name == place n)
  same_place name n e =
      Bool_ext (w.vk name == p.vk_code) (place name == place n)
        (λ same.
          (==_iff (place name) (place n)).1
            (ap place (law.different name n ((==_iff (w.vk name) p.vk_code).0 same ∙ e))))
        (λ same.
          (==_iff (w.vk name) p.vk_code).1
            (ap w.vk (place_injective name n ((==_iff (place name) (place n)).0 same)) ∙ sym e))

  pub switch_vk-named :
      (branches : List (Vk × (WinKeyParams → ExKey))) (n : Vk) (otherwise : Key)
      → p.vk_code ≡ w.vk n
      → switch_vk w branches p otherwise ≡ by_name branches n p otherwise
  switch_vk-named [] n otherwise e = refl
  switch_vk-named ((name, found) ∷ others) n otherwise e =
      ap₂ (λ here rest. if here then found p else rest) (same_place name n e)
        (switch_vk-named others n otherwise e)

  differ : (name : Vk) → p.vk_code ≢ w.vk name → (w.vk name == p.vk_code) ≡ false
  differ name apart = ground arith

  pub switch_vk-unnamed :
      (branches : List (Vk × (WinKeyParams → ExKey))) (otherwise : Key)
      → ((n : Vk) → p.vk_code ≢ w.vk n)
      → switch_vk w branches p otherwise ≡ record { key = otherwise; right = false }
  switch_vk-unnamed [] otherwise apart = refl
  switch_vk-unnamed ((name, found) ∷ others) otherwise apart =
      if-false (differ name (apart name)) (found p) (switch_vk w others p otherwise)
      ∙ switch_vk-unnamed others otherwise apart

  -- What the second switch says of a virtual key that has a name.
  named :
      (n : Vk)
      → p.vk_code ≡ w.vk n
      → switch_vk w cases p (default_key p.vk_code) ≡ by_name cases n p (default_key p.vk_code)
  named n e = switch_vk-named cases n (default_key p.vk_code) e

  -- The second switch takes back the first.
  pub switched :
      (key : Key) (right : Bool)
      → p.vk_code ≡ (switch_key w key right).vk
      → p.vk_code ≢ 0
      → switch_vk w cases p (default_key p.vk_code) ≡ seen key right
  switched Key.space right e ne = named Vk.space e
  switched Key.backtick right e ne = named Vk.oem_3 e
  switched Key.minus right e ne = named Vk.oem_minus e
  switched Key.equal right e ne = named Vk.oem_plus e
  switched Key.open_bracket right e ne = named Vk.oem_4 e
  switched Key.close_bracket right e ne = named Vk.oem_6 e
  switched Key.backslash right e ne = named Vk.oem_5 e
  switched Key.semicolon right e ne = named Vk.oem_1 e
  switched Key.quote right e ne = named Vk.oem_7 e
  switched Key.comma right e ne = named Vk.oem_comma e
  switched Key.period right e ne = named Vk.oem_period e
  switched Key.slash right e ne = named Vk.oem_2 e
  switched Key.hash right e ne = named Vk.oem_3 e
  switched Key.plus right e ne = named Vk.add e
  switched Key.star right e ne = named Vk.multiply e
  switched Key.less_than right e ne = named Vk.oem_comma e
  switched Key.backspace right e ne = named Vk.back e
  switched Key.caps_lock right e ne = named Vk.capital e
  switched Key.delete right e ne = named Vk.delete e
  switched Key.end right e ne = named Vk.end e
  switched Key.enter right e ne = named Vk.return e
  switched Key.escape right e ne = named Vk.escape e
  switched Key.home right e ne = named Vk.home e
  switched Key.insert right e ne = named Vk.insert e
  switched Key.page_down right e ne = named Vk.next e
  switched Key.page_up right e ne = named Vk.prior e
  switched Key.tab right e ne = named Vk.tab e
  switched Key.arrow_down right e ne = named Vk.down e
  switched Key.arrow_left right e ne = named Vk.left e
  switched Key.arrow_right right e ne = named Vk.right e
  switched Key.arrow_up right e ne = named Vk.up e
  switched Key.alt true e ne = named Vk.rmenu e
  switched Key.alt false e ne = named Vk.lmenu e
  switched Key.control true e ne = named Vk.rcontrol e
  switched Key.control false e ne = named Vk.lcontrol e
  switched Key.shift true e ne = named Vk.rshift e
  switched Key.shift false e ne = named Vk.lshift e
  switched Key.meta right e ne = named Vk.apps e
  switched Key.platform true e ne = named Vk.rwin e
  switched Key.platform false e ne = named Vk.lwin e
  switched Key.num_lock right e ne = named Vk.numlock e
  switched _ right e ne = absurd (ne e)

pub switch_key-flags :
    (w : Windows) (key : Key) (right : Bool)
    → ((switch_key w key right).flags ≡ 0)
      ⊎ ((switch_key w key right).flags ≡ set_bit 0 w.extendedkey)
switch_key-flags w Key.delete right = inr refl
switch_key-flags w Key.end right = inr refl
switch_key-flags w Key.home right = inr refl
switch_key-flags w Key.insert right = inr refl
switch_key-flags w Key.page_down right = inr refl
switch_key-flags w Key.page_up right = inr refl
switch_key-flags w Key.arrow_down right = inr refl
switch_key-flags w Key.arrow_left right = inr refl
switch_key-flags w Key.arrow_right right = inr refl
switch_key-flags w Key.arrow_up right = inr refl
switch_key-flags w Key.alt true = inr refl
switch_key-flags w Key.alt false = inl refl
switch_key-flags w Key.control true = inr refl
switch_key-flags w Key.control false = inl refl
switch_key-flags w Key.shift true = inl refl
switch_key-flags w Key.shift false = inl refl
switch_key-flags w Key.platform true = inl refl
switch_key-flags w Key.platform false = inl refl
switch_key-flags w Key.num_lock right = inr refl
switch_key-flags w _ right = inl refl
