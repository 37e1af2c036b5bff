-- ===== src/Keyboard/Virtual.antt =====
-- The keys that Windows has a virtual key for (cth_win/src/cth/win/io/win_key_convert.hpp).
use cth.Base.{ℕ, ◌+◌, ◌-◌, ◌%◌, ◌^◌, ◌<◌, ◌≡◌, ◌↔◌, refl, Bool, true, false, ◌&&◌, ◌||◌, leb, arith}
use cth.Keys.{Key, code, ExKey}
use cth.Keyboard.Windows.{Vk, Windows, IsWindows}
use cth.Keyboard.Seen.{has_virtual_key}
use cth.Keyboard.Send.{between, in_row, switch_key, choose_vk}
use cth.Keyboard.Choices.{choices}

abbrev in_rows : Key → Bool
in_rows key = between Key.a Key.digit_9 key || between Key.f1 Key.f12 key

rows_virtual : (key : Key) → in_rows key ≡ true → has_virtual_key key ≡ true
rows_virtual key row = ground arith

-- `key >= first && key <= last` of the three rows makes the test of the rows.
in_rows-outside :
    (n : ℕ)
    → (leb 1 n && leb n 26) ≡ false
    → (leb 27 n && leb n 36) ≡ false
    → (leb 73 n && leb n 84) ≡ false
    → ((leb 1 n && leb n 36) || (leb 73 n && leb n 84)) ≡ false
in_rows-outside n a b c = ground arith

in_rows-letter :
    (n : ℕ)
    → (leb 1 n && leb n 26) ≡ true
    → ((leb 1 n && leb n 36) || (leb 73 n && leb n 84)) ≡ true
in_rows-letter n row = ground arith

in_rows-digit :
    (n : ℕ)
    → (leb 27 n && leb n 36) ≡ true
    → ((leb 1 n && leb n 36) || (leb 73 n && leb n 84)) ≡ true
in_rows-digit n row = ground arith

in_rows-function :
    (n : ℕ)
    → (leb 73 n && leb n 84) ≡ true
    → ((leb 1 n && leb n 36) || (leb 73 n && leb n 84)) ≡ true
in_rows-function n row = ground arith

function_vk :
    (start n : ℕ)
    → 90 < start
    → start + 11 < 256
    → (leb 73 n && leb n 84) ≡ true
    → 0 < (start + (n - 73)) % 2 ^ 16
function_vk start n above small row = ground arith

letter_vk : (n : ℕ) → (leb 1 n && leb n 26) ≡ true → 0 < (65 + (n - 1)) % 2 ^ 16
letter_vk n row = ground arith

digit_vk : (n : ℕ) → (leb 27 n && leb n 36) ≡ true → 0 < (48 + (n - 27)) % 2 ^ 16
digit_vk n row = ground arith

both_fail : (vk : ℕ) (test : Bool) → 0 < vk → test ≡ true → (vk ≡ 0) ↔ (test ≡ false)
both_fail vk test positive holds = ground arith

module _ (w : Windows) (law : IsWindows w) where
  virtual : {test : Bool} (n : Vk) → test ≡ true → (w.vk n ≡ 0) ↔ (test ≡ false)
  virtual {test = test} n holds = both_fail (w.vk n) test (law.positive n) holds

  switch_key-virtual :
      (key : Key) (right : Bool)
      → in_rows key ≡ false
      → ((switch_key w key right).vk ≡ 0) ↔ (has_virtual_key key ≡ false)
  switch_key-virtual Key.space right out = virtual Vk.space refl
  switch_key-virtual Key.backtick right out = virtual Vk.oem_3 refl
  switch_key-virtual Key.minus right out = virtual Vk.oem_minus refl
  switch_key-virtual Key.equal right out = virtual Vk.oem_plus refl
  switch_key-virtual Key.open_bracket right out = virtual Vk.oem_4 refl
  switch_key-virtual Key.close_bracket right out = virtual Vk.oem_6 refl
  switch_key-virtual Key.backslash right out = virtual Vk.oem_5 refl
  switch_key-virtual Key.semicolon right out = virtual Vk.oem_1 refl
  switch_key-virtual Key.quote right out = virtual Vk.oem_7 refl
  switch_key-virtual Key.comma right out = virtual Vk.oem_comma refl
  switch_key-virtual Key.period right out = virtual Vk.oem_period refl
  switch_key-virtual Key.slash right out = virtual Vk.oem_2 refl
  switch_key-virtual Key.hash right out = virtual Vk.oem_3 refl
  switch_key-virtual Key.plus right out = virtual Vk.add refl
  switch_key-virtual Key.star right out = virtual Vk.multiply refl
  switch_key-virtual Key.less_than right out = virtual Vk.oem_comma refl
  switch_key-virtual Key.backspace right out = virtual Vk.back refl
  switch_key-virtual Key.caps_lock right out = virtual Vk.capital refl
  switch_key-virtual Key.delete right out = virtual Vk.delete refl
  switch_key-virtual Key.end right out = virtual Vk.end refl
  switch_key-virtual Key.enter right out = virtual Vk.return refl
  switch_key-virtual Key.escape right out = virtual Vk.escape refl
  switch_key-virtual Key.home right out = virtual Vk.home refl
  switch_key-virtual Key.insert right out = virtual Vk.insert refl
  switch_key-virtual Key.page_down right out = virtual Vk.next refl
  switch_key-virtual Key.page_up right out = virtual Vk.prior refl
  switch_key-virtual Key.tab right out = virtual Vk.tab refl
  switch_key-virtual Key.arrow_down right out = virtual Vk.down refl
  switch_key-virtual Key.arrow_left right out = virtual Vk.left refl
  switch_key-virtual Key.arrow_right right out = virtual Vk.right refl
  switch_key-virtual Key.arrow_up right out = virtual Vk.up refl
  switch_key-virtual Key.alt true out = virtual Vk.rmenu refl
  switch_key-virtual Key.alt false out = virtual Vk.lmenu refl
  switch_key-virtual Key.control true out = virtual Vk.rcontrol refl
  switch_key-virtual Key.control false out = virtual Vk.lcontrol refl
  switch_key-virtual Key.shift true out = virtual Vk.rshift refl
  switch_key-virtual Key.shift false out = virtual Vk.lshift refl
  switch_key-virtual Key.meta right out = virtual Vk.apps refl
  switch_key-virtual Key.platform true out = virtual Vk.rwin refl
  switch_key-virtual Key.platform false out = virtual Vk.lwin refl
  switch_key-virtual Key.num_lock right out = virtual Vk.numlock refl
  switch_key-virtual Key.none right out = ((λ _. refl), (λ _. refl))
  switch_key-virtual Key.custom_0 right out = ((λ _. refl), (λ _. refl))
  switch_key-virtual Key.custom_1 right out = ((λ _. refl), (λ _. refl))
  switch_key-virtual Key.custom_2 right out = ((λ _. refl), (λ _. refl))
  switch_key-virtual Key.custom_3 right out = ((λ _. refl), (λ _. refl))
  switch_key-virtual Key.custom_4 right out = ((λ _. refl), (λ _. refl))
  switch_key-virtual _ right out = cc

  pub choose_vk-virtual : (x : ExKey) → ((choose_vk w x).vk ≡ 0) ↔ (has_virtual_key x.key ≡ false)
  choose_vk-virtual x =
      choices (between Key.a Key.z x.key) (between Key.digit_0 Key.digit_9 x.key)
        (between Key.f1 Key.f12 x.key) (in_row 65 Key.a x.key) (in_row 48 Key.digit_0 x.key)
        (in_row (w.vk Vk.f1) Key.f1 x.key) (switch_key w x.key x.right)
        (λ chosen. (chosen.vk ≡ 0) ↔ (has_virtual_key x.key ≡ false))
        (λ row.
          both_fail (in_row 65 Key.a x.key).vk (has_virtual_key x.key) (letter_vk (code x.key) row)
            (rows_virtual x.key (in_rows-letter (code x.key) row)))
        (λ row.
          both_fail (in_row 48 Key.digit_0 x.key).vk (has_virtual_key x.key)
            (digit_vk (code x.key) row) (rows_virtual x.key (in_rows-digit (code x.key) row)))
        (λ row.
          both_fail (in_row (w.vk Vk.f1) Key.f1 x.key).vk (has_virtual_key x.key)
            (function_vk (w.vk Vk.f1) (code x.key) law.f_row_above law.f_row_small row)
            (rows_virtual x.key (in_rows-function (code x.key) row)))
        (λ a b c. switch_key-virtual x.key x.right (in_rows-outside (code x.key) a b c))
