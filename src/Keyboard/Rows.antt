-- ===== src/Keyboard/Rows.antt =====
-- The rows of keys that win_key_convert.hpp counts off, read back (cth_win/src/cth/win/io).
use cth.Base.{
  ℕ, ◌+◌, ◌-◌, ◌≤◌, ◌<◌, ◌≡◌, ◌≢◌, inl, inr, ap, ◌∙◌, Bool, true, false, ◌&&◌, leb, if◌then◌else◌,
  if-true, if-false, arith, ℕ_discrete,
}
use cth.Keys.{Key, code}
use cth.Keys.Codes.{cast, cast-code}
use cth.Keyboard.Windows.{Vk, Windows, IsWindows, Outside}
use cth.Keyboard.Seen.{seen}
use cth.Keyboard.Send.{between, in_row}
use cth.Keyboard.Receive.{WinKeyParams, cases, switch_vk, default_key}
use cth.Keyboard.Switched.{switch_vk-named, switch_vk-unnamed}

default-letter : (n : ℕ) → 1 ≤ n → n ≤ 26 → default_key (65 + (n - 1)) ≡ cast n
default-letter n low high =
    if-true (ground arith) (cast (code Key.a + (65 + (n - 1) - 65))) (
      if leb 48 (65 + (n - 1)) && leb (65 + (n - 1)) 57
      then cast (code Key.digit_0 + (65 + (n - 1) - 48))
      else Key.none)
    ∙ ap cast {x = code Key.a + (65 + (n - 1) - 65)} {y = n} (omega arith)

default-digit : (n : ℕ) → 27 ≤ n → n ≤ 36 → default_key (48 + (n - 27)) ≡ cast n
default-digit n low high =
    if-false (ground arith) (cast (code Key.a + (48 + (n - 27) - 65))) (
      if leb 48 (48 + (n - 27)) && leb (48 + (n - 27)) 57
      then cast (code Key.digit_0 + (48 + (n - 27) - 48))
      else Key.none)
    ∙ if-true (ground arith) (cast (code Key.digit_0 + (48 + (n - 27) - 48))) Key.none
    ∙ ap cast {x = code Key.digit_0 + (48 + (n - 27) - 48)} {y = n} (omega arith)

default-high : (vk : ℕ) → 90 < vk → default_key vk ≡ Key.none
default-high vk high =
    if-false (ground arith) (cast (code Key.a + (vk - 65)))
      (if leb 48 vk && leb vk 57 then cast (code Key.digit_0 + (vk - 48)) else Key.none)
    ∙ if-false (ground arith) (cast (code Key.digit_0 + (vk - 48))) Key.none

between_bounds : (low n high : ℕ) → (leb low n && leb n high) ≡ true → (low ≤ n) × (n ≤ high)
between_bounds low n high row = ground arith

plain_seen :
    (key : Key) (right : Bool)
    → between Key.a Key.digit_9 key ≡ true
    → record { key = key; right = false } ≡ seen key right
plain_seen key right row = ground arith

pub function_seen :
    (key : Key) (right : Bool)
    → between Key.f1 Key.f12 key ≡ true
    → record { key = Key.none; right = false } ≡ seen key right
function_seen key right row = ground arith

-- The row is told first, then what the virtual key makes of it.
module _ (w : Windows) (law : IsWindows w) (p : WinKeyParams) (key : Key) (right : Bool) where
  no_name :
      (first last n : ℕ)
      → first ≤ n
      → n ≤ last
      → ((name : Vk) → Outside first last (w.vk name))
      → p.vk_code ≡ n
      → (name : Vk) → p.vk_code ≢ w.vk name
  no_name first last n low high outside e name f = elim (outside name) [
    | inl below ↦ omega arith
    | inr above ↦ omega arith
  ]

  pub letter_seen :
      between Key.a Key.z key ≡ true
      → p.vk_code ≡ (in_row 65 Key.a key).vk
      → switch_vk w cases p (default_key p.vk_code) ≡ seen key right
  letter_seen row e =
      switch_vk-unnamed w law p cases (default_key p.vk_code) (
        no_name 65 90 (65 + (code key - 1)) (omega arith) (omega (arith, bounds)) law.no_letter
          place)
      ∙ ap (λ found. record { key = found; right = false })
          (ap default_key place ∙ default-letter (code key) bounds.0 bounds.1 ∙ cast-code key)
      ∙ plain_seen key right (ground (arith, bounds))
    where
      bounds : (1 ≤ code key) × (code key ≤ 26)
      bounds = between_bounds 1 (code key) 26 row

      place : p.vk_code ≡ 65 + (code key - 1)
      place = omega (arith, bounds)

  pub digit_seen :
      between Key.digit_0 Key.digit_9 key ≡ true
      → p.vk_code ≡ (in_row 48 Key.digit_0 key).vk
      → switch_vk w cases p (default_key p.vk_code) ≡ seen key right
  digit_seen row e =
      switch_vk-unnamed w law p cases (default_key p.vk_code) (
        no_name 48 57 (48 + (code key - 27)) (omega arith) (omega (arith, bounds)) law.no_digit
          place)
      ∙ ap (λ found. record { key = found; right = false })
          (ap default_key place ∙ default-digit (code key) bounds.0 bounds.1 ∙ cast-code key)
      ∙ plain_seen key right (ground (arith, bounds))
    where
      bounds : (27 ≤ code key) × (code key ≤ 36)
      bounds = between_bounds 27 (code key) 36 row

      place : p.vk_code ≡ 48 + (code key - 27)
      place = omega (arith, bounds)

  pub function_row_seen :
      between Key.f1 Key.f12 key ≡ true
      → p.vk_code ≡ (in_row (w.vk Vk.f1) Key.f1 key).vk
      → switch_vk w cases p (default_key p.vk_code) ≡ seen key right
  function_row_seen row e =
      elim (ℕ_discrete (code key) 73) [
        | yes first ↦ switch_vk-named w law p cases Vk.f1 (default_key p.vk_code) (omega arith)
        | no later ↦ switch_vk-unnamed w law p cases (default_key p.vk_code) (λ name f.
            elim (law.f_row_alone name (λ is_f1. omega (arith, ap w.vk is_f1, place, bounds))) [
              | inl below ↦ omega (arith, place)
              | inr above ↦ omega (arith, bounds, place)
            ])
      ]
      ∙ ap (λ found. record { key = found; right = false })
          (default-high p.vk_code (omega (arith, law.f_row_above, place)))
      ∙ function_seen key right (ground (arith, bounds))
    where
      bounds : (73 ≤ code key) × (code key ≤ 84)
      bounds = between_bounds 73 (code key) 84 row

      place : p.vk_code ≡ w.vk Vk.f1 + (code key - 73)
      place = omega (arith, bounds, law.f_row_small)
