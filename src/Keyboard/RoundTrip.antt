-- ===== src/Keyboard/RoundTrip.antt =====
-- What Windows is sent for a key, read back as a key (cth_win/src/cth/win/io/win_key_convert.hpp).
use cth.Base.{
  ℕ, ◌≡◌, ◌≢◌, ◌↔◌, ◌⊎◌, inl, inr, refl, sym, ap, ap₂, ◌∙◌, Bool, true, false, not, ◌==◌,
  if◌then◌else◌, arith, Result, ok, critical, check, ◌>>=◌, ◌>>◌,
}
use cth.Base.Bits.{set_bit, bit-set_bit, zero-bit}
use cth.Keys.{Key, ExKey, KeyState}
use cth.Keyboard.Windows.{Vk, Windows, IsWindows}
use cth.Keyboard.Seen.{seen, has_virtual_key}
use cth.Keyboard.Send.{
  WinKey, Input, between, in_row, switch_key, choose_vk, to_win_key, to_win_input,
}
use cth.Keyboard.Receive.{WinKeyParams, cases, switch_vk, default_key, flag, to_key_state_generic}
use cth.Keyboard.Switched.{switched, switch_key-flags}
use cth.Keyboard.Choices.{choices}
use cth.Keyboard.Virtual.{choose_vk-virtual}
use cth.Keyboard.Rows.{letter_seen, digit_seen, function_row_seen}

-- What follows the check of a virtual key.
abbrev after_check : Windows → Bool → WinKey → Result Input
after_check w down key = (check (key.vk == 0) >> ok key) >>= λ it.
    ok (record { vk = it.vk; flags = if down then it.flags else set_bit it.flags w.keyup })

after_check-ok :
    (w : Windows) (down : Bool) (key : WinKey) (sent : Input)
    → after_check w down key ≡ ok sent
    → (key.vk ≢ 0)
      × (sent.vk ≡ key.vk)
      × (sent.flags ≡ (if down then key.flags else set_bit key.flags w.keyup))
after_check-ok w down key sent e = ground arith

after_check_iff :
    (w : Windows) (down : Bool) (key : WinKey) → (after_check w down key ≡ critical) ↔ (key.vk ≡ 0)
after_check_iff w down key = ground arith

module _ (w : Windows) (law : IsWindows w) where
  choose_vk-seen :
      (p : WinKeyParams) (x : ExKey)
      → p.vk_code ≢ 0
      → p.vk_code ≡ (choose_vk w x).vk
      → switch_vk w cases p (default_key p.vk_code) ≡ seen x.key x.right
  choose_vk-seen p x ne =
      choices (between Key.a Key.z x.key) (between Key.digit_0 Key.digit_9 x.key)
        (between Key.f1 Key.f12 x.key) (in_row 65 Key.a x.key) (in_row 48 Key.digit_0 x.key)
        (in_row (w.vk Vk.f1) Key.f1 x.key) (switch_key w x.key x.right)
        (λ chosen.
          p.vk_code ≡ chosen.vk → switch_vk w cases p (default_key p.vk_code) ≡ seen x.key x.right)
        (letter_seen w law p x.key x.right) (digit_seen w law p x.key x.right)
        (function_row_seen w law p x.key x.right) (λ _ _ _ e. switched w law p x.key x.right e ne)

  no_keyup :
      (flags : ℕ) → (flags ≡ 0) ⊎ (flags ≡ set_bit 0 w.extendedkey) → flag flags w.keyup ≡ false
  no_keyup flags (inl e) = rw (e, zero-bit) refl
  no_keyup flags (inr e) = rw (e, bit-set_bit, zero-bit) (ground (arith, law.flags_differ))

  choose_vk-flags : (x : ExKey) → flag (choose_vk w x).flags w.keyup ≡ false
  choose_vk-flags x =
      choices (between Key.a Key.z x.key) (between Key.digit_0 Key.digit_9 x.key)
        (between Key.f1 Key.f12 x.key) (in_row 65 Key.a x.key) (in_row 48 Key.digit_0 x.key)
        (in_row (w.vk Vk.f1) Key.f1 x.key) (switch_key w x.key x.right)
        (λ chosen. flag chosen.flags w.keyup ≡ false) (λ _. no_keyup 0 (inl refl))
        (λ _. no_keyup 0 (inl refl)) (λ _. no_keyup 0 (inl refl))
        (λ _ _ _. no_keyup (switch_key w x.key x.right).flags (switch_key-flags w x.key x.right))

  not-not : (b : Bool) → not (not b) ≡ b
  not-not b = ground arith

  keyup_flag :
      (down : Bool) (flags : ℕ)
      → flag flags w.keyup ≡ false
      → flag (if down then flags else set_bit flags w.keyup) w.keyup ≡ not down
  keyup_flag true flags e = e
  keyup_flag false flags e = rw bit-set_bit (ground arith)

  -- What Windows is sent for a key is read back as the same key going up or down, whatever scan code
  -- and extended flag come with it, but for the side of a key that has no sides, the keys HASH and
  -- LESS_THAN, which come back as BACKTICK and COMMA, and F1 to F12, which come back as NONE.
  pub send-receive :
      (s : KeyState) (sent : Input) (p : WinKeyParams)
      → to_win_input w s ≡ ok sent
      → p.vk_code ≡ sent.vk
      → p.is_up ≡ flag sent.flags w.keyup
      → to_key_state_generic w p
        ≡ record { ex_key = seen s.ex_key.key s.ex_key.right; down = s.down }
  unfolding to_win_input to_win_key to_key_state_generic
  send-receive s sent p e same_vk same_up =
      ap₂ (λ x goes_down. record { ex_key = x; down = goes_down })
        (choose_vk-seen p s.ex_key (λ zero. sent_parts.0 (sym (same_vk ∙ sent_parts.1) ∙ zero))
          (same_vk ∙ sent_parts.1))
        (ap not (
            same_up
            ∙ ap (λ flags. flag flags w.keyup) sent_parts.2
            ∙ keyup_flag s.down (choose_vk w s.ex_key).flags (choose_vk-flags s.ex_key))
          ∙ not-not s.down)
    where
      sent_parts :
          ((choose_vk w s.ex_key).vk ≢ 0)
          × (sent.vk ≡ (choose_vk w s.ex_key).vk)
          × (sent.flags ≡ (
              if s.down
              then (choose_vk w s.ex_key).flags
              else set_bit (choose_vk w s.ex_key).flags w.keyup))
      sent_parts = after_check-ok w s.down (choose_vk w s.ex_key) sent e

  -- Sending a key to Windows fails its check exactly for NONE and the custom keys.
  pub to_win_input_iff :
      (s : KeyState) → (to_win_input w s ≡ critical) ↔ (has_virtual_key s.ex_key.key ≡ false)
  unfolding to_win_input to_win_key
  to_win_input_iff s = (
    (λ fails.
        (choose_vk-virtual w law s.ex_key).0
          ((after_check_iff w s.down (choose_vk w s.ex_key)).0 fails)),
    (λ unknown.
        (after_check_iff w s.down (choose_vk w s.ex_key)).1
          ((choose_vk-virtual w law s.ex_key).1 unknown)),
  )
