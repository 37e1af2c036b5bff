-- ===== src/Base/Words.antt =====
-- Arithmetic of `uint64_t` and `size_t`.
use Prim.Native.Nat.{ℕ, ◌+◌, ◌-◌, ◌%◌, ◌^◌, ◌≤◌, ◌<◌}
use mathlib.Core.Path.{◌≡◌, ap, ◌∙◌}
use native.Mathlib.Omega.{arith}
use native.Mathlib.Nat.{mod-eq_of_lt, add-mod_right}

abbrev pub add64 : ℕ → ℕ → ℕ
add64 a b = (a + b) % 2 ^ 64

abbrev pub sub64 : ℕ → ℕ → ℕ
sub64 a b = (a + 2 ^ 64 - b) % 2 ^ 64

-- The same of a word of `w` bits.
abbrev pub add_word : ℕ → ℕ → ℕ → ℕ
add_word w a b = (a + b) % 2 ^ w

abbrev pub sub_word : ℕ → ℕ → ℕ → ℕ
sub_word w a b = (a + 2 ^ w - b) % 2 ^ w

-- No carry and no borrow.
pub add_word-eq : (w a b : ℕ) → a + b < 2 ^ w → add_word w a b ≡ a + b
add_word-eq w a b lt = mod-eq_of_lt lt

pub sub_word-eq : (w a b : ℕ) → b ≤ a → a < 2 ^ w → sub_word w a b ≡ a - b
sub_word-eq w a b le lt =
    ap (λ x. x % 2 ^ w) {x = a + 2 ^ w - b} {y = a - b + 2 ^ w} (omega arith)
    ∙ add-mod_right (a - b) (2 ^ w)
    ∙ mod-eq_of_lt (omega arith)
