-- ===== src/Numeric.antt =====
-- cth/incl/cth/numeric.hpp on unsigned integers of `w` bits, at least as wide as `int`.
pub mod Power
pub mod Align
mod Tests
use cth.Base.{
  ℕ, zero, suc, ◌+◌, ◌-◌, ◌*◌, ◌/◌, ◌%◌, ◌^◌, Bool, ◌&&◌, Result, ok, critical, diverged, ◌>>◌,
  check, leb, ltb, ◌==◌, if◌then◌else◌, max, min,
}
use cth.Base.Words.{add_word, sub_word}

-- The loop of `pow`: a round for each unit of fuel.
pub pow_loop : ℕ → ℕ → ℕ → ℕ → ℕ → Result ℕ
pow_loop w zero result base power = if power == 0 then ok result else diverged
pow_loop w (suc fuel) result base power =
    let rest =
      pow_loop w fuel (if power % 2 == 1 then result * base % 2 ^ w else result)
        (base * base % 2 ^ w) (power / 2) in
    if power == 0 then ok result else rest

-- `pow(base, power)` with an unsigned power of `v` bits; the check `power < 0` never fails.
unfoldable pub pow : ℕ → ℕ → ℕ → ℕ → Result ℕ
unfolding pow_loop
pow w v base power = pow_loop w v 1 base power

-- `align_to<2 ^ k>(unaligned)`: the bits below `k` are cleared.
unfoldable pub align_to_power : ℕ → ℕ → ℕ → ℕ
align_to_power w k unaligned = add_word w unaligned (2 ^ k - 1) / 2 ^ k * 2 ^ k

-- `align_to<multiple>(unaligned)` of a multiple that is no power of two.
unfoldable pub align_to_padded : ℕ → ℕ → ℕ → ℕ
align_to_padded w multiple unaligned = add_word w unaligned (multiple - unaligned % multiple)
