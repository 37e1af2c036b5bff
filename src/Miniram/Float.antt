-- ===== src/Miniram/Float.antt =====
-- The size classes of basic_miniram: a size as a float of three mantissa bits
-- (cth/incl/cth/data/inl/miniram.inl). `w` is the number of bits of `size_type`.
pub mod Units
pub mod Laws
use cth.Base.{ℕ, ◌+◌, ◌-◌, ◌*◌, ◌/◌, ◌%◌, ◌^◌, ltb, ◌==◌, if◌then◌else◌}
use cth.Base.Bits.{highest_bit}

-- `MANTISSA_BITS`, `MANTISSA_VALUE` and `BINS_PER_LEAF`
abbrev pub mantissa_bits : ℕ
mantissa_bits = 3

abbrev pub mantissa_value : ℕ
mantissa_value = 8

-- `x & MANTISSA_MASK` is `x % mantissa_value`, and `|` joins numbers with no common bit.
unfoldable pub floor_to_float : ℕ → ℕ → ℕ
floor_to_float w size =
    let begin = highest_bit w size - mantissa_bits in
    if ltb size mantissa_value
    then size
    else (begin + 1) * mantissa_value + size / 2 ^ begin % mantissa_value

unfoldable pub ceil_to_float : ℕ → ℕ → ℕ
ceil_to_float w size =
    let begin = highest_bit w size - mantissa_bits in
    let mantissa = size / 2 ^ begin % mantissa_value in
    if ltb size mantissa_value
    then size
    else if size % 2 ^ begin == 0
    then (begin + 1) * mantissa_value + mantissa
    else (begin + 1) * mantissa_value + (mantissa + 1)

-- The size that a float stands for.
unfoldable pub float_size : ℕ → ℕ
float_size f =
    if ltb f mantissa_value
    then f
    else (f % mantissa_value + mantissa_value) * 2 ^ (f / mantissa_value - 1)

-- `to_uint(float_value)`: the shift drops the bits from `w` on.
unfoldable pub to_uint : ℕ → ℕ → ℕ
unfolding float_size
to_uint w f = float_size f % 2 ^ w
