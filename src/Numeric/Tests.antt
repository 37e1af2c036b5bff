-- ===== src/Numeric/Tests.antt =====
-- Small runs of the numeric helpers, and their theorems applied to them.
use cth.Base.{◌+◌, ◌%◌, ◌^◌, ◌≤◌, ◌<◌, ◌≡◌, ok, arith}
use cth.Numeric.{pow, align_to_padded}
use cth.Numeric.Power.{pow-eq}
use cth.Numeric.Align.{align_to_padded-above}

pow-eq_example : pow 32 32 3 5 ≡ ok (3 ^ 5 % 2 ^ 32)
pow-eq_example = pow-eq 32 32 3 5 (omega arith) (omega arith)

align_to_padded-above_example :
    (12 < align_to_padded 32 6 12)
    × (align_to_padded 32 6 12 ≤ 12 + 6)
    × (align_to_padded 32 6 12 % 6 ≡ 0)
    × (12 % 6 ≡ 0 → align_to_padded 32 6 12 ≡ 12 + 6)
align_to_padded-above_example = align_to_padded-above 32 6 12 (omega arith) (omega arith)
