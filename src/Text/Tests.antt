-- ===== src/Text/Tests.antt =====
-- Small runs of the text helpers, and their theorems applied to them.
use cth.Base.{ℕ, ◌≡◌, ◌↔◌, refl, some, List, [], ◌∷◌, arith}
use cth.Text.{to_num, split}
use cth.Text.Number.{decimal, to_num-decimal}
use cth.Text.Split.{IsSplit, split_iff}

to_num-decimal_example : to_num 32 (decimal 321 320) ≡ some 320
to_num-decimal_example = to_num-decimal 32 320 (omega arith)

abbrev words : List ℕ
words = 44 ∷ 97 ∷ 98 ∷ 44 ∷ 44 ∷ 99 ∷ []

split_iff_example :
    IsSplit 44 words ((97 ∷ 98 ∷ []) ∷ (99 ∷ []) ∷ [])
    ↔ (split 44 words ≡ (97 ∷ 98 ∷ []) ∷ (99 ∷ []) ∷ [])
split_iff_example = split_iff 44 words ((97 ∷ 98 ∷ []) ∷ (99 ∷ []) ∷ [])

words_parts : split 44 words ≡ (97 ∷ 98 ∷ []) ∷ (99 ∷ []) ∷ []
unfolding split
words_parts = refl
