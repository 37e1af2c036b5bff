-- ===== src/Combine/Tests.antt =====
-- Tests of `unique_combine`.
use cth.Base.{ℕ, ◌≡◌, ◌⊎◌, refl, List, [], ◌∷◌, ok}
use cth.Combine.{unique_combine, combine_loop, find_loop, flip_loop, take_out}
use cth.Combine.DeadEnd.{Picks}
use cth.Combine.Unique.{unique_combine-Picks}

-- The first two selections give way to the third one.
abbrev selections : List (List ℕ)
selections = (1 ∷ 2 ∷ []) ∷ (2 ∷ 3 ∷ []) ∷ (1 ∷ []) ∷ []

gives_way : unique_combine selections ≡ ok (2 ∷ 3 ∷ 1 ∷ [])
unfolding unique_combine combine_loop find_loop flip_loop take_out
gives_way = refl

dead_end : unique_combine ((1 ∷ []) ∷ (1 ∷ []) ∷ []) ≡ ok []
unfolding unique_combine combine_loop find_loop flip_loop take_out
dead_end = refl

unique_combine-Picks_example :
    (out : List ℕ) × (unique_combine selections ≡ ok out)
    × (Picks selections out ⊎ (out ≡ []) × ((picks : List ℕ) → Picks selections picks → ⊥))
unique_combine-Picks_example = unique_combine-Picks selections
