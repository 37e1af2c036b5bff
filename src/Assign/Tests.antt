-- ===== src/Assign/Tests.antt =====
-- Tests of `assign`.
use cth.Base.{ℕ, ◌≡◌, ◌⊎◌, refl, arith, List, [], ◌∷◌, ok, critical}
use cth.Assign.Stuck.{Assigns}
use cth.Assign.Whole.{assign-Assigns}
use cth.Assign.{assign, water_loop, place_loop, shift_loop, find_augmenting_path, path_loop}

-- Three a's and two b's, of which the second has room for two.
abbrev options : List (List ℕ)
options = (1 ∷ []) ∷ (0 ∷ 1 ∷ []) ∷ (0 ∷ []) ∷ []

spreads : assign options (1 ∷ 2 ∷ []) 255 ≡ ok (1 ∷ 1 ∷ 0 ∷ [])
unfolding assign water_loop place_loop shift_loop find_augmenting_path path_loop
spreads = refl

no_room : assign options (1 ∷ 1 ∷ []) 255 ≡ ok []
unfolding assign water_loop place_loop shift_loop find_augmenting_path path_loop
no_room = refl

out_of_range : assign ((2 ∷ []) ∷ []) (1 ∷ 1 ∷ []) 255 ≡ critical
unfolding assign
out_of_range = refl

assign-Assigns_example :
    (out : List ℕ) × (assign options (1 ∷ 2 ∷ []) 255 ≡ ok out)
    × (Assigns options (1 ∷ 2 ∷ []) out
        ⊎ (out ≡ []) × ((picks : List ℕ) → Assigns options (1 ∷ 2 ∷ []) picks → ⊥))
assign-Assigns_example = assign-Assigns options (1 ∷ 2 ∷ []) 255 refl (omega arith)
