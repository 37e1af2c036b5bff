-- ===== src/Keyboard/Choices.antt =====
-- The chain of tests that `to_win_key` begins with (cth_win/src/cth/win/io/win_key_convert.hpp).
use cth.Base.{◌≡◌, refl, Bool, true, false, if◌then◌else◌}

-- What a choice of branches has, each branch has, under the answers that lead to it.
pub choices {ℓ} :
    {A : Type ℓ} (a b c : Bool) (x y z v : A) (P : A → Type 0)
    → (a ≡ true → P x)
    → (b ≡ true → P y)
    → (c ≡ true → P z)
    → (a ≡ false → b ≡ false → c ≡ false → P v)
    → P (if a then x else if b then y else if c then z else v)
choices true b c x y z v P at_a at_b at_c otherwise = at_a refl
choices false true c x y z v P at_a at_b at_c otherwise = at_b refl
choices false false true x y z v P at_a at_b at_c otherwise = at_c refl
choices false false false x y z v P at_a at_b at_c otherwise = otherwise refl refl refl
