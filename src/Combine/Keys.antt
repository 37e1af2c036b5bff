-- ===== src/Combine/Keys.antt =====
-- The parents and the matching that `find_augmenting_path` of cth/incl/cth/algorithm/combine.hpp works
-- on, and how many rounds are left.
use cth.Base.{
  ℕ, zero, suc, ◌+◌, ◌≤◌, ◌≡◌, refl, ap, ◌∙◌, true, false, List, [], ◌∷◌, length, get_or,
  if◌then◌else◌, if-true, if-false, ◌≢◌, arith, Option, none, some, ◌==◌, ==_iff,
}
use cth.Combine.{lookup, Matching}
use cth.Combine.Lists.{has, has-other}

abbrev pub keys : List (ℕ × ℕ) → List ℕ
keys [] = []
keys ((node, selection) ∷ others) = node ∷ keys others

pub lookup-keys :
    (parents : List (ℕ × ℕ)) (node : ℕ)
    → lookup parents node ≡ none
    → has (keys parents) node ≡ false
lookup-keys [] node missing = refl
lookup-keys ((key, selection) ∷ others) node missing = ground (arith, lookup-keys others node)

pub lookup-has :
    (parents : List (ℕ × ℕ)) (node selection : ℕ)
    → lookup parents node ≡ some selection
    → has (keys parents) node ≡ true
lookup-has [] node selection present = cc
lookup-has ((key, s) ∷ others) node selection present =
    ground (arith, lookup-has others node selection)

pub lookup-here : (node r : ℕ) (earlier : List (ℕ × ℕ)) → lookup ((node, r) ∷ earlier) node ≡ some r
lookup-here node r earlier = if-true ((==_iff node node).1 refl) (some r) (lookup earlier node)

lookup-has_key :
    (earlier : List (ℕ × ℕ)) (node r : ℕ)
    → lookup earlier node ≡ some r
    → has (keys earlier) node ≡ true
lookup-has_key [] node r e = cc
lookup-has_key ((key, s) ∷ earlier) node r e = ground (arith, lookup-has_key earlier node r)

pub lookup-later :
    (key s : ℕ) (earlier : List (ℕ × ℕ)) (node r : ℕ)
    → has (keys earlier) key ≡ false
    → lookup earlier node ≡ some r
    → lookup ((key, s) ∷ earlier) node ≡ some r
lookup-later key s earlier node r fresh e =
    if-false
      (==_no key node (has-other (keys earlier) key node fresh (lookup-has_key earlier node r e)))
      (some s) (lookup earlier node)
    ∙ e
  where
    ==_no : (a b : ℕ) → a ≢ b → (a == b) ≡ false
    ==_no a b other = ground arith

pub some-injective : {a b : ℕ} → some a ≡ some b → a ≡ b
some-injective {a = a} e = ap (λ o. elim o [ none ↦ a | some n ↦ n ]) e

-- The nodes and the selections have each other.
pub record IsMatching (selections : List (List ℕ)) (m : Matching) : Type 0 where
  pub sized : length m.chosen ≡ length selections
  pub owned : (i node : ℕ) → get_or m.chosen i none ≡ some node → m.owner node ≡ some i
  pub chose : (i node : ℕ) → m.owner node ≡ some i → get_or m.chosen i none ≡ some node
  pub offered :
      (i node : ℕ) → get_or m.chosen i none ≡ some node → has (get_or selections i []) node ≡ true

-- The nodes of a matching that are no keys yet, which bound the rounds that are left.
abbrev pub unreached : List ℕ → List (Option ℕ) → ℕ
unreached reached [] = 0
unreached reached (none ∷ others) = unreached reached others
unreached reached (some node ∷ others) =
    if has reached node then unreached reached others else suc (unreached reached others)

unreached_le :
    (reached : List ℕ) (node : ℕ) (chosen : List (Option ℕ))
    → unreached (node ∷ reached) chosen ≤ unreached reached chosen
unreached_le reached node [] = omega arith
unreached_le reached node (none ∷ others) = unreached_le reached node others
unreached_le reached node (some other ∷ others) = ground (arith, unreached_le reached node others)

pub unreached_lt :
    (reached : List ℕ) (node : ℕ) (chosen : List (Option ℕ)) (i : ℕ)
    → has reached node ≡ false
    → get_or chosen i none ≡ some node
    → unreached (node ∷ reached) chosen + 1 ≤ unreached reached chosen
unreached_lt reached node [] i absent at = cc
unreached_lt reached node (none ∷ others) zero absent at = cc
unreached_lt reached node (none ∷ others) (suc i) absent at =
    unreached_lt reached node others i absent at
unreached_lt reached node (some other ∷ others) zero absent at =
    let same = some-injective at in
    ground (arith, unreached_le reached node others, same, ap (has reached) same ∙ absent)
unreached_lt reached node (some other ∷ others) (suc i) absent at =
    ground (arith, unreached_lt reached node others i absent at)

pub unreached-length : (chosen : List (Option ℕ)) → unreached [] chosen ≤ length chosen
unreached-length [] = omega arith
unreached-length (none ∷ others) = omega (arith, unreached-length others)
unreached-length (some node ∷ others) = omega (arith, unreached-length others)
