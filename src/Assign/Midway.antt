-- ===== src/Assign/Midway.antt =====
-- What `find_augmenting_path` of `assign` has reached in the middle of a round, and what it has found
-- (cth/incl/cth/algorithm/combine.hpp).
use cth.Base.{ℕ, ◌≤◌, ◌<◌, ◌≡◌, ◌⊎◌, inl, inr, true, false, List, [], ◌∷◌, length, get_or, some}
use cth.Combine.{lookup}
use cth.Combine.Keys.{keys}
use cth.Combine.Lists.{has, later, Within}
use cth.Assign.{Flow, Search, residents}

module _ (options : List (List ℕ)) (b_count unassigned : ℕ) (f : Flow) (start : ℕ) where
  -- The a's that the search comes to: the first one, and the residents of the keys.
  abbrev pub Visited : List (ℕ × ℕ) → ℕ → Type 0
  Visited trail a =
      (a ≡ start) ⊎ ((b : ℕ) × (has (residents f b) a ≡ true) × (has (keys trail) b ≡ true))

  -- The b's in the order in which they were visited, the latest first, each with the a that offers it.
  abbrev pub Trail : List (ℕ × ℕ) → Type 0
  Trail [] = Unit
  Trail ((b, a) ∷ earlier) =
      (has (keys earlier) b ≡ false)
      × (has (get_or options a []) b ≡ true)
      × Visited earlier a
      × Trail earlier

  pub record IsSized (s : Search) : Type 0 where
    pub a_sized : length s.visited_a ≡ length options
    pub a_parents : length s.parent_a ≡ length options
    pub b_sized : length s.visited_b ≡ b_count
    pub b_parents : length s.parent_b ≡ b_count

  -- Within a round, `values` are left of the options of `current`; between rounds there are none.
  pub record IsMidway (current : ℕ) (values : List ℕ) (s : Search) (trail : List (ℕ × ℕ))
      (queue : List ℕ) : Type 0 where
    pub sized : IsSized s
    pub path : Trail trail
    pub marked_b : (b : ℕ) → b < b_count → get_or s.visited_b b true ≡ has (keys trail) b
    pub marked_a : (a : ℕ) → a < length options → get_or s.visited_a a true ≡ true → Visited trail a
    pub parents_b : (b a : ℕ) → lookup trail b ≡ some a → get_or s.parent_b b 0 ≡ a
    pub parents_a :
        (a b : ℕ)
        → has (residents f b) a ≡ true
        → has (keys trail) b ≡ true
        → get_or s.parent_a a 0 ≡ b
    pub queued : (a : ℕ) → has queue a ≡ true → Visited trail a
    pub full :
        (b : ℕ) → has (keys trail) b ≡ true → get_or f.current_b_max b 0 ≤ length (residents f b)
    pub covered :
        (a : ℕ)
        → Visited trail a
        → (has queue a ≡ true)
          ⊎ ((b : ℕ)
              → has (get_or options a []) b ≡ true
              → (has (keys trail) b ≡ true) ⊎ (a ≡ current) × (has values b ≡ true))
    pub visited : Visited trail current
    pub left : Within values (get_or options current [])

  -- A b with room at the end of a path.
  pub record IsFound (b : ℕ) (s : Search) (trail : List (ℕ × ℕ)) (a : ℕ) : Type 0 where
    pub sized : IsSized s
    pub path : Trail ((b, a) ∷ trail)
    pub parents_b : (at n : ℕ) → lookup ((b, a) ∷ trail) at ≡ some n → get_or s.parent_b at 0 ≡ n
    pub parents_a :
        (n at : ℕ)
        → has (residents f at) n ≡ true
        → has (keys trail) at ≡ true
        → get_or s.parent_a n 0 ≡ at
    pub room : length (residents f b) < get_or f.current_b_max b 0

  pub Visited-later :
      (p : ℕ × ℕ) (trail : List (ℕ × ℕ)) (a : ℕ) → Visited trail a → Visited (p ∷ trail) a
  Visited-later p trail a (inl first) = inl first
  Visited-later p trail a (inr (b, sits, key)) = inr (b, sits, later p.0 (keys trail) b key)
