-- ===== src/Combine/Search.antt =====
-- What one round of `find_augmenting_path` of cth/incl/cth/algorithm/combine.hpp adds to what the search
-- knows.
use cth.Base.{
  ℕ, ◌+◌, ◌≤◌, ◌≡◌, ◌⊎◌, inl, inr, refl, sym, ap, ◌∙◌, true, false, List, [], ◌∷◌, ◌++◌, length,
  length-append, get_or, arith, Option, none, some,
}
use cth.Combine.{lookup, Matching, Scan, found, more, scan}
use cth.Combine.Lists.{
  has, Within, has_cases, here, here_eq, later, append_cases, append_last, append_first, not_both,
}
use cth.Combine.Keys.{
  keys, lookup-keys, lookup-has, some-injective, IsMatching, unreached, unreached_lt,
}

module _ (selections : List (List ℕ)) (m : Matching) (start : ℕ) where
  -- The selections that the search comes to: the first one, and the owners of the keys.
  abbrev pub Visited : List (ℕ × ℕ) → ℕ → Type 0
  Visited parents r =
      (r ≡ start)
      ⊎ ((node : ℕ) × (get_or m.chosen r none ≡ some node) × (has (keys parents) node ≡ true))

  -- Each key is new, and offered by a selection that was visited before.
  abbrev pub Trail : List (ℕ × ℕ) → Type 0
  Trail [] = Unit
  Trail ((node, r) ∷ earlier) =
      (has (keys earlier) node ≡ false)
      × (has (get_or selections r []) node ≡ true)
      × Visited earlier r
      × Trail earlier

  -- Between two rounds: each visited selection waits or is done, and no key is free.
  pub record IsSearched (parents : List (ℕ × ℕ)) (queue : List ℕ) : Type 0 where
    pub trail : Trail parents
    pub queued : (r : ℕ) → has queue r ≡ true → Visited parents r
    pub claimed : (node : ℕ) → has (keys parents) node ≡ true → (i : ℕ) × (m.owner node ≡ some i)
    pub covered :
        (r : ℕ)
        → Visited parents r
        → (has queue r ≡ true) ⊎ Within (get_or selections r []) (keys parents)

  -- Within a round, `values` are left of the selection `current`.
  pub record IsMidway (current : ℕ) (values : List ℕ) (parents : List (ℕ × ℕ)) (queue : List ℕ)
      : Type 0 where
    pub trail : Trail parents
    pub queued : (r : ℕ) → has queue r ≡ true → Visited parents r
    pub claimed : (node : ℕ) → has (keys parents) node ≡ true → (i : ℕ) × (m.owner node ≡ some i)
    pub covered :
        (r : ℕ)
        → Visited parents r
        → (has queue r ≡ true)
          ⊎ ((node : ℕ)
              → has (get_or selections r []) node ≡ true
              → (has (keys parents) node ≡ true) ⊎ (r ≡ current) × (has values node ≡ true))
    pub visited : Visited parents current
    pub left : Within values (get_or selections current [])

  -- What a round ends with.
  abbrev pub Outcome : ℕ → Scan → Type 0
  Outcome rounds (found node parents) =
      Trail parents × (has (keys parents) node ≡ true) × (m.owner node ≡ none)
  Outcome rounds (more parents queue) =
      IsSearched parents queue × (length queue + unreached (keys parents) m.chosen ≤ rounds)

  Visited-later :
      (p : ℕ × ℕ) (parents : List (ℕ × ℕ)) (r : ℕ) → Visited parents r → Visited (p ∷ parents) r
  Visited-later p parents r (inl first) = inl first
  Visited-later p parents r (inr (node, at, key)) =
      inr (node, at, later p.0 (keys parents) node key)

  module _ (law : IsMatching selections m) (current node : ℕ) (values : List ℕ)
      (parents : List (ℕ × ℕ)) (queue : List ℕ) where
    skip-IsMidway :
        IsMidway current (node ∷ values) parents queue
        → has (keys parents) node ≡ true
        → IsMidway current values parents queue
    skip-IsMidway mid key = record {
      trail = mid.trail;
      queued = mid.queued;
      claimed = mid.claimed;
      covered = λ r v. elim (mid.covered r v) [
        | inl waits ↦ inl waits
        | inr knows ↦ inr (λ value offered. elim (knows value offered) [
          | inl reached ↦ inl reached
          | inr (same, member) ↦ elim (has_cases node values value member) [
            | inl first ↦ inl (ap (has (keys parents)) (sym first) ∙ key)
            | inr deeper ↦ inr (same, deeper)
          ]
        ])
      ];
      visited = mid.visited;
      left = λ value member. mid.left value (later node values value member);
    }

    abbrev Covers : ℕ → ℕ → Type 0
    Covers selection r =
        (has (queue ++ selection ∷ []) r ≡ true)
        ⊎ ((value : ℕ)
            → has (get_or selections r []) value ≡ true
            → (has (node ∷ keys parents) value ≡ true) ⊎ (r ≡ current) × (has values value ≡ true))

    older-Covers :
        (selection : ℕ)
        → IsMidway current (node ∷ values) parents queue
        → (r : ℕ) → Visited parents r
        → Covers selection r
    older-Covers selection mid r v = elim (mid.covered r v) [
      | inl waits ↦ inl (append_first queue selection r waits)
      | inr knows ↦ inr (λ value offered. elim (knows value offered) [
        | inl reached ↦ inl (later node (keys parents) value reached)
        | inr (same, member) ↦ elim (has_cases node values value member) [
          | inl first ↦ inl (here_eq node (keys parents) value first)
          | inr deeper ↦ inr (same, deeper)
        ]
      ])
    ]

    push-Covers :
        (selection : ℕ)
        → IsMidway current (node ∷ values) parents queue
        → m.owner node ≡ some selection
        → (r : ℕ) → Visited ((node, current) ∷ parents) r
        → Covers selection r
    push-Covers selection mid owns r (inl first) = older-Covers selection mid r (inl first)
    push-Covers selection mid owns r (inr (other, at, key)) =
        elim (has_cases node (keys parents) other key) [
          | inl same ↦ inl (
              append_last queue selection r
                (some-injective (sym owns ∙ ap m.owner same ∙ law.owned r other at)))
          | inr old ↦ older-Covers selection mid r (inr (other, at, old))
        ]

    push-IsMidway :
        (selection : ℕ)
        → IsMidway current (node ∷ values) parents queue
        → lookup parents node ≡ none
        → m.owner node ≡ some selection
        → IsMidway current values ((node, current) ∷ parents) (queue ++ selection ∷ [])
    push-IsMidway selection mid missing owns = record {
      trail = (
        lookup-keys parents node missing,
        mid.left node (here node values),
        mid.visited,
        mid.trail,
      );
      queued = λ r waits. elim (append_cases queue selection r waits) [
        | inl same ↦ inr (
          node,
          ap (λ i. get_or m.chosen i none) (sym same) ∙ law.chose selection node owns,
          here node (keys parents),
        )
        | inr old ↦ Visited-later (node, current) parents r (mid.queued r old)
      ];
      claimed = λ value key. elim (has_cases node (keys parents) value key) [
        | inl same ↦ (selection, ap m.owner (sym same) ∙ owns)
        | inr old ↦ mid.claimed value old
      ];
      covered = push-Covers selection mid owns;
      visited = Visited-later (node, current) parents current mid.visited;
      left = λ value member. mid.left value (later node values value member);
    }

    scan_step :
        (rounds : ℕ) (looked owned : Option ℕ)
        → IsMidway current (node ∷ values) parents queue
        → length queue + unreached (keys parents) m.chosen ≤ rounds
        → lookup parents node ≡ looked
        → m.owner node ≡ owned
        → ((more_parents : List (ℕ × ℕ)) (longer : List ℕ)
            → IsMidway current values more_parents longer
            → length longer + unreached (keys more_parents) m.chosen ≤ rounds
            → Outcome rounds (scan m.owner current values more_parents longer))
        → Outcome rounds (elim looked [
          | some _ ↦ scan m.owner current values parents queue
          | none ↦ elim owned [
            | none ↦ found node ((node, current) ∷ parents)
            | some selection ↦
                scan m.owner current values ((node, current) ∷ parents) (queue ++ selection ∷ [])
          ]
        ])
    scan_step rounds (some r) owned mid bound looks owns rest =
        rest parents queue (skip-IsMidway mid (lookup-has parents node r looks)) bound
    scan_step rounds none none mid bound looks owns rest = (
      (lookup-keys parents node looks, mid.left node (here node values), mid.visited, mid.trail),
      here node (keys parents),
      owns,
    )
    scan_step rounds none (some selection) mid bound looks owns rest =
        rest ((node, current) ∷ parents) (queue ++ selection ∷ [])
          (push-IsMidway selection mid looks owns)
          (omega (
            arith,
            length-append queue (selection ∷ []),
            unreached_lt (keys parents) node m.chosen selection (lookup-keys parents node looks)
                (law.chose selection node owns),
          ))

  pub scan-Outcome :
      IsMatching selections m
      → (current : ℕ) (values : List ℕ) (parents : List (ℕ × ℕ)) (queue : List ℕ) (rounds : ℕ)
      → IsMidway current values parents queue
      → length queue + unreached (keys parents) m.chosen ≤ rounds
      → Outcome rounds (scan m.owner current values parents queue)
  scan-Outcome law current [] parents queue rounds mid bound = (
    record {
      trail = mid.trail;
      queued = mid.queued;
      claimed = mid.claimed;
      covered = λ r v. elim (mid.covered r v) [
        | inl waits ↦ inl waits
        | inr knows ↦ inr (λ value offered. elim (knows value offered) [
          | inl reached ↦ reached
          | inr (same, member) ↦ absurd (not_both false member refl)
        ])
      ];
    },
    bound,
  )
  scan-Outcome law current (node ∷ values) parents queue rounds mid bound =
      scan_step law current node values parents queue rounds (lookup parents node) (m.owner node)
        mid bound refl refl
        (λ more_parents longer. scan-Outcome law current values more_parents longer rounds)
