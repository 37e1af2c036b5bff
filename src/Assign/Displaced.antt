-- ===== src/Assign/Displaced.antt =====
-- The loop over the residents of a full b in `assign` (cth/incl/cth/algorithm/combine.hpp).
use cth.Base.{
  ℕ, zero, suc, ◌+◌, ◌<◌, ◌≡◌, refl, sym, ap, subst, ◌∙◌, Bool, true, false, List, [], ◌∷◌, ◌++◌,
  length, length-append, length-set, get_or, set, get_or-set_self, get_or-set_ne, ◌==◌, ==_iff,
  if◌then◌else◌, if-true, if-false, arith, ℕ_discrete,
}
use cth.Combine.Lists.{has, has-append, has-other, here, later, Distinct}
use cth.Assign.{Search, visit_a, displace}
use cth.Assign.Seats.{==_no}

-- How many a's were not visited.
abbrev pub unvisited : List Bool → ℕ
unvisited [] = 0
unvisited (true ∷ others) = unvisited others
unvisited (false ∷ others) = suc (unvisited others)

pub set-unvisited :
    (visited : List Bool) (a : ℕ)
    → get_or visited a true ≡ false
    → unvisited (set visited a true) + 1 ≡ unvisited visited
set-unvisited [] a free = cc
set-unvisited (true ∷ others) zero free = cc
set-unvisited (false ∷ others) zero free = omega arith
set-unvisited (true ∷ others) (suc a) free = set-unvisited others a free
set-unvisited (false ∷ others) (suc a) free = omega (arith, set-unvisited others a free)

free-lt : (visited : List Bool) (a : ℕ) → get_or visited a true ≡ false → a < length visited
free-lt [] a free = cc
free-lt (first ∷ others) zero free = omega arith
free-lt (first ∷ others) (suc a) free = omega (arith, free-lt others a free)

pub record Displaced (b : ℕ) (seats : List ℕ) (s : Search) (queue : List ℕ) (t : Search)
    (longer : List ℕ) : Type 0 where
  pub same_visited_b : t.visited_b ≡ s.visited_b
  pub same_parent_b : t.parent_b ≡ s.parent_b
  pub same_length : length t.visited_a ≡ length s.visited_a
  pub same_parents : length t.parent_a ≡ length s.parent_a
  pub visited :
      (a : ℕ)
      → get_or t.visited_a a true ≡ (if has seats a then true else get_or s.visited_a a true)
  pub parent : (a : ℕ) → get_or t.parent_a a 0 ≡ (if has seats a then b else get_or s.parent_a a 0)
  pub queued : (a : ℕ) → has longer a ≡ (if has queue a then true else has seats a)
  pub measure : length longer + unvisited t.visited_a ≡ length queue + unvisited s.visited_a

visit_a-visited :
    (s : Search) (a b at : ℕ)
    → a < length s.visited_a
    → get_or (visit_a s a b).visited_a at true
      ≡ (if a == at then true else get_or s.visited_a at true)
visit_a-visited s a b at bound = elim (ℕ_discrete a at) [
  | yes same ↦
      ap (λ i. get_or (set s.visited_a a true) i true) (sym same)
      ∙ get_or-set_self s.visited_a a true true bound
      ∙ sym (if-true ((==_iff a at).1 same) true (get_or s.visited_a at true))
  | no other ↦
      get_or-set_ne s.visited_a a at true true other
      ∙ sym (if-false (==_no a at other) true (get_or s.visited_a at true))
]

visit_a-parent :
    (s : Search) (a b at : ℕ)
    → a < length s.parent_a
    → get_or (visit_a s a b).parent_a at 0 ≡ (if a == at then b else get_or s.parent_a at 0)
visit_a-parent s a b at bound = elim (ℕ_discrete a at) [
  | yes same ↦
      ap (λ i. get_or (set s.parent_a a b) i 0) (sym same)
      ∙ get_or-set_self s.parent_a a b 0 bound
      ∙ sym (if-true ((==_iff a at).1 same) b (get_or s.parent_a at 0))
  | no other ↦
      get_or-set_ne s.parent_a a at b 0 other
      ∙ sym (if-false (==_no a at other) b (get_or s.parent_a at 0))
]

module _ (b first : ℕ) (others : List ℕ) (s : Search) (queue : List ℕ)
    (sizes : length s.parent_a ≡ length s.visited_a)
    (is_free : get_or s.visited_a first true ≡ false) where
  bound : first < length s.visited_a
  bound = free-lt s.visited_a first is_free

  others_free :
      Distinct (first ∷ others)
      → ((a : ℕ) → has (first ∷ others) a ≡ true → get_or s.visited_a a true ≡ false)
      → (a : ℕ) → has others a ≡ true
      → get_or (visit_a s first b).visited_a a true ≡ false
  others_free d free a member =
      visit_a-visited s first b a bound
      ∙ if-false (==_no first a (has-other others first a d.0 member)) true
          (get_or s.visited_a a true)
      ∙ free a (later first others a member)

  first_Displaced :
      (rest : Search × List ℕ)
      → Displaced b others (visit_a s first b) (queue ++ first ∷ []) rest.0 rest.1
      → Displaced b (first ∷ others) s queue rest.0 rest.1
  first_Displaced rest moved = record {
    same_visited_b = moved.same_visited_b;
    same_parent_b = moved.same_parent_b;
    same_length = moved.same_length ∙ length-set s.visited_a first true;
    same_parents = moved.same_parents ∙ length-set s.parent_a first b;
    visited = λ a. ground (arith, moved.visited a, visit_a-visited s first b a bound);
    parent = λ a.
        ground (arith, moved.parent a, visit_a-parent s first b a (omega (arith, bound, sizes)));
    queued = λ a. ground (arith, moved.queued a, has-append queue first a);
    measure = omega (
      arith,
      moved.measure,
      length-append queue (first ∷ []),
      set-unvisited s.visited_a first is_free,
    );
  }

-- The residents, of whom none was visited, are visited and queued, and remember `b`.
pub displace-Displaced :
    (b : ℕ) (seats : List ℕ) (s : Search) (queue : List ℕ)
    → Distinct seats
    → length s.parent_a ≡ length s.visited_a
    → ((a : ℕ) → has seats a ≡ true → get_or s.visited_a a true ≡ false)
    → Displaced b seats s queue (displace b seats s queue).0 (displace b seats s queue).1
displace-Displaced b [] s queue d sizes free = record {
  same_visited_b = refl;
  same_parent_b = refl;
  same_length = refl;
  same_parents = refl;
  visited = λ a. refl;
  parent = λ a. refl;
  queued = λ a. ground arith;
  measure = refl;
}
displace-Displaced b (first ∷ others) s queue d sizes free =
    let is_free = free first (here first others) in
    let moved =
      first_Displaced b first others s queue sizes is_free
        (displace b others (visit_a s first b) (queue ++ first ∷ []))
        (displace-Displaced b others (visit_a s first b) (queue ++ first ∷ []) d.1
          (length-set s.parent_a first b ∙ sizes ∙ sym (length-set s.visited_a first true))
          (others_free b first others s queue sizes is_free d free)) in
    subst (λ done. Displaced b (first ∷ others) s queue done.0 done.1)
      (sym (
        ap
          (λ seen. elim seen [
            | true ↦ displace b others s queue
            | false ↦ displace b others (visit_a s first b) (queue ++ first ∷ [])
          ])
          is_free))
      moved
