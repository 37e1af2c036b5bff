-- ===== src/UnionFind/Group.antt =====
-- `merge(group)` of a union_find and the constructor `union_find(n)`: the nodes of a list go directly
-- below the root of the first (cth/incl/cth/data/union_find.hpp).
use cth.Base.{
  ℕ, ◌<◌, ◌≡◌, refl, sym, ap, subst, ◌∙◌, ◌≢◌, inl, inr, ok, arith, Bool, false, ◌==◌, ◌||◌,
  get_or-set_ne, length, Bool-cases, ==_iff, set, ℕ_discrete, List, [], ◌∷◌, length-set,
}
use cth.UnionFind.{UnionFind, parent, adopt, adopt_all, merge_group}
use cth.UnionFind.Forest.{Root, here, up, Root-unique, Root-top, Root_of_root}
use cth.UnionFind.Find.{IsForest, Finds, find-Finds}
use cth.UnionFind.Merge.{raised, set-Ranked, parent-set_self, parent-set_ne}
use cth.UnionFind.Same.{Same}

-- Every entry of a list satisfies `P`.
abbrev pub All : (ℕ → Type 0) → List ℕ → Type 0
All P [] = Unit
All P (x ∷ xs) = P x × All P xs

abbrev pub contains : List ℕ → ℕ → Bool
contains [] x = false
contains (y ∷ ys) x = (x == y) || contains ys x

-- `top` is a root of the forest `s`.
pub record Topped (s : UnionFind) (top : ℕ) : Type 0 where
  pub forest : IsForest s
  pub inside : top < s.size
  pub root : parent s.parents top ≡ top

-- What hanging nodes below the root `top` leaves alone: the size, and the nodes below `top`.
pub record Grows (s t : UnionFind) (top : ℕ) : Type 0 where
  pub topped : Topped t top
  pub size : t.size ≡ s.size
  pub below : {i : ℕ} → Root s.parents top i → Root t.parents top i

set-Root_below :
    {ps : List ℕ} (node top : ℕ) {i : ℕ}
    → node < length ps
    → node ≢ top
    → parent ps top ≡ top
    → Root ps top i
    → Root (set ps node top) top i
set-Root_below {ps} node top h ne ht (here e) = here (parent-set_ne ps node top h top ne ∙ ht)
set-Root_below {ps} node top h ne ht (up {i} rest) = elim (ℕ_discrete node i) [
  | yes e ↦ up (
      subst (λ k. Root (set ps node top) top (parent (set ps node top) k)) e
        (rw (parent-set_self ps node top h) (here (parent-set_ne ps node top h top ne ∙ ht))))
  | no ne' ↦ up (rw (parent-set_ne ps node top h i ne') (set-Root_below node top h ne ht rest))
]

adopt-Grows :
    (s : UnionFind) (top node : ℕ)
    → Topped s top
    → node < s.size
    → Grows s (adopt top s node) top × Root (adopt top s node).parents top node
unfolding adopt
adopt-Grows s top node f h = elim (Bool-cases (parent s.parents node == top)) [
  | inl old ↦ rw old (
    record { topped = f; size = refl; below = λ p. p },
    up (rw ((==_iff _ _).0 old) (here f.root)),
  )
  | inr new ↦ rw new (
    record {
      topped = record {
        forest = record {
          rank = raised f.forest.rank node top;
          ranked =
              set-Ranked s.parents node top inside f.forest.ranked
                (omega (arith, f.inside, f.forest.count)) f.root (other new);
          count = length-set s.parents node top ∙ f.forest.count;
        };
        inside = f.inside;
        root = parent-set_ne s.parents node top inside top (other new) ∙ f.root;
      };
      size = refl;
      below = set-Root_below node top inside (other new) f.root;
    },
    up (
        rw (parent-set_self s.parents node top inside)
          (here (parent-set_ne s.parents node top inside top (other new) ∙ f.root))),
  )
]
  where
    inside : node < length s.parents
    inside = omega (arith, f.forest.count)

    other : (parent s.parents node == top) ≡ false → node ≢ top
    other new e = ground (arith, ap (parent s.parents) e, f.root)

Grows-trans : {s t u : UnionFind} {top : ℕ} → Grows s t top → Grows t u top → Grows s u top
Grows-trans g h = record {
  topped = h.topped;
  size = h.size ∙ g.size;
  below = λ p. h.below (g.below p);
}

adopt_all-Grows :
    (s : UnionFind) (top : ℕ) (group : List ℕ)
    → Topped s top
    → All (λ node. node < s.size) group
    → Grows s (adopt_all top s group) top
      × All (λ node. Root (adopt_all top s group).parents top node) group
unfolding adopt_all
adopt_all-Grows s top [] f h = (record { topped = f; size = refl; below = λ p. p }, tt)
adopt_all-Grows s top (node ∷ group) f h =
    let (g, own) = adopt-Grows s top node f h.0 in
    let (g', rest) =
      adopt_all-Grows (adopt top s node) top group g.topped
        (subst (λ n. All (λ node. node < n) group) (sym g.size) h.1) in
    (Grows-trans g g', (g'.below own, rest))

-- On a forest `merge(group)` with all its nodes in bounds returns a forest of the same size in which
-- every node of the group has the root that the first one had, as has every node that had it before.
pub merge_group-Root :
    (s : UnionFind) (first : ℕ) (group : List ℕ)
    → IsForest s
    → All (λ node. node < s.size) (first ∷ group)
    → (t : UnionFind) × (root : ℕ) × (merge_group s (first ∷ group) ≡ ok t)
      × Root s.parents root first
      × IsForest t
      × (t.size ≡ s.size)
      × All (λ node. Root t.parents root node) (first ∷ group)
      × ((i : ℕ) → Root s.parents root i → Root t.parents root i)
unfolding merge_group
merge_group-Root s first group f h =
    let found = find-Finds s first f h.0 in
    let (g, all) =
      adopt_all-Grows (record s { parents = found.after }) found.root (first ∷ group)
        (record {
          forest = found.forest;
          inside = found.inside;
          root = Root-top (found.carry found.path);
        })
        h in
    (
      adopt_all found.root (record s { parents = found.after }) (first ∷ group),
      found.root,
      rw found.returns,
      found.path,
      g.topped.forest,
      g.size,
      all,
      λ i p. g.below (found.carry p),
    )

adopt-top :
    (s : UnionFind) (top q node : ℕ)
    → node ≢ q
    → parent s.parents q ≡ q
    → parent (adopt top s node).parents q ≡ q
unfolding adopt
adopt-top s top q node h e = elim (Bool-cases (parent s.parents node == top)) [
  | inl old ↦ rw old e
  | inr new ↦ rw new (get_or-set_ne s.parents node q top 0 h ∙ e)
]

adopt_all-top :
    (s : UnionFind) (top q : ℕ) (group : List ℕ)
    → All (λ node. node ≢ q) group
    → parent s.parents q ≡ q
    → parent (adopt_all top s group).parents q ≡ q
unfolding adopt_all
adopt_all-top s top q [] h e = e
adopt_all-top s top q (node ∷ group) h e =
    adopt_all-top (adopt top s node) top q group h.1 (adopt-top s top q node h.0 e)

-- On a forest `merge(group)` moves a node of the group that is no root alone. Once
-- `merge({x, y})` has returned, a root `q` over `y` that is neither `y` nor the root of `x` shares no
-- group with `y`, though it did before.
pub merge_group_loses :
    (s t : UnionFind) (x y q : ℕ)
    → IsForest s
    → x < s.size
    → y < s.size
    → Root s.parents q y
    → y ≢ q
    → ¬ Same s x y
    → merge_group s (x ∷ y ∷ []) ≡ ok t
    → Same s q y × (¬ Same t q y)
unfolding merge_group
merge_group_loses s t x y q f hx hy above ne apart e =
    ((q, here (Root-top above), above), λ same. elsewhere same)
  where
    found : Finds s x
    found = find-Finds s x f hx

    after : UnionFind
    after = adopt_all found.root (record s { parents = found.after }) (x ∷ y ∷ [])

    x_ne : x ≢ q
    x_ne p = apart (q, subst (Root s.parents q) (sym p) (here (Root-top above)), above)

    returned : t ≡ after
    returned = ground (arith, found.returns)

    q_top : parent after.parents q ≡ q
    q_top =
        adopt_all-top (record s { parents = found.after }) found.root q (x ∷ y ∷ [])
          (x_ne, (ne, tt)) (Root-top (found.carry above))

    moved : Root after.parents found.root y
    moved =
        (adopt_all-Grows (record s { parents = found.after }) found.root (x ∷ y ∷ [])
          (record {
            forest = found.forest;
            inside = found.inside;
            root = Root-top (found.carry found.path);
          })
          (hx, (hy, tt))).1.1.0

    elsewhere : ¬ Same t q y
    elsewhere (r, pq, py) =
        let rq = Root_of_root q_top (subst (λ u. Root u.parents r q) returned pq) in
        let ry = Root-unique (subst (λ u. Root u.parents r y) returned py) moved in
        apart (q, subst (λ k. Root s.parents k x) (sym ry ∙ rq) found.path, above)
