-- ===== src/UnionFind/Sizes.antt =====
-- The sizes of a union_find: at a root, the number of nodes of its group
-- (cth/incl/cth/data/union_find.hpp).
use cth.Base.{
  ℕ, zero, suc, max, ◌+◌, ◌%◌, ◌^◌, ◌≤◌, ◌<◌, ◌≡◌, refl, sym, ap, subst, ◌∙◌, ◌≢◌, inl, inr, ok,
  arith, ◌==◌, ltb, if◌then◌else◌, get_or-set_self, get_or-set_ne, length, Bool-cases, get_or, set,
  ℕ_discrete, List, length-set,
}
use cth.UnionFind.{UnionFind, parent, size_ref, merge, attach, link}
use cth.UnionFind.Forest.{Root, here, Root-top}
use cth.UnionFind.Find.{IsForest, find-Finds}
use cth.UnionFind.Merge.{joined, Joins, attach-Joins, merge-Merges}

-- How many of the first `n` nodes have the root `r`, by the map `root_of` from nodes to roots.
pub members : ℕ → (ℕ → ℕ) → ℕ → ℕ
members zero root_of r = 0
members (suc n) root_of r = members n root_of r + (if root_of n == r then 1 else 0)

-- Where every node is its own root, each root has one member.
pub members_id : (n r : ℕ) → members n (λ i. i) r ≡ (if ltb r n then 1 else 0)
unfolding members
members_id zero r = ground arith
members_id (suc n) r = ground (arith, members_id n r)

members-le : (n : ℕ) (root_of : ℕ → ℕ) (r : ℕ) → members n root_of r ≤ n
unfolding members
members-le zero root_of r = omega arith
members-le (suc n) root_of r = ground (arith, members-le n root_of r)

members-add-le :
    (n : ℕ) (root_of : ℕ → ℕ) (a b : ℕ) → a ≢ b → members n root_of a + members n root_of b ≤ n
unfolding members
members-add-le zero root_of a b ne = omega arith
members-add-le (suc n) root_of a b ne = ground (arith, members-add-le n root_of a b ne)

-- The group of the joined root has the members of both; any other root keeps its own.
members-joined :
    (n : ℕ) (root_of : ℕ → ℕ) (a b : ℕ)
    → a ≢ b
    → members n (λ i. joined a b (root_of i)) (max a b) ≡ members n root_of a + members n root_of b
unfolding members
members-joined zero root_of a b ne = omega arith
members-joined (suc n) root_of a b ne = ground (arith, members-joined n root_of a b ne)

members-joined_ne :
    (n : ℕ) (root_of : ℕ → ℕ) (a b r : ℕ)
    → r ≢ a
    → r ≢ b
    → members n (λ i. joined a b (root_of i)) r ≡ members n root_of r
unfolding members
members-joined_ne zero root_of a b r ha hb = refl
members-joined_ne (suc n) root_of a b r ha hb =
    ground (arith, members-joined_ne n root_of a b r ha hb)

members-joined_self :
    (n : ℕ) (root_of : ℕ → ℕ) (a r : ℕ)
    → members n (λ i. joined a a (root_of i)) r ≡ members n root_of r
unfolding members
members-joined_self zero root_of a r = refl
members-joined_self (suc n) root_of a r = ground (arith, members-joined_self n root_of a r)

-- Each root's size is the number of nodes that have it for their root.
pub record IsSized (s : UnionFind) : Type 0 where
  pub root_of : ℕ → ℕ
  pub paths : (i : ℕ) → i < s.size → Root s.parents (root_of i) i
  pub room : length s.sizes ≡ s.size
  pub exact :
      (r : ℕ) → r < s.size → parent s.parents r ≡ r → size_ref s r ≡ members s.size root_of r

-- Another forest with the same roots has the same sizes.
IsSized-carry :
    {s : UnionFind} (ps : List ℕ)
    → IsSized s
    → ((r i : ℕ) → Root s.parents r i → Root ps r i)
    → ((r i : ℕ) → i < s.size → Root ps r i → Root s.parents r i)
    → IsSized (record s { parents = ps })
IsSized-carry {s} ps z carry back = record {
  root_of = z.root_of;
  paths = λ i h. carry (z.root_of i) i (z.paths i h);
  room = z.room;
  exact = λ r h top. z.exact r h (Root-top (back r r h (here top)));
}

-- `find` keeps the sizes exact.
find-IsSized :
    (s : UnionFind) (x : ℕ) (f : IsForest s) (h : x < s.size)
    → IsSized s
    → IsSized (record s { parents = (find-Finds s x f h).after })
find-IsSized s x f h z =
    let found = find-Finds s x f h in
    IsSized-carry found.after z (λ r i p. found.carry p) (λ r i hi. (found.roots r i hi).0)

attach-IsSized :
    (s : UnionFind) (child top : ℕ)
    → IsForest s
    → IsSized s
    → s.size < 2 ^ 32
    → child < top
    → top < s.size
    → parent s.parents child ≡ child
    → parent s.parents top ≡ top
    → Joins s (attach s child top) child top
    → IsSized (attach s child top)
unfolding attach
attach-IsSized s child top f z small lt ht hc hp j = record {
  root_of = λ i. joined child top (z.root_of i);
  paths = λ i h. j.roots (z.root_of i) i (z.paths i h);
  room = length-set s.sizes top _ ∙ z.room;
  exact = λ r h here_top. elim (ℕ_discrete r top) [
    | yes e ↦
        subst
          (λ k.
            get_or (set s.sizes top total) k 0
            ≡ members s.size (λ i. joined child top (z.root_of i)) k)
          (sym e) at_top
    | no ne ↦ elsewhere r h here_top ne
  ];
}
  where
    total : ℕ
    total = (size_ref s top + size_ref s child) % 2 ^ 32

    at_top :
        get_or (set s.sizes top total) top 0
        ≡ members s.size (λ i. joined child top (z.root_of i)) top
    at_top =
        get_or-set_self s.sizes top total 0 (omega (arith, z.room))
        ∙ omega (
          arith,
          z.exact top ht hp,
          z.exact child (omega arith) hc,
          small,
          members-add-le s.size z.root_of child top (omega arith),
        )
        ∙ sym (members-joined s.size z.root_of child top (omega arith))
        ∙ ap (members s.size (λ i. joined child top (z.root_of i))) {x = max child top} {y = top}
            (omega arith)

    not_child : (r : ℕ) → parent (set s.parents child top) r ≡ r → child ≢ r
    not_child r e same =
        let e' : parent (set s.parents child top) child ≡ child =
          subst (λ k. parent (set s.parents child top) k ≡ k) (sym same) e in
        omega (arith, e', get_or-set_self s.parents child top 0 (omega (arith, f.count)))

    elsewhere :
        (r : ℕ)
        → r < s.size
        → parent (set s.parents child top) r ≡ r
        → r ≢ top
        → get_or (set s.sizes top total) r 0
          ≡ members s.size (λ i. joined child top (z.root_of i)) r
    elsewhere r h e ne =
        get_or-set_ne s.sizes top r total 0 (λ p. ne (sym p))
        ∙ z.exact r h (sym (get_or-set_ne s.parents child r top 0 (not_child r e)) ∙ e)
        ∙ sym (members-joined_ne s.size z.root_of child top r (λ p. not_child r e (sym p)) ne)

link-IsSized :
    (s : UnionFind) (a b : ℕ)
    → IsForest s
    → IsSized s
    → s.size < 2 ^ 32
    → a < s.size
    → b < s.size
    → parent s.parents a ≡ a
    → parent s.parents b ≡ b
    → IsSized (link s a b)
unfolding link
link-IsSized s a b f z small ha hb ra rb = elim (Bool-cases (a == b)) [
  | inl e ↦ rw e z
  | inr ne ↦ rw ne (elim (Bool-cases (ltb b a)) [
    | inl lt ↦ rw lt (
        attach-IsSized s b a f z small (ground arith) ha rb ra
          (attach-Joins s b a f (ground arith) ha rb ra))
    | inr ge ↦ rw ge (
        attach-IsSized s a b f z small (ground arith) hb ra rb
          (attach-Joins s a b f (ground arith) hb ra rb))
  ])
]

-- On a forest of fewer than `2 ^ 32` nodes, since sizes are `uint32_t`, in which every root holds the
-- number of nodes of its group, `merge(lhs, rhs)` with both indices in bounds returns a forest in
-- which every root holds the number of nodes of its group.
pub merge-IsSized :
    (s : UnionFind) (lhs rhs : ℕ)
    → IsForest s
    → IsSized s
    → s.size < 2 ^ 32
    → lhs < s.size
    → rhs < s.size
    → (t : UnionFind) × (merge s lhs rhs ≡ ok t) × IsForest t × IsSized t
merge-IsSized s lhs rhs f z small hl hr =
    let m = merge-Merges s lhs rhs f hl hr in
    (
      m.after,
      m.returns,
      m.joins.forest,
      subst IsSized (sym m.linked) (
          link-IsSized (record s { parents = m.halved }) m.left m.right m.forest
            (IsSized-carry m.halved z m.carry m.back) small m.inside.0 m.inside.1 m.tops.0
            m.tops.1),
    )
