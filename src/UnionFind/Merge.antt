-- ===== src/UnionFind/Merge.antt =====
-- `merge(lhs, rhs)` of a union_find joins two groups and no others, and keeps the total of the
-- sizes (cth/incl/cth/data/union_find.hpp).
use cth.Base.{
  ℕ, max, ◌+◌, ◌≤◌, ◌<◌, ◌≡◌, refl, sym, ap, subst, ◌∙◌, ◌≢◌, ◌⊎◌, inl, inr, List, ok, false, arith,
  ◌==◌, ltb, length, set, get_or-set_self, get_or-set_ne, length-set, ℕ_discrete, Bool-cases,
  ==_iff, if◌then◌else◌,
}
use cth.UnionFind.{UnionFind, parent, attach, link, merge}
use cth.UnionFind.Forest.{Root, here, up, Root-top, Root_of_root, Ranked}
use cth.UnionFind.Find.{IsForest, Finds, find-Finds}

-- The ranks once `node` hangs below the root `top`: only `top` rises.
abbrev pub raised : (ℕ → ℕ) → ℕ → ℕ → ℕ → ℕ
raised rank node top j = if j == top then rank top + rank node + 1 else rank j

raised_ge : (rank : ℕ → ℕ) (node top j : ℕ) → rank j ≤ raised rank node top j
raised_ge rank node top j = elim (ℕ_discrete j top) [
  | yes e ↦ ground (arith, ap rank e)
  | no ne ↦ ground arith
]

module _ (ps : List ℕ) (node top : ℕ) (h : node < length ps) where
  pub parent-set_self : parent (set ps node top) node ≡ top
  parent-set_self = get_or-set_self ps node top 0 h

  pub parent-set_ne : (i : ℕ) → node ≢ i → parent (set ps node top) i ≡ parent ps i
  parent-set_ne i ne = get_or-set_ne ps node i top 0 ne

  -- To hang a node below a root leaves a forest.
  pub set-Ranked :
      {rank : ℕ → ℕ}
      → Ranked ps rank
      → top < length ps
      → parent ps top ≡ top
      → node ≢ top
      → Ranked (set ps node top) (raised rank node top)
  set-Ranked {rank} f ht root ne = record {
    inside = λ i hi. elim (ℕ_discrete node i) [
      | yes e ↦
          subst (λ k. parent (set ps node top) k < length (set ps node top)) e
            (omega (arith, parent-set_self, same))
      | no ne' ↦ omega (arith, parent-set_ne i ne', same, f.inside i (omega (arith, same)))
    ];
    rising = λ i hi. elim (ℕ_discrete node i) [
      | yes e ↦ inr (
          subst (λ k. raised rank node top k < raised rank node top (parent (set ps node top) k)) e
            (rw parent-set_self (ground arith)))
      | no ne' ↦ rw (parent-set_ne i ne') (old i (f.rising i (omega (arith, same))))
    ];
  }
    where
      same : length (set ps node top) ≡ length ps
      same = length-set ps node top

      old :
          (i : ℕ)
          → (parent ps i ≡ i) ⊎ (rank i < rank (parent ps i))
          → (parent ps i ≡ i) ⊎ (raised rank node top i < raised rank node top (parent ps i))
      old i (inl e) = inl e
      old i (inr lt) = elim (ℕ_discrete i top) [
        | yes e ↦ inl (ap (parent ps) e ∙ root ∙ sym e)
        | no ne' ↦ inr (ground (arith, raised_ge rank node top (parent ps i)))
      ]

  -- A root `node` below another root `top`: the nodes of the one get the root `top`.
  pub set-Root :
      {r i : ℕ}
      → parent ps node ≡ node
      → parent ps top ≡ top
      → node ≢ top
      → Root ps r i
      → Root (set ps node top) (if r == node then top else r) i
  set-Root {r} hn ht ne (here root) = elim (ℕ_discrete node r) [
    | yes e ↦ rw ((==_iff r node).1 (sym e)) (
        up (
          subst (λ k. Root (set ps node top) top (parent (set ps node top) k)) e
            (rw parent-set_self (here (parent-set_ne top ne ∙ ht)))))
    | no ne' ↦
        let e : (r == node) ≡ false = ground arith in rw e (here (parent-set_ne r ne' ∙ root))
  ]
  set-Root {r} hn ht ne (up {i} rest) = elim (ℕ_discrete node i) [
    | yes e ↦
        let er : r ≡ node = Root_of_root hn (subst (λ k. Root ps r k) (sym e) (up rest)) in
        rw ((==_iff r node).1 er) (
          up (
            subst (λ k. Root (set ps node top) top (parent (set ps node top) k)) e
              (rw parent-set_self (here (parent-set_ne top ne ∙ ht)))))
    | no ne' ↦ up (rw (parent-set_ne i ne') (set-Root hn ht ne rest))
  ]

-- The root of a node after `merge`, from its root before: the roots `a` and `b` become the greater.
abbrev pub joined : ℕ → ℕ → ℕ → ℕ
joined a b r = if r == a then max a b else if r == b then max a b else r

-- A forest `t` of the size of `s` in which every root `r` has become `joined a b r`.
pub record Joins (s t : UnionFind) (a b : ℕ) : Type 0 where
  pub forest : IsForest t
  pub size : t.size ≡ s.size
  pub roots : (r i : ℕ) → Root s.parents r i → Root t.parents (joined a b r) i

pub attach-Joins :
    (s : UnionFind) (child top : ℕ)
    → IsForest s
    → child < top
    → top < s.size
    → parent s.parents child ≡ child
    → parent s.parents top ≡ top
    → Joins s (attach s child top) child top
unfolding attach
attach-Joins s child top f lt ht hc hp = record {
  forest = record {
    rank = raised f.rank child top;
    ranked =
        set-Ranked s.parents child top inside f.ranked (omega (arith, f.count)) hp (omega arith);
    count = length-set s.parents child top ∙ f.count;
  };
  size = refl;
  roots = λ r i p.
      subst (λ k. Root (set s.parents child top) k i) {x = if r == child then top else r}
        {y = joined child top r} (ground arith)
        (set-Root s.parents child top inside hc hp (omega arith) p);
}
  where
    inside : child < length s.parents
    inside = omega (arith, f.count)

Joins-sym : {s t : UnionFind} (a b : ℕ) → Joins s t a b → Joins s t b a
Joins-sym {s} {t} a b j = record {
  forest = j.forest;
  size = j.size;
  roots = λ r i p.
      subst (λ k. Root t.parents k i) {x = joined a b r} {y = joined b a r} (ground arith)
        (j.roots r i p);
}

Joins-self : (s : UnionFind) (a : ℕ) → IsForest s → Joins s s a a
Joins-self s a f = record {
  forest = f;
  size = refl;
  roots = λ r i p. subst (λ k. Root s.parents k i) {x = r} {y = joined a a r} (ground arith) p;
}

link-Joins :
    (s : UnionFind) (a b : ℕ)
    → IsForest s
    → a < s.size
    → b < s.size
    → parent s.parents a ≡ a
    → parent s.parents b ≡ b
    → Joins s (link s a b) a b
unfolding link
link-Joins s a b f ha hb ra rb = elim (Bool-cases (a == b)) [
  | inl e ↦ rw e (subst (Joins s s a) ((==_iff a b).0 e) (Joins-self s a f))
  | inr ne ↦ rw ne (elim (Bool-cases (ltb b a)) [
    | inl lt ↦ rw lt (Joins-sym b a (attach-Joins s b a f (ground arith) ha rb ra))
    | inr ge ↦ rw ge (attach-Joins s a b f (ground arith) hb ra rb)
  ])
]

-- The result of `merge(lhs, rhs)`: the roots of the two nodes become one root, the greater of them.
pub record Merges (s : UnionFind) (lhs rhs : ℕ) : Type 0 where
  pub after : UnionFind
  pub left : ℕ
  pub right : ℕ
  pub returns : merge s lhs rhs ≡ ok after
  pub left_path : Root s.parents left lhs
  pub right_path : Root s.parents right rhs
  pub joins : Joins s after left right
  pub halved : List ℕ
  pub linked : after ≡ link (record s { parents = halved }) left right
  pub carry : (r i : ℕ) → Root s.parents r i → Root halved r i
  pub back : (r i : ℕ) → i < s.size → Root halved r i → Root s.parents r i
  pub forest : IsForest (record s { parents = halved })
  pub inside : (left < s.size) × (right < s.size)
  pub tops : (parent halved left ≡ left) × (parent halved right ≡ right)

pub merge-Merges :
    (s : UnionFind) (lhs rhs : ℕ) → IsForest s → lhs < s.size → rhs < s.size → Merges s lhs rhs
unfolding merge
merge-Merges s lhs rhs f hl hr = record {
  after = link t l.root r.root;
  left = l.root;
  right = r.root;
  returns = rw (l.returns, r.returns);
  left_path = l.path;
  right_path = (l.roots r.root rhs hr).0 r.path;
  joins = record {
    forest = last.forest;
    size = last.size;
    roots = λ q i p. last.roots q i (kept q i p);
  };
  halved = r.after;
  linked = refl;
  carry = kept;
  back = λ q i hi p. (l.roots q i hi).0 ((r.roots q i hi).0 p);
  forest = r.forest;
  inside = (l.inside, r.inside);
  tops = (left_top, right_top);
}
  where
    l : Finds s lhs
    l = find-Finds s lhs f hl

    r : Finds (record s { parents = l.after }) rhs
    r = find-Finds (record s { parents = l.after }) rhs l.forest hr

    t : UnionFind
    t = record s { parents = r.after }

    left_top : parent r.after l.root ≡ l.root
    left_top = Root-top (r.carry (l.carry l.path))

    right_top : parent r.after r.root ≡ r.root
    right_top = Root-top (r.carry r.path)

    last : Joins t (link t l.root r.root) l.root r.root
    last = link-Joins t l.root r.root r.forest l.inside r.inside left_top right_top

    kept : (q i : ℕ) → Root s.parents q i → Root r.after q i
    kept q i p = r.carry (l.carry p)
