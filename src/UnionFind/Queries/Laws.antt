-- ===== src/UnionFind/Queries/Laws.antt =====
-- What the queries of a union_find return on a forest (cth/incl/cth/data/union_find.hpp).
use cth.Base.{
  ℕ, zero, suc, ◌+◌, ◌≤◌, ◌<◌, ◌≡◌, refl, sym, ap, subst, ◌∙◌, ◌↔◌, inl, inr, Bool, true, false,
  List, ok, arith, dec_lt, ℕ_discrete, ◌==◌, ltb, leb, ◌&&◌, Bool-cases, ==_iff,
}
use cth.UnionFind.{UnionFind, parent, is_root, check_bounds}
use cth.UnionFind.Forest.{Root, Root-unique, Root-total}
use cth.UnionFind.Find.{IsForest, find-Finds}
use cth.UnionFind.Same.{Same}
use cth.UnionFind.Group.{contains}
use cth.UnionFind.Queries.{select, roots, all_of_loop, all_of, eq_loop, equal}

contains-select :
    (test : ℕ → Bool) (i n k : ℕ)
    → contains (select test i n) k ≡ (leb i k && (ltb k (i + n) && test k))
unfolding select
contains-select test i zero k = ground arith
contains-select test i (suc n) k =
    ground (arith, contains-select test (suc i) n k, ap test {x = i} {y = k})

-- `roots()` holds an index exactly when it is in bounds and its own parent.
pub roots_iff :
    (s : UnionFind) (k : ℕ)
    → (contains (roots s) k ≡ true) ↔ ((k < s.size) × (parent s.parents k ≡ k))
unfolding roots
roots_iff s k = ground (arith, contains-select (is_root s.parents) 0 s.size k)

-- Every index in bounds has its root.
abbrev RootsAt : UnionFind → (ℕ → ℕ) → Type 0
RootsAt s root_of = (i : ℕ) → i < s.size → Root s.parents (root_of i) i

module _ (s : UnionFind) (f : IsForest s) where
  pick : (i : ℕ) → Dec (i < s.size) → ℕ
  pick i (yes h) = (Root-total i f.ranked (omega (arith, f.count))).0
  pick i (no _) = 0

  pick-Root : (i : ℕ) (d : Dec (i < s.size)) → i < s.size → Root s.parents (pick i d) i
  unfolding pick
  pick-Root i (yes h) _ = (Root-total i f.ranked (omega (arith, f.count))).2
  pick-Root i (no n) h = absurd (n h)

  -- The map from the nodes of a forest to their roots.
  forest-RootsAt : (root_of : ℕ → ℕ) × RootsAt s root_of
  forest-RootsAt = (λ i. pick i (dec_lt i s.size), λ i h. pick-Root i (dec_lt i s.size) h)

all_of_loop-select :
    (top i n : ℕ) (s : UnionFind) (root_of : ℕ → ℕ)
    → IsForest s
    → RootsAt s root_of
    → i + n ≡ s.size
    → (t : UnionFind) × (all_of_loop top i n s ≡ ok (select (λ k. root_of k == top) i n, t))
      × IsForest t
      × (t.size ≡ s.size)
      × ((r k : ℕ) → Root s.parents r k → Root t.parents r k)
unfolding all_of_loop select
all_of_loop-select top i zero s root_of f paths e = (s, refl, f, refl, λ r k p. p)
all_of_loop-select top i (suc n) s root_of f paths e =
    let h : i < s.size = omega arith in
    let found = find-Finds s i f h in
    let same : found.root ≡ root_of i = Root-unique found.path (paths i h) in
    let (t, run, g, size, carry) =
      all_of_loop-select top (suc i) n (record s { parents = found.after }) root_of found.forest
        (λ k hk. found.carry (paths k hk)) (omega arith) in
    (t, rw (found.returns, run, same), g, size, λ r k p. carry r k (found.carry p))

-- On a forest `all_of(x)` with `x` in bounds returns exactly the indices that share a group with `x`,
-- and the object stays a forest of its size.
pub all_of-Same :
    (s : UnionFind) (x : ℕ)
    → IsForest s
    → x < s.size
    → (out : List ℕ) × (t : UnionFind) × (all_of s x ≡ ok (out, t))
      × IsForest t
      × (t.size ≡ s.size)
      × ((k : ℕ) → (contains out k ≡ true) ↔ ((k < s.size) × Same s k x))
unfolding all_of check_bounds
all_of-Same s x f h =
    let (root_of, paths) = forest-RootsAt s f in
    let found = find-Finds s x f h in
    let (t, run, g, size, _) =
      all_of_loop-select found.root 0 s.size (record s { parents = found.after }) root_of
        found.forest (λ k hk. found.carry (paths k hk)) (omega arith) in
    let in_bounds : leb s.size x ≡ false = ground arith in
    (
      select (λ k. root_of k == found.root) 0 s.size,
      t,
      rw (in_bounds, found.returns, run),
      g,
      size,
      λ k. (
        λ e.
            let (hk, ek) = listed k root_of found.root e in
            (hk, (found.root, subst (λ r. Root s.parents r k) ek (paths k hk), found.path)),
        λ (hk, (r, pk, px)).
            listed_back k root_of found.root hk
              (Root-unique (paths k hk) pk ∙ Root-unique px found.path),
      ),
    )
  where
    listed :
        (k : ℕ) (root_of : ℕ → ℕ) (top : ℕ)
        → contains (select (λ k. root_of k == top) 0 s.size) k ≡ true
        → (k < s.size) × (root_of k ≡ top)
    listed k root_of top e = ground (arith, contains-select (λ k. root_of k == top) 0 s.size k)

    listed_back :
        (k : ℕ) (root_of : ℕ → ℕ) (top : ℕ)
        → k < s.size
        → root_of k ≡ top
        → contains (select (λ k. root_of k == top) 0 s.size) k ≡ true
    listed_back k root_of top h e =
        ground (arith, contains-select (λ k. root_of k == top) 0 s.size k)

eq_loop-agree :
    (i n : ℕ) (s t : UnionFind) (mine other : ℕ → ℕ)
    → IsForest s
    → IsForest t
    → RootsAt s mine
    → RootsAt t other
    → i + n ≡ s.size
    → i + n ≡ t.size
    → (b : Bool) × (s' t' : UnionFind) × (eq_loop i n s t ≡ ok (b, s', t'))
      × ((b ≡ true) ↔ ((k : ℕ) → i ≤ k → k < s.size → mine k ≡ other k))
unfolding eq_loop
eq_loop-agree i zero s t mine other f g ps pt e e' =
    (true, s, t, refl, (λ _ k lo hi. absurd (omega arith), λ _. refl))
eq_loop-agree i (suc n) s t mine other f g ps pt e e' =
    let l = find-Finds s i f (omega arith) in
    let r = find-Finds t i g (omega arith) in
    let el : l.root ≡ mine i = Root-unique l.path (ps i (omega arith)) in
    let er : r.root ≡ other i = Root-unique r.path (pt i (omega arith)) in
    let (b, s', t', run, law) =
      eq_loop-agree (suc i) n (record s { parents = l.after }) (record t { parents = r.after }) mine
        other l.forest r.forest (λ k hk. l.carry (ps k hk)) (λ k hk. r.carry (pt k hk))
        (omega arith) (omega arith) in
    elim (Bool-cases (mine i == other i)) [
      | inl hit ↦ (
        b,
        s',
        t',
        rw (l.returns, r.returns, run, el, er, hit),
        (
          λ eb k lo hi. elim (ℕ_discrete i k) [
            | yes ek ↦ subst (λ j. mine j ≡ other j) ek ((==_iff _ _).0 hit)
            | no ne ↦ law.0 eb k (omega arith) hi
          ],
          λ all. law.1 (λ k lo hi. all k (omega arith) hi),
        ),
      )
      | inr miss ↦ (
        false,
        record s { parents = l.after },
        record t { parents = r.after },
        rw (l.returns, r.returns, el, er, miss),
        (λ eb. cc, λ all. let hit = all i (omega arith) (omega arith) in ground arith),
      )
    ]

-- On forests `operator==` returns true exactly when the two have the same size and every index has
-- the same root in both.
pub equal_iff :
    (s t : UnionFind)
    → IsForest s
    → IsForest t
    → (b : Bool) × (s' t' : UnionFind) × (equal s t ≡ ok (b, s', t'))
      × ((b ≡ true) ↔ (
          (s.size ≡ t.size) × ((k r : ℕ) → k < s.size → Root s.parents r k → Root t.parents r k)))
unfolding equal
equal_iff s t f g = elim (Bool-cases (s.size == t.size)) [
  | inl same ↦
      let (mine, ps) = forest-RootsAt s f in
      let (other, pt) = forest-RootsAt t g in
      let size : s.size ≡ t.size = (==_iff _ _).0 same in
      let (b, s', t', run, law) =
        eq_loop-agree 0 s.size s t mine other f g ps pt (omega arith) (omega arith) in
      (
        b,
        s',
        t',
        rw same run,
        (
          λ eb. (
            size,
            λ k r hk p.
                subst (λ q. Root t.parents q k)
                  (sym (law.0 eb k (omega arith) hk) ∙ Root-unique (ps k hk) p)
                  (pt k (omega arith)),
          ),
          λ (_, all).
              law.1 (λ k _ hk. Root-unique (all k (mine k) hk (ps k hk)) (pt k (omega arith))),
        ),
      )
  | inr differ ↦ (false, s, t, rw differ, (λ eb. cc, λ (e, _). ground arith))
]
