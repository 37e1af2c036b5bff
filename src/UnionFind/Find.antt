-- ===== src/UnionFind/Find.antt =====
-- `find` of a union_find: it ends, returns the root, and its path halving moves no node to another
-- root (cth/incl/cth/data/union_find.hpp).
use cth.Base.{
  ℕ, zero, suc, ◌≤◌, ◌<◌, ◌≡◌, ap, subst, ◌∙◌, ◌↔◌, inl, inr, List, Result, ok, false, arith,
  length, length-set, Bool-cases, ==_iff, critical, leb,
}
use cth.UnionFind.{UnionFind, parent, is_root, find_loop, find, check_bounds}
use cth.UnionFind.Forest.{Root, here, Root-unique, Root-total, Ranked, above, above-lt, above_self}
use cth.UnionFind.Halve.{
  Keeps, halve, parent-halve_self, halve-Keeps, halve-Root_back, Keeps-trans, rise_twice,
  halve-Ranked,
}

-- A union_find whose arrays have its size and whose parents form a forest.
pub record IsForest (s : UnionFind) : Type 0 where
  pub rank : ℕ → ℕ
  pub ranked : Ranked s.parents rank
  pub count : length s.parents ≡ s.size

-- What a run of the loop from `x` on returns.
pub record Found (rank : ℕ → ℕ) (ps : List ℕ) (x : ℕ) (run : Result (ℕ × List ℕ)) : Type 0 where
  pub root : ℕ
  pub after : List ℕ
  pub returns : run ≡ ok (root, after)
  pub inside : root < length ps
  pub path : Root ps root x
  pub keeps : Keeps rank ps after

find_loop-Found :
    (fuel : ℕ) {ps : List ℕ} {rank : ℕ → ℕ} (x : ℕ)
    → Ranked ps rank
    → x < length ps
    → above rank (length ps) (rank x) < fuel
    → Found rank ps x (find_loop fuel ps x)
unfolding find_loop
find_loop-Found zero x f h m = absurd (omega arith)
find_loop-Found (suc fuel) {ps} {rank} x f h m =
    elim (Bool-cases (is_root (halve ps x) (parent ps (parent ps x)))) [
      | inl stop ↦ record {
        root = parent ps (parent ps x);
        after = halve ps x;
        returns = rw stop;
        inside = f.inside (parent ps x) (f.inside x h);
        path = halve-Root_back x h f (here ((==_iff _ _).0 stop));
        keeps = halve-Keeps x h f;
      }
      | inr go ↦ elim (rise_twice x f h) [
        | inl top ↦ absurd (stuck go top)
        | inr rise ↦ further go (
            find_loop-Found fuel (parent ps (parent ps x)) (halve-Ranked x h f)
              (omega (arith, f.inside (parent ps x) (f.inside x h), same))
              (omega (
                arith,
                ap (λ n. above rank n (rank (parent ps (parent ps x)))) same,
                above-lt rank (length ps) (parent ps (parent ps x)) (rank x)
                    (f.inside (parent ps x) (f.inside x h)) rise,
              )))
      ]
    ]
  where
    same : length (halve ps x) ≡ length ps
    same = length-set ps x (parent ps (parent ps x))

    stuck : is_root (halve ps x) (parent ps (parent ps x)) ≡ false → parent ps (parent ps x) ≡ x → ⊥
    stuck go top = ground (arith, parent-halve_self ps x h, ap (parent (halve ps x)) top)

    further :
        is_root (halve ps x) (parent ps (parent ps x)) ≡ false
        → Found rank
            (halve ps x)
            (parent ps (parent ps x))
            (find_loop fuel (halve ps x) (parent ps (parent ps x)))
        → Found rank ps x (find_loop (suc fuel) ps x)
    further go rest = record {
      root = rest.root;
      after = rest.after;
      returns = rw go rest.returns;
      inside = omega (arith, rest.inside, same);
      path = halve-Root_back x h f rest.path;
      keeps = Keeps-trans (halve-Keeps x h f) rest.keeps;
    }

-- The result of `find(x)` on `s`: the root of `x`, and an object with the same forest.
pub record Finds (s : UnionFind) (x : ℕ) : Type 0 where
  pub root : ℕ
  pub after : List ℕ
  pub returns : find s x ≡ ok (root, record s { parents = after })
  pub inside : root < s.size
  pub path : Root s.parents root x
  pub forest : IsForest (record s { parents = after })
  pub carry : {r i : ℕ} → Root s.parents r i → Root after r i
  pub roots : (r i : ℕ) → i < s.size → Root after r i ↔ Root s.parents r i

Keeps-roots :
    {rank : ℕ → ℕ} {ps qs : List ℕ}
    → Ranked ps rank
    → Keeps rank ps qs
    → (r i : ℕ) → i < length ps
    → Root qs r i ↔ Root ps r i
Keeps-roots {rank} {ps} {qs} f k r i h = (back, k.roots)
  where
    back : Root qs r i → Root ps r i
    back p =
        let (q, hq, path) = Root-total i f h in
        subst (λ t. Root ps t i) (Root-unique (k.roots path) p) path

-- On a forest `find(x)` with `x` in bounds ends within as many rounds as there are nodes and returns
-- the root of `x`; the object stays a forest in which every node has the root that it had.
pub find-Finds : (s : UnionFind) (x : ℕ) → IsForest s → x < s.size → Finds s x
unfolding find check_bounds
find-Finds s x f h = record {
  root = run.root;
  after = run.after;
  returns = rw (in_bounds, run.returns);
  inside = omega (arith, run.inside, f.count);
  path = run.path;
  forest = record { rank = f.rank; ranked = run.keeps.ranked; count = run.keeps.count ∙ f.count };
  carry = run.keeps.roots;
  roots = λ r i hi. Keeps-roots f.ranked run.keeps r i (omega (arith, f.count));
}
  where
    in_bounds : leb s.size x ≡ false
    in_bounds = ground arith

    run : Found f.rank s.parents x (find_loop s.size s.parents x)
    run =
        find_loop-Found s.size x f.ranked (omega (arith, f.count))
          (omega (arith, f.count, above_self f.rank (length s.parents) x (omega (arith, f.count))))

-- Out of bounds `find` is a failed check.
find_out_of_bounds : (s : UnionFind) (x : ℕ) → s.size ≤ x → find s x ≡ critical
unfolding find check_bounds
find_out_of_bounds s x h = ground arith
