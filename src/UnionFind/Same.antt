-- ===== src/UnionFind/Same.antt =====
-- The partition that a union_find stands for, and `merge(lhs, rhs)` as the union of two of its
-- classes (cth/incl/cth/data/union_find.hpp).
use cth.Base.{ℕ, max, ◌<◌, ◌≡◌, subst, ◌∙◌, ◌↔◌, ◌⊎◌, inl, inr, ok, arith}
use cth.UnionFind.{UnionFind, merge}
use cth.UnionFind.Forest.{Root, Root-unique, Root-total}
use cth.UnionFind.Find.{IsForest}
use cth.UnionFind.Merge.{joined, Joins, merge-Merges}

-- `i` and `j` are in one group: they have the same root.
abbrev pub Same : UnionFind → ℕ → ℕ → Type 0
Same s i j = (r : ℕ) × Root s.parents r i × Root s.parents r j

joined_iff :
    (a b x y : ℕ)
    → (joined a b x ≡ joined a b y) ↔ ((x ≡ y) ⊎ ((x ≡ a) × (y ≡ b)) ⊎ ((x ≡ b) × (y ≡ a)))
joined_iff a b x y = (λ h. ground arith, λ h. ground arith)

module _ {s t : UnionFind} {lhs rhs a b : ℕ} (f : IsForest s) (j : Joins s t a b)
    (left : Root s.parents a lhs) (right : Root s.parents b rhs) where
  Joins-Same_into :
      (x y : ℕ)
      → x < s.size
      → y < s.size
      → Same t x y
      → Same s x y ⊎ (Same s x lhs × Same s y rhs) ⊎ (Same s x rhs × Same s y lhs)
  Joins-Same_into x y hx hy (q, p, p') =
      let (rx, _, px) = Root-total x f.ranked (omega (arith, f.count)) in
      let (ry, _, py) = Root-total y f.ranked (omega (arith, f.count)) in
      let e : joined a b rx ≡ joined a b ry =
        Root-unique (j.roots rx x px) p ∙ Root-unique p' (j.roots ry y py) in
      elim ((joined_iff a b rx ry).0 e) [
        | inl same ↦ inl (ry, subst (λ k. Root s.parents k x) same px, py)
        | inr (inl (ea, eb)) ↦ inr (
            inl (
              (a, subst (λ k. Root s.parents k x) ea px, left),
              (b, subst (λ k. Root s.parents k y) eb py, right),
            ))
        | inr (inr (eb, ea)) ↦ inr (
            inr (
              (b, subst (λ k. Root s.parents k x) eb px, right),
              (a, subst (λ k. Root s.parents k y) ea py, left),
            ))
      ]

  Joins-Same_across : (x y : ℕ) → Same s x lhs → Same s y rhs → (Same t x y) × (Same t y x)
  Joins-Same_across x y (r, px, pl) (q, py, pr) =
      let ex : joined a b r ≡ max a b = let e = Root-unique pl left in ground arith in
      let ey : joined a b q ≡ max a b = let e = Root-unique pr right in ground arith in
      let tx = subst (λ k. Root t.parents k x) ex (j.roots r x px) in
      let ty = subst (λ k. Root t.parents k y) ey (j.roots q y py) in
      ((max a b, tx, ty), (max a b, ty, tx))

  Joins-Same_back :
      (x y : ℕ)
      → Same s x y ⊎ (Same s x lhs × Same s y rhs) ⊎ (Same s x rhs × Same s y lhs)
      → Same t x y
  Joins-Same_back x y (inl (r, px, py)) = (joined a b r, j.roots r x px, j.roots r y py)
  Joins-Same_back x y (inr (inl (px, py))) = (Joins-Same_across x y px py).0
  Joins-Same_back x y (inr (inr (px, py))) = (Joins-Same_across y x py px).1

-- On a forest `merge(lhs, rhs)` with both indices in bounds returns a forest of the same size in which
-- two nodes share a group exactly when they shared one before, or one of them shared a group with
-- `lhs` and the other with `rhs`.
pub merge-Same :
    (s : UnionFind) (lhs rhs : ℕ)
    → IsForest s
    → lhs < s.size
    → rhs < s.size
    → (t : UnionFind) × (merge s lhs rhs ≡ ok t)
      × IsForest t
      × (t.size ≡ s.size)
      × ((x y : ℕ)
          → x < s.size
          → y < s.size
          → Same t x y
            ↔ (Same s x y ⊎ (Same s x lhs × Same s y rhs) ⊎ (Same s x rhs × Same s y lhs)))
merge-Same s lhs rhs f hl hr =
    let m = merge-Merges s lhs rhs f hl hr in
    (
      m.after,
      m.returns,
      m.joins.forest,
      m.joins.size,
      λ x y hx hy. (
        Joins-Same_into f m.joins m.left_path m.right_path x y hx hy,
        Joins-Same_back f m.joins m.left_path m.right_path x y,
      ),
    )
