-- ===== src/UnionFind/Halve.antt =====
-- Path halving of a union_find moves no node to another root
-- (cth/incl/cth/data/union_find.hpp).
use cth.Base.{
  ℕ, ◌<◌, ◌≡◌, sym, ap, subst, ◌∙◌, ◌≢◌, ◌⊎◌, inl, inr, List, arith, length, set, get_or-set_self,
  get_or-set_ne, length-set, ℕ_discrete,
}
use cth.UnionFind.{parent}
use cth.UnionFind.Forest.{Root, here, up, Root-parent, Root-unique, Root-total, Ranked}

-- `qs` is `ps` with the same length, ranks and roots.
pub record Keeps (rank : ℕ → ℕ) (ps qs : List ℕ) : Type 0 where
  pub count : length qs ≡ length ps
  pub ranked : Ranked qs rank
  pub roots : {r i : ℕ} → Root ps r i → Root qs r i

-- The write of one round.
abbrev pub halve : List ℕ → ℕ → List ℕ
halve ps x = set ps x (parent ps (parent ps x))

pub parent-halve_self :
    (ps : List ℕ) (x : ℕ) → x < length ps → parent (halve ps x) x ≡ parent ps (parent ps x)
parent-halve_self ps x h = get_or-set_self ps x (parent ps (parent ps x)) 0 h

parent-halve_ne : (ps : List ℕ) (x i : ℕ) → x ≢ i → parent (halve ps x) i ≡ parent ps i
parent-halve_ne ps x i ne = get_or-set_ne ps x i (parent ps (parent ps x)) 0 ne

-- The parent of `x` and its new parent have the same parent in the halved array.
parent-halve_up :
    (ps : List ℕ) (x : ℕ)
    → x < length ps
    → parent (halve ps x) (parent ps x) ≡ parent ps (parent ps x)
parent-halve_up ps x h = elim (ℕ_discrete x (parent ps x)) [
  | yes e ↦
      subst (λ k. parent (halve ps x) k ≡ parent ps (parent ps x)) e (parent-halve_self ps x h)
  | no ne ↦ parent-halve_ne ps x (parent ps x) ne
]

halve-Root : {ps : List ℕ} {r i : ℕ} (x : ℕ) → x < length ps → Root ps r i → Root (halve ps x) r i
halve-Root {ps} {r} x h (here top) = elim (ℕ_discrete x r) [
  | yes e ↦ here (
      subst (λ k. parent (halve ps x) k ≡ k) e
        (parent-halve_self ps x h
          ∙ ap (parent ps) (subst (λ k. parent ps k ≡ k) (sym e) top)
          ∙ subst (λ k. parent ps k ≡ k) (sym e) top))
  | no ne ↦ here (parent-halve_ne ps x r ne ∙ top)
]
halve-Root {ps} {r} x h (up {i} rest) = elim (ℕ_discrete x i) [
  | yes e ↦ up (
      subst (Root (halve ps x) r)
        (parent-halve_up ps x h ∙ sym (parent-halve_self ps x h) ∙ ap (parent (halve ps x)) e)
        (Root-parent
          (subst (λ k. Root (halve ps x) r (parent ps k)) (sym e) (halve-Root x h rest))))
  | no ne ↦ up (subst (Root (halve ps x) r) (sym (parent-halve_ne ps x i ne)) (halve-Root x h rest))
]

-- A grandparent is no lower than its node.
pub rise_twice :
    {ps : List ℕ} {rank : ℕ → ℕ} (x : ℕ)
    → Ranked ps rank
    → x < length ps
    → (parent ps (parent ps x) ≡ x) ⊎ (rank x < rank (parent ps (parent ps x)))
rise_twice {ps} {rank} x f h = elim (f.rising x h) [
  | inl top ↦ inl (ap (parent ps) top ∙ top)
  | inr one ↦ elim (f.rising (parent ps x) (f.inside x h)) [
    | inl top ↦ inr (subst (λ k. rank x < rank k) (sym top) one)
    | inr two ↦ inr (omega arith)
  ]
]

pub halve-Ranked :
    {ps : List ℕ} {rank : ℕ → ℕ} (x : ℕ) → x < length ps → Ranked ps rank → Ranked (halve ps x) rank
halve-Ranked {ps} {rank} x h f = record {
  inside = λ i hi.
      let hi' : i < length ps = omega (arith, length-set ps x (parent ps (parent ps x))) in
      elim (ℕ_discrete x i) [
        | yes e ↦
            subst (λ k. parent (halve ps x) k < length (halve ps x)) e
              (omega (
                arith,
                parent-halve_self ps x h,
                f.inside (parent ps x) (f.inside x h),
                length-set ps x (parent ps (parent ps x)),
              ))
        | no ne ↦ omega (
          arith,
          parent-halve_ne ps x i ne,
          f.inside i hi',
          length-set ps x (parent ps (parent ps x)),
        )
      ];
  rising = λ i hi.
      let hi' : i < length ps = omega (arith, length-set ps x (parent ps (parent ps x))) in
      elim (ℕ_discrete x i) [
        | yes e ↦
            subst (λ k. (parent (halve ps x) k ≡ k) ⊎ (rank k < rank (parent (halve ps x) k))) e
              (rw (parent-halve_self ps x h) (rise_twice x f h))
        | no ne ↦ rw (parent-halve_ne ps x i ne) (f.rising i hi')
      ];
}

pub halve-Keeps :
    {ps : List ℕ} {rank : ℕ → ℕ} (x : ℕ)
    → x < length ps
    → Ranked ps rank
    → Keeps rank ps (halve ps x)
halve-Keeps {ps} x h f = record {
  count = length-set ps x (parent ps (parent ps x));
  ranked = halve-Ranked x h f;
  roots = halve-Root x h;
}

pub Keeps-trans :
    {rank : ℕ → ℕ} {ps qs rs : List ℕ} → Keeps rank ps qs → Keeps rank qs rs → Keeps rank ps rs
Keeps-trans k l = record {
  count = l.count ∙ k.count;
  ranked = l.ranked;
  roots = λ p. l.roots (k.roots p);
}

-- A root of the halved array that lies over `x` is the root of `x`.
pub halve-Root_back :
    {ps : List ℕ} {rank : ℕ → ℕ} {r : ℕ} (x : ℕ)
    → x < length ps
    → Ranked ps rank
    → Root (halve ps x) r (parent ps (parent ps x))
    → Root ps r x
halve-Root_back {ps} {rank} {r} x h f path =
    let (q, hq, p) = Root-total x f h in
    subst (λ k. Root ps k x)
      (Root-unique
        (subst (Root (halve ps x) q) (parent-halve_self ps x h) (Root-parent (halve-Root x h p)))
        path)
      p
