-- ===== src/Pool/Lending.antt =====
-- Lent objects of a pool: what `acquire` hands out, and that it hands out nothing twice
-- (cth/incl/cth/data/pool.hpp).
use cth.Base.{
  ℕ, zero, suc, ◌+◌, ◌<◌, ◌≡◌, refl, sym, ap, subst, ◌∙◌, ◌≢◌, inl, inr, true, false, List, [], ◌∷◌,
  ◌++◌, Result, ok, ok-injective, >>=-eq-ok, critical, ◌>>=◌, ◌||◌, arith, ltb, Bool-cases, length,
  length-append,
}
use cth.Pool.{
  contains, push_range, Pool, emplace, append_range, acquire, reset_at, release, clear, take_back,
  is_empty, exhausted,
}
use cth.Pool.Valid.{Distinct, IsValid, emplace-IsValid, append_range-IsValid, release-IsValid}

-- The object `i` belongs to the pool and is lent out.
abbrev pub IsLent {ℓ} : {T : Type ℓ} → Pool T → ℕ → Type 0
IsLent p i = (i < length p.storage) × (contains p.inactive i ≡ false)

-- The calls of a pool; `acquires` also reports the object that it was given.
pub data Call {ℓ} (T : Type ℓ) : Type ℓ where
  emplaces : T → Call T
  appends : List T → Call T
  acquires : Call T
  releases : ℕ → Call T
  clears : Call T

contains-push_range :
    (k n i : ℕ) (is : List ℕ) → i < k → contains (push_range k n is) i ≡ contains is i
contains-push_range k zero i is h = refl
contains-push_range k (suc n) i is h =
    contains-push_range (suc k) n i (k ∷ is) (omega arith) ∙ ground arith

module _ {ℓ} {T : Type ℓ} where
  -- What an acquisition that returns `i` and leaves `q` has done to `p`.
  pub record Acquires (p : Pool T) (i : ℕ) (q : Pool T) : Type ℓ where
    pub valid : IsValid q
    pub lent : IsLent q i
    pub was_free : contains p.inactive i ≡ true
    pub others : (j : ℕ) → j ≢ i → contains q.inactive j ≡ contains p.inactive j
    pub storage : q.storage ≡ p.storage
    pub remaining : length q.inactive + 1 ≡ length p.inactive

  take_back-Acquires :
      (p : Pool T) (is : List ℕ)
      → p.inactive ≡ is
      → Distinct (length p.storage) is
      → is_empty is ≡ false
      → (i : ℕ) × (q : Pool T) × (take_back p is ≡ ok (i, q)) × Acquires p i q
  take_back-Acquires p [] e d some_left = cc
  take_back-Acquires p (i ∷ rest) e d some_left = (
    i,
    record p { inactive = rest },
    refl,
    record {
      valid = d.2;
      lent = (d.0, d.1);
      was_free = rw e (ground arith);
      others = λ j ne. rw e (ground arith);
      storage = refl;
      remaining = rw e (omega arith);
    },
  )

  -- On a valid pool that is not exhausted `acquire` hands out an object of the storage that was not
  -- lent, marks it and no other as lent, and leaves the storage alone.
  pub acquire-Acquires :
      (p : Pool T)
      → IsValid p
      → exhausted p ≡ false
      → (i : ℕ) × (q : Pool T) × (acquire p ≡ ok (i, q)) × Acquires p i q
  unfolding acquire
  acquire-Acquires p v some_left = take_back-Acquires p p.inactive refl v some_left

  unfoldable pub step : Pool T → Call T → Result (List ℕ × Pool T)
  step p (emplaces t) = ok ([], emplace p t)
  step p (appends ts) = ok ([], append_range p ts)
  step p acquires = do taken ← acquire p; ok (taken.0 ∷ [], taken.1)
  step p (releases i) = do q ← release p i; ok ([], q)
  step p clears = ok ([], clear p)

  -- The calls in order, with the objects that the acquisitions returned.
  unfoldable pub run : Pool T → List (Call T) → Result (List ℕ × Pool T)
  unfolding step
  run p [] = ok ([], p)
  run p (c ∷ cs) = do first ← step p c; rest ← run first.1 cs; ok (first.0 ++ rest.0, rest.1)

  -- Calls that do not give back `i`.
  abbrev pub Keeps : ℕ → Call T → Type 0
  Keeps i (emplaces t) = Unit
  Keeps i (appends ts) = Unit
  Keeps i acquires = Unit
  Keeps i (releases j) = j ≢ i
  Keeps i clears = ⊥

  abbrev pub AllKeep : ℕ → List (Call T) → Type 0
  AllKeep i [] = Unit
  AllKeep i (c ∷ cs) = Keeps i c × AllKeep i cs

  exhausted_critical : (p : Pool T) (is : List ℕ) → is_empty is ≡ true → take_back p is ≡ critical
  exhausted_critical p [] e = refl
  exhausted_critical p (i ∷ is) e = cc

  -- What a call that succeeded says of an object that was lent and not given back.
  record StaysLent (q : Pool T) (i : ℕ) (out : List ℕ) : Type ℓ where
    pub valid : IsValid q
    pub lent : IsLent q i
    pub unseen : contains out i ≡ false

  acquire-StaysLent :
      (p q : Pool T) (i j : ℕ)
      → IsValid p
      → IsLent p i
      → acquire p ≡ ok (j, q)
      → StaysLent q i (j ∷ [])
  unfolding acquire
  acquire-StaysLent p q i j v l e = elim (Bool-cases (exhausted p)) [
    | inl out ↦ let never = exhausted_critical p p.inactive out in cc
    | inr left ↦
        let (k, r, run, took) = acquire-Acquires p v left in
        let same : ◌≡◌ {A = Result (ℕ × Pool T)} (ok (k, r)) (ok (j, q)) = sym run ∙ e in
        let ek : k ≡ j = ap (λ x. x.0) (ok-injective same) in
        let er : r ≡ q = ap (λ x. x.1) (ok-injective same) in
        let apart : i ≢ k = λ h. ground (arith, ap (contains p.inactive) h, took.was_free) in
        record {
          valid = subst IsValid er took.valid;
          lent =
              subst (λ x. IsLent x i) er
                (subst (λ ts. i < length ts) (sym took.storage) l.0, took.others i apart ∙ l.1);
          unseen = ground arith;
        }
  ]

  release_inv : (p q : Pool T) (j : ℕ) → release p j ≡ ok q → IsLent p j
  unfolding release
  release_inv p q j e = ground arith

  moved : (i : ℕ) {x y : List ℕ × Pool T} → ok x ≡ ok y → StaysLent x.1 i x.0 → StaysLent y.1 i y.0
  moved i e st = subst (λ z. StaysLent z.1 i z.0) (ok-injective e) st

  step-StaysLent :
      (p q : Pool T) (i : ℕ) (c : Call T) (out : List ℕ)
      → IsValid p
      → IsLent p i
      → Keeps i c
      → step p c ≡ ok (out, q)
      → StaysLent q i out
  unfolding step
  step-StaysLent p q i (emplaces t) out v l keeps e = moved i e (record {
    valid = emplace-IsValid p t v;
    lent =
        unfold emplace in
        (omega (arith, length-append p.storage (t ∷ []), l.0), ground (arith, l.0, l.1));
    unseen = refl;
  })
  step-StaysLent p q i (appends ts) out v l keeps e = moved i e (record {
    valid = append_range-IsValid p ts v;
    lent =
        unfold append_range in
        (
          omega (arith, length-append p.storage ts, l.0),
          contains-push_range (length p.storage) (length ts) i p.inactive l.0 ∙ l.1,
        );
    unseen = refl;
  })
  step-StaysLent p q i acquires out v l keeps e =
      let ((j, r), taken, e') = >>=-eq-ok _ (acquire p) e in
      moved i e' (acquire-StaysLent p r i j v l taken)
  step-StaysLent p q i (releases j) out v l keeps e =
      let (r, released, e') = >>=-eq-ok _ (release p j) e in
      let mine = release_inv p r j released in
      let (r', run, valid, listed, size) = release-IsValid p j v mine.0 mine.1 in
      let same : r' ≡ r = ok-injective (sym run ∙ released) in
      moved i e' (record {
        valid = subst IsValid same valid;
        lent =
            subst (λ x. IsLent x i) same
              (omega (arith, size, l.0), ap (λ is. contains is i) listed ∙ ground (arith, l.1));
        unseen = refl;
      })
  step-StaysLent p q i clears out v l keeps e = absurd keeps

contains-append :
    (xs ys : List ℕ) (i : ℕ) → contains (xs ++ ys) i ≡ (contains xs i || contains ys i)
contains-append [] ys i = refl
contains-append (x ∷ xs) ys i = ground (arith, contains-append xs ys i)

-- An object that is lent stays lent, and no acquisition hands it out, through any calls that succeed and
-- neither release it nor clear the pool.
pub run-StaysLent {ℓ} :
    {T : Type ℓ} (p q : Pool T) (i : ℕ) (calls : List (Call T)) (out : List ℕ)
    → IsValid p
    → IsLent p i
    → AllKeep i calls
    → run p calls ≡ ok (out, q)
    → IsValid q × IsLent q i × (contains out i ≡ false)
unfolding run
run-StaysLent p q i [] out v l keeps e =
    let st = moved i e (record { valid = v; lent = l; unseen = refl }) in
    (st.valid, st.lent, st.unseen)
run-StaysLent p q i (c ∷ cs) out v l keeps e =
    let ((seen, r), first, e') = >>=-eq-ok _ (step p c) e in
    let ((later, r'), rest, e'') = >>=-eq-ok _ (run r cs) e' in
    let st = step-StaysLent p r i c seen v l keeps.0 first in
    let (valid, lent, unseen) = run-StaysLent r r' i cs later st.valid st.lent keeps.1 rest in
    let all = moved i e'' (record {
      valid = valid;
      lent = lent;
      unseen = contains-append seen later i ∙ ground (arith, st.unseen, unseen);
    }) in
    (all.valid, all.lent, all.unseen)

-- To acquire an object and release it again gives back the pool, but for the object's reset.
pub acquire-release {ℓ} :
    {T : Type ℓ} (p : Pool T)
    → IsValid p
    → exhausted p ≡ false
    → (i : ℕ) × (q : Pool T) × (acquire p ≡ ok (i, q))
      × (release q i ≡ ok (record p { storage = reset_at p.reset p.storage i }))
unfolding acquire release
acquire-release {T = T} p v left = go p.inactive refl v left
  where
    go :
        (is : List ℕ)
        → p.inactive ≡ is
        → Distinct (length p.storage) is
        → is_empty is ≡ false
        → (i : ℕ) × (q : Pool T) × (take_back p is ≡ ok (i, q))
          × (release q i ≡ ok (record p { storage = reset_at p.reset p.storage i }))
    go [] e d some_left = cc
    go (i ∷ rest) e d some_left =
        let inside : ltb i (length p.storage) ≡ true = ground arith in
        (i, record p { inactive = rest }, refl, rw (d.1, inside, e))
