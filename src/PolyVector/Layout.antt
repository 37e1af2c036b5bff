-- ===== src/PolyVector/Layout.antt =====
-- Where `realloc` of cth/incl/cth/data/poly_vector.hpp puts the blocks of the types.
use cth.Base.{
  ℕ, zero, suc, ◌+◌, ◌*◌, ◌%◌, ◌^◌, ◌≤◌, ◌<◌, ◌≡◌, refl, sym, ap, subst, ◌∙◌, List, [], ◌∷◌, length,
  get_or, arith,
}
use cth.Base.Words.{add64, add_word-eq}
use cth.Numeric.{align_to_power}
use cth.Numeric.Align.{align_to_power-least}
use cth.PolyVector.{Kind, block_exponent, place_blocks}
use native.Mathlib.Nat.{mod-eq_of_lt}

-- An upper bound of the bytes that the blocks need.
abbrev pub room : ℕ → List Kind → List ℕ → ℕ
room min_exponent [] counts = 0
room min_exponent (kind ∷ kinds) [] = 0
room min_exponent (kind ∷ kinds) (count ∷ counts) =
    kind.size * count + 2 ^ block_exponent min_exponent kind + room min_exponent kinds counts

abbrev pub no_kind : Kind
no_kind = record { size = 0; exponent = 0 }

abbrev pub bytes : List Kind → List ℕ → ℕ → ℕ
bytes kinds counts i = (get_or kinds i no_kind).size * get_or counts i 0

-- From `from` on, each block has its alignment and its place behind those before, up to `end`.
pub record IsLaidOut (min_exponent : ℕ) (kinds : List Kind) (counts : List ℕ) (from : ℕ)
    (offsets : List ℕ) (end : ℕ) : Type 0 where
  pub sized : length offsets ≡ length kinds
  pub ordered : from ≤ end
  pub inside :
      (i : ℕ)
      → i < length kinds
      → (from ≤ get_or offsets i 0)
        × (get_or offsets i 0 + bytes kinds counts i ≤ end)
        × (get_or offsets i 0 % 2 ^ block_exponent min_exponent (get_or kinds i no_kind) ≡ 0)
  pub apart :
      (i j : ℕ)
      → i < j
      → j < length kinds
      → get_or offsets i 0 + bytes kinds counts i ≤ get_or offsets j 0

-- One block more before the others.
module _ (min_exponent : ℕ) (kind : Kind) (kinds : List Kind) (count : ℕ) (counts : List ℕ)
    (from start : ℕ) (offsets : List ℕ) (end : ℕ) (le : from ≤ start)
    (aligned : start % 2 ^ block_exponent min_exponent kind ≡ 0)
    (rest : IsLaidOut min_exponent kinds counts (start + kind.size * count) offsets end) where
  first_inside :
      (i : ℕ)
      → i < suc (length kinds)
      → (from ≤ get_or (start ∷ offsets) i 0)
        × (get_or (start ∷ offsets) i 0 + bytes (kind ∷ kinds) (count ∷ counts) i ≤ end)
        × (get_or (start ∷ offsets) i 0
              % 2 ^ block_exponent min_exponent (get_or (kind ∷ kinds) i no_kind)
            ≡ 0)
  first_inside zero bound = (le, rest.ordered, aligned)
  first_inside (suc i) bound =
      let there = rest.inside i (omega arith) in (omega (arith, there.0), there.1, there.2)

  first_apart :
      (i j : ℕ)
      → i < j
      → j < suc (length kinds)
      → get_or (start ∷ offsets) i 0 + bytes (kind ∷ kinds) (count ∷ counts) i
        ≤ get_or (start ∷ offsets) j 0
  first_apart i zero lt bound = absurd (omega arith)
  first_apart zero (suc j) lt bound = (rest.inside j (omega arith)).0
  first_apart (suc i) (suc j) lt bound = rest.apart i j (omega arith) (omega arith)

  cons-IsLaidOut : IsLaidOut min_exponent (kind ∷ kinds) (count ∷ counts) from (start ∷ offsets) end
  cons-IsLaidOut = record {
    sized = ap suc rest.sized;
    ordered = omega (arith, rest.ordered);
    inside = first_inside;
    apart = first_apart;
  }

pub place_blocks-IsLaidOut :
    (min_exponent : ℕ) (kinds : List Kind) (counts : List ℕ) (from : ℕ)
    → length counts ≡ length kinds
    → from + room min_exponent kinds counts < 2 ^ 64
    → IsLaidOut min_exponent kinds counts from
        (place_blocks min_exponent kinds counts from).0
        (place_blocks min_exponent kinds counts from).1
unfolding place_blocks
place_blocks-IsLaidOut min_exponent [] counts from same small = record {
  sized = refl;
  ordered = omega arith;
  inside = λ i bound. absurd (omega arith);
  apart = λ i j lt bound. absurd (omega arith);
}
place_blocks-IsLaidOut min_exponent (kind ∷ kinds) [] from same small = absurd (omega arith)
place_blocks-IsLaidOut min_exponent (kind ∷ kinds) (count ∷ counts) from same small =
    cons-IsLaidOut min_exponent kind kinds count counts from start
      (place_blocks min_exponent kinds counts (add64 start (kind.size * count % 2 ^ 64))).0
      (place_blocks min_exponent kinds counts (add64 start (kind.size * count % 2 ^ 64))).1 least.0
      least.2
      (subst
        (λ behind.
          IsLaidOut min_exponent kinds counts (start + kind.size * count)
            (place_blocks min_exponent kinds counts behind).0
            (place_blocks min_exponent kinds counts behind).1)
        (sym next)
        (place_blocks-IsLaidOut min_exponent kinds counts (start + kind.size * count) (omega arith)
          (omega (arith, least.1))))
  where
    start : ℕ
    start = align_to_power 64 (block_exponent min_exponent kind) from

    least :
        (from ≤ start)
        × (start < from + 2 ^ block_exponent min_exponent kind)
        × (start % 2 ^ block_exponent min_exponent kind ≡ 0)
    least = align_to_power-least 64 (block_exponent min_exponent kind) from (omega arith)

    next : add64 start (kind.size * count % 2 ^ 64) ≡ start + kind.size * count
    next =
        ap (add64 start) (mod-eq_of_lt (omega arith))
        ∙ add_word-eq 64 start (kind.size * count) (omega (arith, least.1))

-- The first block begins where the storage does.
pub place_blocks_first :
    (min_exponent : ℕ) (kinds : List Kind) (counts : List ℕ)
    → length counts ≡ length kinds
    → room min_exponent kinds counts < 2 ^ 64
    → get_or (place_blocks min_exponent kinds counts 0).0 0 0 ≡ 0
unfolding place_blocks
place_blocks_first min_exponent [] counts same small = refl
place_blocks_first min_exponent (kind ∷ kinds) [] same small = refl
place_blocks_first min_exponent (kind ∷ kinds) (count ∷ counts) same small =
    let least = align_to_power-least 64 (block_exponent min_exponent kind) 0 (omega arith) in
    sym (mod-eq_of_lt (omega (arith, least.1))) ∙ least.2
