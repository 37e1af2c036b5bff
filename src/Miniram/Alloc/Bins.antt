-- ===== src/Miniram/Alloc/Bins.antt =====
-- The bin that `allocate` takes a block from (cth/incl/cth/data/inl/miniram.inl).
use cth.Base.{
  ℕ, suc, ◌+◌, ◌*◌, ◌/◌, ◌%◌, ◌^◌, ◌≤◌, ◌<◌, ◌≡◌, ◌≢◌, sym, ap, ap₂, subst, ◌∙◌, Option, none, some,
  ◌==◌, if◌then◌else◌, if-true, if-false, get_or, arith, Bool-cases, inl, inr, dec_lt, ℕ_discrete,
}
use cth.Base.Bits.{bit, countr_zero}
use cth.Base.BitScan.{
  countr_zero-bit, countr_zero-below, bit-mask_low, bit-mask_high, bit-width, bit-of_zero,
}
use native.Mathlib.Nat.{div-mul-le_self, pow-le-pow_right}
use cth.Miniram.Ram.{Ram}
use cth.Miniram.Alloc.{find_lowest_bit_after, first_leaf, or_later, find_bin}

abbrev pub leaves : Ram → ℕ → ℕ
leaves r top = get_or r.used_bins top 0

-- The bit of a bin: whether its list has a block.
abbrev pub marked : Ram → ℕ → ℕ
marked r bin = bit (leaves r (bin / 8)) (bin % 8)

-- The masks fit their words, and the mask of the top bins says which leaf masks are not 0.
pub record IsMarked (w : ℕ) (r : Ram) : Type 0 where
  pub tops_fit : r.used_bins_top < 2 ^ w
  pub leaves_fit : (top : ℕ) → leaves r top < 2 ^ 8
  pub top_used : (top : ℕ) → bit r.used_bins_top top ≡ 1 → 0 < leaves r top
  pub top_unused : (top : ℕ) → bit r.used_bins_top top ≢ 1 → leaves r top ≡ 0

-- The lowest bit of a mask from a position on.
abbrev LowestBit : ℕ → ℕ → Option ℕ → Type 0
LowestBit mask start none = (j : ℕ) → start ≤ j → bit mask j ≡ 0
LowestBit mask start (some k) =
    start ≤ k × (bit mask k ≡ 1) × ((j : ℕ) → start ≤ j → j < k → bit mask j ≡ 0)

find_lowest_bit_after-LowestBit :
    (w v mask start : ℕ)
    → mask < 2 ^ w
    → LowestBit mask start (find_lowest_bit_after w v mask start)
unfolding find_lowest_bit_after
find_lowest_bit_after-LowestBit w v mask start lt = elim (Bool-cases (after == 0)) [
  | inl empty ↦
      subst (LowestBit mask start) (sym (if-true empty _ _))
        (λ j le. sym (bit-mask_high mask start j le) ∙ bit-of_zero after j (ground (arith, empty)))
  | inr found ↦
      subst (LowestBit mask start) (sym (if-false found _ _)) (lowest (ground (arith, found)))
]
  where
    after : ℕ
    after = mask / 2 ^ start * 2 ^ start

    low : ℕ
    low = countr_zero w after

    fits : after < 2 ^ w
    fits = omega (arith, div-mul-le_self mask (2 ^ start))

    lowest : 0 < after → LowestBit mask start (some low)
    lowest pos = (
      start_le,
      sym (bit-mask_high mask start low start_le) ∙ bit_low,
      λ j le below. sym (bit-mask_high mask start j le) ∙ countr_zero-below w after j below,
    )
      where
        bit_low : bit after low ≡ 1
        bit_low = countr_zero-bit w after pos fits

        start_le : start ≤ low
        start_le = elim (dec_lt low start) [
          | yes h ↦ absurd (omega (arith, bit_low, bit-mask_low mask start low h))
          | no h ↦ omega arith
        ]

-- The lowest bin with a block from a bin on, as a top bin and a leaf.
abbrev pub LowestBin : Ram → ℕ → Option (ℕ × ℕ) → Type 0
LowestBin r min none = (bin : ℕ) → min ≤ bin → marked r bin ≡ 0
LowestBin r min (some (top, leaf)) =
    leaf < 8
    × (min ≤ top * 8 + leaf)
    × (marked r (top * 8 + leaf) ≡ 1)
    × ((bin : ℕ) → min ≤ bin → bin < top * 8 + leaf → marked r bin ≡ 0)

pub marked_at : (r : Ram) (t l : ℕ) → l < 8 → marked r (t * 8 + l) ≡ bit (leaves r t) l
marked_at r t l lt = ap₂ (λ t l. bit (leaves r t) l) (omega arith) (omega arith)

pub marked_same : (r : Ram) (bin t : ℕ) → bin / 8 ≡ t → marked r bin ≡ bit (leaves r t) (bin % 8)
marked_same r bin t same = ap (λ t. bit (leaves r t) (bin % 8)) same

-- The bits of a bin in the top bin of the bin asked for, and in a later one.
module _ (w v : ℕ) (r : Ram) (min : ℕ) (m : IsMarked w r) where
  here_unmarked :
      LowestBit (leaves r (min / 8)) (min % 8) none
      → (bin : ℕ) → min ≤ bin
      → bin / 8 ≡ min / 8
      → marked r bin ≡ 0
  here_unmarked low bin le same = marked_same r bin (min / 8) same ∙ low (bin % 8) (omega arith)

  top_unmarked : (bin : ℕ) → bit r.used_bins_top (bin / 8) ≡ 0 → marked r bin ≡ 0
  top_unmarked bin zero_bit =
      bit-of_zero (leaves r (bin / 8)) (bin % 8) (m.top_unused (bin / 8) (λ e. omega arith))

  none_below :
      LowestBit (leaves r (min / 8)) (min % 8) none
      → (stop : ℕ) → ((t : ℕ) → min / 8 + 1 ≤ t → t < stop → bit r.used_bins_top t ≡ 0)
      → (bin : ℕ) → min ≤ bin
      → bin / 8 < stop
      → marked r bin ≡ 0
  none_below low stop tops bin le lt = elim (ℕ_discrete (bin / 8) (min / 8)) [
    | yes same ↦ here_unmarked low bin le same
    | no other ↦ top_unmarked bin (tops (bin / 8) (omega arith) lt)
  ]

  choose :
      (leaf tops : Option ℕ)
      → LowestBit (leaves r (min / 8)) (min % 8) leaf
      → LowestBit r.used_bins_top (min / 8 + 1) tops
      → LowestBin r min (or_later (min / 8) leaf (first_leaf w v r tops))
  choose (some l) tops (le, set, least) later = (
    l_lt,
    omega arith,
    marked_at r (min / 8) l l_lt ∙ set,
    λ bin ge lt.
        marked_same r bin (min / 8) (omega (arith, l_lt))
        ∙ least (bin % 8) (omega (arith, l_lt)) (omega (arith, l_lt)),
  )
    where
      l_lt : l < 8
      l_lt = bit-width 8 (leaves r (min / 8)) l (m.leaves_fit (min / 8)) set
  choose none none low later =
      λ bin le. none_below low (suc (bin / 8)) (λ t ge lt. later t ge) bin le (omega arith)
  choose none (some t) low (ge, set, least) =
      (l_lt, omega arith, marked_at r t l l_lt ∙ l_bit, below)
    where
      l : ℕ
      l = countr_zero 8 (leaves r t)

      l_bit : bit (leaves r t) l ≡ 1
      l_bit = countr_zero-bit 8 (leaves r t) (m.top_used t set) (m.leaves_fit t)

      l_lt : l < 8
      l_lt = bit-width 8 (leaves r t) l (m.leaves_fit t) l_bit

      below : (bin : ℕ) → min ≤ bin → bin < t * 8 + l → marked r bin ≡ 0
      below bin le lt = elim (dec_lt (bin / 8) t) [
        | yes h ↦ none_below low t least bin le h
        | no h ↦
            marked_same r bin t (omega (arith, l_lt, lt))
            ∙ countr_zero-below 8 (leaves r t) (bin % 8) (omega (arith, l_lt, lt))
      ]

-- Where the masks are right and `size_type` has at least 8 bits, `find_bin` finds the lowest bin with
-- a block from the bin asked for on, if there is one, and otherwise nothing.
pub find_bin-LowestBin :
    (w v : ℕ) (r : Ram) (min : ℕ) → 8 ≤ w → IsMarked w r → LowestBin r min (find_bin w v r min)
unfolding find_bin
find_bin-LowestBin w v r min wide m =
    choose w v r min m _ _ leaf_lowest
      (find_lowest_bit_after-LowestBit w v r.used_bins_top (min / 8 + 1) m.tops_fit)
  where
    top : ℕ
    top = min / 8

    leaf_lowest : LowestBit (leaves r top) (min % 8) (
        if bit r.used_bins_top top == 1
        then find_lowest_bit_after w v (leaves r top) (min % 8)
        else none)
    leaf_lowest = elim (Bool-cases (bit r.used_bins_top top == 1)) [
      | inl used ↦ subst (LowestBit (leaves r top) (min % 8)) (sym (if-true used _ _)) (
          find_lowest_bit_after-LowestBit w v (leaves r top) (min % 8)
            (omega (arith, m.leaves_fit top, pow-le-pow_right {n = 2} (omega arith) wide)))
      | inr unused ↦
          subst (LowestBit (leaves r top) (min % 8)) (sym (if-false unused _ _))
            (λ j le. bit-of_zero (leaves r top) j (m.top_unused top (ground (arith, unused))))
    ]
