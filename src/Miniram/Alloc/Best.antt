-- ===== src/Miniram/Alloc/Best.antt =====
-- The largest block that `allocate` can give, and the block that it takes
-- (cth/incl/cth/data/inl/miniram.inl).
use cth.Base.{
  ℕ, ◌+◌, ◌-◌, ◌*◌, ◌/◌, ◌%◌, ◌^◌, ◌≤◌, ◌<◌, ◌≡◌, ◌≢◌, ◌↔◌, ap, subst, ◌∙◌, false, Option, none,
  some, ◌==◌, if-true, if-false, lt→ltb, ltb-false, arith, Option-cases, inl, inr, dec_lt, dec_le,
  ℕ_discrete, ok,
}
use cth.Base.Bits.{bit, highest_bit}
use cth.Base.BitScan.{highest_bit-bit, highest_bit-above, bit-width, bit-of_zero}
use cth.Miniram.Float.{floor_to_float, ceil_to_float, float_size, to_uint}
use cth.Miniram.Float.Laws.{floor-bounds, ceil-bounds, ceil_le_floor, to_uint-eq}
use cth.Miniram.Float.Units.{ceil_to_float-small, float_size_le}
use cth.Miniram.Ram.{Ram, node, bin_head, remaining_allocs}
use cth.Miniram.Alloc.{find_bin, max_alloc, allocate, allocate_from, no_allocation}
use cth.Miniram.Alloc.Bins.{
  leaves, marked, marked_at, marked_same, IsMarked, LowestBin, find_bin-LowestBin,
}

-- The masks are right, some bin has a block, and the head of the list of a bin that has one is a node
-- of this bin.
pub record IsBinned (w v : ℕ) (r : Ram) : Type 0 where
  pub wide : 8 ≤ w
  pub masks : IsMarked w r
  pub some_block : 0 < r.used_bins_top
  pub free_block : 0 < r.free_storage
  pub head_class :
      (bin : ℕ)
      → marked r bin ≡ 1
      → floor_to_float w (node w v r (bin_head w v r bin)).data_size ≡ bin
  pub head_fits : (bin : ℕ) → marked r bin ≡ 1 → (node w v r (bin_head w v r bin)).data_size < 2 ^ w

module _ (w v : ℕ) (r : Ram) (b : IsBinned w v r) where
  -- The highest bin with a block.
  best_top : ℕ
  best_top = highest_bit w r.used_bins_top

  best_leaf : ℕ
  best_leaf = highest_bit 8 (leaves r best_top)

  best : ℕ
  best = best_top * 8 + best_leaf

  best_top_used : 0 < leaves r best_top
  unfolding best_top
  best_top_used =
      b.masks.top_used best_top (highest_bit-bit w r.used_bins_top b.some_block b.masks.tops_fit)

  best_leaf_set : bit (leaves r best_top) best_leaf ≡ 1
  unfolding best_leaf
  best_leaf_set = highest_bit-bit 8 (leaves r best_top) best_top_used (b.masks.leaves_fit best_top)

  best_leaf_lt : best_leaf < 8
  best_leaf_lt =
      bit-width 8 (leaves r best_top) best_leaf (b.masks.leaves_fit best_top) best_leaf_set

  best-marked : marked r best ≡ 1
  unfolding best
  best-marked = marked_at r best_top best_leaf best_leaf_lt ∙ best_leaf_set

  best_greatest : (bin : ℕ) → best < bin → marked r bin ≡ 0
  unfolding best best_top best_leaf
  best_greatest bin lt = elim (ℕ_discrete (bin / 8) best_top) [
    | yes same ↦
        marked_same r bin best_top same
        ∙ highest_bit-above 8 (leaves r best_top) (bin % 8) (b.masks.leaves_fit best_top)
            (omega arith)
    | no other ↦ bit-of_zero (leaves r (bin / 8)) (bin % 8) (
        b.masks.top_unused (bin / 8) (λ e. omega (
          arith,
          best_leaf_lt,
          highest_bit-above w r.used_bins_top (bin / 8) b.masks.tops_fit
              (omega (arith, best_leaf_lt)),
        )))
  ]

  best_bounds :
      float_size best ≤ (node w v r (bin_head w v r best)).data_size × float_size best < 2 ^ w
  best_bounds = (le, omega (arith, le, b.head_fits best best-marked))
    where
      head : ℕ
      head = (node w v r (bin_head w v r best)).data_size

      le : float_size best ≤ head
      le =
          subst (λ f. float_size f ≤ head) (b.head_class best best-marked)
            (floor-bounds w head (b.head_fits best best-marked)).0

  max_alloc-best : max_alloc w v r ≡ float_size best
  unfolding max_alloc best best_top best_leaf
  max_alloc-best =
      if-false (not_zero r.free_storage b.free_block) _ _
      ∙ ap (to_uint w) (if-true (lt→ltb best_leaf 8 best_leaf_lt) _ _)
      ∙ to_uint-eq w best best_bounds.1
    where
      not_zero : (n : ℕ) → 0 < n → (n == 0) ≡ false
      not_zero n h = ground arith

  -- The class asked for is at most the highest bin with a block, if and only if the size is at most
  -- what this bin stands for.
  ceil_le_best : (size : ℕ) → size < 2 ^ w → size ≤ float_size best → ceil_to_float w size ≤ best
  ceil_le_best size lt le = elim (dec_le (ceil_to_float w size) best) [
    | yes h ↦ h
    | no h ↦ absurd (
        omega (
          arith,
          (ceil-bounds w size lt).1 (positive h),
          float_size_le best (ceil_to_float w size - 1) (omega arith),
        ))
  ]
    where
      positive : ¬ (ceil_to_float w size ≤ best) → 0 < size
      positive above = elim (dec_lt 0 size) [
        | yes h ↦ h
        | no h ↦ absurd (omega (arith, ceil_to_float-small w size (omega arith)))
      ]

  found : (size : ℕ) → LowestBin r (ceil_to_float w size) (find_bin w v r (ceil_to_float w size))
  found size = find_bin-LowestBin w v r (ceil_to_float w size) b.wide b.masks

  bin_bound :
      (size : ℕ)
      → size < 2 ^ w
      → (t l : ℕ) → LowestBin r (ceil_to_float w size) (some (t, l))
      → size ≤ max_alloc w v r
  bin_bound size lt t l (leaf_lt, ge, set, least) = omega (
    arith,
    max_alloc-best,
    (ceil-bounds w size lt).0,
    float_size_le (ceil_to_float w size) best (elim (dec_le (t * 8 + l) best) [
      | yes h ↦ omega arith
      | no h ↦ absurd (omega (arith, set, best_greatest (t * 8 + l) (omega arith)))
    ]),
  )

  -- Where some block is free and each head of a list is a node of its bin, `max_alloc` is exact: for a
  -- size of `w` bits a bin is found if and only if the size is at most `max_alloc()`.
  pub max_alloc_iff :
      (size : ℕ)
      → size < 2 ^ w
      → size ≤ max_alloc w v r ↔ (find_bin w v r (ceil_to_float w size) ≢ none)
  max_alloc_iff size lt = (finds, bounded)
    where
      finds : size ≤ max_alloc w v r → find_bin w v r (ceil_to_float w size) ≢ none
      finds le nothing = omega (
        arith,
        best-marked,
        subst (LowestBin r (ceil_to_float w size)) nothing (found size) best
            (ceil_le_best size lt (omega (arith, max_alloc-best))),
      )

      bounded : find_bin w v r (ceil_to_float w size) ≢ none → size ≤ max_alloc w v r
      bounded some_bin = elim (Option-cases (find_bin w v r (ceil_to_float w size))) [
        | inl nothing ↦ absurd (some_bin nothing)
        | inr ((t, l), eq) ↦
            bin_bound size lt t l (subst (LowestBin r (ceil_to_float w size)) eq (found size))
      ]

  -- `allocate` with the bin that it finds.
  allocate_bin :
      (size : ℕ) (o : Option (ℕ × ℕ))
      → size ≤ r.free_storage
      → remaining_allocs r ≢ 0
      → find_bin w v r (ceil_to_float w size) ≡ o
      → allocate w v r size ≡ allocate_from w v r size o
  unfolding allocate
  allocate_bin size o enough room eq =
      if-false (ltb-false r.free_storage size enough) _ _
      ∙ ap (λ g. allocate_from w v g size (find_bin w v g (ceil_to_float w size)))
          (if-false (not_zero (remaining_allocs r) room) _ _)
      ∙ ap (allocate_from w v r size) eq
    where
      not_zero : (n : ℕ) → n ≢ 0 → (n == 0) ≡ false
      not_zero n h = ground arith

  -- The bin that `allocate` finds for a size up to `max_alloc()` and `remaining()`: the lowest with a
  -- block from the class of the size on, whose head is not smaller than the size.
  pub allocate_finds :
      (size : ℕ)
      → size ≤ max_alloc w v r
      → size ≤ r.free_storage
      → remaining_allocs r ≢ 0
      → (top : ℕ) × (leaf : ℕ) × LowestBin r (ceil_to_float w size) (some (top, leaf))
        × (size ≤ (node w v r (bin_head w v r (top * 8 + leaf))).data_size)
        × (allocate w v r size ≡ allocate_from w v r size (some (top, leaf)))
  unfolding allocate
  allocate_finds size le enough room = elim (Option-cases (find_bin w v r (ceil_to_float w size))) [
    | inl nothing ↦ absurd ((max_alloc_iff size size_lt).0 le nothing)
    | inr ((t, l), eq) ↦
        let (leaf_lt, ge, set, least) =
          subst (LowestBin r (ceil_to_float w size)) eq (found size) in
        (
          t,
          l,
          (leaf_lt, ge, set, least),
          block_fits (t * 8 + l) ge set,
          allocate_bin size (some (t, l)) enough room eq,
        )
  ]
    where
      size_lt : size < 2 ^ w
      size_lt = omega (arith, max_alloc-best, best_bounds)

      block_fits :
          (bin : ℕ)
          → ceil_to_float w size ≤ bin
          → marked r bin ≡ 1
          → size ≤ (node w v r (bin_head w v r bin)).data_size
      block_fits bin ge set = omega (
        arith,
        (ceil-bounds w size size_lt).0,
        (ceil_le_floor w size (node w v r (bin_head w v r bin)).data_size (b.head_fits bin set)).0
            (omega (arith, b.head_class bin set)),
      )

  -- Where some block is free, each head of a list is a node of its bin and a free node is left,
  -- `allocate` of a size of `w` bits above `max_alloc()` returns no allocation and changes nothing.
  pub allocate_refuses :
      (size : ℕ)
      → size < 2 ^ w
      → max_alloc w v r < size
      → remaining_allocs r ≢ 0
      → allocate w v r size ≡ ok (no_allocation w v, r)
  unfolding allocate
  allocate_refuses size lt above room = elim (dec_le size r.free_storage) [
    | yes enough ↦ elim (Option-cases (find_bin w v r (ceil_to_float w size))) [
      | inl nothing ↦ allocate_bin size none enough room nothing
      | inr (bin, eq) ↦
          absurd (omega (arith, (max_alloc_iff size lt).1 (λ nothing. some_not_none eq nothing)))
    ]
    | no more ↦ if-true (lt→ltb r.free_storage size (omega arith)) _ _
  ]
    where
      some_not_none : {o : Option (ℕ × ℕ)} {a : ℕ × ℕ} → o ≡ some a → o ≡ none → ⊥
      some_not_none p q = cc
