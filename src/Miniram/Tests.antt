-- ===== src/Miniram/Tests.antt =====
-- Small runs of basic_miniram with words of 8 bits, and its theorems applied to them.
use cth.Base.{
  true, ℕ, zero, suc, ◌+◌, ◌-◌, ◌*◌, ◌/◌, ◌%◌, ◌^◌, ◌≤◌, ◌<◌, ◌≡◌, ◌≢◌, ◌↔◌, refl, sym, ap, subst,
  ◌∙◌, ◌⊎◌, inl, inr, none, some, List, [], ◌∷◌, ◌++◌, ok, critical, replicate, arith,
  get_or-replicate, dec_lt,
}
use cth.Base.Bits.{countr_zero, set_bit, clear_bit, bit, highest_bit}
use cth.Base.BitScan.{bit-of_zero}
use cth.Miniram.Float.{floor_to_float, ceil_to_float, float_size, to_uint}
use cth.Miniram.Float.Laws.{ceil-bounds, floor-bounds}
use cth.Miniram.Float.Units.{float_size_le}
use cth.Miniram.Ram.{
  insert_node, new_node, pop_free_node, link_node, mark_bin, drop_head, unmark_bin, Ram, fresh_node,
  node, bin_head,
}
use cth.Miniram.Alloc.{find_lowest_bit_after, slice_top_bin_node, allocate, find_bin, max_alloc}
use cth.Miniram.Alloc.Bins.{IsMarked, LowestBin, leaves, marked, find_bin-LowestBin}
use cth.Miniram.Alloc.Takes.{IsStocked, Takes, head_size, head_offset, allocate-Takes}
use cth.Miniram.Ram.Blocks.{next_free}
use cth.Miniram.Alloc.Best.{IsBinned, max_alloc_iff}
use cth.Miniram.Defrag.{MemMove, defragment}
use cth.Miniram.Defrag.Empty.{defragment_without_used}
use cth.Miniram.Copies.{to_disjunct_copies}
use cth.Miniram.Copies.Laws.{AllDisjunct, to_disjunct_copies-same}
use cth.Miniram.Copies.Memory.{move_all}

ceil-bounds_example :
    37 ≤ float_size (ceil_to_float 8 37) × (0 < 37 → float_size (ceil_to_float 8 37 - 1) < 37)
ceil-bounds_example = ceil-bounds 8 37 (omega arith)

-- A ram of 10 elements, all free, with room for one more block.
abbrev ram : Ram
ram = record {
  capacity = 10;
  max_allocs = 0;
  free_storage = 10;
  used_bins_top = 2;
  used_bins = 0 ∷ 4 ∷ replicate 6 0;
  bin_indices = replicate 10 255 ++ 0 ∷ replicate 53 255;
  nodes = record (fresh_node 8 8) { data_size = 10 } ∷ fresh_node 8 8 ∷ [];
  free_nodes = 0 ∷ 1 ∷ [];
  free_stack_ptr = 1;
}

top_cases : (top : ℕ) → (leaves ram top ≡ 0) ⊎ (top ≡ 1)
top_cases zero = inl refl
top_cases (suc zero) = inr refl
top_cases (suc (suc top)) = inl (get_or-replicate 6 top 0)

leaf_cases : (leaf : ℕ) → bit 4 leaf ≡ 1 → leaf ≡ 2
unfolding bit
leaf_cases zero e = omega arith
leaf_cases (suc zero) e = omega arith
leaf_cases (suc (suc zero)) e = refl
leaf_cases (suc (suc (suc leaf))) e = absurd (omega (arith, bit-of_zero 0 leaf refl))

marked_cases : (bin : ℕ) → marked ram bin ≡ 1 → bin ≡ 10
marked_cases bin e = elim (top_cases (bin / 8)) [
  | inl empty ↦ absurd (omega (arith, bit-of_zero (leaves ram (bin / 8)) (bin % 8) empty))
  | inr top ↦
      omega
        (arith, top, leaf_cases (bin % 8) (sym (ap (λ t. bit (leaves ram t) (bin % 8)) top) ∙ e))
]

tops : (top : ℕ) → bit 2 top ≡ 1 → top ≡ 1
unfolding bit
tops zero e = omega arith
tops (suc zero) e = refl
tops (suc (suc top)) e = absurd (omega (arith, bit-of_zero 0 top refl))

ram-IsMarked : IsMarked 8 ram
unfolding bit
ram-IsMarked = record {
  tops_fit = omega arith;
  leaves_fit = λ top. elim (top_cases top) [
    | inl e ↦ omega (arith, e)
    | inr e ↦ omega (arith, ap (leaves ram) e)
  ];
  top_used = λ top e. omega (arith, ap (leaves ram) (tops top e));
  top_unused = λ top ne. elim (top_cases top) [ inl e ↦ e | inr e ↦ absurd (ne (ap (bit 2) e)) ];
}

ram-IsBinned : IsBinned 8 8 ram
unfolding floor_to_float highest_bit
ram-IsBinned = record {
  wide = omega arith;
  masks = ram-IsMarked;
  some_block = omega arith;
  free_block = omega arith;
  head_class = λ bin e.
      subst (λ b. floor_to_float 8 (node 8 8 ram (bin_head 8 8 ram b)).data_size ≡ b)
        (sym (marked_cases bin e)) refl;
  head_fits = λ bin e.
      subst (λ b. (node 8 8 ram (bin_head 8 8 ram b)).data_size < 2 ^ 8) (sym (marked_cases bin e))
        (omega arith);
}

ram-max_alloc : max_alloc 8 8 ram ≡ 10
unfolding max_alloc to_uint float_size highest_bit
ram-max_alloc = refl

find_bin-LowestBin_example : LowestBin ram 5 (find_bin 8 8 ram 5)
find_bin-LowestBin_example = find_bin-LowestBin 8 8 ram 5 (omega arith) ram-IsMarked

max_alloc_iff_example : 7 ≤ max_alloc 8 8 ram ↔ (find_bin 8 8 ram (ceil_to_float 8 7) ≢ none)
max_alloc_iff_example = max_alloc_iff 8 8 ram ram-IsBinned 7 (omega arith)

ram_classes : (n : ℕ) → n < 2 ^ 8 → floor_to_float 8 n < 64
unfolding float_size
ram_classes n lt = elim (dec_lt (floor_to_float 8 n) 64) [
  | yes h ↦ h
  | no h ↦
      absurd (
        omega (arith, (floor-bounds 8 n lt).0, float_size_le 64 (floor_to_float 8 n) (omega arith)))
]

ram-IsStocked : IsStocked 8 8 ram
ram-IsStocked = record {
  left = λ e. omega arith;
  below = omega arith;
  inside = omega arith;
  heads = λ bin e. subst (λ b. bin_head 8 8 ram b < 2) (sym (marked_cases bin e)) (omega arith);
  apart = λ bin e.
      subst (λ b. next_free ram ≢ bin_head 8 8 ram b) (sym (marked_cases bin e))
        (λ same. omega (arith, same));
  classes = ram_classes;
}

allocate-Takes_example :
    (top : ℕ) × (leaf : ℕ) × LowestBin ram (ceil_to_float 8 7) (some (top, leaf))
    × (7 ≤ head_size 8 8 ram (top * 8 + leaf))
    × (t : Ram) × (allocate 8 8 ram 7
        ≡ ok (
          record {
            offset = head_offset 8 8 ram (top * 8 + leaf);
            id = bin_head 8 8 ram (top * 8 + leaf);
          },
          t,
        ))
    × Takes 8 8 ram 7 (top * 8 + leaf) t
allocate-Takes_example =
    allocate-Takes 8 8 ram 7 ram-IsBinned ram-IsStocked (omega (arith, ram-max_alloc)) (omega arith)

defragment_without_used_example : defragment 8 8 ram 20 ≡ critical
defragment_without_used_example =
    defragment_without_used 8 8 ram 20 refl (omega arith) (omega arith)

-- 7 elements go 3 places to the left.
abbrev moves : List MemMove
moves = record { src_offset = 8; dst_offset = 5; size = 7 } ∷ []

to_disjunct_copies-same_example :
    (copies : List MemMove) × (to_disjunct_copies 8 moves ≡ ok copies)
    × AllDisjunct copies
    × ((mem : ℕ → ℕ) (i : ℕ) → move_all copies mem i ≡ move_all moves mem i)
to_disjunct_copies-same_example = to_disjunct_copies-same 8 moves ((omega arith, omega arith), tt)

-- The ram after 7 of its elements were allocated.
abbrev served : Ram
served = record {
  capacity = 10;
  max_allocs = 0;
  free_storage = 3;
  used_bins_top = 1;
  used_bins = 8 ∷ 0 ∷ replicate 6 0;
  bin_indices = replicate 3 255 ++ 1 ∷ replicate 60 255;
  nodes =
      record (fresh_node 8 8) { data_size = 7; neighbor_next = 1; used = true }
      ∷ record (fresh_node 8 8) { data_offset = 7; data_size = 3; neighbor_prev = 0 }
      ∷ [];
  free_nodes = 0 ∷ 1 ∷ [];
  free_stack_ptr = 2;
}

ram-allocate : allocate 8 8 ram 7 ≡ ok (record { offset = 0; id = 0 }, served)
unfolding allocate find_bin find_lowest_bit_after slice_top_bin_node insert_node new_node
    pop_free_node link_node mark_bin drop_head unmark_bin floor_to_float ceil_to_float highest_bit
    countr_zero bit set_bit clear_bit
ram-allocate = refl
