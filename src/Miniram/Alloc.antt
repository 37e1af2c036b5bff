-- ===== src/Miniram/Alloc.antt =====
-- Allocation and release of basic_miniram: `allocate`, `sliceTopBinNode`, `findLowestBitAfter`,
-- `free`, `size_of`, `max_alloc` and `free_regions` (cth/incl/cth/data/inl/miniram.inl).
pub mod Bins
pub mod Best
pub mod Takes
pub mod Storage
use cth.Base.{
  ℕ, zero, suc, ◌+◌, ◌-◌, ◌*◌, ◌/◌, ◌%◌, ◌^◌, Bool, true, false, not, ◌&&◌, List, [], ◌∷◌, Option,
  none, some, Result, ok, critical, diverged, ◌>>=◌, ◌>>◌, check, leb, ltb, ◌==◌, if◌then◌else◌,
  get_or, set, length,
}
use cth.Base.Words.{add_word, sub_word}
use cth.Base.Bits.{bit, set_bit, countr_zero, highest_bit}
use cth.Miniram.Float.{ceil_to_float, to_uint}
use cth.Miniram.Ram.{
  Ram, Node, Allocation, node, invalid_index, no_space, change_node, change_valid, bin_head,
  insert_node, remove_node, drop_head, push_free_node, grow, remaining_allocs,
}

-- `topBinIndex << TOP_BINS_INDEX_SHIFT | leafBinIndex`; a leaf index of 8 shares its bit.
abbrev pub join_bin : ℕ → ℕ → ℕ
join_bin top leaf = if ltb leaf 8 then top * 8 + leaf else set_bit (top * 8) 3

-- A leaf of the top bin, or else the bin that was found behind it.
abbrev pub or_later : ℕ → Option ℕ → Option (ℕ × ℕ) → Option (ℕ × ℕ)
or_later top none later = later
or_later top (some leaf) later = some (top, leaf)

module _ (w v : ℕ) where
  -- `bit_mask & ~((1 << start_id) - 1)` is `bit_mask` with the bits below `start_id` cleared.
  unfoldable pub find_lowest_bit_after : ℕ → ℕ → Option ℕ
  find_lowest_bit_after bit_mask start_id =
      let bits_after = bit_mask / 2 ^ start_id * 2 ^ start_id in
      if bits_after == 0 then none else some (countr_zero w bits_after)

  -- The first leaf of a top bin, which `_usedBinsTop` says has one.
  abbrev pub first_leaf : Ram → Option ℕ → Option (ℕ × ℕ)
  first_leaf r none = none
  first_leaf r (some top) = some (top, countr_zero 8 (get_or r.used_bins top 0))

  -- The top bin and leaf that `allocate` takes: a leaf of the top bin of `min_bin_id`, or else the
  -- first leaf of a later top bin.
  unfoldable pub find_bin : Ram → ℕ → Option (ℕ × ℕ)
  unfolding find_lowest_bit_after
  find_bin r min_bin_id =
      let top = min_bin_id / 8 in
      let leaf =
        if bit r.used_bins_top top == 1
        then find_lowest_bit_after (get_or r.used_bins top 0) (min_bin_id % 8)
        else none in
      or_later top leaf (first_leaf r (find_lowest_bit_after r.used_bins_top (top + 1)))

  -- A new free block `i` stands between the node it was cut from and that node's neighbor.
  abbrev pub insert_neighbor : ℕ → ℕ → Ram → Ram
  insert_neighbor original i r =
      let next = (node w v r original).neighbor_next in
      let back = change_valid w v r next (λ n. record n { neighbor_prev = i }) in
      let both =
        change_node w v back i (λ n. record n { neighbor_prev = original; neighbor_next = next }) in
      change_node w v both original (λ n. record n { neighbor_next = i })

  -- The block at the head of the list of a bin is taken out and cut to `slice_size`.
  abbrev pub take_head : Ram → ℕ → ℕ → ℕ → ℕ → Ram
  take_head r slice_size bin_id top_bin_id leaf_bin_id =
      let original = bin_head w v r bin_id in
      let n = node w v r original in
      let taken = record r { free_storage = sub_word w r.free_storage n.data_size } in
      let cut =
        change_node w v taken original (λ m. record m { data_size = slice_size; used = true }) in
      drop_head w v bin_id top_bin_id leaf_bin_id n.bin_list_next cut

  unfoldable pub slice_top_bin_node : Ram → ℕ → ℕ → ℕ → ℕ → Result Ram
  slice_top_bin_node r slice_size bin_id top_bin_id leaf_bin_id =
      let original = bin_head w v r bin_id in
      let n = node w v r original in
      let cut = take_head r slice_size bin_id top_bin_id leaf_bin_id in
      let reminder_size = sub_word w n.data_size slice_size in
      if reminder_size == 0 then ok cut else (do
        new ← insert_node w v cut reminder_size (add_word w n.data_offset slice_size)
        ok (insert_neighbor original new.0 new.1))

  abbrev pub no_allocation : Allocation
  no_allocation = record { offset = no_space w v; id = invalid_index w v }

  -- `allocate` with the bin that it found.
  abbrev pub allocate_from : Ram → ℕ → Option (ℕ × ℕ) → Result (Allocation × Ram)
  allocate_from r size none = ok (no_allocation, r)
  allocate_from r size (some (top, leaf)) =
      let bin = join_bin top leaf in
      let id = bin_head w v r bin in
      slice_top_bin_node r size bin top leaf >>= λ r'.
      ok (record { offset = (node w v r' id).data_offset; id = id }, r')

  unfoldable pub allocate : Ram → ℕ → Result (Allocation × Ram)
  unfolding slice_top_bin_node find_bin
  allocate r size =
      let grown = if remaining_allocs r == 0 then grow w v r else r in
      if ltb r.free_storage size
      then ok (no_allocation, r)
      else allocate_from grown size (find_bin grown (ceil_to_float w size))

  -- What `free` carries: the merged block and the neighbors of it.
  pub record Merged : Type 0 where
    pub ram : Ram
    pub offset : ℕ
    pub size : ℕ
    pub prev : ℕ
    pub next : ℕ

  -- "Merge with previous free neighbor"
  abbrev pub merge_prev : ℕ → Merged → Result Merged
  merge_prev id m =
      let p = node w v m.ram m.prev in
      if not (m.prev == invalid_index w v) && not p.used
      then (do
        check (not (p.neighbor_next == id))
        r' ← remove_node w v m.ram (node w v m.ram id).neighbor_prev
        ok (record m {
          ram = r';
          offset = p.data_offset;
          size = add_word w m.size p.data_size;
          prev = p.neighbor_prev;
        }))
      else ok m

  -- "Merge with next free neighbor"
  abbrev pub merge_next : ℕ → Merged → Result Merged
  merge_next id m =
      let n = node w v m.ram m.next in
      if not (m.next == invalid_index w v) && not n.used
      then (do
        check (not (n.neighbor_prev == id))
        r' ← remove_node w v m.ram (node w v m.ram id).neighbor_next
        ok (record m { ram = r'; size = add_word w m.size n.data_size; next = n.neighbor_next }))
      else ok m

  -- "Reconnect neighbor chain"
  abbrev pub reconnect : ℕ → ℕ → ℕ → Ram → Ram
  reconnect i prev next r =
      let combined =
        change_node w v r i (λ n. record n { neighbor_prev = prev; neighbor_next = next }) in
      let back = change_valid w v combined next (λ n. record n { neighbor_prev = i }) in
      change_valid w v back prev (λ n. record n { neighbor_next = i })

  abbrev pub is_empty : List Node → Bool
  is_empty [] = true
  is_empty (n ∷ ns) = false

  -- `free` of a ram that has nodes.
  pub free_allocated : Ram → ℕ → Result Ram
  free_allocated r id =
      let n = node w v r id in
      (do
        check (not n.used)
        before ← merge_prev id (record {
          ram = r;
          offset = n.data_offset;
          size = n.data_size;
          prev = n.neighbor_prev;
          next = n.neighbor_next;
        })
        merged ← merge_next id before
        pushed ← push_free_node merged.ram id
        made ← insert_node w v pushed merged.size merged.offset
        ok (reconnect made.0 merged.prev merged.next made.1))

  pub free : Ram → Allocation → Result Ram
  unfolding free_allocated
  free r allocation = if is_empty r.nodes then ok r else free_allocated r allocation.id

  pub size_of : Ram → Allocation → ℕ
  size_of r allocation =
      if allocation.id == invalid_index w v
      then 0
      else if is_empty r.nodes
      then 0
      else (node w v r allocation.id).data_size

  unfoldable pub max_alloc : Ram → ℕ
  max_alloc r =
      let top = highest_bit w r.used_bins_top in
      if r.free_storage == 0
      then 0
      else to_uint w (join_bin top (highest_bit 8 (get_or r.used_bins top 0)))

  -- The blocks in the list from `i` on, in at most as many rounds as the fuel says.
  abbrev pub count_list : ℕ → Ram → ℕ → Result ℕ
  count_list zero r i = if i == invalid_index w v then ok 0 else diverged
  count_list (suc fuel) r i =
      let rest = count_list fuel r (node w v r i).bin_list_next in
      if i == invalid_index w v then ok 0 else rest >>= λ n. ok (suc n)

  -- `free_regions()` of the bins from `i` on: the count and the size of each.
  pub free_regions : ℕ → ℕ → Ram → Result (List (ℕ × ℕ))
  free_regions i zero r = ok []
  free_regions i (suc n) r = do
    count ← count_list (length r.nodes) r (bin_head w v r i)
    rest ← free_regions (suc i) n r
    ok ((count, to_uint w i) ∷ rest)
