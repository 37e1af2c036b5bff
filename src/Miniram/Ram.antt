-- ===== src/Miniram/Ram.antt =====
-- The object of basic_miniram with its stack of free nodes and its lists of free blocks
-- (cth/incl/cth/data/miniram.hpp, cth/incl/cth/data/inl/miniram.inl). `w` is the number of bits of
-- `size_type`, and `v` that of `index_type`. A node that is not there reads as a fresh one.
pub mod Stack
pub mod Storage
pub mod Blocks
use cth.Base.{
  ℕ, zero, suc, ◌+◌, ◌-◌, ◌*◌, ◌/◌, ◌%◌, ◌^◌, Bool, true, false, not, List, [], ◌∷◌, ◌++◌, Result,
  ok, critical, ◌>>=◌, ◌>>◌, check, leb, ltb, ◌==◌, if◌then◌else◌, get_or, set, replicate, length,
}
use cth.Base.Words.{add64, sub64, add_word, sub_word}
use cth.Base.Bits.{set_bit, clear_bit}
use cth.Miniram.Float.{floor_to_float}

-- `basic_mini_node`
pub record Node : Type 0 where
  pub data_offset : ℕ
  pub data_size : ℕ
  pub bin_list_prev : ℕ
  pub bin_list_next : ℕ
  pub neighbor_prev : ℕ
  pub neighbor_next : ℕ
  pub used : Bool

-- `basic_mini_alloc`
pub record Allocation : Type 0 where
  pub offset : ℕ
  pub id : ℕ

-- `basic_miniram`
pub record Ram : Type 0 where
  pub capacity : ℕ
  pub max_allocs : ℕ
  pub free_storage : ℕ
  pub used_bins_top : ℕ
  pub used_bins : List ℕ
  pub bin_indices : List ℕ
  pub nodes : List Node
  pub free_nodes : List ℕ
  pub free_stack_ptr : ℕ

abbrev pub alloc_capacity : Ram → ℕ
alloc_capacity r = sub64 (length r.nodes) 1

abbrev pub remaining_allocs : Ram → ℕ
remaining_allocs r = sub64 (length r.nodes) r.free_stack_ptr

-- `popFreeNode()`
unfoldable pub pop_free_node : Ram → Result (ℕ × Ram)
pop_free_node r = do
  check (leb (length r.nodes) r.free_stack_ptr)
  ok (get_or r.free_nodes r.free_stack_ptr 0, record r { free_stack_ptr = suc r.free_stack_ptr })

-- `pushFreeNode() = id`
pub push_free_node : Ram → ℕ → Result Ram
push_free_node r id = do
  check (r.free_stack_ptr == 0)
  ok (record r {
    free_nodes = set r.free_nodes (r.free_stack_ptr - 1) id;
    free_stack_ptr = r.free_stack_ptr - 1;
  })

module _ (w v : ℕ) where
  abbrev pub invalid_index : ℕ
  invalid_index = 2 ^ v - 1

  abbrev pub no_space : ℕ
  no_space = 2 ^ w - 1

  abbrev pub fresh_node : Node
  fresh_node = record {
    data_offset = 0;
    data_size = 0;
    bin_list_prev = invalid_index;
    bin_list_next = invalid_index;
    neighbor_prev = invalid_index;
    neighbor_next = invalid_index;
    used = false;
  }

  abbrev pub node : Ram → ℕ → Node
  node r i = get_or r.nodes i fresh_node

  -- An assignment to fields of `_nodes[i]`.
  abbrev pub change_node : Ram → ℕ → (Node → Node) → Ram
  change_node r i f = record r { nodes = set r.nodes i (f (node r i)) }

  -- The same, if `i != INVALID_INDEX`.
  abbrev pub change_valid : Ram → ℕ → (Node → Node) → Ram
  change_valid r i f = if i == invalid_index then r else change_node r i f

  abbrev pub bin_head : Ram → ℕ → ℕ
  bin_head r bin = get_or r.bin_indices bin invalid_index

  -- `std::iota` over the new free nodes, from `i` on.
  abbrev pub iota_nodes : ℕ → ℕ → List ℕ
  iota_nodes i zero = []
  iota_nodes i (suc n) = i % 2 ^ v ∷ iota_nodes (suc i) n

  pub reserve_nodes : Ram → ℕ → Ram
  reserve_nodes r n = if leb n (length r.nodes) then r else record r {
    nodes = r.nodes ++ replicate (n - length r.nodes) fresh_node;
    free_nodes = r.free_nodes ++ iota_nodes (length r.nodes) (n - length r.nodes);
  }

  pub reserve_allocations : Ram → ℕ → Ram
  unfolding reserve_nodes
  reserve_allocations r n = reserve_nodes r (add64 n 1)

  -- `reserve_allocations()`
  pub grow : Ram → Ram
  unfolding reserve_allocations
  grow r = reserve_allocations r (alloc_capacity r * 2 % 2 ^ 64)

  unfoldable pub new_node : Ram → ℕ → Result (ℕ × Ram)
  unfolding pop_free_node
  new_node r size = pop_free_node (record r { free_storage = add_word w r.free_storage size })

  pub free_node : Ram → ℕ → Result Ram
  unfolding push_free_node
  free_node r i = do
    check (leb (length r.nodes) i)
    push_free_node (record r { free_storage = sub_word w r.free_storage (node r i).data_size }) i

  -- The bits of a bin that stops being empty, and of one that becomes empty.
  unfoldable pub mark_bin : Ram → ℕ → ℕ → Ram
  mark_bin r top leaf = record r {
    used_bins_top = set_bit r.used_bins_top top;
    used_bins = set r.used_bins top (set_bit (get_or r.used_bins top 0) leaf);
  }

  unfoldable pub unmark_bin : Ram → ℕ → ℕ → Ram
  unmark_bin r top leaf =
      let leaves = clear_bit (get_or r.used_bins top 0) leaf in
      record r {
        used_bins_top = if leaves == 0 then clear_bit r.used_bins_top top else r.used_bins_top;
        used_bins = set r.used_bins top leaves;
      }

  -- The rest of `insertNode` after `newNode`.
  unfoldable pub link_node : ℕ → ℕ → ℕ → Ram → Ram
  unfolding mark_bin
  link_node size data_offset i r =
      let bin = floor_to_float w size in
      let pos = bin_head r bin in
      let marked = if pos == invalid_index then mark_bin r (bin / 8) (bin % 8) else r in
      let placed = change_node marked i (λ n. record fresh_node {
        data_offset = data_offset;
        data_size = size;
        bin_list_next = pos;
      }) in
      let linked = change_valid placed pos (λ n. record n { bin_list_prev = i }) in
      record linked { bin_indices = set linked.bin_indices bin i }

  unfoldable pub insert_node : Ram → ℕ → ℕ → Result (ℕ × Ram)
  unfolding new_node link_node
  insert_node r size data_offset = do
    new ← new_node r size
    ok (new.0, link_node size data_offset new.0 new.1)

  -- The head of the list of a bin becomes `next`.
  unfoldable pub drop_head : ℕ → ℕ → ℕ → ℕ → Ram → Ram
  unfolding unmark_bin
  drop_head bin top leaf next r =
      let moved = record r { bin_indices = set r.bin_indices bin next } in
      let linked = change_valid moved next (λ n. record n { bin_list_prev = invalid_index }) in
      if bin_head linked bin == invalid_index then unmark_bin linked top leaf else linked

  pub unlink_node : Ram → ℕ → Ram
  unfolding drop_head
  unlink_node r i =
      let n = node r i in
      let bin = floor_to_float w n.data_size in
      if n.bin_list_prev == invalid_index
      then drop_head bin (bin / 8) (bin % 8) n.bin_list_next r
      else change_valid
          (change_node r n.bin_list_prev (λ m. record m { bin_list_next = n.bin_list_next }))
          n.bin_list_next (λ m. record m { bin_list_prev = n.bin_list_prev })

  pub remove_node : Ram → ℕ → Result Ram
  unfolding unlink_node free_node
  remove_node r i = free_node (unlink_node r i) i

  -- `defragmentReset()`
  unfoldable pub defragment_reset : Ram → Ram
  defragment_reset r = record r {
    used_bins_top = 0;
    used_bins = replicate w 0;
    bin_indices = replicate (8 * w) invalid_index;
    free_storage = 0;
  }

  pub clear : Ram → Result Ram
  unfolding defragment_reset reserve_allocations insert_node
  clear r = do
    made ←
        insert_node
          (reserve_allocations (record (defragment_reset r) { free_stack_ptr = 0; max_allocs = 0 })
            r.max_allocs)
          r.capacity 0
    ok made.1

  -- The constructor.
  pub init : ℕ → ℕ → Result Ram
  unfolding clear
  init capacity initial_alloc_capacity = clear (record {
    capacity = capacity;
    max_allocs = initial_alloc_capacity;
    free_storage = 0;
    used_bins_top = 0;
    used_bins = replicate w 0;
    bin_indices = replicate (8 * w) 0;
    nodes = [];
    free_nodes = [];
    free_stack_ptr = 0;
  })
