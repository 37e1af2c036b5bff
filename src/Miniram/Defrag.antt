-- ===== src/Miniram/Defrag.antt =====
-- Defragmentation of basic_miniram: `compactUsedNodes`, `reconstructFreeSpace` and `defragment`
-- (cth/incl/cth/data/inl/miniram.inl).
pub mod Empty
use cth.Base.{
  ℕ, zero, suc, ◌+◌, ◌-◌, ◌*◌, ◌/◌, ◌%◌, ◌^◌, Bool, true, false, not, ◌&&◌, List, [], ◌∷◌, ◌++◌,
  Result, ok, critical, ◌>>=◌, ◌>>◌, check, leb, ltb, ◌==◌, if◌then◌else◌, get_or, set, length,
}
use cth.Base.Words.{add_word, sub_word}
use cth.Miniram.Float.{floor_to_float, to_uint}
use cth.Miniram.Ram.{
  Ram, Node, Allocation, node, invalid_index, change_node, change_valid, insert_node,
  defragment_reset,
}

-- `basic_mini_memmove`
pub record MemMove : Type 0 where
  pub src_offset : ℕ
  pub dst_offset : ℕ
  pub size : ℕ

-- `basic_mini_defrag`
pub record Report : Type 0 where
  pub updated_allocs : List Allocation
  pub moves : List MemMove

module _ (w v : ℕ) where
  -- The ids of the used nodes and of the others, from node `i` on.
  abbrev pub used_ids : ℕ → List Node → List ℕ
  used_ids i [] = []
  used_ids i (n ∷ ns) = if n.used then i % 2 ^ v ∷ used_ids (suc i) ns else used_ids (suc i) ns

  abbrev pub unused_ids : ℕ → List Node → List ℕ
  unused_ids i [] = []
  unused_ids i (n ∷ ns) =
      if n.used then unused_ids (suc i) ns else i % 2 ^ v ∷ unused_ids (suc i) ns

  -- `_freeNodes[_freeStackPtr++] = id` for each id, from position `ptr` on.
  abbrev pub fill : List ℕ → ℕ → List ℕ → List ℕ
  fill xs ptr [] = xs
  fill xs ptr (id ∷ ids) = fill (set xs ptr id) (suc ptr) ids

  -- `std::ranges::sort` by `dataOffset`.
  abbrev pub insert_sorted : Ram → ℕ → List ℕ → List ℕ
  insert_sorted r i [] = i ∷ []
  insert_sorted r i (j ∷ js) =
      if ltb (node w v r j).data_offset (node w v r i).data_offset
      then j ∷ insert_sorted r i js
      else i ∷ j ∷ js

  pub sort : Ram → List ℕ → List ℕ
  sort r [] = []
  sort r (i ∷ is) = insert_sorted r i (sort r is)

  abbrev pub is_empty {ℓ} : {A : Type ℓ} → List A → Bool
  is_empty [] = true
  is_empty (x ∷ xs) = false

  -- `report.moves.back().size += size`
  abbrev pub grow_back : ℕ → List MemMove → List MemMove
  grow_back size [] = []
  grow_back size (m ∷ []) = record m { size = add_word w m.size size } ∷ []
  grow_back size (m ∷ n ∷ ms) = m ∷ grow_back size (n ∷ ms)

  -- The variables of the loop of `compactUsedNodes`.
  pub record Compacting : Type 0 where
    pub ram : Ram
    pub report : Report
    pub compacted_offset : ℕ
    pub prev_node : ℕ
    pub prev_old_offset : ℕ

  -- The moves after a node of `size` elements from `old` was placed.
  abbrev pub add_move : Compacting → ℕ → ℕ → List MemMove
  add_move c old size =
      let contiguous =
        not (c.prev_node == invalid_index w v)
        && (old == add_word w c.prev_old_offset (node w v c.ram c.prev_node).data_size) in
      if old == c.compacted_offset
      then c.report.moves
      else if contiguous && not (is_empty c.report.moves)
      then grow_back size c.report.moves
      else c.report.moves
        ++ record { src_offset = old; dst_offset = c.compacted_offset; size = size } ∷ []

  -- One round of the loop.
  pub compact_node : Compacting → ℕ → Compacting
  compact_node c i =
      let n = node w v c.ram i in
      let placed =
        change_node w v c.ram i
          (λ m. record m { data_offset = c.compacted_offset; neighbor_prev = c.prev_node }) in
      record {
        ram = change_valid w v placed c.prev_node (λ m. record m { neighbor_next = i });
        report = record {
          updated_allocs =
              c.report.updated_allocs ++ record { offset = c.compacted_offset; id = i } ∷ [];
          moves = add_move c n.data_offset n.data_size;
        };
        compacted_offset = add_word w c.compacted_offset n.data_size;
        prev_node = i;
        prev_old_offset = n.data_offset;
      }

  abbrev pub compact_loop : Compacting → List ℕ → Compacting
  compact_loop c [] = c
  compact_loop c (i ∷ is) = compact_loop (compact_node c i) is

  -- `compactUsedNodes(used_nodes, report)`, called with an empty report.
  pub compact_used_nodes : Ram → List ℕ → Compacting
  unfolding compact_node
  compact_used_nodes r used =
      let c =
        compact_loop
          (record {
            ram = r;
            report = record { updated_allocs = []; moves = [] };
            compacted_offset = 0;
            prev_node = invalid_index w v;
            prev_old_offset = 0;
          })
          used in
      record c {
        ram =
            change_node w v c.ram c.prev_node (λ m. record m { neighbor_next = invalid_index w v });
      }

  -- A free block of `size` elements at `offset` behind the node `prev`; the node of it, and the ram.
  pub append_free : ℕ → ℕ → ℕ × Ram → Result (ℕ × Ram)
  append_free size offset (prev, r) = if size == 0 then ok (prev, r) else (do
    new ← insert_node w v r size offset
    ok (
      new.0,
      change_valid w v
          (change_node w v new.1 new.0 (λ m. record m { used = false; neighbor_prev = prev })) prev
          (λ m. record m { neighbor_next = new.0 }),
    ))

  pub reconstruct_free_space : Ram → ℕ → ℕ → Result Ram
  unfolding append_free
  reconstruct_free_space r compacted_offset last_used_node =
      let total = sub_word w r.capacity compacted_offset in
      let main = to_uint w (floor_to_float w total) in
      if total == 0 then ok r else (do
        first ← append_free main compacted_offset (last_used_node, r)
        second ← append_free (sub_word w total main) (add_word w compacted_offset main) first
        ok second.1)

  abbrev pub last_or : ℕ → List ℕ → ℕ
  last_or d [] = d
  last_or d (i ∷ is) = last_or i is

  -- The compaction, if there are used nodes.
  abbrev pub compact_sorted : Ram → List ℕ → Compacting
  compact_sorted r [] = record {
    ram = r;
    report = record { updated_allocs = []; moves = [] };
    compacted_offset = 0;
    prev_node = invalid_index w v;
    prev_old_offset = 0;
  }
  compact_sorted r (i ∷ is) = compact_used_nodes r (sort r (i ∷ is))

  -- The stack of free nodes as the first loop leaves it: the pointer ends behind the last free id.
  abbrev pub collect_free : Ram → Ram
  collect_free r =
      let ids = unused_ids 0 r.nodes in
      record r { free_nodes = fill r.free_nodes 0 ids; free_stack_ptr = length ids }

  -- `defragment(new_size)`, and `resize`
  pub defragment : Ram → ℕ → Result (Report × Ram)
  unfolding compact_used_nodes sort reconstruct_free_space
  defragment r new_size =
      let used = used_ids 0 r.nodes in
      let c = compact_sorted (collect_free r) used in
      let reset = defragment_reset w v (record c.ram { capacity = new_size }) in
      (do
        rebuilt ←
            if ltb c.compacted_offset new_size
            then reconstruct_free_space reset c.compacted_offset
                (last_or (invalid_index w v) (sort r used))
            else ok reset
        ok (c.report, rebuilt))
