-- ===== src/Miniram/Ram/Stack.antt =====
-- The stack of free nodes of basic_miniram (cth/incl/cth/data/inl/miniram.inl).
use cth.Base.{ℕ, ◌≤◌, ◌≡◌, refl, arith, length, leb, critical, true}
use cth.Miniram.Ram.{Ram, pop_free_node, new_node, insert_node}

-- A ram whose stack of free nodes is used up.
abbrev pub IsDrained : Ram → Type 0
IsDrained r = length r.nodes ≤ r.free_stack_ptr

-- No block can be added to it.
pub insert_node_drained :
    (w v : ℕ) (r : Ram) (size offset : ℕ) → IsDrained r → insert_node w v r size offset ≡ critical
unfolding insert_node new_node pop_free_node
insert_node_drained w v r size offset d = rw (full (length r.nodes) r.free_stack_ptr d) refl
  where
    full : (a b : ℕ) → a ≤ b → leb a b ≡ true
    full a b le = ground arith
