-- ===== src/Miniram/Ram/Storage.antt =====
-- `_freeStorage` through the operations on the lists of free blocks
-- (cth/incl/cth/data/inl/miniram.inl).
use cth.Base.{
  check, get_or, suc, ℕ, ◌/◌, ◌%◌, leb, length, ◌≡◌, refl, sym, ap, ◌∙◌, Bool, true, false, ok,
  ok-injective, >>=-eq-ok, ◌==◌, if◌then◌else◌,
}
use cth.Base.Words.{add_word}
use cth.Miniram.Float.{floor_to_float}
use cth.Miniram.Ram.{
  Ram, pop_free_node, new_node, insert_node, link_node, mark_bin, unmark_bin, drop_head,
  invalid_index, bin_head,
}

-- A conditional between objects with the same free storage.
pub same-free_storage :
    (b : Bool) (r s : Ram) {x : ℕ}
    → r.free_storage ≡ x
    → s.free_storage ≡ x
    → (if b then r else s).free_storage ≡ x
same-free_storage true r s p q = p
same-free_storage false r s p q = q

pub drop_head-free_storage :
    (w v bin top leaf next : ℕ) (r : Ram)
    → (drop_head w v bin top leaf next r).free_storage ≡ r.free_storage
unfolding drop_head unmark_bin
drop_head-free_storage w v bin top leaf next r =
    same-free_storage _ _ _ (same-free_storage (next == invalid_index w v) _ _ refl refl)
      (same-free_storage (next == invalid_index w v) _ _ refl refl)

link_node-free_storage :
    (w v size offset i : ℕ) (r : Ram)
    → (link_node w v size offset i r).free_storage ≡ r.free_storage
unfolding link_node mark_bin
link_node-free_storage w v size offset i r =
    same-free_storage (pos == invalid_index w v) _ _ marked marked
  where
    pos : ℕ
    pos = bin_head w v r (floor_to_float w size)

    marked :
        (if pos == invalid_index w v
          then mark_bin w v r (floor_to_float w size / 8) (floor_to_float w size % 8)
          else r).free_storage
        ≡ r.free_storage
    marked = same-free_storage (pos == invalid_index w v) _ _ refl refl

new_node-free_storage :
    (w v : ℕ) (r : Ram) (size : ℕ) (taken : ℕ × Ram)
    → new_node w v r size ≡ ok taken
    → taken.1.free_storage ≡ add_word w r.free_storage size
unfolding new_node pop_free_node
new_node-free_storage w v r size taken e =
    let (_, _, made) =
      >>=-eq-ok
        (λ _. ok (
          get_or r.free_nodes r.free_stack_ptr 0,
          record r {
            free_storage = add_word w r.free_storage size;
            free_stack_ptr = suc r.free_stack_ptr;
          },
        ))
        (check (leb (length r.nodes) r.free_stack_ptr)) e in
    sym (ap (λ x. x.1.free_storage) (ok-injective made))

-- The block is added to the free storage.
pub insert_node-free_storage :
    (w v : ℕ) (r : Ram) (size offset i : ℕ) (t : Ram)
    → insert_node w v r size offset ≡ ok (i, t)
    → t.free_storage ≡ add_word w r.free_storage size
unfolding insert_node
insert_node-free_storage w v r size offset i t e =
    let (taken, popped, made) =
      >>=-eq-ok (λ new. ok (new.0, link_node w v size offset new.0 new.1)) (new_node w v r size)
        e in
    sym (ap (λ x. x.1.free_storage) (ok-injective made))
    ∙ link_node-free_storage w v size offset taken.0 taken.1
    ∙ new_node-free_storage w v r size taken popped
