-- ===== src/Miniram/Defrag/Empty.antt =====
-- Defragmentation of a ram without allocations (cth/incl/cth/data/inl/miniram.inl).
use cth.Base.{
  ℕ, suc, ◌^◌, ◌<◌, ◌≡◌, refl, ◌∙◌, false, List, [], ◌∷◌, critical, ◌==◌, lt→ltb, length, arith,
  Bool-cases, inl, inr,
}
use cth.Base.Words.{sub_word, sub_word-eq}
use cth.Miniram.Float.{floor_to_float, to_uint}
use cth.Miniram.Float.Laws.{to_uint-floor}
use cth.Miniram.Ram.{Ram, Node, defragment_reset, invalid_index}
use cth.Miniram.Ram.Stack.{IsDrained, insert_node_drained}
use cth.Miniram.Defrag.{
  used_ids, unused_ids, append_free, reconstruct_free_space, defragment, collect_free,
}

-- Without used nodes, every node is collected.
length-unused_ids :
    (w v i : ℕ) (ns : List Node) → used_ids w v i ns ≡ [] → length (unused_ids w v i ns) ≡ length ns
length-unused_ids w v i [] h = refl
length-unused_ids w v i (n ∷ ns) h = elim (Bool-cases n.used) [
  | inl used ↦ absurd (ground (arith, h, used))
  | inr unused ↦
      ground (arith, unused, length-unused_ids w v (suc i) ns (ground (arith, h, unused)))
]

reconstruct_free_space_drained :
    (w v : ℕ) (r : Ram) (last : ℕ)
    → 0 < r.capacity
    → r.capacity < 2 ^ w
    → IsDrained r
    → reconstruct_free_space w v r 0 last ≡ critical
unfolding reconstruct_free_space append_free
reconstruct_free_space_drained w v r last pos lt d = rw (whole r.capacity lt) (
    rw (not_zero r.capacity pos) (
      rw (not_zero main (to_uint-floor w r.capacity pos lt).0)
        (rw (insert_node_drained w v r main 0 d) refl)))
  where
    main : ℕ
    main = to_uint w (floor_to_float w r.capacity)

    whole : (n : ℕ) → n < 2 ^ w → sub_word w n 0 ≡ n
    whole n h = sub_word-eq w n 0 (omega arith) h ∙ omega arith

    not_zero : (n : ℕ) → 0 < n → (n == 0) ≡ false
    not_zero n h = ground arith

-- On a ram in which no node is used, `defragment` to a new size of `w` bits that is not 0 ends with a
-- failed check: the stack of free nodes counts as used up.
pub defragment_without_used :
    (w v : ℕ) (r : Ram) (new_size : ℕ)
    → used_ids w v 0 r.nodes ≡ []
    → 0 < new_size
    → new_size < 2 ^ w
    → defragment w v r new_size ≡ critical
unfolding defragment defragment_reset
defragment_without_used w v r new_size none_used pos lt = rw none_used (
    rw (lt→ltb 0 new_size pos) (
      rw
        (reconstruct_free_space_drained w v reset (invalid_index w v) pos lt
          (omega (arith, length-unused_ids w v 0 r.nodes none_used)))
        refl))
  where
    reset : Ram
    reset = defragment_reset w v (record (collect_free w v r) { capacity = new_size })
