-- ===== src/Miniram/Copies.antt =====
-- `to_disjunct_copies` of basic_miniram: moves to the left as copies that do not overlap
-- (cth/incl/cth/data/inl/miniram.inl).
pub mod Memory
pub mod Laws
use cth.Base.{
  ℕ, zero, suc, ◌+◌, ◌-◌, ◌≤◌, ◌<◌, List, [], ◌∷◌, ◌++◌, Result, ok, critical, diverged, ◌>>=◌,
  ◌>>◌, check, ltb, if◌then◌else◌,
}
use cth.Base.Words.{add_word, sub_word}
use cth.Miniram.Defrag.{MemMove}

module _ (w : ℕ) where
  -- The `while` loop and the copy behind it; a round for each unit of fuel.
  pub split_loop : ℕ → ℕ → MemMove → Result (List MemMove)
  split_loop zero chunk m =
      if ltb chunk m.size then diverged else (if ltb 0 m.size then ok (m ∷ []) else ok [])
  split_loop (suc fuel) chunk m =
      let rest = split_loop fuel chunk (record {
        src_offset = add_word w m.src_offset chunk;
        dst_offset = add_word w m.dst_offset chunk;
        size = sub_word w m.size chunk;
      }) in
      if ltb chunk m.size
      then (rest >>= λ ms. ok (record m { size = chunk } ∷ ms))
      else (if ltb 0 m.size then ok (m ∷ []) else ok [])

  -- One round of the `for` loop. A move to its own place has chunks of no length: the code divides by
  -- it, and the loop has no end.
  pub split_move : MemMove → Result (List MemMove)
  unfolding split_loop
  split_move m =
      let chunk = sub_word w m.src_offset m.dst_offset in
      do
        check (ltb m.src_offset m.dst_offset)
        if ltb chunk m.size then split_loop m.size chunk m else ok (m ∷ [])

  pub to_disjunct_copies : List MemMove → Result (List MemMove)
  unfolding split_move
  to_disjunct_copies [] = ok []
  to_disjunct_copies (m ∷ ms) = do
    first ← split_move m
    rest ← to_disjunct_copies ms
    ok (first ++ rest)
