-- ===== src/Miniram/Copies/Laws.antt =====
-- What the copies of `to_disjunct_copies` do to a memory (cth/incl/cth/data/inl/miniram.inl).
use cth.Base.{
  ℕ, zero, suc, ◌+◌, ◌-◌, ◌^◌, ◌≤◌, ◌<◌, ◌≡◌, refl, sym, ap, subst, ◌∙◌, List, [], ◌∷◌, ◌++◌,
  Result, ok, ◌>>=◌, ltb, if◌then◌else◌, if-true, if-false, lt→ltb, ltb-false, dec_lt, arith,
}
use cth.Base.Words.{add_word, sub_word, add_word-eq, sub_word-eq}
use cth.Miniram.Defrag.{MemMove}
use cth.Miniram.Copies.{split_loop, split_move, to_disjunct_copies}
use cth.Miniram.Copies.Memory.{move, move_all, move_all_cong, move_all-append, rest_of, move_chunk}

-- A copy whose source and destination have no element in common.
abbrev pub Disjunct : MemMove → Type 0
Disjunct m = m.dst_offset + m.size ≤ m.src_offset

abbrev pub AllDisjunct : List MemMove → Type 0
AllDisjunct [] = Unit
AllDisjunct (m ∷ ms) = Disjunct m × AllDisjunct ms

-- A move to the left inside the address space.
abbrev pub IsLeftMove : ℕ → MemMove → Type 0
IsLeftMove w m = m.dst_offset < m.src_offset × (m.src_offset + m.size < 2 ^ w)

abbrev pub AllLeft : ℕ → List MemMove → Type 0
AllLeft w [] = Unit
AllLeft w (m ∷ ms) = IsLeftMove w m × AllLeft w ms

-- The copies are disjunct, and one after the other they do what the moves do.
record Splits {ℓ} (A : Type ℓ) (r : Result (List MemMove)) (ms : List MemMove) : Type ℓ where
  copies : List MemMove
  returned : r ≡ ok copies
  disjunct : AllDisjunct copies
  same : (mem : ℕ → A) (i : ℕ) → move_all copies mem i ≡ move_all ms mem i

AllDisjunct-append :
    (ms ns : List MemMove) → AllDisjunct ms → AllDisjunct ns → AllDisjunct (ms ++ ns)
AllDisjunct-append [] ns d e = e
AllDisjunct-append (m ∷ ms) ns d e = (d.0, AllDisjunct-append ms ns d.1 e)

-- A single copy that is disjunct.
one-Splits {ℓ} : {A : Type ℓ} (m : MemMove) → Disjunct m → Splits A (ok (m ∷ [])) (m ∷ [])
one-Splits m d = record {
  copies = m ∷ [];
  returned = refl;
  disjunct = (d, tt);
  same = λ mem i. refl;
}

-- A chunk before copies of the rest.
more-Splits {ℓ} :
    {A : Type ℓ} {r : Result (List MemMove)} (m : MemMove) (chunk : ℕ)
    → m.dst_offset + chunk ≡ m.src_offset
    → chunk < m.size
    → Splits A r (rest_of chunk m ∷ [])
    → Splits A (r >>= λ ms. ok (record m { size = chunk } ∷ ms)) (m ∷ [])
more-Splits {A = A} m chunk eq lt s = record {
  copies = record m { size = chunk } ∷ s.copies;
  returned = ap (λ r. r >>= λ ms. ok (record m { size = chunk } ∷ ms)) s.returned;
  disjunct = (omega arith, s.disjunct);
  same = λ mem i. s.same (move (record m { size = chunk }) mem) i ∙ move_chunk m chunk eq lt mem i;
}

-- The loop ends before its fuel, and its copies do what the move does.
split_loop-Splits {ℓ} :
    {A : Type ℓ} (w fuel chunk : ℕ) (m : MemMove)
    → 0 < chunk
    → m.dst_offset + chunk ≡ m.src_offset
    → m.src_offset + m.size < 2 ^ w
    → 0 < m.size
    → m.size ≤ fuel
    → Splits A (split_loop w fuel chunk m) (m ∷ [])
unfolding split_loop
split_loop-Splits w zero chunk m pos eq bound big le = absurd (omega arith)
split_loop-Splits {A = A} w (suc fuel) chunk m pos eq bound big le = elim (dec_lt chunk m.size) [
  | yes lt ↦
      subst (λ r. Splits A r (m ∷ []))
        (sym (
          if-true (lt→ltb chunk m.size lt) _ _
          ∙ ap (λ n. split_loop w fuel chunk n >>= λ ms. ok (record m { size = chunk } ∷ ms))
              (rest_eq lt)))
        (more-Splits m chunk eq lt (
          split_loop-Splits w fuel chunk (rest_of chunk m) pos (omega arith) (omega arith)
            (omega arith) (omega arith)))
  | no ge ↦
      subst (λ r. Splits A r (m ∷ []))
        (sym
          (if-false (ltb-false chunk m.size (omega arith)) _ _ ∙ if-true (lt→ltb 0 m.size big) _ _))
        (one-Splits m (omega arith))
]
  where
    rest_eq :
        chunk < m.size
        → record {
          src_offset = add_word w m.src_offset chunk;
          dst_offset = add_word w m.dst_offset chunk;
          size = sub_word w m.size chunk;
        }
          ≡ rest_of chunk m
    rest_eq lt = rw (add_word-eq w m.src_offset chunk (omega arith)) (
        rw (add_word-eq w m.dst_offset chunk (omega arith))
          (rw (sub_word-eq w m.size chunk (omega arith) (omega arith)) refl))

split_move-Splits {ℓ} :
    {A : Type ℓ} (w : ℕ) (m : MemMove) → IsLeftMove w m → Splits A (split_move w m) (m ∷ [])
unfolding split_move
split_move-Splits {A = A} w m left =
    subst (λ r. Splits A r (m ∷ [])) (sym checked)
      (elim (dec_lt chunk m.size) [
        | yes lt ↦
            subst (λ r. Splits A r (m ∷ [])) (sym (if-true (lt→ltb chunk m.size lt) _ _))
              (split_loop-Splits w m.size chunk m (omega arith) (omega arith) (omega arith)
                (omega arith) (omega arith))
        | no ge ↦
            subst (λ r. Splits A r (m ∷ []))
              (sym (if-false (ltb-false chunk m.size (omega arith)) _ _))
              (one-Splits m (omega arith))
      ])
  where
    chunk : ℕ
    chunk = m.src_offset - m.dst_offset

    checked :
        split_move w m ≡ (if ltb chunk m.size then split_loop w m.size chunk m else ok (m ∷ []))
    checked =
        rw (sub_word-eq w m.src_offset m.dst_offset (omega arith) (omega arith))
          (rw (ltb-false m.src_offset m.dst_offset (omega arith)) refl)

append-Splits {ℓ} :
    {A : Type ℓ} {r r' : Result (List MemMove)} {m : MemMove} {ms : List MemMove}
    → Splits A r (m ∷ [])
    → Splits A r' ms
    → Splits A (r >>= λ first. r' >>= λ rest. ok (first ++ rest)) (m ∷ ms)
append-Splits {r' = r'} {m = m} {ms = ms} s t = record {
  copies = s.copies ++ t.copies;
  returned =
      ap (λ x. x >>= λ first. r' >>= λ rest. ok (first ++ rest)) s.returned
      ∙ ap (λ x. x >>= λ rest. ok (s.copies ++ rest)) t.returned;
  disjunct = AllDisjunct-append s.copies t.copies s.disjunct t.disjunct;
  same = λ mem i.
      move_all-append s.copies t.copies mem i
      ∙ t.same (move_all s.copies mem) i
      ∙ move_all_cong ms (move_all s.copies mem) (move m mem) (s.same mem) i;
}

to_disjunct_copies-Splits {ℓ} :
    {A : Type ℓ} (w : ℕ) (ms : List MemMove) → AllLeft w ms → Splits A (to_disjunct_copies w ms) ms
unfolding to_disjunct_copies
to_disjunct_copies-Splits w [] left = record {
  copies = [];
  returned = refl;
  disjunct = tt;
  same = λ mem i. refl;
}
to_disjunct_copies-Splits w (m ∷ ms) left =
    append-Splits (split_move-Splits w m left.0) (to_disjunct_copies-Splits w ms left.1)

-- Moves to the left inside the address space: the call returns, each of its copies has a source and
-- a destination with no element in common, and the copies one after the other leave every element
-- of a memory as the moves leave it.
pub to_disjunct_copies-same {ℓ} :
    {A : Type ℓ} (w : ℕ) (ms : List MemMove)
    → AllLeft w ms
    → (copies : List MemMove) × (to_disjunct_copies w ms ≡ ok copies)
      × AllDisjunct copies
      × ((mem : ℕ → A) (i : ℕ) → move_all copies mem i ≡ move_all ms mem i)
to_disjunct_copies-same {A = A} w ms left =
    let s = to_disjunct_copies-Splits {A = A} w ms left in
    (s.copies, s.returned, s.disjunct, s.same)
