-- ===== src/Miniram/Copies/Memory.antt =====
-- The effect of moves on a memory (cth/incl/cth/data/inl/miniram.inl).
use cth.Base.{
  ℕ, ◌+◌, ◌-◌, ◌≤◌, ◌<◌, ◌≡◌, refl, sym, ap, ◌∙◌, List, [], ◌∷◌, ◌++◌, ltb, if◌then◌else◌, if-true,
  if-false, lt→ltb, ltb-false, dec_lt, arith,
}
use cth.Miniram.Defrag.{MemMove}

-- The effect of a move of memory, as `std::memmove` has it.
abbrev pub move {ℓ} : {A : Type ℓ} → MemMove → (ℕ → A) → ℕ → A
move m mem i =
    if ltb i m.dst_offset
    then mem i
    else if ltb i (m.dst_offset + m.size)
    then mem (m.src_offset + (i - m.dst_offset))
    else mem i

abbrev pub move_all {ℓ} : {A : Type ℓ} → List MemMove → (ℕ → A) → ℕ → A
move_all [] mem = mem
move_all (m ∷ ms) mem = move_all ms (move m mem)

-- The element at `i` after a move: before, in and behind its destination.
module _ {ℓ} {A : Type ℓ} (m : MemMove) (mem : ℕ → A) (i : ℕ) where
  move_before : i < m.dst_offset → move m mem i ≡ mem i
  move_before lt = if-true (lt→ltb _ _ lt) _ _

  move_inside :
      m.dst_offset ≤ i
      → i < m.dst_offset + m.size
      → move m mem i ≡ mem (m.src_offset + (i - m.dst_offset))
  move_inside le lt = if-false (ltb-false _ _ le) _ _ ∙ if-true (lt→ltb _ _ lt) _ _

  move_after : m.dst_offset + m.size ≤ i → move m mem i ≡ mem i
  move_after le =
      if-false (ltb-false i m.dst_offset (omega arith)) _ _ ∙ if-false (ltb-false _ _ le) _ _

-- A move depends on the elements of the memory only.
move_cong {ℓ} :
    {A : Type ℓ} (m : MemMove) (mem mem' : ℕ → A)
    → ((i : ℕ) → mem i ≡ mem' i)
    → (i : ℕ) → move m mem i ≡ move m mem' i
move_cong m mem mem' h i = elim (dec_lt i m.dst_offset) [
  | yes lt ↦ move_before m mem i lt ∙ h i ∙ sym (move_before m mem' i lt)
  | no ge ↦ elim (dec_lt i (m.dst_offset + m.size)) [
    | yes lt ↦
        move_inside m mem i (omega arith) lt
        ∙ h (m.src_offset + (i - m.dst_offset))
        ∙ sym (move_inside m mem' i (omega arith) lt)
    | no ge' ↦ move_after m mem i (omega arith) ∙ h i ∙ sym (move_after m mem' i (omega arith))
  ]
]

pub move_all_cong {ℓ} :
    {A : Type ℓ} (ms : List MemMove) (mem mem' : ℕ → A)
    → ((i : ℕ) → mem i ≡ mem' i)
    → (i : ℕ) → move_all ms mem i ≡ move_all ms mem' i
move_all_cong [] mem mem' h i = h i
move_all_cong (m ∷ ms) mem mem' h i =
    move_all_cong ms (move m mem) (move m mem') (move_cong m mem mem' h) i

pub move_all-append {ℓ} :
    {A : Type ℓ} (ms ns : List MemMove) (mem : ℕ → A) (i : ℕ)
    → move_all (ms ++ ns) mem i ≡ move_all ns (move_all ms mem) i
move_all-append [] ns mem i = refl
move_all-append (m ∷ ms) ns mem i = move_all-append ms ns (move m mem) i

-- A move is its first chunk and then the rest.
abbrev pub rest_of : ℕ → MemMove → MemMove
rest_of chunk m = record {
  src_offset = m.src_offset + chunk;
  dst_offset = m.dst_offset + chunk;
  size = m.size - chunk;
}

pub move_chunk {ℓ} :
    {A : Type ℓ} (m : MemMove) (chunk : ℕ)
    → m.dst_offset + chunk ≡ m.src_offset
    → chunk < m.size
    → (mem : ℕ → A) (i : ℕ)
    → move (rest_of chunk m) (move (record m { size = chunk }) mem) i ≡ move m mem i
move_chunk {A = A} m chunk eq lt mem i = elim (dec_lt i m.dst_offset) [
  | yes low ↦
      move_before (rest_of chunk m) copied i (omega arith)
      ∙ move_before first mem i low
      ∙ sym (move_before m mem i low)
  | no ge ↦ elim (dec_lt i (m.dst_offset + chunk)) [
    | yes low ↦
        move_before (rest_of chunk m) copied i low
        ∙ move_inside first mem i (omega arith) low
        ∙ sym (move_inside m mem i (omega arith) (omega arith))
    | no ge' ↦ elim (dec_lt i (m.dst_offset + m.size)) [
      | yes low ↦
          move_inside (rest_of chunk m) copied i (omega arith) (omega arith)
          ∙ move_after first mem (m.src_offset + chunk + (i - (m.dst_offset + chunk))) (omega arith)
          ∙ ap mem (omega arith)
          ∙ sym (move_inside m mem i (omega arith) low)
      | no high ↦
          move_after (rest_of chunk m) copied i (omega arith)
          ∙ move_after first mem i (omega arith)
          ∙ sym (move_after m mem i (omega arith))
    ]
  ]
]
  where
    first : MemMove
    first = record m { size = chunk }

    copied : ℕ → A
    copied = move first mem
