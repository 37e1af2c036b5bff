-- ===== src/Miniram/Ram/Blocks.antt =====
-- The blocks that the nodes stand for, through the operations on the lists of free blocks
-- (cth/incl/cth/data/inl/miniram.inl).
use cth.Base.{
  Result, ℕ, zero, suc, ◌/◌, ◌%◌, ◌<◌, ◌≡◌, ◌≢◌, refl, sym, ap, subst, ◌∙◌, Bool, true, false, List,
  [], ◌∷◌, ok, check, ◌>>=◌, ◌>>◌, leb, ◌==◌, if◌then◌else◌, get_or, set, length, length-set,
  get_or-set_self, get_or-set_ne, arith,
}
use cth.Base.Words.{add_word}
use cth.Miniram.Float.{floor_to_float}
use cth.Miniram.Ram.{
  Ram, Node, node, fresh_node, change_node, change_valid, bin_head, invalid_index, mark_bin,
  unmark_bin, drop_head, link_node, insert_node, new_node, pop_free_node,
}

-- Where the block of a node is, how long it is and whether it is used.
abbrev pub block : Node → ℕ × ℕ × Bool
block n = (n.data_offset, n.data_size, n.used)

-- The node that is taken next from the stack.
abbrev pub next_free : Ram → ℕ
next_free r = get_or r.free_nodes r.free_stack_ptr 0

set-block :
    (ns : List Node) (i j : ℕ) (n d : Node)
    → block n ≡ block (get_or ns i d)
    → block (get_or (set ns i n) j d) ≡ block (get_or ns j d)
set-block [] i j n d same = refl
set-block (m ∷ ns) zero zero n d same = same
set-block (m ∷ ns) zero (suc j) n d same = refl
set-block (m ∷ ns) (suc i) zero n d same = refl
set-block (m ∷ ns) (suc i) (suc j) n d same = set-block ns i j n d same

-- What both cases of a conditional have.
pub if-both {ℓ} :
    {A : Type ℓ} (f : Ram → A) (b : Bool) (r s : Ram) {x : A}
    → f r ≡ x
    → f s ≡ x
    → f (if b then r else s) ≡ x
if-both f true r s p q = p
if-both f false r s p q = q

module _ (w v : ℕ) where
  -- A change of links only.
  pub change_node-block :
      (r : Ram) (i : ℕ) (f : Node → Node) (j : ℕ)
      → ((n : Node) → block (f n) ≡ block n)
      → block (node w v (change_node w v r i f) j) ≡ block (node w v r j)
  change_node-block r i f j links =
      set-block r.nodes i j (f (node w v r i)) (fresh_node w v) (links (node w v r i))

  pub change_valid-block :
      (r : Ram) (i : ℕ) (f : Node → Node) (j : ℕ)
      → ((n : Node) → block (f n) ≡ block n)
      → block (node w v (change_valid w v r i f) j) ≡ block (node w v r j)
  change_valid-block r i f j links =
      if-both (λ s. block (node w v s j)) (i == invalid_index w v) r (change_node w v r i f) refl
        (change_node-block r i f j links)

  pub length-change_valid :
      (r : Ram) (i : ℕ) (f : Node → Node) → length (change_valid w v r i f).nodes ≡ length r.nodes
  length-change_valid r i f =
      if-both (λ s. length s.nodes) (i == invalid_index w v) r (change_node w v r i f) refl
        (length-set r.nodes i (f (node w v r i)))

  -- What `drop_head` leaves as it was.
  pub record Drops (r t : Ram) : Type 0 where
    pub blocks : (j : ℕ) → block (node w v t j) ≡ block (node w v r j)
    pub count : length t.nodes ≡ length r.nodes
    pub stack : t.free_nodes ≡ r.free_nodes
    pub top : t.free_stack_ptr ≡ r.free_stack_ptr
    pub bins : length t.bin_indices ≡ length r.bin_indices

  forget : Node → Node
  forget n = record n { bin_list_prev = invalid_index w v }

  -- What a change of the masks leaves alone is as the head's successor was linked.
  drop_head-keeps {ℓ} :
      {A : Type ℓ} (f : Ram → A) (bin top leaf next : ℕ) (r : Ram) {x : A}
      → ((s : Ram) → f (unmark_bin w v s top leaf) ≡ f s)
      → f (change_valid w v (record r { bin_indices = set r.bin_indices bin next }) next forget) ≡ x
      → f (drop_head w v bin top leaf next r) ≡ x
  unfolding drop_head forget
  drop_head-keeps f bin top leaf next r masks e =
      if-both f (bin_head w v linked bin == invalid_index w v) (unmark_bin w v linked top leaf)
        linked (masks linked ∙ e) e
    where
      linked : Ram
      linked =
          change_valid w v (record r { bin_indices = set r.bin_indices bin next }) next
            (λ n. record n { bin_list_prev = invalid_index w v })

  pub drop_head-Drops :
      (bin top leaf next : ℕ) (r : Ram) → Drops r (drop_head w v bin top leaf next r)
  unfolding unmark_bin forget
  drop_head-Drops bin top leaf next r =
      let moved : Ram = record r { bin_indices = set r.bin_indices bin next } in
      let unset = next == invalid_index w v in
      let changed = change_node w v moved next forget in
      record {
        blocks = λ j.
            drop_head-keeps (λ s. block (node w v s j)) bin top leaf next r (λ _. refl)
              (change_valid-block moved next forget j (λ _. refl));
        count =
            drop_head-keeps (λ s. length s.nodes) bin top leaf next r (λ _. refl)
              (length-change_valid moved next forget);
        stack =
            drop_head-keeps (λ s. s.free_nodes) bin top leaf next r (λ _. refl)
              (if-both (λ s. s.free_nodes) unset moved changed refl refl);
        top =
            drop_head-keeps (λ s. s.free_stack_ptr) bin top leaf next r (λ _. refl)
              (if-both (λ s. s.free_stack_ptr) unset moved changed refl refl);
        bins =
            drop_head-keeps (λ s. length s.bin_indices) bin top leaf next r (λ _. refl)
              (if-both (λ s. length s.bin_indices) unset moved changed
                (length-set r.bin_indices bin next) (length-set r.bin_indices bin next));
      }

  -- `insertNode` has linked the node `i` to a new block and left the other blocks alone.
  pub record Links (r : Ram) (size offset i : ℕ) (t : Ram) : Type 0 where
    pub made : i < length r.nodes → block (node w v t i) ≡ (offset, size, false)
    pub others : (j : ℕ) → i ≢ j → block (node w v t j) ≡ block (node w v r j)
    pub first :
        floor_to_float w size < length r.bin_indices → bin_head w v t (floor_to_float w size) ≡ i

  pub link_node-Links :
      (r : Ram) (size offset i : ℕ) → Links r size offset i (link_node w v size offset i r)
  unfolding link_node mark_bin
  link_node-Links r size offset i = record {
    made = λ inside.
        change_valid-block placed pos (λ n. record n { bin_list_prev = i }) i (λ _. refl)
        ∙ ap block (
            get_or-set_self marked.nodes i new (fresh_node w v)
              (subst (λ ns. i < length ns) (sym same_nodes) inside));
    others = λ j other.
        change_valid-block placed pos (λ n. record n { bin_list_prev = i }) j (λ _. refl)
        ∙ ap block (get_or-set_ne marked.nodes i j new (fresh_node w v) other)
        ∙ ap (λ ns. block (get_or ns j (fresh_node w v))) same_nodes;
    first = λ inside.
        get_or-set_self linked.bin_indices (floor_to_float w size) i (invalid_index w v)
          (subst (λ bins. floor_to_float w size < length bins) (sym same_bins) inside);
  }
    where
      pos : ℕ
      pos = bin_head w v r (floor_to_float w size)

      mark : Ram
      mark = mark_bin w v r (floor_to_float w size / 8) (floor_to_float w size % 8)

      marked : Ram
      marked = if pos == invalid_index w v then mark else r

      new : Node
      new = record (fresh_node w v) { data_offset = offset; data_size = size; bin_list_next = pos }

      placed : Ram
      placed = record marked { nodes = set marked.nodes i new }

      linked : Ram
      linked = change_valid w v placed pos (λ n. record n { bin_list_prev = i })

      same_nodes : marked.nodes ≡ r.nodes
      same_nodes = if-both (λ s. s.nodes) (pos == invalid_index w v) mark r refl refl

      marked_bins : marked.bin_indices ≡ r.bin_indices
      marked_bins = if-both (λ s. s.bin_indices) (pos == invalid_index w v) mark r refl refl

      same_bins : linked.bin_indices ≡ r.bin_indices
      same_bins =
          if-both (λ s. s.bin_indices) (pos == invalid_index w v) placed
            (change_node w v placed pos (λ n. record n { bin_list_prev = i })) marked_bins
            marked_bins

  -- Where a free node is left, `insertNode` takes the next one.
  pub insert_node-Links :
      (r : Ram) (size offset : ℕ)
      → r.free_stack_ptr < length r.nodes
      → (t : Ram) × (insert_node w v r size offset ≡ ok (next_free r, t))
        × Links r size offset (next_free r) t
  unfolding insert_node new_node pop_free_node
  insert_node-Links r size offset left =
      let taken : Ram = record r {
        free_storage = add_word w r.free_storage size;
        free_stack_ptr = suc r.free_stack_ptr;
      } in
      let links = link_node-Links taken size offset (next_free r) in
      (
        link_node w v size offset (next_free r) taken,
        ap (λ full. finish (check full >> ok (next_free r, taken)))
            (not_full (length r.nodes) r.free_stack_ptr left),
        record { made = links.made; others = links.others; first = links.first },
      )
    where
      finish : Result (ℕ × Ram) → Result (ℕ × Ram)
      finish popped = popped >>= λ new. ok (new.0, link_node w v size offset new.0 new.1)

      not_full : (n k : ℕ) → k < n → leb n k ≡ false
      not_full n k lt = ground arith
