-- ===== src/Miniram/Alloc/Takes.antt =====
-- The block that `allocate` cuts to the size asked for, and what becomes of the rest
-- (cth/incl/cth/data/inl/miniram.inl).
use cth.Base.{
  Result, ℕ, ◌+◌, ◌-◌, ◌*◌, ◌^◌, ◌≤◌, ◌<◌, ◌≡◌, ◌≢◌, refl, sym, ap, ◌∙◌, true, false, some, ok,
  ◌>>=◌, ◌==◌, ==_iff, if-true, if-false, lt→ltb, Bool-cases, inl, inr, arith, length, length-set,
  get_or-set_self, set, get_or,
}
use cth.Base.Words.{add_word, sub_word, sub_word-eq}
use cth.Miniram.Float.{floor_to_float, ceil_to_float}
use cth.Miniram.Ram.{
  Ram, Node, Allocation, node, fresh_node, bin_head, remaining_allocs, change_node, change_valid,
  invalid_index,
}
use cth.Miniram.Ram.Blocks.{
  block, next_free, if-both, change_node-block, change_valid-block, Drops, drop_head-Drops, Links,
  insert_node-Links,
}
use cth.Miniram.Alloc.{
  take_head, insert_neighbor, slice_top_bin_node, allocate, join_bin, max_alloc,
}
use cth.Miniram.Alloc.Bins.{marked, LowestBin}
use cth.Miniram.Alloc.Best.{IsBinned, allocate_finds}

-- A free node is left; it is a node, and heads no list. The heads are nodes, and each class of a size
-- has a list.
pub record IsStocked (w v : ℕ) (r : Ram) : Type 0 where
  pub left : remaining_allocs r ≢ 0
  pub below : r.free_stack_ptr < length r.nodes
  pub inside : next_free r < length r.nodes
  pub heads : (bin : ℕ) → marked r bin ≡ 1 → bin_head w v r bin < length r.nodes
  pub apart : (bin : ℕ) → marked r bin ≡ 1 → next_free r ≢ bin_head w v r bin
  pub classes : (size : ℕ) → size < 2 ^ w → floor_to_float w size < length r.bin_indices

-- The length of the block at the head of the list of a bin.
abbrev pub head_size : ℕ → ℕ → Ram → ℕ → ℕ
head_size w v r bin = (node w v r (bin_head w v r bin)).data_size

abbrev pub head_offset : ℕ → ℕ → Ram → ℕ → ℕ
head_offset w v r bin = (node w v r (bin_head w v r bin)).data_offset

-- What an allocation from a bin leaves: the head of its list is the block, in use, and what is longer
-- than the size becomes a free block at the head of the list of its own class.
pub record Takes (w v : ℕ) (r : Ram) (size bin : ℕ) (t : Ram) : Type 0 where
  pub taken : block (node w v t (bin_head w v r bin)) ≡ (head_offset w v r bin, size, true)
  pub rest :
      size < head_size w v r bin
      → block (node w v t (next_free r))
        ≡ (add_word w (head_offset w v r bin) size, head_size w v r bin - size, false)
  pub listed :
      size < head_size w v r bin
      → bin_head w v t (floor_to_float w (head_size w v r bin - size)) ≡ next_free r

-- The links to a new neighbor change no block and no list of free blocks.
module _ (w v original i : ℕ) (r : Ram) where
  abbrev next : ℕ
  next = (node w v r original).neighbor_next

  abbrev back : Ram
  back = change_valid w v r next (λ n. record n { neighbor_prev = i })

  abbrev both : Ram
  both = change_node w v back i (λ n. record n { neighbor_prev = original; neighbor_next = next })

  insert_neighbor-block :
      (j : ℕ) → block (node w v (insert_neighbor w v original i r) j) ≡ block (node w v r j)
  insert_neighbor-block j =
      change_node-block w v both original (λ n. record n { neighbor_next = i }) j (λ _. refl)
      ∙ change_node-block w v back i
          (λ n. record n { neighbor_prev = original; neighbor_next = next }) j (λ _. refl)
      ∙ change_valid-block w v r next (λ n. record n { neighbor_prev = i }) j (λ _. refl)

  insert_neighbor-bin_head :
      (bin : ℕ) → bin_head w v (insert_neighbor w v original i r) bin ≡ bin_head w v r bin
  insert_neighbor-bin_head bin =
      if-both (λ s. bin_head w v s bin) (next == invalid_index w v) r
        (change_node w v r next (λ n. record n { neighbor_prev = i })) refl refl

module _ (w v : ℕ) (r : Ram) (size bin top leaf : ℕ) (enough : size ≤ head_size w v r bin)
    (fits : head_size w v r bin < 2 ^ w) (head : bin_head w v r bin < length r.nodes)
    (below : r.free_stack_ptr < length r.nodes) (inside : next_free r < length r.nodes)
    (apart : next_free r ≢ bin_head w v r bin)
    (classes : (n : ℕ) → n < 2 ^ w → floor_to_float w n < length r.bin_indices) where
  abbrev original : ℕ
  original = bin_head w v r bin

  abbrev total : ℕ
  total = head_size w v r bin

  abbrev cut : Ram
  cut = take_head w v r size bin top leaf

  -- The head with its new size, before it leaves its list.
  abbrev sized : Node
  sized = record (node w v r original) { data_size = size; used = true }

  abbrev before : Ram
  before = record r {
    free_storage = sub_word w r.free_storage total;
    nodes = set r.nodes original sized;
  }

  drops : Drops w v before cut
  drops = drop_head-Drops w v bin top leaf (node w v r original).bin_list_next before

  cut_head : block (node w v cut original) ≡ (head_offset w v r bin, size, true)
  cut_head =
      drops.blocks original
      ∙ ap block (get_or-set_self r.nodes original sized (fresh_node w v) head)

  slice_exact : sub_word w total size ≡ total - size
  slice_exact = sub_word-eq w total size enough (omega arith)

  cut_next : next_free cut ≡ next_free r
  cut_next =
      ap (λ k. get_or cut.free_nodes k 0) drops.top
      ∙ ap (λ ids. get_or ids r.free_stack_ptr 0) drops.stack

  exact-Takes : sub_word w total size ≡ 0 → Takes w v r size bin cut
  exact-Takes none_left = record {
    taken = cut_head;
    rest = λ lt. absurd (omega (arith, slice_exact, none_left));
    listed = λ lt. absurd (omega (arith, slice_exact, none_left));
  }

  cut_nodes : length cut.nodes ≡ length r.nodes
  cut_nodes = drops.count ∙ length-set r.nodes original sized

  rest-Takes :
      (u : Ram)
      → Links w v cut
          (sub_word w total size)
          (add_word w (head_offset w v r bin) size)
          (next_free cut)
          u
      → Takes w v r size bin (insert_neighbor w v original (next_free cut) u)
  rest-Takes u links = record {
    taken =
        insert_neighbor-block w v original (next_free cut) u original
        ∙ links.others original (λ e. apart (sym cut_next ∙ e))
        ∙ cut_head;
    rest = λ lt.
        insert_neighbor-block w v original (next_free cut) u (next_free r)
        ∙ ap (λ j. block (node w v u j)) (sym cut_next)
        ∙ links.made (omega (arith, cut_nodes, cut_next, inside))
        ∙ ap (λ n. (add_word w (head_offset w v r bin) size, n, false)) slice_exact;
    listed = λ lt.
        insert_neighbor-bin_head w v original (next_free cut) u (floor_to_float w (total - size))
        ∙ ap (λ n. bin_head w v u (floor_to_float w n)) (sym slice_exact)
        ∙ links.first (omega (arith, drops.bins, classes (sub_word w total size) small))
        ∙ cut_next;
  }
    where
      small : sub_word w total size < 2 ^ w
      small = omega (arith, slice_exact, fits)

  slice_top_bin_node-Takes :
      (t : Ram) × (slice_top_bin_node w v r size bin top leaf ≡ ok t) × Takes w v r size bin t
  unfolding slice_top_bin_node
  slice_top_bin_node-Takes = elim (Bool-cases (sub_word w total size == 0)) [
    | inl exact ↦ (cut, if-true exact _ _, exact-Takes ((==_iff (sub_word w total size) 0).0 exact))
    | inr more ↦
        let (u, made, links) =
          insert_node-Links w v cut (sub_word w total size)
            (add_word w (head_offset w v r bin) size)
            (omega (arith, cut_nodes, drops.top, below)) in
        (
          insert_neighbor w v original (next_free cut) u,
          if-false more _ _
              ∙ ap (λ made. made >>= λ new. ok (insert_neighbor w v original new.0 new.1)) made,
          rest-Takes u links,
        )
  ]

-- The block that `allocate` cuts, with the cut.
pub allocate_slices :
    (w v : ℕ) (r : Ram) (size : ℕ)
    → IsBinned w v r
    → IsStocked w v r
    → size ≤ max_alloc w v r
    → size ≤ r.free_storage
    → (top : ℕ) × (leaf : ℕ) × LowestBin r (ceil_to_float w size) (some (top, leaf))
      × (size ≤ head_size w v r (top * 8 + leaf))
      × (t : Ram) × (allocate w v r size
          ≡ ok (
            record {
              offset = head_offset w v r (top * 8 + leaf);
              id = bin_head w v r (top * 8 + leaf);
            },
            t,
          ))
      × Takes w v r size (top * 8 + leaf) t
      × (slice_top_bin_node w v r size (top * 8 + leaf) top leaf ≡ ok t)
allocate_slices w v r size b s le enough =
    let (top, leaf, (leaf_lt, ge, set, least), fits, run) =
      allocate_finds w v r b size le enough s.left in
    let bin : ℕ = top * 8 + leaf in
    let joined : join_bin top leaf ≡ bin = if-true (lt→ltb leaf 8 leaf_lt) _ _ in
    let (t, sliced, takes) =
      slice_top_bin_node-Takes w v r size bin top leaf fits (b.head_fits bin set) (s.heads bin set)
        s.below s.inside (s.apart bin set) s.classes in
    (
      top,
      leaf,
      (leaf_lt, ge, set, least),
      fits,
      t,
      run
          ∙ ap (λ at. give r size at (slice_top_bin_node w v r size at top leaf)) joined
          ∙ ap (give r size bin) sliced
          ∙ ap (λ offset. ok (record { offset = offset; id = bin_head w v r bin }, t))
              (ap (λ x. x.0) takes.taken),
      takes,
      sliced,
    )
  where
    give : Ram → ℕ → ℕ → Result Ram → Result (Allocation × Ram)
    give r size at sliced = sliced >>= λ t. ok (
      record { offset = (node w v t (bin_head w v r at)).data_offset; id = bin_head w v r at },
      t,
    )

-- Where `size_type` has 8 bits at least, the masks are right, each class has a list, some block is free,
-- each head of a list is a node of its bin whose size fits `size_type`, and a free node is left that is
-- a node and heads no list, `allocate` of a size up to `max_alloc()` and `remaining()` returns the place
-- of the head of the lowest bin with a block from the class of the size on. This block is not smaller
-- than the size: it is in use with the size asked for, and what is longer is a free block behind it at
-- the head of the list of its own class.
pub allocate-Takes :
    (w v : ℕ) (r : Ram) (size : ℕ)
    → IsBinned w v r
    → IsStocked w v r
    → size ≤ max_alloc w v r
    → size ≤ r.free_storage
    → (top : ℕ) × (leaf : ℕ) × LowestBin r (ceil_to_float w size) (some (top, leaf))
      × (size ≤ head_size w v r (top * 8 + leaf))
      × (t : Ram) × (allocate w v r size
          ≡ ok (
            record {
              offset = head_offset w v r (top * 8 + leaf);
              id = bin_head w v r (top * 8 + leaf);
            },
            t,
          ))
      × Takes w v r size (top * 8 + leaf) t
allocate-Takes w v r size b s le enough =
    let (top, leaf, lowest, fits, t, run, takes, _) = allocate_slices w v r size b s le enough in
    (top, leaf, lowest, fits, t, run, takes)
