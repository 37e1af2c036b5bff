-- ===== src/Lib.antt =====
-- A verification library for cth, a C++ utility library: its containers and allocators, its
-- algorithms that combine and assign, its numeric and text helpers, the switches and timers of its
-- coroutine part, and its keys and the events of the keyboard.
--
-- The parts of the program, and the files that model them
--   * cth/incl/cth/data/union_find.hpp, the class `union_find`: UnionFind (the object as two lists,
--     the constructors, `find`, both `merge`s) and UnionFind/Queries (`chain_length`, `roots`,
--     `all_of`, `all`, `operator==`). UnionFind/Forest says what the parent array means,
--     UnionFind/Halve and UnionFind/Find are about `find`, UnionFind/Merge, Same and Sizes about
--     `merge(lhs, rhs)`, UnionFind/Group about `merge(group)`, UnionFind/Init about the constructor.
--   * cth/incl/cth/data/ringalloc.hpp, the class `ring_alloc`: RingAlloc has `alloc`, `free`,
--     `max_alloc` with nobody else on the ring, RingAlloc/Threads any number of threads, whose steps
--     are the atomic loads and the compare-exchanges of `alloc` and `free`. A load of the tail may
--     read an older value, as the relaxed orders of the code allow.
--   * cth/incl/cth/data/pool.hpp, the class template `pool`: Pool. Its client
--     cth_coro/src/coro/utility/timer_pool.hpp: Pool/Timers, which takes a timer from the pool for
--     each wait and gives it back when the wait ends, unless it failed.
--   * cth/incl/cth/coro/global_switch.hpp, the class `global_switch`: Switch (calls one after the
--     other) and Switch/Threads (calls of several threads, the count and the callbacks as separate
--     steps).
--   * cth/incl/cth/data/miniram.hpp and cth/incl/cth/data/inl/miniram.inl, `basic_miniram`:
--     Miniram/Float (size classes), Miniram/Ram (the object, the stack of free nodes, the lists of
--     free blocks, `clear`), Miniram/Alloc (`allocate`, `free`, `size_of`, `max_alloc`,
--     `free_regions`), Miniram/Defrag (`defragment`, `resize`), Miniram/Copies
--     (`to_disjunct_copies`).
--   * cth/incl/cth/algorithm/combine.hpp: Combine (`unique_combine`: the search for an augmenting path,
--     its flip, and the whole) and Assign (`assign`: the search, the moves along a path, the rising
--     levels). In Combine, Search and Ends are about the search, Flip and Climb about the flips, DeadEnd
--     about a search that finds nothing and Unique about the function. In Assign, Seats and Flows say
--     what the lists of the b's hold, Midway, Round, Displaced and Path are about the search, Moved and Shift
--     about the moves, Gather and Stuck about a search that finds nothing, Vacant and Places about the
--     loop over the a's, Levels and Water about the loop that raises the levels and Whole about the
--     function.
--   * cth/incl/cth/io/keybd/keys.hpp: Keys (the keys, their values and casts) and Keys/Symbols
--     (`to_utf8_string`).
--   * cth_win/src/cth/win/io/win_key_convert.hpp: Keyboard/Windows (what it uses of Windows),
--     Keyboard/Send (from keys to inputs) and Keyboard/Receive (from inputs to keys). RoundTrip and Lost
--     have what becomes of a key on both ways, and Seen, Switched, Choices, Rows and Virtual the steps
--     to it.
--   * cth_win/src/cth/win/io/keyboard.cpp: Keyboard/Queue (`event_queue`), Keyboard/Manager
--     (`hook_manager`, which takes the hook from a `global_switch` of Switch and hands each event to
--     the subscribed queues) and Keyboard/Hook (the hook thread, step by step). Subscribed, Delivery,
--     Delivered, Events and Stopping are about them.
--   * cth/incl/cth/data/poly_vector.hpp: PolyVector (`raw_poly_vector`), PolyVector/Layout (where
--     `realloc` puts the blocks) and PolyVector/Storage (what it gets from the heap).
--   * Base has the numbers, lists, words, bits and results that these share.
--   * cth/incl/cth/numeric.hpp: Numeric (`pow` and `align_to` of unsigned integers).
--   * cth/incl/cth/string.hpp: Text (`to_num` of unsigned integers, `split` at a character).
--
-- How state and operations correspond to the code
--   A method that changes its object returns the new object. Functions keep the code's names in
--   lower case with underscores. `CTH_CRITICAL` ends a call with `critical` (Base/Checked). Machine
--   words are natural numbers, and the wrap of `size_t`, of `size_type` (`w` bits) and of
--   `index_type` (`v` bits) is written out (Base/Words). A pointer into a deque of the pool is its
--   index. Arrays read a default value out of bounds, where the code has undefined behaviour, and a
--   write out of bounds changes nothing. What the code uses of Windows is a parameter, its numbers with
--   what is documented of them (`IsWindows`), and so are the `unassigned` of `assign`, which is -1 in
--   a type the caller picks, and `operator new`, with what it promises (`IsAllocator`).
--
-- Bounds and fuel
--   `find` and `chain_length` get as many rounds as there are nodes, which is enough on a forest,
--   since each round goes up and a path has no more nodes. The loop of `to_disjunct_copies` gets as
--   many rounds as the move has elements, which is enough for a move to the left, since each chunk
--   has one at least. The walk of `free_regions` gets as many rounds as there are nodes.
--   The search of `unique_combine` gets a round for each selection and one more, since a round takes
--   one that the search has not taken before, and its flips get a round for each parent that the
--   search noted. The search of `assign` gets a round for each a and its moves a round for each b. The
--   levels rise no more often than all b's together have places, so that as many rounds and two more
--   are enough.
--   The sizes of a union_find are `uint32_t`, so that they are exact for fewer than 2 ^ 32 nodes.
--   `pow` gets a round for each bit of the type of its power. Threads are followed
--   while fewer than 2 ^ 63 bytes were issued in all, and rings have fewer than 2 ^ 62 bytes.
--
-- What is not modelled
--   Logging, files and the console, the type traits, the Windows API, coroutine frames, the
--   helpers on floats and on signed integers, `poly_vector` around its `raw_poly_vector`, the pointers
--   and the views, the scheduler of the coroutines, and the
--   C++ modules in cth_cthm, which repeat the headers. `fragmentation()` of basic_miniram computes
--   with floats. The waits of a timer are the waiting library's.
pub mod Base
pub mod UnionFind
pub mod RingAlloc
pub mod Pool
pub mod Switch
pub mod Miniram
pub mod Numeric
pub mod Text
pub mod Keys
pub mod Keyboard
pub mod Combine
pub mod Assign
pub mod PolyVector
