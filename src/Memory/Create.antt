-- ===== src/Memory/Create.antt =====
-- `create` (fuzzer/fuzzer/memory-manager.cpp), entry by entry.
use fuzzer_goal_directed.Prelude.{ℕ, ◌+◌, ◌<◌, ◌≡◌, some, arith, u64_mod, ◌==◌, if◌then◌else◌}
use fuzzer_goal_directed.OrderedMap.{lookup, lookup-insert}
use fuzzer_goal_directed.Heap.Laws.{
  blocks-new_array, new_array_pointer, answer-new_array, next_address-new_array,
}
use fuzzer_goal_directed.Memory.{MemoryManager, create, adapted_size}
use fuzzer_goal_directed.Memory.Invariant.{IsValid, next_unused}

module _ (m : MemoryManager) (n : ℕ) (small : m.next_index + 1 < u64_mod) (v : IsValid m) where
  pub create_memory :
      (i : ℕ)
      → lookup i (create m n).1.memory
        ≡ (if m.next_index == i then some (create m n).0.ptr else lookup i m.memory)
  unfolding create
  create_memory i = lookup-insert _ i _ m.memory (next_unused v)

  pub create_lengths :
      (i : ℕ)
      → lookup i (create m n).1.lengths ≡ (if m.next_index == i then some n else lookup i m.lengths)
  unfolding create
  create_lengths i =
      lookup-insert _ i n m.lengths (ground (arith, v.in_step m.next_index, next_unused v))

  pub create_refs :
      (i : ℕ)
      → lookup i (create m n).1.refs ≡ (if m.next_index == i then some 1 else lookup i m.refs)
  unfolding create
  create_refs i = lookup-insert _ i 1 m.refs (ground (arith, v.in_step m.next_index, next_unused v))

  pub new_block :
      (a : ℕ)
      → lookup a (create m n).1.heap.blocks ≡ (
          if m.heap.next_address == a
          then m.heap.answer m.heap.next_address (adapted_size n)
          else lookup a m.heap.blocks)
  unfolding create
  new_block a = blocks-new_array m.heap (adapted_size n) a v.fresh

  pub create-IsValid : IsValid (create m n).1
  unfolding create
  create-IsValid = record {
    honest = λ c k. rw (answer-new_array m.heap (adapted_size n)) (v.honest c k);
    started = omega arith;
    known = λ i. ground (arith, v.known i, create_memory i, v.started);
    fresh =
        λ a. ground (arith, new_block a, v.fresh a, next_address-new_array m.heap (adapted_size n));
    distinct = λ i j a e f. ground (
      arith,
      create_memory i,
      create_memory j,
      v.distinct i j a,
      v.backed i a,
      v.backed j a,
      v.fresh a,
      new_array_pointer m.heap (adapted_size n),
    );
    in_step = λ i. ground (arith, create_memory i, create_lengths i, create_refs i, v.in_step i);
    backed = λ i a e. ground (
      arith,
      create_memory i,
      create_lengths i,
      new_block a,
      v.backed i a,
      v.fresh a,
      new_array_pointer m.heap (adapted_size n),
      v.honest m.heap.next_address (adapted_size n),
    );
  }
