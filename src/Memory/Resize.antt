-- ===== src/Memory/Resize.antt =====
-- Slots that change their length (fuzzer/fuzzer/memory-manager.cpp: `resize_buffer`).
use fuzzer_goal_directed.Prelude.{
  ℕ, suc, ◌-◌, ◌<◌, ◌≤◌, ◌≡◌, refl, true, false, none, some, List, ◌++◌, arith, ◌==◌, if◌then◌else◌,
  Bool-cases, inl, inr, length, length-append, drop, take-length, length-drop, lt→ltb,
}
use native.Mathlib.Nat.{zero-add}
use fuzzer_goal_directed.Result.{ok, Returns, returns}
use fuzzer_goal_directed.OrderedMap.{lookup, assign, erase, lookup-assign, lookup-erase}
use fuzzer_goal_directed.Heap.{Heap, Provides}
use fuzzer_goal_directed.Heap.Laws.{new_array-supplied, memmove-live, delete_array-live}
use fuzzer_goal_directed.Memory.{MemoryManager, resize_buffer, moved, is_unknown}
use fuzzer_goal_directed.Memory.Invariant.{IsValid, contents, contents-frame, View}
use fuzzer_goal_directed.Memory.Bytes.{Updated, take_front, slot_length-View}

pub known_slot :
    {m : MemoryManager} {i : ℕ} {bytes : List ℕ} → View m i bytes → is_unknown m i ≡ false
known_slot w = ground (arith, w.inside)

module _ (m : MemoryManager) (i : ℕ) {old : List ℕ} (v : IsValid m) (w : View m i old) where
  -- Slot `i` with a block of its own that the heap has just handed out.
  module _ (bytes : List ℕ) (n : ℕ) (size : length bytes ≡ n) (nonempty : 0 < length bytes) where
    abbrev moved_to : List (ℕ × List ℕ) → MemoryManager
    moved_to blocks = record m {
      memory = assign i (some m.heap.next_address) m.memory;
      lengths = assign i n m.lengths;
      heap = record m.heap { next_address = suc m.heap.next_address; blocks = blocks };
    }

    module _ (blocks : List (ℕ × List ℕ))
        (entries : (a : ℕ)
          → lookup a blocks ≡ (
              if w.address == a
              then none
              else if m.heap.next_address == a
              then some bytes
              else lookup a m.heap.blocks)) where
      moved_to-IsValid : IsValid (moved_to blocks)
      moved_to-IsValid = record {
        honest = v.honest;
        started = v.started;
        known = λ j.
            ground
              (arith, v.known j, w.inside, lookup-assign i j (some m.heap.next_address) m.memory);
        fresh = λ a. ground (arith, v.fresh a, entries a);
        distinct = λ j k a. ground (
          arith,
          v.distinct j k a,
          v.fresh a,
          v.backed j a,
          v.backed k a,
          lookup-assign i j (some m.heap.next_address) m.memory,
          lookup-assign i k (some m.heap.next_address) m.memory,
        );
        in_step = λ j. ground (
          arith,
          v.in_step j,
          w.memory,
          lookup-assign i j (some m.heap.next_address) m.memory,
          lookup-assign i j n m.lengths,
        );
        backed = λ j a e. ground (
          arith,
          v.backed j a,
          v.distinct i j a,
          v.fresh a,
          w.memory,
          lookup-assign i j (some m.heap.next_address) m.memory,
          lookup-assign i j n m.lengths,
          entries a,
          nonempty,
          size,
        );
      }

      contents-moved_to : contents (moved_to blocks) i ≡ some bytes
      unfolding contents
      contents-moved_to = ground (
        arith,
        v.fresh w.address,
        w.block,
        lookup-assign i i (some m.heap.next_address) m.memory,
        lookup-assign i i n m.lengths,
        entries m.heap.next_address,
        take-length bytes,
        size,
      )

      moved_to-Updated : Updated m i bytes (moved_to blocks)
      moved_to-Updated = record {
        valid = moved_to-IsValid;
        holds = λ j. elim (Bool-cases (i == j)) [
          | inl e ↦ ground (arith, contents-moved_to)
          | inr e ↦ rw e (
              contents-frame m (moved_to blocks) j
                (rw (lookup-assign i j (some m.heap.next_address) m.memory, e))
                (rw (lookup-assign i j n m.lengths, e))
                (λ a f.
                  ground (arith, v.distinct i j a, w.memory, v.backed j a, v.fresh a, entries a)))
        ];
        next_index = refl;
        answer = refl;
        refs = refl;
      }

  -- The bytes move to a new block `b`, and the old block is freed.
  moved-live :
      (b : List ℕ)
      → length old ≤ length b
      → moved
          (record m.heap {
            next_address = suc m.heap.next_address;
            blocks = assign m.heap.next_address b m.heap.blocks;
          })
          (some w.address)
          (some m.heap.next_address)
          (length old)
        ≡ ok (record m.heap {
          next_address = suc m.heap.next_address;
          blocks = erase w.address (
              assign m.heap.next_address
                (old ++ drop (length old) b)
                (assign m.heap.next_address b m.heap.blocks));
        })
  moved-live b le =
      rw
        (
          memmove-live h1 m.heap.next_address w.address 0 0 (length old) {src = old ++ w.pad}
              {dst = b} there here (omega (arith, length-append old w.pad)) (omega arith),
          take_front old w.pad,
          zero-add (length old),
        )
        (delete_array-live h2 w.address {b = old ++ w.pad} still)
    where
      h1 : Heap
      h1 = record m.heap {
        next_address = suc m.heap.next_address;
        blocks = assign m.heap.next_address b m.heap.blocks;
      }

      h2 : Heap
      h2 = record h1 { blocks = assign m.heap.next_address (old ++ drop (length old) b) h1.blocks }

      there : lookup m.heap.next_address h1.blocks ≡ some b
      there = ground (arith, lookup-assign m.heap.next_address m.heap.next_address b m.heap.blocks)

      here : lookup w.address h1.blocks ≡ some (old ++ w.pad)
      here = ground (
        arith,
        v.fresh w.address,
        w.block,
        lookup-assign m.heap.next_address w.address b m.heap.blocks,
      )

      still : lookup w.address h2.blocks ≡ some (old ++ w.pad)
      still = ground (
        arith,
        v.fresh w.address,
        w.block,
        here,
        lookup-assign m.heap.next_address w.address (old ++ drop (length old) b) h1.blocks,
      )

  -- In a valid manager with memory on the heap, `resize_buffer` to a length that is no smaller, and not
  -- zero, keeps the bytes and puts behind them what the new block holds there: it does not fault, and
  -- no other slot changes.
  pub resize_buffer_lem :
      (n : ℕ)
      → Provides m.heap
      → length old ≤ n
      → 0 < n
      → Returns
          (λ r.
            (r.0 ≡ true)
            × ((gap : List ℕ) × (length gap ≡ n - length old) × Updated m i (old ++ gap) r.1))
          (resize_buffer m i n)
  unfolding resize_buffer
  resize_buffer_lem n supply le pos =
      let (b, answered, sized) = supply m.heap.next_address n in
      let gap = drop (length old) b in
      let total : length (old ++ gap) ≡ n =
        omega (arith, length-append old gap, length-drop (length old) b, sized) in
      let fits : length old ≤ length b = omega (arith, sized) in
      let positive : 0 < length (old ++ gap) = omega (arith, total) in
      rw
        (
          known_slot w,
          w.memory,
          lt→ltb 0 n pos,
          new_array-supplied m.heap n answered,
          slot_length-View m i v w,
          moved-live b fits,
        )
        (returns _ (
          refl,
          (
            gap,
            omega (arith, length-drop (length old) b, sized),
            moved_to-Updated (old ++ gap) n total positive
                (erase w.address (
                  assign m.heap.next_address (old ++ gap)
                    (assign m.heap.next_address b m.heap.blocks)))
                (λ a. ground (
                  arith,
                  lookup-erase w.address a (
                      assign m.heap.next_address (old ++ gap)
                        (assign m.heap.next_address b m.heap.blocks)),
                  lookup-assign m.heap.next_address a (old ++ gap)
                      (assign m.heap.next_address b m.heap.blocks),
                  lookup-assign m.heap.next_address a b m.heap.blocks,
                )),
          ),
        ))
