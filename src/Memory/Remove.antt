-- ===== src/Memory/Remove.antt =====
-- Bytes that leave a slot (fuzzer/fuzzer/memory-manager.cpp: `remove_bytes`).
use fuzzer_goal_directed.Prelude.{
  ℕ, ◌+◌, ◌-◌, ◌<◌, ◌≤◌, ◌≡◌, refl, ap, sym, ◌∙◌, Bool, true, some, List, ◌++◌, arith, u64_mod, ltb,
  ◌==◌, if◌then◌else◌, length, length-append, take, drop, take_append_le, set, length-set,
  set-append_any, set_past, append_assoc, length-take, length-drop, add64-small, sub64-small,
  drop_append_le, le→ltb, take_front_append,
}
use native.Mathlib.Nat.{sub_self}
use fuzzer_goal_directed.Result.{Returns, returns}
use fuzzer_goal_directed.OrderedMap.{lookup, assign, lookup-assign, assign-assign}
use fuzzer_goal_directed.Heap.Laws.{memmove-live, store-live}
use fuzzer_goal_directed.Memory.{MemoryManager, remove_bytes}
use fuzzer_goal_directed.Memory.Invariant.{IsValid, View}
use fuzzer_goal_directed.Memory.Bytes.{Updated, buffer-View, slot_length-View, reblocked-Updated}
use fuzzer_goal_directed.Memory.Resize.{known_slot}

module _ (m : MemoryManager) (i : ℕ) {old : List ℕ} (v : IsValid m) (w : View m i old) where
  module _ (start number : ℕ) (pos : 0 < number) (le : start + number ≤ length old) where
    abbrev kept : List ℕ
    kept = take start old ++ drop (start + number) old

    abbrev tail : List ℕ
    tail = drop (start + (length old - number - start)) (old ++ w.pad)

    length-kept : length kept ≡ length old - number
    length-kept = omega (
      arith,
      length-append (take start old) (drop (start + number) old),
      length-take start old,
      length-drop (start + number) old,
    )

    length-tail : number ≤ length tail
    length-tail = omega (
      arith,
      length-drop (start + (length old - number - start)) (old ++ w.pad),
      length-append old w.pad,
    )

    kept_block :
        take start (old ++ w.pad)
          ++ (take (length old - number - start) (drop (start + number) (old ++ w.pad)) ++ tail)
        ≡ kept ++ tail
    kept_block =
        let sized : length (drop (start + number) old) ≡ length old - number - start =
          omega (arith, length-drop (start + number) old) in
        rw (
          take_append_le start old w.pad (omega arith),
          drop_append_le (start + number) old w.pad le,
          take_front_append (length old - number - start) (drop (start + number) old) w.pad sized,
          append_assoc,
        )

    terminated : set (kept ++ tail) (length old - number) 0 ≡ kept ++ set tail 0 0
    terminated =
        ap (λ n. set (kept ++ tail) n 0) (sym length-kept)
        ∙ set-append_any kept tail (length kept) 0
        ∙ past
      where
        past :
            set kept (length kept) 0
              ++ (if ltb (length kept) (length kept)
                  then tail
                  else set tail (length kept - length kept) 0)
            ≡ kept ++ set tail 0 0
        past = rw (
          set_past kept (length kept) 0 (omega arith),
          le→ltb (length kept) (length kept) (omega arith),
          sub_self (length kept),
        )

  -- In a valid manager, `remove_bytes` takes out `number` bytes, at least one, that lie within the slot
  -- from `start` on: it does not fault, the manager stays valid, and no other slot changes.
  pub remove_bytes_lem :
      (start number : ℕ)
      → 0 < number
      → start + number ≤ length old
      → length old < u64_mod
      → Returns {A = Bool × MemoryManager}
          (λ r. (r.0 ≡ true) × Updated m i (take start old ++ drop (start + number) old) r.1)
          (remove_bytes m i start number)
  unfolding remove_bytes
  remove_bytes_lem start number pos le small =
      rw
        (
          known_slot w,
          slot_length-View m i v w,
          buffer-View m i v w,
          add64-small start number (omega arith),
          sub64-small (length old) number (omega arith) small,
          sub64-small (length old - number) start (omega arith) (omega arith),
          memmove-live m.heap w.address w.address start (start + number)
              (length old - number - start) w.block w.block (omega (arith, length-append old w.pad))
              (omega (arith, length-append old w.pad)),
          kept_block start number pos le,
          store-live (record m.heap { blocks = assign w.address k m.heap.blocks }) w.address
              (length old - number) 0 stored
              (omega (
                arith,
                length-append (kept start number pos le) (tail start number pos le),
                length-kept start number pos le,
                length-tail start number pos le,
              )),
          assign-assign w.address (set k (length old - number) 0) k m.heap.blocks,
          terminated start number pos le,
        )
        (returns _ (
          refl,
          reblocked-Updated m i v w (kept start number pos le) (set (tail start number pos le) 0 0)
              (assign i (length old - number) m.lengths)
              (omega
                (arith, length-set (tail start number pos le) 0 0, length-tail start number pos le))
              (λ j.
                lookup-assign i j (length old - number) m.lengths
                ∙ ap (λ n. if i == j then some n else lookup j m.lengths)
                    (sym (length-kept start number pos le))),
        ))
    where
      k : List ℕ
      k = kept start number pos le ++ tail start number pos le

      stored : lookup w.address (assign w.address k m.heap.blocks) ≡ some k
      stored = ground (arith, lookup-assign w.address w.address k m.heap.blocks)
