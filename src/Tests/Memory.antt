-- ===== src/Tests/Memory.antt =====
-- The memory manager at a state with one slot, number 1, with the bytes 3, 2, 1.
use fuzzer_goal_directed.Prelude.{
  ℕ, ◌-◌, ◌≡◌, refl, List, [], ◌∷◌, ◌++◌, Bool, true, false, some, none, arith, length,
  if◌then◌else◌,
}
use fuzzer_goal_directed.OrderedMap.{lookup, insert, assign}
use fuzzer_goal_directed.Result.{Returns}
use fuzzer_goal_directed.Memory.{
  MemoryManager, init, create, increase_count, decrease_count, resize_buffer, insert_bytes,
  remove_bytes, force_clean, contains,
}
use fuzzer_goal_directed.Memory.Invariant.{IsValid, init-IsValid, contents}
use fuzzer_goal_directed.Memory.Bytes.{Updated}
use fuzzer_goal_directed.Memory.Release.{
  Freed, increase_count-IsValid, decrease_count-Freed, force_clean_lem,
}
use fuzzer_goal_directed.Memory.Insert.{Opened, insert_bytes-Opened}
use fuzzer_goal_directed.Memory.Remove.{remove_bytes_lem}
use fuzzer_goal_directed.Memory.Resize.{resize_buffer_lem}
use fuzzer_goal_directed.Individual.{Individual, clone}
use fuzzer_goal_directed.Individual.Clone.{Child, clone-Child}
use fuzzer_goal_directed.Tests.{
  ample, ample-IsHonest, ample-IsFresh, one_slot, one_slot-IsValid, one_slot-View,
  one_slot-Provides, one_slot-refs, parent, parent-Ready,
}

init-IsValid_example : IsValid (init ample)
init-IsValid_example = init-IsValid ample ample-IsHonest ample-IsFresh

increase_count-IsValid_example : IsValid (increase_count one_slot 1)
increase_count-IsValid_example =
    increase_count-IsValid one_slot 1 one_slot-IsValid 1 one_slot-refs (omega arith)

decrease_count-Freed_example : Returns (Freed one_slot 1) (decrease_count one_slot 1)
decrease_count-Freed_example = decrease_count-Freed one_slot 1 one_slot-IsValid one_slot-refs

-- Slot 1 with a second reference.
abbrev shared_slot : MemoryManager
shared_slot = increase_count one_slot 1

shared_slot-IsValid : IsValid shared_slot
shared_slot-IsValid =
    increase_count-IsValid one_slot 1 one_slot-IsValid 1 one_slot-refs (omega arith)

shared_slot-refs : lookup 1 shared_slot.refs ≡ some 2
unfolding increase_count create init lookup insert assign
shared_slot-refs = refl

force_clean_example :
    Returns
      (λ m'.
        IsValid m'
        × ((j : ℕ) → contents m' j ≡ (if contains j (2 ∷ []) then contents one_slot j else none)))
      (force_clean one_slot (2 ∷ []))
force_clean_example = force_clean_lem one_slot (2 ∷ []) one_slot-IsValid

resize_buffer_example :
    Returns {A = Bool × MemoryManager}
      (λ r.
        (r.0 ≡ true)
        × ((gap : List ℕ) × (length gap ≡ 5 - 3)
            × Updated one_slot 1 ((3 ∷ 2 ∷ 1 ∷ []) ++ gap) r.1))
      (resize_buffer one_slot 1 5)
resize_buffer_example =
    resize_buffer_lem one_slot 1 one_slot-IsValid one_slot-View 5 one_slot-Provides (omega arith)
      (omega arith)

insert_bytes_example :
    Returns (Opened one_slot 1 (3 ∷ 2 ∷ 1 ∷ []) 1 4) (insert_bytes one_slot 1 1 4)
insert_bytes_example =
    insert_bytes-Opened one_slot 1 one_slot-IsValid one_slot-View 1 4 one_slot-Provides
      (omega arith) (omega arith) (omega arith)

remove_bytes_example :
    Returns {A = Bool × MemoryManager}
      (λ r. (r.0 ≡ true) × Updated one_slot 1 (3 ∷ []) r.1)
      (remove_bytes one_slot 1 1 2)
remove_bytes_example =
    remove_bytes_lem one_slot 1 one_slot-IsValid one_slot-View 1 2 (omega arith) (omega arith)
      (omega arith)

clone-Child_example :
    Returns {A = Individual × MemoryManager}
      (λ c. Child one_slot 1 parent-Ready.count (3 ∷ 2 ∷ 1 ∷ []) c.0 c.1)
      (clone one_slot parent false)
clone-Child_example = clone-Child one_slot parent parent-Ready
