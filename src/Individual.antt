-- ===== src/Individual.antt =====
-- `Individual` (fuzzer/fuzzer/evolution.h and evolution.cpp): a handle on a slot of the memory
-- manager. Copies and destruction change the slot's reference count. The field `genealogy` is never
-- set by the code and is left out. `clone` returns its local by name, which the compiler builds in
-- place of the result, so no further copy is made there.
pub mod Clone
use fuzzer_goal_directed.Prelude.{
  bytes_equal, ℕ, ◌+◌, Bool, true, false, List, [], ◌∷◌, ltb, ◌==◌, if◌then◌else◌, length, ◌&&◌,
  not,
}
use fuzzer_goal_directed.Result.{Result, ok, fault, ◌>>=◌}
use fuzzer_goal_directed.Heap.{Heap, read_range, write_range}
use fuzzer_goal_directed.Memory.{
  MemoryManager, increase_count, decrease_count, copy, create, buffer, slot_length, uninit_index,
}

pub record Individual : Type 0 where
  pub index : ℕ
  pub id : ℕ

-- `Individual(MemoryManager &)`
unfoldable pub blank : Individual
blank = record { index = uninit_index; id = 0 }

-- The copy constructor.
unfoldable pub copy_construct : MemoryManager → Individual → Individual × MemoryManager
copy_construct m i = (i, increase_count m i.index)

-- The destructor.
unfoldable pub destroy : MemoryManager → Individual → Result MemoryManager
destroy m i = decrease_count m i.index

-- `operator=`; `itself` says whether `this` is the address of the other individual. The assignment of
-- the manager to itself does nothing.
unfoldable pub assign_to :
    Bool → MemoryManager → Individual → Individual → Individual × MemoryManager
assign_to true m target i = (target, m)
assign_to false m target i = (i, increase_count m i.index)

unfoldable pub clone : MemoryManager → Individual → Bool → Result (Individual × MemoryManager)
unfolding copy_construct
clone m i keep_id =
    let (c, m1) = copy_construct m i in
    if keep_id
    then ok (c, m1)
    else do (new_index, m2) ← copy m1 c.index false; ok (record c { index = new_index; id = 0 }, m2)

unfoldable pub set_bytes : MemoryManager → Individual → List ℕ → Result (Individual × MemoryManager)
set_bytes m i bytes =
    let (t, m') = create m (length bytes) in
    do
      h ← write_range m'.heap t.ptr 0 bytes
      ok (record i { index = t.index }, record m' { heap = h })

-- `operator==`
unfoldable pub same : MemoryManager → Individual → Individual → Result Bool
same m a b =
    if a.index == b.index
    then ok true
    else if not (slot_length m a.index == slot_length m b.index)
    then ok false
    else do
      xs ← read_range m.heap (buffer m a.index) 0 (slot_length m a.index)
      ys ← read_range m.heap (buffer m b.index) 0 (slot_length m a.index)
      ok (bytes_equal xs ys)
