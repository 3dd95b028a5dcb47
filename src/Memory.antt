-- ===== src/Memory.antt =====
-- MemoryManager (fuzzer/fuzzer/memory-manager.h and .cpp): numbered slots with a reference count,
-- a length and a pointer to a buffer each. `std::bad_alloc` cannot arise, since the code asks for
-- memory with `std::nothrow`; the nodes of the maps themselves are taken to be there.
pub mod Invariant
pub mod Create
pub mod Release
pub mod Bytes
pub mod Resize
pub mod Insert
pub mod Remove
pub mod Copy
use fuzzer_goal_directed.Prelude.{
  ℕ, ◌+◌, ◌≡◌, Bool, true, false, ◌&&◌, ◌||◌, not, Option, none, some, List, [], ◌∷◌, ltb, leb,
  ◌==◌, if◌then◌else◌, length, add64, sub64,
}
use fuzzer_goal_directed.Result.{Result, ok, fault, ◌>>=◌}
use fuzzer_goal_directed.OrderedMap.{lookup, assign, insert, erase, keys}
use fuzzer_goal_directed.Heap.{Heap, Pointer, new_array, delete_array, store, memmove}

abbrev pub uninit_index : ℕ
uninit_index = 0

pub record MemoryManager : Type 0 where
  pub next_index : ℕ
  pub refs : List (ℕ × ℕ)
  pub memory : List (ℕ × Pointer)
  pub lengths : List (ℕ × ℕ)
  pub heap : Heap

pub record Triplet : Type 0 where
  pub index : ℕ
  pub ptr : Pointer
  pub length : ℕ

unfoldable pub init : Heap → MemoryManager
init h = record { next_index = uninit_index + 1; refs = []; memory = []; lengths = []; heap = h }

-- `size()`: how many slots are in use.
unfoldable pub size : MemoryManager → ℕ
size m = length m.lengths

-- `index == UNINIT_INDEX || index >= next_index`
abbrev pub is_unknown : MemoryManager → ℕ → Bool
is_unknown m i = i == uninit_index || leb m.next_index i

abbrev pointer_or_null : Option Pointer → Pointer
pointer_or_null none = none
pointer_or_null (some p) = p

abbrev number_or_zero : Option ℕ → ℕ
number_or_zero none = 0
number_or_zero (some n) = n

unfoldable pub buffer : MemoryManager → ℕ → Pointer
buffer m i = if is_unknown m i then none else pointer_or_null (lookup i m.memory)

unfoldable pub is_null : MemoryManager → ℕ → Bool
is_null m i = elim (buffer m i) [ none ↦ true | some a ↦ false ]

-- `length(index)`
unfoldable pub slot_length : MemoryManager → ℕ → ℕ
slot_length m i = if is_unknown m i then 0 else number_or_zero (lookup i m.lengths)

abbrev pub adapted_size : ℕ → ℕ
adapted_size n = if ltb n 1 then 1 else n

unfoldable pub create : MemoryManager → ℕ → Triplet × MemoryManager
create m new_size =
    let (p, h) = new_array m.heap (adapted_size new_size) in
    (
      record { index = m.next_index; ptr = p; length = new_size },
      record {
        next_index = add64 m.next_index 1;
        refs = insert m.next_index 1 m.refs;
        memory = insert m.next_index p m.memory;
        lengths = insert m.next_index new_size m.lengths;
        heap = h;
      },
    )

unfoldable pub dismiss : MemoryManager → ℕ → Result MemoryManager
dismiss m i = if i == uninit_index then ok m else elim (lookup i m.memory) [
  | none ↦ ok m
  | some p ↦ do
    h ← delete_array m.heap p
    ok (record m {
      refs = erase i m.refs;
      memory = erase i m.memory;
      lengths = erase i m.lengths;
      heap = h;
    })
]

unfoldable pub increase_count : MemoryManager → ℕ → MemoryManager
increase_count m i = if is_unknown m i then m else elim (lookup i m.refs) [
  | none ↦ m
  | some r ↦ record m { refs = assign i (add64 r 1) m.refs }
]

unfoldable pub decrease_count : MemoryManager → ℕ → Result MemoryManager
decrease_count m i = if is_unknown m i then ok m else elim (lookup i m.refs) [
  | none ↦ ok m
  | some r ↦
      if ltb (sub64 r 1) 1
      then dismiss m i
      else ok (record m { refs = assign i (sub64 r 1) m.refs })
]

unfoldable pub copy : MemoryManager → ℕ → Bool → Result (ℕ × MemoryManager)
copy m source shallow =
    if is_unknown m source
    then ok (uninit_index, m)
    else if shallow
    then ok (source, increase_count m source)
    else let (n, m') = create m (slot_length m source) in
      if ltb 0 n.length
      then (do
        h ← memmove m'.heap n.ptr 0 (pointer_or_null (lookup source m'.memory)) 0 n.length
        ok (n.index, record m' { heap = h }))
      else ok (n.index, m')

unfoldable pub remove_bytes : MemoryManager → ℕ → ℕ → ℕ → Result (Bool × MemoryManager)
remove_bytes m i start number =
    if is_unknown m i
    then ok (false, m)
    else let old_length = slot_length m i in
      let p = buffer m i in
      let new_length = sub64 old_length number in
      do
        h ← memmove m.heap p start p (add64 start number) (sub64 new_length start)
        h' ← store h p new_length 0
        ok (true, record m { lengths = assign i new_length m.lengths; heap = h' })

-- The new buffer of `resize_buffer` with what is copied into it.
abbrev moved : Heap → Pointer → Pointer → ℕ → Result Heap
moved h (some old) (some new) n = do
  h' ← memmove h (some new) 0 (some old) 0 n
  delete_array h' (some old)
moved h _ _ n = ok h

unfoldable pub resize_buffer : MemoryManager → ℕ → ℕ → Result (Bool × MemoryManager)
resize_buffer m i new_size = if is_unknown m i then ok (false, m) else elim (lookup i m.memory) [
  | none ↦ ok (false, m)
  | some old ↦
      if ltb 0 new_size
      then (let (new, h) = new_array m.heap new_size in
          do
            h' ← moved h old new (slot_length m i)
            ok (
              true,
              record m {
                memory = assign i new m.memory;
                lengths = assign i new_size m.lengths;
                heap = h';
              },
            ))
      else (do
        h ← delete_array m.heap old
        ok (
          true,
          record m {
            memory = assign i none m.memory;
            lengths = assign i new_size m.lengths;
            heap = h;
          },
        ))
]

-- Opens a gap of `number` bytes at `start`, or at the end if `start` is past it.
unfoldable pub insert_bytes : MemoryManager → ℕ → ℕ → ℕ → Result (Bool × MemoryManager)
insert_bytes m i start number =
    if is_unknown m i
    then ok (false, m)
    else let old_length = slot_length m i in
      let new_length = add64 old_length number in
      if ltb start old_length
      then (do
        (resized, m') ← resize_buffer m i new_length
        if resized
            then (do
              let p = buffer m' i
              h ← memmove m'.heap p (add64 start number) p start (sub64 old_length start)
              ok (true, record m' { heap = h }))
            else resize_buffer m' i new_length)
      else resize_buffer m i new_length

unfoldable pub contains : ℕ → List ℕ → Bool
contains k [] = false
contains k (x ∷ xs) = k == x || contains k xs

-- The loop of `force_clean` over the slots to dismiss.
dismiss_all : MemoryManager → List ℕ → Result MemoryManager
dismiss_all m [] = ok m
dismiss_all m (i ∷ is) = do m' ← dismiss m i; dismiss_all m' is

inactive : List ℕ → List ℕ → List ℕ
unfolding contains
inactive active [] = []
inactive active (i ∷ is) =
    let rest = inactive active is in if contains i active then rest else i ∷ rest

unfoldable pub force_clean : MemoryManager → List ℕ → Result MemoryManager
unfolding inactive dismiss_all
force_clean m active = dismiss_all m (inactive active (keys m.refs))

-- The loop of `cleanup_all`: the entries stay, with null pointers.
delete_all : Heap → List (ℕ × Pointer) → Result (Heap × List (ℕ × Pointer))
delete_all h [] = ok (h, [])
delete_all h ((i, p) ∷ rest) = do
  h' ← delete_array h p
  (h'', rest') ← delete_all h' rest
  ok (h'', (i, none) ∷ rest')

unfoldable pub cleanup_all : MemoryManager → Result MemoryManager
unfolding delete_all
cleanup_all m = do
  (h, entries) ← delete_all m.heap m.memory
  ok (record m { memory = entries; heap = h })
