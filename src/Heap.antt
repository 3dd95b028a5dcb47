-- ===== src/Heap.antt =====
-- The C++ heap as MemoryManager uses it (fuzzer/fuzzer/memory-manager.cpp): `new (std::nothrow)
-- uint8_t[n]`, `delete[]`, access through a pointer, `memcpy` and `memmove`. A pointer is the
-- address of a block or null; every access is checked, and one that C++ leaves undefined is a fault.
pub mod Laws
use fuzzer_goal_directed.Prelude.{
  ℕ, suc, ◌+◌, ◌≤◌, ◌≡◌, Option, none, some, List, ◌++◌, leb, ltb, if◌then◌else◌, length, get_elem?,
  set, take, drop,
}
use fuzzer_goal_directed.Result.{
  Result, ok, fault, ◌>>=◌, or_fault, null_pointer, out_of_bounds, use_after_free,
}
use fuzzer_goal_directed.OrderedMap.{lookup, assign, erase}

-- `answer c n` is what the runtime answers to the request number `c` for `n` bytes: a block of
-- whatever bytes were there, or `none` for the null pointer. Addresses are not used again.
pub record Heap : Type 0 where
  pub answer : ℕ → ℕ → Option (List ℕ)
  pub next_address : ℕ
  pub blocks : List (ℕ × List ℕ)

abbrev pub Pointer : Type 0
Pointer = Option ℕ

-- What `new[]` documents: a block of the size that was asked for. Here it does not run out.
abbrev pub Provides : Heap → Type 0
Provides h = (c n : ℕ) → (b : List ℕ) × (h.answer c n ≡ some b) × (length b ≡ n)

abbrev allocated : Heap → Option (List ℕ) → Pointer × Heap
allocated h none = (none, record h { next_address = suc h.next_address })
allocated h (some b) = (
  some h.next_address,
  record h { next_address = suc h.next_address; blocks = assign h.next_address b h.blocks },
)

unfoldable pub new_array : Heap → ℕ → Pointer × Heap
new_array h n = allocated h (h.answer h.next_address n)

-- The block that a pointer designates.
unfoldable pub block_of : Heap → Pointer → Result (List ℕ)
block_of h none = fault null_pointer
block_of h (some a) = or_fault (lookup a h.blocks) use_after_free

abbrev pub with_block : Heap → Pointer → List ℕ → Heap
with_block h none b = h
with_block h (some a) b = record h { blocks = assign a b h.blocks }

-- `delete[]`, which accepts the null pointer.
unfoldable pub delete_array : Heap → Pointer → Result Heap
delete_array h none = ok h
delete_array h (some a) = do b ← block_of h (some a); ok (record h { blocks = erase a h.blocks })

-- `p[j]`
unfoldable pub load : Heap → Pointer → ℕ → Result ℕ
load h p j = do b ← block_of h p; or_fault (get_elem? b j) out_of_bounds

-- `p[j] = v`
unfoldable pub store : Heap → Pointer → ℕ → ℕ → Result Heap
store h p j v = do
  b ← block_of h p
  if ltb j (length b) then ok (with_block h p (set b j v)) else fault out_of_bounds

unfoldable pub read_range : Heap → Pointer → ℕ → ℕ → Result (List ℕ)
read_range h p start n = do
  b ← block_of h p
  if leb (start + n) (length b) then ok (take n (drop start b)) else fault out_of_bounds

unfoldable pub write_range : Heap → Pointer → ℕ → List ℕ → Result Heap
write_range h p start bytes = do
  b ← block_of h p
  if leb (start + length bytes) (length b)
      then ok (with_block h p (take start b ++ (bytes ++ drop (start + length bytes) b)))
      else fault out_of_bounds

-- `memmove(dst + dst_start, src + src_start, n)`; `memcpy` where the blocks are distinct.
unfoldable pub memmove : Heap → Pointer → ℕ → Pointer → ℕ → ℕ → Result Heap
memmove h dst dst_start src src_start n = do
  bytes ← read_range h src src_start n
  write_range h dst dst_start bytes
