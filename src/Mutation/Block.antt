-- ===== src/Mutation/Block.antt =====
-- The mutators of runs of bytes (fuzzer/fuzzer/mutations.cpp).
pub mod Overwrite
pub mod Loops
pub mod Laws
pub mod Shuffle
use fuzzer_goal_directed.Prelude.{
  ℕ, zero, suc, ◌+◌, ◌-◌, ◌*◌, Bool, true, false, List, ltb, leb, ◌==◌, if◌then◌else◌, to_u32,
  to_u8, add32, mul32, sub64, add64, min,
}
use fuzzer_goal_directed.Result.{Result, ok, fault, ◌>>=◌, ◌>>◌}
use fuzzer_goal_directed.Heap.{Pointer, read_range, write_range}
use fuzzer_goal_directed.Memory.{MemoryManager, buffer, slot_length, insert_bytes}
use fuzzer_goal_directed.Memory.Bytes.{peek, poke}
use fuzzer_goal_directed.Random.{Rand, next_number}
use fuzzer_goal_directed.Individual.{Individual, clone}
use fuzzer_goal_directed.Mutation.Single.{Outcome}

abbrev pub max_input_size_multiplier : ℕ
max_input_size_multiplier = 4

abbrev pub max_input_size_duplicator : ℕ
max_input_size_duplicator = 8

-- `for (j = start; j < start + rounds; j++) p[j] = x;`
unfoldable pub fill : MemoryManager → Pointer → ℕ → ℕ → ℕ → Result MemoryManager
fill m p start zero x = ok m
fill m p start (suc rounds) x = do m' ← poke m p start x; fill m' p (start + 1) rounds x

-- `for (N = 0; N < rounds; N++) p[dst + N] = p[src + N];`
unfoldable pub copy_run : MemoryManager → Pointer → ℕ → ℕ → ℕ → Result MemoryManager
copy_run m p src dst zero = ok m
copy_run m p src dst (suc rounds) = do
  x ← peek m p src
  m' ← poke m p dst x
  copy_run m' p (src + 1) (dst + 1) rounds

-- The outer loop of `DuplicateBytesMutator`: `rounds` runs of `range` bytes from `dst` on.
unfoldable pub copy_runs : MemoryManager → Pointer → ℕ → ℕ → ℕ → ℕ → Result MemoryManager
unfolding copy_run
copy_runs m p src dst range zero = ok m
copy_runs m p src dst range (suc rounds) = do
  m' ← copy_run m p src dst range
  copy_runs m' p src (dst + range) range rounds

-- `std::random_shuffle` with the generator is a parameter: the order that it gives, and the
-- generator that it leaves.
module _ (random_shuffle : Rand → List ℕ → List ℕ × Rand) where
  unfoldable pub shuffle_bytes : Rand → MemoryManager → Individual → Outcome
  shuffle_bytes r m i = do
    (c, m1) ← clone m i false
    let size = slot_length m1 c.index
    let shuffled = (do
      let (n, r1) = next_number r (to_u32 (min size 8))
      let amount = add32 n 1
      let (start, r2) = next_number r1 (to_u32 (sub64 size amount))
      let p = buffer m1 c.index
      bytes ← read_range m1.heap p start amount
      let (order, r3) = random_shuffle r2 bytes
      h ← write_range m1.heap p start order
      ok (c, r3, record m1 { heap = h }))
    if ltb size 2 then ok (c, r, m1) else shuffled

unfoldable pub duplicate_byte : Rand → MemoryManager → Individual → Outcome
unfolding fill
duplicate_byte r m i = do
  (c, m1) ← clone m i false
  let size = slot_length m1 c.index
  let (idx, r1) = next_number r (to_u32 size)
  let (n, r2) = next_number r1 max_input_size_multiplier
  let mul = add32 n 1
  x ← peek m1 (buffer m1 c.index) idx
  (inserted, m2) ← insert_bytes m1 c.index idx mul
  m3 ← fill m2 (buffer m2 c.index) idx (add32 idx mul - idx) x
  ok (c, r2, m3)

unfoldable pub duplicate_bytes : Rand → MemoryManager → Individual → Outcome
unfolding copy_runs
duplicate_bytes r m i = do
  (c, m1) ← clone m i false
  let size = slot_length m1 c.index
  let (n, r1) = next_number r max_input_size_duplicator
  let range = add32 n 1
  let duplicated = (do
    let (idx, r2) = next_number r1 (to_u32 (sub64 size range))
    let (k, r3) = next_number r2 max_input_size_multiplier
    let mul = add32 k 1
    (inserted, m2) ← insert_bytes m1 c.index (add32 idx range) (mul32 mul range)
    m3 ← copy_runs m2 (buffer m2 c.index) idx (add32 idx range) range mul
    ok (c, r3, m3))
  if leb size range then ok (c, r1, m1) else duplicated
