-- ===== src/Mutation/Single.antt =====
-- The mutators of one byte (fuzzer/fuzzer/mutations.cpp). Each clones the individual and changes
-- the clone through its buffer.
pub mod Laws
pub mod Swap
pub mod Flip
use Prim.Native.Nat.{bit_and, bit_or}
use fuzzer_goal_directed.Prelude.{
  ℕ, zero, suc, ◌+◌, ◌-◌, ◌^◌, Bool, true, false, ltb, ◌==◌, if◌then◌else◌, to_u32, to_u8, add64,
  sub64,
}
use fuzzer_goal_directed.Result.{Result, ok, fault, ◌>>=◌, ◌>>◌, assert, no_progress}
use fuzzer_goal_directed.Memory.{MemoryManager, buffer, slot_length, insert_bytes, remove_bytes}
use fuzzer_goal_directed.Memory.Bytes.{peek, poke}
use fuzzer_goal_directed.Random.{Rand, next_number, next_char}
use fuzzer_goal_directed.Individual.{Individual, clone}

-- What a mutator returns, with the state that it leaves.
abbrev pub Outcome : Type 0
Outcome = Result (Individual × Rand × MemoryManager)

-- `(x & mask) ? x & ~mask : x | mask`, in 8 bits.
unfoldable pub toggle : ℕ → ℕ → ℕ
toggle x bit =
    let mask = to_u8 (2 ^ bit) in
    if bit_and x mask == 0 then bit_or x mask else bit_and x (255 - mask)

unfoldable pub flip_bit : Rand → MemoryManager → Individual → Outcome
flip_bit r m i = do
  (c, m1) ← clone m i false
  let size = slot_length m1 c.index
  let p = buffer m1 c.index
  let (idx, r1) = next_number r (to_u32 size)
  let (bit, r2) = next_number r1 8
  x ← peek m1 p idx
  m2 ← poke m1 p idx (toggle x bit)
  ok (c, r2, m2)

unfoldable pub insert_byte : Rand → MemoryManager → Individual → Outcome
insert_byte r m i = do
  (c, m1) ← clone m i false
  let size = slot_length m1 c.index
  let (idx, r1) = next_number r (to_u32 (add64 size 1))
  (inserted, m2) ← insert_bytes m1 c.index idx 1
  assert (add64 size 1 == slot_length m2 c.index)
  let (x, r2) = next_char r1
  m3 ← poke m2 (buffer m2 c.index) idx x
  ok (c, r2, m3)

unfoldable pub erase_byte : Rand → MemoryManager → Individual → Outcome
erase_byte r m i = do
  (c, m1) ← clone m i false
  let size = slot_length m1 c.index
  let (idx, r1) = next_number r (to_u32 size)
  let erased = (do
    (removed, m2) ← remove_bytes m1 c.index idx 1
    assert (sub64 size 1 == slot_length m2 c.index)
    ok (c, r1, m2))
  if ltb size 2 then ok (c, r, m1) else erased

unfoldable pub change_byte : Rand → MemoryManager → Individual → Outcome
change_byte r m i = do
  (c, m1) ← clone m i false
  let size = slot_length m1 c.index
  let (idx, r1) = next_number r (to_u32 size)
  let (x, r2) = next_char r1
  m2 ← poke m1 (buffer m1 c.index) idx x
  ok (c, r2, m2)

-- `while (idx2 == idx1) idx2 = random.next_number(size);` in at most `fuel` rounds.
unfoldable pub pick_other : ℕ → Rand → ℕ → ℕ → ℕ → Result (ℕ × Rand)
pick_other zero r size idx1 idx2 = fault no_progress
pick_other (suc fuel) r size idx1 idx2 =
    let (n, r') = next_number r size in
    let again = pick_other fuel r' size idx1 n in if idx2 == idx1 then again else ok (idx2, r)

unfoldable pub swap_byte : ℕ → Rand → MemoryManager → Individual → Outcome
unfolding pick_other
swap_byte fuel r m i = do
  (c, m1) ← clone m i false
  let size = slot_length m1 c.index
  let swapped = (do
    let (idx1, r1) = next_number r (to_u32 size)
    (idx2, r2) ← pick_other fuel r1 (to_u32 size) idx1 idx1
    let p = buffer m1 c.index
    x1 ← peek m1 p idx1
    x2 ← peek m1 p idx2
    m2 ← poke m1 p idx2 x1
    m3 ← poke m2 p idx1 x2
    ok (c, r2, m3))
  if ltb size 2 then ok (c, r, m1) else swapped
