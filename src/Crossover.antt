-- ===== src/Crossover.antt =====
-- The cross-overs (fuzzer/fuzzer/cross-overs.cpp). In the loops over a whole buffer an index of 32
-- bits is compared with a size of 64 bits; `loop_ends` says for which sizes such a loop ends. The cross-over that aligns its parents is
-- not modelled; its handler does not use it.
pub mod Loops
pub mod Laws
pub mod SinglePoint
pub mod Points
pub mod NPoints
use fuzzer_goal_directed.Prelude.{
  ℕ, zero, suc, ◌+◌, ◌-◌, ◌/◌, false, ◌&&◌, List, [], ◌∷◌, ltb, leb, ◌==◌, if◌then◌else◌, to_u32,
  u32_mod, add32, min, max,
}
use fuzzer_goal_directed.Result.{Result, ok, fault, no_progress, ◌>>=◌, ◌>>◌, assert}
use fuzzer_goal_directed.Heap.{Pointer}
use fuzzer_goal_directed.Memory.{MemoryManager, buffer, slot_length}
use fuzzer_goal_directed.Memory.Bytes.{peek, poke}
use fuzzer_goal_directed.Random.{Rand, next_number, next_bool, next_char, pick}
use fuzzer_goal_directed.Individual.{Individual, clone}
use fuzzer_goal_directed.Mutation.Single.{Outcome}

-- `random.next_bool() ? i1.clone() : i2.clone()`
abbrev pub either_clone :
    Rand → MemoryManager → Individual → Individual → Result (Individual × Rand × MemoryManager)
either_clone r m i1 i2 =
    let (coin, r1) = next_bool r in
    do (c, m1) ← clone m (if coin then i1 else i2) false; ok (c, r1, m1)

-- `j < size ? p[j] : random.next_char()`
unfoldable pub byte_or_random : Rand → MemoryManager → Pointer → ℕ → ℕ → Result (ℕ × Rand)
byte_or_random r m p size j =
    let drawn : Result (ℕ × Rand) = ok (next_char r) in
    if ltb j size then (do x ← peek m p j; ok (x, r)) else drawn

-- Where the bytes of a parent are.
abbrev pub Source : Type 0
Source = Pointer × ℕ

abbrev pub source_of : MemoryManager → Individual → Source
source_of m i = (buffer m i.index, slot_length m i.index)

-- `for (uint32_t j = 0; j < size; j++)`: from a size of 2 ^ 32 on, `j` wraps and stays below it, so
-- the loop does not end. Below, `j` does not wrap.
unfoldable pub loop_ends : ℕ → Result (Unit {0})
loop_ends size = if ltb size u32_mod then ok tt else fault no_progress

-- The loop of `SinglePointCrossOver`, with `rounds` bytes to go from `j` on.
unfoldable pub fill_around :
    Rand → MemoryManager → Pointer → Source → Source → ℕ → ℕ → ℕ → Result (Rand × MemoryManager)
unfolding byte_or_random
fill_around r m p first second idx j zero = ok (r, m)
fill_around r m p first second idx j (suc rounds) = do
  let src = if ltb j idx then first else second
  (x, r1) ← byte_or_random r m src.0 src.1 j
  m1 ← poke m p j x
  fill_around r1 m1 p first second idx (j + 1) rounds

unfoldable pub single_point : Rand → MemoryManager → Individual → Individual → Outcome
unfolding fill_around loop_ends
single_point r m i1 i2 = do
  (c, r1, m1) ← either_clone r m i1 i2
  let (coin, r2) = next_bool r1
  let first = if coin then i1 else i2
  let second = if coin then i2 else i1
  let size = slot_length m1 c.index
  let i1_size = slot_length m1 first.index
  let i2_size = slot_length m1 second.index
  assert (leb size (max i1_size i2_size) && leb (min i1_size i2_size) size)
  let (n, r3) = next_number r2 (to_u32 size)
  let idx = if ltb 1 size then add32 n 1 else 0
  loop_ends size
  (r4, m2) ←
      fill_around (if ltb 1 size then r3 else r2) m1 (buffer m1 c.index) (source_of m1 first)
        (source_of m1 second) idx 0 size
  ok (c, r4, m2)

-- The loop of `UniformCrossOver`.
unfoldable pub fill_mixed :
    Rand → MemoryManager → Pointer → Source → Source → ℕ → ℕ → Result (Rand × MemoryManager)
unfolding byte_or_random
fill_mixed r m p first second j zero = ok (r, m)
fill_mixed r m p first second j (suc rounds) = do
  let (coin, r1) = next_bool r
  let src = if coin then first else second
  (x, r2) ← byte_or_random r1 m src.0 src.1 j
  m1 ← poke m p j x
  fill_mixed r2 m1 p first second (j + 1) rounds

unfoldable pub uniform : Rand → MemoryManager → Individual → Individual → Outcome
unfolding fill_mixed loop_ends
uniform r m i1 i2 = do
  (c, r1, m1) ← either_clone r m i1 i2
  let size = slot_length m1 c.index
  let i1_size = slot_length m1 i1.index
  let i2_size = slot_length m1 i2.index
  assert (leb size (max i1_size i2_size) && leb (min i1_size i2_size) size)
  loop_ends size
  (r2, m2) ← fill_mixed r1 m1 (buffer m1 c.index) (source_of m1 i1) (source_of m1 i2) 0 size
  ok (c, r2, m2)

-- `for (j = finger; j < i; j++) buffer[j] = random.next_char();`
unfoldable pub fill_random : Rand → MemoryManager → Pointer → ℕ → ℕ → Result (Rand × MemoryManager)
fill_random r m p j zero = ok (r, m)
fill_random r m p j (suc rounds) = do
  let (x, r1) = next_char r
  m1 ← poke m p j x
  fill_random r1 m1 p (j + 1) rounds

-- `for (j = finger; j < i; j++) buffer[j] = cur_buffer[j];`
unfoldable pub fill_from : MemoryManager → Pointer → Pointer → ℕ → ℕ → Result MemoryManager
fill_from m p src j zero = ok m
fill_from m p src j (suc rounds) = do
  x ← peek m src j
  m1 ← poke m p j x
  fill_from m1 p src (j + 1) rounds

-- The loop of `NPointsCrossOver` over the points, which ascend.
unfoldable pub fill_segments :
    Rand → MemoryManager → Pointer → Source → Source → ℕ → List ℕ → Result (Rand × MemoryManager)
unfolding fill_random fill_from
fill_segments r m p first second finger [] = ok (r, m)
fill_segments r m p first second finger (i ∷ rest) =
    let (coin, r1) = next_bool r in
    let src = if coin then first else second in
    let random_segment = (do
      (r2, m1) ← fill_random r1 m p finger (i - finger)
      fill_segments r2 m1 p first second i rest) in
    let copied_segment = (do
      m1 ← fill_from m p src.0 finger (i - finger)
      fill_segments r1 m1 p first second i rest) in
    let skipped = fill_segments r m p first second finger rest in
    if finger == i then skipped else if ltb src.1 i then random_segment else copied_segment

abbrev pub min_segment_size : ℕ
min_segment_size = 4

abbrev pub number_segments : ℕ
number_segments = 32

-- `fuel` bounds the rounds of `pick`.
unfoldable pub n_points : ℕ → Rand → MemoryManager → Individual → Individual → Outcome
unfolding fill_segments
n_points fuel r m i1 i2 = do
  (c, r1, m1) ← either_clone r m i1 i2
  let size = slot_length m1 c.index
  let (n, r2) = next_number r1 (to_u32 (max min_segment_size (size / number_segments)))
  let segment_size = max (n + 1) min_segment_size
  let crossed : Outcome = (do
    (indices, r3) ← pick fuel r2 (to_u32 (size / segment_size)) (to_u32 size)
    (r4, m2) ← fill_segments r3 m1 (buffer m1 c.index) (source_of m1 i1) (source_of m1 i2) 0 indices
    ok (c, r4, m2))
  if ltb size segment_size then ok (c, r2, m1) else crossed
