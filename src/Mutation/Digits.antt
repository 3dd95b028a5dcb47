-- ===== src/Mutation/Digits.antt =====
-- `ChangeASCIIIntegerMutator` (fuzzer/fuzzer/mutations.cpp): one of the runs of digits is read as a
-- number, which is changed and written back. Positions have 32 bits, so buffers are taken to be
-- smaller than 2 ^ 32.
pub mod Laws
pub mod Room
pub mod Whole
pub mod Value
pub mod Change
use fuzzer_goal_directed.Prelude.{
  ℕ, zero, suc, ◌+◌, ◌-◌, ◌*◌, ◌/◌, ◌%◌, ◌^◌, Bool, true, false, ◌&&◌, List, [], ◌∷◌, ltb, leb,
  ◌==◌, if◌then◌else◌, to_u32, u64_mod, add64, sub64, length, get_or, take, drop,
}
use fuzzer_goal_directed.Result.{Result, ok, fault, ◌>>=◌, ◌>>◌, assert}
use fuzzer_goal_directed.Heap.{Pointer, read_range}
use fuzzer_goal_directed.Memory.{MemoryManager, buffer, slot_length, insert_bytes}
use fuzzer_goal_directed.Memory.Bytes.{poke}
use fuzzer_goal_directed.Random.{Rand, next_number}
use fuzzer_goal_directed.Individual.{Individual, clone}
use fuzzer_goal_directed.Mutation.Single.{Outcome}

-- `std::isdigit`
abbrev pub is_digit : ℕ → Bool
is_digit c = leb 48 c && leb c 57

-- The runs of digits with their lengths: `position` is where the list starts, and `run` digits stand
-- in front of it.
unfoldable pub integers_from : List ℕ → ℕ → ℕ → List (ℕ × ℕ)
integers_from [] position run = if ltb 0 run then (position - run, run) ∷ [] else []
integers_from (c ∷ rest) position run =
    let longer = integers_from rest (position + 1) (run + 1) in
    let others = integers_from rest (position + 1) 0 in
    if is_digit c then longer else if ltb 0 run then (position - run, run) ∷ others else others

-- `value = value * 10 + (buffer[j] - '0')`, in 64 bits.
unfoldable pub accumulate : ℕ → List ℕ → ℕ
accumulate value [] = value
accumulate value (c ∷ rest) = accumulate ((value * 10 + (c - 48)) % u64_mod) rest

-- What the loop reads of a run of `n` digits: the first digit twice, and the last one not at all.
unfoldable pub parsed : List ℕ → ℕ → ℕ → ℕ
unfolding accumulate
parsed bytes start n = accumulate (get_or bytes start 0 - 48) (take (n - 1) (drop start bytes))

-- The `switch` over the kinds of changes.
unfoldable pub changed_value : Rand → ℕ → ℕ × Rand
changed_value r value =
    let (kind, r1) = next_number r 11 in
    let below = next_number r1 (to_u32 value) in
    let below_square = next_number r1 (to_u32 (value * value % u64_mod)) in
    if kind == 0
    then (add64 value 1, r1)
    else if kind == 1
    then (sub64 value 1, r1)
    else if kind == 2
    then (value * 2 % u64_mod, r1)
    else if kind == 3
    then (value / 2, r1)
    else if kind == 4
    then below
    else if kind == 5
    then below_square
    else if kind == 6
    then (0, r1)
    else if kind == 7
    then (255, r1)
    else if kind == 8
    then (65535, r1)
    else if kind == 9
    then (4294967295, r1)
    else if kind == 10
    then (18446744073709551615, r1)
    else (value, r1)

-- `std::to_string`, for numbers of at most `fuel` digits; 20 are enough for 64 bits.
unfoldable pub decimal_from : ℕ → ℕ → List ℕ → List ℕ
decimal_from zero n digits = digits
decimal_from (suc fuel) n digits =
    let digit = 48 + n % 10 in
    let more = decimal_from fuel (n / 10) (digit ∷ digits) in
    if ltb n 10 then digit ∷ digits else more

unfoldable pub decimal : ℕ → List ℕ
unfolding decimal_from
decimal n = decimal_from 20 n []

-- `for (auto &chr : value_str) buffer[start++] = chr;`
unfoldable pub write_all : MemoryManager → Pointer → ℕ → List ℕ → Result MemoryManager
write_all m p start [] = ok m
write_all m p start (c ∷ rest) = do m' ← poke m p start c; write_all m' p (start + 1) rest

-- Makes room behind the `n` digits at `start` if the new digits are more.
unfoldable pub room_for : MemoryManager → ℕ → ℕ → ℕ → ℕ → ℕ → Result MemoryManager
room_for m slot size start n digits =
    let new_bytes = to_u32 (digits - n) in
    let grown = (do
      (inserted, m1) ← insert_bytes m slot (to_u32 (start + n)) new_bytes
      assert (add64 size new_bytes == slot_length m1 slot)
      ok m1) in
    if ltb n digits then grown else ok m

-- What follows the scan for digits, in a copy `c` of `size` bytes.
unfoldable pub replace_integer :
    Rand → MemoryManager → Individual → ℕ → List ℕ → List (ℕ × ℕ) → Outcome
unfolding parsed changed_value decimal write_all room_for
replace_integer r m1 c size bytes [] = ok (c, r, m1)
replace_integer r m1 c size bytes (first ∷ others) =
    let integers = first ∷ others in
    let (chosen, r1) = next_number r (to_u32 (length integers)) in
    let (start, n) = get_or integers chosen (0, 0) in
    let (value, r2) = changed_value r1 (parsed bytes start n) in
    let digits = decimal value in
    do
      m2 ← room_for m1 c.index size start n (length digits)
      m3 ← write_all m2 (buffer m2 c.index) start digits
      ok (c, r2, m3)

unfoldable pub change_ascii_integer : Rand → MemoryManager → Individual → Outcome
unfolding integers_from replace_integer
change_ascii_integer r m i = do
  (c, m1) ← clone m i false
  let size = slot_length m1 c.index
  bytes ← read_range m1.heap (buffer m1 c.index) 0 size
  replace_integer r m1 c size bytes (integers_from bytes 0 0)
