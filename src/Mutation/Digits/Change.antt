-- ===== src/Mutation/Digits/Change.antt =====
-- `ChangeASCIIIntegerMutator` against the description of numbers in Value
-- (fuzzer/fuzzer/mutations.cpp).
use fuzzer_goal_directed.Prelude.{
  ℕ, ◌-◌, ◌%◌, ◌≡◌, List, [], ◌∷◌, length, get_or, take, drop, u64_mod, to_u32,
}
use fuzzer_goal_directed.Random.{Rand, next_number}
use fuzzer_goal_directed.Individual.{Individual}
use fuzzer_goal_directed.Mutation.Digits.Room.{replaced}
use fuzzer_goal_directed.Mutation.Digits.Value.{number, IsDecimal, change}

-- The number that is read of the `n` digits at `start`: the first digit stands twice in front, and the
-- last one is left out.
abbrev pub number_read : List ℕ → ℕ → ℕ → ℕ
number_read bytes start n =
    number 0 (get_or bytes start 0 ∷ take (n - 1) (drop start bytes)) % u64_mod

-- What becomes of the bytes whose runs of digits are known: nothing if there are none; else one run is
-- drawn, and the text of the changed number takes its place.
abbrev pub Rewritten : Rand → List ℕ → List (ℕ × ℕ) → List ℕ → Rand → Type 0
Rewritten r bytes [] after r' = (after ≡ bytes) × (r' ≡ r)
Rewritten r bytes (run ∷ others) after r' =
    let (chosen, r1) = next_number r (to_u32 (length (run ∷ others))) in
    let (start, n) = get_or (run ∷ others) chosen (0, 0) in
    let (value, r2) = change r1 (number_read bytes start n) in
    (digits : List ℕ) × IsDecimal value digits × (after ≡ replaced bytes start n digits) × (r' ≡ r2)
