-- ===== src/Mutation/Choice.antt =====
-- How the evolution mutates an individual (fuzzer/fuzzer/evolution.cpp: `MutationHandler` and
-- `Evolver::get_and_mutate`).
mod Lengths
mod Draws
pub mod Bred
pub mod Laws
use fuzzer_goal_directed.Prelude.{
  ℕ, zero, suc, ◌+◌, ◌%◌, ◌^◌, Bool, true, false, List, [], ◌∷◌, ltb, if◌then◌else◌, length,
  get_elem?,
}
use fuzzer_goal_directed.Result.{Result, ok, fault, ◌>>=◌, or_fault, out_of_bounds, no_progress}
use fuzzer_goal_directed.Memory.{MemoryManager, slot_length}
use fuzzer_goal_directed.Random.{Rand, next_number}
use fuzzer_goal_directed.Individual.{Individual, clone, destroy}
use fuzzer_goal_directed.Mutation.Single.{
  Outcome, flip_bit, change_byte, erase_byte, insert_byte, swap_byte,
}
use fuzzer_goal_directed.Mutation.Block.{duplicate_byte, duplicate_bytes, shuffle_bytes}
use fuzzer_goal_directed.Mutation.Digits.{change_ascii_integer}

abbrev pub Mutation : Type 0
Mutation = Rand → MemoryManager → Individual → Outcome

-- `fuel` bounds the loop of `SwapByteMutator`; the order of `std::random_shuffle` is a parameter.
module _ (fuel : ℕ) (random_shuffle : Rand → List ℕ → List ℕ × Rand) where
  -- The constructor of `MutationHandler`.
  unfoldable pub mutations : List Mutation
  mutations =
      flip_bit
      ∷ insert_byte
      ∷ erase_byte
      ∷ change_byte
      ∷ swap_byte fuel
      ∷ shuffle_bytes random_shuffle
      ∷ duplicate_byte
      ∷ duplicate_bytes
      ∷ change_ascii_integer
      ∷ []

  -- `MutationHandler::choice`; the index has 16 bits.
  unfoldable pub choice : Rand → Result (Mutation × Rand)
  unfolding mutations
  choice r = do
    let (idx, r1) = next_number r (length mutations)
    mutation ← or_fault (get_elem? mutations (idx % 2 ^ 16)) out_of_bounds
    ok (mutation, r1)

  -- The loop of `get_and_mutate`, which drops the individuals without bytes.
  unfoldable pub mutate_until : ℕ → Rand → MemoryManager → Individual → Outcome
  unfolding choice
  mutate_until zero r m i = fault no_progress
  mutate_until (suc rounds) r m i = do
    (mutation, r1) ← choice r
    (c, r2, m1) ← mutation r1 m i
    let again = (do m2 ← destroy m1 c; mutate_until rounds r2 m2 i)
    if ltb 0 (slot_length m1 c.index) then ok (c, r2, m1) else again

  unfoldable pub get_and_mutate : ℕ → Rand → MemoryManager → Individual → Outcome
  unfolding mutate_until
  get_and_mutate rounds r m i =
      let (kept, r1) = next_number r 5 in
      let copied = (do (c, m1) ← clone m i false; ok (c, r1, m1)) in
      let mutated = mutate_until rounds r1 m i in if ltb 0 kept then copied else mutated
