-- ===== src/Evolution/Breeding.antt =====
-- The parts of `Evolver::evolve` that make new individuals, and the choices of the handlers
-- (fuzzer/fuzzer/evolution.cpp). An index past the end of a vector is a fault.
pub mod Alive
pub mod Laws
use fuzzer_goal_directed.Prelude.{
  ℕ, zero, suc, ◌+◌, ◌-◌, ◌/◌, ◌%◌, ◌^◌, Bool, true, false, List, [], ◌∷◌, ltb, ◌==◌, if◌then◌else◌,
  length, get_elem?,
}
use fuzzer_goal_directed.Result.{Result, ok, ◌>>=◌, or_fault, out_of_bounds}
use fuzzer_goal_directed.Memory.{MemoryManager}
use fuzzer_goal_directed.Random.{Rand, next_number}
use fuzzer_goal_directed.Individual.{Individual, destroy}
use fuzzer_goal_directed.Measure.{Measure, Floats}
use fuzzer_goal_directed.Mating.{
  IndexMap, PairwiseScore, elitism, uniform_mates, closeness, by_measure,
}
use fuzzer_goal_directed.Mutation.Single.{Outcome, pick_other}
use fuzzer_goal_directed.Mutation.Choice.{choice, get_and_mutate}
use fuzzer_goal_directed.Crossover.{single_point, n_points, uniform}

-- New individuals, the generator and the manager.
abbrev pub Outcomes : Type 0
Outcomes = Result (List Individual × Rand × MemoryManager)

abbrev pub CrossOver : Type 0
CrossOver = Rand → MemoryManager → Individual → Individual → Outcome

-- The constructor of `CrossOverHandler`; `fuel` bounds the rounds of `Rand::pick`.
unfoldable pub cross_overs : ℕ → List CrossOver
cross_overs fuel = single_point ∷ n_points fuel ∷ uniform ∷ []

-- `CrossOverHandler::choice`
unfoldable pub cross_over_choice : ℕ → Rand → Result (CrossOver × Rand)
unfolding cross_overs
cross_over_choice fuel r = do
  let (idx, r1) = next_number r (length (cross_overs fuel))
  cross_over ← or_fault (get_elem? (cross_overs fuel) (idx % 2 ^ 16)) out_of_bounds
  ok (cross_over, r1)

-- `Evolver::find_mates` with `MatingStrategyHandler::choice`; closeness is there only if the slow
-- strategies are enabled. The scores of pairs are those of the population.
unfoldable pub find_mates :
    {W : Type 0}
    → Floats W
    → Bool
    → List PairwiseScore
    → Rand
    → List (ℕ × Measure)
    → ℕ
    → Result (IndexMap × Rand)
find_mates floats slow scores r fitness size =
    let (idx, r1) = next_number r (if slow then 3 else 2) in
    let by_elitism : Result (IndexMap × Rand) = (do
      mates ← elitism floats fitness size
      ok (mates, r1)) in
    if idx == 0
    then by_elitism
    else if idx == 1
    then ok (uniform_mates r1 size)
    else ok (closeness scores size, r1)

abbrev indices_of : List (ℕ × Measure) → List ℕ
indices_of [] = []
indices_of ((i, s) ∷ rest) = i ∷ indices_of rest

-- `Evolver::get_best_performers`, whose limit is not applied.
unfoldable pub get_best_performers :
    {W : Type 0} → Floats W → ℕ → List (ℕ × Measure) → Result (List ℕ)
get_best_performers floats number fitness =
    let ranked = (do
      view ← by_measure floats fitness 0 (length fitness) []
      ok (indices_of view)) in
    if ltb number 1 then ok [] else ranked

-- `fuel` bounds the loop of `SwapByteMutator`, and `rounds` that of `get_and_mutate`.
module _ (fuel rounds : ℕ) (random_shuffle : Rand → List ℕ → List ℕ × Rand) where
  -- One round of the loop over the mates. The mutator that is chosen at its start is not used. The
  -- child of the cross-over ends with the round.
  unfoldable pub breed_pair : CrossOver → Rand → MemoryManager → List Individual → ℕ × ℕ → Outcome
  breed_pair cross_over r m individuals (i, j) = do
    (unused, r1) ← choice fuel random_shuffle r
    first ← or_fault (get_elem? individuals i) out_of_bounds
    second ← or_fault (get_elem? individuals j) out_of_bounds
    (new_member, r2, m1) ← cross_over r1 m first second
    (mutated, r3, m2) ← get_and_mutate fuel random_shuffle rounds r2 m1 new_member
    m3 ← destroy m2 new_member
    ok (mutated, r3, m3)

  unfoldable pub breed_each :
      CrossOver → Rand → MemoryManager → List Individual → IndexMap → Outcomes
  unfolding breed_pair
  breed_each cross_over r m individuals [] = ok ([], r, m)
  breed_each cross_over r m individuals (mate ∷ mates) = do
    (new, r1, m1) ← breed_pair cross_over r m individuals mate
    (others, r2, m2) ← breed_each cross_over r1 m1 individuals mates
    ok (new ∷ others, r2, m2)

  -- `for (auto &ind : inds) new_individuals.push_back(get_and_mutate(ind, rand_ref));`
  unfoldable pub mutate_each : Rand → MemoryManager → List Individual → Outcomes
  mutate_each r m [] = ok ([], r, m)
  mutate_each r m (ind ∷ rest) = do
    (new, r1, m1) ← get_and_mutate fuel random_shuffle rounds r m ind
    (others, r2, m2) ← mutate_each r1 m1 rest
    ok (new ∷ others, r2, m2)

  -- The same for `number` individuals of the population, from index `i` on.
  unfoldable pub reinject : Rand → MemoryManager → List Individual → ℕ → ℕ → Outcomes
  reinject r m individuals i zero = ok ([], r, m)
  reinject r m individuals i (suc number) = do
    ind ← or_fault (get_elem? individuals i) out_of_bounds
    (new, r1, m1) ← get_and_mutate fuel random_shuffle rounds r m ind
    (others, r2, m2) ← reinject r1 m1 individuals (i + 1) number
    ok (new ∷ others, r2, m2)

  -- The `while` of `global_perturbation`, with `number` individuals to go: two indices below the
  -- number of the best individuals, but individuals of the population.
  unfoldable pub cross_random : ℕ → Rand → MemoryManager → List Individual → ℕ → ℕ → Outcomes
  cross_random picks r m individuals bests zero = ok ([], r, m)
  cross_random picks r m individuals bests (suc number) = do
    (cross_over, r1) ← cross_over_choice picks r
    let (idx1, r2) = next_number r1 bests
    (idx2, r3) ← pick_other fuel r2 bests idx1 idx1
    first ← or_fault (get_elem? individuals idx1) out_of_bounds
    second ← or_fault (get_elem? individuals idx2) out_of_bounds
    (new_member, r4, m1) ← cross_over r3 m first second
    (new, r5, m2) ← get_and_mutate fuel random_shuffle rounds r4 m1 new_member
    m3 ← destroy m2 new_member
    (others, r6, m4) ← cross_random picks r5 m3 individuals bests number
    ok (new ∷ others, r6, m4)
