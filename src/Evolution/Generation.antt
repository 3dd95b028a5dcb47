-- ===== src/Evolution/Generation.antt =====
-- `Evolver::evolve` and `Evolver::global_perturbation` (fuzzer/fuzzer/evolution.cpp). The scores of
-- the traces, and of the pairs of inputs, are arguments; logging is left out.
pub mod Laws
use fuzzer_goal_directed.Prelude.{
  ℕ, zero, suc, ◌+◌, ◌-◌, ◌/◌, Option, none, some, get_elem?, Bool, true, false, not, ◌&&◌, ◌||◌,
  List, [], ◌∷◌, ◌++◌, ltb, if◌then◌else◌, length, take, add32,
}
use fuzzer_goal_directed.Result.{Result, ok, ◌>>=◌, ◌>>◌, or_fault, out_of_bounds}
use fuzzer_goal_directed.Memory.{MemoryManager, force_clean}
use fuzzer_goal_directed.Random.{Rand, next_number, next_bool}
use fuzzer_goal_directed.Individual.{Individual, copy_construct, destroy, assign_to}
use fuzzer_goal_directed.Measure.{Score, Measure, Floats}
use fuzzer_goal_directed.Mating.{PairwiseScore, IndexMap}
use fuzzer_goal_directed.Evolution.{
  Population, BestIndividuals, gather_from, fitness, insert_best, get_best, active_indices,
}
use fuzzer_goal_directed.Evolution.Breeding.{
  Outcomes, CrossOver, cross_over_choice, find_mates, get_best_performers, breed_each, mutate_each,
  reinject, cross_random,
}

-- What of `Evolver` changes or is read by `evolve`.
pub record Evolver : Type 0 where
  pub population : Population
  pub double_deviation_population_size : ℕ
  pub population_min : ℕ
  pub maximum_constant_score_iterations : ℕ
  pub constant_score_iterations : ℕ
  pub generations : ℕ

-- `vector::assign` on the individuals, element by element, or to new storage if `moved`.
unfoldable pub overwrite_each :
    MemoryManager → List Individual → List Individual → Result MemoryManager
overwrite_each m [] [] = ok m
overwrite_each m [] (n ∷ new) = overwrite_each (copy_construct m n).1 [] new
overwrite_each m (o ∷ old) [] = do m1 ← destroy m o; overwrite_each m1 old []
overwrite_each m (o ∷ old) (n ∷ new) = overwrite_each (assign_to false m o n).1 old new

unfoldable pub replace_individuals :
    Bool → MemoryManager → List Individual → List Individual → Result MemoryManager
unfolding overwrite_each
replace_individuals moved m old new =
    let copied = (do m1 ← overwrite_each m [] new; overwrite_each m1 old []) in
    let overwritten = overwrite_each m old new in if moved then copied else overwritten

-- The vector of new individuals ends.
unfoldable pub destroy_each : MemoryManager → List Individual → Result MemoryManager
destroy_each m [] = ok m
destroy_each m (i ∷ rest) = do m1 ← destroy m i; destroy_each m1 rest

-- `individuals.assign`, the cleaning, and the end of the new individuals.
unfoldable pub install :
    Bool → Evolver → MemoryManager → List Individual → Result (Evolver × MemoryManager)
unfolding replace_individuals destroy_each
install moved e m new = do
  m1 ← replace_individuals moved m e.population.individuals new
  let population = record e.population { individuals = new }
  m2 ← force_clean m1 (active_indices population)
  m3 ← destroy_each m2 new
  ok (record e { population = population }, m3)

-- `population->seeds[i]` for `i` below `number`, if there are as many.
abbrev pub first_seeds : ℕ → List Individual → Option (List Individual)
first_seeds number seeds = if ltb (length seeds) number then none else some (take number seeds)

module _ {W : Type 0} (floats : Floats W) (hash : List ℕ → ℕ) where
  -- The loop over the fitness map: whether some individual is better than all before.
  unfoldable pub register_best :
      BestIndividuals
      → MemoryManager
      → List Individual
      → List (ℕ × Measure)
      → Result (Bool × BestIndividuals × MemoryManager)
  register_best b m individuals [] = ok (false, b, m)
  register_best b m individuals ((i, score) ∷ rest) = do
    ind ← or_fault (get_elem? individuals i) out_of_bounds
    (better, b1, m1) ← insert_best floats hash b m score ind
    (others, b2, m2) ← register_best b1 m1 individuals rest
    ok (better || others, b2, m2)

-- `fuel` bounds the loops that draw a second index, `rounds` that of `get_and_mutate`, and `picks`
-- that of `Rand::pick`.
module _ (fuel rounds picks : ℕ) (random_shuffle : Rand → List ℕ → List ℕ × Rand) where
  -- The individuals of the population that fill it up to its least size, and the last index used.
  unfoldable pub refill :
      Evolver → Rand → MemoryManager → ℕ → Result (List Individual × ℕ × Rand × MemoryManager)
  refill e r m current =
      let missing = e.population_min - current in
      let refilled : Result (List Individual × ℕ × Rand × MemoryManager) = (do
        (injected, r1, m1) ←
            reinject fuel rounds random_shuffle r m e.population.individuals 0 missing
        ok (injected, missing - 1, r1, m1)) in
      if ltb current e.population_min then refilled else ok ([], 0, r, m)

  -- The adjustment of the size by some of the best individuals, and, where there are too few of them,
  -- by individuals of the population from index `last` on.
  unfoldable pub adjust : Evolver → Rand → MemoryManager → ℕ → Outcomes
  adjust e r m last =
      let (coin, r1) = next_bool r in
      let (n, r2) = next_number r1 e.double_deviation_population_size in
      let (bests, remaining) = get_best e.population.best_individuals (add32 n 1) 0 in
      let adjusted : Outcomes = (do
        (first, r3, m1) ← mutate_each fuel rounds random_shuffle r2 m bests
        (second, r4, m2) ←
            reinject fuel rounds random_shuffle r3 m1 e.population.individuals last remaining
        ok (first ++ second, r4, m2)) in
      if coin then adjusted else ok ([], r1, m)

  -- `global_perturbation`, up to the assignment of the individuals.
  unfoldable pub perturbed : Evolver → Rand → MemoryManager → Outcomes
  perturbed e r m = do
    let current = length e.population.individuals
    let half = current / 2
    let bests = (get_best e.population.best_individuals half 0).0
    seeds ← or_fault (first_seeds half e.population.seeds) out_of_bounds
    (mutated, r1, m1) ← mutate_each fuel rounds random_shuffle r m (bests ++ seeds)
    (crossed, r2, m2) ←
        cross_random fuel rounds random_shuffle picks r1 m1 e.population.individuals (length bests)
          (current - length mutated)
    ok (mutated ++ crossed, r2, m2)

  module _ {W : Type 0} (floats : Floats W) where
    -- From the mates to the new individuals; the best performers are not used.
    unfoldable pub new_generation :
        CrossOver → Evolver → Rand → MemoryManager → List (ℕ × Measure) → IndexMap → Outcomes
    unfolding refill adjust
    new_generation cross_over e r m scored mates = do
      (bred, r1, m1) ←
          breed_each fuel rounds random_shuffle cross_over r m e.population.individuals mates
      best_performers ← get_best_performers floats (length bred) scored
      (injected, last, r2, m2) ← refill e r1 m1 (length bred)
      (adjusted, r3, m3) ← adjust e r2 m2 last
      ok (bred ++ (injected ++ adjusted), r3, m3)

    module _ (hash : List ℕ → ℕ) (slow : Bool) (pair_scores : List PairwiseScore)
        (moved : Bool) where
      -- `evolve`, from the scores of the traces.
      unfoldable pub evolve :
          Evolver
          → Rand
          → MemoryManager
          → List (ℕ × Score)
          → List (ℕ × Score)
          → Result (Evolver × Rand × MemoryManager)
      unfolding register_best new_generation perturbed install
      evolve e r m coverage_scores goals_scores =
          let inds = e.population.individuals in
          let scored =
            fitness m (gather_from floats coverage_scores 0 inds)
              (gather_from floats goals_scores 0 inds) inds in
          do
            (improved, best, m1) ←
                register_best floats hash e.population.best_individuals m inds scored
            let count = add32 e.constant_score_iterations 1
            let e1 = record e {
              generations = add32 e.generations 1;
              constant_score_iterations = count;
              population = record e.population { best_individuals = best };
            }
            let stuck : Result (Evolver × Rand × MemoryManager) = (do
              (new, r1, m2) ← perturbed (record e1 { constant_score_iterations = 0 }) r m1
              (e2, m3) ← install moved (record e1 { constant_score_iterations = 0 }) m2 new
              ok (e2, r1, m3))
            let bred : Result (Evolver × Rand × MemoryManager) = (do
              (mates, r1) ← find_mates floats slow pair_scores r scored (length inds)
              (cross_over, r2) ← cross_over_choice picks r1
              (new, r3, m2) ← new_generation cross_over e1 r2 m1 scored mates
              (e2, m3) ← install moved e1 m2 new
              ok (e2, r3, m3))
            if not improved && ltb e.maximum_constant_score_iterations count then stuck else bred
