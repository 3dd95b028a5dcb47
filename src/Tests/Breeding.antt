-- ===== src/Tests/Breeding.antt =====
-- A new generation of two individuals, with the bytes 8, 7, ..., 1 and 6, 5, ..., 1.
use fuzzer_goal_directed.Prelude.{
  ℕ, zero, suc, ltb, ◌+◌, ◌%◌, ◌≤◌, ◌<◌, ◌≡◌, refl, some, List, [], ◌∷◌, arith, length,
}
use native.Mathlib.Nat.{mod-eq_of_lt}
use fuzzer_goal_directed.Result.{Returns}
use fuzzer_goal_directed.OrderedMap.{lookup, insert, assign}
use fuzzer_goal_directed.Heap.{new_array}
use fuzzer_goal_directed.Memory.{MemoryManager, init, create, contains}
use fuzzer_goal_directed.Memory.Invariant.{IsValid, contents}
use fuzzer_goal_directed.Memory.Create.{create-IsValid}
use fuzzer_goal_directed.Measure.{Measure}
use native.Mathlib.Decide.{ℕ_discrete}
use fuzzer_goal_directed.Random.{Rand, next_number, next_bool, pick, pick_from, insert_sorted}
use fuzzer_goal_directed.Individual.{Individual}
use fuzzer_goal_directed.Individual.Clone.{Ready}
use fuzzer_goal_directed.Crossover.{n_points, uniform}
use fuzzer_goal_directed.Crossover.Points.{segments}
use fuzzer_goal_directed.Crossover.NPoints.{n_points_lem, pointed, Unless}
use fuzzer_goal_directed.Random.Pick.{Picked}
use fuzzer_goal_directed.Crossover.Laws.{Crosses}
use fuzzer_goal_directed.Evolution.Stock.{Stocked, Keeps}
use fuzzer_goal_directed.Evolution.Crossing.{uniform-IsCrossOver}
use fuzzer_goal_directed.Evolution.Breeding.Alive.{Lively, All, Lives, Breeds}
use fuzzer_goal_directed.Evolution.Generation.{Evolver, new_generation}
use fuzzer_goal_directed.Evolution.Generation.Laws.{new_generation_lem, Stocked-le}
use fuzzer_goal_directed.Tests.{no_slots, no_slots-IsValid, counter, ample-Provides}
use fuzzer_goal_directed.Tests.Coverage.{sums, scored}
use fuzzer_goal_directed.Tests.Evolution.{holding}
use fuzzer_goal_directed.Tests.Mutation.{
  swap_front, swap_front-Perm, length-swap_front, swap_front-draws,
}

abbrev long_slot : MemoryManager
long_slot = (create no_slots 8).1

abbrev both_slots : MemoryManager
both_slots = (create long_slot 6).1

both_slots-IsValid : IsValid both_slots
unfolding create init
both_slots-IsValid =
    create-IsValid long_slot 6 (omega arith)
      (create-IsValid no_slots 8 (omega arith) no_slots-IsValid)

abbrev eight : List ℕ
eight = 8 ∷ 7 ∷ 6 ∷ 5 ∷ 4 ∷ 3 ∷ 2 ∷ 1 ∷ []

abbrev six : List ℕ
six = 6 ∷ 5 ∷ 4 ∷ 3 ∷ 2 ∷ 1 ∷ []

abbrev mother : Individual
mother = record { index = 1; id = 1 }

abbrev father : Individual
father = record { index = 2; id = 2 }

mother_holds : contents both_slots mother.index ≡ some eight
unfolding contents create init lookup insert assign new_array
mother_holds = refl

father_holds : contents both_slots father.index ≡ some six
unfolding contents create init lookup insert assign new_array
father_holds = refl

both_slots-Stocked : Stocked both_slots 50
unfolding create init lookup insert assign new_array
both_slots-Stocked = record {
  valid = both_slots-IsValid;
  supply = ample-Provides;
  slots = omega arith;
  counts = λ j c e. ground (arith, e);
}

mother-Ready : Ready both_slots mother.index eight
unfolding create init lookup insert assign new_array
mother-Ready = record {
  valid = both_slots-IsValid;
  holds = mother_holds;
  supply = ample-Provides;
  slots = omega arith;
  count = 1;
  counted = refl;
  counts = omega arith;
}

father-Ready : Ready both_slots father.index six
unfolding create init lookup insert assign new_array
father-Ready = record {
  valid = both_slots-IsValid;
  holds = father_holds;
  supply = ample-Provides;
  slots = omega arith;
  count = 1;
  counted = refl;
  counts = omega arith;
}

-- The points 2 and 3 are drawn, in two draws; the first segment is of the first parent, the second of
-- the second.
n_points_example :
    (points : List ℕ) × (r3 : Rand) × Unless (ltb 8 4) (Picked 2 (counter 2) [] 2 8 points r3)
    × (let (bytes, r') = pointed eight eight six (counter 1) points r3 in
        Crosses both_slots mother 1 bytes r' (n_points 3 (counter 0) both_slots mother father))
unfolding next_bool next_number pick pick_from insert_sorted segments mother-Ready contains
n_points_example =
    n_points_lem 2 3 (counter 0) both_slots mother father mother-Ready father-Ready (omega arith)
      (omega arith) (omega arith) (λ h. omega arith)

-- A generator that draws 0 and 1 in turns.
abbrev coins : ℕ → Rand
coins n = record { draws = λ k. k % 2; position = n }

coin_mod : (k n : ℕ) → 2 ≤ n → (k % 2) % n ≡ k % 2
coin_mod k n two = mod-eq_of_lt (omega (arith, two))

coins-Lively : Lively (λ k. k % 2) 3
coins-Lively p n x two = elim (ℕ_discrete (p % 2) x) [
  | yes e ↦ (1, omega arith, λ q. omega (arith, e, q, coin_mod (p + 1) n two))
  | no d ↦ (0, omega arith, λ q. d (omega (arith, q, coin_mod (p + 0) n two)))
]

-- The best are the mother and the father; the least population is 2.
abbrev family : Evolver
family = record {
  population = record {
    seeds = [];
    best_individuals = record (holding 4) {
      container = (scored 1 3, mother) ∷ (scored 4 3, father) ∷ [];
    };
    individuals = mother ∷ father ∷ [];
  };
  double_deviation_population_size = 0;
  population_min = 2;
  maximum_constant_score_iterations = 5;
  constant_score_iterations = 0;
  generations = 0;
}

mother-Breeds : Breeds both_slots mother
mother-Breeds = (eight, mother_holds, omega arith, omega arith)

father-Breeds : Breeds both_slots father
father-Breeds = (six, father_holds, omega arith, omega arith)

both_scored :
    (q : ℕ) → q < 2 → (s : Measure) × (lookup q ((0, scored 1 3) ∷ (1, scored 4 3) ∷ []) ≡ some s)
unfolding lookup
both_scored zero h = (scored 1 3, refl)
both_scored (suc zero) h = (scored 4 3, refl)
both_scored (suc (suc q)) h = absurd (omega (arith, h))

new_generation_example :
    Returns {A = List Individual × Rand × MemoryManager}
      (λ o.
        (2 ≤ length o.0)
        × (1 ≤ length o.0)
        × All (Lives o.2) o.0
        × Stocked o.2 40
        × Keeps both_slots o.2
        × (o.1.draws ≡ λ k. k % 2))
      (new_generation 3 1 9 swap_front sums uniform family
        (coins 0)
        both_slots
        ((0, scored 1 3) ∷ (1, scored 4 3) ∷ [])
        ((0, 1) ∷ []))
new_generation_example =
    new_generation_lem 3 0 9 swap_front swap_front-Perm length-swap_front swap_front-draws
      (λ k. k % 2) coins-Lively sums uniform family (coins 0) both_slots
      ((0, scored 1 3) ∷ (1, scored 4 3) ∷ []) ((0, 1) ∷ []) 40 (uniform-IsCrossOver (λ k. k % 2))
      refl (Stocked-le both_slots 50 44 (omega arith) both_slots-Stocked)
      (mother-Breeds, (father-Breeds, tt)) (mother-Breeds, (father-Breeds, tt))
      ((omega arith, omega arith), tt) both_scored (omega arith) (omega arith)
