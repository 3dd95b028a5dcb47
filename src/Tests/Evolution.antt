-- ===== src/Tests/Evolution.antt =====
-- The best individuals at concrete states.
use fuzzer_goal_directed.Prelude.{
  ℕ, none, if◌then◌else◌, ◌≡◌, refl, Bool, false, List, [], ◌∷◌, arith, length,
}
use fuzzer_goal_directed.Result.{Returns}
use fuzzer_goal_directed.Memory.{MemoryManager, contains, create, init, force_clean}
use fuzzer_goal_directed.Memory.Invariant.{IsValid, contents}
use fuzzer_goal_directed.Memory.Create.{create-IsValid}
use fuzzer_goal_directed.Individual.{Individual}
use fuzzer_goal_directed.Measure.{Measure, measure_lt, score_norm}
use fuzzer_goal_directed.Evolution.{
  BestIndividuals, Population, active_indices, insert_best, find_key,
}
use fuzzer_goal_directed.Evolution.Best.{Sorted, Stored, insert_best-Stored, insert_best_overfull}
use fuzzer_goal_directed.Evolution.Active.{used, clean_population_lem}
use fuzzer_goal_directed.Tests.{one_slot, one_slot-IsValid, parent, parent-Ready}
use fuzzer_goal_directed.Tests.Coverage.{sums, scored}

abbrev pub two_kept : List (Measure × Individual)
two_kept = (scored 1 3, parent) ∷ (scored 4 3, parent) ∷ []

two_kept-Sorted : Sorted sums two_kept
unfolding measure_lt score_norm
two_kept-Sorted = (refl, (tt, tt))

abbrev pub byte_sum : List ℕ → ℕ
byte_sum bytes = length bytes

abbrev pub holding : ℕ → BestIndividuals
holding n = record {
  max_size = n;
  max_key = scored 4 3;
  min_key = scored 0 0;
  hashes = 17 ∷ [];
  container = two_kept;
}

holding-new : (n : ℕ) → contains (byte_sum (3 ∷ 2 ∷ 1 ∷ [])) (holding n).hashes ≡ false
unfolding contains
holding-new n = refl

insert_best-Stored_example :
    Returns
      (Stored sums byte_sum one_slot parent parent-Ready (holding 3) (scored 2 3) (holding-new 3))
      (insert_best sums byte_sum (holding 3) one_slot (scored 2 3) parent)
insert_best-Stored_example =
    insert_best-Stored sums byte_sum one_slot parent parent-Ready (holding 3) (scored 2 3)
      (holding-new 3) (omega arith)

insert_best_overfull_example :
    Returns {A = Bool × BestIndividuals × MemoryManager}
      (λ r. length r.1.container ≡ 3)
      (insert_best sums byte_sum (holding 2) one_slot (scored 2 3) parent)
unfolding measure_lt score_norm find_key
insert_best_overfull_example =
    insert_best_overfull sums byte_sum one_slot parent parent-Ready (holding 2) (scored 2 3)
      (holding-new 2) (omega arith) refl refl

abbrev two_slots : MemoryManager
two_slots = (create one_slot 2).1

-- Slot 1 is that of the only individual; slot 2 is nobody's.
abbrev lone : Population
lone = record { seeds = []; best_individuals = holding 4; individuals = parent ∷ [] }

clean_population_example :
    Returns
      (λ m'.
        IsValid m'
        × ((j : ℕ) → contents m' j ≡ (if used j lone then contents two_slots j else none)))
      (force_clean two_slots (active_indices lone))
unfolding create init
clean_population_example =
    clean_population_lem two_slots lone (create-IsValid one_slot 2 (omega arith) one_slot-IsValid)
