-- ===== src/Evolution/Active.antt =====
-- The cleaning between two generations (fuzzer/fuzzer/evolution.cpp:
-- `memory.force_clean(get_active_individual_indices())`).
use fuzzer_goal_directed.Prelude.{
  ℕ, ◌≡◌, refl, ap, ◌∙◌, Bool, false, none, List, [], ◌∷◌, ◌==◌, if◌then◌else◌, ◌||◌,
}
use fuzzer_goal_directed.Result.{Returns, Returns-mono}
use fuzzer_goal_directed.Memory.{MemoryManager, force_clean, contains}
use fuzzer_goal_directed.Memory.Invariant.{IsValid, contents}
use fuzzer_goal_directed.Memory.Release.{force_clean_lem}
use fuzzer_goal_directed.Random.{insert_sorted}
use fuzzer_goal_directed.Random.Sorted.{or_front, or_last, contains-insert_sorted}
use fuzzer_goal_directed.Individual.{Individual}
use fuzzer_goal_directed.Measure.{Measure}
use fuzzer_goal_directed.Evolution.{
  Population, active_indices, slots_of, all_inserted, keys_of, get_indices,
}

-- Whether slot `j` is one of the individuals.
abbrev pub used_by : ℕ → List Individual → Bool
used_by j [] = false
used_by j (i ∷ rest) = j == i.index || used_by j rest

abbrev pub used_by_best : ℕ → List (Measure × Individual) → Bool
used_by_best j [] = false
used_by_best j ((k, i) ∷ rest) = j == i.index || used_by_best j rest

-- Whether slot `j` is one of a seed, of an individual or of one of the best individuals.
abbrev pub used : ℕ → Population → Bool
used j p =
    used_by j p.seeds || used_by j p.individuals || used_by_best j p.best_individuals.container

contains-slots_of :
    (j : ℕ) (individuals : List Individual) (acc : List ℕ)
    → contains j (slots_of individuals acc) ≡ (used_by j individuals || contains j acc)
contains-slots_of j [] acc = refl
contains-slots_of j (i ∷ rest) acc =
    contains-slots_of j rest (insert_sorted i.index acc)
    ∙ rw (contains-insert_sorted j i.index acc)
        (or_front (j == i.index) (used_by j rest) (contains j acc))

contains-all_inserted :
    (j : ℕ) (xs acc : List ℕ) → contains j (all_inserted xs acc) ≡ (contains j xs || contains j acc)
unfolding contains
contains-all_inserted j [] acc = refl
contains-all_inserted j (x ∷ xs) acc =
    contains-all_inserted j xs (insert_sorted x acc)
    ∙ rw (contains-insert_sorted j x acc) (or_front (j == x) (contains j xs) (contains j acc))

contains-keys_of :
    (j : ℕ) (container : List (Measure × Individual))
    → contains j (keys_of container) ≡ used_by_best j container
unfolding contains
contains-keys_of j [] = refl
contains-keys_of j ((k, i) ∷ rest) =
    contains-insert_sorted j i.index (keys_of rest)
    ∙ ap (λ b. j == i.index || b) (contains-keys_of j rest)

contains-active_indices : (j : ℕ) (p : Population) → contains j (active_indices p) ≡ used j p
unfolding active_indices contains
contains-active_indices j p =
    rw
      (
        contains-all_inserted j (get_indices p.best_individuals)
            (slots_of p.individuals (slots_of p.seeds [])),
        contains-slots_of j p.individuals (slots_of p.seeds []),
        contains-slots_of j p.seeds [],
        contains-keys_of j p.best_individuals.container,
      )
      (or_last (used_by_best j p.best_individuals.container) (used_by j p.individuals)
        (used_by j p.seeds))

-- In a valid manager, the cleaning with the active slots of a population does not fault and leaves a
-- valid manager, in which each slot of a seed, of an individual or of one of the best individuals
-- holds what it held, and no other slot holds bytes.
pub clean_population_lem :
    (m : MemoryManager) (p : Population)
    → IsValid m
    → Returns
        (λ m'. IsValid m' × ((j : ℕ) → contents m' j ≡ (if used j p then contents m j else none)))
        (force_clean m (active_indices p))
clean_population_lem m p v =
    Returns-mono
      (λ m' g. (
        g.0,
        λ j. g.1 j ∙ ap (λ b. if b then contents m j else none) (contains-active_indices j p),
      ))
      (force_clean_lem m (active_indices p) v)
