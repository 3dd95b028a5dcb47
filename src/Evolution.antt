-- ===== src/Evolution.antt =====
-- The population and the best individuals of all generations (fuzzer/fuzzer/evolution.h,
-- evolution.cpp). The hash of a buffer (MurmurHash3) is a parameter. Each element of a container
-- holds one reference on its slot; the copies that C++ makes in between are released at once.
pub mod Best
pub mod Active
pub mod Stock
pub mod Crossing
pub mod Breeding
pub mod Generation
use fuzzer_goal_directed.Prelude.{
  ℕ, zero, suc, ◌+◌, ◌-◌, Bool, true, false, not, ◌&&◌, Option, none, some, List, [], ◌∷◌, ◌++◌,
  ltb, leb, ◌==◌, if◌then◌else◌, length,
}
use fuzzer_goal_directed.Result.{Result, ok, fault, ◌>>=◌}
use fuzzer_goal_directed.OrderedMap.{lookup, assign, insert}
use fuzzer_goal_directed.Heap.{read_range}
use fuzzer_goal_directed.Memory.{MemoryManager, slot_length, buffer, decrease_count, contains}
use fuzzer_goal_directed.Random.{Rand, next_number, insert_sorted, pick}
use fuzzer_goal_directed.Individual.{Individual, clone}
use fuzzer_goal_directed.Measure.{
  Score, zero_score, Measure, Floats, score_norm, measure_lt, measure_gt,
}

abbrev score_or_zero : Option Score → Score
score_or_zero none = zero_score
score_or_zero (some s) = s

-- The loop of `FitnessStrategy::apply`, from individual `i` on. It passes the edges where the
-- constructor of a measure takes the goals, and the goals where it takes the edges.
unfoldable pub fitness_from :
    MemoryManager → List (ℕ × Score) → List (ℕ × Score) → ℕ → List Individual → List (ℕ × Measure)
fitness_from m num_edges num_goals i [] = []
fitness_from m num_edges num_goals i (ind ∷ rest) =
    insert i
      (record {
        goal = score_or_zero (lookup i num_edges);
        edge = score_or_zero (lookup i num_goals);
        length = slot_length m ind.index;
      })
      (fitness_from m num_edges num_goals (i + 1) rest)

unfoldable pub fitness :
    MemoryManager → List (ℕ × Score) → List (ℕ × Score) → List Individual → List (ℕ × Measure)
unfolding fitness_from
fitness m num_edges num_goals individuals = fitness_from m num_edges num_goals 0 individuals

-- `best_individuals_t`
pub record BestIndividuals : Type 0 where
  pub max_size : ℕ
  pub max_key : Measure
  pub min_key : Measure
  pub hashes : List ℕ
  pub container : List (Measure × Individual)

-- The greatest measure that `consolidate_min_key` starts from.
abbrev pub top_measure : Measure
top_measure =
    let top : Score = record { absolute = 4294967295; diff = 4294967295 } in
    record { goal = top; edge = top; length = 4294967295 }

abbrev pub remove_hash : ℕ → List ℕ → List ℕ
remove_hash h [] = []
remove_hash h (x ∷ xs) = let rest = remove_hash h xs in if x == h then rest else x ∷ rest

abbrev pub keys_of : List (Measure × Individual) → List ℕ
keys_of [] = []
keys_of ((k, i) ∷ rest) = insert_sorted i.index (keys_of rest)

-- `get_indices`
abbrev pub get_indices : BestIndividuals → List ℕ
get_indices b = keys_of b.container

module _ {W : Type 0} (floats : Floats W) where
  -- `container.insert` of a `std::multimap`: behind the keys that are not greater.
  unfoldable pub insert_key :
      Measure → Individual → List (Measure × Individual) → List (Measure × Individual)
  insert_key s i [] = (s, i) ∷ []
  insert_key s i ((k, j) ∷ rest) =
      let later = insert_key s i rest in
      if measure_lt floats s k then (s, i) ∷ (k, j) ∷ rest else (k, j) ∷ later

  -- `container.find` and `container.erase`: the first element with an equivalent key, and the others.
  unfoldable pub find_key :
      Measure → List (Measure × Individual) → Option (Individual × List (Measure × Individual))
  find_key s [] = none
  find_key s ((k, j) ∷ rest) =
      let later = find_key s rest in
      if not (measure_lt floats s k) && not (measure_lt floats k s)
      then some (j, rest)
      else elim later [ none ↦ none | some (i, others) ↦ some (i, (k, j) ∷ others) ]

  -- The loop of `consolidate_min_key`.
  unfoldable pub least_key : Measure → List (Measure × Individual) → Measure
  least_key s [] = s
  least_key s ((k, j) ∷ rest) = least_key (if measure_lt floats k s then k else s) rest

  unfoldable pub consolidate_min_key : BestIndividuals → BestIndividuals
  unfolding least_key
  consolidate_min_key b = record b { min_key = least_key top_measure b.container }

  module _ (hash : List ℕ → ℕ) where
    unfoldable pub individual_hash : MemoryManager → Individual → Result ℕ
    individual_hash m i = do
      bytes ← read_range m.heap (buffer m i.index) 0 (slot_length m i.index)
      ok (hash bytes)

    -- Removes the element under `min_key`, with its hash and its reference.
    unfoldable pub drop_min :
        BestIndividuals → MemoryManager → Result (BestIndividuals × MemoryManager)
    unfolding find_key individual_hash
    drop_min b m = elim (find_key b.min_key b.container) [
      | none ↦ ok (b, m)
      | some (i, others) ↦ do
        h ← individual_hash m i
        m' ← decrease_count m i.index
        ok (record b { container = others; hashes = remove_hash h b.hashes }, m')
    ]

    -- Inserts with a reference of its own.
    abbrev pub stored :
        BestIndividuals
        → MemoryManager
        → Measure
        → Individual
        → ℕ
        → Result (BestIndividuals × MemoryManager)
    stored b m score i h = do
      (c, m') ← clone m i true
      ok (
        record b { container = insert_key score c b.container; hashes = insert_sorted h b.hashes },
        m',
      )

    -- `best_individuals_t::insert`
    unfoldable pub insert_best :
        BestIndividuals
        → MemoryManager
        → Measure
        → Individual
        → Result (Bool × BestIndividuals × MemoryManager)
    unfolding drop_min insert_key consolidate_min_key individual_hash
    insert_best b m score i = do
      h ← individual_hash m i
      let replaced : Result (Bool × BestIndividuals × MemoryManager) = (do
        (b1, m1) ← drop_min b m
        let better = measure_gt floats score b1.max_key
        let b2 = if better then record b1 { max_key = score } else b1
        (b3, m2) ← stored b2 m1 score i h
        ok (better, consolidate_min_key b3, m2))
      let lower = measure_lt floats score b.min_key
      let better = not lower && measure_gt floats score b.max_key
      let keyed =
          if lower
          then record b { min_key = score }
          else if better
          then record b { max_key = score }
          else b
      let added : Result (Bool × BestIndividuals × MemoryManager) = (do
        (b1, m1) ← stored keyed m score i h
        ok (better, b1, m1))
      if contains h b.hashes
          then ok (false, b, m)
          else if leb b.max_size (length b.container)
          then (if lower then ok (false, b, m) else replaced)
          else added

-- The last elements of the container first: at most `number`, and at least one if there is one.
unfoldable pub best_first : ℕ → List (Measure × Individual) → List Individual
best_first number [] = []
best_first zero ((k, i) ∷ rest) = i ∷ []
best_first (suc zero) ((k, i) ∷ rest) = i ∷ []
best_first (suc (suc number)) ((k, i) ∷ rest) = i ∷ best_first (suc number) rest

abbrev pub reversed : List (Measure × Individual) → List (Measure × Individual)
reversed [] = []
reversed (x ∷ xs) = reversed xs ++ (x ∷ [])

-- `get_best`, with what `remaining` becomes; the references of the copies are left to their owner.
unfoldable pub get_best : BestIndividuals → ℕ → ℕ → List Individual × ℕ
unfolding best_first
get_best b number remaining =
    let size = length b.container in
    (
      best_first (if ltb size number then size else number) (reversed b.container),
      if ltb size number then number - size else remaining,
    )

pub record Population : Type 0 where
  pub seeds : List Individual
  pub best_individuals : BestIndividuals
  pub individuals : List Individual

abbrev pub slots_of : List Individual → List ℕ → List ℕ
slots_of [] acc = acc
slots_of (i ∷ rest) acc = slots_of rest (insert_sorted i.index acc)

abbrev pub all_inserted : List ℕ → List ℕ → List ℕ
all_inserted [] acc = acc
all_inserted (i ∷ rest) acc = all_inserted rest (insert_sorted i acc)

-- `Evolver::get_active_individual_indices`
unfoldable pub active_indices : Population → List ℕ
active_indices p =
    all_inserted (get_indices p.best_individuals) (slots_of p.individuals (slots_of p.seeds []))

-- The loop of `gather_individual_scores`, for one of its two maps.
unfoldable pub gather_from :
    {W : Type 0} → Floats W → List (ℕ × Score) → ℕ → List Individual → List (ℕ × Score)
gather_from floats scores i [] = []
gather_from floats scores i (ind ∷ rest) =
    let others = gather_from floats scores (i + 1) rest in
    elim (lookup ind.id scores) [
      | none ↦ others
      | some s ↦ if ltb 0 (score_norm floats s) then insert i s others else others
    ]
