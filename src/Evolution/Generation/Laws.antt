-- ===== src/Evolution/Generation/Laws.antt =====
-- A new generation (fuzzer/fuzzer/evolution.cpp: `Evolver::evolve` from the mates on).
use fuzzer_goal_directed.Prelude.{
  ℕ, zero, suc, ◌+◌, ◌-◌, ◌*◌, ◌≤◌, ◌<◌, ◌≡◌, refl, ◌∙◌, some, List, [], ◌∷◌, ◌++◌, arith, ltb,
  length, length-append, max, add32, u32_mod, Bool-cases, inl, inr, dec_lt, lt→ltb, le→ltb,
}
use mathlib.Core.List.{Perm}
use fuzzer_goal_directed.Result.{Returns, returns, >>=-Returns}
use fuzzer_goal_directed.OrderedMap.{lookup}
use fuzzer_goal_directed.Memory.{MemoryManager}
use fuzzer_goal_directed.Random.{Rand, next_number, next_bool}
use fuzzer_goal_directed.Random.Laws.{next_number-draws, next_bool-draws, next_number-lt}
use fuzzer_goal_directed.Individual.{Individual}
use fuzzer_goal_directed.Measure.{Measure, Floats}
use fuzzer_goal_directed.Mating.{IndexMap, by_measure}
use fuzzer_goal_directed.Evolution.{BestIndividuals, get_best, best_first, reversed}
use fuzzer_goal_directed.Evolution.Stock.{Stocked, Keeps, Keeps-refl, Keeps-trans}
use fuzzer_goal_directed.Evolution.Crossing.{IsCrossOver}
use fuzzer_goal_directed.Evolution.Breeding.{CrossOver, get_best_performers}
use fuzzer_goal_directed.Evolution.Breeding.Alive.{
  Breeds, Lives, All, All-mono, All-append, Lives-Keeps, Breeds-Keeps, Lively,
}
use fuzzer_goal_directed.Evolution.Breeding.Laws.{
  breed_each-Litter, mutate_each-Litter, reinject-Litter,
}
use fuzzer_goal_directed.Evolution.Generation.{Evolver, refill, adjust, new_generation}

pub Stocked-le : (m : MemoryManager) (a b : ℕ) → b ≤ a → Stocked m a → Stocked m b
Stocked-le m a b h s = record {
  valid = s.valid;
  supply = s.supply;
  slots = omega (arith, s.slots, h);
  counts = λ j c e. omega (arith, s.counts j c e, h);
}

by_measure-Returns :
    {W : Type 0} (floats : Floats W) (fitness : List (ℕ × Measure)) (n number i : ℕ)
    (view : List (ℕ × Measure))
    → ((q : ℕ) → q < n → (s : Measure) × (lookup q fitness ≡ some s))
    → i + number ≡ n
    → Returns (λ v. Unit {0}) (by_measure floats fitness i number view)
unfolding by_measure
by_measure-Returns floats fitness n zero i view h e = returns _ tt
by_measure-Returns floats fitness n (suc number) i view h e =
    let (s, f) = h i (omega (arith, e)) in
    rw f (by_measure-Returns floats fitness n number (i + 1) _ h (omega (arith, e)))

get_best_performers-Returns :
    {W : Type 0} (floats : Floats W) (number : ℕ) (fitness : List (ℕ × Measure))
    → ((q : ℕ) → q < length fitness → (s : Measure) × (lookup q fitness ≡ some s))
    → Returns (λ v. Unit {0}) (get_best_performers floats number fitness)
unfolding get_best_performers
get_best_performers-Returns floats number fitness h = elim (Bool-cases (ltb number 1)) [
  | inl e ↦ rw e (returns _ tt)
  | inr e ↦ rw e (
      >>=-Returns _
        (by_measure-Returns floats fitness (length fitness) (length fitness) 0 [] h (omega arith))
        λ view u. returns _ tt)
]

-- The best individuals breed.
abbrev pub BestBreed : MemoryManager → BestIndividuals → Type 0
BestBreed m b = All (λ e. Breeds m e.1) b.container

length-best_first :
    (number : ℕ) (xs : List (Measure × Individual))
    → (length (best_first number xs) ≤ length xs) × (length (best_first number xs) ≤ max 1 number)
unfolding best_first
length-best_first number [] = omega arith
length-best_first zero ((k, i) ∷ rest) = omega arith
length-best_first (suc zero) ((k, i) ∷ rest) = omega arith
length-best_first (suc (suc number)) ((k, i) ∷ rest) =
    omega (arith, length-best_first (suc number) rest)

All-best_first :
    (P : Individual → Type 0) (number : ℕ) (xs : List (Measure × Individual))
    → All (λ e. P e.1) xs
    → All P (best_first number xs)
unfolding best_first
All-best_first P number [] h = tt
All-best_first P zero ((k, i) ∷ rest) h = (h.0, tt)
All-best_first P (suc zero) ((k, i) ∷ rest) h = (h.0, tt)
All-best_first P (suc (suc number)) ((k, i) ∷ rest) h =
    (h.0, All-best_first P (suc number) rest h.1)

length-reversed : (xs : List (Measure × Individual)) → length (reversed xs) ≡ length xs
length-reversed [] = refl
length-reversed (x ∷ xs) = omega (arith, length-append (reversed xs) (x ∷ []), length-reversed xs)

All-reversed :
    (P : Individual → Type 0) (xs : List (Measure × Individual))
    → All (λ e. P e.1) xs
    → All (λ e. P e.1) (reversed xs)
All-reversed P [] h = tt
All-reversed P (x ∷ xs) h =
    All-append (λ e. P e.1) (reversed xs) (x ∷ []) (All-reversed P xs h.1) (h.0, tt)

-- Of at least one individual that is asked for, those that are found and those that are missing.
get_best_bounds :
    (b : BestIndividuals) (number : ℕ)
    → 0 < number
    → length (get_best b number 0).0 + (get_best b number 0).1 ≤ number
unfolding get_best
get_best_bounds b number h = elim (dec_lt (length b.container) number) [
  | yes l ↦ rw (lt→ltb (length b.container) number l) (
      omega (
        arith,
        l,
        (length-best_first (length b.container) (reversed b.container)).0,
        length-reversed b.container,
      ))
  | no k ↦
      rw (le→ltb number (length b.container) (omega (arith, k)))
        (omega (arith, h, (length-best_first number (reversed b.container)).1))
]

get_best-BestBreed :
    (m : MemoryManager) (b : BestIndividuals) (number : ℕ)
    → BestBreed m b
    → All (Breeds m) (get_best b number 0).0
unfolding get_best
get_best-BestBreed m b number h =
    All-best_first (Breeds m) _ _ (All-reversed (Breeds m) b.container h)

module _ (fuel rounds picks : ℕ) (random_shuffle : Rand → List ℕ → List ℕ × Rand)
    (permutes : (r : Rand) (xs : List ℕ) → Perm (random_shuffle r xs).0 xs)
    (keeps_length : (r : Rand) (xs : List ℕ) → length (random_shuffle r xs).0 ≡ length xs)
    (steady : (r : Rand) (xs : List ℕ) → (random_shuffle r xs).1.draws ≡ r.draws) (draws : ℕ → ℕ)
    (lively : Lively draws fuel) where
  refill_lem :
      (e : Evolver) (r : Rand) (m : MemoryManager) (n current : ℕ)
      → r.draws ≡ draws
      → Stocked m (e.population_min - current + n)
      → All (Breeds m) e.population.individuals
      → e.population_min - current ≤ length e.population.individuals
      → Returns
          (λ o.
            (length o.0 ≡ e.population_min - current)
            × (o.1 ≤ e.population_min - current)
            × All (Lives o.3) o.0
            × Stocked o.3 n
            × Keeps m o.3
            × (o.2.draws ≡ draws))
          (refill fuel (suc rounds) picks random_shuffle e r m current)
  unfolding refill
  refill_lem e r m n current same s all enough = elim (dec_lt current e.population_min) [
    | yes l ↦ rw (lt→ltb current e.population_min l) (
        >>=-Returns _
          (reinject-Litter fuel rounds random_shuffle permutes keeps_length steady draws lively r m
            n e.population.individuals 0 (e.population_min - current) same s all
            (omega (arith, enough)))
          λ (injected, r1, m1) (count, lives, left, keeps, same1).
            returns _ (count, omega arith, lives, left, keeps, same1))
    | no k ↦ rw (le→ltb e.population_min current (omega (arith, k))) (
        returns _ (
          omega (arith, k),
          omega arith,
          tt,
          Stocked-le m (e.population_min - current + n) n (omega arith) s,
          Keeps-refl m,
          same,
        ))
  ]

  adjust_lem :
      (e : Evolver) (r : Rand) (m : MemoryManager) (n last : ℕ)
      → r.draws ≡ draws
      → Stocked m (e.double_deviation_population_size + 1 + n)
      → All (Breeds m) e.population.individuals
      → BestBreed m e.population.best_individuals
      → e.double_deviation_population_size + 1 < u32_mod
      → last + e.double_deviation_population_size + 1 ≤ length e.population.individuals
      → Returns
          (λ o. All (Lives o.2) o.0 × Stocked o.2 n × Keeps m o.2 × (o.1.draws ≡ draws))
          (adjust fuel (suc rounds) picks random_shuffle e r m last)
  unfolding adjust
  adjust_lem e r m n last same s all best small enough =
      let dev = e.double_deviation_population_size in
      let r1 = (next_bool r).1 in
      let (k, r2) = next_number r1 dev in
      let b = e.population.best_individuals in
      let low : k < max 1 dev = next_number-lt r1 dev in
      let sized : add32 k 1 ≡ k + 1 = omega (arith, low, small) in
      let bound = get_best_bounds b (add32 k 1) (omega (arith, sized)) in
      let bests = (get_best b (add32 k 1) 0).0 in
      let remaining = (get_best b (add32 k 1) 0).1 in
      let fits : length bests + remaining ≤ dev + 1 = omega (arith, bound, sized, low) in
      elim (Bool-cases (next_bool r).0) [
        | inl q ↦ rw q (
            >>=-Returns _
              (mutate_each-Litter fuel rounds random_shuffle permutes keeps_length steady draws
                lively r2 m (remaining + n) bests
                (next_number-draws r1 dev ∙ next_bool-draws r ∙ same)
                (Stocked-le m (dev + 1 + n) (length bests + (remaining + n)) (omega (arith, fits))
                  s)
                (get_best-BestBreed m b (add32 k 1) best))
              λ (first, r3, m1) (count1, lives1, left1, keeps1, same1).
                >>=-Returns _
                  (reinject-Litter fuel rounds random_shuffle permutes keeps_length steady draws
                    lively r3 m1 n e.population.individuals last remaining same1 left1
                    (All-mono (Breeds-Keeps m m1 keeps1) e.population.individuals all)
                    (omega (arith, fits, enough)))
                  λ (second, r4, m2) (count2, lives2, left2, keeps2, same2). returns _ (
                    All-append (Lives m2) first second
                        (All-mono (Lives-Keeps m1 m2 keeps2) first lives1) lives2,
                    left2,
                    Keeps-trans m m1 m2 keeps1 keeps2,
                    same2,
                  ))
        | inr q ↦ rw q (
            returns _ (
              tt,
              Stocked-le m (dev + 1 + n) n (omega arith) s,
              Keeps-refl m,
              next_bool-draws r ∙ same,
            ))
      ]

  -- With a cross-over that can cross any two individuals that hold bytes, and a generator that draws
  -- a second index within the fuel wherever it stands: if every individual of the population and
  -- every one of the best holds bytes, less than 2 ^ 32 - 64 of them, the mates are individuals of the
  -- population, and there are enough slot numbers, references and individuals, then the new
  -- generation is made without a fault. It is at least as large as the least population and as the
  -- number of mates, each of its individuals holds bytes, and no slot that held bytes changes.
  pub new_generation_lem :
      {W : Type 0} (floats : Floats W) (cross_over : CrossOver) (e : Evolver) (r : Rand)
      (m : MemoryManager) (scored : List (ℕ × Measure)) (mates : IndexMap) (n : ℕ)
      → let inds = e.population.individuals in
        let missing = e.population_min - length mates in
        let dev = e.double_deviation_population_size in
        IsCrossOver draws cross_over
        → r.draws ≡ draws
        → Stocked m (2 * length mates + (missing + (dev + 1 + n)))
        → All (Breeds m) inds
        → BestBreed m e.population.best_individuals
        → All (λ mate. (mate.0 < length inds) × (mate.1 < length inds)) mates
        → ((q : ℕ) → q < length scored → (s : Measure) × (lookup q scored ≡ some s))
        → dev + 1 < u32_mod
        → missing + dev + 1 ≤ length inds
        → Returns
            (λ o.
              (e.population_min ≤ length o.0)
              × (length mates ≤ length o.0)
              × All (Lives o.2) o.0
              × Stocked o.2 n
              × Keeps m o.2
              × (o.1.draws ≡ draws))
            (new_generation fuel
              (suc rounds)
              picks
              random_shuffle
              floats
              cross_over
              e
              r
              m
              scored
              mates)
  unfolding new_generation
  new_generation_lem floats cross_over e r m scored mates n crossing same s all best below measured
        small enough =
      let inds = e.population.individuals in
      let missing = e.population_min - length mates in
      let dev = e.double_deviation_population_size in
      >>=-Returns _
        (breed_each-Litter fuel rounds random_shuffle permutes keeps_length steady draws lively
          cross_over crossing inds r m (missing + (dev + 1 + n)) mates same s all below)
        λ (bred, r1, m1) (count1, lives1, left1, keeps1, same1).
          >>=-Returns _ (get_best_performers-Returns floats (length bred) scored measured) λ p u.
            rw count1 (
              >>=-Returns _
                (refill_lem e r1 m1 (dev + 1 + n) (length mates) same1 left1
                  (All-mono (Breeds-Keeps m m1 keeps1) inds all) (omega (arith, enough)))
                λ (injected, last, r2, m2) (count2, low, lives2, left2, keeps2, same2).
                  let keeps12 = Keeps-trans m m1 m2 keeps1 keeps2 in
                  >>=-Returns _
                    (adjust_lem e r2 m2 n last same2 left2
                      (All-mono (Breeds-Keeps m m2 keeps12) inds all)
                      (All-mono (λ x. Breeds-Keeps m m2 keeps12 x.1)
                        e.population.best_individuals.container best)
                      small (omega (arith, enough, low)))
                    λ (adjusted, r3, m3) (lives3, left3, keeps3, same3).
                      let sized = length-append bred (injected ++ adjusted) in
                      let sized' = length-append injected adjusted in
                      returns _ (
                        omega (arith, sized, sized', count1, count2),
                        omega (arith, sized, sized', count1),
                        All-append (Lives m3) bred (injected ++ adjusted)
                            (All-mono (Lives-Keeps m1 m3 (Keeps-trans m1 m2 m3 keeps2 keeps3)) bred
                              lives1)
                            (All-append (Lives m3) injected adjusted
                              (All-mono (Lives-Keeps m2 m3 keeps3) injected lives2) lives3),
                        left3,
                        Keeps-trans m m2 m3 keeps12 keeps3,
                        same3,
                      ))
