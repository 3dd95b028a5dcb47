-- ===== src/Evolution/Breeding/Laws.antt =====
-- The making of new individuals by `Evolver::evolve` (fuzzer/fuzzer/evolution.cpp).
use fuzzer_goal_directed.Prelude.{
  ℕ, zero, suc, ◌+◌, ◌*◌, ◌%◌, ◌^◌, ◌≤◌, ◌<◌, ◌≡◌, refl, ◌∙◌, some, List, [], ◌∷◌, arith, length,
}
use mathlib.Core.List.{Perm}
use fuzzer_goal_directed.Result.{Returns, returns, Returns-mono, >>=-Returns, out_of_bounds}
use fuzzer_goal_directed.OrderedMap.{lookup}
use fuzzer_goal_directed.Memory.{MemoryManager}
use fuzzer_goal_directed.Random.{Rand, next_number}
use fuzzer_goal_directed.Random.Laws.{next_number-draws, next_number-lt}
use fuzzer_goal_directed.Individual.{Individual}
use fuzzer_goal_directed.Mutation.Choice.{Mutation, mutations, choice, get_and_mutate}
use fuzzer_goal_directed.Mutation.Choice.Laws.{get_and_mutate_lem}
use fuzzer_goal_directed.Evolution.Stock.{
  Stocked, Keeps-refl, Stocked-Ready, Made, Child-Made, Child-shared, destroy-Stocked,
}
use fuzzer_goal_directed.Evolution.Crossing.{IsCrossOver}
use fuzzer_goal_directed.Evolution.Breeding.{
  CrossOver, breed_pair, breed_each, mutate_each, reinject,
}
use fuzzer_goal_directed.Mating.{IndexMap}
use fuzzer_goal_directed.Evolution.Breeding.Alive.{
  Breeds, All, All-mono, All-get_elem?, All-any, Breeds-Keeps, Lively, Lively-at, Offspring, Litter,
  one_more, between,
}

module _ (fuel rounds : ℕ) (random_shuffle : Rand → List ℕ → List ℕ × Rand)
    (permutes : (r : Rand) (xs : List ℕ) → Perm (random_shuffle r xs).0 xs)
    (keeps_length : (r : Rand) (xs : List ℕ) → length (random_shuffle r xs).0 ≡ length xs)
    (steady : (r : Rand) (xs : List ℕ) → (random_shuffle r xs).1.draws ≡ r.draws) (draws : ℕ → ℕ)
    (lively : Lively draws fuel) where
  mutate-Offspring :
      (r : Rand) (m : MemoryManager) (n : ℕ) (i : Individual)
      → r.draws ≡ draws
      → Stocked m (suc n)
      → Breeds m i
      → Returns
          (λ o.
            (after : List ℕ) × (0 < length after)
            × Made m n after o.0 o.2
            × (o.1.draws ≡ draws)
            × ((c : ℕ) × (lookup i.index o.2.refs ≡ some c) × (1 < c)))
          (get_and_mutate fuel random_shuffle (suc rounds) r m i)
  mutate-Offspring r m n i same s (bytes, holds, pos, small) =
      let ready = Stocked-Ready s i.index holds in
      let r9 = (next_number (next_number r 5).1 9).1 in
      let (idx, r1) = next_number r9 (length bytes) in
      let same1 : r1.draws ≡ draws =
        next_number-draws r9 (length bytes)
        ∙ next_number-draws (next_number r 5).1 9
        ∙ next_number-draws r 5
        ∙ same in
      let (k, enough, d) = Lively-at draws fuel lively r1.position (length bytes) idx in
      Returns-mono
        (λ o (after, alive, ch, same2). (
          after,
          alive,
          Child-Made s ready ch,
          same2 ∙ same,
          (ready.count + 1, (Child-shared s ready ch).0, (Child-shared s ready ch).1),
        ))
        (get_and_mutate_lem fuel random_shuffle permutes keeps_length steady m i ready small pos r k
          rounds enough λ two. rw same1 (d two))

  choice-draws :
      (r : Rand)
      → Returns {A = Mutation × Rand} (λ x. x.1.draws ≡ r.draws) (choice fuel random_shuffle r)
  unfolding choice mutations
  choice-draws r =
      let (idx, r1) = next_number r 9 in
      let low : idx < 9 = omega (arith, next_number-lt r 9) in
      >>=-Returns {P = λ f. Unit {0}} _
        (All-get_elem? (mutations fuel random_shuffle) (idx % 2 ^ 16) out_of_bounds
          (All-any (mutations fuel random_shuffle)) (omega arith))
        λ f u. returns _ (next_number-draws r 9)

  module _ (cross_over : CrossOver) (crossing : IsCrossOver draws cross_over)
      (individuals : List Individual) where
    breed_pair-Offspring :
        (r : Rand) (m : MemoryManager) (n i j : ℕ)
        → r.draws ≡ draws
        → Stocked m (suc (suc n))
        → All (Breeds m) individuals
        → i < length individuals
        → j < length individuals
        → Offspring draws m n
            (breed_pair fuel (suc rounds) random_shuffle cross_over r m individuals (i, j))
    unfolding breed_pair
    breed_pair-Offspring r m n i j same s all hi hj =
        >>=-Returns _ (choice-draws r) λ (unused, r1) same1.
          >>=-Returns _ (All-get_elem? individuals i out_of_bounds all hi)
            λ first (b1, holds1, pos1, small1).
              >>=-Returns _ (All-get_elem? individuals j out_of_bounds all hj)
                λ second (b2, holds2, pos2, small2).
                  >>=-Returns _
                    (crossing.crosses r1 m first second b1 b2 (suc n) (same1 ∙ same) s holds1 holds2
                      pos1 pos2 (omega (arith, small1)) (omega (arith, small2)))
                    λ (c, r2, m1) (bytes, sized, made, same2).
                      >>=-Returns _
                        (mutate-Offspring r2 m1 n c same2 made.stocked (
                          bytes,
                          made.holds,
                          (between b1 b2 bytes sized pos1 pos2 small1 small2).0,
                          (between b1 b2 bytes sized pos1 pos2 small1 small2).1,
                        ))
                        λ (d, r3, m2) (after, alive, made2, same3, (k, shared, more)).
                          >>=-Returns _ (destroy-Stocked made2.stocked c k shared more)
                            λ m3 (left, kept). returns _ (
                              after,
                              alive,
                              record {
                                stocked = left;
                                keeps = λ q b e. kept q ∙ made2.keeps q b (made.keeps q b e);
                                holds = kept d.index ∙ made2.holds;
                              },
                              same3,
                            )

    pub breed_each-Litter :
        (r : Rand) (m : MemoryManager) (n : ℕ) (mates : IndexMap)
        → r.draws ≡ draws
        → Stocked m (2 * length mates + n)
        → All (Breeds m) individuals
        → All (λ mate. (mate.0 < length individuals) × (mate.1 < length individuals)) mates
        → Litter draws m
            (length mates)
            n
            (breed_each fuel (suc rounds) random_shuffle cross_over r m individuals mates)
    unfolding breed_each
    breed_each-Litter r m n [] same s all below =
        returns _ (refl, tt, rw (let e : 2 * 0 + n ≡ n = omega arith in e) at s, Keeps-refl m, same)
    breed_each-Litter r m n ((i, j) ∷ mates) same s all below =
        >>=-Returns _
          (breed_pair-Offspring r m (2 * length mates + n) i j same
            (rw
              (let e : 2 * suc (length mates) + n ≡ suc (suc (2 * length mates + n)) =
                  omega arith in
                e)
              at s)
            all below.0.0 below.0.1)
          λ (d, r1, m1) (after, alive, made, same1).
            one_more draws m m1 (2 * length mates + n) n (length mates) d _ alive made (
              breed_each-Litter r1 m1 n mates same1 made.stocked
                (All-mono (Breeds-Keeps m m1 made.keeps) individuals all) below.1)

  pub mutate_each-Litter :
      (r : Rand) (m : MemoryManager) (n : ℕ) (individuals : List Individual)
      → r.draws ≡ draws
      → Stocked m (length individuals + n)
      → All (Breeds m) individuals
      → Litter draws m
          (length individuals)
          n
          (mutate_each fuel (suc rounds) random_shuffle r m individuals)
  unfolding mutate_each
  mutate_each-Litter r m n [] same s all =
      returns _ (refl, tt, rw (let e : 0 + n ≡ n = omega arith in e) at s, Keeps-refl m, same)
  mutate_each-Litter r m n (i ∷ rest) same s all =
      >>=-Returns _
        (mutate-Offspring r m (length rest + n) i same
          (rw (let e : suc (length rest) + n ≡ suc (length rest + n) = omega arith in e) at s)
          all.0)
        λ (d, r1, m1) (after, alive, made, same1, shared).
          one_more draws m m1 (length rest + n) n (length rest) d _ alive made (
            mutate_each-Litter r1 m1 n rest same1 made.stocked
              (All-mono (Breeds-Keeps m m1 made.keeps) rest all.1))

  pub reinject-Litter :
      (r : Rand) (m : MemoryManager) (n : ℕ) (individuals : List Individual) (i number : ℕ)
      → r.draws ≡ draws
      → Stocked m (number + n)
      → All (Breeds m) individuals
      → i + number ≤ length individuals
      → Litter draws m number n (reinject fuel (suc rounds) random_shuffle r m individuals i number)
  unfolding reinject
  reinject-Litter r m n individuals i zero same s all h =
      returns _ (refl, tt, rw (let e : 0 + n ≡ n = omega arith in e) at s, Keeps-refl m, same)
  reinject-Litter r m n individuals i (suc number) same s all h =
      >>=-Returns _ (All-get_elem? individuals i out_of_bounds all (omega (arith, h))) λ ind breeds.
        >>=-Returns _
          (mutate-Offspring r m (number + n) ind same
            (rw (let e : suc number + n ≡ suc (number + n) = omega arith in e) at s) breeds)
          λ (d, r1, m1) (after, alive, made, same1, shared).
            one_more draws m m1 (number + n) n number d _ alive made (
              reinject-Litter r1 m1 n individuals (i + 1) number same1 made.stocked
                (All-mono (Breeds-Keeps m m1 made.keeps) individuals all) (omega (arith, h)))
