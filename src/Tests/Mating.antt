-- ===== src/Tests/Mating.antt =====
-- The strategies of mating at concrete populations.
use fuzzer_goal_directed.Prelude.{
  ℕ, zero, suc, ◌/◌, ◌<◌, ◌≡◌, refl, some, List, [], ◌∷◌, arith, length,
}
use fuzzer_goal_directed.Result.{Returns}
use fuzzer_goal_directed.OrderedMap.{lookup}
use fuzzer_goal_directed.Measure.{Measure}
use fuzzer_goal_directed.Mating.{IndexMap, elitism, closeness, PairwiseScore}
use fuzzer_goal_directed.Mating.Laws.{AllBelow, IsMatching, closeness-IsMatching}
use fuzzer_goal_directed.Mating.Elitism.{elitism-IsMatching}
use fuzzer_goal_directed.Tests.Coverage.{sums, scored}

abbrev three_measures : List (ℕ × Measure)
three_measures = (0, scored 5 3) ∷ (1, scored 9 3) ∷ (2, scored 7 3) ∷ []

all_measured : (q : ℕ) → q < 3 → (s : Measure) × (lookup q three_measures ≡ some s)
unfolding lookup
all_measured zero h = (scored 5 3, refl)
all_measured (suc zero) h = (scored 9 3, refl)
all_measured (suc (suc zero)) h = (scored 7 3, refl)
all_measured (suc (suc (suc q))) h = absurd (omega (arith, h))

elitism-IsMatching_example :
    Returns {A = IndexMap}
      (λ pairs. IsMatching pairs × AllBelow 3 pairs × (length pairs ≡ 3 / 2))
      (elitism sums three_measures 3)
elitism-IsMatching_example = elitism-IsMatching sums three_measures 3 all_measured

abbrev alike : ℕ → ℕ → ℕ → PairwiseScore
alike i j s = record { index_1 = i; index_2 = j; score = s }

closeness-IsMatching_example :
    IsMatching (closeness (alike 0 1 3 ∷ alike 1 2 8 ∷ alike 0 3 2 ∷ []) 4)
    × AllBelow 4 (closeness (alike 0 1 3 ∷ alike 1 2 8 ∷ alike 0 3 2 ∷ []) 4)
closeness-IsMatching_example = closeness-IsMatching (alike 0 1 3 ∷ alike 1 2 8 ∷ alike 0 3 2 ∷ []) 4
