-- ===== src/Mating.antt =====
-- Who is mated with whom (fuzzer/fuzzer/mating-strategy.cpp). A view of a bimap by its measures is a
-- list in their order, equivalent ones in the order of insertion. The score of a pair of inputs
-- (fuzzer/fuzzer/sequence.cpp, by SeqAn) is a parameter; where scores are equal, `std::sort` may
-- choose another order than the one here. The count of the individuals is not cut to the 32 bits of
-- `num_individuals`, so populations are taken to be smaller than 2 ^ 32.
pub mod Laws
pub mod Elitism
use fuzzer_goal_directed.Prelude.{
  ℕ, zero, suc, ◌+◌, ◌-◌, ◌/◌, ◌%◌, true, false, none, some, List, [], ◌∷◌, ltb, ◌==◌, ◌&&◌, ◌||◌,
  if◌then◌else◌, length,
}
use fuzzer_goal_directed.Result.{Result, ok, or_fault, out_of_range, ◌>>=◌}
use fuzzer_goal_directed.OrderedMap.{lookup, insert}
use fuzzer_goal_directed.Memory.{contains}
use fuzzer_goal_directed.Random.{Rand, next_number}
use fuzzer_goal_directed.Measure.{Measure, Floats, measure_gt}

-- `index_map`
abbrev pub IndexMap : Type 0
IndexMap = List (ℕ × ℕ)

module _ {W : Type 0} (floats : Floats W) where
  -- Insertion into a `multiset_of` with `greater_measure_t`.
  unfoldable pub insert_greater : ℕ → Measure → List (ℕ × Measure) → List (ℕ × Measure)
  insert_greater i s [] = (i, s) ∷ []
  insert_greater i s ((j, t) ∷ rest) =
      let later = insert_greater i s rest in
      if measure_gt floats s t then (i, s) ∷ (j, t) ∷ rest else (j, t) ∷ later

  -- The loop that fills the bimap: `number` individuals from `i` on.
  unfoldable pub by_measure :
      List (ℕ × Measure) → ℕ → ℕ → List (ℕ × Measure) → Result (List (ℕ × Measure))
  unfolding insert_greater
  by_measure fitness i zero view = ok view
  by_measure fitness i (suc number) view = do
    s ← or_fault (lookup i fitness) out_of_range
    by_measure fitness (i + 1) number (insert_greater i s view)

-- The loop over the view, two elements at a time.
unfoldable pub pair_up : List (ℕ × Measure) → IndexMap → IndexMap
pair_up [] pairs = pairs
pair_up (a ∷ []) pairs = pairs
pair_up (a ∷ b ∷ rest) pairs = pair_up rest (insert a.0 b.0 pairs)

-- `ElitismMatingStrategy::apply` on a population of `size` individuals.
unfoldable pub elitism : {W : Type 0} → Floats W → List (ℕ × Measure) → ℕ → Result IndexMap
unfolding by_measure pair_up
elitism floats fitness size = do view ← by_measure floats fitness 0 size []; ok (pair_up view [])

-- The loop of `UniformMatingStrategy::apply`; the first of the two draws is the first index.
unfoldable pub draw_pairs : Rand → ℕ → ℕ → IndexMap → IndexMap × Rand
draw_pairs r size zero pairs = (pairs, r)
draw_pairs r size (suc rounds) pairs =
    let (a, r1) = next_number r size in
    let (b, r2) = next_number r1 size in draw_pairs r2 size rounds (insert a b pairs)

unfoldable pub uniform_mates : Rand → ℕ → IndexMap × Rand
unfolding draw_pairs
uniform_mates r size = draw_pairs r size (size / 2 + size % 2) []

-- `pairwise_score_t`
pub record PairwiseScore : Type 0 where
  pub index_1 : ℕ
  pub index_2 : ℕ
  pub score : ℕ

-- `std::sort`, by bigger score.
unfoldable pub insert_bigger : PairwiseScore → List PairwiseScore → List PairwiseScore
insert_bigger p [] = p ∷ []
insert_bigger p (q ∷ rest) =
    let later = insert_bigger p rest in if ltb q.score p.score then p ∷ q ∷ rest else q ∷ later

unfoldable pub sort_bigger : List PairwiseScore → List PairwiseScore
unfolding insert_bigger
sort_bigger [] = []
sort_bigger (p ∷ rest) = insert_bigger p (sort_bigger rest)

-- `std::generate_n` from a counter.
unfoldable pub indices_from : ℕ → ℕ → List ℕ
indices_from i zero = []
indices_from i (suc number) = i ∷ indices_from (i + 1) number

unfoldable pub erase_index : ℕ → List ℕ → List ℕ
erase_index i [] = []
erase_index i (x ∷ xs) = let rest = erase_index i xs in if x == i then rest else x ∷ rest

-- The loop over the scores; `result` holds the indices that are not mated yet.
unfoldable pub mate_closest : List PairwiseScore → List ℕ → IndexMap → IndexMap
unfolding erase_index
mate_closest [] result pairs = pairs
mate_closest (p ∷ rest) result pairs =
    let skipped = mate_closest rest result pairs in
    let mated =
      mate_closest rest (erase_index p.index_2 (erase_index p.index_1 result))
        (insert p.index_1 p.index_2 pairs) in
    if ltb p.score 1
    then pairs
    else if p.index_1 == p.index_2
    then skipped
    else if contains p.index_1 result && contains p.index_2 result
    then mated
    else skipped

-- `ClosenessMatingStrategy::apply`
unfoldable pub closeness : List PairwiseScore → ℕ → IndexMap
unfolding sort_bigger indices_from mate_closest
closeness pairwise_score size = mate_closest (sort_bigger pairwise_score) (indices_from 0 size) []
