-- ===== src/Coverage.antt =====
-- What the fuzzer knows of the program, and its coverage by the traces (fuzzer/fuzzer/knowledge.h,
-- knowledge.cpp). The graph of Boost and the LRU caches are parameters, as is the mathematics
-- library under the norm of a score. Logging and `to_dot` are left out.
pub mod Trace
pub mod Mocked
pub mod Blind
pub mod Scores
use fuzzer_goal_directed.Prelude.{
  ℕ, zero, suc, ◌+◌, Bool, true, false, not, ◌&&◌, ◌||◌, Option, none, some, List, [], ◌∷◌, ◌++◌,
  ltb, leb, ◌==◌, if◌then◌else◌, add32, mul32, to_u32,
}
use fuzzer_goal_directed.Result.{Result, ok, fault, ◌>>=◌, null_pointer, wrong_kind}
use fuzzer_goal_directed.OrderedMap.{lookup, assign, insert}
use fuzzer_goal_directed.Memory.{contains}
use fuzzer_goal_directed.Random.{Rand, next_number, insert_sorted}
use fuzzer_goal_directed.Store.{
  StoreImpl, Element, Body, source, function, block, summary, condition, other, SummaryElement,
  Operator, op_pass_through, op_buffer_write, op_buffer_read, op_buffer_read_write,
  op_buffer_unknown, op_integer_may_overflow, op_integer_unknown, op_cast_unsafe, op_cast_unknown,
  element_at, error_id,
}
use fuzzer_goal_directed.Trace.{TraceElement}
use fuzzer_goal_directed.Measure.{Score, zero_score, Measure, Floats, score_norm}

-- `exists`, `copy_get` and `put` of a cache with numbers as values.
pub record CacheOps (K C : Type 0) : Type 0 where
  pub has : C → K → Bool
  pub copy_get : C → K → ℕ × C
  pub put : C → K → ℕ → C

-- An `adjacency_list` whose vertices are numbered from 0 and carry an element each.
pub record GraphOps (G : Type 0) : Type 0 where
  pub num_vertices : G → ℕ
  pub element : G → ℕ → ℕ
  pub add_vertex : G → ℕ → ℕ × G
  pub has_edge : G → ℕ → ℕ → Bool
  pub add_edge : G → ℕ → ℕ → G

-- `ProgramKnowledge` with its `Coverage`.
pub record Knowledge (B G V : Type 0) : Type 0 where
  pub blind : Bool
  pub store : StoreImpl
  pub block_cache : B
  pub random : Rand
  pub reached_functions : List ℕ
  pub covered_goals : List ℕ
  pub local_coverage : List (ℕ × ℕ)
  pub coverage_scores : List (ℕ × Score)
  pub goal_scores : List (ℕ × Score)
  pub mocked_scores : List (ℕ × Score)
  pub graph : G
  pub vertex_cache : V

-- Szudzik's pairing, in 32 bits.
unfoldable pub paired : ℕ → ℕ → ℕ
paired func_id block_id =
    if leb block_id func_id
    then add32 (add32 (mul32 func_id func_id) func_id) block_id
    else add32 func_id (mul32 block_id block_id)

-- The loop over the blocks of a function. A block that is missing is a null pointer, and one of
-- another class a wrong `static_pointer_cast`.
unfoldable pub find_block : StoreImpl → List ℕ → ℕ → Result (Option ℕ × StoreImpl)
find_block s [] block_id = ok (none, s)
find_block s (i ∷ rest) block_id =
    let (e, s') = element_at s i in
    let others = find_block s' rest block_id in
    elim e [
      | none ↦ fault null_pointer
      | some x ↦ elim x.body [
        | block b ↦ if b.internal_block_id == block_id then ok (some i, s') else others
        | source b ↦ fault wrong_kind
        | function b ↦ fault wrong_kind
        | summary b ↦ fault wrong_kind
        | condition b ↦ fault wrong_kind
      ]
    ]

-- `GoalScoringMechanism`
abbrev pub goal_scoring : Operator → ℕ
goal_scoring op_pass_through = 10
goal_scoring op_buffer_write = 7
goal_scoring op_buffer_read = 3
goal_scoring op_buffer_read_write = 3
goal_scoring op_buffer_unknown = 2
goal_scoring op_integer_may_overflow = 2
goal_scoring op_integer_unknown = 2
goal_scoring op_cast_unsafe = 2
goal_scoring op_cast_unknown = 1
goal_scoring (other n) = 0

-- What `update_coverage_score` and `update_goal_score` do to their map.
unfoldable pub update_score : List (ℕ × Score) → ℕ → ℕ → ℕ → Bool → List (ℕ × Score)
update_score scores testcase_id abs_score diff_score initialize = elim (lookup testcase_id scores) [
  | none ↦ insert testcase_id (record { absolute = abs_score; diff = diff_score }) scores
  | some s ↦
      if initialize
      then assign testcase_id (record { absolute = abs_score; diff = diff_score }) scores
      else assign testcase_id
          (record { absolute = add32 s.absolute abs_score; diff = add32 s.diff diff_score }) scores
]

abbrev pub score_or_zero : Option Score → Score
score_or_zero none = zero_score
score_or_zero (some s) = s

-- The summaries of a block: the score, with what `covered_goals` and the store become.
unfoldable pub score_summaries : StoreImpl → List ℕ → Score → List ℕ → Score × List ℕ × StoreImpl
score_summaries s covered score [] = (score, covered, s)
score_summaries s covered score (i ∷ rest) =
    let (e, s') = element_at s i in
    let covered' = insert_sorted i covered in
    let skipped = score_summaries s' covered' score rest in
    elim e [
      | none ↦ skipped
      | some x ↦ elim x.body [
        | summary b ↦
            let n = goal_scoring b.op in
            score_summaries s' covered'
              (record {
                absolute = add32 score.absolute n;
                diff = if contains i covered then score.diff else add32 score.diff n;
              })
              rest
        | source b ↦ skipped
        | function b ↦ skipped
        | block b ↦ skipped
        | condition b ↦ skipped
      ]
    ]

-- `for (i = 0; i < num_hits; i++) result += random.next_number(3);`
unfoldable pub sum_hits : ℕ → Rand → ℕ → ℕ × Rand
sum_hits zero r result = (result, r)
sum_hits (suc n) r result = let (x, r') = next_number r 3 in sum_hits n r' (add32 result x)

module _ {B G V : Type 0} where
  unfoldable pub update_coverage_score : Knowledge B G V → ℕ → ℕ → ℕ → Bool → Knowledge B G V
  unfolding update_score
  update_coverage_score k i a d initialize = record k {
    coverage_scores = update_score k.coverage_scores i a d initialize;
  }

  unfoldable pub update_goal_score : Knowledge B G V → ℕ → ℕ → ℕ → Bool → Knowledge B G V
  unfolding update_score
  update_goal_score k i a d initialize = record k {
    goal_scores = update_score k.goal_scores i a d initialize;
  }

  unfoldable pub update_local_coverage : Knowledge B G V → ℕ → Knowledge B G V
  update_local_coverage k e = elim (lookup e k.local_coverage) [
    | none ↦ record k { local_coverage = insert e 1 k.local_coverage }
    | some n ↦ record k { local_coverage = assign e (add32 n 1) k.local_coverage }
  ]

  unfoldable pub reset_scores : Knowledge B G V → Knowledge B G V
  reset_scores k = record k { coverage_scores = []; goal_scores = []; local_coverage = [] }

  unfoldable pub compute_mocked_score : Knowledge B G V → ℕ → Score × Knowledge B G V
  unfolding sum_hits
  compute_mocked_score k block_id =
      let (n, r1) = next_number k.random 30 in
      let (num_hits, r2) = next_number r1 5 in
      let (result, r3) = sum_hits num_hits r2 0 in
      let (stored, r4) = next_number r3 10 in
      let (returned, r5) = next_number r4 10 in
      elim (lookup block_id k.mocked_scores) [
        | some s ↦ (s, k)
        | none ↦
            if ltb 0 n
            then (
              zero_score,
              record k { random = r1; mocked_scores = insert block_id zero_score k.mocked_scores },
            )
            else (
              record { absolute = returned; diff = result },
              record k {
                random = r5;
                mocked_scores =
                    insert block_id (record { absolute = stored; diff = result }) k.mocked_scores;
              },
            )
      ]

  -- The score of a block by the store: the rest of `compute_goal_score`.
  unfoldable pub stored_goal_score : Knowledge B G V → ℕ → Score × Knowledge B G V
  unfolding score_summaries
  stored_goal_score k block_id =
      let (e, s') = element_at k.store block_id in
      let missing = record k { store = s' } in
      elim e [
        | none ↦ (zero_score, missing)
        | some x ↦ elim x.body [
          | block b ↦
              let (score, covered, s'') =
                score_summaries s' k.covered_goals zero_score b.summaries in
              (score, record k { store = s''; covered_goals = covered })
          | source b ↦ (zero_score, missing)
          | function b ↦ (zero_score, missing)
          | summary b ↦ (zero_score, missing)
          | condition b ↦ (zero_score, missing)
        ]
      ]

  unfoldable pub compute_goal_score : Knowledge B G V → ℕ → Score × Knowledge B G V
  unfolding compute_mocked_score stored_goal_score
  compute_goal_score k block_id =
      if k.blind then compute_mocked_score k block_id else stored_goal_score k block_id

  module _ {W : Type 0} (floats : Floats W) where
    unfoldable pub lookup_goals : Knowledge B G V → ℕ → ℕ → Knowledge B G V
    unfolding compute_goal_score update_goal_score
    lookup_goals k dest testcase_id =
        let (s, k') = compute_goal_score k dest in
        if ltb 0 (score_norm floats s)
        then update_goal_score k' testcase_id s.absolute s.diff false
        else k'
