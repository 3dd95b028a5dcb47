-- ===== src/Coverage/Trace.antt =====
-- Traces enter the coverage graph (fuzzer/fuzzer/knowledge.cpp): `get_block_element`, `add_vertex`,
-- `add_edge`, `add_trace_element`, `add_trace` and `evaluate_trace`.
use fuzzer_goal_directed.Prelude.{
  ℕ, zero, suc, ◌+◌, Bool, true, false, Option, none, some, List, [], ◌∷◌, ◌++◌, ◌==◌,
  if◌then◌else◌,
}
use fuzzer_goal_directed.Result.{Result, ok, ◌>>=◌}
use fuzzer_goal_directed.OrderedMap.{lookup}
use fuzzer_goal_directed.Memory.{contains}
use fuzzer_goal_directed.Random.{insert_sorted}
use fuzzer_goal_directed.Store.{source, function, block, summary, condition, element_at, error_id}
use fuzzer_goal_directed.Trace.{TraceElement}
use fuzzer_goal_directed.Measure.{Measure, Floats}
use fuzzer_goal_directed.Coverage.{
  CacheOps, GraphOps, Knowledge, paired, find_block, update_coverage_score, update_goal_score,
  update_local_coverage, lookup_goals, score_or_zero,
}

-- `find_vertex`, from vertex `v` on; `number` vertices are left.
unfoldable pub find_vertex : {G : Type 0} → GraphOps G → G → ℕ → ℕ → ℕ → Option ℕ
find_vertex graph g e v zero = none
find_vertex graph g e v (suc number) =
    if graph.element g v == e then some v else find_vertex graph g e (v + 1) number

abbrev id_or_error : Option ℕ → ℕ
id_or_error none = error_id
id_or_error (some i) = i

-- The tail of a function call: `trace_list_ptr->push_back`, unless the pointer is null.
abbrev pub push_back : Option (List ℕ) → ℕ → Option (List ℕ)
push_back none e = none
push_back (some es) e = some (es ++ (e ∷ []))

module _ {B G V W : Type 0} (blocks : CacheOps (ℕ × ℕ) B) (graph : GraphOps G)
    (vertices : CacheOps ℕ V) (floats : Floats W) where
  unfoldable pub get_block_element : Knowledge B G V → ℕ → ℕ → Result (ℕ × Knowledge B G V)
  unfolding find_block
  get_block_element k func_id block_id =
      let key : ℕ × ℕ = (func_id, block_id) in
      let (cached, cache) = blocks.copy_get k.block_cache key in
      let (e, s) = element_at k.store func_id in
      let unusual : Result (ℕ × Knowledge B G V) =
        ok
          (error_id, record k { store = s; block_cache = blocks.put k.block_cache key error_id }) in
      if k.blind
      then ok (paired func_id block_id, k)
      else if blocks.has k.block_cache key
      then ok (cached, record k { block_cache = cache })
      else elim e [
        | none ↦ ok (error_id, record k { store = s })
        | some x ↦ elim x.body [
          | function f ↦ do
            (found, s') ← find_block s f.blocks block_id
            ok (
              id_or_error found,
              record k {
                store = s';
                block_cache = blocks.put k.block_cache key (id_or_error found);
              },
            )
          | source b ↦ unusual
          | block b ↦ unusual
          | summary b ↦ unusual
          | condition b ↦ unusual
        ]
      ]

  unfoldable pub add_vertex : Knowledge B G V → ℕ → ℕ × Knowledge B G V
  unfolding find_vertex
  add_vertex k e =
      let (cached, cache) = vertices.copy_get k.vertex_cache e in
      let (v, g) = graph.add_vertex k.graph e in
      if vertices.has k.vertex_cache e
      then (cached, record k { vertex_cache = cache })
      else elim (find_vertex graph k.graph e 0 (graph.num_vertices k.graph)) [
        | none ↦ (v, record k { graph = g; vertex_cache = vertices.put k.vertex_cache e v })
        | some t ↦ (t, record k { vertex_cache = vertices.put k.vertex_cache e t })
      ]

  unfoldable pub add_edge : Knowledge B G V → ℕ → ℕ → ℕ → Bool → Knowledge B G V
  unfolding add_vertex update_local_coverage update_coverage_score lookup_goals
  add_edge k source_id dest testcase_id mock =
      let (u, k1) = add_vertex k source_id in
      let (v, k2) = add_vertex k1 dest in
      let k3 = update_local_coverage (update_local_coverage k2 source_id) dest in
      let new_edge =
        (let k4 = update_coverage_score k3 testcase_id 2 1 false in
          if mock then k4 else record k4 { graph = graph.add_edge k4.graph u v }) in
      let known_edge = update_coverage_score k3 testcase_id 1 0 false in
      lookup_goals floats (if graph.has_edge k3.graph u v then known_edge else new_edge) dest
        testcase_id

  -- The boundary of a function: `cur_block_id == 0`.
  unfoldable pub visit_function : Knowledge B G V → ℕ → ℕ → Knowledge B G V
  unfolding update_local_coverage update_coverage_score
  visit_function k testcase_id func_id =
      let k1 = update_local_coverage k func_id in
      if contains func_id k1.reached_functions
      then update_coverage_score k1 testcase_id 1 0 false
      else let k2 = update_coverage_score k1 testcase_id 2 1 false in
        record k2 { reached_functions = insert_sorted func_id k2.reached_functions }

  unfoldable pub add_trace_element :
      Knowledge B G V
      → ℕ
      → TraceElement
      → Bool
      → Option (List ℕ)
      → Result (Option (List ℕ) × Knowledge B G V)
  unfolding get_block_element add_edge visit_function
  add_trace_element k testcase_id e mock trace_list =
      if e.cur_block_id == 0
      then (if e.func_id == 0
          then ok (trace_list, k)
          else ok (trace_list, visit_function k testcase_id e.func_id))
      else (do
        (pred, k1) ← get_block_element k e.func_id e.pred_block_id
        (cur, k2) ← get_block_element k1 e.func_id e.cur_block_id
        ok (push_back trace_list cur, add_edge k2 pred cur testcase_id mock))

  -- The loops over a trace.
  unfoldable pub add_trace_elements :
      Knowledge B G V
      → ℕ
      → List TraceElement
      → Bool
      → Option (List ℕ)
      → Result (Option (List ℕ) × Knowledge B G V)
  unfolding add_trace_element
  add_trace_elements k testcase_id [] mock trace_list = ok (trace_list, k)
  add_trace_elements k testcase_id (e ∷ es) mock trace_list = do
    (trace_list', k') ← add_trace_element k testcase_id e mock trace_list
    add_trace_elements k' testcase_id es mock trace_list'

  -- `add_trace` of a trace in the shared memory.
  unfoldable pub add_trace : Knowledge B G V → ℕ → List TraceElement → Result (Knowledge B G V)
  unfolding add_trace_elements
  add_trace k testcase_id trace = do
    (unused, k') ← add_trace_elements k testcase_id trace false none
    ok k'

  abbrev initialized_scores : Knowledge B G V → ℕ → Knowledge B G V
  initialized_scores k testcase_id =
      update_goal_score (update_coverage_score k testcase_id 0 0 true) testcase_id 0 0 true

  -- `add_trace` of a mocked trace, which resets the scores of the test case first.
  unfoldable pub add_mocked_trace :
      Knowledge B G V → ℕ → List TraceElement → Result (Knowledge B G V)
  unfolding add_trace_elements update_coverage_score update_goal_score
  add_mocked_trace k testcase_id trace = do
    (unused, k') ←
        add_trace_elements (initialized_scores k testcase_id) testcase_id trace false none
    ok k'

  abbrev list_or_empty : Option (List ℕ) → List ℕ
  list_or_empty none = []
  list_or_empty (some es) = es

  -- The length in the measure is not set by the code; `unset` is what is there.
  unfoldable pub evaluate_trace :
      ℕ → Knowledge B G V → ℕ → List TraceElement → Result ((List ℕ × Measure) × Knowledge B G V)
  unfolding add_trace_elements update_coverage_score update_goal_score
  evaluate_trace unset k testcase_id trace = do
    (trace_list, k') ←
        add_trace_elements (initialized_scores k testcase_id) testcase_id trace true (some [])
    ok (
      (
        list_or_empty trace_list,
        record {
          goal = score_or_zero (lookup testcase_id k'.goal_scores);
          edge = score_or_zero (lookup testcase_id k'.coverage_scores);
          length = unset;
        },
      ),
      k',
    )
