-- ===== src/Coverage/Mocked.antt =====
-- The evaluation of a trace by a fuzzer without a store (fuzzer/fuzzer/knowledge.cpp:
-- `evaluate_trace`) and the edges of the coverage graph.
use fuzzer_goal_directed.Prelude.{
  ℕ, ◌≡◌, refl, ap, ◌∙◌, Bool, true, false, Option, some, List, [], ◌∷◌, ltb, ◌==◌, if◌then◌else◌,
  Option-cases, Bool-cases, inl, inr,
}
use fuzzer_goal_directed.Result.{Returns, returns, >>=-Returns, Returns-mono}
use fuzzer_goal_directed.OrderedMap.{lookup}
use fuzzer_goal_directed.Memory.{contains}
use fuzzer_goal_directed.Random.{next_number}
use fuzzer_goal_directed.Trace.{TraceElement}
use fuzzer_goal_directed.Measure.{Measure, Floats, score_norm}
use fuzzer_goal_directed.Coverage.{
  CacheOps, GraphOps, Knowledge, paired, update_coverage_score, update_goal_score,
  update_local_coverage, lookup_goals, compute_goal_score, compute_mocked_score, stored_goal_score,
}
use fuzzer_goal_directed.Coverage.Blind.{blind_block}
use fuzzer_goal_directed.Coverage.Trace.{
  find_vertex, add_vertex, add_edge, visit_function, add_trace_element, add_trace_elements,
  evaluate_trace,
}

-- A new vertex comes without edges.
abbrev pub VertexAddsNoEdge : {G : Type 0} → GraphOps G → Type 0
VertexAddsNoEdge {G} graph =
    (g : G) (e u v : ℕ) → graph.has_edge (graph.add_vertex g e).1 u v ≡ graph.has_edge g u v

module _ {B G V W : Type 0} (blocks : CacheOps (ℕ × ℕ) B) (graph : GraphOps G)
    (vertices : CacheOps ℕ V) (floats : Floats W) (bare : VertexAddsNoEdge graph) where
  -- There is no store, and the edges are the same.
  pub record SameEdges (k k' : Knowledge B G V) : Type 0 where
    pub blind : k'.blind ≡ true
    pub edges : (u v : ℕ) → graph.has_edge k'.graph u v ≡ graph.has_edge k.graph u v

  SameEdges-trans :
      {k k' k'' : Knowledge B G V} → SameEdges k k' → SameEdges k' k'' → SameEdges k k''
  SameEdges-trans a b = record { blind = b.blind; edges = λ u v. b.edges u v ∙ a.edges u v }

  local_same :
      (k : Knowledge B G V) (e : ℕ) → k.blind ≡ true → SameEdges k (update_local_coverage k e)
  unfolding update_local_coverage
  local_same k e h = elim (Option-cases (lookup e k.local_coverage)) [
    | inl f ↦ rw (update_local_coverage, f) (record { blind = h; edges = λ u v. refl })
    | inr (n, f) ↦ rw (update_local_coverage, f) (record { blind = h; edges = λ u v. refl })
  ]

  vertex_same :
      (k : Knowledge B G V) (e : ℕ)
      → k.blind ≡ true
      → SameEdges k (add_vertex blocks graph vertices floats k e).1
  unfolding add_vertex
  vertex_same k e h = elim (Bool-cases (vertices.has k.vertex_cache e)) [
    | inl f ↦ rw (add_vertex, f) (record { blind = h; edges = λ u v. refl })
    | inr f ↦ elim (Option-cases (find_vertex graph k.graph e 0 (graph.num_vertices k.graph))) [
      | inl g ↦ rw (add_vertex, f, g) (record { blind = h; edges = λ u v. bare k.graph e u v })
      | inr (t, g) ↦ rw (add_vertex, f, g) (record { blind = h; edges = λ u v. refl })
    ]
  ]

  mocked_same :
      (k : Knowledge B G V) (e : ℕ) → k.blind ≡ true → SameEdges k (compute_mocked_score k e).1
  unfolding compute_mocked_score
  mocked_same k e h = elim (Option-cases (lookup e k.mocked_scores)) [
    | inr (t, f) ↦ rw (compute_mocked_score, f) (record { blind = h; edges = λ u v. refl })
    | inl f ↦ elim (Bool-cases (ltb 0 (next_number k.random 30).0)) [
      | inl g ↦ rw (compute_mocked_score, f, g) (record { blind = h; edges = λ u v. refl })
      | inr g ↦ rw (compute_mocked_score, f, g) (record { blind = h; edges = λ u v. refl })
    ]
  ]

  blind_goal :
      (k : Knowledge B G V) (e : ℕ)
      → k.blind ≡ true
      → compute_goal_score k e ≡ compute_mocked_score k e
  unfolding compute_goal_score
  blind_goal k e h = ap (λ b. if b then compute_mocked_score k e else stored_goal_score k e) h

  goals_same :
      (k : Knowledge B G V) (e i : ℕ) → k.blind ≡ true → SameEdges k (lookup_goals floats k e i)
  unfolding lookup_goals update_goal_score
  goals_same k e i h =
      let same = mocked_same k e h in
      elim (Bool-cases (ltb 0 (score_norm floats (compute_mocked_score k e).0))) [
        | inl f ↦ rw (blind_goal k e h, f) (record { blind = same.blind; edges = same.edges })
        | inr f ↦ rw (blind_goal k e h, f) (record { blind = same.blind; edges = same.edges })
      ]

  coverage_same :
      (k : Knowledge B G V) (i a d : ℕ) (initialize : Bool)
      → k.blind ≡ true
      → SameEdges k (update_coverage_score k i a d initialize)
  unfolding update_coverage_score
  coverage_same k i a d initialize h = record { blind = h; edges = λ u v. refl }

  goal_same :
      (k : Knowledge B G V) (i a d : ℕ) (initialize : Bool)
      → k.blind ≡ true
      → SameEdges k (update_goal_score k i a d initialize)
  unfolding update_goal_score
  goal_same k i a d initialize h = record { blind = h; edges = λ u v. refl }

  edge_same :
      (k : Knowledge B G V) (s d i : ℕ)
      → k.blind ≡ true
      → SameEdges k (add_edge blocks graph vertices floats k s d i true)
  unfolding add_edge lookup_goals
  edge_same k s d i h =
      let k1 = (add_vertex blocks graph vertices floats k s).1 in
      let k2 = (add_vertex blocks graph vertices floats k1 d).1 in
      let a = vertex_same k s h in
      let b = vertex_same k1 d a.blind in
      let c = local_same k2 s b.blind in
      let e = local_same (update_local_coverage k2 s) d c.blind in
      let k3 = update_local_coverage (update_local_coverage k2 s) d in
      let all = SameEdges-trans (SameEdges-trans (SameEdges-trans a b) c) e in
      let known = coverage_same k3 i 1 0 false e.blind in
      let new = coverage_same k3 i 2 1 false e.blind in
      elim (Bool-cases (
        graph.has_edge k3.graph (add_vertex blocks graph vertices floats k s).0
          (add_vertex blocks graph vertices floats k1 d).0)) [
            | inl f ↦ rw f (
                SameEdges-trans (SameEdges-trans all known)
                  (goals_same (update_coverage_score k3 i 1 0 false) d i known.blind))
            | inr f ↦ rw f (
                SameEdges-trans (SameEdges-trans all new)
                  (goals_same (update_coverage_score k3 i 2 1 false) d i new.blind))
          ]

  function_same :
      (k : Knowledge B G V) (i f : ℕ)
      → k.blind ≡ true
      → SameEdges k (visit_function blocks graph vertices floats k i f)
  unfolding visit_function update_coverage_score
  function_same k i f h =
      let a = local_same k f h in
      elim (Bool-cases (contains f (update_local_coverage k f).reached_functions)) [
        | inl e ↦ rw e (record { blind = a.blind; edges = a.edges })
        | inr e ↦ rw e (record { blind = a.blind; edges = a.edges })
      ]

  element_same :
      (k : Knowledge B G V) (i : ℕ) (e : TraceElement) (l : Option (List ℕ))
      → k.blind ≡ true
      → Returns {A = Option (List ℕ) × Knowledge B G V}
          (λ r. SameEdges k r.1)
          (add_trace_element blocks graph vertices floats k i e true l)
  unfolding add_trace_element
  element_same k i e l h =
      let blind = λ (b : ℕ). blind_block blocks graph vertices floats k e.func_id b h in
      elim (Bool-cases (e.cur_block_id == 0)) [
        | inr f ↦
            rw (f, blind e.pred_block_id, blind e.cur_block_id)
              (returns _ (
                edge_same k (paired e.func_id e.pred_block_id) (paired e.func_id e.cur_block_id) i
                  h))
        | inl f ↦ elim (Bool-cases (e.func_id == 0)) [
          | inl g ↦ rw (f, g) (returns _ (record { blind = h; edges = λ u v. refl }))
          | inr g ↦ rw (f, g) (returns _ (function_same k i e.func_id h))
        ]
      ]

  elements_same :
      (es : List TraceElement) (k : Knowledge B G V) (i : ℕ) (l : Option (List ℕ))
      → k.blind ≡ true
      → Returns {A = Option (List ℕ) × Knowledge B G V}
          (λ r. SameEdges k r.1)
          (add_trace_elements blocks graph vertices floats k i es true l)
  unfolding add_trace_elements
  elements_same [] k i l h = returns _ (record { blind = h; edges = λ u v. refl })
  elements_same (e ∷ es) k i l h =
      >>=-Returns _ (element_same k i e l h)
        λ r s. Returns-mono (λ r' s'. SameEdges-trans s s') (elements_same es r.1 i r.0 s.blind)

  -- Without a store, evaluating a trace does not fault, and adds no edge to the graph.
  pub evaluate_trace-SameEdges :
      (unset : ℕ) (k : Knowledge B G V) (i : ℕ) (es : List TraceElement)
      → k.blind ≡ true
      → Returns {A = (List ℕ × Measure) × Knowledge B G V}
          (λ r. SameEdges k r.1)
          (evaluate_trace blocks graph vertices floats unset k i es)
  unfolding evaluate_trace
  evaluate_trace-SameEdges unset k i es h =
      let a = coverage_same k i 0 0 true h in
      let b = goal_same (update_coverage_score k i 0 0 true) i 0 0 true a.blind in
      >>=-Returns _
        (elements_same es (update_goal_score (update_coverage_score k i 0 0 true) i 0 0 true) i
          (some []) b.blind)
        λ r s. returns _ (SameEdges-trans (SameEdges-trans a b) s)
