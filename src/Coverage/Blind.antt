-- ===== src/Coverage/Blind.antt =====
-- Adding a trace without a store (fuzzer/fuzzer/knowledge.cpp: `add_trace`).
use fuzzer_goal_directed.Prelude.{
  ℕ, ◌≡◌, refl, ◌∙◌, Bool, true, false, Option, none, List, [], ◌∷◌, arith, ◌==◌, if◌then◌else◌,
  Bool-cases, inl, inr,
}
use fuzzer_goal_directed.Result.{ok, Returns, returns, >>=-Returns}
use fuzzer_goal_directed.Trace.{TraceElement}
use fuzzer_goal_directed.Measure.{Floats}
use fuzzer_goal_directed.Coverage.{
  CacheOps, GraphOps, Knowledge, paired, update_coverage_score, update_goal_score,
  update_local_coverage, lookup_goals, compute_goal_score, compute_mocked_score, stored_goal_score,
}
use fuzzer_goal_directed.Coverage.Trace.{
  get_block_element, add_vertex, add_edge, visit_function, add_trace_element, add_trace_elements,
  add_trace,
}

module _ {B G V : Type 0} where
  local-blind : (k : Knowledge B G V) (e : ℕ) → (update_local_coverage k e).blind ≡ k.blind
  unfolding update_local_coverage
  local-blind k e = ground arith

  goal-blind : (k : Knowledge B G V) (e : ℕ) → (compute_goal_score k e).1.blind ≡ k.blind
  unfolding compute_goal_score compute_mocked_score stored_goal_score
  goal-blind k e = ground arith

module _ {B G V W : Type 0} (blocks : CacheOps (ℕ × ℕ) B) (graph : GraphOps G)
    (vertices : CacheOps ℕ V) (floats : Floats W) where
  goals-blind : (k : Knowledge B G V) (e i : ℕ) → (lookup_goals floats k e i).blind ≡ k.blind
  unfolding lookup_goals update_goal_score
  goals-blind k e i = ground (arith, goal-blind k e)

  vertex-blind :
      (k : Knowledge B G V) (e : ℕ)
      → (add_vertex blocks graph vertices floats k e).1.blind ≡ k.blind
  unfolding add_vertex
  vertex-blind k e = ground arith

  chosen_blind :
      (k : Knowledge B G V) (known : Bool) (i : ℕ) (mock : Bool) (g : G)
      → (if known
          then update_coverage_score k i 1 0 false
          else let new = update_coverage_score k i 2 1 false in
            if mock then new else record new { graph = g }).blind
        ≡ k.blind
  unfolding update_coverage_score
  chosen_blind k true i mock g = refl
  chosen_blind k false i true g = refl
  chosen_blind k false i false g = refl

  edge-blind :
      (k : Knowledge B G V) (s d i : ℕ) (mock : Bool)
      → (add_edge blocks graph vertices floats k s d i mock).blind ≡ k.blind
  unfolding add_edge
  edge-blind k s d i mock =
      let k1 = (add_vertex blocks graph vertices floats k s).1 in
      let k2 = (add_vertex blocks graph vertices floats k1 d).1 in
      let k3 = update_local_coverage (update_local_coverage k2 s) d in
      let all =
        local-blind (update_local_coverage k2 s) d
        ∙ local-blind k2 s
        ∙ vertex-blind k1 d
        ∙ vertex-blind k s in
      goals-blind _ d i
      ∙ chosen_blind k3
          (graph.has_edge k3.graph (add_vertex blocks graph vertices floats k s).0
            (add_vertex blocks graph vertices floats k1 d).0)
          i mock _
      ∙ all

  function-blind :
      (k : Knowledge B G V) (i f : ℕ)
      → (visit_function blocks graph vertices floats k i f).blind ≡ k.blind
  unfolding visit_function update_coverage_score
  function-blind k i f = ground (arith, local-blind k f)

  pub blind_block :
      (k : Knowledge B G V) (f b : ℕ)
      → k.blind ≡ true
      → get_block_element blocks graph vertices floats k f b ≡ ok (paired f b, k)
  unfolding get_block_element
  blind_block k f b h = rw h

  element-blind :
      (k : Knowledge B G V) (i : ℕ) (e : TraceElement) (mock : Bool) (l : Option (List ℕ))
      → k.blind ≡ true
      → Returns {A = Option (List ℕ) × Knowledge B G V}
          (λ r. r.1.blind ≡ true)
          (add_trace_element blocks graph vertices floats k i e mock l)
  unfolding add_trace_element
  element-blind k i e mock l h = elim (Bool-cases (e.cur_block_id == 0)) [
    | inr f ↦
        rw (f, blind_block k e.func_id e.pred_block_id h, blind_block k e.func_id e.cur_block_id h)
          (returns _ (
            edge-blind k (paired e.func_id e.pred_block_id) (paired e.func_id e.cur_block_id) i mock
            ∙ h))
    | inl f ↦ elim (Bool-cases (e.func_id == 0)) [
      | inl g ↦ rw (f, g) (returns _ h)
      | inr g ↦ rw (f, g) (returns _ (function-blind k i e.func_id ∙ h))
    ]
  ]

  elements-blind :
      (es : List TraceElement) (k : Knowledge B G V) (i : ℕ) (mock : Bool) (l : Option (List ℕ))
      → k.blind ≡ true
      → Returns {A = Option (List ℕ) × Knowledge B G V}
          (λ r. r.1.blind ≡ true)
          (add_trace_elements blocks graph vertices floats k i es mock l)
  unfolding add_trace_elements
  elements-blind [] k i mock l h = returns _ h
  elements-blind (e ∷ es) k i mock l h =
      >>=-Returns _ (element-blind k i e mock l h) λ r s. elements-blind es r.1 i mock r.0 s

  -- Without a store, adding a trace does not fault, and the fuzzer stays without one.
  pub add_trace-blind :
      (k : Knowledge B G V) (i : ℕ) (trace : List TraceElement)
      → k.blind ≡ true
      → Returns (λ k'. k'.blind ≡ true) (add_trace blocks graph vertices floats k i trace)
  unfolding add_trace
  add_trace-blind k i trace h =
      >>=-Returns _ (elements-blind trace k i false none h) λ r s. returns _ s
