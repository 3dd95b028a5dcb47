-- ===== src/Tests/Coverage.antt =====
-- The store, the traces, the runtime, the measures and the coverage at concrete states.
use fuzzer_goal_directed.Prelude.{
  ℕ, zero, suc, ◌+◌, ◌*◌, ◌≡◌, refl, Bool, true, false, Option, none, some, List, [], ◌∷◌, ◌++◌,
  arith, ltb, ◌==◌, length, ◌&&◌, ◌||◌,
}
use fuzzer_goal_directed.OrderedMap.{lookup}
use fuzzer_goal_directed.Result.{Returns, ◌>>=◌}
use fuzzer_goal_directed.Store.{
  empty_store, find_source, element_at, create_element, Element, Leftover, other, ty_unknown,
  e_block,
}
use fuzzer_goal_directed.Store.Laws.{Numbered, element_at_lem}
use fuzzer_goal_directed.Trace.{TraceElement, trace_element, e_true_branch, e_terminated}
use fuzzer_goal_directed.Runtime.{start, run, terminated, enter, reach, exit, Runtime}
use fuzzer_goal_directed.Runtime.Laws.{whole_run_lem, Delivered, recorded_all}
use fuzzer_goal_directed.Measure.{
  zero_score, Measure, Floats, measure_lt, measure_gt, measure_eq, score_eq, score_norm,
}
use fuzzer_goal_directed.Measure.Laws.{IsOrdered, measure_gt-both}
use fuzzer_goal_directed.Coverage.{CacheOps, GraphOps, Knowledge}
use fuzzer_goal_directed.Coverage.Trace.{evaluate_trace}
use fuzzer_goal_directed.Coverage.Mocked.{VertexAddsNoEdge, SameEdges, evaluate_trace-SameEdges}
use fuzzer_goal_directed.Tests.{counter}

empty_store-Numbered : Numbered empty_store
unfolding find_source
empty_store-Numbered = record { known = λ n i e. cc; distinct = λ n k i e f. cc }

abbrev garbage : Leftover
garbage = record { num_formals = 7; internal_block_id = 7; op = other 7; type_kind = ty_unknown }

abbrev some_block : Option Element
some_block = create_element garbage e_block 4 2

element_at_example :
    lookup 5 (element_at empty_store 5).1.elements ≡ some (element_at empty_store 5).0
element_at_example = element_at_lem empty_store 5 5

abbrev pub branch : TraceElement
branch = trace_element e_true_branch 1 2 3 4

abbrev three : ℕ
three = 3

whole_run_example :
    Returns
      (Delivered (some 8) [] (
        recorded_all 1 (enter 2 ∷ reach 2 0 1 ∷ exit 2 ∷ [])
        ++ (trace_element e_terminated 0 0 0 0 ∷ [])))
      (run 1 (start (some 8) []) (enter 2 ∷ reach 2 0 1 ∷ exit 2 ∷ []) >>= terminated)
whole_run_example = whole_run_lem (some 8) [] 1 2 (reach 2 0 1 ∷ exit 2 ∷ [])

abbrev running : Runtime
running = record (start none []) { writer = true; shared_memory_initialized = true }

abbrev pub sums : Floats ℕ
sums = record {
  scaled_root = λ a d. a + d;
  weighted = λ x y. 3 * x + 7 * y;
  same = λ x y. x == y;
  less = λ x y. ltb x y;
}

pub sums-IsOrdered : IsOrdered sums
sums-IsOrdered = record {
  same-refl = λ x. ground arith;
  same-sym = λ x y. ground arith;
  same-trans = λ x y z h k. ground arith;
  less-same = λ x y z h k. ground arith;
  same-less = λ x y z h k. ground arith;
  less-trans = λ x y z h k. ground arith;
  less-distinct = λ x y h. ground arith;
}

abbrev pub scored : ℕ → ℕ → Measure
scored a l = record { goal = record { absolute = a; diff = 0 }; edge = zero_score; length = l }

-- The same weight by 7 goals or by 3 edges: 3 * 7 ≡ 7 * 3.
abbrev by_edges : Measure
by_edges = record { goal = zero_score; edge = record { absolute = 7; diff = 0 }; length = 5 }

measure_gt-both_example :
    (measure_gt sums (scored 3 5) by_edges ≡ true)
    × (measure_gt sums by_edges (scored 3 5) ≡ true)
    × (measure_lt sums (scored 3 5) by_edges ≡ false)
    × (measure_lt sums by_edges (scored 3 5) ≡ false)
unfolding score_norm measure_eq score_eq
measure_gt-both_example = measure_gt-both sums sums-IsOrdered (scored 3 5) by_edges refl refl refl

abbrev pub no_cache : {K : Type 0} → CacheOps K (Unit {0})
no_cache = record { has = λ c k. false; copy_get = λ c k. (0, c); put = λ c k v. c }

-- The elements of the vertices, and the edges.
abbrev pub Lists : Type 0
Lists = List ℕ × List (ℕ × ℕ)

abbrev linked : List (ℕ × ℕ) → ℕ → ℕ → Bool
linked [] u v = false
linked ((s, t) ∷ rest) u v = s == u && t == v || linked rest u v

abbrev nth : List ℕ → ℕ → ℕ
nth [] v = 0
nth (x ∷ xs) zero = x
nth (x ∷ xs) (suc v) = nth xs v

abbrev pub list_graph : GraphOps Lists
list_graph = record {
  num_vertices = λ g. length g.0;
  element = λ g v. nth g.0 v;
  add_vertex = λ g e. (length g.0, (g.0 ++ (e ∷ []), g.1));
  has_edge = λ g u v. linked g.1 u v;
  add_edge = λ g u v. (g.0, (u, v) ∷ g.1);
}

list_graph-VertexAddsNoEdge : VertexAddsNoEdge list_graph
list_graph-VertexAddsNoEdge g e u v = refl

abbrev pub mocked : Knowledge (Unit {0}) Lists (Unit {0})
mocked = record {
  blind = true;
  store = empty_store;
  block_cache = tt;
  random = counter 1;
  reached_functions = [];
  covered_goals = [];
  local_coverage = (12, 5) ∷ [];
  coverage_scores = [];
  goal_scores = [];
  mocked_scores = [];
  graph = ([], []);
  vertex_cache = tt;
}

evaluate_trace_example :
    Returns {A = (List ℕ × Measure) × Knowledge (Unit {0}) Lists (Unit {0})}
      (λ r. SameEdges no_cache list_graph no_cache sums list_graph-VertexAddsNoEdge mocked r.1)
      (evaluate_trace no_cache list_graph no_cache sums 0 mocked 1 (branch ∷ branch ∷ []))
evaluate_trace_example =
    evaluate_trace-SameEdges no_cache list_graph no_cache sums list_graph-VertexAddsNoEdge 0 mocked
      1 (branch ∷ branch ∷ []) refl
