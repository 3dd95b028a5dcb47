-- ===== src/Handler/Progress.antt =====
-- The retriever empties its queues when the traces are there (fuzzer/fuzzer/handler.cpp:
-- `FuzzerTraceRetriever`).
use fuzzer_goal_directed.Prelude.{ℕ, ◌+◌, ◌<◌, ◌≡◌, some, List, [], ◌∷◌}
use fuzzer_goal_directed.Result.{Returns}
use fuzzer_goal_directed.Measure.{Floats}
use fuzzer_goal_directed.Trace.{Container, TraceElement, get_trace}
use fuzzer_goal_directed.Coverage.{CacheOps, GraphOps, Knowledge}
use fuzzer_goal_directed.Coverage.Trace.{add_trace}
use fuzzer_goal_directed.Handler.{Handler}

-- Each test case of the queue is valid and has a trace in the container.
abbrev pub AllTraced : Container → List ℕ → Type 0
AllTraced c [] = Unit {0}
AllTraced c (i ∷ rest) =
    (0 < i) × ((trace : List TraceElement) × (get_trace c i ≡ some trace)) × AllTraced c rest

abbrev pub tail : List ℕ → List ℕ
tail [] = []
tail (x ∷ xs) = xs

module _ {B G V W : Type 0} (blocks : CacheOps (ℕ × ℕ) B) (graph : GraphOps G)
    (vertices : CacheOps ℕ V) (floats : Floats W) (P : Knowledge B G V → Type 0)
    (adds : (k : Knowledge B G V) (i : ℕ) (trace : List TraceElement)
      → P k
      → Returns P (add_trace blocks graph vertices floats k i trace)) where
  -- What a round leaves of the queues.
  pub record Taken (h h' : Handler B G V) (ready late : List ℕ) (number : ℕ) : Type 0 where
    pub available : h'.available_testcases ≡ ready
    pub timedout : h'.timedout_testcases ≡ late
    pub processed : h'.retriever.processed_testcases ≡ h.retriever.processed_testcases + number
    pub container : h'.container ≡ h.container
    pub commander : h'.commander ≡ h.commander
    pub to_process : h'.to_process ≡ h.to_process
    pub knows : P h'.knowledge
