-- ===== src/Handler/Completion.antt =====
-- When the main thread passes its wait for the traces (fuzzer/fuzzer/handler.cpp:
-- `single_threaded_loop`).
use fuzzer_goal_directed.Prelude.{
  ℕ, ◌+◌, ◌≤◌, ◌<◌, ◌≡◌, refl, ap, subst, sym, ◌∙◌, none, List, [], ◌∷◌, arith, length, u64_mod,
}
use fuzzer_goal_directed.Result.{ok, ok-injective, ◌>>=◌}
use fuzzer_goal_directed.OrderedMap.{lookup}
use fuzzer_goal_directed.Individual.{Individual}
use fuzzer_goal_directed.Measure.{Floats}
use fuzzer_goal_directed.Trace.{get_trace}
use fuzzer_goal_directed.Coverage.{CacheOps, GraphOps}
use fuzzer_goal_directed.Processes.Laws.{IsTable, is_some}
use fuzzer_goal_directed.Processes.Collect.{entry-clear, clear-IsTable}
use fuzzer_goal_directed.Handler.{
  Handler, begin_generation, process, take_available, take_timedout, retriever_round, received,
}
use fuzzer_goal_directed.Commander.{clear_commander}
use fuzzer_goal_directed.Handler.Steps.{Stage, completing, Reach, here, next, generation}
use fuzzer_goal_directed.Handler.Accounts.{pending}
use fuzzer_goal_directed.Handler.Launching.{IsAccounted}
use fuzzer_goal_directed.Handler.Invariant.{take_timedout-Retrieved, Step-IsAccounted}

length-nil : {A : Type 0} (xs : List A) → length xs ≡ 0 → xs ≡ []
length-nil [] h = refl
length-nil (x ∷ xs) h = absurd (omega (arith, h))

no_entry : (q : ℕ) (m : List (ℕ × ℕ)) → m ≡ [] → lookup q m ≡ none
unfolding lookup
no_entry q m e = rw e refl

module _ {B G V : Type 0} where
  -- No test case is with a process or in a queue.
  pub record IsSettled (h : Handler B G V) : Type 0 where
    pub table : IsTable h.commander.child_processes
    pub pids : h.commander.testcase_pids ≡ []
    pub available : h.available_testcases ≡ []
    pub timedout : h.timedout_testcases ≡ []

  module _ {W : Type 0} (blocks : CacheOps (ℕ × ℕ) B) (graph : GraphOps G) (vertices : CacheOps ℕ V)
      (floats : Floats W) where
    begin_generation-IsAccounted :
        (h : Handler B G V) (is : List Individual)
        → length is < u64_mod
        → IsSettled h
        → IsAccounted 0 (generation blocks graph vertices floats h is)
    unfolding begin_generation clear_commander
    begin_generation-IsAccounted h is small s = record {
      paired = record {
        table = clear-IsTable h.commander.child_processes s.table;
        pids = λ q.
            ap is_some (no_entry q h.commander.testcase_pids s.pids)
            ∙ sym (ap (λ e. is_some e.status) (entry-clear h.commander.child_processes q s.table));
        ids = λ pid i e. ground (arith, no_entry pid h.commander.testcase_pids s.pids, e);
      };
      owed = ground (arith, ap length s.pids, ap length s.available, ap length s.timedout);
      width = small;
    }

    Reach-IsAccounted :
        (lost : ℕ) {s t : Stage × Handler B G V}
        → IsAccounted lost s
        → Reach blocks graph vertices floats s t
        → IsAccounted lost t
    Reach-IsAccounted lost a here = a
    Reach-IsAccounted lost a (next r st) =
        Step-IsAccounted blocks graph vertices floats lost st (Reach-IsAccounted lost a r)

    module _ (h : Handler B G V) (is : List Individual) (small : length is < u64_mod)
        (s : IsSettled h) where
      -- However the threads interleave, the retriever never counts more test cases in a generation
      -- than there are to process, and those under way make up at most the difference.
      pub processed_testcases_le :
          (stage : Stage) (h' : Handler B G V)
          → Reach blocks graph vertices floats
              (generation blocks graph vertices floats h is)
              (stage, h')
          → pending h' + h'.retriever.processed_testcases ≤ h'.to_process
      processed_testcases_le stage h' r =
          let a = Reach-IsAccounted 0 (begin_generation-IsAccounted h is small s) r in
          omega (arith, a.owed)

      -- However the threads interleave, when the wait for the traces ends, as many test
      -- cases are counted as there are to process, no process is left, and both queues are empty; so the
      -- next generation starts as this one did.
      pub completing-IsSettled :
          (h' : Handler B G V)
          → Reach blocks graph vertices floats
              (generation blocks graph vertices floats h is)
              (completing, h')
          → h'.to_process ≤ h'.retriever.processed_testcases
          → IsSettled h'
            × (h'.retriever.processed_testcases ≡ h'.to_process)
            × ((pid : ℕ) → lookup pid h'.commander.child_processes.pid_statuses ≡ none)
      completing-IsSettled h' r done =
          let a = Reach-IsAccounted 0 (begin_generation-IsAccounted h is small s) r in
          let pids : h'.commander.testcase_pids ≡ [] = length-nil _ (omega (arith, a.owed)) in
          (
            record {
              table = a.paired.table;
              pids = pids;
              available = length-nil _ (omega (arith, a.owed));
              timedout = length-nil _ (omega (arith, a.owed));
            },
            omega (arith, a.owed),
            λ pid. ground (arith, a.paired.pids pid, no_entry pid h'.commander.testcase_pids pids),
          )

    module _ (stage : Stage) (h : Handler B G V) (i : ℕ) (rest : List ℕ)
        (queued : h.available_testcases ≡ i ∷ rest) (absent : get_trace h.container i ≡ none) where
      process_absent :
          (h' : Handler B G V)
          → get_trace h'.container i ≡ none
          → process blocks graph vertices floats h' i ≡ ok h'
      unfolding process
      process_absent h' e = ground (arith, e)

      round_absent :
          retriever_round blocks graph vertices floats h
          ≡ ok (take_timedout (received (record h { available_testcases = rest }) i))
      unfolding retriever_round take_available
      round_absent = rw (queued) (
          ap (λ m. m >>= λ h1. ok (take_timedout h1))
            (process_absent (received (record h { available_testcases = rest }) i) absent))

      lost-IsAccounted :
          IsAccounted 0 (stage, h)
          → IsAccounted 1
              (stage, take_timedout (received (record h { available_testcases = rest }) i))
      unfolding take_timedout
      lost-IsAccounted a =
          let r = take_timedout-Retrieved (received (record h { available_testcases = rest }) i) in
          record {
            paired = record {
              table = rw r.commander a.paired.table;
              pids = rw r.commander a.paired.pids;
              ids = rw r.commander a.paired.ids;
            };
            owed = omega (arith, a.owed, r.owed, ap length queued);
            width = omega (arith, a.width, r.to_process);
          }

      lost_trace-IsAccounted :
          IsAccounted 0 (stage, h)
          → (h' : Handler B G V) → retriever_round blocks graph vertices floats h ≡ ok h'
          → IsAccounted 1 (stage, h')
      lost_trace-IsAccounted a h' e =
          subst (λ x. IsAccounted 1 (stage, x)) (ok-injective (sym round_absent ∙ e))
            (lost-IsAccounted a)

    -- A test case whose trace is not in the container when the retriever takes it up is never counted:
    -- however the threads go on, the wait for the traces does not end.
    pub lost_trace :
        (h : Handler B G V) (is : List Individual)
        → length is < u64_mod
        → IsSettled h
        → (stage : Stage) (h1 h2 h3 : Handler B G V) (i : ℕ) (rest : List ℕ)
        → Reach blocks graph vertices floats
            (generation blocks graph vertices floats h is)
            (stage, h1)
        → h1.available_testcases ≡ i ∷ rest
        → get_trace h1.container i ≡ none
        → retriever_round blocks graph vertices floats h1 ≡ ok h2
        → Reach blocks graph vertices floats (stage, h2) (completing, h3)
        → h3.retriever.processed_testcases < h3.to_process
    lost_trace h is small s stage h1 h2 h3 i rest r queued absent e r' =
        let a = Reach-IsAccounted 0 (begin_generation-IsAccounted h is small s) r in
        let b = lost_trace-IsAccounted stage h1 i rest queued absent a h2 e in
        let c = Reach-IsAccounted 1 b r' in omega (arith, c.owed)
