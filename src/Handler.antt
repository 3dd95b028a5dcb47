-- ===== src/Handler.antt =====
-- The loop of the fuzzer (fuzzer/fuzzer/handler.h and handler.cpp): the main thread starts the
-- target on every individual of a generation, `FuzzerProcessMonitor` queues the test cases whose
-- process has ended, and `FuzzerTraceRetriever` takes up their traces. A round of a thread is one
-- step; `Handler.Steps` interleaves them. Logging, waiting and the user interface are left out.
pub mod Steps
pub mod Accounts
pub mod Launching
pub mod Invariant
pub mod Completion
pub mod Progress
use fuzzer_goal_directed.Prelude.{
  ℕ, suc, ◌-◌, Bool, true, false, not, ◌&&◌, Option, none, some, List, [], ◌∷◌, ◌++◌, ltb,
  if◌then◌else◌, add64, sub64, length,
}
use fuzzer_goal_directed.Result.{Result, ok, ◌>>=◌}
use fuzzer_goal_directed.Random.{insert_sorted}
use fuzzer_goal_directed.Individual.{Individual}
use fuzzer_goal_directed.Trace.{Container, get_trace}
use fuzzer_goal_directed.Coverage.{CacheOps, GraphOps, Knowledge, reset_scores}
use fuzzer_goal_directed.Coverage.Trace.{add_trace}
use fuzzer_goal_directed.Measure.{Floats}
use fuzzer_goal_directed.Processes.{ProcessStatus, timedout, empty, get_terminated_processes}
use fuzzer_goal_directed.Commander.{
  Commander, Launched, call, get_testcase_id, processed_pid, clear_commander,
}

-- `FuzzerProcessMonitor`
pub record Monitor : Type 0 where
  pub sent_ids : List ℕ  -- `all_processed`
  pub all_sent : Bool
  pub all_received : Bool

-- `FuzzerTraceRetriever`
pub record Retriever : Type 0 where
  pub processed_testcases : ℕ
  pub all_processed : List ℕ
  pub received_ids : List ℕ  -- `all_received`
  pub all_sent : Bool
  pub all_received : Bool

-- `FuzzerHandler`, with the locals of `single_threaded_loop`.
pub record Handler (B G V : Type 0) : Type 0 where
  pub commander : Commander
  pub container : Container
  pub knowledge : Knowledge B G V
  pub monitor : Monitor
  pub retriever : Retriever
  pub available_testcases : List ℕ
  pub timedout_testcases : List ℕ
  pub max_num_testcases : ℕ
  pub current_testcase_id : ℕ
  pub generated_testcases : ℕ
  pub current_testcase_ids : List ℕ
  pub to_process : ℕ

-- `clear` of the monitor and of the retriever.
abbrev pub cleared_monitor : Monitor
cleared_monitor = record { sent_ids = []; all_sent = false; all_received = false }

abbrev pub cleared_retriever : Retriever
cleared_retriever = record {
  processed_testcases = 0;
  all_processed = [];
  received_ids = [];
  all_sent = false;
  all_received = false;
}

module _ {B G V : Type 0} where
  unfoldable pub has_more_cases : Handler B G V → Bool
  has_more_cases h = ltb h.generated_testcases h.max_num_testcases

  -- What precedes the loop over the individuals, of which there are `size`.
  unfoldable pub begin_generation : Handler B G V → ℕ → Handler B G V
  begin_generation h size = record h {
    knowledge = reset_scores h.knowledge;
    commander = clear_commander h.commander;
    monitor = cleared_monitor;
    retriever = cleared_retriever;
    to_process = size;
    current_testcase_ids = [];
  }

  -- The body of the loop over the individuals, once there is room for a process.
  unfoldable pub launch : Handler B G V → Individual → ℕ → Launched → Individual × Handler B G V
  launch h i timer outcome =
      let testcase_id = add64 h.current_testcase_id 1 in
      let i' = if ltb i.id 1 then record i { id = testcase_id } else i in
      let (called, c) = call h.commander timer testcase_id outcome in
      let counted = record h {
        commander = c;
        current_testcase_id = testcase_id;
        generated_testcases = add64 h.generated_testcases 1;
      } in
      if called
      then (
        i',
        record counted { current_testcase_ids = insert_sorted testcase_id h.current_testcase_ids },
      )
      else (i', record counted { to_process = sub64 h.to_process 1 })

  -- The loop of `FuzzerProcessMonitor` over the processes that have ended.
  unfoldable pub deliver_one : Handler B G V → ℕ × ProcessStatus → Handler B G V
  deliver_one h (pid, status) =
      let testcase_id = get_testcase_id h.commander pid in
      let delivered = record h {
        commander = processed_pid h.commander pid;
        monitor = record (h.monitor) { sent_ids = insert_sorted testcase_id h.monitor.sent_ids };
      } in
      let late = record delivered {
        timedout_testcases = h.timedout_testcases ++ (testcase_id ∷ []);
      } in
      let ended = record delivered {
        available_testcases = h.available_testcases ++ (testcase_id ∷ []);
      } in
      if ltb testcase_id 1 then h else elim status [ timedout ↦ late | _ ↦ ended ]

  unfoldable pub deliver_each : Handler B G V → List (ℕ × ProcessStatus) → Handler B G V
  unfolding deliver_one
  deliver_each h [] = h
  deliver_each h (e ∷ rest) = deliver_each (deliver_one h e) rest

  -- A round of `FuzzerProcessMonitor`.
  unfoldable pub monitor_round : Handler B G V → Handler B G V
  unfolding deliver_each
  monitor_round h =
      let m = h.monitor in
      let idle =
        if m.all_received && not m.all_sent
        then record h { monitor = record m { all_sent = true } }
        else h in
      let (ended, processes) = get_terminated_processes h.commander.child_processes in
      let collected = record h {
        commander = record (h.commander) { child_processes = processes };
      } in
      if empty h.commander.child_processes then idle else deliver_each collected ended

  -- `++processed_testcases` and `all_processed.insert`
  abbrev pub counted : Handler B G V → ℕ → Handler B G V
  counted h testcase_id = record h {
    retriever = record (h.retriever) {
      processed_testcases = suc h.retriever.processed_testcases;
      all_processed = insert_sorted testcase_id h.retriever.all_processed;
    };
  }

  abbrev pub received : Handler B G V → ℕ → Handler B G V
  received h testcase_id = record h {
    retriever = record (h.retriever) {
      received_ids = insert_sorted testcase_id h.retriever.received_ids;
    };
  }

  -- The second half of a round of `FuzzerTraceRetriever`.
  unfoldable pub take_timedout : Handler B G V → Handler B G V
  take_timedout h = elim h.timedout_testcases [
    | [] ↦ h
    | testcase_id ∷ rest ↦
        counted (received (record h { timedout_testcases = rest }) testcase_id) testcase_id
  ]

  module _ {W : Type 0} (blocks : CacheOps (ℕ × ℕ) B) (graph : GraphOps G) (vertices : CacheOps ℕ V)
      (floats : Floats W) where
    -- `FuzzerTraceRetriever::process`. What can go wrong in `add_trace` is not an exception that the
    -- handler there would catch.
    unfoldable pub process : Handler B G V → ℕ → Result (Handler B G V)
    process h testcase_id =
        let absent : Result (Handler B G V) = ok h in
        if ltb testcase_id 1 then absent else elim (get_trace h.container testcase_id) [
          | none ↦ absent
          | some trace ↦ do
            k ← add_trace blocks graph vertices floats h.knowledge testcase_id trace
            ok (counted (record h { knowledge = k }) testcase_id)
        ]

    -- The first half of a round of `FuzzerTraceRetriever`.
    unfoldable pub take_available : Handler B G V → Result (Handler B G V)
    unfolding process
    take_available h = elim h.available_testcases [
      | [] ↦ ok h
      | testcase_id ∷ rest ↦
          process (received (record h { available_testcases = rest }) testcase_id) testcase_id
    ]

    unfoldable pub retriever_round : Handler B G V → Result (Handler B G V)
    unfolding take_available take_timedout
    retriever_round h = do h1 ← take_available h; ok (take_timedout h1)
