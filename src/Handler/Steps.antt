-- ===== src/Handler/Steps.antt =====
-- The threads of the fuzzer interleaved (fuzzer/fuzzer/handler.cpp: `single_threaded_loop`,
-- `FuzzerProcessMonitor`, `FuzzerTraceRetriever`; commander.cpp: `TimeoutWatcher`). The target writes
-- to the container of traces at any time.
use fuzzer_goal_directed.Prelude.{ℕ, ◌+◌, ◌≤◌, ◌<◌, ◌≡◌, true, none, List, [], ◌∷◌, length, u64_mod}
use fuzzer_goal_directed.Result.{ok}
use fuzzer_goal_directed.OrderedMap.{lookup}
use fuzzer_goal_directed.Individual.{Individual}
use fuzzer_goal_directed.Trace.{Container}
use fuzzer_goal_directed.Coverage.{CacheOps, GraphOps}
use fuzzer_goal_directed.Measure.{Floats}
use fuzzer_goal_directed.Processes.{Waited, watch}
use fuzzer_goal_directed.Commander.{Launched, started}
use fuzzer_goal_directed.Handler.{Handler, begin_generation, launch, monitor_round, retriever_round}

-- Where the main thread is in a generation: at the individuals that are left, at the wait for
-- `all_testscases_sent`, at the wait for the traces, or behind it.
pub data Stage : Type 0 where
  launching : List Individual → Stage
  sending completing completed : Stage

module _ {B G V : Type 0} where
  -- What is assumed of the numbers of processes: one that is started stands in none of the tables, so
  -- the number of a process that ended is not given out again before the monitor has removed it.
  abbrev pub Unused : Handler B G V → Launched → Type 0
  Unused h outcome =
      (pid : ℕ)
      → outcome ≡ started pid
      → (lookup pid h.commander.testcase_pids ≡ none)
        × (lookup pid h.commander.child_processes.pid_statuses ≡ none)

module _ {B G V W : Type 0} (blocks : CacheOps (ℕ × ℕ) B) (graph : GraphOps G)
    (vertices : CacheOps ℕ V) (floats : Floats W) where
  abbrev pub System : Type 0
  System = Stage × Handler B G V

  abbrev pub announced : Handler B G V → Handler B G V
  announced h = record h { monitor = record (h.monitor) { all_received = true } }

  abbrev pub traces_awaited : Handler B G V → Handler B G V
  traces_awaited h = record h { retriever = record (h.retriever) { all_received = true } }

  pub data Step : System → System → Type 0 where
    -- The main thread.
    launches :
        (h : Handler B G V) (i : Individual) (rest : List Individual) (timer : ℕ)
        (outcome : Launched)
        → h.current_testcase_id + 1 < u64_mod
        → Unused h outcome
        → Step (launching (i ∷ rest), h) (launching rest, (launch h i timer outcome).1)
    announces : (h : Handler B G V) → Step (launching [], h) (sending, announced h)
    sees_all_sent :
        (h : Handler B G V)
        → h.monitor.all_sent ≡ true
        → Step (sending, h) (completing, traces_awaited h)
    sees_all_processed :
        (h : Handler B G V)
        → h.to_process ≤ h.retriever.processed_testcases
        → Step (completing, h) (completed, h)
    -- The other threads and the target.
    watches :
        (s : Stage) (h : Handler B G V) (elapsed : ℕ → ℕ) (waitpid : ℕ → Waited)
        → Step
            (s, h)
            (
              s,
              record h {
                commander = record (h.commander) {
                  child_processes = (watch elapsed waitpid h.commander.child_processes).0;
                };
              },
            )
    monitors : (s : Stage) (h : Handler B G V) → Step (s, h) (s, monitor_round h)
    retrieves :
        (s : Stage) (h h' : Handler B G V)
        → retriever_round blocks graph vertices floats h ≡ ok h'
        → Step (s, h) (s, h')
    writes :
        (s : Stage) (h : Handler B G V) (c : Container)
        → Step (s, h) (s, record h { container = c })

  pub data Reach (s : System) : System → Type 0 where
    here : Reach s s
    next : {t u : System} → Reach s t → Step t u → Reach s u

  -- The generation of the individuals `is`, from its start on.
  abbrev pub generation : Handler B G V → List Individual → System
  generation h is = (launching is, begin_generation h (length is))
