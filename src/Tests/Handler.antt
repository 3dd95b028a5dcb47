-- ===== src/Tests/Handler.antt =====
-- The child processes and the loop of the fuzzer at concrete states.
use fuzzer_goal_directed.Prelude.{ℕ, ◌+◌, ◌≤◌, ◌<◌, ◌≡◌, refl, true, none, List, [], ◌∷◌, arith}
use fuzzer_goal_directed.Result.{Result, ok, fault}
use fuzzer_goal_directed.OrderedMap.{lookup, insert, assign, erase}
use fuzzer_goal_directed.Random.{insert_sorted}
use fuzzer_goal_directed.Memory.{contains}
use fuzzer_goal_directed.Individual.{Individual}
use fuzzer_goal_directed.Trace.{TraceElement, trace_element, e_terminated, get_trace}
use fuzzer_goal_directed.Coverage.Trace.{add_trace, add_trace_elements, add_trace_element}
use fuzzer_goal_directed.Processes.{
  ProcessStatuses, running, terminated, no_processes, insert_process, changed, nothing,
  get_terminated_processes, watch, get_pid_status, empty, gather_terminated, remove_each, remove,
  update, erase_pid, clear, watch_each, watch_one,
}
use fuzzer_goal_directed.Processes.Laws.{IsTable}
use fuzzer_goal_directed.Processes.Collect.{
  Collected, get_terminated_processes_lem, insert_process-IsTable, if_ended,
}
use fuzzer_goal_directed.Processes.Watch.{get_terminated_processes-watch, finding, revised}
use fuzzer_goal_directed.Commander.{started, call, clear_commander, get_testcase_id, processed_pid}
use fuzzer_goal_directed.Handler.{
  Handler, cleared_monitor, cleared_retriever, begin_generation, launch, monitor_round,
  retriever_round, deliver_each, deliver_one, take_available, take_timedout, process,
}
use fuzzer_goal_directed.Handler.Steps.{
  Stage, launching, sending, completing, Reach, here, next, generation, launches, announces,
  watches, monitors, writes, sees_all_sent, retrieves, announced, traces_awaited,
}
use fuzzer_goal_directed.Handler.Accounts.{pending}
use fuzzer_goal_directed.Handler.Completion.{
  IsSettled, processed_testcases_le, completing-IsSettled, lost_trace,
}
use fuzzer_goal_directed.Tests.Coverage.{no_cache, Lists, list_graph, mocked, sums}

no_processes-IsTable : (seconds : ℕ) → IsTable (no_processes seconds)
unfolding lookup contains
no_processes-IsTable seconds q = record { absent = λ e. (refl, refl); present = λ st e. cc }

-- Process 50 has ended and process 51 runs.
abbrev two_processes : ProcessStatuses
two_processes = insert_process (insert_process (no_processes 1) 7 50 terminated) 8 51 running

two_processes-IsTable : IsTable two_processes
unfolding insert_process lookup insert assign
two_processes-IsTable =
    insert_process-IsTable (insert_process (no_processes 1) 7 50 terminated) 8 51 running
      (insert_process-IsTable (no_processes 1) 7 50 terminated (no_processes-IsTable 1) refl) refl

get_terminated_processes_example :
    ((q : ℕ) → Collected two_processes (get_terminated_processes two_processes) q)
    × IsTable (get_terminated_processes two_processes).1
get_terminated_processes_example = get_terminated_processes_lem two_processes two_processes-IsTable

-- Every process runs, for longer than a second.
watch_example :
    lookup 51 (get_terminated_processes (watch (λ t. 2000000000) (λ p. nothing) two_processes).0).0
    ≡ if_ended (
        revised
          (finding
            (λ t. 2000000000)
            (λ p. nothing)
            1000000000
            51
            (lookup 51 two_processes.pid_timers))
          (lookup 51 two_processes.pid_statuses))
unfolding insert_process
watch_example =
    get_terminated_processes-watch (λ t. 2000000000) (λ p. nothing) two_processes
      two_processes-IsTable 51

abbrev Fuzzer : Type 0
Fuzzer = Handler (Unit {0}) Lists (Unit {0})

abbrev fresh : Fuzzer
fresh = record {
  commander = record { has_impl = true; child_processes = no_processes 1; testcase_pids = [] };
  container = [];
  knowledge = mocked;
  monitor = cleared_monitor;
  retriever = cleared_retriever;
  available_testcases = [];
  timedout_testcases = [];
  max_num_testcases = 100;
  current_testcase_id = 0;
  generated_testcases = 0;
  current_testcase_ids = [];
  to_process = 0;
}

fresh-IsSettled : IsSettled fresh
fresh-IsSettled = record {
  table = no_processes-IsTable 1;
  pids = refl;
  available = refl;
  timedout = refl;
}

abbrev one : List Individual
one = record { index = 3; id = 0 } ∷ []

abbrev Run : Stage × Fuzzer → Type 0
Run s =
    Reach no_cache list_graph no_cache sums (generation no_cache list_graph no_cache sums fresh one)
      s

-- The target is started as process 50, ends, and is delivered to the retriever.
abbrev launched : Fuzzer
launched = (launch (begin_generation fresh 1) (record { index = 3; id = 0 }) 7 (started 50)).1

launched-Run : Run (launching [], launched)
unfolding begin_generation lookup clear_commander clear remove_each
launched-Run = next here (
    launches (begin_generation fresh 1) (record { index = 3; id = 0 }) [] 7 (started 50)
      (omega arith) (λ pid e. (refl, refl)))

abbrev watched : Fuzzer
watched =
    let h = announced no_cache list_graph no_cache sums launched in
    record h {
      commander = record (h.commander) {
        child_processes = (watch (λ t. 0) (λ p. changed true) h.commander.child_processes).0;
      };
    }

abbrev delivered : Fuzzer
delivered = monitor_round (monitor_round watched)

abbrev marker : TraceElement
marker = trace_element e_terminated 0 0 0 0

abbrev with_trace : Fuzzer
with_trace = record delivered { container = (1, marker ∷ []) ∷ [] }

abbrev awaiting : Fuzzer
awaiting = traces_awaited no_cache list_graph no_cache sums with_trace

abbrev or_else : Fuzzer → Result Fuzzer → Fuzzer
or_else h (ok a) = a
or_else h (fault e) = h

abbrev retrieved : Fuzzer
retrieved = or_else fresh (retriever_round no_cache list_graph no_cache sums awaiting)

delivered-Run : Run (sending, with_trace)
delivered-Run =
    next
      (next
        (next
          (next (next launched-Run (announces launched)) (
            watches sending (announced no_cache list_graph no_cache sums launched) (λ t. 0)
              (λ p. changed true)))
          (monitors sending watched))
        (monitors sending (monitor_round watched)))
      (writes sending delivered ((1, marker ∷ []) ∷ []))

all_sent : with_trace.monitor.all_sent ≡ true
unfolding monitor_round deliver_each deliver_one watch watch_each watch_one get_pid_status update
    get_terminated_processes gather_terminated remove_each remove erase_pid empty launch
    begin_generation call clear_commander clear insert_process insert assign lookup erase
    insert_sorted get_testcase_id processed_pid
all_sent = refl

retrieves_ok : retriever_round no_cache list_graph no_cache sums awaiting ≡ ok retrieved
unfolding monitor_round deliver_each deliver_one watch watch_each watch_one get_pid_status update
    get_terminated_processes gather_terminated remove_each remove erase_pid empty launch
    begin_generation call clear_commander clear insert_process insert assign lookup erase
    insert_sorted get_testcase_id processed_pid retriever_round take_available take_timedout process
    get_trace add_trace add_trace_elements add_trace_element
retrieves_ok = refl

completed-Run : Run (completing, retrieved)
completed-Run =
    next (next delivered-Run (sees_all_sent with_trace all_sent))
      (retrieves completing awaiting retrieved retrieves_ok)

processed_testcases_example :
    pending retrieved + retrieved.retriever.processed_testcases ≤ retrieved.to_process
processed_testcases_example =
    processed_testcases_le no_cache list_graph no_cache sums fresh one (omega arith) fresh-IsSettled
      completing retrieved completed-Run

all_counted : retrieved.to_process ≤ retrieved.retriever.processed_testcases
unfolding monitor_round deliver_each deliver_one watch watch_each watch_one get_pid_status update
    get_terminated_processes gather_terminated remove_each remove erase_pid empty launch
    begin_generation call clear_commander clear insert_process insert assign lookup erase
    insert_sorted get_testcase_id processed_pid retriever_round take_available take_timedout process
    get_trace add_trace add_trace_elements add_trace_element
all_counted = omega arith

completing-IsSettled_example :
    IsSettled retrieved
    × (retrieved.retriever.processed_testcases ≡ retrieved.to_process)
    × ((pid : ℕ) → lookup pid retrieved.commander.child_processes.pid_statuses ≡ none)
completing-IsSettled_example =
    completing-IsSettled no_cache list_graph no_cache sums fresh one (omega arith) fresh-IsSettled
      retrieved completed-Run all_counted

-- The same, but the target wrote no trace.
abbrev after_loss : Fuzzer
after_loss = or_else fresh (retriever_round no_cache list_graph no_cache sums delivered)

undelivered-Run : Run (sending, delivered)
undelivered-Run =
    next
      (next
        (next (next launched-Run (announces launched)) (
          watches sending (announced no_cache list_graph no_cache sums launched) (λ t. 0)
            (λ p. changed true)))
        (monitors sending watched))
      (monitors sending (monitor_round watched))

loses :
    (delivered.available_testcases ≡ 1 ∷ [])
    × (get_trace delivered.container 1 ≡ none)
    × (retriever_round no_cache list_graph no_cache sums delivered ≡ ok after_loss)
    × (after_loss.monitor.all_sent ≡ true)
unfolding monitor_round deliver_each deliver_one watch watch_each watch_one get_pid_status update
    get_terminated_processes gather_terminated remove_each remove erase_pid empty launch
    begin_generation call clear_commander clear insert_process insert assign lookup erase
    insert_sorted get_testcase_id processed_pid retriever_round take_available take_timedout process
    get_trace add_trace add_trace_elements add_trace_element
loses = (refl, refl, refl, refl)

lost_trace_example :
    let h = traces_awaited no_cache list_graph no_cache sums after_loss in
    h.retriever.processed_testcases < h.to_process
lost_trace_example =
    lost_trace no_cache list_graph no_cache sums fresh one (omega arith) fresh-IsSettled sending
      delivered after_loss (traces_awaited no_cache list_graph no_cache sums after_loss) 1 []
      undelivered-Run loses.0 loses.1 loses.2 (next here (sees_all_sent after_loss loses.3))
