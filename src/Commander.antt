-- ===== src/Commander.antt =====
-- Starting the target on a test case (fuzzer/fuzzer/commander.h and commander.cpp: `Commander`). How
-- the process is started is a parameter: its outcome.
use fuzzer_goal_directed.Prelude.{ℕ, Bool, true, false, none, some, List}
use fuzzer_goal_directed.OrderedMap.{lookup, insert, erase}
use fuzzer_goal_directed.Processes.{ProcessStatuses, running, insert_process, clear}

-- What `exec` returns: a process, or a negative number; or an exception that it throws.
pub data Launched : Type 0 where
  started : ℕ → Launched
  failed threw : Launched

-- `has_impl` says whether `impl` is not null.
pub record Commander : Type 0 where
  pub has_impl : Bool
  pub child_processes : ProcessStatuses
  pub testcase_pids : List (ℕ × ℕ)

-- `call`; `timer` is the one that is started for the process.
unfoldable pub call : Commander → ℕ → ℕ → Launched → Bool × Commander
call c timer testcase_id failed = (false, c)
call c timer testcase_id threw = (false, c)
call c timer testcase_id (started pid) =
    let called = record c {
      testcase_pids = insert pid testcase_id c.testcase_pids;
      child_processes = insert_process c.child_processes timer pid running;
    } in
    elim c.has_impl [ true ↦ (true, called) | false ↦ (false, c) ]

unfoldable pub get_testcase_id : Commander → ℕ → ℕ
get_testcase_id c pid = elim (lookup pid c.testcase_pids) [ none ↦ 0 | some i ↦ i ]

unfoldable pub processed_pid : Commander → ℕ → Commander
processed_pid c pid = elim (lookup pid c.testcase_pids) [
  | none ↦ c
  | some i ↦ record c { testcase_pids = erase pid c.testcase_pids }
]

unfoldable pub clear_commander : Commander → Commander
clear_commander c = record c { child_processes = clear c.child_processes }
