-- ===== src/Processes.antt =====
-- The child processes (fuzzer/fuzzer/commander.h and commander.cpp: `ProcessStatuses`,
-- `TimeoutWatcher`, `get_pid_status`). The maps of TBB are ordered maps, whose order is not observed.
-- A timer is the name of a `cpu_timer`; what it reads and what `waitpid` answers are parameters. The
-- signals that the watcher sends are listed in its result.
pub mod Laws
pub mod Collect
pub mod Watch
use fuzzer_goal_directed.Prelude.{
  ℕ, ◌*◌, Bool, true, false, none, some, List, [], ◌∷◌, ◌++◌, ltb, ◌==◌, if◌then◌else◌,
}
use fuzzer_goal_directed.OrderedMap.{lookup, assign, insert, erase}
use fuzzer_goal_directed.Random.{insert_sorted}

pub data ProcessStatus : Type 0 where
  running terminated crashed timedout unknown : ProcessStatus

abbrev pub is_running : ProcessStatus → Bool
is_running running = true
is_running _ = false

-- What `waitpid` answers: -1 with `EINTR`, before it is asked again; -1; 0; or the process, with the
-- value of `WIFEXITED(status) || WIFSIGNALED(status)`.
pub data Waited : Type 0 where
  interrupted : Waited → Waited
  refused nothing : Waited
  changed : Bool → Waited

unfoldable pub get_pid_status : Waited → ProcessStatus
get_pid_status (interrupted w) = get_pid_status w
get_pid_status refused = running
get_pid_status nothing = running
get_pid_status (changed ended) = if ended then terminated else unknown

-- `std::set::erase`
unfoldable pub erase_pid : ℕ → List ℕ → List ℕ
erase_pid p [] = []
erase_pid p (x ∷ xs) = let rest = erase_pid p xs in if x == p then rest else x ∷ rest

pub record ProcessStatuses : Type 0 where
  pub process_timeout_nanoseconds : ℕ
  pub all_pids : List ℕ
  pub pid_timers : List (ℕ × ℕ)
  pub pid_statuses : List (ℕ × ProcessStatus)

-- The constructor, before any process is inserted.
abbrev pub no_processes : ℕ → ProcessStatuses
no_processes seconds = record {
  process_timeout_nanoseconds = seconds * 1000000000;
  all_pids = [];
  pid_timers = [];
  pid_statuses = [];
}

-- `all_pids.empty()`
unfoldable pub empty : ProcessStatuses → Bool
empty s = elim s.all_pids [ [] ↦ true | x ∷ xs ↦ false ]

unfoldable pub insert_process : ProcessStatuses → ℕ → ℕ → ProcessStatus → ProcessStatuses
insert_process s timer pid status = record s {
  pid_statuses = insert pid status s.pid_statuses;
  pid_timers = if is_running status then insert pid timer s.pid_timers else s.pid_timers;
  all_pids = insert_sorted pid s.all_pids;
}

unfoldable pub update : ProcessStatuses → ℕ → ProcessStatus → ProcessStatuses
update s pid status = elim (lookup pid s.pid_statuses) [
  | none ↦ s
  | some old ↦ record s { pid_statuses = assign pid status s.pid_statuses }
]

unfoldable pub remove : ProcessStatuses → ℕ → ProcessStatuses
unfolding erase_pid
remove s pid = elim (lookup pid s.pid_statuses) [
  | none ↦ s
  | some old ↦ record s {
    pid_statuses = erase pid s.pid_statuses;
    pid_timers = erase pid s.pid_timers;
    all_pids = erase_pid pid s.all_pids;
  }
]

unfoldable pub remove_each : ProcessStatuses → List ℕ → ProcessStatuses
unfolding remove
remove_each s [] = s
remove_each s (pid ∷ rest) = remove_each (remove s pid) rest

-- The first loop of `get_terminated_processes`: what has ended, and what is to be removed.
unfoldable pub gather_terminated :
    ProcessStatuses → List ℕ → List (ℕ × ProcessStatus) → List ℕ → List (ℕ × ProcessStatus) × List ℕ
gather_terminated s [] current to_remove = (current, to_remove)
gather_terminated s (pid ∷ rest) current to_remove =
    let skipped = gather_terminated s rest current to_remove in
    elim (lookup pid s.pid_statuses) [
      | none ↦ skipped
      | some status ↦
          let taken =
            gather_terminated s rest (insert pid status current) (insert_sorted pid to_remove) in
          if is_running status then skipped else taken
    ]

unfoldable pub get_terminated_processes :
    ProcessStatuses → List (ℕ × ProcessStatus) × ProcessStatuses
unfolding gather_terminated remove_each
get_terminated_processes s =
    let (current, to_remove) = gather_terminated s s.all_pids [] [] in
    (current, remove_each s to_remove)

unfoldable pub clear : ProcessStatuses → ProcessStatuses
unfolding remove_each
clear s = record (remove_each s s.all_pids) { all_pids = [] }

module _ (elapsed : ℕ → ℕ) (waitpid : ℕ → Waited) where
  -- The body of the loop of `TimeoutWatcher` over the processes, with the signals sent so far.
  unfoldable pub watch_one : ProcessStatuses × List ℕ → ℕ → ProcessStatuses × List ℕ
  unfolding get_pid_status update
  watch_one (s, signals) pid =
      let status = get_pid_status (waitpid pid) in
      if is_running status
      then elim (lookup pid s.pid_timers) [
        | none ↦ (s, signals)
        | some timer ↦
            if ltb s.process_timeout_nanoseconds (elapsed timer)
            then (update s pid timedout, signals ++ (pid ∷ []))
            else (s, signals)
      ]
      else (update s pid status, signals)

  unfoldable pub watch_each : ProcessStatuses × List ℕ → List ℕ → ProcessStatuses × List ℕ
  unfolding watch_one
  watch_each w [] = w
  watch_each w (pid ∷ rest) = watch_each (watch_one w pid) rest

  -- A round of `TimeoutWatcher`, over a copy of the processes that are there.
  unfoldable pub watch : ProcessStatuses → ProcessStatuses × List ℕ
  unfolding watch_each
  watch s = watch_each (s, []) s.all_pids
