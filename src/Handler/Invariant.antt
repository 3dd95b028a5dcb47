-- ===== src/Handler/Invariant.antt =====
-- The rounds of the threads keep the account of a generation (fuzzer/fuzzer/handler.cpp:
-- `FuzzerProcessMonitor`, `FuzzerTraceRetriever`).
use fuzzer_goal_directed.Prelude.{
  ℕ, ◌+◌, ◌≤◌, ◌≡◌, refl, sym, ap, ◌∙◌, Option, none, some, [], arith, ltb, if◌then◌else◌, ◌&&◌,
  not, Option-cases, List-cases, Bool-cases, inl, inr,
}
use fuzzer_goal_directed.Result.{IfOk, IfOk-any, IfOk-mono, returned, >>=-IfOk, IfOk-ok}
use fuzzer_goal_directed.OrderedMap.{lookup}
use fuzzer_goal_directed.Trace.{get_trace}
use fuzzer_goal_directed.Measure.{Floats}
use fuzzer_goal_directed.Coverage.{CacheOps, GraphOps}
use fuzzer_goal_directed.Coverage.Trace.{add_trace}
use fuzzer_goal_directed.Processes.{empty, get_terminated_processes, watch, ProcessStatus, Waited}
use fuzzer_goal_directed.Processes.Laws.{gone, Entry, is_some, entry}
use fuzzer_goal_directed.Processes.Collect.{get_terminated_processes_lem, if_ended}
use fuzzer_goal_directed.Processes.Watch.{watch-IsTable, entry-watch, revised}
use fuzzer_goal_directed.Handler.{
  Handler, monitor_round, retriever_round, take_available, take_timedout, process, deliver_each,
  received,
}
use fuzzer_goal_directed.Handler.Steps.{
  Stage, launching, sending, completing, completed, Step, launches, announces, sees_all_sent,
  sees_all_processed, watches, monitors, retrieves, writes,
}
use fuzzer_goal_directed.Handler.Accounts.{pending, deliver_each-Delivered}
use fuzzer_goal_directed.Handler.Launching.{to_launch, IsAccounted, launch-IsAccounted}

is_some-revised : (found old : Option ProcessStatus) → is_some (revised found old) ≡ is_some old
is_some-revised found none = refl
is_some-revised none (some old) = refl
is_some-revised (some new) (some old) = refl

left_paired :
    (reported : Option ProcessStatus) (testcase : Option ℕ) (e : Entry)
    → reported ≡ if_ended e.status
    → is_some testcase ≡ is_some e.status
    → is_some (if is_some reported then none else testcase)
      ≡ is_some (if is_some (if_ended e.status) then gone else e).status
left_paired none testcase e h k = rw (sym h) k
left_paired (some st) testcase e h k = rw (sym h) refl

module _ {B G V : Type 0} where
  collected-IsAccounted :
      (lost : ℕ) (s : Stage) (h : Handler B G V)
      → IsAccounted lost (s, h)
      → let (ended, processes) = get_terminated_processes h.commander.child_processes in
        let collected = record h {
          commander = record (h.commander) { child_processes = processes };
        } in
        IsAccounted lost (s, deliver_each collected ended)
  collected-IsAccounted lost s h a =
      let t = h.commander.child_processes in
      let (ended, processes) = get_terminated_processes t in
      let collected = record h {
        commander = record (h.commander) { child_processes = processes };
      } in
      let (c, table) = get_terminated_processes_lem t a.paired.table in
      let d = deliver_each-Delivered collected ended a.paired.ids in
      record {
        paired = record {
          table = rw d.children table;
          pids = λ q.
              ap is_some (d.pids q)
              ∙ left_paired (lookup q ended) (lookup q h.commander.testcase_pids) (entry t q)
                  (c q).reported (a.paired.pids q)
              ∙ sym (ap (λ x. is_some x.status) (c q).left)
              ∙ sym (ap (λ x. is_some (lookup q x.pid_statuses)) d.children);
          ids = λ q i e. a.paired.ids q i (ground (arith, d.pids q, e));
        };
        owed =
            omega
              (arith, a.owed, d.pending, d.to_process, ap (λ r. r.processed_testcases) d.retriever);
        width = omega (arith, a.width, d.to_process);
      }

  monitor_round-IsAccounted :
      (lost : ℕ) (s : Stage) (h : Handler B G V)
      → IsAccounted lost (s, h)
      → IsAccounted lost (s, monitor_round h)
  unfolding monitor_round
  monitor_round-IsAccounted lost s h a = elim (Bool-cases (empty h.commander.child_processes)) [
    | inl e ↦ rw e (elim (Bool-cases (h.monitor.all_received && not h.monitor.all_sent)) [
      | inl f ↦ rw f (record {
        paired = record { table = a.paired.table; pids = a.paired.pids; ids = a.paired.ids };
        owed = a.owed;
        width = a.width;
      })
      | inr f ↦ rw f a
    ])
    | inr e ↦ rw e (collected-IsAccounted lost s h a)
  ]

  watched-IsAccounted :
      (lost : ℕ) (s : Stage) (h : Handler B G V) (elapsed : ℕ → ℕ) (waitpid : ℕ → Waited)
      → IsAccounted lost (s, h)
      → IsAccounted lost (
        s,
        record h {
          commander = record (h.commander) {
            child_processes = (watch elapsed waitpid h.commander.child_processes).0;
          };
        },
      )
  watched-IsAccounted lost s h elapsed waitpid a =
      let t = h.commander.child_processes in
      record {
        paired = record {
          table = watch-IsTable elapsed waitpid t a.paired.table;
          pids = λ q.
              a.paired.pids q
              ∙ sym (
                  ap (λ e. is_some e.status) (entry-watch elapsed waitpid t a.paired.table q)
                  ∙ is_some-revised _ (lookup q t.pid_statuses));
          ids = a.paired.ids;
        };
        owed = a.owed;
        width = a.width;
      }

  -- Between `h` and `h'`, the retriever counted at most `more` test cases that it did not take from a
  -- queue.
  pub record Retrieved (more : ℕ) (h h' : Handler B G V) : Type 0 where
    pub commander : h'.commander ≡ h.commander
    pub to_process : h'.to_process ≡ h.to_process
    pub owed :
        pending h' + h'.retriever.processed_testcases
        ≤ pending h + h.retriever.processed_testcases + more

  Retrieved-IsAccounted :
      (lost : ℕ) (s s' : Stage) (h h' : Handler B G V)
      → to_launch s' ≡ to_launch s
      → Retrieved 0 h h'
      → IsAccounted lost (s, h)
      → IsAccounted lost (s', h')
  Retrieved-IsAccounted lost s s' h h' e r a = record {
    paired = record {
      table = rw r.commander a.paired.table;
      pids = rw r.commander a.paired.pids;
      ids = rw r.commander a.paired.ids;
    };
    owed = omega (arith, a.owed, r.owed, r.to_process, e);
    width = omega (arith, a.width, r.to_process);
  }

  -- A step that touches neither the processes, nor the queues, nor what is counted.
  untouched :
      (lost : ℕ) (s s' : Stage) (h h' : Handler B G V)
      → to_launch s' ≡ to_launch s
      → h'.commander ≡ h.commander
      → h'.available_testcases ≡ h.available_testcases
      → h'.timedout_testcases ≡ h.timedout_testcases
      → h'.retriever.processed_testcases ≡ h.retriever.processed_testcases
      → h'.to_process ≡ h.to_process
      → IsAccounted lost (s, h)
      → IsAccounted lost (s', h')
  untouched lost s s' h h' e c q t p n a =
      Retrieved-IsAccounted lost s s' h h' e
        (record { commander = c; to_process = n; owed = rw (c, q, t, p) (omega arith) }) a

  pub take_timedout-Retrieved : (h : Handler B G V) → Retrieved 0 h (take_timedout h)
  unfolding take_timedout
  take_timedout-Retrieved h = record {
    commander = ground arith;
    to_process = ground arith;
    owed = ground arith;
  }

  module _ {W : Type 0} (blocks : CacheOps (ℕ × ℕ) B) (graph : GraphOps G) (vertices : CacheOps ℕ V)
      (floats : Floats W) where
    process-Retrieved :
        (h : Handler B G V) (i : ℕ)
        → IfOk (Retrieved 1 h) (process blocks graph vertices floats h i)
    unfolding process
    process-Retrieved h i = elim (Bool-cases (ltb i 1)) [
      | inl e ↦ rw e (returned h unchanged)
      | inr e ↦ rw e (elim (Option-cases (get_trace h.container i)) [
        | inl f ↦ rw f (returned h unchanged)
        | inr (trace, f) ↦ rw f (
            >>=-IfOk {P = λ k. Unit {0}} _
              (IfOk-any (add_trace blocks graph vertices floats h.knowledge i trace))
              (λ k u.
                returned _ (record { commander = refl; to_process = refl; owed = omega arith })))
      ])
    ]
      where
        unchanged : Retrieved 1 h h
        unchanged = record { commander = refl; to_process = refl; owed = omega arith }

    take_available-Retrieved :
        (h : Handler B G V) → IfOk (Retrieved 0 h) (take_available blocks graph vertices floats h)
    unfolding take_available
    take_available-Retrieved h = elim (List-cases h.available_testcases) [
      | inl e ↦
          rw e (returned _ (record { commander = refl; to_process = refl; owed = omega arith }))
      | inr (i, rest, e) ↦ rw e (
          IfOk-mono
            (λ h' r. record {
              commander = r.commander;
              to_process = r.to_process;
              owed = omega (arith, r.owed);
            })
            (process-Retrieved (received (record h { available_testcases = rest }) i) i))
    ]

    retriever_round-Retrieved :
        (h : Handler B G V) → IfOk (Retrieved 0 h) (retriever_round blocks graph vertices floats h)
    unfolding retriever_round
    retriever_round-Retrieved h = >>=-IfOk _ (take_available-Retrieved h) (λ h1 r.
        let late = take_timedout-Retrieved h1 in
        returned _ (record {
          commander = late.commander ∙ r.commander;
          to_process = late.to_process ∙ r.to_process;
          owed = omega (arith, r.owed, late.owed);
        }))

    -- Every step of a thread, of the target and of the main thread keeps the account of a generation.
    pub Step-IsAccounted :
        (lost : ℕ) {s t : Stage × Handler B G V}
        → Step blocks graph vertices floats s t
        → IsAccounted lost s
        → IsAccounted lost t
    Step-IsAccounted lost (launches h i rest timer outcome small u) a =
        launch-IsAccounted lost h i rest timer outcome small u a
    Step-IsAccounted lost (announces h) a =
        untouched lost (launching []) sending h _ refl refl refl refl refl refl a
    Step-IsAccounted lost (sees_all_sent h e) a =
        untouched lost sending completing h _ refl refl refl refl refl refl a
    Step-IsAccounted lost (sees_all_processed h e) a =
        untouched lost completing completed h _ refl refl refl refl refl refl a
    Step-IsAccounted lost (watches s h elapsed waitpid) a =
        watched-IsAccounted lost s h elapsed waitpid a
    Step-IsAccounted lost (monitors s h) a = monitor_round-IsAccounted lost s h a
    Step-IsAccounted lost (retrieves s h h' e) a =
        Retrieved-IsAccounted lost s s h h' refl (IfOk-ok (retriever_round-Retrieved h) e) a
    Step-IsAccounted lost (writes s h c) a = untouched lost s s h _ refl refl refl refl refl refl a
