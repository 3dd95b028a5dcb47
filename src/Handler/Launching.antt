-- ===== src/Handler/Launching.antt =====
-- What holds of a generation between two steps, and that the launch of a test case keeps it
-- (fuzzer/fuzzer/handler.cpp: `single_threaded_loop`).
use fuzzer_goal_directed.Prelude.{
  ℕ, ◌+◌, ◌≤◌, ◌<◌, ◌≡◌, refl, ap, List, ◌∷◌, arith, if◌then◌else◌, length, u64_mod, add64,
  Bool-cases, inl, inr,
}
use fuzzer_goal_directed.OrderedMap.{lookup, insert, lookup-insert, length-assign}
use fuzzer_goal_directed.Individual.{Individual}
use fuzzer_goal_directed.Processes.{running}
use fuzzer_goal_directed.Processes.Laws.{is_some, IsTable, entry-insert_process}
use fuzzer_goal_directed.Processes.Collect.{insert_process-IsTable}
use fuzzer_goal_directed.Commander.{call, Launched, started, failed, threw}
use fuzzer_goal_directed.Handler.{Handler, launch}
use fuzzer_goal_directed.Handler.Steps.{Stage, launching, sending, completing, completed, Unused}
use fuzzer_goal_directed.Handler.Accounts.{pending, Identified}

abbrev pub to_launch : Stage → ℕ
to_launch (launching is) = length is
to_launch sending = 0
to_launch completing = 0
to_launch completed = 0

module _ {B G V : Type 0} where
  -- The tables of processes and of their test cases belong together.
  pub record IsPaired (h : Handler B G V) : Type 0 where
    pub table : IsTable h.commander.child_processes
    pub pids :
        (q : ℕ)
        → is_some (lookup q h.commander.testcase_pids)
          ≡ is_some (lookup q h.commander.child_processes.pid_statuses)
    pub ids : Identified h

  -- The test cases to process are at least those that are still to launch, those under way, those that
  -- are processed and `lost` more.
  pub record IsAccounted (lost : ℕ) (s : Stage × Handler B G V) : Type 0 where
    pub paired : IsPaired s.1
    pub owed :
        to_launch s.0 + pending s.1 + s.1.retriever.processed_testcases + lost ≤ s.1.to_process
    pub width : s.1.to_process < u64_mod

  call-IsPaired :
      (h : Handler B G V) (timer testcase_id : ℕ) (outcome : Launched)
      → Unused h outcome
      → 0 < testcase_id
      → IsPaired h
      → IsPaired (record h { commander = (call h.commander timer testcase_id outcome).1 })
  unfolding call
  call-IsPaired h timer testcase_id failed u i p = record {
    table = p.table;
    pids = p.pids;
    ids = p.ids;
  }
  call-IsPaired h timer testcase_id threw u i p = record {
    table = p.table;
    pids = p.pids;
    ids = p.ids;
  }
  call-IsPaired h timer testcase_id (started pid) u i p = elim (Bool-cases h.commander.has_impl) [
    | inr e ↦ rw e (record { table = p.table; pids = p.pids; ids = p.ids })
    | inl e ↦
        let (new, free) = u pid refl in
        let t = h.commander.child_processes in
        rw e (record {
          table = insert_process-IsTable t timer pid running p.table free;
          pids = λ q. ground (
            arith,
            p.pids q,
            lookup-insert pid q testcase_id h.commander.testcase_pids new,
            ap (λ x. x.status) (entry-insert_process t pid q timer running p.table free),
          );
          ids = λ q j k.
              ground (
                arith,
                k,
                p.ids q j,
                lookup-insert pid q testcase_id h.commander.testcase_pids new,
              );
        })
  ]

  call_pending :
      (h : Handler B G V) (timer testcase_id : ℕ) (outcome : Launched)
      → Unused h outcome
      → let (called, c) = call h.commander timer testcase_id outcome in
        pending (record h { commander = c }) ≡ pending h + (if called then 1 else 0)
  unfolding call insert
  call_pending h timer testcase_id failed u = omega arith
  call_pending h timer testcase_id threw u = omega arith
  call_pending h timer testcase_id (started pid) u = elim (Bool-cases h.commander.has_impl) [
    | inr e ↦ rw e (omega arith)
    | inl e ↦
        rw e (ground (arith, u pid refl, length-assign pid testcase_id h.commander.testcase_pids))
  ]

  pub launch-IsAccounted :
      (lost : ℕ) (h : Handler B G V) (i : Individual) (rest : List Individual) (timer : ℕ)
      (outcome : Launched)
      → h.current_testcase_id + 1 < u64_mod
      → Unused h outcome
      → IsAccounted lost (launching (i ∷ rest), h)
      → IsAccounted lost (launching rest, (launch h i timer outcome).1)
  unfolding launch
  launch-IsAccounted lost h i rest timer outcome small u a =
      let testcase_id = add64 h.current_testcase_id 1 in
      let p = call-IsPaired h timer testcase_id outcome u (omega arith) a.paired in
      let e = call_pending h timer testcase_id outcome u in
      elim (Bool-cases (call h.commander timer testcase_id outcome).0) [
        | inl c ↦ rw c (record {
          paired = record { table = p.table; pids = p.pids; ids = p.ids };
          owed = ground (arith, c, e, a.owed);
          width = a.width;
        })
        | inr c ↦ rw c (record {
          paired = record { table = p.table; pids = p.pids; ids = p.ids };
          owed = ground (arith, c, e, a.owed, a.width);
          width = omega (arith, a.width);
        })
      ]
