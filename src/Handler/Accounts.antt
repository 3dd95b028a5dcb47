-- ===== src/Handler/Accounts.antt =====
-- What each round does to the numbers of test cases that are under way (fuzzer/fuzzer/handler.cpp).
use fuzzer_goal_directed.Prelude.{
  ℕ, ◌+◌, ◌≤◌, ◌<◌, ◌≡◌, refl, ap, ◌∙◌, Bool, true, false, Option, none, some, List, [], ◌∷◌, arith,
  ◌==◌, if◌then◌else◌, length, length-append, Option-cases, inl, inr,
}
use fuzzer_goal_directed.OrderedMap.{lookup, lookup-erase, length-erase}
use fuzzer_goal_directed.Processes.{ProcessStatus}
use fuzzer_goal_directed.Processes.Laws.{is_some}
use fuzzer_goal_directed.Commander.{get_testcase_id, processed_pid}
use fuzzer_goal_directed.Handler.{Handler, deliver_one, deliver_each}

taken_twice :
    (o : Option ProcessStatus) (b : Bool) (status : ProcessStatus) (x : Option ℕ)
    → (if is_some o then none else if b then none else x)
      ≡ (if is_some (if b then some status else o) then none else x)
taken_twice none true status x = refl
taken_twice none false status x = refl
taken_twice (some old) true status x = refl
taken_twice (some old) false status x = refl

module _ {B G V : Type 0} where
  -- The test cases that are with a process or in a queue.
  abbrev pub pending : Handler B G V → ℕ
  pending h =
      length h.commander.testcase_pids + length h.available_testcases + length h.timedout_testcases

  abbrev pub Identified : Handler B G V → Type 0
  Identified h = (pid i : ℕ) → lookup pid h.commander.testcase_pids ≡ some i → 0 < i

  -- Between `h` and `h'`, the test cases of the processes that are `taken` left the table for a queue.
  pub record Delivered (h h' : Handler B G V) (taken : ℕ → Bool) : Type 0 where
    pub pids :
        (q : ℕ)
        → lookup q h'.commander.testcase_pids
          ≡ (if taken q then none else lookup q h.commander.testcase_pids)
    pub children : h'.commander.child_processes ≡ h.commander.child_processes
    pub retriever : h'.retriever ≡ h.retriever
    pub to_process : h'.to_process ≡ h.to_process
    pub pending : pending h' ≤ pending h

  deliver_one-Delivered :
      (h : Handler B G V) (pid : ℕ) (status : ProcessStatus)
      → Identified h
      → Delivered h (deliver_one h (pid, status)) (λ q. pid == q)
  unfolding deliver_one get_testcase_id processed_pid
  deliver_one-Delivered h pid status ids = record {
    pids = λ q. elim (Option-cases (lookup pid h.commander.testcase_pids)) [
      | inl e ↦ ground (arith, e)
      | inr (i, e) ↦ ground (arith, e, ids pid i e, lookup-erase pid q h.commander.testcase_pids)
    ];
    children = ground arith;
    retriever = ground arith;
    to_process = ground arith;
    pending = elim (Option-cases (lookup pid h.commander.testcase_pids)) [
      | inl e ↦ ground (arith, e)
      | inr (i, e) ↦ ground (
        arith,
        e,
        length-append h.available_testcases (get_testcase_id h.commander pid ∷ []),
        length-append h.timedout_testcases (get_testcase_id h.commander pid ∷ []),
        length-erase pid i h.commander.testcase_pids e,
      )
    ];
  }

  Delivered-Identified :
      {h h' : Handler B G V} (taken : ℕ → Bool)
      → Delivered h h' taken
      → Identified h
      → Identified h'
  Delivered-Identified taken d ids pid i e = ids pid i (ground (arith, d.pids pid, e))

  -- The loop of the monitor takes exactly the processes that it is given.
  pub deliver_each-Delivered :
      (h : Handler B G V) (ended : List (ℕ × ProcessStatus))
      → Identified h
      → Delivered h (deliver_each h ended) (λ q. is_some (lookup q ended))
  unfolding deliver_each lookup
  deliver_each-Delivered h [] ids = record {
    pids = λ q. refl;
    children = refl;
    retriever = refl;
    to_process = refl;
    pending = omega arith;
  }
  deliver_each-Delivered h ((pid, status) ∷ rest) ids =
      let first = deliver_one-Delivered h pid status ids in
      let others =
        deliver_each-Delivered (deliver_one h (pid, status)) rest
          (Delivered-Identified (λ q. pid == q) first ids) in
      record {
        pids = λ q.
            others.pids q
            ∙ ap (λ x. if is_some (lookup q rest) then none else x) (first.pids q)
            ∙ taken_twice (lookup q rest) (pid == q) status (lookup q h.commander.testcase_pids);
        children = others.children ∙ first.children;
        retriever = others.retriever ∙ first.retriever;
        to_process = others.to_process ∙ first.to_process;
        pending = omega (arith, first.pending, others.pending);
      }
