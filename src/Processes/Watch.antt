-- ===== src/Processes/Watch.antt =====
-- What a round of `TimeoutWatcher` makes of the processes (fuzzer/fuzzer/commander.cpp).
use fuzzer_goal_directed.Prelude.{
  ℕ, ◌≡◌, refl, sym, ap, ◌∙◌, Bool, true, false, ◌||◌, Option, none, some, List, [], ◌∷◌, arith,
  ltb, ◌==◌, if◌then◌else◌, Option-cases, Bool-cases, inl, inr, ==_iff,
}
use fuzzer_goal_directed.OrderedMap.{lookup}
use fuzzer_goal_directed.Memory.{contains}
use fuzzer_goal_directed.Processes.{
  ProcessStatus, running, terminated, unknown, timedout, is_running, ProcessStatuses, Waited,
  interrupted, refused, nothing, changed, get_pid_status, update, watch_one, watch_each, watch,
  get_terminated_processes,
}
use fuzzer_goal_directed.Processes.Laws.{Entry, entry, IsTable, is_some, Entry-if, entry-update}
use fuzzer_goal_directed.Processes.Collect.{
  if_ended, listed, update-IsTable, get_terminated_processes_lem, contains-cons, contains-nil,
}

abbrev pub revised : Option ProcessStatus → Option ProcessStatus → Option ProcessStatus
revised found none = none
revised none (some old) = some old
revised (some new) (some old) = some new

-- The status that an answer of `waitpid` shows, if it shows that the process is not running.
abbrev pub answered : Waited → Option ProcessStatus
answered (interrupted w) = answered w
answered refused = none
answered nothing = none
answered (changed true) = some terminated
answered (changed false) = some unknown

abbrev pub or_else : Option ProcessStatus → Option ProcessStatus → Option ProcessStatus
or_else none other = other
or_else (some status) other = some status

-- Whether an answer shows a status, and what the code makes of it.
data Seen (w : Waited) : Type 0 where
  still : answered w ≡ none → get_pid_status w ≡ running → Seen w
  over :
      (st : ProcessStatus)
      → answered w ≡ some st
      → get_pid_status w ≡ st
      → is_running st ≡ false
      → Seen w

seen : (w : Waited) → Seen w
unfolding get_pid_status
seen (interrupted w) = elim (seen w) [ still a g ↦ still a g | over st a g n ↦ over st a g n ]
seen refused = still refl refl
seen nothing = still refl refl
seen (changed true) = over terminated refl refl refl
seen (changed false) = over unknown refl refl refl

module _ (elapsed : ℕ → ℕ) (waitpid : ℕ → Waited) where
  -- What is found of a process with a timer: what `waitpid` says, if it is not running; else that it
  -- is late, if its timer is past the limit; else nothing.
  abbrev pub late : ℕ → Option ℕ → Option ProcessStatus
  late limit none = none
  late limit (some t) = if ltb limit (elapsed t) then some timedout else none

  abbrev pub finding : ℕ → ℕ → Option ℕ → Option ProcessStatus
  finding limit q timer = or_else (answered (waitpid q)) (late limit timer)

  abbrev pub judged : ℕ → ℕ → Entry → Entry
  judged limit q e = record e { status = revised (finding limit q e.timer) e.status }

  abbrev updated : ProcessStatuses → ℕ → Option ProcessStatus → ProcessStatuses
  updated s p none = s
  updated s p (some status) = update s p status

  watch_one_updated :
      (w : ProcessStatuses × List ℕ) (p : ℕ)
      → (watch_one elapsed waitpid w p).0
        ≡ updated w.0 p (finding w.0.process_timeout_nanoseconds p (lookup p w.0.pid_timers))
  unfolding watch_one
  watch_one_updated w p = elim (seen (waitpid p)) [
    | still a g ↦ elim (Option-cases (lookup p w.0.pid_timers)) [
      | inl e ↦ rw (watch_one, a, g, e) refl
      | inr (t, e) ↦ elim (Bool-cases (ltb w.0.process_timeout_nanoseconds (elapsed t))) [
        | inl l ↦ rw (watch_one, a, g, e, l) refl
        | inr l ↦ rw (watch_one, a, g, e, l) refl
      ]
    ]
    | over st a g n ↦ rw (watch_one, a, g, n) refl
  ]

  entry-updated :
      (s : ProcessStatuses) (p q : ℕ) (found : Option ProcessStatus)
      → entry (updated s p found) q ≡ (
          if p == q
          then record (entry s q) { status = revised found (lookup q s.pid_statuses) }
          else entry s q)
  entry-updated s p q none = Entry-if (p == q) (λ k. ground arith) (λ k. ground arith)
  entry-updated s p q (some status) =
      entry-update s p q status
      ∙ Entry-if (p == q) (λ k. ground (arith, k)) (λ k. ground (arith, k))

  updated_limit :
      (s : ProcessStatuses) (p : ℕ) (found : Option ProcessStatus)
      → (updated s p found).process_timeout_nanoseconds ≡ s.process_timeout_nanoseconds
  unfolding update
  updated_limit s p none = refl
  updated_limit s p (some status) = ground arith

  updated-IsTable :
      (s : ProcessStatuses) (p : ℕ) (found : Option ProcessStatus)
      → IsTable s
      → IsTable (updated s p found)
  updated-IsTable s p none t = t
  updated-IsTable s p (some status) t = update-IsTable s p status t

  judged_twice : (limit q : ℕ) (e : Entry) → judged limit q (judged limit q e) ≡ judged limit q e
  judged_twice limit q e = ap (λ st. record e { status = st }) (ground arith)

  entry-watch_one :
      (w : ProcessStatuses × List ℕ) (p q : ℕ)
      → entry (watch_one elapsed waitpid w p).0 q
        ≡ (if p == q then judged w.0.process_timeout_nanoseconds q (entry w.0 q) else entry w.0 q)
  entry-watch_one w p q =
      let limit = w.0.process_timeout_nanoseconds in
      ap (λ s. entry s q) (watch_one_updated w p)
      ∙ entry-updated w.0 p q (finding limit p (lookup p w.0.pid_timers))
      ∙ elim (Bool-cases (p == q)) [
        | inl k ↦ rw k (
            ap
              (λ i. record (entry w.0 q) {
                status =
                    revised (finding limit i (lookup i w.0.pid_timers)) (lookup q w.0.pid_statuses);
              })
              ((==_iff p q).0 k))
        | inr k ↦ rw k refl
      ]

  judged_if :
      (limit q : ℕ) (e e' : Entry) (d d' b : Bool)
      → e' ≡ (if d then judged limit q e else e)
      → d ≡ d'
      → (if b then judged limit q e' else e') ≡ (if d' || b then judged limit q e else e)
  judged_if limit q e e' true d' true h k =
      rw (sym k) (ap (judged limit q) h ∙ judged_twice limit q e)
  judged_if limit q e e' true d' false h k = rw (sym k) h
  judged_if limit q e e' false d' true h k = rw (sym k) (ap (judged limit q) h)
  judged_if limit q e e' false d' false h k = rw (sym k) h

  entry-watch_each :
      (w : ProcessStatuses × List ℕ) (ps : List ℕ) (q limit : ℕ)
      → w.0.process_timeout_nanoseconds ≡ limit
      → entry (watch_each elapsed waitpid w ps).0 q
        ≡ (if contains q ps then judged limit q (entry w.0 q) else entry w.0 q)
  unfolding watch_each
  entry-watch_each w [] q limit h = rw (contains-nil q) refl
  entry-watch_each w (p ∷ ps) q limit h =
      let w' = watch_one elapsed waitpid w p in
      entry-watch_each w' ps q limit (
        ap (λ x. x.process_timeout_nanoseconds) (watch_one_updated w p) ∙ updated_limit w.0 p _ ∙ h)
      ∙ judged_if limit q (entry w.0 q) (entry w'.0 q) (p == q) (q == p) (contains q ps)
          (entry-watch_one w p q
            ∙ ap (λ l. if p == q then judged l q (entry w.0 q) else entry w.0 q) h)
          (ground arith)
      ∙ ap (λ b. if b then judged limit q (entry w.0 q) else entry w.0 q)
          (sym (contains-cons q p ps))

  watch_each-IsTable :
      (w : ProcessStatuses × List ℕ) (ps : List ℕ)
      → IsTable w.0
      → IsTable (watch_each elapsed waitpid w ps).0
  unfolding watch_each
  watch_each-IsTable w [] t = t
  watch_each-IsTable w (p ∷ ps) t =
      watch_each-IsTable (watch_one elapsed waitpid w p) ps
        (rw (watch_one_updated w p) (updated-IsTable w.0 p _ t))

  judged_listed :
      (limit q : ℕ) (e : Entry)
      → e.listed ≡ is_some e.status
      → (if e.listed then judged limit q e else e) ≡ judged limit q e
  judged_listed limit q e h = elim (Option-cases e.status) [
    | inl k ↦ rw (h, k) refl
    | inr (st, k) ↦ rw (h, k) refl
  ]

  module _ (s : ProcessStatuses) (t : IsTable s) where
    -- A round of the watcher gives every process of coherent tables the status that `waitpid` or its
    -- timer shows, and changes nothing else.
    pub entry-watch :
        (q : ℕ)
        → entry (watch elapsed waitpid s).0 q ≡ judged s.process_timeout_nanoseconds q (entry s q)
    unfolding watch
    entry-watch q =
        entry-watch_each (s, []) s.all_pids q s.process_timeout_nanoseconds refl
        ∙ judged_listed s.process_timeout_nanoseconds q (entry s q) (listed (t q))

    pub watch-IsTable : IsTable (watch elapsed waitpid s).0
    unfolding watch
    watch-IsTable = watch_each-IsTable (s, []) s.all_pids t

    -- In coherent tables, after a round of the watcher, `get_terminated_processes` reports exactly the
    -- processes that `waitpid` says have changed, that are past their time, or that were no longer
    -- running before. A process that has changed is reported as terminated if it exited or was
    -- signaled, and as unknown if not; of the others, one past its time is reported as timed out, and
    -- the rest with the status they had.
    pub get_terminated_processes-watch :
        (q : ℕ)
        → lookup q (get_terminated_processes (watch elapsed waitpid s).0).0
          ≡ if_ended (
              revised
                (finding s.process_timeout_nanoseconds q (lookup q s.pid_timers))
                (lookup q s.pid_statuses))
    get_terminated_processes-watch q =
        ((get_terminated_processes_lem (watch elapsed waitpid s).0 watch-IsTable).0 q).reported
        ∙ ap (λ e. if_ended e.status) (entry-watch q)
