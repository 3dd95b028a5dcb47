-- ===== src/Processes/Collect.antt =====
-- What `get_terminated_processes` reports and removes (fuzzer/fuzzer/commander.cpp).
use fuzzer_goal_directed.Prelude.{
  ℕ, ◌≡◌, refl, ap, ◌∙◌, Bool, true, false, ◌&&◌, ◌||◌, Option, none, some, List, [], ◌∷◌, arith,
  ◌==◌, if◌then◌else◌, Option-cases, Bool-cases, inl, inr,
}
use fuzzer_goal_directed.OrderedMap.{lookup, insert, lookup-insert}
use fuzzer_goal_directed.Memory.{contains}
use fuzzer_goal_directed.Random.{insert_sorted}
use fuzzer_goal_directed.Processes.{
  running, ProcessStatus, is_running, ProcessStatuses, insert_process, update, remove, remove_each,
  gather_terminated, get_terminated_processes, clear,
}
use fuzzer_goal_directed.Processes.Laws.{
  Entry, gone, entry, IsCoherent, IsTable, is_some, Entry-eq, without_status, entry-remove,
  entry-insert_process, entry-update, contains-insert_sorted,
}

IsCoherent-gone : IsCoherent gone
IsCoherent-gone = record { absent = λ e. (refl, refl); present = λ status e. cc }

IsCoherent-if :
    {f g : Entry} (b : Bool) → IsCoherent f → IsCoherent g → IsCoherent (if b then f else g)
IsCoherent-if true h k = h
IsCoherent-if false h k = k

-- A coherent entry is listed exactly when it has a status.
pub listed : {e : Entry} → IsCoherent e → e.listed ≡ is_some e.status
listed {e} c = elim (Option-cases e.status) [
  | inl h ↦ (c.absent h).0 ∙ rw h refl
  | inr (status, h) ↦ c.present status h ∙ rw h refl
]

pub remove-IsTable : (s : ProcessStatuses) (p : ℕ) → IsTable s → IsTable (remove s p)
remove-IsTable s p t q = rw (entry-remove s p q t) (IsCoherent-if (p == q) IsCoherent-gone (t q))

pub insert_process-IsTable :
    (s : ProcessStatuses) (timer p : ℕ) (status : ProcessStatus)
    → IsTable s
    → lookup p s.pid_statuses ≡ none
    → IsTable (insert_process s timer p status)
insert_process-IsTable s timer p status t h q =
    rw (entry-insert_process s p q timer status t h)
      (IsCoherent-if (p == q) (record { absent = λ e. cc; present = λ st e. refl }) (t q))

pub update-IsTable :
    (s : ProcessStatuses) (p : ℕ) (status : ProcessStatus) → IsTable s → IsTable (update s p status)
update-IsTable s p status t q =
    rw (entry-update s p q status) (elim (Option-cases (lookup q s.pid_statuses)) [
      | inl e ↦ ground (arith, t q)
      | inr (old, e) ↦
          IsCoherent-if (p == q && is_some (lookup q s.pid_statuses))
            (record { absent = λ e. cc; present = λ st k. (t q).present old e }) (t q)
    ])

pub remove_each-IsTable :
    (s : ProcessStatuses) (ps : List ℕ) → IsTable s → IsTable (remove_each s ps)
unfolding remove_each
remove_each-IsTable s [] t = t
remove_each-IsTable s (p ∷ ps) t = remove_each-IsTable (remove s p) ps (remove-IsTable s p t)

if_twice :
    (e f : Entry) (a b c : Bool)
    → b ≡ c
    → (if a then e else if b then e else f) ≡ (if c || a then e else f)
if_twice e f a true true h = ground arith
if_twice e f a false false h = ground arith
if_twice e f a true false h = cc
if_twice e f a false true h = cc

pub entry-remove_each :
    (s : ProcessStatuses) (ps : List ℕ) (q : ℕ)
    → IsTable s
    → entry (remove_each s ps) q ≡ (if contains q ps then gone else entry s q)
unfolding remove_each contains
entry-remove_each s [] q t = refl
entry-remove_each s (p ∷ ps) q t =
    entry-remove_each (remove s p) ps q (remove-IsTable s p t)
    ∙ ap (λ e. if contains q ps then gone else e) (entry-remove s p q t)
    ∙ if_twice gone (entry s q) (contains q ps) (p == q) (q == p) (ground arith)

-- The status of a process that is no longer running.
abbrev pub if_ended : Option ProcessStatus → Option ProcessStatus
if_ended none = none
if_ended (some running) = none
if_ended (some status) = some status

abbrev or_else : Option ProcessStatus → Option ProcessStatus → Option ProcessStatus
or_else none b = b
or_else (some a) b = some a

pub contains-nil : (q : ℕ) → contains q [] ≡ false
unfolding contains
contains-nil q = refl

pub contains-cons : (q x : ℕ) (xs : List ℕ) → contains q (x ∷ xs) ≡ (q == x || contains q xs)
unfolding contains
contains-cons q x xs = refl

lookup-insert_or :
    (p q : ℕ) (status : ProcessStatus) (m : List (ℕ × ProcessStatus))
    → lookup q (insert p status m) ≡ or_else (lookup q m) (if p == q then some status else none)
unfolding insert
lookup-insert_or p q status m = elim (Option-cases (lookup p m)) [
  | inl e ↦ lookup-insert p q status m e ∙ ground (arith, e)
  | inr (w, e) ↦ rw (insert, e) (ground (arith, e))
]

joined :
    (a ended : Option ProcessStatus) (d d' b : Bool) (status : ProcessStatus)
    → d ≡ d'
    → (d ≡ true → ended ≡ some status)
    → or_else (or_else a (if d then some status else none)) (if b then ended else none)
      ≡ or_else a (if d' || b then ended else none)
joined a ended d d' b status e h = ground arith

if_ended-running :
    (status : ProcessStatus) → is_running status ≡ true → if_ended (some status) ≡ none
if_ended-running status r = ground arith

if_ended_over :
    (status : ProcessStatus) → is_running status ≡ false → if_ended (some status) ≡ some status
if_ended_over status r = ground arith

module _ (s : ProcessStatuses) (q : ℕ) where
  abbrev ended_status : Option ProcessStatus
  ended_status = if_ended (lookup q s.pid_statuses)

  -- What the loop has gathered of `q` from the processes `ps`, after `current` and `to_remove`.
  abbrev Gathered :
      Bool → List (ℕ × ProcessStatus) → List ℕ → List (ℕ × ProcessStatus) × List ℕ → Type 0
  Gathered inside current to_remove r =
      (lookup q r.0 ≡ or_else (lookup q current) (if inside then ended_status else none))
      × (contains q r.1 ≡ (contains q to_remove || (inside && is_some ended_status)))

  skip :
      (p : ℕ) (b : Bool) (current : List (ℕ × ProcessStatus)) (to_remove : List ℕ)
      (r : List (ℕ × ProcessStatus) × List ℕ)
      → if_ended (lookup p s.pid_statuses) ≡ none
      → Gathered b current to_remove r
      → Gathered (q == p || b) current to_remove r
  skip p b current to_remove r h g = ground arith

  take_up :
      (p : ℕ) (b : Bool) (current : List (ℕ × ProcessStatus)) (to_remove : List ℕ)
      (r : List (ℕ × ProcessStatus) × List ℕ) (status : ProcessStatus)
      → if_ended (lookup p s.pid_statuses) ≡ some status
      → Gathered b (insert p status current) (insert_sorted p to_remove) r
      → Gathered (q == p || b) current to_remove r
  take_up p b current to_remove r status h g = (
    g.0
        ∙ ap (λ x. or_else x (if b then ended_status else none))
            (lookup-insert_or p q status current)
        ∙ joined (lookup q current) ended_status (p == q) (q == p) b status (ground arith)
            (λ e. ground (arith, e, h)),
    ground (arith, h, g.1, contains-insert_sorted q p to_remove),
  )

  gathered :
      (ps : List ℕ) (current : List (ℕ × ProcessStatus)) (to_remove : List ℕ)
      → Gathered (contains q ps) current to_remove (gather_terminated s ps current to_remove)
  unfolding gather_terminated
  gathered [] current to_remove = rw (contains-nil q) (ground arith, ground arith)
  gathered (p ∷ ps) current to_remove =
      rw (contains-cons q p ps) (elim (Option-cases (lookup p s.pid_statuses)) [
        | inl e ↦
            rw (gather_terminated, e)
              (skip p (contains q ps) current to_remove _ (rw e refl)
                (gathered ps current to_remove))
        | inr (status, e) ↦
            rw (gather_terminated, e)
              (elim (Bool-cases (is_running status)) [
                | inl r ↦
                    rw (gather_terminated, r)
                      (skip p (contains q ps) current to_remove _
                        (ap if_ended e ∙ if_ended-running status r) (gathered ps current to_remove))
                | inr r ↦
                    rw (gather_terminated, r)
                      (take_up p (contains q ps) current to_remove _ status
                        (ap if_ended e ∙ if_ended_over status r)
                        (gathered ps (insert p status current) (insert_sorted p to_remove)))
              ])
      ])

reported_all :
    (q : ℕ) (b : Bool) (o : Option ProcessStatus)
    → b ≡ is_some o
    → or_else (lookup q []) (if b then if_ended o else none) ≡ if_ended o
unfolding lookup
reported_all q b o h = ground arith

-- What a process is reported as, and what the tables hold of it afterwards.
pub record Collected (s : ProcessStatuses) (r : List (ℕ × ProcessStatus) × ProcessStatuses) (q : ℕ)
    : Type 0 where
  pub reported : lookup q r.0 ≡ if_ended (lookup q s.pid_statuses)
  pub left :
      entry r.1 q ≡ (if is_some (if_ended (lookup q s.pid_statuses)) then gone else entry s q)

-- In coherent tables, `get_terminated_processes` reports exactly the processes whose status is not
-- running, each with its status; it removes those from all three tables and leaves the others as
-- they were; and the tables are coherent afterwards.
pub get_terminated_processes_lem :
    (s : ProcessStatuses)
    → IsTable s
    → ((q : ℕ) → Collected s (get_terminated_processes s) q)
      × IsTable (get_terminated_processes s).1
unfolding get_terminated_processes
get_terminated_processes_lem s t = (
  λ q.
      let (g, h) = gathered s q s.all_pids [] [] in
      let r = gather_terminated s s.all_pids [] [] in
      record {
        reported =
            g ∙ reported_all q (contains q s.all_pids) (lookup q s.pid_statuses) (listed (t q));
        left =
            entry-remove_each s r.1 q t
            ∙ ap (λ b. if b then gone else entry s q)
                (h ∙ ground (arith, listed (t q), contains-nil q));
      },
  remove_each-IsTable s (gather_terminated s s.all_pids [] []).1 t,
)

removed_all : (s : ProcessStatuses) (q : ℕ) → IsTable s → entry (remove_each s s.all_pids) q ≡ gone
removed_all s q t =
    entry-remove_each s s.all_pids q t ∙ (elim (Bool-cases (contains q s.all_pids)) [
      | inl e ↦ ap (λ b. if b then gone else entry s q) e
      | inr e ↦
          ap (λ b. if b then gone else entry s q) e
          ∙ (without_status (t q) (ground (arith, e, listed (t q))))
    ])

-- `clear` empties all three tables.
pub entry-clear : (s : ProcessStatuses) (q : ℕ) → IsTable s → entry (clear s) q ≡ gone
unfolding clear
entry-clear s q t =
    let e = removed_all s q t in
    Entry-eq (contains-nil q) (ap (λ x. x.status) e) (ap (λ x. x.timer) e)

pub clear-IsTable : (s : ProcessStatuses) → IsTable s → IsTable (clear s)
clear-IsTable s t q = rw (entry-clear s q t) IsCoherent-gone

-- In coherent tables, a process is reported once: collecting again, with no change in between,
-- reports nothing.
pub get_terminated_processes_again :
    (s : ProcessStatuses) (q : ℕ)
    → IsTable s
    → lookup q (get_terminated_processes (get_terminated_processes s).1).0 ≡ none
get_terminated_processes_again s q t =
    let (c, t') = get_terminated_processes_lem s t in
    let s' = (get_terminated_processes s).1 in
    let left = ap (λ e. if_ended e.status) (c q).left in
    ((get_terminated_processes_lem s' t').0 q).reported ∙ left ∙ not_ended (entry s q)
  where
    not_ended :
        (e : Entry) → if_ended (if is_some (if_ended e.status) then gone else e).status ≡ none
    not_ended e = elim (Option-cases (if_ended e.status)) [
      | inl h ↦ rw h h
      | inr (status, h) ↦ rw h refl
    ]
