-- ===== src/Processes/Laws.antt =====
-- The tables of child processes as one table (fuzzer/fuzzer/commander.cpp: `ProcessStatuses`).
use fuzzer_goal_directed.Prelude.{
  ℕ, ◌≡◌, refl, ap, ◌∙◌, Bool, true, false, not, ◌&&◌, ◌||◌, Option, none, some, List, [], ◌∷◌,
  arith, ◌==◌, if◌then◌else◌,
}
use fuzzer_goal_directed.OrderedMap.{lookup, lookup-assign, lookup-insert, lookup-erase}
use fuzzer_goal_directed.Random.{insert_sorted}
use fuzzer_goal_directed.Memory.{contains}
use fuzzer_goal_directed.Processes.{
  ProcessStatus, is_running, ProcessStatuses, erase_pid, insert_process, update, remove,
}

pub contains-insert_sorted :
    (q n : ℕ) (xs : List ℕ) → contains q (insert_sorted n xs) ≡ (q == n || contains q xs)
unfolding contains insert_sorted
contains-insert_sorted q n [] = refl
contains-insert_sorted q n (x ∷ xs) = ground (arith, contains-insert_sorted q n xs)

contains-erase_pid :
    (q p : ℕ) (xs : List ℕ) → contains q (erase_pid p xs) ≡ (not (p == q) && contains q xs)
unfolding contains erase_pid
contains-erase_pid q p [] = ground arith
contains-erase_pid q p (x ∷ xs) = ground (arith, contains-erase_pid q p xs)

-- What the three tables hold of a process.
pub record Entry : Type 0 where
  pub listed : Bool
  pub status : Option ProcessStatus
  pub timer : Option ℕ

abbrev pub gone : Entry
gone = record { listed = false; status = none; timer = none }

abbrev pub entry : ProcessStatuses → ℕ → Entry
entry s q = record {
  listed = contains q s.all_pids;
  status = lookup q s.pid_statuses;
  timer = lookup q s.pid_timers;
}

-- A process is listed exactly when it has a status, and has a timer only then.
pub record IsCoherent (e : Entry) : Type 0 where
  pub absent : e.status ≡ none → (e.listed ≡ false) × (e.timer ≡ none)
  pub present : (status : ProcessStatus) → e.status ≡ some status → e.listed ≡ true

pub Entry-eq : {e f : Entry} → e.listed ≡ f.listed → e.status ≡ f.status → e.timer ≡ f.timer → e ≡ f
Entry-eq {e} {f} l s t =
    ap (λ x. record { listed = x; status = e.status; timer = e.timer }) l
    ∙ ap (λ x. record { listed = f.listed; status = x; timer = e.timer }) s
    ∙ ap (λ x. record { listed = f.listed; status = f.status; timer = x }) t

abbrev pub IsTable : ProcessStatuses → Type 0
IsTable s = (q : ℕ) → IsCoherent (entry s q)

abbrev pub is_some {ℓ} : {A : Type ℓ} → Option A → Bool
is_some none = false
is_some (some a) = true

pub without_status : {e : Entry} → IsCoherent e → e.status ≡ none → e ≡ gone
without_status c h = Entry-eq (c.absent h).0 h (c.absent h).1

-- A choice between entries is made field by field.
pub Entry-if :
    {e f g : Entry} (b : Bool)
    → (b ≡ true → (e.listed ≡ f.listed) × (e.status ≡ f.status) × (e.timer ≡ f.timer))
    → (b ≡ false → (e.listed ≡ g.listed) × (e.status ≡ g.status) × (e.timer ≡ g.timer))
    → e ≡ (if b then f else g)
Entry-if true h k = Entry-eq (h refl).0 (h refl).1 (h refl).2
Entry-if false h k = Entry-eq (k refl).0 (k refl).1 (k refl).2

module _ (s : ProcessStatuses) (p q : ℕ) where
  pub entry-remove : IsTable s → entry (remove s p) q ≡ (if p == q then gone else entry s q)
  unfolding remove
  entry-remove t =
      Entry-if (p == q)
        (λ k. ground (
          arith,
          t q,
          contains-erase_pid q p s.all_pids,
          lookup-erase p q s.pid_statuses,
          lookup-erase p q s.pid_timers,
        ))
        (λ k. ground (
          arith,
          contains-erase_pid q p s.all_pids,
          lookup-erase p q s.pid_statuses,
          lookup-erase p q s.pid_timers,
        ))

  pub entry-insert_process :
      (timer : ℕ) (status : ProcessStatus)
      → IsTable s
      → lookup p s.pid_statuses ≡ none
      → entry (insert_process s timer p status) q ≡ (
          if p == q
          then record {
            listed = true;
            status = some status;
            timer = if is_running status then some timer else none;
          }
          else entry s q)
  unfolding insert_process
  entry-insert_process timer status t h =
      Entry-if (p == q)
        (λ k. ground (
          arith,
          t q,
          contains-insert_sorted q p s.all_pids,
          lookup-insert p q status s.pid_statuses h,
          lookup-insert p q timer s.pid_timers,
        ))
        (λ k. ground (
          arith,
          t p,
          contains-insert_sorted q p s.all_pids,
          lookup-insert p q status s.pid_statuses h,
          lookup-insert p q timer s.pid_timers,
        ))

  pub entry-update :
      (status : ProcessStatus)
      → entry (update s p status) q ≡ (
          if p == q && is_some (lookup q s.pid_statuses)
          then record (entry s q) { status = some status }
          else entry s q)
  unfolding update
  entry-update status =
      Entry-if (p == q && is_some (lookup q s.pid_statuses))
        (λ k. ground (arith, lookup-assign p q status s.pid_statuses))
        (λ k. ground (arith, lookup-assign p q status s.pid_statuses))
