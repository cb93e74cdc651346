-- ===== src/Backup/Table.antt =====
-- The background runner (internal/controller/backup.go, `backupRunner`) against a table that has no
-- pointers: for each cluster at most one job, under the ticket that its goroutine holds.
use mathlib.Core.Logic.{ite}
use native.Mathlib.Decide.{ℕ_discrete}
use kahuna_k8s_operator.Common.{
  ℕ, ◌==◌, ◌≡◌, ◌≢◌, refl, sym, inl, inr, String, Option, none, some, string_dec, arith, Bool-cases,
  if◌then◌else◌,
}
use kahuna_k8s_operator.Common.Dict.{
  lookup, lookup-insert, lookup-insert_same, lookup-insert_other, lookup-erase,
}
use kahuna_k8s_operator.Kahuna.{BackupInfo}
use kahuna_k8s_operator.Kahuna.Errors.{Result}
use kahuna_k8s_operator.Backup.Results.{BackupJob}
use kahuna_k8s_operator.Backup.Runner.{
  Runner, start, finish, ended, job_of, job_at, is_done, poll, forget, Step, starts, ends, polls,
  forgets, Reached,
}
use kahuna_k8s_operator.Backup.Discarded.{Reached-IsFresh}

abbrev pub Table : Type 0
Table = String → Option (ℕ × BackupJob)

abbrev pub without_ticket : Option (ℕ × BackupJob) → Option BackupJob
without_ticket none = none
without_ticket (some (ticket, job)) = some job

-- The result goes to the job that has the ticket, wherever that is.
abbrev pub with_result_for : ℕ → Result BackupInfo → Option (ℕ × BackupJob) → Option (ℕ × BackupJob)
with_result_for ticket result none = none
with_result_for ticket result (some (own, job)) =
    if own == ticket then some (own, record job { result = some result }) else some (own, job)

-- What a step makes of the table, the new ticket for a start given.
abbrev pub after_step : {r r' : Runner} → Step r r' → ℕ → Table → Table
after_step (starts key job r) ticket t = λ k. ite (string_dec key k) (some (ticket, job)) (t k)
after_step (ends id result r) ticket t = λ k. with_result_for id result (t k)
after_step (polls key r) ticket t =
    λ k. ite (string_dec key k) (if is_done (without_ticket (t k)) then none else t k) (t k)
after_step (forgets key r) ticket t = λ k. ite (string_dec key k) none (t k)

abbrev pub ticketed : ℕ → Option BackupJob → Option (ℕ × BackupJob)
ticketed id none = none
ticketed id (some job) = some (id, job)

abbrev pub seen_at_pointer : Runner → Option ℕ → Option (ℕ × BackupJob)
seen_at_pointer r none = none
seen_at_pointer r (some id) = ticketed id (lookup ℕ_discrete id r.store)

-- The table that a runner stands for.
abbrev pub table_of : Runner → Table
table_of r = λ key. seen_at_pointer r (lookup string_dec key r.jobs)

without_ticket-ticketed : (id : ℕ) (o : Option BackupJob) → without_ticket (ticketed id o) ≡ o
without_ticket-ticketed id none = refl
without_ticket-ticketed id (some job) = refl

without_ticket-seen :
    (r : Runner) (o : Option ℕ) → without_ticket (seen_at_pointer r o) ≡ job_at r o
without_ticket-seen r none = refl
without_ticket-seen r (some id) = without_ticket-ticketed id (lookup ℕ_discrete id r.store)

job_of-table_of : (key : String) (r : Runner) → job_of key r ≡ without_ticket (table_of r key)
unfolding job_of
job_of-table_of key r = sym (without_ticket-seen r (lookup string_dec key r.jobs))

start-table_of :
    (key : String) (job : BackupJob) (r : Runner)
    → Reached r
    → (k : String)
    → table_of (start key job r) k ≡ ite (string_dec key k) (some (r.fresh, job)) (table_of r k)
unfolding start
start-table_of key job r reached k =
    rw (lookup-insert string_dec k key r.fresh r.jobs) (by_key (string_dec key k))
  where
    old :
        (o : Option ℕ)
        → lookup string_dec k r.jobs ≡ o
        → seen_at_pointer (start key job r) o ≡ seen_at_pointer r o
    old none e = refl
    old (some id) e =
        let below = Reached-IsFresh reached k id e in
        ground (arith, below, lookup-insert ℕ_discrete id r.fresh job r.store)

    by_key :
        (d : Dec (key ≡ k))
        → seen_at_pointer (start key job r) (ite d (some r.fresh) (lookup string_dec k r.jobs))
          ≡ ite d (some (r.fresh, job)) (table_of r k)
    by_key (yes same) = rw (lookup-insert_same ℕ_discrete r.fresh job r.store) refl
    by_key (no other) = old (lookup string_dec k r.jobs) refl

finish-table_of :
    (id : ℕ) (result : Result BackupInfo) (r : Runner) (k : String)
    → table_of (finish id result r) k ≡ with_result_for id result (table_of r k)
unfolding finish
finish-table_of id result r k = by_job (lookup ℕ_discrete id r.store) refl
  where
    untouched :
        (own : ℕ) (o : Option BackupJob)
        → id ≢ own
        → ticketed own o ≡ with_result_for id result (ticketed own o)
    untouched own none other = refl
    untouched own (some job) other = ground arith

    at_none :
        (o : Option ℕ)
        → lookup ℕ_discrete id r.store ≡ none
        → seen_at_pointer r o ≡ with_result_for id result (seen_at_pointer r o)
    at_none none gone = refl
    at_none (some own) gone = elim (ℕ_discrete id own) [
      | yes same ↦ rw (← same, gone) refl
      | no other ↦ untouched own (lookup ℕ_discrete own r.store) other
    ]

    at_pointer :
        (job : BackupJob) (o : Option ℕ)
        → lookup ℕ_discrete id r.store ≡ some job
        → seen_at_pointer (ended id result r (some job)) o
          ≡ with_result_for id result (seen_at_pointer r o)
    at_pointer job none there = refl
    at_pointer job (some own) there = elim (ℕ_discrete id own) [
      | yes same ↦
          rw
            (
              ← same,
              there,
              lookup-insert_same ℕ_discrete id (record job { result = some result }) r.store,
            )
            (ground arith)
      | no other ↦
          rw
            (lookup-insert_other ℕ_discrete own id (record job { result = some result }) r.store
              other)
            (untouched own (lookup ℕ_discrete own r.store) other)
    ]

    by_job :
        (o : Option BackupJob)
        → lookup ℕ_discrete id r.store ≡ o
        → table_of (ended id result r o) k ≡ with_result_for id result (table_of r k)
    by_job none gone = at_none (lookup string_dec k r.jobs) gone
    by_job (some job) there = at_pointer job (lookup string_dec k r.jobs) there

forget-table_of :
    (key : String) (r : Runner) (k : String)
    → table_of (forget key r) k ≡ ite (string_dec key k) none (table_of r k)
unfolding forget
forget-table_of key r k = rw (lookup-erase string_dec k key r.jobs) (by_key (string_dec key k))
  where
    by_key :
        (d : Dec (key ≡ k))
        → seen_at_pointer (forget key r) (ite d none (lookup string_dec k r.jobs))
          ≡ ite d none (table_of r k)
    by_key (yes same) = refl
    by_key (no other) = refl

poll-table_of :
    (key : String) (r : Runner) (k : String)
    → table_of (poll key r).1 k
      ≡ ite
          (string_dec key k)
          (if is_done (without_ticket (table_of r k)) then none else table_of r k)
          (table_of r k)
unfolding poll
poll-table_of key r k = elim (string_dec key k) [
  | yes same ↦
      rw (← same, ← job_of-table_of key r)
        (elim (Bool-cases (is_done (job_of key r))) [
          | inl done ↦ rw done (rw (lookup-erase string_dec key key r.jobs) (ground arith))
          | inr running ↦ rw running (ground arith)
        ])
  | no other ↦ elim (Bool-cases (is_done (job_of key r))) [
    | inl done ↦ rw done (rw (lookup-erase string_dec k key r.jobs) (ground arith))
    | inr running ↦ rw running (ground arith)
  ]
]

-- A reached runner does, step by step, what the table does, and a poll reports the table's job: the
-- pointers that the map and the goroutines share show nothing else.
pub runner_refines :
    {r r' : Runner}
    → Reached r
    → (s : Step r r') (k : String)
    → (table_of r' k ≡ after_step s r.fresh (table_of r) k)
      × ((poll k r').0 ≡ without_ticket (table_of r' k))
unfolding poll
runner_refines {r} {r'} reached s k = (by_step s reached, job_of-table_of k r')
  where
    by_step :
        {q q' : Runner} (s : Step q q')
        → Reached q
        → table_of q' k ≡ after_step s q.fresh (table_of q) k
    by_step (starts key job q) reached = start-table_of key job q reached k
    by_step (ends id result q) reached = finish-table_of id result q k
    by_step (polls key q) reached = poll-table_of key q k
    by_step (forgets key q) reached = forget-table_of key q k
