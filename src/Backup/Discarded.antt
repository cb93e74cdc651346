-- ===== src/Backup/Discarded.antt =====
-- Whom a backup's result reaches, and how often (internal/controller/backup.go, `backupRunner`).
use native.Mathlib.Decide.{ℕ_discrete}
use kahuna_k8s_operator.Common.{
  ℕ, ◌<◌, ◌≡◌, ◌≢◌, refl, ◌∙◌, ap, inl, inr, String, true, Option, none, some, string_dec, is_some,
  arith, Bool-cases,
}
use kahuna_k8s_operator.Common.Dict.{lookup, lookup-insert, lookup-erase}
use kahuna_k8s_operator.Kahuna.{BackupInfo}
use kahuna_k8s_operator.Kahuna.Errors.{Result}
use kahuna_k8s_operator.Backup.Results.{BackupJob}
use kahuna_k8s_operator.Backup.Runner.{
  Runner, start, finish, ended, job_of, is_done, poll, forget, Step, starts, ends, polls, forgets,
  Reached, at_first, later,
}

-- No pointer in use is the fresh one.
abbrev IsFresh : Runner → Type 0
IsFresh r = (key : String) (id : ℕ) → lookup string_dec key r.jobs ≡ some id → id < r.fresh

erase-IsFresh : (key : String) (r : Runner) → IsFresh r → IsFresh (forget key r)
unfolding forget
erase-IsFresh key r fresh k id h = ground (arith, fresh k id, lookup-erase string_dec k key r.jobs)

start-IsFresh :
    (key : String) (job : BackupJob) (r : Runner) → IsFresh r → IsFresh (start key job r)
unfolding start
start-IsFresh key job r fresh k id h =
    ground (arith, fresh k id, lookup-insert string_dec k key r.fresh r.jobs)

ended-IsFresh :
    (id : ℕ) (result : Result BackupInfo) (r : Runner) (o : Option BackupJob)
    → IsFresh r
    → IsFresh (ended id result r o)
ended-IsFresh id result r none fresh = fresh
ended-IsFresh id result r (some job) fresh = fresh

poll-IsFresh : (key : String) (r : Runner) → IsFresh r → IsFresh (poll key r).1
unfolding poll forget
poll-IsFresh key r fresh = elim (Bool-cases (is_done (job_of key r))) [
  | inl done ↦ rw done (erase-IsFresh key r fresh)
  | inr running ↦ rw running fresh
]

Step-IsFresh : {r r' : Runner} → Step r r' → IsFresh r → IsFresh r'
unfolding finish
Step-IsFresh (starts key job r) fresh = start-IsFresh key job r fresh
Step-IsFresh (ends id result r) fresh =
    ended-IsFresh id result r (lookup ℕ_discrete id r.store) fresh
Step-IsFresh (polls key r) fresh = poll-IsFresh key r fresh
Step-IsFresh (forgets key r) fresh = erase-IsFresh key r fresh

pub Reached-IsFresh : {r : Runner} → Reached r → IsFresh r
unfolding lookup
Reached-IsFresh at_first = λ key id h. cc
Reached-IsFresh (later before step) = Step-IsFresh step (Reached-IsFresh before)

lookup-finish_other :
    (id other : ℕ) (result : Result BackupInfo) (r : Runner)
    → id ≢ other
    → lookup ℕ_discrete other (finish id result r).store ≡ lookup ℕ_discrete other r.store
unfolding finish
lookup-finish_other id other result r differ = by_job (lookup ℕ_discrete id r.store)
  where
    by_job :
        (o : Option BackupJob)
        → lookup ℕ_discrete other (ended id result r o).store ≡ lookup ℕ_discrete other r.store
    by_job none = refl
    by_job (some job) =
        ground
          (arith, lookup-insert ℕ_discrete other id (record job { result = some result }) r.store)

finish-jobs :
    (id : ℕ) (result : Result BackupInfo) (r : Runner) → (finish id result r).jobs ≡ r.jobs
unfolding finish
finish-jobs id result r = by_job (lookup ℕ_discrete id r.store)
  where
    by_job : (o : Option BackupJob) → (ended id result r o).jobs ≡ r.jobs
    by_job none = refl
    by_job (some job) = refl

-- Where the map sends the key, and the job there.
job_of-at :
    (key : String) (r : Runner) (id : ℕ) (job : BackupJob)
    → lookup string_dec key r.jobs ≡ some id
    → lookup ℕ_discrete id r.store ≡ some job
    → job_of key r ≡ some job
unfolding job_of
job_of-at key r id job at_id at_job = rw at_id at_job

job_of-finish_other :
    (key : String) (r : Runner) (id other : ℕ) (result : Result BackupInfo) (job : BackupJob)
    → lookup string_dec key r.jobs ≡ some other
    → lookup ℕ_discrete other r.store ≡ some job
    → id ≢ other
    → job_of key (finish id result r) ≡ some job
job_of-finish_other key r id other result job at_id at_job differ =
    job_of-at key (finish id result r) other job
      (ap (λ jobs. lookup string_dec key jobs) (finish-jobs id result r) ∙ at_id)
      (lookup-finish_other id other result r differ ∙ at_job)

started_id :
    (key : String) (job : BackupJob) (r : Runner)
    → (lookup string_dec key (start key job r).jobs ≡ some r.fresh)
      × (lookup ℕ_discrete r.fresh (start key job r).store ≡ some job)
unfolding start
started_id key job r = (
  ground (arith, lookup-insert string_dec key key r.fresh r.jobs),
  ground (arith, lookup-insert ℕ_discrete r.fresh r.fresh job r.store),
)

forget-fresh : (key : String) (r : Runner) → (forget key r).fresh ≡ r.fresh
unfolding forget
forget-fresh key r = refl

-- In every state that the runner reaches, a backup that was forgotten while it ran ends without an
-- effect on the one that was started under the same key after it.
pub forgotten_is_discarded :
    (r : Runner)
    → Reached r
    → (key : String) (old : ℕ) → lookup string_dec key r.jobs ≡ some old
    → (job : BackupJob) (result : Result BackupInfo)
    → (poll key (finish old result (start key job (forget key r)))).0 ≡ some job
unfolding poll
forgotten_is_discarded r reached key old at_old job result =
    let (at_id, at_job) = started_id key job (forget key r) in
    job_of-finish_other key (start key job (forget key r)) old (forget key r).fresh result job at_id
      at_job (λ e. omega (arith, Reached-IsFresh reached key old at_old, forget-fresh key r, e))

poll-done :
    (key : String) (r : Runner) (o : Option BackupJob)
    → job_of key r ≡ o
    → is_done o ≡ true
    → job_of key (poll key r).1 ≡ none
unfolding poll job_of
poll-done key r o e done = rw (e, done) (rw (lookup-erase string_dec key key r.jobs) (ground arith))

-- A result is given out once: the poll after one that gave a finished job gives none.
pub result_applied_once :
    (r : Runner) (key : String) (job : BackupJob)
    → (poll key r).0 ≡ some job
    → is_some job.result ≡ true
    → (poll key (poll key r).1).0 ≡ none
unfolding poll
result_applied_once r key job got done = poll-done key r (some job) got done
