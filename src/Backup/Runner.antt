-- ===== src/Backup/Runner.antt =====
-- The backups in the background (internal/controller/backup.go, `backupRunner`). The jobs are
-- shared by pointer between the runner's map and the goroutine that ends the job, so a store maps
-- a number, the pointer, to each job; the mutex makes each operation one step.
use native.Mathlib.Decide.{ℕ_discrete}
use kahuna_k8s_operator.Common.{
  ℕ, ◌+◌, String, Bool, false, Option, none, some, [], string_dec, is_some, if◌then◌else◌,
}
use kahuna_k8s_operator.Common.Dict.{Dict, lookup, insert, erase}
use kahuna_k8s_operator.Kahuna.{BackupInfo}
use kahuna_k8s_operator.Kahuna.Errors.{Result}
use kahuna_k8s_operator.Backup.Results.{BackupJob}

pub record Runner : Type 0 where
  pub jobs : Dict String ℕ
  pub store : Dict ℕ BackupJob
  pub fresh : ℕ

abbrev pub idle : Runner
idle = record { jobs = []; store = []; fresh = 0 }

-- The part of `start` before the goroutine; the goroutine keeps the pointer `r.fresh`.
unfoldable pub start : String → BackupJob → Runner → Runner
start key job r = record {
  jobs = insert string_dec key r.fresh r.jobs;
  store = insert ℕ_discrete r.fresh job r.store;
  fresh = r.fresh + 1;
}

abbrev pub ended : ℕ → Result BackupInfo → Runner → Option BackupJob → Runner
ended id result r none = r
ended id result r (some job) = record r {
  store = insert ℕ_discrete id (record job { result = some result }) r.store;
}

-- The end of the goroutine that holds the pointer.
unfoldable pub finish : ℕ → Result BackupInfo → Runner → Runner
finish id result r = ended id result r (lookup ℕ_discrete id r.store)

-- The job under the key, by its pointer.
abbrev pub job_at : Runner → Option ℕ → Option BackupJob
job_at r none = none
job_at r (some id) = lookup ℕ_discrete id r.store

unfoldable pub job_of : String → Runner → Option BackupJob
job_of key r = job_at r (lookup string_dec key r.jobs)

abbrev pub is_done : Option BackupJob → Bool
is_done none = false
is_done (some job) = is_some job.result

-- A finished job is removed.
unfoldable pub poll : String → Runner → Option BackupJob × Runner
unfolding job_of
poll key r =
    let job = job_of key r in
    (job, if is_done job then record r { jobs = erase string_dec key r.jobs } else r)

unfoldable pub forget : String → Runner → Runner
forget key r = record r { jobs = erase string_dec key r.jobs }

-- The runner's steps, and the states that they reach.
pub data Step : Runner → Runner → Type 0 where
  starts : (key : String) (job : BackupJob) (r : Runner) → Step r (start key job r)
  ends : (id : ℕ) (result : Result BackupInfo) (r : Runner) → Step r (finish id result r)
  polls : (key : String) (r : Runner) → Step r (poll key r).1
  forgets : (key : String) (r : Runner) → Step r (forget key r)

pub data Reached : Runner → Type 0 where
  at_first : Reached idle
  later : {r r' : Runner} → Reached r → Step r r' → Reached r'
