-- ===== src/Backup/Known.antt =====
-- How many backups of a cluster run (internal/controller/backup.go, `backupRunner` and
-- `reconcileBackup`).
use native.Mathlib.Decide.{ℕ_discrete}
use kahuna_k8s_operator.Common.{
  ℕ, ◌≡◌, ◌≢◌, refl, sym, ap, ◌∙◌, ◌⊎◌, inl, inr, String, true, false, Option, none, some, List,
  string_dec, is_some, Bool-cases, arith,
}
use kahuna_k8s_operator.Common.Dict.{lookup, erase, lookup-insert, lookup-erase}
use kahuna_k8s_operator.Kahuna.{Membership, BackupInfo}
use kahuna_k8s_operator.Kahuna.Errors.{Result}
use kahuna_k8s_operator.Backup.Results.{BackupJob}
use kahuna_k8s_operator.Api.{Cluster, BackupSpec, Condition, Pod}
use kahuna_k8s_operator.ApiServer.{Reply}
use kahuna_k8s_operator.Traffic.{cluster_key}
use kahuna_k8s_operator.Backup.{Schedule}
use kahuna_k8s_operator.Backup.Volume.{BoundClaim, Event, read_backup_volume}
use kahuna_k8s_operator.Backup.Starts.{pass, started-IsStart}
use kahuna_k8s_operator.Backup.Pass.{BackupPass, polled, with_started, backup_by, reconcile_backup}
use kahuna_k8s_operator.Backup.Verdict.{still_running, Started}
use kahuna_k8s_operator.Backup.Discarded.{Reached-IsFresh}
use kahuna_k8s_operator.Backup.Runner.{
  Runner, start, finish, ended, poll, forget, job_of, job_at, is_done, Reached,
}

-- The job of this number is not done.
abbrev pub Runs : Runner → ℕ → Type 0
Runs r id =
    (job : BackupJob) × (lookup ℕ_discrete id r.store ≡ some job) × (is_some job.result ≡ false)

-- Every job that is not done is the one that the runner has for some cluster.
abbrev pub IsKnown : Runner → Type 0
IsKnown r = (id : ℕ) → Runs r id → (key : String) × (lookup string_dec key r.jobs ≡ some id)

-- The runner has no job of the cluster, or one that is done.
abbrev pub IsIdle : String → Runner → Type 0
IsIdle key r = (job_of key r ≡ none) ⊎ (is_done (job_of key r) ≡ true)

-- A number that the runner has for an idle cluster is of no running job.
idle_not_running :
    (key : String) (r : Runner) (id : ℕ)
    → IsIdle key r
    → lookup string_dec key r.jobs ≡ some id
    → Runs r id
    → ⊥
unfolding job_of
idle_not_running key r id (inl e) at (job, held, running) = cc (sym e ∙ ap (job_at r) at ∙ held)
idle_not_running key r id (inr e) at (job, held, running) =
    cc (sym e ∙ ap (λ o. is_done (job_at r o)) at ∙ ap is_done held ∙ running)

start-IsKnown :
    (key : String) (job : BackupJob) (r : Runner)
    → IsIdle key r
    → IsKnown r
    → IsKnown (start key job r)
unfolding start
start-IsKnown key job r idle known id (j, held, running) = elim (ℕ_discrete r.fresh id) [
  | yes new ↦ (key, rw new (ground (arith, lookup-insert string_dec key key id r.jobs)))
  | no old ↦ of_old old
]
  where
    of_old : r.fresh ≢ id → (k : String) × (lookup string_dec k (start key job r).jobs ≡ some id)
    of_old old =
        let runs : Runs r id =
          (j, ground (arith, lookup-insert ℕ_discrete id r.fresh job r.store), running) in
        let (k, at) = known id runs in
        elim (string_dec key k) [
          | yes same ↦ absurd (idle_not_running key r id idle (rw same at) runs)
          | no other ↦ (k, ground (arith, lookup-insert string_dec k key r.fresh r.jobs))
        ]

erase-IsKnown :
    (key : String) (r : Runner)
    → is_done (job_of key r) ≡ true
    → IsKnown r
    → IsKnown (record r { jobs = erase string_dec key r.jobs })
erase-IsKnown key r done known id runs =
    let (k, at) = known id runs in
    elim (string_dec key k) [
      | yes same ↦ absurd (idle_not_running key r id (inr done) (rw same at) runs)
      | no other ↦ (k, ground (arith, lookup-erase string_dec k key r.jobs))
    ]

poll-IsKnown : (key : String) (r : Runner) → IsKnown r → IsKnown (poll key r).1
unfolding poll
poll-IsKnown key r known = elim (Bool-cases (is_done (job_of key r))) [
  | inl done ↦ rw done (erase-IsKnown key r done known)
  | inr running ↦ rw running known
]

ended-IsKnown :
    (id : ℕ) (result : Result BackupInfo) (r : Runner) (o : Option BackupJob)
    → lookup ℕ_discrete id r.store ≡ o
    → IsKnown r
    → IsKnown (ended id result r o)
ended-IsKnown id result r none e known = known
ended-IsKnown id result r (some job) e known = λ other (j, held, running).
    elim (ℕ_discrete id other) [
      | yes same ↦ absurd (
          done_job j
            (sym (
                rw (← same) (
                  ground (
                    arith,
                    lookup-insert ℕ_discrete id id (record job { result = some result }) r.store,
                  )))
              ∙ held)
            running)
      | no differ ↦ known other (
        j,
        ground (
          arith,
          lookup-insert ℕ_discrete other id (record job { result = some result }) r.store,
        ),
        running,
      )
    ]
  where
    done_job :
        (j : BackupJob)
        → some (record job { result = some result }) ≡ some j
        → is_some j.result ≡ false
        → ⊥
    done_job j e running = cc (ap is_done e ∙ running)

-- The end of a backup leaves every running one known.
finish-IsKnown :
    (id : ℕ) (result : Result BackupInfo) (r : Runner) → IsKnown r → IsKnown (finish id result r)
unfolding finish
finish-IsKnown id result r known =
    ended-IsKnown id result r (lookup ℕ_discrete id r.store) refl known

erased_none :
    (key : String) (r : Runner)
    → job_of key (record r { jobs = erase string_dec key r.jobs }) ≡ none
unfolding job_of
erased_none key r = rw (lookup-erase string_dec key key r.jobs) (ground arith)

running_stays : (job : BackupJob) → is_done (some job) ≡ false → still_running (some job) ≡ some job
running_stays job running = rw running refl

polled-IsIdle :
    (key : String) (r : Runner) → still_running (poll key r).0 ≡ none → IsIdle key (poll key r).1
unfolding poll
polled-IsIdle key r h = of_job (job_of key r) refl (Bool-cases (is_done (job_of key r)))
  where
    of_job :
        (o : Option BackupJob)
        → job_of key r ≡ o
        → (is_done (job_of key r) ≡ true) ⊎ (is_done (job_of key r) ≡ false)
        → IsIdle key (poll key r).1
    of_job o e (inl done) = rw done (inl (erased_none key r))
    of_job none e (inr running) = rw running (inl e)
    of_job (some job) e (inr running) =
        cc (sym (running_stays job (ap is_done (sym e) ∙ running)) ∙ ap still_running (sym e) ∙ h)

-- A job that was forgotten while it ran is not stopped: after the next start under the same key, in
-- every state that the runner reaches, both run.
pub two_backups_run :
    (r : Runner)
    → Reached r
    → (key : String) (old : ℕ) → lookup string_dec key r.jobs ≡ some old
    → Runs r old
    → (job : BackupJob) → job.result ≡ none
    → Runs (start key job (forget key r)) old
      × Runs (start key job (forget key r)) r.fresh
      × (old ≢ r.fresh)
unfolding start forget
two_backups_run r reached key old at (j, held, running) job new =
    let below = Reached-IsFresh reached key old at in
    (
      (j, ground (arith, below, lookup-insert ℕ_discrete old r.fresh job r.store), running),
      (job, ground (arith, lookup-insert ℕ_discrete r.fresh r.fresh job r.store), rw new refl),
      λ e. omega (arith, below, e),
    )

module _ (set_status_condition : List Condition → Condition → List Condition)
    (remove_status_condition : List Condition → String → List Condition)
    (parse_schedule : String → Result Schedule) (show_time : ℕ → String) (cluster : Cluster)
    (now : ℕ) (config_hash : String) (membership : Option Membership) (pods : List Pod)
    (runner : Runner) (reply : Reply BoundClaim) (events : Result (List Event)) where
  abbrev after : BackupPass
  after =
      pass set_status_condition remove_status_condition parse_schedule show_time cluster now
        config_hash membership pods runner reply events

  with_started-IsKnown :
      (o : Option Started)
      → (is_some o ≡ true → still_running (polled cluster runner) ≡ none)
      → IsKnown runner
      → IsKnown (with_started (cluster_key cluster) o (poll (cluster_key cluster) runner).1)
  with_started-IsKnown none idle known = poll-IsKnown (cluster_key cluster) runner known
  with_started-IsKnown (some s) idle known =
      start-IsKnown (cluster_key cluster) s.job (poll (cluster_key cluster) runner).1
        (polled-IsIdle (cluster_key cluster) runner (idle refl))
        (poll-IsKnown (cluster_key cluster) runner known)

  abbrev by_spec : Option BackupSpec → BackupPass
  by_spec =
      backup_by set_status_condition remove_status_condition parse_schedule show_time cluster now
        config_hash membership pods runner (λ spec. read_backup_volume cluster spec reply events)

  idle_when_started :
      (spec : BackupSpec) (o : Option Started)
      → cluster.spec.backup ≡ some spec
      → (by_spec (some spec)).started ≡ o
      → is_some o ≡ true
      → still_running (polled cluster runner) ≡ none
  idle_when_started spec none asked e h = cc
  idle_when_started spec (some s) asked e h =
      (started-IsStart set_status_condition remove_status_condition parse_schedule show_time cluster
        now config_hash membership pods runner reply events (some spec) s asked e).3.4

  by_spec-IsKnown :
      (o : Option BackupSpec)
      → cluster.spec.backup ≡ o
      → is_some o ≡ true
      → IsKnown runner
      → IsKnown (by_spec o).runner
  by_spec-IsKnown none e asked known = cc
  by_spec-IsKnown (some spec) e asked known =
      with_started-IsKnown (by_spec (some spec)).started
        (idle_when_started spec (by_spec (some spec)).started e refl) known

  -- While the spec asks for backups, a pass keeps this: every backup that runs is the one that the
  -- runner has for its cluster, so that no cluster has two.
  pub reconcile_backup-IsKnown :
      is_some cluster.spec.backup ≡ true → IsKnown runner → IsKnown after.runner
  unfolding reconcile_backup
  reconcile_backup-IsKnown asked known = by_spec-IsKnown cluster.spec.backup refl asked known
