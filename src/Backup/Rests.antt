-- ===== src/Backup/Rests.antt =====
-- What is due after a full backup (internal/controller/backup.go, `applyBackupResult` and
-- `decideBackup`).
use native.Mathlib.Decide.{ℕ_discrete}
use mathlib.Core.Path.{subst}
use kahuna_k8s_operator.Common.{
  ℕ, ◌≤◌, ◌<◌, ◌≡◌, refl, ap, ◌∙◌, sym, inl, inr, true, Option, none, some, Bool-cases, str_eq,
  arith,
}
use kahuna_k8s_operator.Api.{BackupStatus}
use kahuna_k8s_operator.Kahuna.{BackupInfo}
use kahuna_k8s_operator.Kahuna.Errors.{ok}
use kahuna_k8s_operator.Backup.{
  no_backup, full, BackupInput, Schedule, decide_backup, due_backup, without_full, latest_due,
  is_over, later_of,
}
use kahuna_k8s_operator.Backup.Walk.{IsCron}
use kahuna_k8s_operator.Backup.Results.{BackupJob, apply_backup_result}
use kahuna_k8s_operator.Backup.Retries.{decide_backup_free}

-- No scheduled time is after the first and up to the second.
abbrev Quiet : (ℕ → Type 0) → ℕ → ℕ → Type 0
Quiet At base now = (u : ℕ) → At u → base < u → now < u

latest_due-Quiet :
    {At : ℕ → Type 0} {s : Schedule} (cron : IsCron At s) (base now : ℕ)
    → Quiet At base now
    → latest_due s base now ≡ (0, s base)
unfolding latest_due
latest_due-Quiet {s = s} cron base now quiet = rw (over, latest_due) refl
  where
    over : is_over (s base) now ≡ true
    over = elim (ℕ_discrete (s base) 0) [
      | yes z ↦ ground arith
      | no nz ↦
          let (lands, after) = cron.lands base (omega arith) in
          (let late = quiet (s base) lands after in ground arith)
    ]

-- With no full backup due, and the incremental schedule quiet, nothing is.
without_full-none :
    {At : ℕ → Type 0} (i : BackupInput) (last_full full_next : ℕ) (o : Option Schedule)
    → ((s : Schedule) → o ≡ some s → IsCron At s)
    → Quiet At (later_of last_full i.status.last_incremental_schedule_time) i.now
    → (without_full i last_full full_next o).kind ≡ no_backup
without_full-none i last_full full_next none cron quiet = refl
without_full-none i last_full full_next (some s) cron quiet =
    elim (Bool-cases (str_eq i.status.last_backup_id "")) [
      | inl unknown ↦ rw unknown refl
      | inr known ↦
          rw
            (
              known,
              latest_due-Quiet (cron s refl)
                  (later_of last_full i.status.last_incremental_schedule_time) i.now quiet,
            )
            refl
    ]

due_backup-Quiet :
    {At AtIncrement : ℕ → Type 0} (i : BackupInput) (o : Option ℕ) (last_full : ℕ)
    → o ≡ some last_full
    → IsCron At i.full_schedule
    → Quiet At last_full i.now
    → ((s : Schedule) → i.incremental_schedule ≡ some s → IsCron AtIncrement s)
    → Quiet AtIncrement (later_of last_full i.status.last_incremental_schedule_time) i.now
    → (due_backup i o).kind ≡ no_backup
unfolding due_backup
due_backup-Quiet i o last_full e cron quiet cron_increment quiet_increment =
    rw (e, latest_due-Quiet cron last_full i.now quiet)
      (without_full-none i last_full (i.full_schedule last_full) i.incremental_schedule
        cron_increment quiet_increment)

full_status :
    (st : BackupStatus) (job : BackupJob) (info : BackupInfo) (now : ℕ)
    → job.kind ≡ full
    → job.scheduled ≤ now
    → let st' = apply_backup_result st job (ok info) now in
      (st'.consecutive_failures ≡ 0)
      × (st'.last_unclaimed_time ≡ none)
      × (st'.last_full_schedule_time ≡ some job.scheduled)
      × (later_of job.scheduled st'.last_incremental_schedule_time ≡ now)
unfolding apply_backup_result
full_status st job info now e h = rw e (refl, refl, refl, later)
  where
    later : later_of job.scheduled (some now) ≡ now
    later = ground arith

-- After a full backup succeeds, no backup is started until the full schedule has a time after the
-- one that it covers, or the incremental schedule one after the backup's end.
pub full_backup_rests :
    {At AtIncrement : ℕ → Type 0} (st : BackupStatus) (job : BackupJob) (info : BackupInfo)
    (now : ℕ)
    → job.kind ≡ full
    → job.scheduled ≤ now
    → (i : BackupInput) → i.status ≡ apply_backup_result st job (ok info) now
    → IsCron At i.full_schedule
    → ((s : Schedule) → i.incremental_schedule ≡ some s → IsCron AtIncrement s)
    → Quiet At job.scheduled i.now
    → Quiet AtIncrement now i.now
    → (decide_backup i).kind ≡ no_backup
full_backup_rests {AtIncrement = AtIncrement} st job info now is_full h i same cron cron_increment
      quiet quiet_increment =
    let (failures, waits, last, later) = full_status st job info now is_full h in
    ap (λ d. d.kind)
      (decide_backup_free i (ap (λ s. s.consecutive_failures) same ∙ failures)
        (ap (λ s. s.last_unclaimed_time) same ∙ waits))
    ∙ due_backup-Quiet i i.status.last_full_schedule_time job.scheduled
        (ap (λ s. s.last_full_schedule_time) same ∙ last) cron quiet cron_increment
        (subst (λ t. Quiet AtIncrement t i.now)
          (sym (ap (λ s. later_of job.scheduled s.last_incremental_schedule_time) same ∙ later))
          quiet_increment)
