-- ===== src/Backup/Results.antt =====
-- A finished backup recorded in status (internal/controller/backup.go, `applyBackupResult`).
-- A failure's message is cut at 1024 characters here, at 1024 bytes there.
use kahuna_k8s_operator.Common.{
  ℕ, zero, suc, ◌+◌, ◌==◌, ltb, String, ◌<>◌, Bool, false, ◌&&◌, Option, none, some, str_eq,
  if◌then◌else◌,
}
use kahuna_k8s_operator.Api.{BackupStatus}
use kahuna_k8s_operator.Kahuna.{BackupInfo}
use kahuna_k8s_operator.Kahuna.Errors.{
  BackupError, Error, Result, ok, err, error_text, as_backup_error, is_unclaimed, parent_missing,
}
use kahuna_k8s_operator.Backup.{BackupKind, no_backup, full, incremental, unclaimed_fail_after}

abbrev max_failure_message : ℕ
max_failure_message = 1024

-- `result` is none until the backup is done.
pub record BackupJob : Type 0 where
  pub kind : BackupKind
  pub scheduled : ℕ
  pub parent : String
  pub result : Option (Result BackupInfo)

abbrev pub kind_text : BackupKind → String
kind_text no_backup = ""
kind_text full = "Full"
kind_text incremental = "Incremental"

-- `msg[:n]`
unfoldable cut : ℕ → String → String
cut zero s = ""
cut (suc n) String.[] = ""
cut (suc n) (String.◌∷◌ c s) = String.◌∷◌ c (cut n s)

abbrev reported_kind : BackupInfo → String
reported_kind info = if str_eq info.actual_kind "" then info.kind else info.actual_kind

abbrev pub settled : BackupStatus → BackupInfo → ℕ → BackupStatus
settled st info now = record st {
  last_successful_time = some now;
  last_backup_id = info.backup_id;
  last_backup_type = reported_kind info;
  consecutive_failures = 0;
  last_failure_time = none;
  last_failure_message = "";
  unclaimed_since = none;
  last_unclaimed_time = none;
}

abbrev with_success : BackupStatus → BackupJob → BackupInfo → ℕ → BackupStatus
with_success st job info now = elim job.kind [
  | full ↦ record (settled st info now) {
    last_full_schedule_time = some job.scheduled;
    last_incremental_schedule_time = some now;
  }
  | _ ↦ record (settled st info now) { last_incremental_schedule_time = some job.scheduled }
]

-- The job is an incremental backup whose parent is gone from the catalog.
abbrev outcome_is : Option BackupError → String → Bool
outcome_is none outcome = false
outcome_is (some be) outcome = str_eq be.outcome outcome

unfoldable pub parent_is_gone : BackupKind → Error → Bool
parent_is_gone incremental e = outcome_is (as_backup_error e) parent_missing
parent_is_gone no_backup e = false
parent_is_gone full e = false

abbrev counted : BackupStatus → BackupJob → Error → ℕ → BackupStatus
counted st job e now = record st {
  consecutive_failures = st.consecutive_failures + 1;
  last_failure_time = some now;
  last_failure_message =
      kind_text job.kind <> (" backup: " <> cut max_failure_message (error_text e));
}

-- A failure that is not held back as unclaimed.
unfoldable pub with_failure : BackupStatus → BackupJob → Error → ℕ → BackupStatus
unfolding parent_is_gone cut
with_failure st job e now =
    let cleared : BackupStatus = record st { unclaimed_since = none; last_unclaimed_time = none } in
    if parent_is_gone job.kind e
    then record cleared { last_backup_id = ""; last_full_schedule_time = none }
    else counted cleared job e now

abbrev pub since_or : Option ℕ → ℕ → ℕ
since_or none now = now
since_or (some t) now = t

unfoldable pub with_unclaimed : BackupStatus → BackupJob → Error → ℕ → BackupStatus
unfolding with_failure
with_unclaimed st job e now =
    let since = since_or st.unclaimed_since now in
    if ltb now (since + unclaimed_fail_after)
    then record st { unclaimed_since = some since; last_unclaimed_time = some now }
    else with_failure st job e now

-- With the job's result.
unfoldable pub apply_backup_result : BackupStatus → BackupJob → Result BackupInfo → ℕ → BackupStatus
unfolding with_unclaimed with_failure
apply_backup_result st job (ok info) now = with_success st job info now
apply_backup_result st job (err e) now =
    if is_unclaimed e && (st.consecutive_failures == 0)
    then with_unclaimed st job e now
    else with_failure st job e now
