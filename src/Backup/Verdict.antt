-- ===== src/Backup/Verdict.antt =====
-- What a pass decides about backups (internal/controller/backup.go, `reconcileBackup`): the
-- BackupFailing condition, the next look, and the backup that starts.
use kahuna_k8s_operator.Common.{
  ℕ, ◌*◌, ◌==◌, ltb, String, ◌<>◌, Bool, true, false, not, ◌&&◌, Option, none, some, List, [], ◌∷◌,
  is_some, str_eq, if◌then◌else◌,
}
use kahuna_k8s_operator.Common.Decimal.{decimal}
use kahuna_k8s_operator.Api.{Cluster, BackupSpec, BackupStatus, Pod}
use kahuna_k8s_operator.Naming.{desired_replicas}
use kahuna_k8s_operator.Kahuna.{Membership, BackupInfo}
use kahuna_k8s_operator.Kahuna.Errors.{error_text, Result, ok, err}
use kahuna_k8s_operator.Membership.{is_below, pod_base_url}
use kahuna_k8s_operator.Backup.{
  second, Schedule, BackupKind, no_backup, full, incremental, BackupDecision, decide_backup,
  until_due,
}
use kahuna_k8s_operator.Backup.Run.{BackupTarget}
use kahuna_k8s_operator.Backup.Results.{BackupJob, apply_backup_result, kind_text}
use kahuna_k8s_operator.Backup.Gate.{backup_blocked}
use kahuna_k8s_operator.Backup.Images.{backup_unsupported}
use kahuna_k8s_operator.Backup.Volume.{BackupVolume}

abbrev pub backup_poll_interval : ℕ
backup_poll_interval = 10 * second

abbrev pub default_backup_timeout : ℕ
default_backup_timeout = 3600 * second

abbrev pub backup_failing : String
backup_failing = "BackupFailing"

abbrev pub backup_volume_ready : String
backup_volume_ready = "BackupVolumeReady"

abbrev pub no_backups : BackupStatus
no_backups = record {
  last_full_schedule_time = none;
  last_incremental_schedule_time = none;
  last_successful_time = none;
  last_backup_id = "";
  last_backup_type = "";
  consecutive_failures = 0;
  last_failure_time = none;
  last_failure_message = "";
  unclaimed_since = none;
  last_unclaimed_time = none;
}

-- The goroutine that is started: its job, the nodes that it asks, and its time limit.
pub record Started : Type 0 where
  pub job : BackupJob
  pub targets : List BackupTarget
  pub timeout : ℕ

-- What a pass decides about backups: the BackupFailing condition, the next look, and what starts.
pub record Verdict : Type 0 where
  pub failing : Bool
  pub reason : String
  pub message : String
  pub wake : ℕ
  pub started : Option Started

abbrev pub reports : Bool → String → String → ℕ → Verdict
reports failing reason message wake = record {
  failing = failing;
  reason = reason;
  message = message;
  wake = wake;
  started = none;
}

-- The job of a poll, if it is still running, and the status with the result of one that is not.
abbrev pub still_running : Option BackupJob → Option BackupJob
still_running none = none
still_running (some job) = if is_some job.result then none else some job

abbrev with_result : BackupStatus → ℕ → BackupJob → Option (Result BackupInfo) → BackupStatus
with_result st now job none = st
with_result st now job (some result) = apply_backup_result st job result now

abbrev pub collected : BackupStatus → ℕ → Option BackupJob → BackupStatus
collected st now none = st
collected st now (some job) = with_result st now job job.result

-- The loop over the pods.
unfoldable pub targets_of : Cluster → List Pod → List BackupTarget
targets_of cluster [] = []
targets_of cluster (p ∷ pods) =
    let rest = targets_of cluster pods in
    if is_below p (desired_replicas cluster) && not (str_eq p.pod_ip "")
    then record { pod = p.name; url = pod_base_url cluster p } ∷ rest
    else rest

abbrev pub timeout_of : Option ℕ → ℕ
timeout_of none = default_backup_timeout
timeout_of (some t) = if ltb 0 t then t else default_backup_timeout

abbrev pub is_suspended : Option Bool → Bool
is_suspended none = false
is_suspended (some suspend) = suspend

-- A schedule that is not given, or the parsed one.
abbrev pub optional : Result Schedule → Result (Option Schedule)
optional (ok s) = ok (some s)
optional (err e) = err e

abbrev pub incremental_of : (String → Result Schedule) → String → Result (Option Schedule)
incremental_of parse_schedule text =
    if str_eq text "" then ok none else optional (parse_schedule text)

-- The volume comes first.
abbrev pub waiting_reason : Cluster → String → BackupVolume → Option Membership → List Pod → String
waiting_reason cluster config_hash volume membership pods =
    if not volume.bound then volume.message else backup_blocked cluster config_hash membership pods

-- The job of a decision, and what its goroutine is given.
abbrev pub starts : Cluster → BackupStatus → List Pod → BackupSpec → BackupKind → ℕ → Started
starts cluster st pods spec kind scheduled = record {
  job = record { kind = kind; scheduled = scheduled; parent = st.last_backup_id; result = none };
  targets = targets_of cluster pods;
  timeout = timeout_of spec.timeout;
}

module _ (show_time : ℕ → String) (cluster : Cluster) (st : BackupStatus) (now : ℕ) where
  abbrev pub failing : Bool
  failing = ltb 0 st.consecutive_failures

  abbrev failure : String
  failure =
      if failing
      then decimal st.consecutive_failures
        <> (" consecutive failures, latest: " <> (st.last_failure_message <> ". "))
      else ""

  abbrev failed_or : String → String
  failed_or reason = if failing then "BackupFailed" else reason

  abbrev running_text : BackupKind → ℕ → String
  running_text kind scheduled =
      failure
      <> (kind_text kind <> (" backup scheduled for " <> (show_time scheduled <> " is running")))

  abbrev pub schedule_message : BackupDecision → String
  schedule_message d =
      if not (d.retry_at == 0)
      then "retrying at " <> show_time d.retry_at
      else if not (d.next == 0)
      then "next backup at " <> show_time d.next
      else "no backup is scheduled"

  abbrev pub waits_unclaimed : BackupDecision → Option ℕ → Verdict
  waits_unclaimed d none =
      reports failing (failed_or "BackupScheduled") (failure <> schedule_message d)
        (until_due d.next now)
  waits_unclaimed d (some since) =
      if not (d.retry_at == 0) && not failing
      then reports false "BackupWaiting"
          ("a backup is due, but no node has taken it since "
            <> (show_time since
                <> (": every node refused it with an outcome that clears on retry, such as a meta partition "
                    <> ("with no settled leader yet. Retrying at " <> show_time d.retry_at))))
          (until_due d.next now)
      else reports failing (failed_or "BackupScheduled") (failure <> schedule_message d)
          (until_due d.next now)

  module _ (config_hash : String) (volume : BackupVolume) (membership : Option Membership)
      (pods : List Pod) (spec : BackupSpec) where
    abbrev pub when_due : BackupDecision → Verdict
    when_due d =
        let waiting = waiting_reason cluster config_hash volume membership pods in
        if is_suspended spec.suspend
        then reports failing (failed_or "BackupSuspended") (failure <> "backups are suspended") 0
        else if not (str_eq waiting "")
        then reports failing (failed_or "BackupWaiting")
            (failure <> (kind_text d.kind <> (" backup is due, waiting because " <> waiting))) 0
        else record {
          failing = failing;
          reason = failed_or "BackupRunning";
          message = running_text d.kind d.scheduled;
          wake = backup_poll_interval;
          started = some (starts cluster st pods spec d.kind d.scheduled);
        }

    abbrev pub by_kind : BackupDecision → BackupKind → Verdict
    by_kind d no_backup = waits_unclaimed d st.unclaimed_since
    by_kind d full = when_due d
    by_kind d incremental = when_due d

    abbrev pub decided : BackupDecision → Verdict
    decided d = by_kind d d.kind

    abbrev pub unless_running : Schedule → Option Schedule → Option BackupJob → Verdict
    unless_running full_schedule incremental_schedule (some job) =
        reports failing (failed_or "BackupRunning") (running_text job.kind job.scheduled)
          backup_poll_interval
    unless_running full_schedule incremental_schedule none = decided (
        decide_backup (record {
          full_schedule = full_schedule;
          incremental_schedule = incremental_schedule;
          status = st;
          now = now;
        }))

    abbrev pub scheduled : Result Schedule → Result (Option Schedule) → Option BackupJob → Verdict
    scheduled (err e) inc job =
        reports true "InvalidSchedule"
          ("backup.schedule \"" <> (spec.schedule <> ("\": " <> error_text e))) 0
    scheduled (ok s) (err e) job =
        reports true "InvalidSchedule"
          ("backup.incrementalSchedule \""
            <> (spec.incremental_schedule <> ("\": " <> error_text e)))
          0
    scheduled (ok s) (ok inc) job =
        if not (str_eq (backup_unsupported cluster) "")
        then reports true "UnsupportedImage" (backup_unsupported cluster) 0
        else unless_running s inc job
