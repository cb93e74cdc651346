-- ===== src/Backup/Pass.antt =====
-- The backup part of a pass (internal/controller/backup.go, `reconcileBackup`). What the reads of the
-- claim and its events gave, the cron parser, the printing of times, the clock, the digest of the
-- script and what the API machinery does with conditions are parameters.
use kahuna_k8s_operator.Common.{ℕ, String, Option, none, some, List}
use kahuna_k8s_operator.Api.{Cluster, Status, BackupSpec, BackupStatus, Condition, Pod}
use kahuna_k8s_operator.Kahuna.{Membership}
use kahuna_k8s_operator.Kahuna.Errors.{Result}
use kahuna_k8s_operator.Traffic.{cluster_key}
use kahuna_k8s_operator.Reporting.{condition}
use kahuna_k8s_operator.Backup.{Schedule}
use kahuna_k8s_operator.Backup.Results.{BackupJob}
use kahuna_k8s_operator.Backup.Runner.{Runner, poll, start, forget}
use kahuna_k8s_operator.Backup.Volume.{BackupVolume}
use kahuna_k8s_operator.Backup.Verdict.{
  backup_failing, backup_volume_ready, no_backups, Started, Verdict, still_running, collected,
  targets_of, incremental_of, scheduled,
}

-- What `reconcileBackup` leaves: the status, the runner, the next look, and what was started.
pub record BackupPass : Type 0 where
  pub status : Status
  pub runner : Runner
  pub wake : ℕ
  pub started : Option Started

abbrev pub with_started : String → Option Started → Runner → Runner
with_started key none r = r
with_started key (some s) r = start key s.job r

abbrev or_none_yet : Option BackupStatus → BackupStatus
or_none_yet none = no_backups
or_none_yet (some st) = st

abbrev pub polled : Cluster → Runner → Option BackupJob
polled cluster runner = (poll (cluster_key cluster) runner).0

-- The status with the result that the poll gave.
abbrev pub status_before : Cluster → ℕ → Runner → BackupStatus
status_before cluster now runner =
    collected (or_none_yet cluster.status.backup) now (polled cluster runner)

module _ (set_status_condition : List Condition → Condition → List Condition)
    (remove_status_condition : List Condition → String → List Condition)
    (parse_schedule : String → Result Schedule) (show_time : ℕ → String) (cluster : Cluster)
    (now : ℕ) (config_hash : String) (membership : Option Membership) (pods : List Pod)
    (runner : Runner) where
  abbrev pub without_backups : BackupPass
  without_backups = record {
    status = record cluster.status {
      backup = none;
      conditions =
          remove_status_condition (remove_status_condition cluster.status.conditions backup_failing)
            backup_volume_ready;
    };
    runner = forget (cluster_key cluster) runner;
    wake = 0;
    started = none;
  }

  abbrev pub verdict_of : BackupVolume → BackupSpec → Verdict
  verdict_of volume spec =
      scheduled show_time cluster (status_before cluster now runner) now config_hash volume
        membership pods spec (parse_schedule spec.schedule)
        (incremental_of parse_schedule spec.incremental_schedule)
        (still_running (polled cluster runner))

  abbrev pub backup_pass : BackupVolume → Verdict → BackupPass
  backup_pass volume v = record {
    status = record cluster.status {
      backup = some (status_before cluster now runner);
      conditions =
          set_status_condition
            (set_status_condition cluster.status.conditions (
              condition backup_volume_ready volume.ready volume.reason volume.reason
                volume.message))
            (condition backup_failing v.failing v.reason v.reason v.message);
    };
    runner = with_started (cluster_key cluster) v.started (poll (cluster_key cluster) runner).1;
    wake = v.wake;
    started = v.started;
  }

  -- The spec's backups, with what `readBackupVolume` gives for them.
  abbrev pub backup_by : (BackupSpec → BackupVolume) → Option BackupSpec → BackupPass
  backup_by volume none = without_backups
  backup_by volume (some spec) = backup_pass (volume spec) (verdict_of (volume spec) spec)

  unfoldable pub reconcile_backup : (BackupSpec → BackupVolume) → BackupPass
  unfolding targets_of
  reconcile_backup volume = backup_by volume cluster.spec.backup
