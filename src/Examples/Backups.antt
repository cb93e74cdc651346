-- ===== src/Examples/Backups.antt =====
-- The theorems on backups.
use kahuna_k8s_operator.Common.{
  Bool, List, String, [], arith, count_if, false, here, if◌then◌else◌, none, refl, some, str_eq,
  string_dec, true, ℕ, ◌%◌, ◌*◌, ◌+◌, ◌/◌, ◌<>◌, ◌<◌, ◌↔◌, ◌∷◌, ◌≡◌, ◌≤◌, ◌⊎◌,
}
use kahuna_k8s_operator.Api.{BackupStatus}
use kahuna_k8s_operator.Backup.{
  BackupInput, BackupKind, Schedule, backup_retry_delay, decide_backup, doubled, full, latest_due,
  max_missed_schedules, no_backup,
}
use kahuna_k8s_operator.Backup.Gate.{backup_blocked}
use kahuna_k8s_operator.Backup.Open.{all_fit, backup_blocked_iff, ours}
use kahuna_k8s_operator.Backup.Refusals.{Clears, run_backup-unclaimed}
use kahuna_k8s_operator.Backup.Rests.{full_backup_rests}
use kahuna_k8s_operator.Backup.Results.{
  BackupJob, apply_backup_result, parent_is_gone, with_failure,
}
use kahuna_k8s_operator.Backup.Retries.{failure_backs_off}
use kahuna_k8s_operator.Backup.Run.{BackupTarget, none_took, run_backup, run_loop}
use kahuna_k8s_operator.Backup.Walk.{IsCron, latest_due_covers}
use kahuna_k8s_operator.Common.Decimal.{decimal}
use kahuna_k8s_operator.Examples.{client, info, pods, three}
use kahuna_k8s_operator.Kahuna.Client.{Client}
use kahuna_k8s_operator.Kahuna.Errors.{
  BackupError, Error, as_backup_error, clears_on_retry, err, error_text, is_unclaimed,
  not_backup_coordinator, ok, other, refused, try_another_node,
}
use kahuna_k8s_operator.Naming.{desired_replicas, pod_name}
use kahuna_k8s_operator.Plan.{roster_matches}
use kahuna_k8s_operator.Plan.Roster.{full_roster}

-- Every 24th nanosecond.
abbrev daily : Schedule
daily t = (t / 24 + 1) * 24

abbrev Day : ℕ → Type 0
Day u = u % 24 ≡ 0

daily-IsCron : IsCron Day daily
daily-IsCron = record {
  lands = λ t h. (omega arith, omega arith);
  first = λ t u d lt. (omega arith, omega (arith, d));
}

latest_due_covers_example :
    (24 ≤ (latest_due daily 0 50).0)
    ⊎ ((0 + max_missed_schedules < (latest_due daily 0 50).0) × ((latest_due daily 0 50).1 ≡ 0))
latest_due_covers_example = latest_due_covers daily-IsCron 50 0 24 refl (omega arith) (omega arith)

-- The first node is no coordinator, and the second takes the backup.
abbrev target : ℕ → BackupTarget
target i = record { pod = pod_name three i; url = decimal i }

abbrev no_coordinator : BackupError
no_coordinator = record { status_code = 409; outcome = not_backup_coordinator; detail = "" }

abbrev refusing : Client ℕ
refusing = record (client (full_roster three 3)) {
  take_coordinated_backup = λ url. if str_eq url "1" then ok info else err (refused no_coordinator);
}

abbrev in_time : BackupTarget → Bool
in_time t = false

abbrev refusals : List String
refusals = (pod_name three 0 <> (": " <> error_text (refused no_coordinator))) ∷ []

run_backup-unclaimed_example : Clears refusing in_time full "" (target 0)
unfolding string_dec decimal run_backup run_loop none_took try_another_node clears_on_retry
    as_backup_error
run_backup-unclaimed_example =
    run_backup-unclaimed refusing in_time full "" (target 0 ∷ []) refusals refl (target 0) here

abbrev never : BackupStatus
never = record {
  last_full_schedule_time = none;
  last_incremental_schedule_time = none;
  last_successful_time = none;
  last_backup_id = "";
  last_backup_type = "";
  consecutive_failures = 0;
  last_failure_time = none;
  last_failure_message = "";
  unclaimed_since = none;
  last_unclaimed_time = none;
}

abbrev job : BackupKind → BackupJob
job kind = record { kind = kind; scheduled = 48; parent = "b0"; result = none }

abbrev input : BackupStatus → ℕ → BackupInput
input st now = record { full_schedule = daily; incremental_schedule = none; status = st; now = now }

abbrev disk : Error
disk = other "the disk is full"

failure_backs_off_example :
    (decide_backup (input (apply_backup_result never (job full) (err disk) 50) 60)).kind ≡ no_backup
unfolding apply_backup_result with_failure parent_is_gone is_unclaimed backup_retry_delay doubled
failure_backs_off_example =
    failure_backs_off never (job full) disk 50 (omega arith)
      (input (apply_backup_result never (job full) (err disk) 50) 60) refl (omega arith)

full_backup_rests_example :
    (decide_backup (input (apply_backup_result never (job full) (ok info) 50) 60)).kind ≡ no_backup
full_backup_rests_example =
    full_backup_rests {AtIncrement = λ u. ⊥} never (job full) info 50 refl (omega arith)
      (input (apply_backup_result never (job full) (ok info) 50) 60) refl daily-IsCron (λ s e. cc)
      (λ u d lt. omega (arith, d)) (λ u none_there lt. absurd none_there)

backup_blocked_iff_example : (backup_blocked three "h" (some (full_roster three 3)) pods ≡ "") ↔ (
    (three.status.bootstrapped ≡ true)
    × (roster_matches three (some (full_roster three 3)) (desired_replicas three) ≡ true)
    × (desired_replicas three ≤ count_if (ours three "h" (desired_replicas three)) pods)
    × (all_fit three "h" (desired_replicas three) pods ≡ true))
backup_blocked_iff_example = backup_blocked_iff three "h" (some (full_roster three 3)) pods
