-- ===== src/Backup.antt =====
-- When a backup is taken (internal/controller/backup.go, `decideBackup`). Times are nanoseconds
-- since Go's zero time, so 0 is the zero time. A cron schedule is a parameter: its `Next`.
pub mod Verdict
pub mod Unsupported
pub mod Ready
pub mod Walk
pub mod Delay
pub mod Run
pub mod Refusals
pub mod Results
pub mod Retries
pub mod Rests
pub mod Runner
pub mod Discarded
pub mod Table
pub mod Gate
pub mod Volume
pub mod Warnings
pub mod Pass
pub mod Known
pub mod Keep
pub mod Kept
pub mod Starts
pub mod Images
pub mod Versions
pub mod Open
pub mod Claims
pub mod Modes
use kahuna_k8s_operator.Common.{
  ℕ, zero, suc, ◌+◌, ◌-◌, ◌*◌, min, max, ◌==◌, ltb, leb, String, Bool, true, false, ◌&&◌, ◌||◌, not,
  Option, none, some, str_eq, if◌then◌else◌,
}
use kahuna_k8s_operator.Api.{BackupStatus}

abbrev pub second : ℕ
second = 1_000_000_000

abbrev pub backup_retry_initial : ℕ
backup_retry_initial = 60 * second

abbrev pub backup_retry_max : ℕ
backup_retry_max = 1800 * second

abbrev pub unclaimed_retry_delay : ℕ
unclaimed_retry_delay = 15 * second

abbrev pub unclaimed_fail_after : ℕ
unclaimed_fail_after = 300 * second

abbrev pub max_missed_schedules : ℕ
max_missed_schedules = 100_000

pub data BackupKind : Type 0 where
  no_backup full incremental : BackupKind

-- The loop of `backupRetryDelay`, of at most so many rounds.
unfoldable pub doubled : ℕ → ℕ → ℕ
doubled zero d = d
doubled (suc rounds) d =
    let rest = doubled rounds (d * 2) in if ltb d backup_retry_max then rest else d

-- A negative count runs no round, like a count of 0.
unfoldable pub backup_retry_delay : ℕ → ℕ
unfolding doubled
backup_retry_delay failures = min (doubled (failures - 1) backup_retry_initial) backup_retry_max

abbrev pub Schedule : Type 0
Schedule = ℕ → ℕ

-- There is no next time, or it is in the future.
abbrev pub is_over : ℕ → ℕ → Bool
is_over t now = t == 0 || ltb now t

-- The loop of `latestDue`.
unfoldable pub walk_due : Schedule → ℕ → ℕ → ℕ → ℕ × ℕ
walk_due s now zero t = (t, 0)
walk_due s now (suc rounds) t = elim (is_over (s t) now) [
  | true ↦ (t, s t)
  | false ↦ walk_due s now rounds (s t)
]

unfoldable pub latest_due : Schedule → ℕ → ℕ → ℕ × ℕ
unfolding walk_due
latest_due s base now = elim (is_over (s base) now) [
  | true ↦ (0, s base)
  | false ↦ walk_due s now max_missed_schedules (s base)
]

abbrev earliest : ℕ → ℕ → ℕ
earliest a b = if a == 0 then b else if b == 0 then a else if ltb b a then b else a

pub record BackupInput : Type 0 where
  pub full_schedule : Schedule
  pub incremental_schedule : Option Schedule
  pub status : BackupStatus
  pub now : ℕ

pub record BackupDecision : Type 0 where
  pub kind : BackupKind
  pub scheduled : ℕ
  pub retry_at : ℕ
  pub next : ℕ

abbrev pub decision : BackupKind → ℕ → ℕ → BackupDecision
decision kind scheduled next = record {
  kind = kind;
  scheduled = scheduled;
  retry_at = 0;
  next = next;
}

-- The base of the incremental schedule.
abbrev pub later_of : ℕ → Option ℕ → ℕ
later_of base none = base
later_of base (some t) = if ltb base t then t else base

abbrev incremental_decision : ℕ → ℕ × ℕ → BackupDecision
incremental_decision full_next (inc_due, inc_next) =
    if inc_due == 0
    then decision no_backup 0 (earliest full_next inc_next)
    else decision incremental inc_due (earliest full_next inc_next)

-- No full backup is due.
abbrev pub without_full : BackupInput → ℕ → ℕ → Option Schedule → BackupDecision
without_full i last_full full_next none = decision no_backup 0 full_next
without_full i last_full full_next (some s) =
    if str_eq i.status.last_backup_id ""
    then decision no_backup 0 full_next
    else incremental_decision full_next
        (latest_due s (later_of last_full i.status.last_incremental_schedule_time) i.now)

abbrev after_full : BackupInput → ℕ → ℕ × ℕ → BackupDecision
after_full i last_full (full_due, full_next) =
    if full_due == 0
    then without_full i last_full full_next i.incremental_schedule
    else decision full full_due full_next

-- What is due, by the schedules alone.
unfoldable pub due_backup : BackupInput → Option ℕ → BackupDecision
due_backup i none = decision full i.now 0
due_backup i (some last_full) = after_full i last_full (latest_due i.full_schedule last_full i.now)

abbrev unclaimed_retry : Option ℕ → ℕ
unclaimed_retry none = 0
unclaimed_retry (some t) = t + unclaimed_retry_delay

-- The time before which nothing is sent again.
unfoldable pub retry_time : BackupStatus → Option ℕ → ℕ
retry_time st none = unclaimed_retry st.last_unclaimed_time
retry_time st (some failed) =
    if ltb 0 st.consecutive_failures
    then failed + backup_retry_delay st.consecutive_failures
    else unclaimed_retry st.last_unclaimed_time

-- A backup that is due is held until the retry time.
abbrev held_due : ℕ → ℕ → BackupDecision → BackupDecision
held_due retry now d =
    if ltb now retry
    then record { kind = no_backup; scheduled = 0; retry_at = retry; next = retry }
    else d

abbrev pub held_kind : BackupKind → ℕ → ℕ → BackupDecision → BackupDecision
held_kind no_backup retry now d = d
held_kind full retry now d = held_due retry now d
held_kind incremental retry now d = held_due retry now d

abbrev held_until : ℕ → ℕ → BackupDecision → BackupDecision
held_until retry now d = held_kind d.kind retry now d

unfoldable pub decide_backup : BackupInput → BackupDecision
unfolding due_backup retry_time
decide_backup i =
    held_until (retry_time i.status i.status.last_failure_time) i.now
      (due_backup i i.status.last_full_schedule_time)

unfoldable pub until_due : ℕ → ℕ → ℕ
until_due next now = if next == 0 then 0 else max (next - now) second
