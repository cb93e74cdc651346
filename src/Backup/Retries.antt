-- ===== src/Backup/Retries.antt =====
-- What the scheduler does after a backup's result is recorded (internal/controller/backup.go,
-- `applyBackupResult` and `decideBackup`).
use kahuna_k8s_operator.Common.{
  ℕ, ◌+◌, ◌<◌, ◌≡◌, refl, sym, ap, ◌∙◌, inl, inr, true, false, Option, none, some, Bool-cases,
  arith,
}
use kahuna_k8s_operator.Api.{BackupStatus}
use kahuna_k8s_operator.Kahuna.Errors.{Error, err, is_unclaimed}
use kahuna_k8s_operator.Backup.{
  BackupKind, no_backup, full, incremental, BackupInput, BackupDecision, decision, decide_backup,
  due_backup, retry_time, held_kind, backup_retry_delay, unclaimed_retry_delay,
  unclaimed_fail_after,
}
use kahuna_k8s_operator.Backup.Results.{
  BackupJob, apply_backup_result, with_failure, with_unclaimed, parent_is_gone, since_or,
}

held_kind-early :
    (k : BackupKind) (retry now : ℕ) (d : BackupDecision)
    → k ≡ d.kind
    → now < retry
    → (held_kind k retry now d).kind ≡ no_backup
held_kind-early no_backup retry now d e h = sym e
held_kind-early full retry now d e h = ground arith
held_kind-early incremental retry now d e h = ground arith

held_kind-none :
    (k : BackupKind) (retry now : ℕ) (d : BackupDecision)
    → k ≡ no_backup
    → held_kind k retry now d ≡ d
held_kind-none k retry now d e = rw e refl

-- Nothing is started before the retry time.
decide_backup_held :
    (i : BackupInput)
    → i.now < retry_time i.status i.status.last_failure_time
    → (decide_backup i).kind ≡ no_backup
unfolding decide_backup
decide_backup_held i h =
    let d = due_backup i i.status.last_full_schedule_time in
    held_kind-early d.kind (retry_time i.status i.status.last_failure_time) i.now d refl h

-- When a full backup that a counted failure left is tried again.
with_failure-counts :
    (st : BackupStatus) (job : BackupJob) (e : Error) (now : ℕ)
    → st.consecutive_failures < (with_failure st job e now).consecutive_failures
    → retry_time (with_failure st job e now) (with_failure st job e now).last_failure_time
      ≡ now + backup_retry_delay (st.consecutive_failures + 1)
unfolding with_failure retry_time
with_failure-counts st job e now h = elim (Bool-cases (parent_is_gone job.kind e)) [
  | inl gone ↦ absurd (let k = rw gone at h in omega arith)
  | inr alive ↦ rw alive (ground arith)
]

apply_backup_result-counts :
    (st : BackupStatus) (job : BackupJob) (e : Error) (now : ℕ)
    → let st' = apply_backup_result st job (err e) now in
      st.consecutive_failures < st'.consecutive_failures
      → retry_time st' st'.last_failure_time
        ≡ now + backup_retry_delay (st.consecutive_failures + 1)
unfolding apply_backup_result with_unclaimed
apply_backup_result-counts st job e now h = ground (arith, with_failure-counts st job e now)

-- After a failure that counts, nothing is started for the delay of the new count of failures.
pub failure_backs_off :
    (st : BackupStatus) (job : BackupJob) (e : Error) (now : ℕ)
    → st.consecutive_failures < (apply_backup_result st job (err e) now).consecutive_failures
    → (i : BackupInput) → i.status ≡ apply_backup_result st job (err e) now
    → i.now < now + backup_retry_delay (st.consecutive_failures + 1)
    → (decide_backup i).kind ≡ no_backup
failure_backs_off st job e now counts i same early =
    decide_backup_held i (rw same (rw (apply_backup_result-counts st job e now counts) early))

unclaimed_status :
    (st : BackupStatus) (job : BackupJob) (e : Error) (now : ℕ)
    → is_unclaimed e ≡ true
    → st.consecutive_failures ≡ 0
    → now < since_or st.unclaimed_since now + unclaimed_fail_after
    → let st' = apply_backup_result st job (err e) now in
      ((st'.consecutive_failures ≡ 0)
        × (st'.last_full_schedule_time ≡ st.last_full_schedule_time)
        × (st'.last_incremental_schedule_time ≡ st.last_incremental_schedule_time))
      × (retry_time st' st'.last_failure_time ≡ now + unclaimed_retry_delay)
unfolding apply_backup_result with_unclaimed retry_time
unclaimed_status st job e now refused none_failed in_bound = ground arith

-- A backup that no node took, recorded while no failure is outstanding and within the bound on
-- unclaimed attempts, is not counted as a failure and moves no schedule time, and nothing is
-- started for the short delay.
pub unclaimed_waits :
    (st : BackupStatus) (job : BackupJob) (e : Error) (now : ℕ)
    → is_unclaimed e ≡ true
    → st.consecutive_failures ≡ 0
    → now < since_or st.unclaimed_since now + unclaimed_fail_after
    → (i : BackupInput) → i.status ≡ apply_backup_result st job (err e) now
    → i.now < now + unclaimed_retry_delay
    → (i.status.consecutive_failures ≡ 0)
      × (i.status.last_full_schedule_time ≡ st.last_full_schedule_time)
      × (i.status.last_incremental_schedule_time ≡ st.last_incremental_schedule_time)
      × ((decide_backup i).kind ≡ no_backup)
unclaimed_waits st job e now refused none_failed in_bound i same early =
    let (kept, waits) = unclaimed_status st job e now refused none_failed in_bound in
    (
      ap (λ s. s.consecutive_failures) same ∙ kept.0,
      ap (λ s. s.last_full_schedule_time) same ∙ kept.1,
      ap (λ s. s.last_incremental_schedule_time) same ∙ kept.2,
      decide_backup_held i (rw same (rw waits early)),
    )

retry_time-none :
    (st : BackupStatus) (failed : Option ℕ)
    → st.consecutive_failures ≡ 0
    → st.last_unclaimed_time ≡ none
    → retry_time st failed ≡ 0
unfolding retry_time
retry_time-none st none none_failed claimed = rw claimed refl
retry_time-none st (some t) none_failed claimed = rw (none_failed, claimed) refl

due_backup_first :
    (i : BackupInput) (last_full : Option ℕ)
    → last_full ≡ none
    → due_backup i last_full ≡ decision full i.now 0
unfolding due_backup
due_backup_first i last_full e = rw e refl

-- With no wait, what is due is decided.
pub decide_backup_free :
    (i : BackupInput)
    → i.status.consecutive_failures ≡ 0
    → i.status.last_unclaimed_time ≡ none
    → decide_backup i ≡ due_backup i i.status.last_full_schedule_time
unfolding decide_backup
decide_backup_free i none_failed claimed =
    let d = due_backup i i.status.last_full_schedule_time in
    ap (λ retry. held_kind d.kind retry i.now d)
      (retry_time-none i.status i.status.last_failure_time none_failed claimed)
    ∙ free d.kind i.now d
  where
    free : (k : BackupKind) (now : ℕ) (d : BackupDecision) → held_kind k 0 now d ≡ d
    free no_backup now d = refl
    free full now d = ground arith
    free incremental now d = ground arith

gone_status :
    (st : BackupStatus) (job : BackupJob) (e : Error) (now : ℕ)
    → parent_is_gone job.kind e ≡ true
    → is_unclaimed e ≡ false
    → let st' = apply_backup_result st job (err e) now in
      (st'.consecutive_failures ≡ st.consecutive_failures)
      × (st'.last_unclaimed_time ≡ none)
      × (st'.last_full_schedule_time ≡ none)
unfolding apply_backup_result with_failure
gone_status st job e now gone claimed = rw (claimed, gone) (refl, refl, refl)

-- An incremental backup whose parent is gone, with no failure outstanding: a full one is due at
-- once, which starts a new chain.
pub parent_gone_restarts :
    (st : BackupStatus) (job : BackupJob) (e : Error) (now : ℕ)
    → parent_is_gone job.kind e ≡ true
    → is_unclaimed e ≡ false
    → st.consecutive_failures ≡ 0
    → (i : BackupInput) → i.status ≡ apply_backup_result st job (err e) now
    → decide_backup i ≡ decision full i.now 0
parent_gone_restarts st job e now gone claimed none_failed i same =
    let (failures, waits, last) = gone_status st job e now gone claimed in
    decide_backup_free i (ap (λ s. s.consecutive_failures) same ∙ failures ∙ none_failed)
      (ap (λ s. s.last_unclaimed_time) same ∙ waits)
    ∙ due_backup_first i i.status.last_full_schedule_time
        (ap (λ s. s.last_full_schedule_time) same ∙ last)
