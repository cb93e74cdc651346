-- ===== src/Reconcile/Requeue.antt =====
-- When the next pass comes (internal/controller/kahunacluster_controller.go, `Reconcile`).
use kahuna_k8s_operator.Common.{
  ℕ, ◌*◌, ◌≤◌, ◌≡◌, ◌⊎◌, inl, inr, refl, String, Bool, true, false, ◌||◌, ◌&&◌, not, ◌==◌, Option,
  none, some, List, Bool-cases, is_some, str_eq, if◌then◌else◌, arith,
}
use kahuna_k8s_operator.Api.{Cluster, Status, Condition, Pod, BackupSpec, BackupStatus}
use kahuna_k8s_operator.Naming.{desired_replicas}
use kahuna_k8s_operator.Kahuna.{Membership}
use kahuna_k8s_operator.Kahuna.Errors.{Result, ok, err}
use kahuna_k8s_operator.Backup.{
  second, Schedule, BackupKind, no_backup, full, incremental, BackupDecision, decide_backup,
  until_due,
}
use kahuna_k8s_operator.Backup.Results.{BackupJob}
use kahuna_k8s_operator.Backup.Images.{backup_unsupported}
use kahuna_k8s_operator.Backup.Volume.{BackupVolume}
use kahuna_k8s_operator.Backup.Pass.{backup_by, reconcile_backup}
use kahuna_k8s_operator.Backup.Verdict.{
  waits_unclaimed, when_due, by_kind, unless_running, scheduled, is_suspended, waiting_reason,
  failing,
}
use kahuna_k8s_operator.Backup.Runner.{Runner}
use kahuna_k8s_operator.Reporting.{
  Observed, observed, observe_status, requeue_after, progressing, StatefulSet, reconcile_status,
}
use kahuna_k8s_operator.Reconcile.{sooner}

-- No delay is asked for, or one of a second or more.
abbrev pub IsDelay : ℕ → Type 0
IsDelay d = (d ≡ 0) ⊎ (second ≤ d)

until_due-IsDelay : (next now : ℕ) → IsDelay (until_due next now)
unfolding until_due
until_due-IsDelay next now = elim (Bool-cases (next == 0)) [
  | inl never ↦ rw never (inl refl)
  | inr due ↦ rw due (inr (omega arith))
]

module _ (show_time : ℕ → String) (cluster : Cluster) (st : BackupStatus) (now : ℕ) where
  waits-IsDelay :
      (d : BackupDecision) (o : Option ℕ)
      → IsDelay (waits_unclaimed show_time cluster st now d o).wake
  waits-IsDelay d none = until_due-IsDelay d.next now
  waits-IsDelay d (some since) =
      elim (Bool-cases (not (d.retry_at == 0) && not (failing show_time cluster st now))) [
        | inl waits ↦ rw waits (until_due-IsDelay d.next now)
        | inr other ↦ rw other (until_due-IsDelay d.next now)
      ]

  module _ (config_hash : String) (volume : BackupVolume) (membership : Option Membership)
      (pods : List Pod) (spec : BackupSpec) where
    due-IsDelay :
        (d : BackupDecision)
        → IsDelay (when_due show_time cluster st now config_hash volume membership pods spec d).wake
    due-IsDelay d = elim (Bool-cases (is_suspended spec.suspend)) [
      | inl suspended ↦ rw suspended (inl refl)
      | inr active ↦
          elim (Bool-cases
            (str_eq (waiting_reason cluster config_hash volume membership pods) "")) [
              | inl free ↦ rw (active, free) (inr (omega arith))
              | inr held ↦ rw (active, held) (inl refl)
            ]
    ]

    kind-IsDelay :
        (d : BackupDecision) (k : BackupKind)
        → IsDelay
            (by_kind show_time cluster st now config_hash volume membership pods spec d k).wake
    kind-IsDelay d no_backup = waits-IsDelay d st.unclaimed_since
    kind-IsDelay d full = due-IsDelay d
    kind-IsDelay d incremental = due-IsDelay d

    running-IsDelay :
        (f : Schedule) (i : Option Schedule) (job : Option BackupJob)
        → IsDelay
            (unless_running show_time cluster st now config_hash volume membership pods spec f i
              job).wake
    running-IsDelay f i (some job) = inr (omega arith)
    running-IsDelay f i none = kind-IsDelay (decide_backup _) (decide_backup _).kind

    scheduled-IsDelay :
        (f : Result Schedule) (i : Result (Option Schedule)) (job : Option BackupJob)
        → IsDelay
            (scheduled show_time cluster st now config_hash volume membership pods spec f i
              job).wake
    scheduled-IsDelay (err e) i job = inl refl
    scheduled-IsDelay (ok f) (err e) job = inl refl
    scheduled-IsDelay (ok f) (ok i) job =
        elim (Bool-cases (str_eq (backup_unsupported cluster) "")) [
          | inl fine ↦ rw fine (running-IsDelay f i job)
          | inr old ↦ rw old (inl refl)
        ]

module _ (set_status_condition : List Condition → Condition → List Condition)
    (remove_status_condition : List Condition → String → List Condition)
    (parse_schedule : String → Result Schedule) (show_time : ℕ → String) (cluster : Cluster)
    (now : ℕ) (config_hash : String) (membership : Option Membership) (pods : List Pod)
    (runner : Runner) (volume : BackupSpec → BackupVolume) where
  by_spec-IsDelay :
      (o : Option BackupSpec)
      → IsDelay
          (backup_by set_status_condition remove_status_condition parse_schedule show_time cluster
            now config_hash membership pods runner volume o).wake
  by_spec-IsDelay none = inl refl
  by_spec-IsDelay (some spec) =
      scheduled-IsDelay show_time cluster _ now config_hash (volume spec) membership pods spec _ _ _

  pub reconcile_backup-IsDelay :
      IsDelay
        (reconcile_backup set_status_condition remove_status_condition parse_schedule show_time
          cluster now config_hash membership pods runner volume).wake
  unfolding reconcile_backup
  reconcile_backup-IsDelay = by_spec-IsDelay cluster.spec.backup

-- Between a second and a minute.
abbrev pub IsSoon : ℕ → Type 0
IsSoon d = (second ≤ d) × (d ≤ 60 * second)

pub requeue_after-IsSoon :
    (cluster : Cluster) (status : Status) (o : Observed) (desired : ℕ)
    → IsSoon (requeue_after cluster status o desired)
unfolding requeue_after
requeue_after-IsSoon cluster status o desired =
    by_tests (progressing o desired || not (status.replicas == desired))
      (is_some cluster.spec.autoscaling)
  where
    by_tests :
        (p a : Bool)
        → IsSoon (if p then 10_000_000_000 else if a then 15_000_000_000 else 60_000_000_000)
    by_tests true a = omega arith
    by_tests false true = omega arith
    by_tests false false = omega arith

pub sooner-IsSoon :
    (wake requeue : ℕ) → IsDelay wake → IsSoon requeue → IsSoon (sooner wake requeue)
unfolding sooner
sooner-IsSoon wake requeue (inl e) soon = ground arith
sooner-IsSoon wake requeue (inr later) soon = ground arith

pub reconcile_status-IsSoon :
    (set_status_condition : List Condition → Condition → List Condition)
    (equal_status : Status → Status → Bool) (cluster : Cluster) (persisted : Status)
    (sts : StatefulSet) (pods : List Pod) (m : Option Membership) (ready : Bool) (msg : String)
    → IsSoon
        (reconcile_status set_status_condition equal_status cluster persisted sts pods m ready
          msg).requeue
unfolding reconcile_status
reconcile_status-IsSoon set_status_condition equal_status cluster persisted sts pods m ready msg =
    let base = observe_status cluster sts pods m in
    requeue_after-IsSoon cluster base (observed cluster m base) (desired_replicas cluster)
