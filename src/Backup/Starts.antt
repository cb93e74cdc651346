-- ===== src/Backup/Starts.antt =====
-- When a pass starts a backup (internal/controller/backup.go, `reconcileBackup`).
use mathlib.Core.Option.{some-injective}
use kahuna_k8s_operator.Common.{
  ℕ, ◌≡◌, ◌≢◌, ◌↔◌, refl, sym, ◌∙◌, String, true, false, Option, none, some, List, Bool-cases, inl,
  inr,
}
use kahuna_k8s_operator.Api.{Cluster, BackupSpec, BackupStatus, Condition, Pod}
use kahuna_k8s_operator.ApiServer.{Reply}
use kahuna_k8s_operator.Kahuna.{Membership}
use kahuna_k8s_operator.Kahuna.Errors.{Result, ok}
use kahuna_k8s_operator.Backup.{Schedule, no_backup, decide_backup}
use kahuna_k8s_operator.Backup.Runner.{Runner}
use kahuna_k8s_operator.Backup.Gate.{backup_blocked}
use kahuna_k8s_operator.Backup.Images.{backup_unsupported}
use kahuna_k8s_operator.Backup.Volume.{BackupVolume, BoundClaim, Event, read_backup_volume, unbound}
use kahuna_k8s_operator.Backup.Pass.{BackupPass, status_before, polled, backup_by, reconcile_backup}
use kahuna_k8s_operator.Backup.Verdict.{
  Started, still_running, incremental_of, is_suspended, waiting_reason, starts,
}
use kahuna_k8s_operator.Backup.Ready.{
  input, started-Ready, Ready-started, read_backup_volume-message,
}

module _ (set_status_condition : List Condition → Condition → List Condition)
    (remove_status_condition : List Condition → String → List Condition)
    (parse_schedule : String → Result Schedule) (show_time : ℕ → String) (cluster : Cluster)
    (now : ℕ) (config_hash : String) (membership : Option Membership) (pods : List Pod)
    (runner : Runner) (reply : Reply BoundClaim) (events : Result (List Event)) where
  abbrev st : BackupStatus
  st = status_before cluster now runner

  abbrev volume : BackupSpec → BackupVolume
  volume spec = read_backup_volume cluster spec reply events

  abbrev pub pass : BackupPass
  pass =
      reconcile_backup set_status_condition remove_status_condition parse_schedule show_time cluster
        now config_hash membership pods runner volume

  -- A backup is due, by the schedules that the spec gives, and may start.
  abbrev pub IsStart : Started → BackupSpec → Schedule → Option Schedule → Type 0
  IsStart s spec f i =
      let d = decide_backup (input st now f i) in
      (cluster.spec.backup ≡ some spec)
      × (parse_schedule spec.schedule ≡ ok f)
      × (incremental_of parse_schedule spec.incremental_schedule ≡ ok i)
      × (backup_unsupported cluster ≡ "")
      × (still_running (polled cluster runner) ≡ none)
      × (d.kind ≢ no_backup)
      × (is_suspended spec.suspend ≡ false)
      × ((volume spec).bound ≡ true)
      × (backup_blocked cluster config_hash membership pods ≡ "")
      × (s ≡ starts cluster st pods spec d.kind d.scheduled)

  free-bound :
      (spec : BackupSpec)
      → waiting_reason cluster config_hash (volume spec) membership pods ≡ ""
      → ((volume spec).bound ≡ true) × (backup_blocked cluster config_hash membership pods ≡ "")
  free-bound spec h = elim (Bool-cases (volume spec).bound) [
    | inl bound ↦ (bound, rw bound at h)
    | inr unbound ↦ absurd (read_backup_volume-message cluster spec reply events (rw unbound at h))
  ]

  pub started-IsStart :
      (o : Option BackupSpec) (s : Started)
      → cluster.spec.backup ≡ o
      → (backup_by set_status_condition remove_status_condition parse_schedule show_time cluster now
          config_hash membership pods runner volume o).started
        ≡ some s
      → (spec : BackupSpec) × (f : Schedule) × (i : Option Schedule) × IsStart s spec f i
  started-IsStart none s e h = cc
  started-IsStart (some spec) s e h =
      let (f, i, ef, ei, fine, idle, (due, active, free, same)) =
        started-Ready show_time cluster st now config_hash (volume spec) membership pods spec s
          (parse_schedule spec.schedule) (incremental_of parse_schedule spec.incremental_schedule)
          (still_running (polled cluster runner)) h in
      (
        spec,
        f,
        i,
        (
          e,
          ef,
          ei,
          fine,
          idle,
          due,
          active,
          (free-bound spec free).0,
          (free-bound spec free).1,
          same,
        ),
      )

  of_start :
      (o : Option BackupSpec) (s : Started) (spec : BackupSpec) (f : Schedule) (i : Option Schedule)
      → cluster.spec.backup ≡ o
      → IsStart s spec f i
      → (backup_by set_status_condition remove_status_condition parse_schedule show_time cluster now
          config_hash membership pods runner volume o).started
        ≡ some s
  of_start none s spec f i e r = cc (sym e ∙ r.0)
  of_start (some given) s spec f i e (asked, ef, ei, fine, idle, due, active, bound, clear, same) =
      rw (some-injective given spec (sym e ∙ asked)) (
        Ready-started show_time cluster st now config_hash (volume spec) membership pods spec s
          (parse_schedule spec.schedule) (incremental_of parse_schedule spec.incremental_schedule)
          (still_running (polled cluster runner))
          (f, i, ef, ei, fine, idle, (due, active, rw bound clear, same)))

  -- A pass starts a backup exactly when all of this holds: the spec asks for backups, its schedules
  -- parse, the image is not known to be too old, no backup of the cluster runs, one is due after the
  -- result that the poll gave has been recorded, backups are not suspended, the volume is bound, and
  -- nothing blocks a backup. It is then the one that is due, sent to the nodes that the pass has found.
  pub started_iff :
      (s : Started)
      → (pass.started ≡ some s)
        ↔ ((spec : BackupSpec) × (f : Schedule) × (i : Option Schedule) × IsStart s spec f i)
  unfolding reconcile_backup
  started_iff s = (
    started-IsStart cluster.spec.backup s refl,
    λ (spec, f, i, r). of_start cluster.spec.backup s spec f i refl r,
  )
