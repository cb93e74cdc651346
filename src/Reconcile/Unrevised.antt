-- ===== src/Reconcile/Unrevised.antt =====
-- No step of a pass changes the founding size (`reconcileAutoscaling`, `reconcileBackup` and
-- `reconcileStatus` of internal/controller).
use kahuna_k8s_operator.Common.{
  ℕ, ◌≡◌, refl, String, Bool, true, false, Option, none, some, List, arith,
}
use kahuna_k8s_operator.Api.{Cluster, Status, Pod, BackupSpec, AutoscalingSpec, Condition}
use kahuna_k8s_operator.Membership.{read_membership}
use kahuna_k8s_operator.Backup.{Schedule}
use kahuna_k8s_operator.Backup.Pass.{backup_by, reconcile_backup}
use kahuna_k8s_operator.Backup.Volume.{BackupVolume}
use kahuna_k8s_operator.Kahuna.{Membership, Placement}
use kahuna_k8s_operator.Kahuna.Errors.{Error, Result, ok, err}
use kahuna_k8s_operator.Kahuna.Client.{Client}
use kahuna_k8s_operator.Autoscaler.Arithmetic.{Float}
use kahuna_k8s_operator.Traffic.{Sampler, measure}
use kahuna_k8s_operator.Autoscaler.{Signal}
use kahuna_k8s_operator.Backup.Runner.{Runner}
use kahuna_k8s_operator.Reporting.{StatefulSet, observe_status, reconcile_status}
use kahuna_k8s_operator.Scaling.{Existing, read_placement}
use kahuna_k8s_operator.Autoscaling.{
  AutoscalingPass, finished, is_steady, placement_answer, converged_by, members_of, measured,
  after_answer, pass_for, reconcile_autoscaling,
}
use kahuna_k8s_operator.Sizing.{
  SizingPass, sized, crashed, roster_of, placement_of, size_with, reconcile_size,
}

pub reconcile_status-bootstrap_size :
    (set_status_condition : List Condition → Condition → List Condition)
    (equal_status : Status → Status → Bool) (cluster : Cluster) (persisted : Status)
    (sts : StatefulSet) (pods : List Pod) (m : Option Membership) (ready : Bool) (msg : String)
    → (reconcile_status set_status_condition equal_status cluster persisted sts pods m ready
        msg).status.bootstrap_size
      ≡ cluster.status.bootstrap_size
unfolding reconcile_status observe_status
reconcile_status-bootstrap_size set same cluster persisted sts pods none ready msg = ground arith
reconcile_status-bootstrap_size set same cluster persisted sts pods (some m) ready msg =
    ground arith

pub reconcile_backup-bootstrap_size :
    (set_status_condition : List Condition → Condition → List Condition)
    (remove_status_condition : List Condition → String → List Condition)
    (parse_schedule : String → Result Schedule) (show_time : ℕ → String) (cluster : Cluster)
    (now : ℕ) (config_hash : String) (m : Option Membership) (pods : List Pod) (r : Runner)
    (volume : BackupSpec → BackupVolume)
    → (reconcile_backup set_status_condition remove_status_condition parse_schedule show_time
        cluster now config_hash m pods r volume).status.bootstrap_size
      ≡ cluster.status.bootstrap_size
unfolding reconcile_backup
reconcile_backup-bootstrap_size set unset parse show_time cluster now config_hash m pods r volume =
    by_spec cluster.spec.backup
  where
    by_spec :
        (o : Option BackupSpec)
        → (backup_by set unset parse show_time cluster now config_hash m pods r volume
            o).status.bootstrap_size
          ≡ cluster.status.bootstrap_size
    by_spec none = refl
    by_spec (some spec) = refl

module _ (𝓕 : Float) (set_status_condition : List Condition → Condition → List Condition)
    (remove_status_condition : List Condition → String → List Condition) (client : Client 𝓕.F)
    (cluster : Cluster) where
  abbrev SameSize : AutoscalingPass 𝓕 set_status_condition remove_status_condition → Type 0
  SameSize (finished status sampler) = status.bootstrap_size ≡ cluster.status.bootstrap_size
  SameSize (AutoscalingPass.panicked sampler) = Unit {0}

  measured-SameSize :
      (spec : AutoscalingSpec) (now : ℕ) (o : Option Placement) (waiting : String)
      (answer : Result (Signal 𝓕.F) × Sampler 𝓕)
      → SameSize (
          measured 𝓕 set_status_condition remove_status_condition cluster spec now o waiting answer)
  measured-SameSize spec now none waiting (answer, s) = tt
  measured-SameSize spec now (some p) waiting (ok signal, s) = refl
  measured-SameSize spec now (some p) waiting (err e, s) = refl

  answer-SameSize :
      (spec : AutoscalingSpec) (now : ℕ) (pods : List Pod) (s : Sampler 𝓕) (o : Option Placement)
      (answer : Bool × String)
      → SameSize (
          after_answer 𝓕 set_status_condition remove_status_condition cluster spec now client pods s
            o answer)
  answer-SameSize spec now pods s o (false, waiting) = refl
  answer-SameSize spec now pods s o (true, waiting) =
      measured-SameSize spec now o waiting (measure 𝓕 client cluster (members_of cluster pods) s)

  pass-SameSize :
      (o : Option AutoscalingSpec) (bootstrapped : Bool) (m : Option Membership)
      (p : Option Placement) (e : Option Error) (pods : List Pod) (s : Sampler 𝓕) (now : ℕ)
      → SameSize (
          pass_for 𝓕 set_status_condition remove_status_condition client cluster o bootstrapped m p
            e pods s now)
  pass-SameSize none bootstrapped m p e pods s now = refl
  pass-SameSize (some spec) bootstrapped m p e pods s now =
      answer-SameSize spec now pods s p
        (converged_by (is_steady cluster bootstrapped m pods) (placement_answer cluster p e now))

  abbrev pub SizedSame : SizingPass 𝓕 set_status_condition remove_status_condition → Type 0
  SizedSame (sized cluster' pass s) = cluster'.status.bootstrap_size ≡ cluster.status.bootstrap_size
  SizedSame (crashed s) = Unit {0}

  size-SizedSame :
      (existing : Existing) (pods : List Pod) (m : Option Membership)
      (read : Option Placement × Option Error)
      (a : AutoscalingPass 𝓕 set_status_condition remove_status_condition)
      → SameSize a
      → SizedSame (
          size_with 𝓕 set_status_condition remove_status_condition client cluster existing pods m
            read a)
  size-SizedSame existing pods m (p, e) (AutoscalingPass.panicked s) same = tt
  size-SizedSame existing pods m (p, e) (finished status s) same = same

  pub reconcile_size-SizedSame :
      (existing : Existing) (pods : List Pod) (s : Sampler 𝓕) (now : ℕ)
      → SizedSame (
          reconcile_size 𝓕 set_status_condition remove_status_condition client cluster existing pods
            s now)
  unfolding reconcile_size reconcile_autoscaling
  reconcile_size-SizedSame existing pods s now =
      let m = roster_of (read_membership client cluster pods) in
      let read = placement_of (read_placement client cluster pods) in
      size-SizedSame existing pods m read
        (reconcile_autoscaling 𝓕 set_status_condition remove_status_condition client cluster
          cluster.status.bootstrapped m read.0 read.1 pods s now)
        (pass-SameSize cluster.spec.autoscaling cluster.status.bootstrapped m read.0 read.1 pods s
          now)
