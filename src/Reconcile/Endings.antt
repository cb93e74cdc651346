-- ===== src/Reconcile/Endings.antt =====
-- Each pass that ends without an error is followed by another in time
-- (internal/controller/kahunacluster_controller.go, `Reconcile`).
use kahuna_k8s_operator.Common.{ℕ, String, Bool, true, false, Option, none, some, List}
use kahuna_k8s_operator.Api.{Cluster, Status, Pod, BackupSpec}
use kahuna_k8s_operator.Membership.{read_membership}
use kahuna_k8s_operator.Entrypoint.Script.{entrypoint_script}
use kahuna_k8s_operator.Backup.Pass.{reconcile_backup}
use kahuna_k8s_operator.Backup.Volume.{BackupVolume, read_backup_volume}
use kahuna_k8s_operator.Kahuna.{Membership}
use kahuna_k8s_operator.Kahuna.Errors.{Error, Result, ok, err}
use kahuna_k8s_operator.Kahuna.Client.{Client}
use kahuna_k8s_operator.ApiServer.{Objects}
use kahuna_k8s_operator.Autoscaler.Arithmetic.{Float}
use kahuna_k8s_operator.Certificate.{Secret}
use kahuna_k8s_operator.Certificate.Keystore.{
  certificate_ready, reconcile_keystore_password, reconcile_certificate,
}
use kahuna_k8s_operator.Backup.Keep.{reconcile_backup_resources}
use kahuna_k8s_operator.Traffic.{Sampler}
use kahuna_k8s_operator.Backup.Claims.{Claim}
use kahuna_k8s_operator.Backup.Runner.{Runner}
use kahuna_k8s_operator.Reporting.{StatefulSet, StatusPass, reconcile_status}
use kahuna_k8s_operator.Scaling.{StsAction, created, updated, failed}
use kahuna_k8s_operator.Sizing.{SizingPass, sized, crashed, roster_of, reconcile_size}
use kahuna_k8s_operator.Resources.{
  Service, wants_pdb, desired_peer_service, desired_client_service, desired_pdb, desired_config_map,
}
use kahuna_k8s_operator.Reconcile.{
  sooner, pdb_step, carried, Ending, returned, panicked, W, step, status_written, status_step,
  backup_step, with_sts, act, with_size, with_pods, backup_resources_step, pdb_by, config_map_step,
  services_step, service_step, certificate_step, password_step,
}
use kahuna_k8s_operator.ApiServer.Environment.{
  Environment, Write, stateful_set, make_pdb, drop_pdb, config_map, wrote, service,
}
use kahuna_k8s_operator.Reconcile.Requeue.{
  IsDelay, IsSoon, reconcile_backup-IsDelay, reconcile_status-IsSoon, sooner-IsSoon,
}

module _ (𝓕 : Float) (secrets : Objects Secret) (claims : Objects Claim) (env : Environment)
    (now : ℕ) (Keeps : secrets.State → claims.State → Type 0) where
  open 𝓕 use {F}

  abbrev pub IsGood : W 𝓕 secrets claims env now → Type 0
  IsGood w = Keeps w.secret_state w.claim_state

  -- However the pass ends, the invariant holds, and a delay that is returned is a second to a minute.
  abbrev pub Answers : Ending 𝓕 secrets claims env now → Type 0
  Answers (returned (ok d) w r s) = IsSoon d × IsGood w
  Answers (returned (err e) w r s) = IsGood w
  Answers (panicked w r s) = IsGood w

  pub step-Answers :
      (context : String) (r : Runner) (s : Sampler 𝓕) (e : Option Error)
      (w : W 𝓕 secrets claims env now)
      (next : W 𝓕 secrets claims env now → Ending 𝓕 secrets claims env now)
      → IsGood w
      → ((w : W 𝓕 secrets claims env now) → IsGood w → Answers (next w))
      → Answers (step 𝓕 secrets claims env now context r s e w next)
  step-Answers context r s none w next good all = all w good
  step-Answers context r s (some e) w next good all = good

  written-Answers :
      (w : W 𝓕 secrets claims env now) (r : Runner) (s : Sampler 𝓕) (wake : ℕ) (p : StatusPass)
      (b : Bool)
      → IsGood w
      → IsDelay wake
      → IsSoon p.requeue
      → Answers (status_written 𝓕 secrets claims env now w r s wake p b)
  written-Answers w r s wake p false good late soon = (sooner-IsSoon wake p.requeue late soon, good)
  written-Answers w r s wake p true good late soon =
      step-Answers "updating status" r s (env.write_status p.status)
        (wrote secrets claims w (Write.status p.status))
        (λ w. returned (ok (sooner wake p.requeue)) w r s) good
        (λ w good. (sooner-IsSoon wake p.requeue late soon, good))

  status-Answers :
      (cluster : Cluster) (persisted : Status) (sts : StatefulSet) (pods : List Pod)
      (m : Option Membership) (wake : ℕ) (r : Runner) (s : Sampler 𝓕)
      (w : W 𝓕 secrets claims env now)
      → IsGood w
      → IsDelay wake
      → Answers (status_step 𝓕 secrets claims env now cluster persisted sts pods m wake r s w)
  unfolding status_step
  status-Answers cluster persisted sts pods m wake r s w good late =
      let (ready, msg) = certificate_ready secrets env.refuses cluster w.secret_state in
      let p =
        reconcile_status env.set_status_condition env.equal_status cluster persisted sts pods m
          ready msg in
      written-Answers w r s wake p p.written good late (
        reconcile_status-IsSoon env.set_status_condition env.equal_status cluster persisted sts pods
          m ready msg)

  backup-Answers :
      (cluster : Cluster) (persisted : Status) (sts : StatefulSet) (pods : List Pod)
      (m : Option Membership) (r : Runner) (s : Sampler 𝓕) (w : W 𝓕 secrets claims env now)
      → IsGood w
      → Answers (backup_step 𝓕 secrets claims env now cluster persisted sts pods m r s w)
  unfolding backup_step
  backup-Answers cluster persisted sts pods m r s w good =
      let volume : BackupSpec → BackupVolume =
        λ spec. read_backup_volume cluster spec (env.read_claim spec) env.claim_events in
      let b =
        reconcile_backup env.set_status_condition env.remove_status_condition env.parse_schedule
          env.show_time cluster now (env.config_hash (entrypoint_script cluster)) m pods r volume in
      status-Answers (record cluster { status = b.status }) persisted sts pods m b.wake b.runner s w
        good
        (reconcile_backup-IsDelay env.set_status_condition env.remove_status_condition
          env.parse_schedule env.show_time cluster now (env.config_hash (entrypoint_script cluster))
          m pods r volume)

  sts-Answers :
      (cluster : Cluster) (persisted : Status) (pods : List Pod) (m : Option Membership)
      (r : Runner) (s : Sampler 𝓕) (w : W 𝓕 secrets claims env now) (result : Result StatefulSet)
      → IsGood w
      → Answers (with_sts 𝓕 secrets claims env now cluster persisted pods m r s w result)
  sts-Answers cluster persisted pods m r s w (err e) good = good
  sts-Answers cluster persisted pods m r s w (ok sts) good =
      backup-Answers cluster persisted sts pods m r s w good

  act-Answers :
      (cluster : Cluster) (persisted : Status) (pods : List Pod) (m : Option Membership)
      (r : Runner) (s : Sampler 𝓕) (w : W 𝓕 secrets claims env now) (action : StsAction)
      → IsGood w
      → Answers (act 𝓕 secrets claims env now cluster persisted pods m r s w action)
  act-Answers cluster persisted pods m r s w (failed e) good = good
  act-Answers cluster persisted pods m r s w (created n p) good =
      sts-Answers cluster persisted pods m r s (wrote secrets claims w (stateful_set (created n p)))
        (env.write_sts (created n p)) good
  act-Answers cluster persisted pods m r s w (updated p) good =
      sts-Answers cluster persisted pods m r s (wrote secrets claims w (stateful_set (updated p)))
        (env.write_sts (updated p)) good

  size-Answers :
      (persisted : Status) (pods : List Pod) (m : Option Membership) (r : Runner)
      (w : W 𝓕 secrets claims env now)
      (size : SizingPass 𝓕 env.set_status_condition env.remove_status_condition)
      → IsGood w
      → Answers (with_size 𝓕 secrets claims env now persisted pods m r w size)
  size-Answers persisted pods m r w (crashed s) good = good
  size-Answers persisted pods m r w (sized cluster pass s) good =
      act-Answers cluster persisted pods m r s w pass.action good

  module _ (client : Client F) (cluster : Cluster) (r : Runner) (s : Sampler 𝓕)
      (keeps_password : (p : secrets.State) (c : claims.State)
        → Keeps p c
        → Keeps (reconcile_keystore_password secrets env.set_owner env.random cluster p).1 c)
      (keeps_certificate : (p : secrets.State) (c : claims.State)
        → Keeps p c
        → Keeps (reconcile_certificate secrets env.refuses env.apply_certificate cluster p).1 c)
      (keeps_backups : (p : secrets.State) (c : claims.State)
        → Keeps p c
        → Keeps
            (reconcile_backup_resources claims secrets env.random_key cluster (c, p)).1.1
            (reconcile_backup_resources claims secrets env.random_key cluster (c, p)).1.0) where
    pods-Answers :
        (w : W 𝓕 secrets claims env now) (pods : Result (List Pod))
        → IsGood w
        → Answers (with_pods 𝓕 secrets claims env now client cluster r s w pods)
    pods-Answers w (err e) good = good
    pods-Answers w (ok pods) good =
        size-Answers cluster.status pods (roster_of (read_membership client cluster pods)) r w
          (reconcile_size 𝓕 env.set_status_condition env.remove_status_condition client cluster
            env.existing pods s now)
          good

    resources-Answers :
        (w : W 𝓕 secrets claims env now)
        → IsGood w
        → Answers (backup_resources_step 𝓕 secrets claims env now client cluster r s w)
    resources-Answers w good =
        let (e, both) =
          reconcile_backup_resources claims secrets env.random_key cluster
            (w.claim_state, w.secret_state) in
        step-Answers "reconciling backup resources" r s e
          (record w { claim_state = both.0; secret_state = both.1 })
          (λ w. with_pods 𝓕 secrets claims env now client cluster r s w env.list_pods)
          (keeps_backups w.secret_state w.claim_state good)
          (λ w good. pods-Answers w env.list_pods good)

    pdb-Answers :
        (w : W 𝓕 secrets claims env now) (b : Bool)
        → IsGood w
        → Answers (pdb_by 𝓕 secrets claims env now client cluster r s w b)
    pdb-Answers w true good =
        step-Answers "reconciling pod disruption budget" r s (env.apply_pdb (desired_pdb cluster))
          (wrote secrets claims w (make_pdb (desired_pdb cluster)))
          (backup_resources_step 𝓕 secrets claims env now client cluster r s) good resources-Answers
    pdb-Answers w false good =
        step-Answers "reconciling pod disruption budget" r s env.delete_pdb
          (wrote secrets claims w drop_pdb)
          (backup_resources_step 𝓕 secrets claims env now client cluster r s) good resources-Answers

    config_map-Answers :
        (w : W 𝓕 secrets claims env now)
        → IsGood w
        → Answers (config_map_step 𝓕 secrets claims env now client cluster r s w)
    config_map-Answers w good =
        let cm = desired_config_map cluster cluster.status.bootstrap_size in
        step-Answers "reconciling config map" r s (env.apply_config_map cm)
          (wrote secrets claims w (config_map cm))
          (pdb_step 𝓕 secrets claims env now client cluster r s) good
          (λ w good. pdb-Answers w (wants_pdb cluster) good)

    service-Answers :
        (desired : Service) (w : W 𝓕 secrets claims env now)
        (next : W 𝓕 secrets claims env now → Ending 𝓕 secrets claims env now)
        → IsGood w
        → ((w : W 𝓕 secrets claims env now) → IsGood w → Answers (next w))
        → Answers (service_step 𝓕 secrets claims env now client cluster r s desired w next)
    service-Answers desired w next good all =
        step-Answers "reconciling services" r s
          (env.apply_service desired.meta.name (carried desired))
          (wrote secrets claims w (service desired.meta.name)) next good all

    services-Answers :
        (w : W 𝓕 secrets claims env now)
        → IsGood w
        → Answers (services_step 𝓕 secrets claims env now client cluster r s w)
    services-Answers w good =
        let client_service = desired_client_service cluster in
        let next = config_map_step 𝓕 secrets claims env now client cluster r s in
        service-Answers (desired_peer_service cluster) w
          (λ w. service_step 𝓕 secrets claims env now client cluster r s client_service w next) good
          (λ w good. service-Answers client_service w next good config_map-Answers)

    certificate-Answers :
        (w : W 𝓕 secrets claims env now)
        → IsGood w
        → Answers (certificate_step 𝓕 secrets claims env now client cluster r s w)
    certificate-Answers w good =
        let (e, p) =
          reconcile_certificate secrets env.refuses env.apply_certificate cluster w.secret_state in
        step-Answers "reconciling certificate" r s e (record w { secret_state = p })
          (services_step 𝓕 secrets claims env now client cluster r s)
          (keeps_certificate w.secret_state w.claim_state good) services-Answers

    pub password-Answers :
        (w : W 𝓕 secrets claims env now)
        → IsGood w
        → Answers (password_step 𝓕 secrets claims env now client cluster r s w)
    unfolding password_step
    password-Answers w good =
        let (e, p) =
          reconcile_keystore_password secrets env.set_owner env.random cluster w.secret_state in
        step-Answers "reconciling keystore password" r s e (record w { secret_state = p })
          (certificate_step 𝓕 secrets claims env now client cluster r s)
          (keeps_password w.secret_state w.claim_state good) certificate-Answers
