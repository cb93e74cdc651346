-- ===== src/Reconcile.antt =====
-- A whole pass (internal/controller/kahunacluster_controller.go, `Reconcile` and the steps that write
-- the Services, the ConfigMap and the disruption budget). What the API server answers is a
-- parameter, and the writes are kept as a trace. `reconcile` is
-- the pass after the read of the cluster, `reconcile_request` the pass with it.
pub mod Unrevised
pub mod Pinned
pub mod Requeue
pub mod Endings
pub mod Whole
use kahuna_k8s_operator.Common.{
  ℕ, zero, suc, ◌+◌, ◌*◌, ◌==◌, ltb, ◌||◌, ◌&&◌, String, Bool, true, false, Option, none, some,
  List, [], ◌∷◌, ◌++◌, str_eq, if◌then◌else◌,
}
use kahuna_k8s_operator.Api.{Cluster, Status, Condition, Pod, BackupSpec}
use kahuna_k8s_operator.Naming.{desired_replicas, peer_service_name, client_service_name}
use kahuna_k8s_operator.Kahuna.{Membership}
use kahuna_k8s_operator.Kahuna.Errors.{Error, Result, ok, err, wrapped}
use kahuna_k8s_operator.Kahuna.Client.{Client}
use kahuna_k8s_operator.ApiServer.{Objects, Reply, found, missing, failed}
use kahuna_k8s_operator.Certificate.{Secret, CertificateObject, Applied}
use kahuna_k8s_operator.Certificate.Keystore.{
  reconcile_keystore_password, reconcile_certificate, certificate_ready,
}
use kahuna_k8s_operator.Entrypoint.Script.{entrypoint_script}
use kahuna_k8s_operator.Resources.{
  Service, ConfigMap, DisruptionBudget, desired_peer_service, desired_client_service,
  desired_config_map, desired_pdb, wants_pdb,
}
use kahuna_k8s_operator.Membership.{read_membership}
use kahuna_k8s_operator.Scaling.{Existing, StsAction, StsPass}
use kahuna_k8s_operator.Reporting.{StatefulSet, StatusPass, reconcile_status}
use kahuna_k8s_operator.Autoscaler.Arithmetic.{Float}
use kahuna_k8s_operator.Traffic.{Sampler, forget_samples}
use kahuna_k8s_operator.Sizing.{SizingPass, sized, crashed, roster_of, reconcile_size}
use kahuna_k8s_operator.Backup.{Schedule}
use kahuna_k8s_operator.Backup.Claims.{Claim}
use kahuna_k8s_operator.Backup.Keep.{reconcile_backup_resources}
use kahuna_k8s_operator.Backup.Runner.{Runner, forget}
use kahuna_k8s_operator.Backup.Volume.{BoundClaim, Event, read_backup_volume}
use kahuna_k8s_operator.Backup.Pass.{BackupPass, reconcile_backup}
use kahuna_k8s_operator.Backup.Verdict.{Started}
use kahuna_k8s_operator.ApiServer.Environment.{
  Write, pin_size, service, config_map, make_pdb, drop_pdb, stateful_set, status, Environment,
  World, wrote,
}

-- `svc.Spec = spec` with the address that the API server has assigned carried forward.
abbrev pub carried : Service → Service → Service
carried desired existing = record desired {
  cluster_ip = if str_eq existing.cluster_ip "" then desired.cluster_ip else existing.cluster_ip;
}

-- The backup's next look, if it comes before the pass's own.
unfoldable pub sooner : ℕ → ℕ → ℕ
sooner wake requeue = if ltb 0 wake && ((requeue == 0) || ltb wake requeue) then wake else requeue

module _ (𝓕 : Float) (secrets : Objects Secret) (claims : Objects Claim) (env : Environment)
    (now : ℕ) where
  open 𝓕 use {F}

  abbrev pub W : Type 0
  W = World secrets claims

  -- How a pass ends: it returns the delay of the next one or an error, or it panics.
  pub data Ending : Type 0 where
    returned : Result ℕ → W → Runner → Sampler 𝓕 → Ending
    panicked : W → Runner → Sampler 𝓕 → Ending

  -- Nothing that follows is done after an error.
  abbrev pub step : String → Runner → Sampler 𝓕 → Option Error → W → (W → Ending) → Ending
  step context runner sampler none w next = next w
  step context runner sampler (some e) w next = returned (err (wrapped context e)) w runner sampler

  abbrev pub status_written : W → Runner → Sampler 𝓕 → ℕ → StatusPass → Bool → Ending
  status_written w runner sampler wake p false =
      returned (ok (sooner wake p.requeue)) w runner sampler
  status_written w runner sampler wake p true =
      step "updating status" runner sampler (env.write_status p.status)
        (wrote secrets claims w (status p.status))
        (λ w. returned (ok (sooner wake p.requeue)) w runner sampler)

  unfoldable pub status_step :
      Cluster
      → Status
      → StatefulSet
      → List Pod
      → Option Membership
      → ℕ
      → Runner
      → Sampler 𝓕
      → W
      → Ending
  unfolding sooner
  status_step cluster persisted sts pods m wake runner sampler w =
      let (ready, msg) = certificate_ready secrets env.refuses cluster w.secret_state in
      let p =
        reconcile_status env.set_status_condition env.equal_status cluster persisted sts pods m
          ready msg in
      status_written w runner sampler wake p p.written

  abbrev pub with_backup :
      Cluster
      → Status
      → StatefulSet
      → List Pod
      → Option Membership
      → Sampler 𝓕
      → W
      → BackupPass
      → Ending
  with_backup cluster persisted sts pods m sampler w b =
      status_step (record cluster { status = b.status }) persisted sts pods m b.wake b.runner
        sampler w

  unfoldable pub backup_step :
      Cluster
      → Status
      → StatefulSet
      → List Pod
      → Option Membership
      → Runner
      → Sampler 𝓕
      → W
      → Ending
  unfolding status_step
  backup_step cluster persisted sts pods m runner sampler w =
      with_backup cluster persisted sts pods m sampler w (
        reconcile_backup env.set_status_condition env.remove_status_condition env.parse_schedule
          env.show_time cluster now (env.config_hash (entrypoint_script cluster)) m pods runner
          (λ spec. read_backup_volume cluster spec (env.read_claim spec) env.claim_events))

  abbrev pub with_sts :
      Cluster
      → Status
      → List Pod
      → Option Membership
      → Runner
      → Sampler 𝓕
      → W
      → Result StatefulSet
      → Ending
  with_sts cluster persisted pods m runner sampler w (err e) =
      returned (err (wrapped "reconciling stateful set" e)) w runner sampler
  with_sts cluster persisted pods m runner sampler w (ok sts) =
      backup_step cluster persisted sts pods m runner sampler w

  abbrev pub act :
      Cluster → Status → List Pod → Option Membership → Runner → Sampler 𝓕 → W → StsAction → Ending
  act cluster persisted pods m runner sampler w (StsAction.failed e) =
      with_sts cluster persisted pods m runner sampler w (err e)
  act cluster persisted pods m runner sampler w action =
      with_sts cluster persisted pods m runner sampler
        (wrote secrets claims w (stateful_set action)) (env.write_sts action)

  abbrev pub with_size :
      Status
      → List Pod
      → Option Membership
      → Runner
      → W
      → SizingPass 𝓕 env.set_status_condition env.remove_status_condition
      → Ending
  with_size persisted pods m runner w (crashed sampler) = panicked w runner sampler
  with_size persisted pods m runner w (sized cluster pass sampler) =
      act cluster persisted pods m runner sampler w pass.action

  abbrev pub with_pods : Client F → Cluster → Runner → Sampler 𝓕 → W → Result (List Pod) → Ending
  with_pods client cluster runner sampler w (err e) =
      returned (err (wrapped "listing pods" e)) w runner sampler
  with_pods client cluster runner sampler w (ok pods) =
      with_size cluster.status pods (roster_of (read_membership client cluster pods)) runner w (
        reconcile_size 𝓕 env.set_status_condition env.remove_status_condition client cluster
          env.existing pods sampler now)

  module _ (client : Client F) (cluster : Cluster) (runner : Runner) (sampler : Sampler 𝓕) where
    abbrev pub backup_resources_step : W → Ending
    backup_resources_step w =
        let (e, both) =
          reconcile_backup_resources claims secrets env.random_key cluster
            (w.claim_state, w.secret_state) in
        step "reconciling backup resources" runner sampler e
          (record w { claim_state = both.0; secret_state = both.1 })
          (λ w. with_pods client cluster runner sampler w env.list_pods)

    abbrev pub pdb_by : W → Bool → Ending
    pdb_by w true =
        step "reconciling pod disruption budget" runner sampler
          (env.apply_pdb (desired_pdb cluster))
          (wrote secrets claims w (make_pdb (desired_pdb cluster))) backup_resources_step
    pdb_by w false =
        step "reconciling pod disruption budget" runner sampler env.delete_pdb
          (wrote secrets claims w drop_pdb) backup_resources_step

    abbrev pub pdb_step : W → Ending
    pdb_step w = pdb_by w (wants_pdb cluster)

    abbrev pub config_map_step : W → Ending
    config_map_step w =
        let cm = desired_config_map cluster cluster.status.bootstrap_size in
        step "reconciling config map" runner sampler (env.apply_config_map cm)
          (wrote secrets claims w (config_map cm)) pdb_step

    abbrev pub service_step : Service → W → (W → Ending) → Ending
    service_step desired w next =
        step "reconciling services" runner sampler
          (env.apply_service desired.meta.name (carried desired))
          (wrote secrets claims w (service desired.meta.name)) next

    abbrev pub services_step : W → Ending
    services_step w =
        service_step (desired_peer_service cluster) w
          (λ w. service_step (desired_client_service cluster) w config_map_step)

    abbrev pub certificate_step : W → Ending
    certificate_step w =
        let (e, s) =
          reconcile_certificate secrets env.refuses env.apply_certificate cluster w.secret_state in
        step "reconciling certificate" runner sampler e (record w { secret_state = s })
          services_step

    unfoldable pub password_step : W → Ending
    unfolding backup_step reconcile_size
    password_step w =
        let (e, s) =
          reconcile_keystore_password secrets env.set_owner env.random cluster w.secret_state in
        step "reconciling keystore password" runner sampler e (record w { secret_state = s })
          certificate_step

  abbrev pub pinned : Cluster → Cluster
  pinned cluster = record cluster {
    status = record cluster.status { bootstrap_size = desired_replicas cluster };
  }

  abbrev pub pin_by : Client F → Cluster → Runner → Sampler 𝓕 → W → ℕ → Ending
  pin_by client cluster runner sampler w (suc size) = password_step client cluster runner sampler w
  pin_by client cluster runner sampler w zero =
      step "pinning bootstrap size" runner sampler (env.write_status (pinned cluster).status)
        (wrote secrets claims w (pin_size (desired_replicas cluster)))
        (password_step client (pinned cluster) runner sampler)

  unfoldable pub reconcile : Client F → Cluster → Runner → Sampler 𝓕 → W → Ending
  unfolding password_step
  reconcile client cluster runner sampler w =
      pin_by client cluster runner sampler w cluster.status.bootstrap_size

  -- The read of the cluster comes first; of one that is gone nothing is kept.
  unfoldable pub reconcile_request :
      Client F → String → Runner → Sampler 𝓕 → W → Reply Cluster → Ending
  unfolding reconcile
  reconcile_request client key runner sampler w missing =
      returned (ok 0) w (forget key runner) (forget_samples 𝓕 key sampler)
  reconcile_request client key runner sampler w (failed e) = returned (err e) w runner sampler
  reconcile_request client key runner sampler w (found cluster) =
      reconcile client cluster runner sampler w
