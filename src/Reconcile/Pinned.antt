-- ===== src/Reconcile/Pinned.antt =====
-- The founding size stays as it was pinned (internal/controller/kahunacluster_controller.go,
-- `Reconcile`).
use kahuna_k8s_operator.Common.{
  ℕ, zero, suc, ◌≡◌, refl, ap, ◌∙◌, String, Bool, true, false, Option, none, some, List, [], ◌∷◌,
  ◌++◌, In, here, there, In-cons, inl, inr, ◌⊎◌,
}
use kahuna_k8s_operator.Api.{Cluster, Status, Pod, BackupSpec}
use kahuna_k8s_operator.Naming.{desired_replicas}
use kahuna_k8s_operator.Membership.{read_membership}
use kahuna_k8s_operator.Entrypoint.Script.{entrypoint_script}
use kahuna_k8s_operator.Backup.Pass.{reconcile_backup}
use kahuna_k8s_operator.Backup.Volume.{BackupVolume, read_backup_volume}
use kahuna_k8s_operator.Kahuna.{Membership}
use kahuna_k8s_operator.Kahuna.Errors.{Error, Result, ok, err}
use kahuna_k8s_operator.Kahuna.Client.{Client}
use kahuna_k8s_operator.ApiServer.{Objects}
use kahuna_k8s_operator.Autoscaler.Arithmetic.{Float}
use kahuna_k8s_operator.Certificate.{Secret}
use kahuna_k8s_operator.Certificate.Keystore.{
  certificate_ready, reconcile_keystore_password, reconcile_certificate,
}
use kahuna_k8s_operator.Backup.Keep.{reconcile_backup_resources}
use kahuna_k8s_operator.Traffic.{Sampler}
use kahuna_k8s_operator.Backup.Claims.{Claim}
use kahuna_k8s_operator.Backup.Runner.{Runner}
use kahuna_k8s_operator.Reporting.{StatefulSet, StatusPass, reconcile_status}
use kahuna_k8s_operator.Scaling.{StsAction, created, updated, failed}
use kahuna_k8s_operator.Sizing.{SizingPass, sized, crashed, roster_of, reconcile_size}
use kahuna_k8s_operator.Resources.{
  Service, wants_pdb, desired_peer_service, desired_client_service, desired_pdb, desired_config_map,
}
use kahuna_k8s_operator.Reconcile.{
  sooner, pdb_step, carried, Ending, returned, panicked, W, step, status_written, status_step,
  backup_step, with_sts, act, with_size, with_pods, backup_resources_step, pdb_by, config_map_step,
  services_step, service_step, certificate_step, password_step, pinned, pin_by, reconcile,
}
use kahuna_k8s_operator.Reconcile.Whole.{world_of}
use kahuna_k8s_operator.ApiServer.Environment.{
  Environment, Write, pin_size, stateful_set, make_pdb, drop_pdb, config_map, wrote, service,
}
use kahuna_k8s_operator.Reconcile.Unrevised.{
  reconcile_status-bootstrap_size, reconcile_backup-bootstrap_size, SizedSame,
  reconcile_size-SizedSame,
}

-- Where a write stores the founding size, it is this one.
abbrev pub IsPinned : ℕ → Write → Type 0
IsPinned n (pin_size k) = k ≡ n
IsPinned n (Write.status st) = st.bootstrap_size ≡ n
IsPinned n (config_map cm) = (c : Cluster) × (cm ≡ desired_config_map c n)
IsPinned n (service name) = Unit {0}
IsPinned n (make_pdb p) = Unit {0}
IsPinned n drop_pdb = Unit {0}
IsPinned n (stateful_set a) = Unit {0}

abbrev pub AllPinned : ℕ → List Write → Type 0
AllPinned n writes = (x : Write) → In x writes → IsPinned n x

In-last : (x y : Write) (xs : List Write) → In x (xs ++ (y ∷ [])) → In x xs ⊎ (x ≡ y)
In-last x y [] m = elim (In-cons m) [ inl e ↦ inr e | inr m ↦ elim m [ ] ]
In-last x y (z ∷ xs) m = elim (In-cons m) [
  | inl e ↦ inl (rw e here)
  | inr m ↦ elim (In-last x y xs m) [ inl m ↦ inl (there m) | inr e ↦ inr e ]
]

AllPinned-write :
    (n : ℕ) (y : Write) (xs : List Write)
    → AllPinned n xs
    → IsPinned n y
    → AllPinned n (xs ++ (y ∷ []))
AllPinned-write n y xs all one x m = elim (In-last x y xs m) [ inl m ↦ all x m | inr e ↦ rw e one ]

module _ (𝓕 : Float) (secrets : Objects Secret) (claims : Objects Claim) (env : Environment)
    (now : ℕ) (n : ℕ) where
  open 𝓕 use {F}

  abbrev pub IsGood : W 𝓕 secrets claims env now → Type 0
  IsGood w = AllPinned n w.writes

  abbrev pub Ends : Ending 𝓕 secrets claims env now → Type 0
  Ends (returned result w r s) = IsGood w
  Ends (panicked w r s) = IsGood w

  step-Ends :
      (context : String) (r : Runner) (s : Sampler 𝓕) (e : Option Error)
      (w : W 𝓕 secrets claims env now)
      (next : W 𝓕 secrets claims env now → Ending 𝓕 secrets claims env now)
      → IsGood w
      → ((w : W 𝓕 secrets claims env now) → IsGood w → Ends (next w))
      → Ends (step 𝓕 secrets claims env now context r s e w next)
  step-Ends context r s none w next good all = all w good
  step-Ends context r s (some e) w next good all = good

  -- A step that writes.
  write-Ends :
      (context : String) (r : Runner) (s : Sampler 𝓕) (e : Option Error)
      (w : W 𝓕 secrets claims env now) (x : Write)
      (next : W 𝓕 secrets claims env now → Ending 𝓕 secrets claims env now)
      → IsGood w
      → IsPinned n x
      → ((w : W 𝓕 secrets claims env now) → IsGood w → Ends (next w))
      → Ends (step 𝓕 secrets claims env now context r s e (wrote secrets claims w x) next)
  write-Ends context r s e w x next good pin all =
      step-Ends context r s e (wrote secrets claims w x) next
        (AllPinned-write n x w.writes good pin) all

  written-Ends :
      (w : W 𝓕 secrets claims env now) (r : Runner) (s : Sampler 𝓕) (wake : ℕ) (p : StatusPass)
      (b : Bool)
      → IsGood w
      → p.status.bootstrap_size ≡ n
      → Ends (status_written 𝓕 secrets claims env now w r s wake p b)
  written-Ends w r s wake p false good same = good
  written-Ends w r s wake p true good same =
      write-Ends "updating status" r s (env.write_status p.status) w (Write.status p.status)
        (λ w. returned (ok (sooner wake p.requeue)) w r s) good same (λ w good. good)

  backup-Ends :
      (cluster : Cluster) (persisted : Status) (sts : StatefulSet) (pods : List Pod)
      (m : Option Membership) (r : Runner) (s : Sampler 𝓕) (w : W 𝓕 secrets claims env now)
      → cluster.status.bootstrap_size ≡ n
      → IsGood w
      → Ends (backup_step 𝓕 secrets claims env now cluster persisted sts pods m r s w)
  unfolding backup_step status_step
  backup-Ends cluster persisted sts pods m r s w same good =
      let volume : BackupSpec → BackupVolume =
        λ spec. read_backup_volume cluster spec (env.read_claim spec) env.claim_events in
      let b =
        reconcile_backup env.set_status_condition env.remove_status_condition env.parse_schedule
          env.show_time cluster now (env.config_hash (entrypoint_script cluster)) m pods r volume in
      let cluster' : Cluster = record cluster { status = b.status } in
      let (ready, msg) = certificate_ready secrets env.refuses cluster' w.secret_state in
      let p =
        reconcile_status env.set_status_condition env.equal_status cluster' persisted sts pods m
          ready msg in
      written-Ends w b.runner s b.wake p p.written good (
        reconcile_status-bootstrap_size env.set_status_condition env.equal_status cluster' persisted
          sts pods m ready msg
        ∙ reconcile_backup-bootstrap_size env.set_status_condition env.remove_status_condition
            env.parse_schedule env.show_time cluster now
            (env.config_hash (entrypoint_script cluster)) m pods r volume
        ∙ same)

  sts-Ends :
      (cluster : Cluster) (persisted : Status) (pods : List Pod) (m : Option Membership)
      (r : Runner) (s : Sampler 𝓕) (w : W 𝓕 secrets claims env now) (result : Result StatefulSet)
      → cluster.status.bootstrap_size ≡ n
      → IsGood w
      → Ends (with_sts 𝓕 secrets claims env now cluster persisted pods m r s w result)
  sts-Ends cluster persisted pods m r s w (err e) same good = good
  sts-Ends cluster persisted pods m r s w (ok sts) same good =
      backup-Ends cluster persisted sts pods m r s w same good

  act-Ends :
      (cluster : Cluster) (persisted : Status) (pods : List Pod) (m : Option Membership)
      (r : Runner) (s : Sampler 𝓕) (w : W 𝓕 secrets claims env now) (action : StsAction)
      → cluster.status.bootstrap_size ≡ n
      → IsGood w
      → Ends (act 𝓕 secrets claims env now cluster persisted pods m r s w action)
  act-Ends cluster persisted pods m r s w (failed e) same good = good
  act-Ends cluster persisted pods m r s w (created k p) same good =
      sts-Ends cluster persisted pods m r s (wrote secrets claims w (stateful_set (created k p)))
        (env.write_sts (created k p)) same (AllPinned-write n _ w.writes good tt)
  act-Ends cluster persisted pods m r s w (updated p) same good =
      sts-Ends cluster persisted pods m r s (wrote secrets claims w (stateful_set (updated p)))
        (env.write_sts (updated p)) same (AllPinned-write n _ w.writes good tt)

  size-Ends :
      (k : Cluster) (client : Client F) (persisted : Status) (pods : List Pod)
      (m : Option Membership) (r : Runner) (w : W 𝓕 secrets claims env now)
      (size : SizingPass 𝓕 env.set_status_condition env.remove_status_condition)
      → k.status.bootstrap_size ≡ n
      → SizedSame 𝓕 env.set_status_condition env.remove_status_condition client k size
      → IsGood w
      → Ends (with_size 𝓕 secrets claims env now persisted pods m r w size)
  size-Ends k client persisted pods m r w (crashed s) same kept good = good
  size-Ends k client persisted pods m r w (sized cluster pass s) same kept good =
      act-Ends cluster persisted pods m r s w pass.action (kept ∙ same) good

  module _ (client : Client F) (cluster : Cluster) (r : Runner) (s : Sampler 𝓕)
      (same : cluster.status.bootstrap_size ≡ n) where
    pods-Ends :
        (w : W 𝓕 secrets claims env now) (pods : Result (List Pod))
        → IsGood w
        → Ends (with_pods 𝓕 secrets claims env now client cluster r s w pods)
    pods-Ends w (err e) good = good
    pods-Ends w (ok pods) good =
        size-Ends cluster client cluster.status pods
          (roster_of (read_membership client cluster pods)) r w
          (reconcile_size 𝓕 env.set_status_condition env.remove_status_condition client cluster
            env.existing pods s now)
          same
          (reconcile_size-SizedSame 𝓕 env.set_status_condition env.remove_status_condition client
            cluster env.existing pods s now)
          good

    resources-Ends :
        (w : W 𝓕 secrets claims env now)
        → IsGood w
        → Ends (backup_resources_step 𝓕 secrets claims env now client cluster r s w)
    resources-Ends w good =
        let (e, both) =
          reconcile_backup_resources claims secrets env.random_key cluster
            (w.claim_state, w.secret_state) in
        step-Ends "reconciling backup resources" r s e
          (record w { claim_state = both.0; secret_state = both.1 })
          (λ w. with_pods 𝓕 secrets claims env now client cluster r s w env.list_pods) good
          (λ w good. pods-Ends w env.list_pods good)

    pdb-Ends :
        (w : W 𝓕 secrets claims env now) (b : Bool)
        → IsGood w
        → Ends (pdb_by 𝓕 secrets claims env now client cluster r s w b)
    pdb-Ends w true good =
        write-Ends "reconciling pod disruption budget" r s (env.apply_pdb (desired_pdb cluster)) w
          (make_pdb (desired_pdb cluster))
          (backup_resources_step 𝓕 secrets claims env now client cluster r s) good tt resources-Ends
    pdb-Ends w false good =
        write-Ends "reconciling pod disruption budget" r s env.delete_pdb w drop_pdb
          (backup_resources_step 𝓕 secrets claims env now client cluster r s) good tt resources-Ends

    config_map-Ends :
        (w : W 𝓕 secrets claims env now)
        → IsGood w
        → Ends (config_map_step 𝓕 secrets claims env now client cluster r s w)
    config_map-Ends w good =
        let cm = desired_config_map cluster cluster.status.bootstrap_size in
        write-Ends "reconciling config map" r s (env.apply_config_map cm) w (config_map cm)
          (pdb_step 𝓕 secrets claims env now client cluster r s) good
          (cluster, ap (desired_config_map cluster) same)
          (λ w good. pdb-Ends w (wants_pdb cluster) good)

    service-Ends :
        (desired : Service) (w : W 𝓕 secrets claims env now)
        (next : W 𝓕 secrets claims env now → Ending 𝓕 secrets claims env now)
        → IsGood w
        → ((w : W 𝓕 secrets claims env now) → IsGood w → Ends (next w))
        → Ends (service_step 𝓕 secrets claims env now client cluster r s desired w next)
    service-Ends desired w next good all =
        write-Ends "reconciling services" r s
          (env.apply_service desired.meta.name (carried desired)) w (service desired.meta.name) next
          good tt all

    services-Ends :
        (w : W 𝓕 secrets claims env now)
        → IsGood w
        → Ends (services_step 𝓕 secrets claims env now client cluster r s w)
    services-Ends w good =
        let client_service = desired_client_service cluster in
        let next = config_map_step 𝓕 secrets claims env now client cluster r s in
        service-Ends (desired_peer_service cluster) w
          (λ w. service_step 𝓕 secrets claims env now client cluster r s client_service w next) good
          (λ w good. service-Ends client_service w next good config_map-Ends)

    certificate-Ends :
        (w : W 𝓕 secrets claims env now)
        → IsGood w
        → Ends (certificate_step 𝓕 secrets claims env now client cluster r s w)
    certificate-Ends w good =
        let (e, p) =
          reconcile_certificate secrets env.refuses env.apply_certificate cluster w.secret_state in
        step-Ends "reconciling certificate" r s e (record w { secret_state = p })
          (services_step 𝓕 secrets claims env now client cluster r s) good services-Ends

    password-Ends :
        (w : W 𝓕 secrets claims env now)
        → IsGood w
        → Ends (password_step 𝓕 secrets claims env now client cluster r s w)
    unfolding password_step
    password-Ends w good =
        let (e, p) =
          reconcile_keystore_password secrets env.set_owner env.random cluster w.secret_state in
        step-Ends "reconciling keystore password" r s e (record w { secret_state = p })
          (certificate_step 𝓕 secrets claims env now client cluster r s) good certificate-Ends

-- The founding size of a cluster: the one that is pinned, or else the size it asks for now.
abbrev pub founding_size : Cluster → ℕ → ℕ
founding_size cluster zero = desired_replicas cluster
founding_size cluster (suc size) = suc size

pinned_by :
    (𝓕 : Float) (secrets : Objects Secret) (claims : Objects Claim) (env : Environment) (now : ℕ)
    (client : Client 𝓕.F) (cluster : Cluster) (r : Runner) (s : Sampler 𝓕)
    (w : W 𝓕 secrets claims env now) (size : ℕ)
    → cluster.status.bootstrap_size ≡ size
    → AllPinned (founding_size cluster size) w.writes
    → Ends 𝓕 secrets claims env now
        (founding_size cluster size)
        (pin_by 𝓕 secrets claims env now client cluster r s w size)
pinned_by 𝓕 secrets claims env now client cluster r s w (suc size) same good =
    password-Ends 𝓕 secrets claims env now (suc size) client cluster r s same w good
pinned_by 𝓕 secrets claims env now client cluster r s w zero same good =
    write-Ends 𝓕 secrets claims env now (desired_replicas cluster) "pinning bootstrap size" r s
      (env.write_status (pinned 𝓕 secrets claims env now cluster).status) w
      (pin_size (desired_replicas cluster))
      (password_step 𝓕 secrets claims env now client (pinned 𝓕 secrets claims env now cluster) r s)
      good refl
      (password-Ends 𝓕 secrets claims env now (desired_replicas cluster) client
        (pinned 𝓕 secrets claims env now cluster) r s refl)

writes-Ends :
    (𝓕 : Float) (secrets : Objects Secret) (claims : Objects Claim) (env : Environment) (now n : ℕ)
    (e : Ending 𝓕 secrets claims env now)
    → Ends 𝓕 secrets claims env now n e
    → AllPinned n (world_of 𝓕 secrets claims env now e).writes
writes-Ends 𝓕 secrets claims env now n (returned result w r s) good = good
writes-Ends 𝓕 secrets claims env now n (panicked w r s) good = good

-- The founding size is never revised. In the writes of a pass, each status and each topology for the
-- nodes has the size that is pinned, whatever the size is by now, and where none is pinned, the size
-- that the cluster asks for at the start of the pass, which is the one that the pass pins.
pub founding_size_stays :
    (𝓕 : Float) (secrets : Objects Secret) (claims : Objects Claim) (env : Environment) (now : ℕ)
    (client : Client 𝓕.F) (cluster : Cluster) (r : Runner) (s : Sampler 𝓕)
    (w : W 𝓕 secrets claims env now)
    → w.writes ≡ []
    → AllPinned
        (founding_size cluster cluster.status.bootstrap_size)
        (world_of 𝓕 secrets claims env now
          (reconcile 𝓕 secrets claims env now client cluster r s w)).writes
unfolding reconcile
founding_size_stays 𝓕 secrets claims env now client cluster r s w fresh =
    writes-Ends 𝓕 secrets claims env now (founding_size cluster cluster.status.bootstrap_size)
      (reconcile 𝓕 secrets claims env now client cluster r s w)
      (pinned_by 𝓕 secrets claims env now client cluster r s w cluster.status.bootstrap_size refl
        (rw fresh (λ x m. elim m [ ])))
