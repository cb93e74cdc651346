-- ===== src/Reporting.antt =====
-- The status that a pass reports (internal/controller/kahunacluster_controller.go):
-- `reconcileStatus` and its helpers. What the API machinery does with conditions, the comparison
-- of two statuses, and the keystore check are parameters. The label selector, a constant of the
-- cluster, is left out.
pub mod Images
pub mod Phases
use kahuna_k8s_operator.Common.{
  ℕ, suc, ◌+◌, ◌*◌, ◌/◌, ◌==◌, ltb, leb, String, ◌<>◌, Bool, true, false, ◌&&◌, ◌||◌, not, Option,
  none, some, List, [], ◌∷◌, is_some, str_eq, string_dec, if◌then◌else◌,
}
use kahuna_k8s_operator.Common.Decimal.{decimal}
use kahuna_k8s_operator.Api.{
  Cluster, Status, Condition, ClusterPhase, bootstrapping, running, scaling_up, scaling_down,
  upgrading, degraded, MemberStatus, Pod, Container,
}
use kahuna_k8s_operator.Naming.{desired_replicas, container_name}
use kahuna_k8s_operator.Kahuna.{Membership}
use kahuna_k8s_operator.Membership.{is_below, pod_is_ready, build_member_status, count_roles}
use kahuna_k8s_operator.Scaling.{size_of}

abbrev pub seconds : ℕ → ℕ
seconds n = n * 1_000_000_000

abbrev requeue_progressing : ℕ
requeue_progressing = seconds 10

abbrev requeue_steady : ℕ
requeue_steady = seconds 60

abbrev requeue_autoscaling : ℕ
requeue_autoscaling = seconds 15

-- `podImage`, the loop over the containers.
unfoldable image_in : List Container → String
image_in [] = ""
image_in (c ∷ cs) = if str_eq c.name container_name then c.image else image_in cs

unfoldable pub pod_image : Pod → String
unfolding image_in
pod_image pod = image_in pod.containers

-- A node that runs the image and is ready.
abbrev pub runs_image : String → Pod → Bool
runs_image image pod =
    not (pod.deleting || (not (pod_is_ready pod) || not (str_eq (pod_image pod) image)))

-- The loop of `imageRolledOut`: how many nodes were seen, or `none` where it returns false.
unfoldable pub seen_running : String → ℕ → List Pod → ℕ → Option ℕ
seen_running image replicas [] seen = some seen
seen_running image replicas (pod ∷ pods) seen =
    let skip = seen_running image replicas pods seen in
    let next = seen_running image replicas pods (suc seen) in
    if not (is_below pod replicas) then skip else if not (runs_image image pod) then none else next

abbrev all_seen : ℕ → Option ℕ → Bool
all_seen replicas none = false
all_seen replicas (some seen) = ltb 0 replicas && (seen == replicas)

-- The parts of a StatefulSet that status is computed from.
pub record StatefulSet : Type 0 where
  pub spec_replicas : Option ℕ
  pub replicas : ℕ
  pub ready_replicas : ℕ
  pub partition : Option (Option ℕ)

unfoldable pub image_rolled_out : Cluster → StatefulSet → List Pod → Bool
unfolding seen_running
image_rolled_out cluster sts pods =
    all_seen (size_of sts.spec_replicas)
      (seen_running cluster.spec.image (size_of sts.spec_replicas) pods 0)

unfoldable pub keystore_or_default : String → String
keystore_or_default msg = if str_eq msg "" then "PKCS#12 keystore is present" else msg

unfoldable pub roster_message : Bool → ℕ → ℕ → ℕ → String
roster_message known voters learners desired =
    if not known
    then "cluster membership could not be read from any node"
    else if ltb 0 learners
    then decimal voters
      <> (" voters, "
          <> (decimal learners
              <> (" learners still catching up (want " <> (decimal desired <> " voters)"))))
    else decimal voters <> (" voters (want " <> (decimal desired <> ")"))

unfoldable pub has_quorum : ℕ → ℕ → Bool
has_quorum ready desired = if desired == 0 then false else leb (desired / 2 + 1) ready

-- The variables that the phase is chosen from.
pub record Observed : Type 0 where
  pub bootstrapped : Bool
  pub roster_known : Bool
  pub ready_replicas : ℕ
  pub replicas : ℕ
  pub voters : ℕ
  pub learners : ℕ
  pub image_current : Bool

unfoldable roster_converged : Observed → ℕ → Bool
roster_converged o desired = o.roster_known && (o.voters == desired && (o.learners == 0))

unfoldable pub progressing : Observed → ℕ → Bool
unfolding roster_converged
progressing o desired =
    ltb o.ready_replicas desired || (not (roster_converged o desired) || not o.image_current)

-- The `switch` over the phase.
unfoldable pub phase_of : Observed → ℕ → ClusterPhase
unfolding has_quorum progressing
phase_of o desired =
    if not o.bootstrapped
    then bootstrapping
    else if not (has_quorum o.ready_replicas desired) || not o.roster_known
    then degraded
    else if ltb o.replicas desired || ltb o.voters desired
    then scaling_up
    else if ltb desired o.replicas || ltb desired o.voters
    then scaling_down
    else if progressing o desired
    then upgrading
    else running

-- The roster's part of status; an unread roster leaves it as it was.
abbrev with_roster : Cluster → Option Membership → List Pod → Status → Status
with_roster cluster none pods status = status
with_roster cluster (some m) pods status =
    let members = build_member_status cluster m pods in
    record status {
      membership_version = m.membership_version;
      members = members;
      voters = (count_roles members).0;
      learners = (count_roles members).1;
    }

-- Bootstrap completes on a committed roster with enough Voters, and the flag latches.
abbrev completes_bootstrap : Option Membership → ℕ → ℕ → Bool
completes_bootstrap none voters desired = false
completes_bootstrap (some m) voters desired = ltb 0 m.membership_version && leb desired voters

-- The fields that are read off the StatefulSet.
abbrev with_sts : Cluster → StatefulSet → List Pod → Status → Status
with_sts cluster sts pods status = record status {
  observed_generation = cluster.generation;
  replicas = sts.replicas;
  ready_replicas = sts.ready_replicas;
  current_image =
      if image_rolled_out cluster sts pods then cluster.spec.image else status.current_image;
  update_partition = elim sts.partition [ none ↦ status.update_partition | some p ↦ p ];
}

abbrev with_bootstrap : Option Membership → ℕ → Status → Status
with_bootstrap m desired status = record status {
  bootstrapped = status.bootstrapped || completes_bootstrap m status.voters desired;
}

-- Everything but the phase and the conditions.
unfoldable pub observe_status : Cluster → StatefulSet → List Pod → Option Membership → Status
observe_status cluster sts pods m =
    with_bootstrap m (desired_replicas cluster)
      (with_roster cluster m pods (with_sts cluster sts pods cluster.status))

abbrev pub observed : Cluster → Option Membership → Status → Observed
observed cluster m status = record {
  bootstrapped = status.bootstrapped;
  roster_known = is_some m;
  ready_replicas = status.ready_replicas;
  replicas = status.replicas;
  voters = status.voters;
  learners = status.learners;
  image_current = str_eq status.current_image cluster.spec.image;
}

unfoldable pub condition : String → Bool → String → String → String → Condition
condition kind active true_reason false_reason message = record {
  kind = kind;
  active = active;
  reason = if active then true_reason else false_reason;
  message = message;
}

abbrev progress_message : Cluster → Status → Observed → ℕ → String
progress_message cluster status o desired =
    let counts =
      decimal status.ready_replicas
      <> ("/" <> (decimal desired <> (" nodes ready, " <> (decimal status.voters <> " voters")))) in
    if not o.image_current then counts <> (", rolling out image " <> cluster.spec.image) else counts

-- The conditions of a pass, in the order in which they are set.
unfoldable status_conditions : Cluster → Status → Observed → ℕ → Bool → String → List Condition
unfolding condition progressing has_quorum
status_conditions cluster status o desired keystore_ready keystore_msg =
    condition "KeystoreReady" keystore_ready "KeystoreAvailable" "KeystorePending"
      (keystore_or_default keystore_msg)
    ∷ condition "Progressing" (progressing o desired) "Converging" "Converged"
        (progress_message cluster status o desired)
    ∷ condition "RosterConverged" (roster_converged o desired) "RosterMatchesSpec" "RosterDiffers"
        (roster_message o.roster_known status.voters status.learners desired)
    ∷ condition "Available" (has_quorum status.ready_replicas desired) "QuorumReady" "QuorumLost"
        (decimal status.ready_replicas <> (" of " <> (decimal desired <> " nodes ready")))
    ∷ []

unfoldable pub requeue_after : Cluster → Status → Observed → ℕ → ℕ
unfolding progressing
requeue_after cluster status o desired =
    if progressing o desired || not (status.replicas == desired)
    then requeue_progressing
    else if is_some cluster.spec.autoscaling
    then requeue_autoscaling
    else requeue_steady

-- What `reconcileStatus` leaves: the status, whether it is written, and the next look.
pub record StatusPass : Type 0 where
  pub status : Status
  pub written : Bool
  pub requeue : ℕ

module _ (set_status_condition : List Condition → Condition → List Condition)
    (equal_status : Status → Status → Bool) where
  abbrev set_all : List Condition → List Condition → List Condition
  set_all conditions [] = conditions
  set_all conditions (c ∷ cs) = set_all (set_status_condition conditions c) cs

  unfoldable pub reconcile_status :
      Cluster → Status → StatefulSet → List Pod → Option Membership → Bool → String → StatusPass
  unfolding phase_of status_conditions requeue_after observe_status
  reconcile_status cluster persisted sts pods m keystore_ready keystore_msg =
      let desired = desired_replicas cluster in
      let base = observe_status cluster sts pods m in
      let o = observed cluster m base in
      let status : Status = record base {
        phase = phase_of o desired;
        conditions =
            set_all base.conditions
              (status_conditions cluster base o desired keystore_ready keystore_msg);
      } in
      let written = not (equal_status persisted status) in
      record {
        status = if written then status else cluster.status;
        written = written;
        requeue = requeue_after cluster base o desired;
      }
