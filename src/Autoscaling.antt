-- ===== src/Autoscaling.antt =====
-- The autoscaler's part of a pass (internal/controller/autoscaler.go, `reconcileAutoscaling`). How
-- the API machinery sets and removes a condition is a parameter.
pub mod Crash
pub mod Waits
use kahuna_k8s_operator.Common.{
  ℕ, ◌+◌, ◌*◌, ◌==◌, String, ◌<>◌, Bool, true, false, ◌&&◌, not, Option, none, some, List, keep,
  count_if, str_eq, is_some, if◌then◌else◌,
}
use kahuna_k8s_operator.Common.Decimal.{decimal}
use kahuna_k8s_operator.Api.{Cluster, Status, AutoscalingSpec, AutoscalingStatus, Condition, Pod}
use kahuna_k8s_operator.Naming.{desired_replicas, initial_autoscaled_replicas}
use kahuna_k8s_operator.Kahuna.{Membership, Placement}
use kahuna_k8s_operator.Kahuna.Errors.{Error, Result, ok, err, error_text}
use kahuna_k8s_operator.Kahuna.Client.{Client}
use kahuna_k8s_operator.Settled.{growth_ceiling, placement_converged}
use kahuna_k8s_operator.Plan.{roster_matches}
use kahuna_k8s_operator.Membership.{is_below, pod_is_ready}
use kahuna_k8s_operator.Reporting.{condition}
use kahuna_k8s_operator.Autoscaler.{Signal, Input, Decision, decide_autoscale, second}
use kahuna_k8s_operator.Autoscaler.Arithmetic.{Float}
use kahuna_k8s_operator.Traffic.{Sampler, measure, forget_samples, cluster_key}

abbrev placement_settle_timeout : ℕ
placement_settle_timeout = 300 * second

abbrev autoscaling_limited : String
autoscaling_limited = "AutoscalingLimited"

abbrev pub members_of : Cluster → List Pod → List Pod
members_of cluster pods = keep (λ p. is_below p (desired_replicas cluster)) pods

-- The roster is that of the current size, and as many of its pods are ready.
unfoldable pub is_steady : Cluster → Bool → Option Membership → List Pod → Bool
is_steady cluster bootstrapped m pods =
    bootstrapped
    && (roster_matches cluster m (desired_replicas cluster)
        && (count_if (λ p. pod_is_ready p && not p.deleting) (members_of cluster pods)
            == desired_replicas cluster))

abbrev settle_at : Option ℕ → Option ℕ
settle_at none = none
settle_at (some t) = some (t + placement_settle_timeout)

abbrev pub settle_by : Option AutoscalingStatus → Option ℕ
settle_by none = none
settle_by (some st) = settle_at st.last_scale_time

-- Whether the previous step has converged, and what it waits for.
abbrev pub placement_answer : Cluster → Option Placement → Option Error → ℕ → Bool × String
placement_answer cluster placement (some e) now =
    (false, "replica placement could not be read: " <> error_text e)
placement_answer cluster placement none now =
    placement_converged cluster placement (desired_replicas cluster) now
      (settle_by cluster.status.autoscaling)

abbrev pub converged_by : Bool → Bool × String → Bool × String
converged_by steady answer = if steady then answer else (false, "")

-- The decision with its reason replaced by what went wrong, or by what is waited for.
abbrev pub explained : Option Error → String → Decision → Decision
explained (some e) waiting d = record d {
  limited = true;
  reason = "traffic metrics could not be read: " <> error_text e;
}
explained none waiting d =
    if not (str_eq waiting "")
    then record d { reason = "waiting for replica placement to settle: " <> waiting }
    else d

abbrev shown : Decision → String
shown d =
    if str_eq d.reason ""
    then "desired "
      <> (decimal d.status.desired_replicas
          <> (", recommended " <> decimal d.status.recommended_replicas))
    else d.reason

module _ (𝓕 : Float) (set_status_condition : List Condition → Condition → List Condition)
    (remove_status_condition : List Condition → String → List Condition) where
  open 𝓕 use {F}

  -- The pass ends with a status, or panics; the sampler keeps what was measured either way.
  pub data AutoscalingPass : Type 0 where
    finished : Status → Sampler 𝓕 → AutoscalingPass
    panicked : Sampler 𝓕 → AutoscalingPass

  abbrev pub no_signal : Signal F
  no_signal = record { writes_per_node = none; queue_per_node = none }

  abbrev with_decision : Status → Sampler 𝓕 → Option Error → String → Decision → AutoscalingPass
  with_decision status sampler measure_err waiting d =
      let e = explained measure_err waiting d in
      finished
        (record status {
          autoscaling = some e.status;
          conditions =
              set_status_condition status.conditions
                (condition autoscaling_limited e.limited "Limited" "WithinLimits" (shown e));
        })
        sampler

  module _ (cluster : Cluster) (spec : AutoscalingSpec) (now : ℕ) where
    abbrev pub input : Bool → Signal F → ℕ × String → Input F
    input converged signal (ceiling, reason) = record {
      spec = spec;
      prev = cluster.status.autoscaling;
      initial = initial_autoscaled_replicas cluster spec;
      signal = signal;
      converged = converged;
      growth_ceiling = ceiling;
      ceiling_reason = reason;
      now = now;
    }

    -- With a measurement. `growthCeiling` reads the placement, and panics on a nil one.
    abbrev pub measured :
        Option Placement → String → Result (Signal F) × Sampler 𝓕 → AutoscalingPass
    measured none waiting (answer, sampler) = panicked sampler
    measured (some p) waiting (ok signal, sampler) =
        with_decision cluster.status sampler none waiting
          (decide_autoscale 𝓕 (input true signal (growth_ceiling p)))
    measured (some p) waiting (err e, sampler) =
        with_decision cluster.status sampler (some e) waiting
          (decide_autoscale 𝓕 (input true no_signal (growth_ceiling p)))

    abbrev pub after_answer :
        Client F → List Pod → Sampler 𝓕 → Option Placement → Bool × String → AutoscalingPass
    after_answer client pods sampler placement (false, waiting) =
        with_decision cluster.status sampler none waiting
          (decide_autoscale 𝓕 (input false no_signal (0, "")))
    after_answer client pods sampler placement (true, waiting) =
        measured placement waiting (measure 𝓕 client cluster (members_of cluster pods) sampler)

  abbrev pub pass_for :
      Client F
      → Cluster
      → Option AutoscalingSpec
      → Bool
      → Option Membership
      → Option Placement
      → Option Error
      → List Pod
      → Sampler 𝓕
      → ℕ
      → AutoscalingPass
  pass_for client cluster none bootstrapped m placement e pods sampler now =
      finished
        (record cluster.status {
          autoscaling = none;
          conditions = remove_status_condition cluster.status.conditions autoscaling_limited;
        })
        (forget_samples 𝓕 (cluster_key cluster) sampler)
  pass_for client cluster (some spec) bootstrapped m placement e pods sampler now =
      after_answer cluster spec now client pods sampler placement (
        converged_by (is_steady cluster bootstrapped m pods)
          (placement_answer cluster placement e now))

  unfoldable pub reconcile_autoscaling :
      Client F
      → Cluster
      → Bool
      → Option Membership
      → Option Placement
      → Option Error
      → List Pod
      → Sampler 𝓕
      → ℕ
      → AutoscalingPass
  unfolding is_steady
  reconcile_autoscaling client cluster = pass_for client cluster cluster.spec.autoscaling
