-- ===== src/Autoscaling/Crash.antt =====
-- When the autoscaler's pass panics (internal/controller/autoscaler.go, `reconcileAutoscaling`).
use kahuna_k8s_operator.Common.{
  ℕ, ◌≡◌, refl, ap, ◌∙◌, String, Bool, true, false, ◌&&◌, not, Option, none, some, List, is_some,
  arith,
}
use kahuna_k8s_operator.Api.{Cluster, AutoscalingSpec, Condition, Pod}
use kahuna_k8s_operator.Naming.{desired_replicas}
use kahuna_k8s_operator.Kahuna.{Membership, Placement}
use kahuna_k8s_operator.Kahuna.Errors.{Error, Result, ok, err}
use kahuna_k8s_operator.Kahuna.Client.{Client}
use kahuna_k8s_operator.Settled.{placement_converged, placement_settled}
use kahuna_k8s_operator.Autoscaler.{Signal}
use kahuna_k8s_operator.Autoscaler.Arithmetic.{Float}
use kahuna_k8s_operator.Traffic.{Sampler, measure}
use kahuna_k8s_operator.Autoscaling.{
  AutoscalingPass, finished, panicked, is_steady, placement_answer, converged_by, measured,
  after_answer, pass_for, reconcile_autoscaling, settle_by, members_of,
}

-- Without placement, there is nothing to wait for.
placement_converged-none :
    (cluster : Cluster) (current now : ℕ) (by : Option ℕ)
    → placement_converged cluster none current now by ≡ (true, "")
unfolding placement_converged placement_settled
placement_converged-none cluster current now by = ground arith

module _ (𝓕 : Float) (set_status_condition : List Condition → Condition → List Condition)
    (remove_status_condition : List Condition → String → List Condition) where
  open 𝓕 use {F}

  abbrev pub panics : AutoscalingPass 𝓕 set_status_condition remove_status_condition → Bool
  panics (finished status sampler) = false
  panics (panicked sampler) = true

  module _ (client : Client F) (cluster : Cluster) (spec : AutoscalingSpec) (now : ℕ)
      (pods : List Pod) (sampler : Sampler 𝓕) where
    measured-panics :
        (placement : Option Placement) (waiting : String) (r : Result (Signal F) × Sampler 𝓕)
        → panics (
            measured 𝓕 set_status_condition remove_status_condition cluster spec now placement
              waiting r)
          ≡ not (is_some placement)
    measured-panics none waiting (answer, after) = refl
    measured-panics (some p) waiting (ok signal, after) = refl
    measured-panics (some p) waiting (err e, after) = refl

    after_answer-panics :
        (placement : Option Placement) (answer : Bool × String)
        → panics (
            after_answer 𝓕 set_status_condition remove_status_condition cluster spec now client pods
              sampler placement answer)
          ≡ (answer.0 && not (is_some placement))
    after_answer-panics placement (false, waiting) = refl
    after_answer-panics placement (true, waiting) =
        measured-panics placement waiting
          (measure 𝓕 client cluster (members_of cluster pods) sampler)

    converged_by-none :
        (steady : Bool) (placement : Option Placement) (e : Option Error)
        → ((converged_by steady (placement_answer cluster placement e now)).0
            && not (is_some placement))
          ≡ (steady && (not (is_some placement) && not (is_some e)))
    converged_by-none false placement e = refl
    converged_by-none true none none =
        ap (λ (answer : Bool × String). answer.0 && true)
          (placement_converged-none cluster (desired_replicas cluster) now
            (settle_by cluster.status.autoscaling))
    converged_by-none true none (some e) = refl
    converged_by-none true (some p) e = ground arith

  -- The pass panics exactly when the cluster autoscales, its roster and pods are steady at the
  -- current size, and there is neither a placement nor an error: what a server without replica
  -- placement looks like.
  pub panics-reconcile_autoscaling :
      (client : Client F) (cluster : Cluster) (bootstrapped : Bool) (m : Option Membership)
      (placement : Option Placement) (e : Option Error) (pods : List Pod) (sampler : Sampler 𝓕)
      (now : ℕ)
      → panics (
          reconcile_autoscaling 𝓕 set_status_condition remove_status_condition client cluster
            bootstrapped m placement e pods sampler now)
        ≡ (is_some cluster.spec.autoscaling
            && (is_steady cluster bootstrapped m pods
                && (not (is_some placement) && not (is_some e))))
  unfolding reconcile_autoscaling
  panics-reconcile_autoscaling client cluster bootstrapped m placement e pods sampler now =
      by_spec cluster.spec.autoscaling
    where
      by_spec :
          (o : Option AutoscalingSpec)
          → panics (
              pass_for 𝓕 set_status_condition remove_status_condition client cluster o bootstrapped
                m placement e pods sampler now)
            ≡ (is_some o
                && (is_steady cluster bootstrapped m pods
                    && (not (is_some placement) && not (is_some e))))
      by_spec none = refl
      by_spec (some spec) =
          after_answer-panics client cluster spec now pods sampler placement (
            converged_by (is_steady cluster bootstrapped m pods)
              (placement_answer cluster placement e now))
          ∙ converged_by-none client cluster spec now pods sampler
              (is_steady cluster bootstrapped m pods) placement e
