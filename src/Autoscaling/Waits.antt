-- ===== src/Autoscaling/Waits.antt =====
-- When the autoscaler leaves the size alone (internal/controller/autoscaler.go,
-- `reconcileAutoscaling`).
use mathlib.Core.Path.{subst}
use kahuna_k8s_operator.Common.{
  ℕ, ◌≡◌, refl, sym, ap, ◌∙◌, String, Bool, true, false, Option, none, some, List, arith,
}
use kahuna_k8s_operator.Api.{Cluster, AutoscalingSpec, AutoscalingStatus, Condition, Pod}
use kahuna_k8s_operator.Naming.{initial_autoscaled_replicas}
use kahuna_k8s_operator.Kahuna.{Membership, Placement}
use kahuna_k8s_operator.Kahuna.Errors.{Error}
use kahuna_k8s_operator.Kahuna.Client.{Client}
use kahuna_k8s_operator.Autoscaler.{Input, Decision, clamp, starting, decide_autoscale, decide_if}
use kahuna_k8s_operator.Autoscaler.Arithmetic.{Float}
use kahuna_k8s_operator.Autoscaler.Bounds.{measured_status-base}
use kahuna_k8s_operator.Traffic.{Sampler}
use kahuna_k8s_operator.Autoscaling.{
  AutoscalingPass, finished, panicked, is_steady, placement_answer, converged_by, explained, input,
  no_signal, after_answer, pass_for, reconcile_autoscaling,
}

explained-status :
    (e : Option Error) (waiting : String) (d : Decision) → (explained e waiting d).status ≡ d.status
explained-status (some e) waiting d = refl
explained-status none waiting d = ground arith

module _ (𝓕 : Float) (set_status_condition : List Condition → Condition → List Condition)
    (remove_status_condition : List Condition → String → List Condition) where
  open 𝓕 use {F}

  -- The autoscaler's size after the pass.
  abbrev pub size_after : AutoscalingPass 𝓕 set_status_condition remove_status_condition → Option ℕ
  size_after (panicked sampler) = none
  size_after (finished status sampler) = size_in status.autoscaling
    where
      size_in : Option AutoscalingStatus → Option ℕ
      size_in none = none
      size_in (some st) = some st.desired_replicas

  -- The samples that the pass leaves.
  abbrev pub sampler_after :
      AutoscalingPass 𝓕 set_status_condition remove_status_condition → Sampler 𝓕
  sampler_after (panicked sampler) = sampler
  sampler_after (finished status sampler) = sampler

  decide_if-waits :
      (i : Input F)
      → i.converged ≡ false
      → (decide_autoscale 𝓕 i).status.desired_replicas
        ≡ clamp (starting i.prev i.initial).desired_replicas i.spec
  unfolding decide_autoscale
  decide_if-waits i waits = by_converged i.converged waits
    where
      by_converged :
          (converged : Bool)
          → converged ≡ false
          → (decide_if 𝓕 converged i).status.desired_replicas
            ≡ clamp (starting i.prev i.initial).desired_replicas i.spec
      by_converged true e = cc
      by_converged false e = measured_status-base 𝓕 i

  -- While the previous step has not converged, because the roster or the pods are not steady at the
  -- current size, the placement cannot be read, or the data has not followed, an autoscaled cluster
  -- keeps the size it has, brought into the bounds, and no traffic is measured.
  pub reconcile_autoscaling_waits :
      (client : Client F) (cluster : Cluster) (bootstrapped : Bool) (m : Option Membership)
      (placement : Option Placement) (e : Option Error) (pods : List Pod) (sampler : Sampler 𝓕)
      (now : ℕ) (spec : AutoscalingSpec)
      → cluster.spec.autoscaling ≡ some spec
      → (converged_by
          (is_steady cluster bootstrapped m pods)
          (placement_answer cluster placement e now)).0
        ≡ false
      → let after =
          reconcile_autoscaling 𝓕 set_status_condition remove_status_condition client cluster
            bootstrapped m placement e pods sampler now in
        (size_after after
          ≡ some (
              clamp
                (starting cluster.status.autoscaling
                  (initial_autoscaled_replicas cluster spec)).desired_replicas
                spec))
        × (sampler_after after ≡ sampler)
  unfolding reconcile_autoscaling
  reconcile_autoscaling_waits client cluster bootstrapped m placement e pods sampler now spec
        autoscales waits =
      subst
        (λ o. Keeps (
          pass_for 𝓕 set_status_condition remove_status_condition client cluster o bootstrapped m
            placement e pods sampler now))
        (sym autoscales)
        (by_answer
          (converged_by (is_steady cluster bootstrapped m pods)
            (placement_answer cluster placement e now))
          waits)
    where
      Keeps : AutoscalingPass 𝓕 set_status_condition remove_status_condition → Type 0
      Keeps after =
          (size_after after
            ≡ some (
                clamp
                  (starting cluster.status.autoscaling
                    (initial_autoscaled_replicas cluster spec)).desired_replicas
                  spec))
          × (sampler_after after ≡ sampler)

      by_answer :
          (answer : Bool × String)
          → answer.0 ≡ false
          → Keeps (
              after_answer 𝓕 set_status_condition remove_status_condition cluster spec now client
                pods sampler placement answer)
      by_answer (true, waiting) e = cc
      by_answer (false, waiting) e =
          let i =
            input 𝓕 set_status_condition remove_status_condition cluster spec now false
              (no_signal 𝓕 set_status_condition remove_status_condition) (0, "") in
          (
            ap (λ (st : AutoscalingStatus). some st.desired_replicas)
                  (explained-status none waiting (decide_autoscale 𝓕 i))
                ∙ ap some (decide_if-waits i refl),
            refl,
          )
