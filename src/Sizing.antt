-- ===== src/Sizing.antt =====
-- The part of a pass that decides the size (internal/controller/kahunacluster_controller.go,
-- `Reconcile`, from the read of the roster to the StatefulSet). Before bootstrap or after, the flag
-- is the one that the pass read first.
pub mod Chain
use kahuna_k8s_operator.Common.{ℕ, String, Bool, Option, none, some, List, if◌then◌else◌}
use kahuna_k8s_operator.Api.{Cluster, Condition, Pod}
use kahuna_k8s_operator.Kahuna.{Membership, Placement}
use kahuna_k8s_operator.Kahuna.Errors.{Error, Result, ok, err, is_placement_unsupported}
use kahuna_k8s_operator.Kahuna.Client.{Client}
use kahuna_k8s_operator.Membership.{read_membership}
use kahuna_k8s_operator.Scaling.{Existing, StsPass, read_placement, reconcile_stateful_set}
use kahuna_k8s_operator.Autoscaler.Arithmetic.{Float}
use kahuna_k8s_operator.Traffic.{Sampler}
use kahuna_k8s_operator.Autoscaling.{AutoscalingPass, finished, panicked, reconcile_autoscaling}

-- A failed read is no roster.
abbrev pub roster_of : Result Membership → Option Membership
roster_of (ok m) = some m
roster_of (err e) = none

-- A server without placement has none, and that is no error.
abbrev pub placement_of : Result Placement → Option Placement × Option Error
placement_of (ok p) = (some p, none)
placement_of (err e) = if is_placement_unsupported e then (none, none) else (none, some e)

module _ (𝓕 : Float) (set_status_condition : List Condition → Condition → List Condition)
    (remove_status_condition : List Condition → String → List Condition) where
  open 𝓕 use {F}

  -- The cluster with the autoscaler's status, what is done to the StatefulSet, and the sampler.
  pub data SizingPass : Type 0 where
    sized : Cluster → StsPass → Sampler 𝓕 → SizingPass
    crashed : Sampler 𝓕 → SizingPass

  module _ (client : Client F) (cluster : Cluster) (existing : Existing) (pods : List Pod) where
    abbrev pub size_with :
        Option Membership
        → Option Placement × Option Error
        → AutoscalingPass 𝓕 set_status_condition remove_status_condition
        → SizingPass
    size_with m (placement, e) (panicked sampler) = crashed sampler
    size_with m (placement, e) (finished status sampler) =
        let cluster' : Cluster = record cluster { status = status } in
        sized cluster'
          (reconcile_stateful_set client cluster' existing cluster.status.bootstrapped m placement e
            pods)
          sampler

    abbrev size_from :
        Sampler 𝓕 → ℕ → Option Membership → Option Placement × Option Error → SizingPass
    size_from sampler now m read = size_with m read (
        reconcile_autoscaling 𝓕 set_status_condition remove_status_condition client cluster
          cluster.status.bootstrapped m read.0 read.1 pods sampler now)

    unfoldable pub reconcile_size : Sampler 𝓕 → ℕ → SizingPass
    reconcile_size sampler now =
        size_from sampler now (roster_of (read_membership client cluster pods))
          (placement_of (read_placement client cluster pods))
