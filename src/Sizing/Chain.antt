-- ===== src/Sizing/Chain.antt =====
-- What a whole sizing pass rests on (internal/controller/kahunacluster_controller.go, `Reconcile`).
use mathlib.Core.Path.{subst}
use kahuna_k8s_operator.Common.{
  ℕ, ◌+◌, ◌-◌, ◌<◌, ◌≡◌, refl, sym, ◌∙◌, ap, ◌⊎◌, inl, inr, String, Bool, true, false, ◌&&◌, not,
  Option, none, some, List, is_some, arith,
}
use kahuna_k8s_operator.Api.{Cluster, Condition, Pod}
use kahuna_k8s_operator.Naming.{desired_replicas, raft_endpoint}
use kahuna_k8s_operator.Kahuna.{Membership, Placement, has_voter}
use kahuna_k8s_operator.Kahuna.Errors.{Error, Result, ok, err, is_placement_unsupported}
use kahuna_k8s_operator.Kahuna.Client.{Client}
use kahuna_k8s_operator.Settled.{placement_settled}
use kahuna_k8s_operator.Plan.{Plan, roster_matches}
use kahuna_k8s_operator.Plan.Roster.{roster_matches_exact}
use kahuna_k8s_operator.Membership.{read_membership}
use kahuna_k8s_operator.Membership.Leaving.{HasNoPod, HasLeft}
use kahuna_k8s_operator.Scaling.{StsPass, read_placement, reconcile_stateful_set, found, updated}
use kahuna_k8s_operator.Scaling.Safety.{scale_down_safe}
use kahuna_k8s_operator.Autoscaler.Arithmetic.{Float}
use kahuna_k8s_operator.Traffic.{Sampler}
use kahuna_k8s_operator.Autoscaling.{
  AutoscalingPass, finished, panicked, is_steady, reconcile_autoscaling,
}
use kahuna_k8s_operator.Autoscaling.Crash.{panics, panics-reconcile_autoscaling}
use kahuna_k8s_operator.Sizing.{
  roster_of, placement_of, SizingPass, sized, crashed, size_with, reconcile_size,
}

-- The node has no replica placement.
abbrev pub is_unsupported : Result Placement → Bool
is_unsupported (ok p) = false
is_unsupported (err e) = is_placement_unsupported e

module _ (𝓕 : Float) (set_status_condition : List Condition → Condition → List Condition)
    (remove_status_condition : List Condition → String → List Condition) where
  open 𝓕 use {F}

  abbrev pub crashes : SizingPass 𝓕 set_status_condition remove_status_condition → Bool
  crashes (sized cluster sts sampler) = false
  crashes (crashed sampler) = true

  placement_of-unsupported :
      (r : Result Placement)
      → (not (is_some (placement_of r).0) && not (is_some (placement_of r).1)) ≡ is_unsupported r
  placement_of-unsupported (ok p) = refl
  placement_of-unsupported (err e) = ground arith

  size_with-crashes :
      (client : Client F) (cluster : Cluster) (current : ℕ) (pods : List Pod)
      (m : Option Membership) (read : Option Placement × Option Error)
      (pass : AutoscalingPass 𝓕 set_status_condition remove_status_condition)
      → crashes (
          size_with 𝓕 set_status_condition remove_status_condition client cluster
            (found (some current))
            pods
            m
            read
            pass)
        ≡ panics 𝓕 set_status_condition remove_status_condition pass
  size_with-crashes client cluster current pods m read (finished status sampler) = refl
  size_with-crashes client cluster current pods m read (panicked sampler) = refl

  -- A pass's StatefulSet step is `reconcileStatefulSet`'s on what the pass read.
  abbrev Sound :
      Client F
      → ℕ
      → List Pod
      → Bool
      → Option Membership
      → Option Placement × Option Error
      → SizingPass 𝓕 set_status_condition remove_status_condition
      → Type 0
  Sound client current pods bootstrapped m read (crashed sampler) = Unit
  Sound client current pods bootstrapped m read (sized cluster sts sampler) =
      sts
      ≡ reconcile_stateful_set client cluster (found (some current)) bootstrapped m read.0 read.1
          pods

  size_with-Sound :
      (client : Client F) (cluster : Cluster) (current : ℕ) (pods : List Pod)
      (m : Option Membership) (read : Option Placement × Option Error)
      (pass : AutoscalingPass 𝓕 set_status_condition remove_status_condition)
      → Sound client current pods cluster.status.bootstrapped m read (
          size_with 𝓕 set_status_condition remove_status_condition client cluster
            (found (some current))
            pods
            m
            read
            pass)
  size_with-Sound client cluster current pods m read (finished status sampler) = refl
  size_with-Sound client cluster current pods m read (panicked sampler) = tt

  roster_of-matches :
      (cluster : Cluster) (r : Result Membership) (n : ℕ)
      → roster_matches cluster (roster_of r) n ≡ true
      → (m : Membership) × (r ≡ ok m) × (roster_matches cluster (some m) n ≡ true)
  unfolding roster_matches
  roster_of-matches cluster (ok m) n h = (m, refl, h)
  roster_of-matches cluster (err e) n h = cc

  placement_of-settled :
      (cluster : Cluster) (r : Result Placement) (n : ℕ)
      → (placement_of r).1 ≡ none
      → (placement_settled cluster (placement_of r).0 n).reason ≡ ""
      → (is_unsupported r ≡ true)
        ⊎ ((p : Placement) × (r ≡ ok p) × ((placement_settled cluster (some p) n).reason ≡ ""))
  placement_of-settled cluster (ok p) n no_error settled = inr (p, refl, settled)
  placement_of-settled cluster (err e) n no_error settled = inl (ground arith)

  -- A pass crashes exactly when the cluster autoscales, its roster and pods are steady at the
  -- current size, and the nodes have no replica placement.
  pub crashes-reconcile_size :
      (client : Client F) (cluster : Cluster) (current : ℕ) (pods : List Pod) (sampler : Sampler 𝓕)
      (now : ℕ)
      → crashes (
          reconcile_size 𝓕 set_status_condition remove_status_condition client cluster
            (found (some current))
            pods
            sampler
            now)
        ≡ (is_some cluster.spec.autoscaling
            && (is_steady cluster cluster.status.bootstrapped
                  (roster_of (read_membership client cluster pods))
                  pods
                && is_unsupported (read_placement client cluster pods)))
  unfolding reconcile_size
  crashes-reconcile_size client cluster current pods sampler now =
      let m = roster_of (read_membership client cluster pods) in
      let r = read_placement client cluster pods in
      size_with-crashes client cluster current pods m (placement_of r) (
        reconcile_autoscaling 𝓕 set_status_condition remove_status_condition client cluster
          cluster.status.bootstrapped m (placement_of r).0 (placement_of r).1 pods sampler now)
      ∙ panics-reconcile_autoscaling 𝓕 set_status_condition remove_status_condition client cluster
          cluster.status.bootstrapped m (placement_of r).0 (placement_of r).1 pods sampler now
      ∙ ap
          (λ b.
            is_some cluster.spec.autoscaling
            && (is_steady cluster cluster.status.bootstrapped m pods && b))
          (placement_of-unsupported r)

  -- Where the part of a pass that decides the size, from the read of the roster to the StatefulSet,
  -- shrinks the StatefulSet of a bootstrapped cluster, it shrinks it by one node, toward the size that
  -- the autoscaler of this pass left, on a roster that a node gave in this pass, that matches the
  -- current size and so has the last node as a Voter, and on a placement that a node gave and that has
  -- settled (or the nodes have no placement). And the last node either answered in this pass that it
  -- is a member no more, or no listed pod of it has an address: then it was not asked, and its
  -- eviction is left to the cluster.
  pub reconcile_size_shrinks :
      (client : Client F) (cluster : Cluster) (current : ℕ) (pods : List Pod) (sampler : Sampler 𝓕)
      (now : ℕ) (cluster' : Cluster) (sts : StsPass) (sampler' : Sampler 𝓕) (p : Plan)
      → cluster.status.bootstrapped ≡ true
      → reconcile_size 𝓕 set_status_condition remove_status_condition client cluster
          (found (some current))
          pods
          sampler
          now
        ≡ sized cluster' sts sampler'
      → sts.action ≡ updated p
      → p.replicas < current
      → (p.replicas + 1 ≡ current)
        × (desired_replicas cluster' < current)
        × ((m : Membership) × (read_membership client cluster pods ≡ ok m)
            × (roster_matches cluster' (some m) current ≡ true)
            × (has_voter m (raft_endpoint cluster' (current - 1)) ≡ true))
        × ((is_unsupported (read_placement client cluster pods) ≡ true)
            ⊎ ((q : Placement) × (read_placement client cluster pods ≡ ok q)
                × ((placement_settled cluster' (some q) current).reason ≡ "")))
        × (HasNoPod cluster' pods (current - 1) ⊎ HasLeft client cluster' pods (current - 1))
  unfolding reconcile_size
  reconcile_size_shrinks client cluster current pods sampler now cluster' sts sampler' p
        bootstrapped ends acts less =
      let m = roster_of (read_membership client cluster pods) in
      let r = read_placement client cluster pods in
      let sound : sts
          ≡ reconcile_stateful_set client cluster' (found (some current)) true m (placement_of r).0
              (placement_of r).1 pods =
        subst
          (λ b.
            sts
            ≡ reconcile_stateful_set client cluster' (found (some current)) b m (placement_of r).0
                (placement_of r).1 pods)
          bootstrapped
          (subst (Sound client current pods cluster.status.bootstrapped m (placement_of r)) ends (
            size_with-Sound client cluster current pods m (placement_of r) (
              reconcile_autoscaling 𝓕 set_status_condition remove_status_condition client cluster
                cluster.status.bootstrapped m (placement_of r).0 (placement_of r).1 pods sampler
                now))) in
      let (one, target, roster, no_error, settled, out) =
        scale_down_safe client cluster' pods current m (placement_of r).0 (placement_of r).1 p
          (ap (λ (s : StsPass). s.action) (sym sound) ∙ acts) less in
      let (k, read, matches) =
        roster_of-matches cluster' (read_membership client cluster pods) current roster in
      let voting : has_voter k (raft_endpoint cluster' (current - 1)) ≡ true =
        (roster_matches_exact cluster' k current matches).0 (current - 1) (omega arith) in
      (
        one,
        target,
        (k, read, matches, voting),
        placement_of-settled cluster' r current no_error settled,
        out,
      )
