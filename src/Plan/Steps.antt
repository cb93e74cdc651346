-- ===== src/Plan/Steps.antt =====
-- What one plan may do (internal/controller/plan.go, `buildPlan`).
use kahuna_k8s_operator.Common.{ℕ, ◌+◌, ◌<◌, ◌≤◌, ◌≡◌, ◌≢◌, ◌⊎◌, true, Option, none, arith}
use kahuna_k8s_operator.Api.{Cluster}
use kahuna_k8s_operator.Naming.{desired_replicas}
use kahuna_k8s_operator.Kahuna.{Membership, Placement}
use kahuna_k8s_operator.Kahuna.Errors.{Error}
use kahuna_k8s_operator.Settled.{placement_settled}
use kahuna_k8s_operator.Plan.{build_plan, roster_matches}

module _ (cluster : Cluster) (current : ℕ) (m : Option Membership) (p : Option Placement)
    (e : Option Error) where
  -- The plan of a bootstrapped cluster keeps the size, or adds one node to a cluster below its
  -- target, or removes one node from a cluster above its target and never the last one.
  pub build_plan_one_step :
      let size = (build_plan cluster current true m p e).replicas in
      let target = desired_replicas cluster in
      (size ≡ current)
      ⊎ ((size ≡ current + 1) × (current < target)
          ⊎ (size + 1 ≡ current) × (target < current) × (1 ≤ size))
  unfolding build_plan
  build_plan_one_step = ground arith

  -- The plan of a bootstrapped cluster changes the size only if the roster matches the current
  -- size, the placement could be read, and `placementSettled` gives no reason to wait.
  pub build_plan_change :
      (build_plan cluster current true m p e).replicas ≢ current
      → (roster_matches cluster m current ≡ true)
        × (e ≡ none)
        × ((placement_settled cluster p current).reason ≡ "")
  unfolding build_plan
  build_plan_change change = ground arith
