-- ===== src/Scaling/Walk.antt =====
-- A scale walks to its target one node at a time
-- (internal/controller/kahunacluster_controller.go, `reconcileStatefulSet`).
use kahuna_k8s_operator.Common.{
  ℕ, zero, suc, ◌+◌, ◌-◌, ◌≤◌, ◌<◌, ◌≡◌, refl, ltb, true, Option, none, some, List, Bool-cases, inl,
  inr, arith,
}
use kahuna_k8s_operator.Api.{Cluster, Pod}
use kahuna_k8s_operator.Naming.{desired_replicas}
use kahuna_k8s_operator.Kahuna.{Membership, Placement}
use kahuna_k8s_operator.Kahuna.Client.{Client}
use kahuna_k8s_operator.Settled.{placement_settled}
use kahuna_k8s_operator.Plan.{Plan, build_plan, roster_matches, next_size}
use kahuna_k8s_operator.Membership.Leaving.{Leaves, decommission-Leaves}
use kahuna_k8s_operator.Scaling.{
  StsAction, created, updated, failed, found, guarded_plan, reconcile_stateful_set,
}

-- The size of the StatefulSet after the write.
abbrev pub size_after : ℕ → StsAction → ℕ
size_after current (created n partition) = n
size_after current (updated p) = p.replicas
size_after current (failed e) = current

-- What a pass at each size meets: the nodes, the pods, and the roster and the placement that it read.
module _ {F : Type 0} (cluster : Cluster) (client : ℕ → Client F) (pods : ℕ → List Pod)
    (m : ℕ → Option Membership) (p : ℕ → Option Placement) where
  -- The size after a number of passes.
  abbrev pub walk : ℕ → ℕ → ℕ
  walk zero current = current
  walk (suc passes) current = walk passes (
      size_after current (
        (reconcile_stateful_set (client current) cluster (found (some current)) true (m current)
          (p current) none (pods current)).action))

  guarded_plan-Leaves :
      (current : ℕ) (wanted : Plan)
      → (wanted.replicas < current → Leaves (client current) cluster (pods current) (current - 1))
      → size_after current
          (guarded_plan (client current) cluster (pods current) current wanted).action
        ≡ wanted.replicas
  unfolding guarded_plan
  guarded_plan-Leaves current wanted leaves = elim (Bool-cases (ltb wanted.replicas current)) [
    | inl shrinks ↦ ground (
      arith,
      shrinks,
      decommission-Leaves (client current) cluster (pods current) (current - 1)
          (leaves (ground arith)),
    )
    | inr kept ↦ rw kept refl
  ]

  module _ (roster_follows : (n : ℕ) → roster_matches cluster (m n) n ≡ true)
      (data_follows : (n : ℕ) → (placement_settled cluster (p n) n).reason ≡ "")
      (nodes_leave : (n : ℕ)
        → desired_replicas cluster < n
        → Leaves (client n) cluster (pods n) (n - 1)) where
    build_plan-next_size :
        (current : ℕ)
        → (build_plan cluster current true (m current) (p current) none).replicas
          ≡ next_size current (desired_replicas cluster)
    unfolding build_plan
    build_plan-next_size current = ground (arith, roster_follows current, data_follows current)

    pass-next_size :
        (current : ℕ)
        → size_after current (
            (reconcile_stateful_set
              (client current)
              cluster
              (found (some current))
              true
              (m current)
              (p current)
              none
              (pods current)).action)
          ≡ next_size current (desired_replicas cluster)
    unfolding reconcile_stateful_set
    pass-next_size current =
        let wanted = build_plan cluster current true (m current) (p current) none in
        rw
          (guarded_plan-Leaves current wanted
            (λ less. nodes_leave current (ground (arith, less, build_plan-next_size current))))
          (build_plan-next_size current)

    -- If at every size the roster that a pass reads matches, its placement has settled, and above the
    -- target each listed pod of the last node that has an address leaves when it is asked to, the size
    -- of a bootstrapped cluster's StatefulSet reaches its target, which is at least 1 and stays the
    -- same, within as many passes as there are nodes to add or to remove, and stays there.
    pub walk_reaches :
        (passes current : ℕ)
        → 1 ≤ desired_replicas cluster
        → current ≤ desired_replicas cluster + passes
        → desired_replicas cluster ≤ current + passes
        → walk passes current ≡ desired_replicas cluster
    walk_reaches zero current pos above below = omega arith
    walk_reaches (suc passes) current pos above below = rw (pass-next_size current) (
        walk_reaches passes (next_size current (desired_replicas cluster)) pos (ground arith)
          (ground arith))
