-- ===== src/Scaling/Safety.antt =====
-- When a node's pod may go
-- (internal/controller/kahunacluster_controller.go, `reconcileStatefulSet`).
use kahuna_k8s_operator.Common.{
  ℕ, ◌+◌, ◌-◌, ◌<◌, ◌≤◌, ◌≡◌, refl, ap, length, ◌⊎◌, Bool, true, Option, none, some, List, [], ltb,
  ltb→lt, arith, Bool-cases, inl, inr,
}
use kahuna_k8s_operator.Api.{Cluster, Pod}
use kahuna_k8s_operator.Naming.{desired_replicas}
use kahuna_k8s_operator.Kahuna.{Membership, Placement}
use kahuna_k8s_operator.Kahuna.Errors.{Error}
use kahuna_k8s_operator.Kahuna.Client.{Client}
use kahuna_k8s_operator.Settled.{placement_settled}
use kahuna_k8s_operator.Plan.{Plan, build_plan, roster_matches}
use kahuna_k8s_operator.Plan.Steps.{build_plan_one_step, build_plan_change}
use kahuna_k8s_operator.Membership.{decommission}
use kahuna_k8s_operator.Membership.Leaving.{
  HasNoPod, HasLeft, decommission_safe, decommission-asked,
}
use kahuna_k8s_operator.Scaling.{updated, found, guarded_plan, reconcile_stateful_set}

module _ {F : Type 0} (client : Client F) (cluster : Cluster) (pods : List Pod) (current : ℕ) where
  guarded_plan-shrinks :
      (wanted p : Plan)
      → (guarded_plan client cluster pods current wanted).action ≡ updated p
      → p.replicas < current
      → (p ≡ wanted)
        × (HasNoPod cluster pods (current - 1) ⊎ HasLeft client cluster pods (current - 1))
  unfolding guarded_plan
  guarded_plan-shrinks wanted p e h = elim (Bool-cases (ltb wanted.replicas current)) [
    | inr kept ↦ absurd (ground arith)
    | inl shrinks ↦ elim (Bool-cases (decommission client cluster pods (current - 1)).left) [
      | inl left ↦ (ground arith, decommission_safe client cluster pods (current - 1) left)
      | inr stays ↦ absurd (ground arith)
    ]
  ]

  guarded_plan-asked :
      (wanted : Plan)
      → (length (guarded_plan client cluster pods current wanted).asked ≤ 1)
        × (((guarded_plan client cluster pods current wanted).asked ≡ [])
            ⊎ (wanted.replicas < current))
  unfolding guarded_plan
  guarded_plan-asked wanted = elim (Bool-cases (ltb wanted.replicas current)) [
    | inl shrinks ↦ rw shrinks (
      decommission-asked client cluster pods (current - 1),
      inr (ltb→lt wanted.replicas current shrinks),
    )
    | inr kept ↦ rw kept (omega arith, inl refl)
  ]

  -- On a bootstrapped cluster the StatefulSet shrinks only by one node, only toward a smaller
  -- target, only while the roster matches the current size and the placement is readable and
  -- settled, and only after the node of the last ordinal has left or if there is no pod of it to ask.
  pub scale_down_safe :
      (m : Option Membership) (placement : Option Placement) (e : Option Error) (p : Plan)
      → (reconcile_stateful_set client cluster
          (found (some current))
          true
          m
          placement
          e
          pods).action
        ≡ updated p
      → p.replicas < current
      → (p.replicas + 1 ≡ current)
        × (desired_replicas cluster < current)
        × (roster_matches cluster m current ≡ true)
        × (e ≡ none)
        × ((placement_settled cluster placement current).reason ≡ "")
        × (HasNoPod cluster pods (current - 1) ⊎ HasLeft client cluster pods (current - 1))
  unfolding reconcile_stateful_set
  scale_down_safe m placement e p a h =
      let wanted = build_plan cluster current true m placement e in
      let (same, out) = guarded_plan-shrinks wanted p a h in
      let change =
        build_plan_change cluster current m placement e
          (λ kept. omega (arith, ap (λ (q : Plan). q.replicas) same, kept)) in
      (
        ground (arith, same, build_plan_one_step cluster current m placement e),
        ground (arith, same, build_plan_one_step cluster current m placement e),
        change.0,
        change.1,
        change.2,
        out,
      )

  -- At most one leave request is sent, and none unless the plan shrinks the StatefulSet.
  leave_only_to_shrink :
      (bootstrapped : Bool) (m : Option Membership) (placement : Option Placement)
      (e : Option Error)
      → let asked =
          (reconcile_stateful_set client cluster
            (found (some current))
            bootstrapped
            m
            placement
            e
            pods).asked in
        (length asked ≤ 1)
        × ((asked ≡ [])
            ⊎ ((build_plan cluster current bootstrapped m placement e).replicas < current))
  unfolding reconcile_stateful_set
  leave_only_to_shrink bootstrapped m placement e =
      guarded_plan-asked (build_plan cluster current bootstrapped m placement e)
