-- ===== src/Scaling.antt =====
-- The StatefulSet of a pass (internal/controller/kahunacluster_controller.go): `readPlacement` and
-- `reconcileStatefulSet`. The StatefulSet API is a parameter: what a read of the existing object
-- gives. The write that follows is the value returned.
pub mod Safety
pub mod Walk
use kahuna_k8s_operator.Common.{
  ℕ, ◌-◌, ltb, String, Bool, true, false, ◌||◌, not, Option, none, some, List, [], ◌∷◌, str_eq,
  string_dec, if◌then◌else◌,
}
use kahuna_k8s_operator.Api.{Cluster, Pod}
use kahuna_k8s_operator.Naming.{desired_replicas}
use kahuna_k8s_operator.Kahuna.{Membership, Placement}
use kahuna_k8s_operator.Kahuna.Errors.{Error, other, Result, ok, err, is_placement_unsupported}
use kahuna_k8s_operator.Kahuna.Client.{Client}
use kahuna_k8s_operator.Plan.{Plan, build_plan}
use kahuna_k8s_operator.Membership.{pod_base_url, pod_is_ready, Decommission, decommission}

abbrev placement_error : Option Error → Error
placement_error none = other "no ready pod to read placement from"
placement_error (some e) = e

module _ {F : Type 0} (client : Client F) (cluster : Cluster) where
  -- The loop of `readPlacement`.
  unfoldable pub placement_from : Option Error → List Pod → Result Placement
  placement_from last [] = err (placement_error last)
  placement_from last (pod ∷ pods) =
      let skip = placement_from last pods in
      let next = λ (e : Error). placement_from (some e) pods in
      if str_eq pod.pod_ip "" || (pod.deleting || not (pod_is_ready pod))
      then skip
      else elim (client.placement (pod_base_url cluster pod)) [
        | ok p ↦ ok p
        | err e ↦ if is_placement_unsupported e then err e else next e
      ]

  unfoldable pub read_placement : List Pod → Result Placement
  unfolding placement_from
  read_placement pods = placement_from none pods

-- The size that an object's `spec.replicas` gives, a nil being 0.
abbrev pub size_of : Option ℕ → ℕ
size_of none = 0
size_of (some n) = n

-- What the read of the StatefulSet gives.
pub data Existing : Type 0 where
  not_found : Existing
  found : Option ℕ → Existing
  unreadable : Error → Existing

-- The write that the pass makes: a new object with its size and partition, or the plan applied to
-- the existing one.
pub data StsAction : Type 0 where
  created : ℕ → ℕ → StsAction
  updated : Plan → StsAction
  failed : Error → StsAction

pub record StsPass : Type 0 where
  pub action : StsAction
  pub asked : List String

-- The plan after the last node was asked to leave: held at the current size unless it has
-- left or has no pod to ask.
abbrev after_asking : Decommission → ℕ → Plan → StsPass
after_asking d current p = record {
  action =
      updated (
        if d.left
        then p
        else record { replicas = current; partition = current; reason = d.reason });
  asked = d.asked;
}

module _ {F : Type 0} (client : Client F) (cluster : Cluster) where
  -- A plan that shrinks is applied only once the last node has left or has no pod to ask.
  unfoldable pub guarded_plan : List Pod → ℕ → Plan → StsPass
  guarded_plan pods current p =
      if ltb p.replicas current
      then after_asking (decommission client cluster pods (current - 1)) current p
      else record { action = updated p; asked = [] }

  unfoldable pub reconcile_stateful_set :
      Existing → Bool → Option Membership → Option Placement → Option Error → List Pod → StsPass
  unfolding guarded_plan
  reconcile_stateful_set not_found bootstrapped m placement placement_err pods = record {
    action = created (desired_replicas cluster) 0;
    asked = [];
  }
  reconcile_stateful_set (unreadable e) bootstrapped m placement placement_err pods = record {
    action = failed e;
    asked = [];
  }
  reconcile_stateful_set (found replicas) bootstrapped m placement placement_err pods =
      guarded_plan pods (size_of replicas)
        (build_plan cluster (size_of replicas) bootstrapped m placement placement_err)
