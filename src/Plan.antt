-- ===== src/Plan.antt =====
-- The size and the rolling-update partition of the StatefulSet on one pass
-- (internal/controller/plan.go).
pub mod Roster
pub mod Steps
use kahuna_k8s_operator.Common.{
  ℕ, ◌+◌, ◌-◌, ◌==◌, ltb, String, ◌<>◌, Bool, true, false, ◌&&◌, not, Option, none, some, List, [],
  ◌∷◌, map, all, any, keep, length, range, contains, show_list, str_eq, string_dec, if◌then◌else◌,
}
use kahuna_k8s_operator.Api.{Cluster}
use kahuna_k8s_operator.Naming.{raft_endpoint, pod_name, desired_replicas}
use kahuna_k8s_operator.Kahuna.{Member, Membership, has_voter, Placement, is_empty}
use kahuna_k8s_operator.Kahuna.Errors.{Error, error_text}
use kahuna_k8s_operator.Settled.{endpoints, placement_settled}

pub record Plan : Type 0 where
  pub replicas : ℕ
  pub partition : ℕ
  pub reason : String

unfoldable pub roster_matches : Cluster → Option Membership → ℕ → Bool
unfolding has_voter
roster_matches cluster none replicas = false
roster_matches cluster (some m) replicas =
    length m.members == replicas
    && all (λ i. has_voter m (raft_endpoint cluster i)) (range replicas)

-- The pods of the ordinals whose endpoint is no Voter.
unfoldable pub missing_voters : Cluster → Membership → ℕ → List String
unfolding has_voter
missing_voters cluster m replicas =
    map (pod_name cluster)
      (keep (λ i. not (has_voter m (raft_endpoint cluster i))) (range replicas))

-- The endpoints in the roster that no ordinal below the size has.
unfoldable pub extra_members : Cluster → Membership → ℕ → List String
unfolding endpoints
extra_members cluster m replicas =
    keep (λ e. not (contains (endpoints cluster replicas) e))
      (map (λ (mem : Member). mem.endpoint) m.members)

abbrev hold_text : List String → List String → String
hold_text missing extra =
    if not (is_empty missing) && not (is_empty extra)
    then "waiting for "
      <> (show_list missing <> (" to become voters and " <> (show_list extra <> " to be evicted")))
    else if not (is_empty missing)
    then "waiting for " <> (show_list missing <> " to become voters")
    else if not (is_empty extra)
    then "waiting for the cluster to evict " <> show_list extra
    else "waiting for the roster to converge"

unfoldable pub roster_hold_reason : Cluster → Option Membership → ℕ → String
roster_hold_reason cluster none replicas = "waiting for cluster membership to become readable"
roster_hold_reason cluster (some m) replicas =
    hold_text (missing_voters cluster m replicas) (extra_members cluster m replicas)

-- The `switch` at the end of `buildPlan`.
abbrev pub next_size : ℕ → ℕ → ℕ
next_size current target =
    if ltb current target
    then current + 1
    else if ltb target current && ltb 1 current
    then current - 1
    else current

-- What follows once the roster has converged.
unfoldable pub converged_plan : Cluster → ℕ → Option Placement → Option Error → Plan
converged_plan cluster current placement (some e) = record {
  replicas = current;
  partition = 0;
  reason = "waiting for replica placement to become readable: " <> error_text e;
}
converged_plan cluster current placement none =
    let reason = (placement_settled cluster placement current).reason in
    if not (str_eq reason "")
    then record {
      replicas = current;
      partition = 0;
      reason = "waiting for replica placement to settle: " <> reason;
    }
    else record {
      replicas = next_size current (desired_replicas cluster);
      partition = 0;
      reason = "";
    }

unfoldable pub build_plan :
    Cluster → ℕ → Bool → Option Membership → Option Placement → Option Error → Plan
unfolding converged_plan
build_plan cluster current bootstrapped m placement placement_err =
    if not bootstrapped
    then record { replicas = desired_replicas cluster; partition = 0; reason = "" }
    else if not (roster_matches cluster m current)
    then record {
      replicas = current;
      partition = current;
      reason = roster_hold_reason cluster m current;
    }
    else converged_plan cluster current placement placement_err
