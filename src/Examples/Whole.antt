-- ===== src/Examples/Whole.antt =====
-- The theorems on a whole pass at a cluster of three nodes that had four.
use kahuna_k8s_operator.Common.{
  List, Option, String, [], arith, false, is_some, none, refl, some, sort_stable, string_dec, true,
  ◌&&◌, ◌+◌, ◌-◌, ◌<◌, ◌∷◌, ◌≡◌, ◌⊎◌,
}
use kahuna_k8s_operator.Api.{Cluster, Condition}
use kahuna_k8s_operator.Autoscaler.Fractions.{Fraction, fractions}
use kahuna_k8s_operator.Autoscaling.{is_steady, reconcile_autoscaling}
use kahuna_k8s_operator.Common.Decimal.{atoi, decimal}
use kahuna_k8s_operator.Common.Dict.{erase}
use kahuna_k8s_operator.Examples.{info, new_status, pods, spread, three}
use kahuna_k8s_operator.Kahuna.{
  LeaveResult, Membership, Placement, has_voter, outcome_committed, removed, voters,
}
use kahuna_k8s_operator.Kahuna.Client.{Client}
use kahuna_k8s_operator.Kahuna.Errors.{Error, err, ok, other}
use kahuna_k8s_operator.Membership.{
  after_last_dash, candidates, decommission, first_answer, ordinal_of, pod_base_url, pod_is_ready,
  read_membership,
}
use kahuna_k8s_operator.Membership.Leaving.{HasLeft, HasNoPod}
use kahuna_k8s_operator.Naming.{
  desired_replicas, peer_domain, peer_service_name, pod_fqdn, pod_name, ports, raft_endpoint,
  spec_replicas,
}
use kahuna_k8s_operator.Plan.{Plan, build_plan, converged_plan, roster_matches}
use kahuna_k8s_operator.Plan.Roster.{full_roster}
use kahuna_k8s_operator.Scaling.{
  StsPass, found, guarded_plan, placement_from, read_placement, reconcile_stateful_set,
}
use kahuna_k8s_operator.Settled.{
  endpoints, placement_settled, tally_partition, tally_partitions, tally_replica, tally_replicas,
}
use kahuna_k8s_operator.Sizing.{reconcile_size, roster_of}
use kahuna_k8s_operator.Sizing.Chain.{
  crashes, crashes-reconcile_size, is_unsupported, reconcile_size_shrinks,
}
use kahuna_k8s_operator.Traffic.{forget_samples}

-- A condition is put in front, and taken out by dropping all.
abbrev set : List Condition → Condition → List Condition
set conditions c = c ∷ conditions

abbrev unset : List Condition → String → List Condition
unset conditions kind = []

abbrev four : Membership
four = full_roster three 4

abbrev left : LeaveResult
left = record {
  left = true;
  outcome = outcome_committed;
  membership_version = 5;
  retryable = false;
  reason = "";
}

-- Every node gives the roster of four and the placement on three, and leaves when asked to.
abbrev nodes : Client Fraction
nodes = record {
  membership = λ url. ok four;
  health = λ url. err (other "health");
  leave = λ url. ok left;
  placement = λ url. ok spread;
  metrics = λ url. err (other "metrics");
  take_coordinated_backup = λ url. ok info;
  take_incremental_backup = λ url parent. ok info;
}

-- The cluster of three has finished bootstrap.
abbrev formed : Cluster
formed = record three { status = record new_status { bootstrapped = true } }

abbrev ended : Cluster
ended = record formed { status = record formed.status { autoscaling = none; conditions = [] } }

abbrev no_error : Option Error
no_error = none

abbrev step : StsPass
step =
    reconcile_stateful_set nodes ended (found (some 4)) true (some four) (some spread) no_error pods

abbrev shrunk : Plan
shrunk = build_plan ended 4 true (some four) (some spread) no_error

reconcile_size_shrinks_example :
    (shrunk.replicas + 1 ≡ 4)
    × (desired_replicas ended < 4)
    × ((m : Membership) × (read_membership nodes formed pods ≡ ok m)
        × (roster_matches ended (some m) 4 ≡ true)
        × (has_voter m (raft_endpoint ended (4 - 1)) ≡ true))
    × ((is_unsupported (read_placement nodes formed pods) ≡ true)
        ⊎ ((q : Placement) × (read_placement nodes formed pods ≡ ok q)
            × ((placement_settled ended (some q) 4).reason ≡ "")))
    × (HasNoPod ended pods (4 - 1) ⊎ HasLeft nodes ended pods (4 - 1))
unfolding reconcile_size reconcile_autoscaling forget_samples erase read_membership first_answer
    candidates sort_stable read_placement placement_from pod_is_ready ordinal_of after_last_dash
    atoi reconcile_stateful_set guarded_plan build_plan converged_plan decommission roster_matches
    spec_replicas desired_replicas placement_settled voters raft_endpoint pod_fqdn peer_domain
    pod_name ports decimal endpoints tally_partitions tally_partition tally_replicas tally_replica
    string_dec removed pod_base_url peer_service_name
reconcile_size_shrinks_example =
    reconcile_size_shrinks fractions set unset nodes formed 4 pods [] 9 ended step [] shrunk refl
      refl refl (omega arith)

crashes-reconcile_size_example :
    crashes fractions set unset
      (reconcile_size fractions set unset nodes formed (found (some 4)) pods [] 9)
    ≡ (is_some formed.spec.autoscaling
        && (is_steady formed formed.status.bootstrapped
              (roster_of (read_membership nodes formed pods))
              pods
            && is_unsupported (read_placement nodes formed pods)))
crashes-reconcile_size_example = crashes-reconcile_size fractions set unset nodes formed 4 pods [] 9
