-- ===== src/Examples/Sizes.antt =====
-- The theorems on the size of the StatefulSet at a cluster of three nodes that had four.
use kahuna_k8s_operator.Common.{
  In, Option, arith, false, inl, none, refl, some, string_dec, true, ℕ, ◌<◌, ◌≡◌,
}
use kahuna_k8s_operator.Common.Decimal.{decimal}
use kahuna_k8s_operator.Examples.{client, pods, spread, three}
use kahuna_k8s_operator.Kahuna.{
  LeaveResult, Member, Membership, Placement, has_voter, outcome_committed, voters,
}
use kahuna_k8s_operator.Kahuna.Client.{Client}
use kahuna_k8s_operator.Kahuna.Errors.{Error, ok}
use kahuna_k8s_operator.Naming.{
  desired_replicas, peer_domain, peer_service_name, pod_fqdn, pod_name, ports, raft_endpoint,
  spec_replicas,
}
use kahuna_k8s_operator.Plan.{Plan, build_plan, converged_plan, roster_matches}
use kahuna_k8s_operator.Plan.Roster.{
  IsVoterAt, full_roster, roster_matches-full_roster, roster_matches_exact,
}
use kahuna_k8s_operator.Plan.Steps.{build_plan_change}
use kahuna_k8s_operator.Scaling.Walk.{walk, walk_reaches}
use kahuna_k8s_operator.Settled.{
  endpoints, placement_settled, tally_partition, tally_partitions, tally_replica, tally_replicas,
}

abbrev four : Membership
four = full_roster three 4

abbrev no_error : Option Error
no_error = none

abbrev shrunk : Plan
shrunk = build_plan three 4 true (some four) (some spread) no_error

roster_matches_exact_example :
    ((i : ℕ) → i < 4 → has_voter four (raft_endpoint three i) ≡ true)
    × ((mem : Member) → In mem four.members → (i : ℕ) × (i < 4) × IsVoterAt three i mem)
roster_matches_exact_example =
    roster_matches_exact three four 4 (roster_matches-full_roster three 4)

build_plan_change_example :
    (roster_matches three (some four) 4 ≡ true)
    × (no_error ≡ none)
    × ((placement_settled three (some spread) 4).reason ≡ "")
unfolding build_plan converged_plan roster_matches spec_replicas desired_replicas placement_settled
    voters raft_endpoint pod_fqdn peer_domain pod_name ports decimal endpoints tally_partitions
    tally_partition tally_replicas tally_replica string_dec peer_service_name
build_plan_change_example =
    build_plan_change three 4 (some four) (some spread) no_error (λ e. omega (arith, e))

-- A cluster without replica placement.
abbrev nothing_placed : ℕ → Option Placement
nothing_placed n = none

abbrev gone : LeaveResult
gone = record {
  left = true;
  outcome = outcome_committed;
  membership_version = 5;
  retryable = false;
  reason = "";
}

-- The nodes give the roster of a size, and leave when asked to.
abbrev leaving : ℕ → Client ℕ
leaving n = record (client (full_roster three n)) { leave = λ url. ok gone }

walk_reaches_example :
    walk three leaving (λ n. pods) (λ n. some (full_roster three n)) nothing_placed 3 6
    ≡ desired_replicas three
unfolding spec_replicas desired_replicas placement_settled
walk_reaches_example =
    walk_reaches three leaving (λ n. pods) (λ n. some (full_roster three n)) nothing_placed
      (λ n. roster_matches-full_roster three n) (λ n. refl)
      (λ n more pod m named has_ip. (gone, refl, inl refl)) 3 6 (omega arith) (omega arith)
      (omega arith)
