-- ===== src/Examples/Rosters.antt =====
-- The theorems on rosters, placements and status at a cluster of three nodes that had four.
use kahuna_k8s_operator.Common.{
  In, arith, count_if, length, none, refl, some, sort_stable, string_dec, true, ◌<◌, ◌↔◌, ◌≡◌, ◌≤◌,
  ◌⊎◌,
}
use kahuna_k8s_operator.Api.{Pod, running}
use kahuna_k8s_operator.Common.Decimal.{atoi, decimal}
use kahuna_k8s_operator.Common.Int.{pos}
use kahuna_k8s_operator.Examples.{client, pods, spread, three}
use kahuna_k8s_operator.Kahuna.{Membership, voters}
use kahuna_k8s_operator.Membership.{
  after_last_dash, candidates, first_answer, is_below, ordinal_of, pod_base_url, pod_is_ready,
  read_membership,
}
use kahuna_k8s_operator.Membership.Ordinals.{ordinal_of-pod_name}
use kahuna_k8s_operator.Membership.Reading.{Gave, read_membership-ready}
use kahuna_k8s_operator.Naming.{desired_replicas, pod_name, ports}
use kahuna_k8s_operator.Plan.Roster.{full_roster}
use kahuna_k8s_operator.Reporting.{
  Observed, StatefulSet, image_rolled_out, observe_status, phase_of,
}
use kahuna_k8s_operator.Reporting.Images.{all_run, image_rolled_out_iff}
use kahuna_k8s_operator.Reporting.Phases.{observe_status-bootstrapped, phase_running_iff}
use kahuna_k8s_operator.Settled.{endpoints, placement_settled}
use kahuna_k8s_operator.Settled.Reasons.{all_at_rest, settled_iff}

abbrev four_voters : Membership
four_voters = full_roster three 4

settled_iff_example :
    ((placement_settled three (some spread) 4).reason ≡ "")
    ↔ (all_at_rest (endpoints three 4) spread.partitions ≡ true)
settled_iff_example = settled_iff three spread 4

read_membership-ready_example :
    (p : Pod) × In p pods × (pod_is_ready p ≡ true) × Gave (client four_voters) three four_voters p
unfolding read_membership first_answer candidates sort_stable pod_is_ready string_dec pod_name
    decimal pod_base_url ports ordinal_of after_last_dash atoi
read_membership-ready_example =
    read_membership-ready (client four_voters) three pods four_voters refl refl

ordinal_of-pod_name_example : ordinal_of (pod_name three 12) ≡ pos 12
ordinal_of-pod_name_example = ordinal_of-pod_name three 12 (omega arith)

-- A healthy cluster of three.
abbrev healthy : Observed
healthy = record {
  bootstrapped = true;
  roster_known = true;
  voters = 3;
  learners = 0;
  replicas = 3;
  ready_replicas = 3;
  image_current = true;
}

phase_running_iff_example : (phase_of healthy 3 ≡ running) ↔ (
    (healthy.bootstrapped ≡ true)
    × (healthy.roster_known ≡ true)
    × (healthy.voters ≡ 3)
    × (healthy.learners ≡ 0)
    × (healthy.replicas ≡ 3)
    × (3 ≤ healthy.ready_replicas)
    × (healthy.image_current ≡ true))
phase_running_iff_example = phase_running_iff healthy 3 (omega arith)

abbrev sts : StatefulSet
sts = record { spec_replicas = some 3; replicas = 3; ready_replicas = 3; partition = none }

observe_status-bootstrapped_example :
    ((observe_status three sts pods (some four_voters)).bootstrapped ≡ true) ↔ (
      (three.status.bootstrapped ≡ true)
      ⊎ ((r : Membership) × (some four_voters ≡ some r)
          × (1 ≤ r.membership_version)
          × (desired_replicas three ≤ length (voters r))))
observe_status-bootstrapped_example = observe_status-bootstrapped three sts pods (some four_voters)

image_rolled_out_iff_example :
    (image_rolled_out three sts pods ≡ true)
    ↔ ((0 < 3) × (count_if (λ p. is_below p 3) pods ≡ 3) × (all_run three.spec.image 3 pods ≡ true))
image_rolled_out_iff_example = image_rolled_out_iff three sts pods
