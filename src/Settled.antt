-- ===== src/Settled.antt =====
-- Whether the data has followed the last membership change (internal/controller/autoscaler.go):
-- `growthCeiling`, `placementSettled` and `placementConverged`.
pub mod Counts
pub mod Reasons
pub mod Share
use kahuna_k8s_operator.Common.{
  ℕ, zero, suc, ◌+◌, ◌/◌, max, ◌==◌, ltb, leb, String, ◌<>◌, Bool, true, false, ◌&&◌, ◌||◌, not,
  Option, none, some, List, [], ◌∷◌, ◌++◌, map, range, contains, show_list, str_eq, string_dec,
  if◌then◌else◌,
}
use kahuna_k8s_operator.Common.Decimal.{decimal}
use kahuna_k8s_operator.Common.Dict.{Dict, lookup, insert}
use kahuna_k8s_operator.Api.{Cluster}
use kahuna_k8s_operator.Naming.{raft_endpoint, pod_name}
use kahuna_k8s_operator.Kahuna.{
  Placement, PartitionPlacement, ReplicaPlacement, partition_state_active, is_empty,
  fully_replicated,
}

abbrev max_replication_factor : ℕ
max_replication_factor = 3

-- `fmt.Sprintf("%v", ids)`
unfoldable pub show_ids : List ℕ → String
show_ids ids = show_list (map decimal ids)

-- No ceiling is 0.
unfoldable pub growth_ceiling : Placement → ℕ × String
growth_ceiling p =
    let full = fully_replicated p in
    if is_empty full then (0, "") else (
      max_replication_factor,
      "partitions "
          <> (show_ids full
              <> (" are fully replicated, so growing past 3 nodes would exceed 3 copies; "
                  <> ("Kahuna 1.12.3 or later converts them shortly after start; an older server needs a cluster "
                      <> "created with more nodes than its replication factor"))),
    )

-- The endpoints of the ordinals below a size, which the code keeps as a map to `true`.
unfoldable pub endpoints : Cluster → ℕ → List String
endpoints cluster n = map (raft_endpoint cluster) (range n)

-- The variables of the loops in `placementSettled`.
pub record Tally : Type 0 where
  pub hosted : Dict String ℕ
  pub total : ℕ
  pub in_flight : List ℕ
  pub stranded : List ℕ

-- A map of counters reads 0 at a missing key.
unfoldable pub count_of : Dict String ℕ → String → ℕ
unfolding lookup
count_of hosted endpoint = elim (lookup string_dec endpoint hosted) [ none ↦ 0 | some n ↦ n ]

unfoldable pub tally_replica : List String → ℕ → Tally → ReplicaPlacement → Tally
tally_replica members id t rep =
    if not (str_eq rep.role "Voter")
    then record t { in_flight = t.in_flight ++ (id ∷ []) }
    else if not (contains members rep.endpoint)
    then record t { stranded = t.stranded ++ (id ∷ []) }
    else record t {
      hosted = insert string_dec rep.endpoint (suc (count_of t.hosted rep.endpoint)) t.hosted;
      total = suc t.total;
    }

unfoldable pub tally_replicas : List String → ℕ → List ReplicaPlacement → Tally → Tally
tally_replicas members id [] t = t
tally_replicas members id (rep ∷ reps) t =
    tally_replicas members id reps (tally_replica members id t rep)

-- Partitions that are not active, and those on every node, are passed over.
abbrev pub is_skipped : PartitionPlacement → Bool
is_skipped part = not (str_eq part.state partition_state_active) || is_empty part.replicas

unfoldable pub tally_partition : List String → Tally → PartitionPlacement → Tally
unfolding tally_replicas
tally_partition members t part =
    if is_skipped part then t else tally_replicas members part.partition_id part.replicas t

unfoldable pub tally_partitions : List String → List PartitionPlacement → Tally → Tally
unfolding tally_partition
tally_partitions members [] t = t
tally_partitions members (part ∷ parts) t =
    tally_partitions members parts (tally_partition members t part)

abbrev pub empty_tally : Tally
empty_tally = record { hosted = []; total = 0; in_flight = []; stranded = [] }

pub record Settled : Type 0 where
  pub hosted : Dict String ℕ
  pub total : ℕ
  pub reason : String

abbrev pub settled_reason : Tally → String
settled_reason t =
    if not (is_empty t.in_flight)
    then "replica moves in flight on partitions " <> show_ids t.in_flight
    else if not (is_empty t.stranded)
    then "partitions " <> (show_ids t.stranded <> " still have replicas on nodes that left")
    else ""

abbrev settled_of : Tally → Settled
settled_of t = record { hosted = t.hosted; total = t.total; reason = settled_reason t }

unfoldable pub placement_settled : Cluster → Option Placement → ℕ → Settled
placement_settled cluster none current = record { hosted = []; total = 0; reason = "" }
placement_settled cluster (some p) current =
    settled_of (tally_partitions (endpoints cluster current) p.partitions empty_tally)

-- The loop that looks for the first node below its share.
unfoldable pub first_short : Cluster → Dict String ℕ → ℕ → ℕ → List ℕ → Bool × String
first_short cluster hosted min_share share [] = (true, "")
first_short cluster hosted min_share share (i ∷ is) =
    let n = count_of hosted (raft_endpoint cluster i) in
    if ltb n min_share
    then (
      false,
      pod_name cluster i
          <> (" holds "
              <> (decimal n
                  <> (" of the " <> (decimal share <> " data replicas it should carry")))),
    )
    else first_short cluster hosted min_share share is

-- The settle clock has run out: `settleBy != nil && !now.Before(*settleBy)`.
abbrev pub clock_out : ℕ → Option ℕ → Bool
clock_out now none = false
clock_out now (some settle_by) = leb settle_by now

-- `total / int(current)` divides by a size that is at least 1.
unfoldable pub placement_converged : Cluster → Option Placement → ℕ → ℕ → Option ℕ → Bool × String
unfolding placement_settled first_short
placement_converged cluster p current now settle_by =
    let s = placement_settled cluster p current in
    if not (str_eq s.reason "")
    then (false, s.reason)
    else let share = s.total / current in
      if share == 0 || clock_out now settle_by
      then (true, "")
      else first_short cluster s.hosted (max 1 (share / 2)) share (range current)
