-- ===== src/Settled/Counts.antt =====
-- The counts that `placementSettled` takes (internal/controller/autoscaler.go).
use kahuna_k8s_operator.Common.{
  ℕ, suc, ◌+◌, String, ◌≡◌, Bool, true, false, ◌&&◌, some, List, [], ◌∷◌, ◌∙◌, count_if, str_eq,
  string_dec, if◌then◌else◌, arith, Bool-cases, inl, inr,
}
use kahuna_k8s_operator.Common.Dict.{lookup-insert}
use kahuna_k8s_operator.Api.{Cluster}
use kahuna_k8s_operator.Kahuna.{Placement, PartitionPlacement, ReplicaPlacement}
use kahuna_k8s_operator.Settled.{
  Tally, count_of, empty_tally, endpoints, tally_replica, tally_replicas, tally_partition,
  tally_partitions, is_skipped, placement_settled,
}
use kahuna_k8s_operator.Settled.Reasons.{at_rest}

abbrev part_count : (ReplicaPlacement → Bool) → PartitionPlacement → ℕ
part_count q part = if is_skipped part then 0 else count_if q part.replicas

-- How many replicas of the placed partitions pass a test.
abbrev pub replica_count : (ReplicaPlacement → Bool) → List PartitionPlacement → ℕ
replica_count q [] = 0
replica_count q (part ∷ parts) = part_count q part + replica_count q parts

-- At rest on the endpoint.
abbrev pub rests_on : List String → String → ReplicaPlacement → Bool
rests_on members endpoint rep = at_rest members rep && str_eq rep.endpoint endpoint

abbrev bit : Bool → ℕ
bit true = 1
bit false = 0

module _ (members : List String) (endpoint : String) where
  count_of-tally_replica :
      (id : ℕ) (t : Tally) (rep : ReplicaPlacement)
      → count_of (tally_replica members id t rep).hosted endpoint
        ≡ count_of t.hosted endpoint + bit (rests_on members endpoint rep)
  unfolding tally_replica count_of
  count_of-tally_replica id t rep = ground (
    arith,
    lookup-insert string_dec endpoint rep.endpoint (suc (count_of t.hosted rep.endpoint)) t.hosted,
  )

  count_of-tally_replicas :
      (id : ℕ) (reps : List ReplicaPlacement) (t : Tally)
      → count_of (tally_replicas members id reps t).hosted endpoint
        ≡ count_of t.hosted endpoint + count_if (rests_on members endpoint) reps
  unfolding tally_replicas
  count_of-tally_replicas id [] t = omega arith
  count_of-tally_replicas id (rep ∷ reps) t = ground (
    arith,
    count_of-tally_replica id t rep,
    count_of-tally_replicas id reps (tally_replica members id t rep),
  )

  count_of-tally_partition :
      (t : Tally) (part : PartitionPlacement)
      → count_of (tally_partition members t part).hosted endpoint
        ≡ count_of t.hosted endpoint + part_count (rests_on members endpoint) part
  unfolding tally_partition
  count_of-tally_partition t part = elim (Bool-cases (is_skipped part)) [
    | inl skipped ↦ rw skipped (omega arith)
    | inr placed ↦ rw placed (count_of-tally_replicas part.partition_id part.replicas t)
  ]

  count_of-tally_partitions :
      (parts : List PartitionPlacement) (t : Tally)
      → count_of (tally_partitions members parts t).hosted endpoint
        ≡ count_of t.hosted endpoint + replica_count (rests_on members endpoint) parts
  unfolding tally_partitions
  count_of-tally_partitions [] t = omega arith
  count_of-tally_partitions (part ∷ parts) t = omega (
    arith,
    count_of-tally_partitions parts (tally_partition members t part),
    count_of-tally_partition t part,
  )

module _ (members : List String) where
  total-tally_replica :
      (id : ℕ) (t : Tally) (rep : ReplicaPlacement)
      → (tally_replica members id t rep).total ≡ t.total + bit (at_rest members rep)
  unfolding tally_replica
  total-tally_replica id t rep = ground arith

  total-tally_replicas :
      (id : ℕ) (reps : List ReplicaPlacement) (t : Tally)
      → (tally_replicas members id reps t).total ≡ t.total + count_if (at_rest members) reps
  unfolding tally_replicas
  total-tally_replicas id [] t = omega arith
  total-tally_replicas id (rep ∷ reps) t = ground (
    arith,
    total-tally_replica id t rep,
    total-tally_replicas id reps (tally_replica members id t rep),
  )

  total-tally_partition :
      (t : Tally) (part : PartitionPlacement)
      → (tally_partition members t part).total ≡ t.total + part_count (at_rest members) part
  unfolding tally_partition
  total-tally_partition t part = elim (Bool-cases (is_skipped part)) [
    | inl skipped ↦ rw skipped (omega arith)
    | inr placed ↦ rw placed (total-tally_replicas part.partition_id part.replicas t)
  ]

  total-tally_partitions :
      (parts : List PartitionPlacement) (t : Tally)
      → (tally_partitions members parts t).total ≡ t.total + replica_count (at_rest members) parts
  unfolding tally_partitions
  total-tally_partitions [] t = omega arith
  total-tally_partitions (part ∷ parts) t = omega (
    arith,
    total-tally_partitions parts (tally_partition members t part),
    total-tally_partition t part,
  )

-- The counts are those of the replicas at rest: for every endpoint the number of replicas at rest
-- on it, and in total the number of all replicas at rest.
pub settled_counts :
    (cluster : Cluster) (p : Placement) (current : ℕ) (endpoint : String)
    → (count_of (placement_settled cluster (some p) current).hosted endpoint
        ≡ replica_count (rests_on (endpoints cluster current) endpoint) p.partitions)
      × ((placement_settled cluster (some p) current).total
          ≡ replica_count (at_rest (endpoints cluster current)) p.partitions)
unfolding placement_settled count_of
settled_counts cluster p current endpoint =
    let members = endpoints cluster current in
    (
      count_of-tally_partitions members endpoint p.partitions empty_tally ∙ omega arith,
      total-tally_partitions members p.partitions empty_tally ∙ omega arith,
    )
