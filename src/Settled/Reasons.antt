-- ===== src/Settled/Reasons.antt =====
-- What an empty reason of `placementSettled` says (internal/controller/autoscaler.go).
use text.Mathlib.TextLemmas.{append-eq-nil_iff, cons≢nil}
use kahuna_k8s_operator.Common.{
  ℕ, String, ◌<>◌, ◌≡◌, refl, ◌≢◌, ◌↔◌, Bool, true, false, ◌&&◌, ◌||◌, some, List, [], ◌∷◌, ◌++◌,
  all, contains, str_eq, arith, Bool-cases, inl, inr,
}
use kahuna_k8s_operator.Api.{Cluster}
use kahuna_k8s_operator.Kahuna.{Placement, PartitionPlacement, ReplicaPlacement, is_empty}
use kahuna_k8s_operator.Settled.{
  Tally, empty_tally, endpoints, tally_replica, tally_replicas, tally_partition, tally_partitions,
  is_skipped, placement_settled, settled_reason, show_ids,
}

-- A replica at rest: a Voter on a current member.
abbrev pub at_rest : List String → ReplicaPlacement → Bool
at_rest members rep = str_eq rep.role "Voter" && contains members rep.endpoint

-- Every replica of every placed partition is at rest.
abbrev pub all_at_rest : List String → List PartitionPlacement → Bool
all_at_rest members = all (λ part. is_skipped part || all (at_rest members) part.replicas)

abbrev clean : Tally → Bool
clean t = is_empty t.in_flight && is_empty t.stranded

is_empty-snoc {ℓ} : {A : Type ℓ} (xs : List A) (x : A) → is_empty (xs ++ (x ∷ [])) ≡ false
is_empty-snoc [] x = refl
is_empty-snoc (y ∷ ys) x = refl

clean-tally_replica :
    (members : List String) (id : ℕ) (t : Tally) (rep : ReplicaPlacement)
    → clean (tally_replica members id t rep) ≡ (clean t && at_rest members rep)
unfolding tally_replica
clean-tally_replica members id t rep =
    ground (arith, is_empty-snoc t.in_flight id, is_empty-snoc t.stranded id)

clean-tally_replicas :
    (members : List String) (id : ℕ) (reps : List ReplicaPlacement) (t : Tally)
    → clean (tally_replicas members id reps t) ≡ (clean t && all (at_rest members) reps)
unfolding tally_replicas
clean-tally_replicas members id [] t = ground arith
clean-tally_replicas members id (rep ∷ reps) t = ground (
  arith,
  clean-tally_replicas members id reps (tally_replica members id t rep),
  clean-tally_replica members id t rep,
)

clean-tally_partition :
    (members : List String) (t : Tally) (part : PartitionPlacement)
    → clean (tally_partition members t part)
      ≡ (clean t && (is_skipped part || all (at_rest members) part.replicas))
unfolding tally_partition
clean-tally_partition members t part = elim (Bool-cases (is_skipped part)) [
  | inl skipped ↦ rw (skipped) (ground arith)
  | inr placed ↦ rw (placed) (clean-tally_replicas members part.partition_id part.replicas t)
]

clean-tally_partitions :
    (members : List String) (parts : List PartitionPlacement) (t : Tally)
    → clean (tally_partitions members parts t) ≡ (clean t && all_at_rest members parts)
unfolding tally_partitions
clean-tally_partitions members [] t = ground arith
clean-tally_partitions members (part ∷ parts) t =
    rw (clean-tally_partitions members parts (tally_partition members t part))
      (rw (clean-tally_partition members t part) (ground arith))

moves_text_nonempty : (s : String) → "replica moves in flight on partitions " <> s ≢ ""
moves_text_nonempty s e =
    cons≢nil ((append-eq-nil_iff {p = "replica moves in flight on partitions "} {q = s}).0 e).0

stranded_text_nonempty : (s : String) → "partitions " <> s ≢ ""
stranded_text_nonempty s e = cons≢nil ((append-eq-nil_iff {p = "partitions "} {q = s}).0 e).0

settled_reason-clean : (t : Tally) → (settled_reason t ≡ "") ↔ (clean t ≡ true)
settled_reason-clean t = ground (
  arith,
  moves_text_nonempty (show_ids t.in_flight),
  stranded_text_nonempty (show_ids t.stranded <> " still have replicas on nodes that left"),
)

-- For a server with placement, `placementSettled` gives no reason to wait exactly when every
-- replica of every active, placed partition is a Voter on a node of the current size.
pub settled_iff :
    (cluster : Cluster) (p : Placement) (current : ℕ)
    → ((placement_settled cluster (some p) current).reason ≡ "")
      ↔ (all_at_rest (endpoints cluster current) p.partitions ≡ true)
unfolding placement_settled
settled_iff cluster p current =
    rw (← clean-tally_partitions (endpoints cluster current) p.partitions empty_tally)
      (settled_reason-clean (tally_partitions (endpoints cluster current) p.partitions empty_tally))
