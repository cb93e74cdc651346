-- ===== src/Kahuna.antt =====
-- The answers of a Kahuna server and what the operator reads off them (internal/kahuna/client.go).
pub mod Errors
pub mod Client
pub mod Http
pub mod Laws
use kahuna_k8s_operator.Common.{
  ℕ, ◌==◌, ltb, String, Bool, true, false, ◌&&◌, ◌||◌, Option, none, some, List, [], ◌∷◌, keep, any,
  str_eq, string_dec, is_some, if◌then◌else◌,
}
use text.Mathlib.Text

abbrev pub role_voter : String
role_voter = "Voter"

abbrev pub role_learner : String
role_learner = "Learner"

pub record Member : Type 0 where
  pub endpoint : String
  pub node_id : ℕ
  pub role : String
  pub joined_version : ℕ

-- `strings.HasSuffix`
unfoldable has_suffix : String → String → Bool
has_suffix String.[] suffix = str_eq String.[] suffix
has_suffix (String.◌∷◌ c s) suffix = str_eq (String.◌∷◌ c s) suffix || has_suffix s suffix

unfoldable pub is_witness : Member → Bool
unfolding has_suffix
is_witness m = m.node_id == 0 && has_suffix m.endpoint ":0"

pub record Membership : Type 0 where
  pub membership_version : ℕ
  pub members : List Member
  pub local_role : String
  pub initialized : Bool

abbrev is_voter : Member → Bool
is_voter mem = str_eq mem.role role_voter

unfoldable pub voters : Membership → List Member
voters m = keep is_voter m.members

-- The loop of `HasVoter` over the members.
abbrev has_voter_in : List Member → String → Bool
has_voter_in members endpoint =
    any (λ mem. str_eq mem.endpoint endpoint && str_eq mem.role role_voter) members

unfoldable pub has_voter : Membership → String → Bool
has_voter m endpoint = has_voter_in m.members endpoint

unfoldable roster_contains : Membership → String → Bool
roster_contains m endpoint = any (λ mem. str_eq mem.endpoint endpoint) m.members

pub record Health : Type 0 where
  pub ready : Bool
  pub initialized : Bool
  pub local_role : String

abbrev pub outcome_committed : String
outcome_committed = "Committed"

abbrev pub outcome_not_a_member : String
outcome_not_a_member = "NotAMember"

pub record LeaveResult : Type 0 where
  pub left : Bool
  pub outcome : String
  pub membership_version : ℕ
  pub retryable : Bool
  pub reason : String

unfoldable pub removed : LeaveResult → Bool
removed l = str_eq l.outcome outcome_committed || str_eq l.outcome outcome_not_a_member

abbrev pub partition_state_active : String
partition_state_active = "Active"

pub record ReplicaPlacement : Type 0 where
  pub endpoint : String
  pub role : String

pub record PartitionPlacement : Type 0 where
  pub partition_id : ℕ
  pub state : String
  pub effective_replication_factor : ℕ
  pub replicas : List ReplicaPlacement

pub record Placement : Type 0 where
  pub replication_factor : ℕ
  pub rebalancer_enabled : Bool
  pub initialized : Bool
  pub partitions : List PartitionPlacement

-- `len(xs) == 0`
abbrev pub is_empty {ℓ} : {A : Type ℓ} → List A → Bool
is_empty [] = true
is_empty (x ∷ xs) = false

abbrev is_fully_replicated : PartitionPlacement → Bool
is_fully_replicated part =
    ltb 0 part.partition_id && (str_eq part.state partition_state_active && is_empty part.replicas)

-- The loop of `FullyReplicated` over the partitions.
unfoldable fully_replicated_in : List PartitionPlacement → List ℕ
fully_replicated_in [] = []
fully_replicated_in (part ∷ parts) =
    let rest = fully_replicated_in parts in
    if is_fully_replicated part then part.partition_id ∷ rest else rest

unfoldable pub fully_replicated : Placement → List ℕ
unfolding fully_replicated_in
fully_replicated p = fully_replicated_in p.partitions

abbrev pub metric_kind_counter : String
metric_kind_counter = "Counter"

abbrev pub metric_kind_gauge : String
metric_kind_gauge = "Gauge"

-- The readings are floats, of a type that the metrics are generic in.
pub record MetricRow (F : Type 0) : Type 0 where
  pub metric : String
  pub tags : String
  pub kind : String
  pub count : ℕ
  pub total : Option F
  pub last : Option F

pub record Metrics (F : Type 0) : Type 0 where
  pub rows : List (MetricRow F)
  pub monotonic_ms : ℕ

pub record BackupInfo : Type 0 where
  pub backup_id : String
  pub kind : String
  pub parent_backup_id : String
  pub cluster_id : String
  pub coordinator_node : String
  pub actual_kind : String
  pub substitution_reason : String
