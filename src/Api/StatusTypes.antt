-- ===== src/Api/StatusTypes.antt =====
-- What the operator records (api/v1alpha1/kahunacluster_types.go). A condition is kept without its
-- transition time, which the API machinery stamps.
use kahuna_k8s_operator.Common.{ℕ, String, Bool, Option, List}

-- `pending` is declared by the API and never written.
pub data ClusterPhase : Type 0 where
  pending bootstrapping running scaling_up scaling_down upgrading degraded : ClusterPhase

pub record MemberStatus : Type 0 where
  pub pod_name : String
  pub endpoint : String
  pub node_id : ℕ
  pub role : String
  pub joined_version : ℕ
  pub ready : Bool

pub record AutoscalingStatus : Type 0 where
  pub desired_replicas : ℕ
  pub recommended_replicas : ℕ
  pub writes_per_second_per_node : Option ℕ
  pub queue_depth_per_node : Option ℕ
  pub above_target_since : Option ℕ
  pub below_target_since : Option ℕ
  pub last_scale_time : Option ℕ

pub record BackupStatus : Type 0 where
  pub last_full_schedule_time : Option ℕ
  pub last_incremental_schedule_time : Option ℕ
  pub last_successful_time : Option ℕ
  pub last_backup_id : String
  pub last_backup_type : String
  pub consecutive_failures : ℕ
  pub last_failure_time : Option ℕ
  pub last_failure_message : String
  pub unclaimed_since : Option ℕ
  pub last_unclaimed_time : Option ℕ

pub record Condition : Type 0 where
  pub kind : String
  pub active : Bool
  pub reason : String
  pub message : String

pub record Status : Type 0 where
  pub observed_generation : ℕ
  pub phase : ClusterPhase
  pub replicas : ℕ
  pub ready_replicas : ℕ
  pub voters : ℕ
  pub learners : ℕ
  pub membership_version : ℕ
  pub members : List MemberStatus
  pub bootstrapped : Bool
  pub bootstrap_size : ℕ
  pub current_image : String
  pub update_partition : Option ℕ
  pub autoscaling : Option AutoscalingStatus
  pub backup : Option BackupStatus
  pub conditions : List Condition
