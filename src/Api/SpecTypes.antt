-- ===== src/Api/SpecTypes.antt =====
-- What the user writes (api/v1alpha1/kahunacluster_types.go). Scheduling fields that the operator
-- copies into the pod template unread are left out.
use kahuna_k8s_operator.Common.{ℕ, String, Bool, Option, List}
use kahuna_k8s_operator.Common.Dict.{Dict}

pub record VolumeSpec : Type 0 where
  pub size : ℕ
  pub storage_class_name : Option String
  pub access_modes : List String

pub record StorageSpec : Type 0 where
  pub backend : String
  pub revision : String
  pub wal_backend : String
  pub wal_revision : String
  pub data_volume : VolumeSpec
  pub wal : Option VolumeSpec
  pub sync_writes : Option Bool
  pub direct_reads : Option Bool
  pub shared_memory : Option Bool
  pub shared_memory_budget_mb : Option ℕ
  pub shared_memtable_budget_mb : Option ℕ
  pub pvc_retention_policy : String

pub record SecretKeySelector : Type 0 where
  pub name : String
  pub key : String

pub record CertManagerSpec : Type 0 where
  pub issuer_name : String
  pub issuer_kind : String
  pub issuer_group : String
  pub duration : Option ℕ
  pub renew_before : Option ℕ

pub record TlsSpec : Type 0 where
  pub secret_ref : Option String
  pub keystore_key : String
  pub password_secret_ref : Option SecretKeySelector
  pub cert_manager : Option CertManagerSpec
  pub insecure_skip_verify : Option Bool

pub record PortsSpec : Type 0 where
  pub http : ℕ
  pub https : ℕ
  pub internal_http : ℕ
  pub raft : ℕ

pub record RaftSpec : Type 0 where
  pub heartbeat_interval_ms : Option ℕ
  pub voting_timeout_ms : Option ℕ
  pub start_election_timeout_ms : Option ℕ
  pub end_election_timeout_ms : Option ℕ
  pub enable_check_quorum : Option Bool
  pub gossip_interval_ms : Option ℕ
  pub gossip_fanout : Option ℕ
  pub ping_timeout_ms : Option ℕ
  pub indirect_ping_fanout : Option ℕ
  pub suspicion_timeout_ms : Option ℕ
  pub dead_member_eviction_grace_ms : Option ℕ
  pub backfill_threshold : Option ℕ
  pub max_backfill_entries_per_round : Option ℕ
  pub learner_promotion_lag : Option ℕ
  pub learner_promotion_stable_window_ms : Option ℕ

pub record TransactionsSpec : Type 0 where
  pub default_timeout_ms : Option ℕ
  pub default_admission_wait_ms : Option ℕ
  pub max_admission_wait_ms : Option ℕ
  pub max_concurrent_transactions : Option ℕ
  pub max_concurrent_sessions : Option ℕ

pub record WorkersSpec : Type 0 where
  pub locks : Option ℕ
  pub key_value : Option ℕ
  pub sequencer : Option ℕ
  pub background_writer : Option ℕ

pub record ReplicationSpec : Type 0 where
  pub factor : ℕ

pub record AutoscalingSpec : Type 0 where
  pub min_replicas : ℕ
  pub max_replicas : ℕ
  pub target_writes_per_second : Option ℕ
  pub target_queue_depth : Option ℕ
  pub scale_up_stabilization_seconds : Option ℕ
  pub scale_down_stabilization_seconds : Option ℕ
  pub tolerance_percent : Option ℕ

pub record BackupVolumeSpec : Type 0 where
  pub claim_name : Option String
  pub claim : Option VolumeSpec

-- `max_age` in nanoseconds, `max_bytes` the value of the quantity.
pub record BackupRetentionSpec : Type 0 where
  pub max_chains : Option ℕ
  pub max_age : Option ℕ
  pub max_bytes : Option ℕ

pub record BackupSpec : Type 0 where
  pub schedule : String
  pub incremental_schedule : String
  pub suspend : Option Bool
  pub timeout : Option ℕ
  pub volume : BackupVolumeSpec
  pub cluster_id : String
  pub mac_key_secret_ref : Option SecretKeySelector
  pub retention : Option BackupRetentionSpec

pub record Spec : Type 0 where
  pub replicas : Option ℕ
  pub replication : Option ReplicationSpec
  pub autoscaling : Option AutoscalingSpec
  pub backup : Option BackupSpec
  pub image : String
  pub partitions : Option ℕ
  pub storage : StorageSpec
  pub tls : TlsSpec
  pub ports : Option PortsSpec
  pub raft : Option RaftSpec
  pub transactions : Option TransactionsSpec
  pub workers : Option WorkersSpec
  pub log_level : String
  pub extra_args : List String
  pub pod_annotations : Dict String String
  pub pod_labels : Dict String String
  pub pod_disruption_budget : Option Bool
