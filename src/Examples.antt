-- ===== src/Examples.antt =====
-- Concrete objects that the children apply the theorems to: a cluster of three nodes in the
-- namespace "data", with its pods, rosters, placements and a client.
pub mod Sizes
pub mod Passes
pub mod Rosters
pub mod Backups
pub mod Measured
pub mod Whole
pub mod Commands
pub mod Server
pub mod Objects
pub mod Backing
pub mod Reconciling
use kahuna_k8s_operator.Common.{
  ℕ, String, ◌<>◌, true, false, Option, none, some, List, [], ◌∷◌, map, range,
}
use kahuna_k8s_operator.Common.Decimal.{decimal}
use kahuna_k8s_operator.Api.{
  Cluster, Spec, Status, StorageSpec, TlsSpec, VolumeSpec, AutoscalingSpec, AutoscalingStatus, Pod,
  BackupSpec, BackupVolumeSpec, bootstrapping,
}
use kahuna_k8s_operator.Naming.{pod_name, raft_endpoint}
use kahuna_k8s_operator.Kahuna.{
  Membership, LeaveResult, Placement, PartitionPlacement, ReplicaPlacement, outcome_committed,
  role_voter, partition_state_active, BackupInfo,
}
use kahuna_k8s_operator.Kahuna.Errors.{Error, Result, ok, err, other}
use kahuna_k8s_operator.Kahuna.Client.{Client}

abbrev volume : VolumeSpec
volume = record { size = 1; storage_class_name = none; access_modes = [] }

abbrev storage : StorageSpec
storage = record {
  backend = "";
  revision = "";
  wal_backend = "";
  wal_revision = "";
  data_volume = volume;
  wal = none;
  sync_writes = none;
  direct_reads = none;
  shared_memory = none;
  shared_memory_budget_mb = none;
  shared_memtable_budget_mb = none;
  pvc_retention_policy = "";
}

abbrev tls : TlsSpec
tls = record {
  secret_ref = none;
  keystore_key = "";
  password_secret_ref = none;
  cert_manager = none;
  insecure_skip_verify = none;
}

abbrev spec : Spec
spec = record {
  replicas = some 3;
  replication = none;
  autoscaling = none;
  backup = none;
  image = "kahuna:1.12.6";
  partitions = none;
  storage = storage;
  tls = tls;
  ports = none;
  raft = none;
  transactions = none;
  workers = none;
  log_level = "";
  extra_args = [];
  pod_annotations = [];
  pod_labels = [];
  pod_disruption_budget = none;
}

abbrev pub new_status : Status
new_status = record {
  observed_generation = 0;
  phase = bootstrapping;
  replicas = 0;
  ready_replicas = 0;
  voters = 0;
  learners = 0;
  membership_version = 0;
  members = [];
  bootstrapped = false;
  bootstrap_size = 3;
  current_image = "";
  update_partition = none;
  autoscaling = none;
  backup = none;
  conditions = [];
}

abbrev pub three : Cluster
three = record {
  name = "kahuna";
  namespace = "data";
  generation = 1;
  spec = spec;
  status = new_status;
}

abbrev pub pod : ℕ → Pod
pod i = record {
  name = pod_name three i;
  uid = decimal i;
  pod_ip = "10.0.0." <> decimal i;
  deleting = false;
  conditions = record { kind = "Ready"; status = "True" } ∷ [];
  annotations = [];
  containers = [];
}

abbrev pub pods : List Pod
pods = map pod (range 4)

abbrev replica : ℕ → ReplicaPlacement
replica i = record { endpoint = raft_endpoint three i; role = role_voter }

abbrev partition : ℕ → PartitionPlacement
partition id = record {
  partition_id = id;
  state = partition_state_active;
  effective_replication_factor = 3;
  replicas = map replica (range 3);
}

-- Two partitions, each on the first three nodes.
abbrev pub spread : Placement
spread = record {
  replication_factor = 3;
  rebalancer_enabled = true;
  initialized = true;
  partitions = map partition (1 ∷ 2 ∷ []);
}

abbrev committed : LeaveResult
committed = record {
  left = true;
  outcome = outcome_committed;
  membership_version = 5;
  retryable = false;
  reason = "";
}

abbrev pub info : BackupInfo
info = record {
  backup_id = "b1";
  kind = "Full";
  parent_backup_id = "";
  cluster_id = "kahuna";
  coordinator_node = "";
  actual_kind = "";
  substitution_reason = "";
}

-- Every node gives this roster, leaves when it is asked to, and takes a backup.
abbrev pub client : Membership → Client ℕ
client m = record {
  membership = λ url. ok m;
  health = λ url. err (other "health");
  leave = λ url. ok committed;
  placement = λ url. ok spread;
  metrics = λ url. err (other "metrics");
  take_coordinated_backup = λ url. ok info;
  take_incremental_backup = λ url parent. ok info;
}

-- Backups by a schedule on a volume of the operator's, without a limit on chains.
abbrev pub nightly : BackupSpec
nightly = record {
  schedule = "@daily";
  incremental_schedule = "";
  suspend = none;
  timeout = none;
  volume = record { claim_name = none; claim = some volume };
  cluster_id = "";
  mac_key_secret_ref = none;
  retention = none;
}
