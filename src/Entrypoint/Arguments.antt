-- ===== src/Entrypoint/Arguments.antt =====
-- The arguments that are the same on every node (internal/controller/entrypoint.go, `staticArgs`),
-- built part by part in the order of the code.
use kahuna_k8s_operator.Common.{
  ℕ, ◌/◌, String, ◌<>◌, Bool, true, false, Option, none, some, List, [], ◌∷◌, ◌++◌, str_eq,
  if◌then◌else◌,
}
use kahuna_k8s_operator.Common.Decimal.{decimal}
use kahuna_k8s_operator.Api.{
  Cluster, StorageSpec, TlsSpec, ReplicationSpec, RaftSpec, TransactionsSpec, WorkersSpec,
  BackupSpec, BackupRetentionSpec, CertManagerSpec,
}
use kahuna_k8s_operator.Naming.{
  ports, tls_mount_path, data_path, wal_path, backup_path, backup_cluster_id, backup_mac_key_path,
}
use kahuna_k8s_operator.Entrypoint.{without_overridden}

abbrev rebalancer_concurrent_transfers : ℕ
rebalancer_concurrent_transfers = 4

abbrev rebalancer_moves_per_pass : ℕ
rebalancer_moves_per_pass = 8

abbrev cert_manager_keystore_key : String
cert_manager_keystore_key = "keystore.p12"

unfoldable pub flag_args : List String → String → Option ℕ → List String
flag_args args flag none = args
flag_args args flag (some v) = args ++ (flag ∷ decimal v ∷ [])

unfoldable pub bool_flag : List String → String → Option Bool → Bool → List String
bool_flag args flag none want = args
bool_flag args flag (some true) true = args ++ (flag ∷ [])
bool_flag args flag (some true) false = args
bool_flag args flag (some false) true = args
bool_flag args flag (some false) false = args ++ (flag ∷ [])

abbrev pub or_else : String → String → String
or_else given default = if str_eq given "" then default else given

abbrev key_for : TlsSpec → Option CertManagerSpec → String
key_for tls none = or_else tls.keystore_key "certificate.pfx"
key_for tls (some cm) = cert_manager_keystore_key

unfoldable pub keystore_key : Cluster → String
keystore_key cluster = key_for cluster.spec.tls cluster.spec.tls.cert_manager

unfoldable pub listener_args : Cluster → List String
unfolding keystore_key
listener_args cluster =
    let p = ports cluster in
    "--http-ports"
    ∷ decimal p.http
    ∷ decimal p.internal_http
    ∷ "--https-ports"
    ∷ decimal p.https
    ∷ decimal p.raft
    ∷ "--https-certificate"
    ∷ (tls_mount_path <> ("/" <> keystore_key cluster))
    ∷ "--allow-plaintext-listener"
    ∷ []

unfoldable pub storage_args : StorageSpec → List String → List String
unfolding flag_args bool_flag
storage_args s args =
    let args =
      args
      ++ ("--storage"
          ∷ or_else s.backend "rocksdb"
          ∷ "--storage-path"
          ∷ data_path
          ∷ "--storage-revision"
          ∷ or_else s.revision "v1"
          ∷ "--wal-storage"
          ∷ or_else s.wal_backend "rocksdb"
          ∷ "--wal-path"
          ∷ wal_path
          ∷ "--wal-revision"
          ∷ or_else s.wal_revision "v1"
          ∷ []) in
    let args = bool_flag args "--disable-wal-sync-writes" s.sync_writes false in
    let args = bool_flag args "--disable-rocksdb-direct-reads" s.direct_reads false in
    let args = bool_flag args "--rocksdb-shared-memory" s.shared_memory true in
    let args = flag_args args "--rocksdb-shared-memory-budget-mb" s.shared_memory_budget_mb in
    flag_args args "--rocksdb-shared-memtable-budget-mb" s.shared_memtable_budget_mb

abbrev pub partitions_of : Option ℕ → ℕ
partitions_of none = 3
partitions_of (some n) = n

unfoldable pub partition_args : Cluster → List String → List String
unfolding bool_flag
partition_args cluster args =
    bool_flag
      (args
        ++ ("--initial-cluster-partitions" ∷ decimal (partitions_of cluster.spec.partitions) ∷ []))
      "--raft-allow-insecure-certificate-validation" cluster.spec.tls.insecure_skip_verify true

unfoldable pub replication_args : Option ReplicationSpec → List String → List String
replication_args none args = args
replication_args (some rep) args =
    args
    ++ ("--raft-replication-factor"
        ∷ decimal rep.factor
        ∷ "--raft-enable-placement-rebalancer"
        ∷ "--raft-max-concurrent-replica-transfers"
        ∷ decimal rebalancer_concurrent_transfers
        ∷ "--raft-max-replica-moves-per-pass"
        ∷ decimal rebalancer_moves_per_pass
        ∷ "--raft-replica-count-deadband"
        ∷ "0"
        ∷ [])

unfoldable pub raft_args : Option RaftSpec → List String → List String
unfolding flag_args bool_flag
raft_args none args = args
raft_args (some r) args =
    let args = flag_args args "--raft-heartbeat-interval" r.heartbeat_interval_ms in
    let args = flag_args args "--raft-voting-timeout" r.voting_timeout_ms in
    let args = flag_args args "--raft-start-election-timeout" r.start_election_timeout_ms in
    let args = flag_args args "--raft-end-election-timeout" r.end_election_timeout_ms in
    let args = bool_flag args "--raft-enable-check-quorum" r.enable_check_quorum true in
    let args = flag_args args "--raft-gossip-interval" r.gossip_interval_ms in
    let args = flag_args args "--raft-gossip-fanout" r.gossip_fanout in
    let args = flag_args args "--raft-ping-timeout" r.ping_timeout_ms in
    let args = flag_args args "--raft-indirect-ping-fanout" r.indirect_ping_fanout in
    let args = flag_args args "--raft-suspicion-timeout" r.suspicion_timeout_ms in
    let args = flag_args args "--raft-dead-member-eviction-grace" r.dead_member_eviction_grace_ms in
    let args = flag_args args "--raft-backfill-threshold" r.backfill_threshold in
    let args =
      flag_args args "--raft-max-backfill-entries-per-round" r.max_backfill_entries_per_round in
    let args = flag_args args "--raft-learner-promotion-lag" r.learner_promotion_lag in
    flag_args args "--raft-learner-promotion-stable-window" r.learner_promotion_stable_window_ms

unfoldable pub transaction_args : Option TransactionsSpec → List String → List String
unfolding flag_args
transaction_args none args = args
transaction_args (some t) args =
    let args = flag_args args "--default-transaction-timeout" t.default_timeout_ms in
    let args = flag_args args "--default-admission-wait" t.default_admission_wait_ms in
    let args = flag_args args "--max-admission-wait" t.max_admission_wait_ms in
    let args = flag_args args "--max-concurrent-transactions" t.max_concurrent_transactions in
    flag_args args "--max-concurrent-sessions" t.max_concurrent_sessions

unfoldable pub worker_args : Option WorkersSpec → List String → List String
unfolding flag_args
worker_args none args = args
worker_args (some w) args =
    let args = flag_args args "--locks-workers" w.locks in
    let args = flag_args args "--keyvalue-workers" w.key_value in
    let args = flag_args args "--sequencer-workers" w.sequencer in
    flag_args args "--background-writer-workers" w.background_writer

-- A duration in whole seconds.
abbrev pub in_seconds : Option ℕ → Option ℕ
in_seconds none = none
in_seconds (some d) = some (d / 1_000_000_000)

unfoldable pub retention_args : Option BackupRetentionSpec → List String → List String
unfolding flag_args
retention_args none args = args
retention_args (some r) args =
    let args = flag_args args "--backup-retention-max-chains" r.max_chains in
    let args = flag_args args "--backup-retention-max-age" (in_seconds r.max_age) in
    flag_args args "--backup-retention-max-bytes" r.max_bytes

unfoldable pub backup_args : Cluster → Option BackupSpec → List String → List String
unfolding retention_args
backup_args cluster none args = args
backup_args cluster (some b) args = retention_args b.retention (
    args
    ++ ("--pitr-backup-dir"
        ∷ backup_path cluster
        ∷ "--pitr-backup-cluster-id"
        ∷ backup_cluster_id cluster b
        ∷ "--pitr-backup-mac-key-file"
        ∷ backup_mac_key_path
        ∷ "--backup-gc-interval"
        ∷ "0"
        ∷ []))

-- What the operator gives on its own.
unfoldable pub generated_args : Cluster → List String
unfolding listener_args storage_args partition_args replication_args raft_args transaction_args
    worker_args backup_args
generated_args cluster = backup_args cluster cluster.spec.backup (
    worker_args cluster.spec.workers (
      transaction_args cluster.spec.transactions (
        raft_args cluster.spec.raft (
          replication_args cluster.spec.replication
            (partition_args cluster (storage_args cluster.spec.storage (listener_args cluster)))))))

unfoldable pub static_args : Cluster → List String
unfolding generated_args
static_args cluster =
    without_overridden (generated_args cluster) cluster.spec.extra_args ++ cluster.spec.extra_args
