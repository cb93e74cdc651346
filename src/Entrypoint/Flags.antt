-- ===== src/Entrypoint/Flags.antt =====
-- The flags that the operator may give on its own, each at most once
-- (internal/controller/entrypoint.go, `staticArgs`).
use kahuna_k8s_operator.Common.{
  string_dec, ◌≡◌, refl, String, ◌<>◌, Option, none, some, List, [], ◌∷◌, ◌++◌, false, true, arith,
}
use kahuna_k8s_operator.Api.{
  Cluster, BackupSpec, RaftSpec, TransactionsSpec, WorkersSpec, ReplicationSpec,
  BackupRetentionSpec,
}
use kahuna_k8s_operator.Entrypoint.{flag_name, before_equals, overridden}
use kahuna_k8s_operator.Entrypoint.Arguments.{
  listener_args, storage_args, partition_args, replication_args, raft_args, transaction_args,
  worker_args, retention_args, backup_args, generated_args, in_seconds, keystore_key,
}
use kahuna_k8s_operator.Naming.{backup_path}
use kahuna_k8s_operator.Entrypoint.Distinct.{
  Within, HasPlainValues, flag_args-Within, bool_flag-Within, added-Within, Gives, done, flag,
  value, flag_name-append, flag_name-decimal, distinct,
}

abbrev listener_flags : List String
listener_flags =
    "--http-ports" ∷ "--https-ports" ∷ "--https-certificate" ∷ "--allow-plaintext-listener" ∷ []

listener_args-Gives : (cluster : Cluster) → Gives (listener_args cluster) listener_flags
unfolding listener_args flag_name before_equals
listener_args-Gives cluster = flag refl (
    value (flag_name-decimal _) (
      value (flag_name-decimal _) (
        flag refl (
          value (flag_name-decimal _) (
            value (flag_name-decimal _) (
              flag refl (
                value
                  (flag_name-append "/" "e" "tc/kahuna/tls" ("/" <> keystore_key cluster)
                    (omega arith))
                  (flag refl done))))))))

abbrev storage_options : List String
storage_options =
    "--storage" ∷ "--storage-path" ∷ "--storage-revision" ∷ "--wal-storage" ∷ "--wal-path"
    ∷ "--wal-revision" ∷ []

abbrev storage_flags : List String → List String
storage_flags table =
    "--rocksdb-shared-memtable-budget-mb"
    ∷ "--rocksdb-shared-memory-budget-mb"
    ∷ "--rocksdb-shared-memory"
    ∷ "--disable-rocksdb-direct-reads"
    ∷ "--disable-wal-sync-writes"
    ∷ (storage_options ++ table)

abbrev partition_flags : List String → List String
partition_flags table =
    "--raft-allow-insecure-certificate-validation" ∷ "--initial-cluster-partitions" ∷ table

abbrev replication_flags : List String → List String
replication_flags table =
    "--raft-replication-factor" ∷ "--raft-enable-placement-rebalancer"
    ∷ "--raft-max-concurrent-replica-transfers" ∷ "--raft-max-replica-moves-per-pass"
    ∷ "--raft-replica-count-deadband" ∷ table

abbrev raft_flags : List String → List String
raft_flags table =
    "--raft-learner-promotion-stable-window" ∷ "--raft-learner-promotion-lag"
    ∷ "--raft-max-backfill-entries-per-round" ∷ "--raft-backfill-threshold"
    ∷ "--raft-dead-member-eviction-grace" ∷ "--raft-suspicion-timeout"
    ∷ "--raft-indirect-ping-fanout" ∷ "--raft-ping-timeout" ∷ "--raft-gossip-fanout"
    ∷ "--raft-gossip-interval" ∷ "--raft-enable-check-quorum" ∷ "--raft-end-election-timeout"
    ∷ "--raft-start-election-timeout" ∷ "--raft-voting-timeout" ∷ "--raft-heartbeat-interval"
    ∷ table

abbrev transaction_flags : List String → List String
transaction_flags table =
    "--max-concurrent-sessions" ∷ "--max-concurrent-transactions" ∷ "--max-admission-wait"
    ∷ "--default-admission-wait" ∷ "--default-transaction-timeout" ∷ table

abbrev worker_flags : List String → List String
worker_flags table =
    "--background-writer-workers" ∷ "--sequencer-workers" ∷ "--keyvalue-workers" ∷ "--locks-workers"
    ∷ table

abbrev retention_flags : List String → List String
retention_flags table =
    "--backup-retention-max-bytes" ∷ "--backup-retention-max-age" ∷ "--backup-retention-max-chains"
    ∷ table

abbrev backup_options : List String
backup_options =
    "--pitr-backup-dir" ∷ "--pitr-backup-cluster-id" ∷ "--pitr-backup-mac-key-file"
    ∷ "--backup-gc-interval" ∷ []

abbrev backup_flags : List String → List String
backup_flags table = retention_flags (backup_options ++ table)

module _ {args table : List String} (within : Within args table) where
  storage_args-Within :
      (cluster : Cluster)
      → HasPlainValues cluster
      → Within (storage_args cluster.spec.storage args) (storage_flags table)
  unfolding storage_args flag_name before_equals
  storage_args-Within cluster plain =
      let s = cluster.spec.storage in
      let w = added-Within within _ storage_options (
        flag refl (
          value plain.backend (
            flag refl (
              value refl (
                flag refl (
                  value plain.revision (
                    flag refl (
                      value plain.wal_backend (
                        flag refl
                          (value refl (flag refl (value plain.wal_revision done)))))))))))) in
      let w = bool_flag-Within w "--disable-wal-sync-writes" refl s.sync_writes false in
      let w = bool_flag-Within w "--disable-rocksdb-direct-reads" refl s.direct_reads false in
      let w = bool_flag-Within w "--rocksdb-shared-memory" refl s.shared_memory true in
      let w =
        flag_args-Within w "--rocksdb-shared-memory-budget-mb" refl s.shared_memory_budget_mb in
      flag_args-Within w "--rocksdb-shared-memtable-budget-mb" refl s.shared_memtable_budget_mb

  partition_args-Within :
      (cluster : Cluster) → Within (partition_args cluster args) (partition_flags table)
  unfolding partition_args flag_name before_equals
  partition_args-Within cluster =
      bool_flag-Within
        (added-Within within _ ("--initial-cluster-partitions" ∷ [])
          (flag refl (value (flag_name-decimal _) done)))
        "--raft-allow-insecure-certificate-validation" refl cluster.spec.tls.insecure_skip_verify
        true

  replication_args-Within :
      (o : Option ReplicationSpec) → Within (replication_args o args) (replication_flags table)
  unfolding replication_args flag_name before_equals
  replication_args-Within none = record { bound = λ f. omega (arith, within.bound f) }
  replication_args-Within (some rep) = added-Within within _ (replication_flags []) (
      flag refl (
        value (flag_name-decimal _) (
          flag refl (
            flag refl (
              value (flag_name-decimal _)
                (flag refl (value (flag_name-decimal _) (flag refl (value refl done)))))))))

  raft_args-Within : (o : Option RaftSpec) → Within (raft_args o args) (raft_flags table)
  unfolding raft_args flag_name before_equals
  raft_args-Within none = record { bound = λ f. omega (arith, within.bound f) }
  raft_args-Within (some r) =
      let w = flag_args-Within within "--raft-heartbeat-interval" refl r.heartbeat_interval_ms in
      let w = flag_args-Within w "--raft-voting-timeout" refl r.voting_timeout_ms in
      let w = flag_args-Within w "--raft-start-election-timeout" refl r.start_election_timeout_ms in
      let w = flag_args-Within w "--raft-end-election-timeout" refl r.end_election_timeout_ms in
      let w = bool_flag-Within w "--raft-enable-check-quorum" refl r.enable_check_quorum true in
      let w = flag_args-Within w "--raft-gossip-interval" refl r.gossip_interval_ms in
      let w = flag_args-Within w "--raft-gossip-fanout" refl r.gossip_fanout in
      let w = flag_args-Within w "--raft-ping-timeout" refl r.ping_timeout_ms in
      let w = flag_args-Within w "--raft-indirect-ping-fanout" refl r.indirect_ping_fanout in
      let w = flag_args-Within w "--raft-suspicion-timeout" refl r.suspicion_timeout_ms in
      let w =
        flag_args-Within w "--raft-dead-member-eviction-grace" refl
          r.dead_member_eviction_grace_ms in
      let w = flag_args-Within w "--raft-backfill-threshold" refl r.backfill_threshold in
      let w =
        flag_args-Within w "--raft-max-backfill-entries-per-round" refl
          r.max_backfill_entries_per_round in
      let w = flag_args-Within w "--raft-learner-promotion-lag" refl r.learner_promotion_lag in
      flag_args-Within w "--raft-learner-promotion-stable-window" refl
        r.learner_promotion_stable_window_ms

  transaction_args-Within :
      (o : Option TransactionsSpec) → Within (transaction_args o args) (transaction_flags table)
  unfolding transaction_args flag_name before_equals
  transaction_args-Within none = record { bound = λ f. omega (arith, within.bound f) }
  transaction_args-Within (some t) =
      let w = flag_args-Within within "--default-transaction-timeout" refl t.default_timeout_ms in
      let w = flag_args-Within w "--default-admission-wait" refl t.default_admission_wait_ms in
      let w = flag_args-Within w "--max-admission-wait" refl t.max_admission_wait_ms in
      let w =
        flag_args-Within w "--max-concurrent-transactions" refl t.max_concurrent_transactions in
      flag_args-Within w "--max-concurrent-sessions" refl t.max_concurrent_sessions

  worker_args-Within : (o : Option WorkersSpec) → Within (worker_args o args) (worker_flags table)
  unfolding worker_args flag_name before_equals
  worker_args-Within none = record { bound = λ f. omega (arith, within.bound f) }
  worker_args-Within (some w) =
      let y = flag_args-Within within "--locks-workers" refl w.locks in
      let y = flag_args-Within y "--keyvalue-workers" refl w.key_value in
      let y = flag_args-Within y "--sequencer-workers" refl w.sequencer in
      flag_args-Within y "--background-writer-workers" refl w.background_writer

  retention_args-Within :
      (o : Option BackupRetentionSpec) → Within (retention_args o args) (retention_flags table)
  unfolding retention_args flag_name before_equals
  retention_args-Within none = record { bound = λ f. omega (arith, within.bound f) }
  retention_args-Within (some r) =
      let w = flag_args-Within within "--backup-retention-max-chains" refl r.max_chains in
      let w = flag_args-Within w "--backup-retention-max-age" refl (in_seconds r.max_age) in
      flag_args-Within w "--backup-retention-max-bytes" refl r.max_bytes

backup_args-Within :
    {args table : List String}
    → Within args table
    → (cluster : Cluster) → HasPlainValues cluster
    → (o : Option BackupSpec) → cluster.spec.backup ≡ o
    → Within (backup_args cluster o args) (backup_flags table)
unfolding backup_args backup_path flag_name before_equals
backup_args-Within within cluster plain none e = record {
  bound = λ f. omega (arith, within.bound f);
}
backup_args-Within within cluster plain (some b) e =
    retention_args-Within
      (added-Within within _ backup_options (
        flag refl (
          value (flag_name-append "/" "b" "ackup" ("/" <> cluster.name) (omega arith)) (
            flag refl (
              value (plain.cluster_id b e)
                (flag refl (value refl (flag refl (value refl done)))))))))
      b.retention

-- Every flag that the operator may give.
abbrev pub generated_flags : List String
generated_flags = backup_flags (
    worker_flags (
      transaction_flags
        (raft_flags (replication_flags (partition_flags (storage_flags (listener_flags ++ [])))))))

no_args : Within [] []
unfolding overridden
no_args = record { bound = λ f. omega arith }

pub generated_args-Within :
    (cluster : Cluster) → HasPlainValues cluster → Within (generated_args cluster) generated_flags
unfolding generated_args
generated_args-Within cluster plain =
    let w =
      added-Within no_args (listener_args cluster) listener_flags (listener_args-Gives cluster) in
    let w = storage_args-Within w cluster plain in
    let w = partition_args-Within w cluster in
    let w = replication_args-Within w cluster.spec.replication in
    let w = raft_args-Within w cluster.spec.raft in
    let w = transaction_args-Within w cluster.spec.transactions in
    let w = worker_args-Within w cluster.spec.workers in
    backup_args-Within w cluster plain cluster.spec.backup refl

pub generated_flags-distinct : distinct generated_flags ≡ true
unfolding distinct string_dec
generated_flags-distinct = refl
