-- ===== src/Naming.antt =====
-- Names, ports and sizes derived from a cluster (internal/controller/naming.go).
pub mod Laws
use kahuna_k8s_operator.Common.{
  ℕ, ◌+◌, String, ◌<>◌, Bool, true, false, Option, none, some, List, [], ◌∷◌, ◌&&◌, min, max, ltb,
  ◌==◌, str_eq, string_dec, if◌then◌else◌,
}
use kahuna_k8s_operator.Common.Decimal.{decimal}
use kahuna_k8s_operator.Common.Dict.{Dict, copy}
use kahuna_k8s_operator.Api.{Cluster, PortsSpec, AutoscalingSpec, BackupSpec}

abbrev pub container_name : String
container_name = "kahuna"

abbrev app_name : String
app_name = "kahuna"

abbrev pub config_hash_annotation : String
config_hash_annotation = "kahuna.kahunakv.io/config-hash"

abbrev pub storage_mount_path : String
storage_mount_path = "/storage"

abbrev pub data_path : String
data_path = "/storage/data"

abbrev pub wal_path : String
wal_path = "/storage/wal"

abbrev pub tls_mount_path : String
tls_mount_path = "/etc/kahuna/tls"

abbrev pub backup_mount_path : String
backup_mount_path = "/backup"

abbrev pub backup_mac_mount_path : String
backup_mac_mount_path = "/etc/kahuna/backup-mac"

abbrev pub backup_mac_file_name : String
backup_mac_file_name = "key"

abbrev pub backup_mac_key_path : String
backup_mac_key_path = "/etc/kahuna/backup-mac/key"

abbrev pub config_mount_path : String
config_mount_path = "/etc/kahuna"

abbrev pub tls_password_mount_path : String
tls_password_mount_path = "/etc/kahuna/tls-password"

abbrev pub entrypoint_file_name : String
entrypoint_file_name = "entrypoint.sh"

abbrev pub entrypoint_path : String
entrypoint_path = "/etc/kahuna/entrypoint.sh"

abbrev pub topology_file_name : String
topology_file_name = "topology.env"

abbrev pub topology_path : String
topology_path = "/etc/kahuna/topology.env"

abbrev pub data_volume_name : String
data_volume_name = "data"

abbrev pub wal_volume_name : String
wal_volume_name = "wal"

abbrev pub config_volume_name : String
config_volume_name = "config"

abbrev pub tls_volume_name : String
tls_volume_name = "tls"

abbrev pub tls_password_volume_name : String
tls_password_volume_name = "tls-password"

abbrev pub backup_volume_name : String
backup_volume_name = "backup"

abbrev pub backup_mac_volume_name : String
backup_mac_volume_name = "backup-mac"

abbrev pub port_name_http : String
port_name_http = "http"

abbrev pub port_name_https : String
port_name_https = "https"

unfoldable pub sts_name : Cluster → String
sts_name cluster = cluster.name

unfoldable pub peer_service_name : Cluster → String
peer_service_name cluster = cluster.name <> "-peer"

unfoldable pub client_service_name : Cluster → String
client_service_name cluster = cluster.name

unfoldable pub config_map_name : Cluster → String
config_map_name cluster = cluster.name <> "-config"

unfoldable pub pdb_name : Cluster → String
pdb_name cluster = cluster.name

unfoldable pub certificate_name : Cluster → String
certificate_name cluster = cluster.name <> "-tls"

-- `spec.backup` is dereferenced by its callers only after a nil check, so it is an argument.
unfoldable pub backup_claim_name : Cluster → BackupSpec → String
backup_claim_name cluster b = elim b.volume.claim_name [
  | some name ↦ name
  | none ↦ cluster.name <> "-backup"
]

unfoldable pub backup_mac_secret_name : Cluster → String
backup_mac_secret_name cluster = cluster.name <> "-backup-mac"

unfoldable pub backup_path : Cluster → String
backup_path cluster = backup_mount_path <> ("/" <> cluster.name)

unfoldable pub backup_cluster_id : Cluster → BackupSpec → String
backup_cluster_id cluster b =
    if str_eq b.cluster_id "" then cluster.namespace <> ("/" <> cluster.name) else b.cluster_id

unfoldable pub pod_name : Cluster → ℕ → String
unfolding sts_name
pod_name cluster ordinal = sts_name cluster <> ("-" <> decimal ordinal)

unfoldable pub peer_domain : Cluster → String
unfolding peer_service_name
peer_domain cluster =
    peer_service_name cluster <> ("." <> (cluster.namespace <> ".svc.cluster.local"))

unfoldable pub pod_fqdn : Cluster → ℕ → String
unfolding pod_name peer_domain
pod_fqdn cluster ordinal = pod_name cluster ordinal <> ("." <> peer_domain cluster)

-- A port that is set, or its default.
abbrev or_port : ℕ → ℕ → ℕ
or_port given default = if given == 0 then default else given

unfoldable pub ports : Cluster → PortsSpec
ports cluster = elim cluster.spec.ports [
  | none ↦ record { http = 2070; https = 2071; internal_http = 8081; raft = 8082 }
  | some p ↦ record {
    http = or_port p.http 2070;
    https = or_port p.https 2071;
    internal_http = or_port p.internal_http 8081;
    raft = or_port p.raft 8082;
  }
]

unfoldable pub raft_endpoint : Cluster → ℕ → String
unfolding pod_fqdn
raft_endpoint cluster ordinal = pod_fqdn cluster ordinal <> (":" <> decimal (ports cluster).raft)

unfoldable pub node_id_for_ordinal : ℕ → ℕ
node_id_for_ordinal ordinal = ordinal + 1

unfoldable pub selector_labels : Cluster → Dict String String
selector_labels cluster =
    ("app.kubernetes.io/name", app_name) ∷ ("app.kubernetes.io/instance", cluster.name) ∷ []

unfoldable pub pod_labels : Cluster → Dict String String
unfolding selector_labels
pod_labels cluster =
    copy string_dec
      (copy string_dec
        (("app.kubernetes.io/component", "server")
          ∷ ("app.kubernetes.io/managed-by", "kahuna-operator")
          ∷ [])
        cluster.spec.pod_labels)
      (selector_labels cluster)

unfoldable pub spec_replicas : Cluster → ℕ
spec_replicas cluster = elim cluster.spec.replicas [ none ↦ 3 | some n ↦ n ]

-- The callers hand over `spec.autoscaling`, which they have found not to be nil.
unfoldable pub initial_autoscaled_replicas : Cluster → AutoscalingSpec → ℕ
unfolding spec_replicas
initial_autoscaled_replicas cluster a =
    min (max (spec_replicas cluster) a.min_replicas) a.max_replicas

unfoldable pub desired_replicas : Cluster → ℕ
unfolding initial_autoscaled_replicas
desired_replicas cluster = elim cluster.spec.autoscaling [
  | none ↦ spec_replicas cluster
  | some spec ↦ elim cluster.status.autoscaling [
    | none ↦ initial_autoscaled_replicas cluster spec
    | some a ↦
        if ltb 0 a.desired_replicas
        then a.desired_replicas
        else initial_autoscaled_replicas cluster spec
  ]
]

unfoldable pub single_node : Cluster → Bool
unfolding spec_replicas
single_node cluster = elim cluster.spec.autoscaling [
  | some a ↦ false
  | none ↦ spec_replicas cluster == 1
]
