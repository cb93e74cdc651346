-- ===== src/Resources.antt =====
-- The objects that the operator writes (internal/controller/resources.go). Fields of the spec that
-- are copied unread (scheduling, pull secrets, resources, security contexts) are left out, and so is
-- `defaultAffinity`, which is one of them or a constant. The digest of the script is a parameter.
pub mod Mounts
pub mod Template
pub mod Workload
pub mod Selected
use kahuna_k8s_operator.Common.{
  ℕ, String, ◌<>◌, Bool, true, false, Option, none, some, List, [], ◌∷◌, ◌++◌, leb, str_eq,
  string_dec, if◌then◌else◌,
}
use kahuna_k8s_operator.Common.Dict.{Dict, copy}
use kahuna_k8s_operator.Api.{Cluster, VolumeSpec, BackupSpec, SecretKeySelector}
use kahuna_k8s_operator.Naming.{
  pod_labels, ports, peer_service_name, client_service_name, selector_labels, config_map_name,
  pdb_name, sts_name, desired_replicas, single_node, backup_claim_name, backup_mac_secret_name,
  entrypoint_file_name, entrypoint_path, topology_file_name, config_hash_annotation, container_name,
  config_volume_name, tls_volume_name, tls_password_volume_name, data_volume_name, wal_volume_name,
  backup_volume_name, backup_mac_volume_name, backup_mac_file_name, storage_mount_path,
  config_mount_path, tls_mount_path, wal_path, tls_password_mount_path, backup_mount_path,
  backup_mac_mount_path, port_name_http, port_name_https,
}
use kahuna_k8s_operator.Entrypoint.Arguments.{or_else}
use kahuna_k8s_operator.Entrypoint.Script.{entrypoint_script, topology_env}
use kahuna_k8s_operator.Certificate.{tls_password_ref, tls_secret_name}
use kahuna_k8s_operator.Backup.Claims.{Claim}

pub record ObjectMeta : Type 0 where
  pub name : String
  pub namespace : String
  pub labels : Dict String String

unfoldable pub object_meta : Cluster → String → ObjectMeta
object_meta cluster name = record {
  name = name;
  namespace = cluster.namespace;
  labels = pod_labels cluster;
}

-- A port by name and number; each is TCP and targets its own number.
abbrev pub Port : Type 0
Port = String × ℕ

pub record Service : Type 0 where
  pub meta : ObjectMeta
  pub cluster_ip : String
  pub publish_not_ready_addresses : Bool
  pub selector : Dict String String
  pub ports : List Port

abbrev pub all_ports : Cluster → List Port
all_ports cluster =
    let p = ports cluster in
    (port_name_http, p.http)
    ∷ (port_name_https, p.https)
    ∷ ("internal-http", p.internal_http)
    ∷ ("raft", p.raft)
    ∷ []

unfoldable pub desired_peer_service : Cluster → Service
unfolding object_meta
desired_peer_service cluster = record {
  meta = object_meta cluster (peer_service_name cluster);
  cluster_ip = "None";
  publish_not_ready_addresses = true;
  selector = selector_labels cluster;
  ports = all_ports cluster;
}

unfoldable pub desired_client_service : Cluster → Service
unfolding object_meta
desired_client_service cluster = record {
  meta = object_meta cluster (client_service_name cluster);
  cluster_ip = "";
  publish_not_ready_addresses = false;
  selector = selector_labels cluster;
  ports = (port_name_http, (ports cluster).http) ∷ (port_name_https, (ports cluster).https) ∷ [];
}

pub record ConfigMap : Type 0 where
  pub meta : ObjectMeta
  pub entries : Dict String String

unfoldable pub desired_config_map : Cluster → ℕ → ConfigMap
unfolding object_meta
desired_config_map cluster bootstrap_size = record {
  meta = object_meta cluster (config_map_name cluster);
  entries =
      (entrypoint_file_name, entrypoint_script cluster)
      ∷ (topology_file_name, topology_env cluster bootstrap_size)
      ∷ [];
}

pub record DisruptionBudget : Type 0 where
  pub meta : ObjectMeta
  pub selector : Dict String String
  pub max_unavailable : ℕ

unfoldable pub desired_pdb : Cluster → DisruptionBudget
unfolding object_meta
desired_pdb cluster = record {
  meta = object_meta cluster (pdb_name cluster);
  selector = selector_labels cluster;
  max_unavailable = 1;
}

abbrev pdb_by : Cluster → Option Bool → Bool
pdb_by cluster none = leb 3 (desired_replicas cluster)
pdb_by cluster (some wanted) = wanted

unfoldable pub wants_pdb : Cluster → Bool
wants_pdb cluster = pdb_by cluster cluster.spec.pod_disruption_budget

abbrev pub or_modes : List String → List String → List String
or_modes [] default = default
or_modes (m ∷ ms) default = m ∷ ms

-- A claim template; what the API server fills in later is empty.
unfoldable pub volume_claim : VolumeSpec → Claim
volume_claim v = record {
  deleting = false;
  volume_name = "";
  phase = "";
  access_modes = or_modes v.access_modes ("ReadWriteOnce" ∷ []);
  storage_class_name = v.storage_class_name;
  storage = v.size;
}

-- The claim that the spec asks for, under `backup_claim_name`.
unfoldable pub desired_backup_claim : Cluster → VolumeSpec → Claim
unfolding volume_claim
desired_backup_claim cluster v = volume_claim (record v {
  access_modes =
      or_modes v.access_modes
        ((if single_node cluster then "ReadWriteOnce" else "ReadWriteMany") ∷ []);
})

pub data VolumeSource : Type 0 where
  from_config_map : String → VolumeSource
  -- The Secret, and the entries that are taken with the file of each; no entries take all.
  from_secret : String → Dict String String → VolumeSource
  from_claim : String → VolumeSource

pub record Volume : Type 0 where
  pub name : String
  pub source : VolumeSource

pub record VolumeMount : Type 0 where
  pub name : String
  pub mount_path : String
  pub read_only : Bool

abbrev pub backup_mac_key : String
backup_mac_key = "key"

-- `backupMACKeyRef` (internal/controller/backup.go)
unfoldable pub backup_mac_key_ref : Cluster → BackupSpec → SecretKeySelector
backup_mac_key_ref cluster b = elim b.mac_key_secret_ref [
  | some ref ↦ ref
  | none ↦ record { name = backup_mac_secret_name cluster; key = backup_mac_key }
]

abbrev pub password_volumes : Option SecretKeySelector → List Volume
password_volumes none = []
password_volumes (some pw) =
    record {
      name = tls_password_volume_name;
      source = from_secret pw.name ((pw.key, "password") ∷ []);
    }
    ∷ []

abbrev pub backup_volumes : Cluster → Option BackupSpec → List Volume
backup_volumes cluster none = []
backup_volumes cluster (some b) =
    let mac = backup_mac_key_ref cluster b in
    record { name = backup_volume_name; source = from_claim (backup_claim_name cluster b) }
    ∷ record {
      name = backup_mac_volume_name;
      source = from_secret mac.name ((mac.key, backup_mac_file_name) ∷ []);
    }
    ∷ []

abbrev pub volumes_of : Cluster → Option SecretKeySelector → Option BackupSpec → List Volume
volumes_of cluster pw b =
    record { name = config_volume_name; source = from_config_map (config_map_name cluster) }
    ∷ record { name = tls_volume_name; source = from_secret (tls_secret_name cluster) [] }
    ∷ (password_volumes pw ++ backup_volumes cluster b)

unfoldable pub pod_volumes : Cluster → List Volume
unfolding backup_mac_key_ref
pod_volumes cluster = volumes_of cluster (tls_password_ref cluster) cluster.spec.backup

abbrev pub mount : String → String → Bool → VolumeMount
mount name path read_only = record { name = name; mount_path = path; read_only = read_only }

abbrev pub wal_mounts : Option VolumeSpec → List VolumeMount
wal_mounts none = []
wal_mounts (some v) = mount wal_volume_name wal_path false ∷ []

abbrev pub password_mounts : Option SecretKeySelector → List VolumeMount
password_mounts none = []
password_mounts (some pw) = mount tls_password_volume_name tls_password_mount_path true ∷ []

abbrev pub backup_mounts : Option BackupSpec → List VolumeMount
backup_mounts none = []
backup_mounts (some b) =
    mount backup_volume_name backup_mount_path false
    ∷ mount backup_mac_volume_name backup_mac_mount_path true
    ∷ []

abbrev pub mounts_of :
    Option VolumeSpec → Option SecretKeySelector → Option BackupSpec → List VolumeMount
mounts_of wal pw b =
    mount data_volume_name storage_mount_path false
    ∷ mount config_volume_name config_mount_path false
    ∷ mount tls_volume_name tls_mount_path true
    ∷ (wal_mounts wal ++ (password_mounts pw ++ backup_mounts b))

unfoldable pub pod_volume_mounts : Cluster → List VolumeMount
pod_volume_mounts cluster =
    mounts_of cluster.spec.storage.wal (tls_password_ref cluster) cluster.spec.backup
