-- ===== src/Resources/Mounts.antt =====
-- The mounts of the container against the volumes of the pod (internal/controller/resources.go,
-- `podVolumes`, `podVolumeMounts`, `desiredStatefulSet`).
use kahuna_k8s_operator.Common.{
  ◌≡◌, refl, String, true, Option, none, some, List, ◌++◌, contains, all, string_dec, map,
}
use kahuna_k8s_operator.Api.{Cluster, VolumeSpec, BackupSpec, SecretKeySelector}
use kahuna_k8s_operator.Certificate.{tls_password_ref}
use kahuna_k8s_operator.Resources.{volumes_of, mounts_of, pod_volumes, pod_volume_mounts}
use kahuna_k8s_operator.Resources.Workload.{claims_of, desired_stateful_set, StatefulSetObject}

abbrev pub mounted : StatefulSetObject → List String
mounted sts = map (λ m. m.name) sts.template.mounts

-- The volumes of the pod and the claims of the StatefulSet, by name.
abbrev pub available : StatefulSetObject → List String
available sts = map (λ v. v.name) sts.template.volumes ++ map (λ c. c.0) sts.claims

abbrev mount_names : Option VolumeSpec → Option SecretKeySelector → Option BackupSpec → List String
mount_names wal pw b = map (λ m. m.name) (mounts_of wal pw b)

abbrev volume_names :
    Cluster → Option VolumeSpec → Option SecretKeySelector → Option BackupSpec → List String
volume_names cluster wal pw b =
    map (λ v. v.name) (volumes_of cluster pw b)
    ++ map (λ c. c.0) (claims_of cluster.spec.storage.data_volume wal)

match_by :
    (cluster : Cluster) (wal : Option VolumeSpec) (pw : Option SecretKeySelector)
    (b : Option BackupSpec)
    → (all (contains (volume_names cluster wal pw b)) (mount_names wal pw b) ≡ true)
      × (all (contains (mount_names wal pw b)) (volume_names cluster wal pw b) ≡ true)
unfolding string_dec
match_by cluster none none none = (refl, refl)
match_by cluster none none (some b) = (refl, refl)
match_by cluster none (some pw) none = (refl, refl)
match_by cluster none (some pw) (some b) = (refl, refl)
match_by cluster (some v) none none = (refl, refl)
match_by cluster (some v) none (some b) = (refl, refl)
match_by cluster (some v) (some pw) none = (refl, refl)
match_by cluster (some v) (some pw) (some b) = (refl, refl)

-- The container mounts exactly the volumes that the pod has: each mount names a volume or a claim of
-- the StatefulSet, and each of these is mounted.
pub mounts_match :
    (config_hash : String → String) (cluster : Cluster)
    → (all
          (contains (available (desired_stateful_set config_hash cluster 0)))
          (mounted (desired_stateful_set config_hash cluster 0))
        ≡ true)
      × (all
            (contains (mounted (desired_stateful_set config_hash cluster 0)))
            (available (desired_stateful_set config_hash cluster 0))
          ≡ true)
unfolding desired_stateful_set pod_volumes pod_volume_mounts
mounts_match config_hash cluster =
    match_by cluster cluster.spec.storage.wal (tls_password_ref cluster) cluster.spec.backup
