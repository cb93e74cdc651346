-- ===== src/Resources/Workload.antt =====
-- The StatefulSet with its pod template (internal/controller/resources.go, `desiredStatefulSet`).
use kahuna_k8s_operator.Common.{
  ℕ, String, Option, none, some, List, [], ◌∷◌, str_eq, string_dec, if◌then◌else◌,
}
use kahuna_k8s_operator.Common.Dict.{Dict, copy}
use kahuna_k8s_operator.Api.{Cluster, VolumeSpec}
use kahuna_k8s_operator.Naming.{
  pod_labels, ports, peer_service_name, selector_labels, sts_name, desired_replicas,
  entrypoint_path, config_hash_annotation, container_name, data_volume_name, wal_volume_name,
}
use kahuna_k8s_operator.Backup.Claims.{Claim}
use kahuna_k8s_operator.Entrypoint.Arguments.{or_else}
use kahuna_k8s_operator.Entrypoint.Script.{entrypoint_script}
use kahuna_k8s_operator.Resources.{
  ObjectMeta, object_meta, Port, all_ports, Volume, VolumeMount, pod_volumes, pod_volume_mounts,
  volume_claim,
}

-- Where the value of a variable comes from.
pub data EnvSource : Type 0 where
  literal field_path : String → EnvSource

unfoldable pub container_env : Cluster → List (String × EnvSource)
container_env cluster =
    let log_level = literal (or_else cluster.spec.log_level "Information") in
    ("POD_NAME", field_path "metadata.name")
    ∷ ("POD_NAMESPACE", field_path "metadata.namespace")
    ∷ ("Logging__LogLevel__Default", log_level)
    ∷ ("Logging__LogLevel__Kahuna", log_level)
    ∷ ("Logging__LogLevel__Kommander", log_level)
    ∷ ("DOTNET_SYSTEM_NET_SOCKETS_INLINE_COMPLETIONS", literal "1")
    ∷ []

-- An HTTP probe, its times in seconds.
pub record Probe : Type 0 where
  pub path : String
  pub port : ℕ
  pub initial_delay : ℕ
  pub period : ℕ
  pub timeout : ℕ
  pub failure_threshold : ℕ

pub record PodTemplate : Type 0 where
  pub labels : Dict String String
  pub annotations : Dict String String
  pub volumes : List Volume
  pub container : String
  pub image : String
  pub command : List String
  pub env : List (String × EnvSource)
  pub mounts : List VolumeMount
  pub container_ports : List Port
  pub liveness : Probe
  pub readiness : Probe

pub record StatefulSetObject : Type 0 where
  pub meta : ObjectMeta
  pub service_name : String
  pub replicas : ℕ
  pub selector : Dict String String
  pub pod_management_policy : String
  pub partition : ℕ
  pub when_scaled : String
  pub when_deleted : String
  pub claims : Dict String Claim
  pub template : PodTemplate

abbrev wal_claims : Option VolumeSpec → Dict String Claim
wal_claims none = []
wal_claims (some v) = (wal_volume_name, volume_claim v) ∷ []

abbrev pub claims_of : VolumeSpec → Option VolumeSpec → Dict String Claim
claims_of v wal = (data_volume_name, volume_claim v) ∷ wal_claims wal

unfoldable pub claim_templates : Cluster → Dict String Claim
claim_templates cluster = claims_of cluster.spec.storage.data_volume cluster.spec.storage.wal

module _ (config_hash : String → String) where
  unfoldable pub template_annotations : Cluster → Dict String String
  template_annotations cluster =
      copy string_dec ((config_hash_annotation, config_hash (entrypoint_script cluster)) ∷ [])
        cluster.spec.pod_annotations

  unfoldable pub pod_template : Cluster → PodTemplate
  unfolding template_annotations container_env
  pod_template cluster = record {
    labels = pod_labels cluster;
    annotations = template_annotations cluster;
    volumes = pod_volumes cluster;
    container = container_name;
    image = cluster.spec.image;
    command = "/bin/bash" ∷ entrypoint_path ∷ [];
    env = container_env cluster;
    mounts = pod_volume_mounts cluster;
    container_ports = all_ports cluster;
    liveness = record {
      path = "/";
      port = (ports cluster).http;
      initial_delay = 30;
      period = 10;
      timeout = 5;
      failure_threshold = 6;
    };
    readiness = record {
      path = "/v1/cluster/health";
      port = (ports cluster).http;
      initial_delay = 5;
      period = 5;
      timeout = 5;
      failure_threshold = 3;
    };
  }

  unfoldable pub desired_stateful_set : Cluster → ℕ → StatefulSetObject
  unfolding pod_template claim_templates
  desired_stateful_set cluster partition = record {
    meta = object_meta cluster (sts_name cluster);
    service_name = peer_service_name cluster;
    replicas = desired_replicas cluster;
    selector = selector_labels cluster;
    pod_management_policy = "Parallel";
    partition = partition;
    when_scaled =
        if str_eq cluster.spec.storage.pvc_retention_policy "Delete" then "Delete" else "Retain";
    when_deleted = "Retain";
    claims = claim_templates cluster;
    template = pod_template cluster;
  }
