-- ===== src/Resources/Template.antt =====
-- What a change of size leaves alone (internal/controller/resources.go, `desiredStatefulSet`, and
-- internal/controller/entrypoint.go).
use kahuna_k8s_operator.Common.{ℕ, ◌≡◌, refl, String, Option}
use kahuna_k8s_operator.Api.{Cluster, AutoscalingSpec, Status}
use kahuna_k8s_operator.Resources.Workload.{desired_stateful_set}
use kahuna_k8s_operator.Entrypoint.Script.{entrypoint_script}
use kahuna_k8s_operator.Entrypoint.Arguments.{keystore_key}
use kahuna_k8s_operator.Naming.{
  ports, backup_path, backup_cluster_id, peer_domain, sts_name, selector_labels, pod_labels,
  config_map_name, certificate_name, backup_claim_name, backup_mac_secret_name, peer_service_name,
}
use kahuna_k8s_operator.Certificate.{tls_secret_name, tls_password_ref}
use kahuna_k8s_operator.Resources.{pod_volumes, pod_volume_mounts}

-- The cluster at another size, by the spec or by the autoscaler.
abbrev pub resized : Cluster → Option ℕ → Option AutoscalingSpec → Status → Cluster
resized cluster replicas autoscaling status = record cluster {
  spec = record cluster.spec { replicas = replicas; autoscaling = autoscaling };
  status = status;
}

-- A change of the size, of the autoscaler or of the status changes neither the pod template of the
-- StatefulSet, and with it the hash of the script, nor its claims.
pub template_unscaled :
    (config_hash : String → String) (cluster : Cluster) (partition : ℕ) (replicas : Option ℕ)
    (autoscaling : Option AutoscalingSpec) (status : Status)
    → ((desired_stateful_set config_hash
          (resized cluster replicas autoscaling status)
          partition).template
        ≡ (desired_stateful_set config_hash cluster partition).template)
      × ((desired_stateful_set config_hash
            (resized cluster replicas autoscaling status)
            partition).claims
          ≡ (desired_stateful_set config_hash cluster partition).claims)
unfolding desired_stateful_set entrypoint_script ports backup_path backup_cluster_id keystore_key
    peer_domain sts_name selector_labels pod_labels config_map_name certificate_name tls_secret_name
    tls_password_ref backup_claim_name backup_mac_secret_name peer_service_name pod_volumes
    pod_volume_mounts
template_unscaled config_hash cluster partition replicas autoscaling status = (refl, refl)
