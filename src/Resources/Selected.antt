-- ===== src/Resources/Selected.antt =====
-- The selectors against the labels of the pods (internal/controller/resources.go and naming.go).
use kahuna_k8s_operator.Common.{◌≡◌, ◌≢◌, refl, String, some, string_dec, [], ◌∷◌, arith}
use kahuna_k8s_operator.Common.Dict.{Dict, lookup, insert, copy, lookup-insert}
use kahuna_k8s_operator.Api.{Cluster}
use kahuna_k8s_operator.Naming.{selector_labels, pod_labels}
use kahuna_k8s_operator.Resources.{desired_client_service, desired_peer_service, desired_pdb}
use kahuna_k8s_operator.Resources.Workload.{desired_stateful_set}

lookup-copy_two :
    (dst : Dict String String) (a v b w k u : String)
    → a ≢ b
    → lookup string_dec k ((a, v) ∷ (b, w) ∷ []) ≡ some u
    → lookup string_dec k (copy string_dec dst ((a, v) ∷ (b, w) ∷ [])) ≡ some u
unfolding copy lookup
lookup-copy_two dst a v b w k u differ h = ground (
  arith,
  lookup-insert string_dec k a v dst,
  lookup-insert string_dec k b w (insert string_dec a v dst),
)

differing : ◌≢◌ {A = String} "app.kubernetes.io/name" "app.kubernetes.io/instance"
differing e = cc

lookup-pod_labels :
    (cluster : Cluster) (k v : String)
    → lookup string_dec k (selector_labels cluster) ≡ some v
    → lookup string_dec k (pod_labels cluster) ≡ some v
unfolding pod_labels selector_labels
lookup-pod_labels cluster k v h =
    lookup-copy_two _ "app.kubernetes.io/name" "kahuna" "app.kubernetes.io/instance" cluster.name k
      v differing h

-- Whatever labels the user adds, the pods of the StatefulSet carry each label that the client
-- Service selects by; the other Service, the disruption budget and the StatefulSet select by the same.
pub selectors_match :
    (config_hash : String → String) (cluster : Cluster) (k v : String)
    → lookup string_dec k (desired_client_service cluster).selector ≡ some v
    → (lookup string_dec k (desired_stateful_set config_hash cluster 0).template.labels ≡ some v)
      × ((desired_peer_service cluster).selector ≡ (desired_client_service cluster).selector)
      × ((desired_pdb cluster).selector ≡ (desired_client_service cluster).selector)
      × ((desired_stateful_set config_hash cluster 0).selector
          ≡ (desired_client_service cluster).selector)
unfolding desired_client_service desired_peer_service desired_pdb desired_stateful_set
selectors_match config_hash cluster k v h = (lookup-pod_labels cluster k v h, refl, refl, refl)
