-- ===== src/Naming/Laws.antt =====
-- Names identify nodes (internal/controller/naming.go).
use kahuna_k8s_operator.Common.{ℕ, ◌≡◌, ◌≢◌}
use kahuna_k8s_operator.Common.Decimal.{decimal_inj}
use kahuna_k8s_operator.Api.{Cluster}
use kahuna_k8s_operator.Naming.{pod_name, raft_endpoint}
use text.Mathlib.TextLemmas.{append_cancel_left, append_cancel_right}

-- Two ordinals never share a pod name.
pod_name_inj : (cluster : Cluster) (i j : ℕ) → pod_name cluster i ≡ pod_name cluster j → i ≡ j
unfolding pod_name
pod_name_inj cluster i j e =
    decimal_inj i j (append_cancel_left "-" _ _ (append_cancel_left cluster.name _ _ e))

pub raft_endpoint_inj :
    (cluster : Cluster) (i j : ℕ) → raft_endpoint cluster i ≡ raft_endpoint cluster j → i ≡ j
unfolding raft_endpoint
raft_endpoint_inj cluster i j e =
    pod_name_inj cluster i j (append_cancel_right _ _ _ (append_cancel_right _ _ _ e))

-- Two ordinals never share a Raft endpoint.
pub raft_endpoint_distinct :
    (cluster : Cluster) (i j : ℕ) → i ≢ j → raft_endpoint cluster i ≢ raft_endpoint cluster j
raft_endpoint_distinct cluster i j differ e = differ (raft_endpoint_inj cluster i j e)
