-- ===== src/Reporting/Images.antt =====
-- When the image counts as rolled out (internal/controller/kahunacluster_controller.go).
use kahuna_k8s_operator.Common.{
  ℕ, suc, ◌+◌, ◌<◌, ◌≡◌, ap, ◌↔◌, String, Bool, true, not, ◌||◌, none, some, List, [], ◌∷◌, all,
  count_if, if◌then◌else◌, arith,
}
use kahuna_k8s_operator.Api.{Cluster, Pod}
use kahuna_k8s_operator.Membership.{is_below}
use kahuna_k8s_operator.Scaling.{size_of}
use kahuna_k8s_operator.Reporting.{StatefulSet, runs_image, seen_running, image_rolled_out}

module _ (image : String) (replicas : ℕ) where
  abbrev ours : Pod → Bool
  ours p = is_below p replicas

  -- Every pod below the size runs the image.
  abbrev pub all_run : List Pod → Bool
  all_run = all (λ p. not (is_below p replicas) || runs_image image p)

  seen_running-all :
      (pods : List Pod) (seen : ℕ)
      → seen_running image replicas pods seen
        ≡ (if all_run pods then some (seen + count_if ours pods) else none)
  unfolding seen_running
  seen_running-all [] seen = ap some (omega arith)
  seen_running-all (p ∷ pods) seen =
      ground (arith, seen_running-all pods seen, seen_running-all pods (suc seen))

-- The image counts as rolled out exactly when the StatefulSet has at least one node, as many pods
-- exist below its size as it has nodes, and every one of these is ready, is not being deleted and
-- runs the cluster's image.
pub image_rolled_out_iff :
    (cluster : Cluster) (sts : StatefulSet) (pods : List Pod)
    → let replicas = size_of sts.spec_replicas in
      (image_rolled_out cluster sts pods ≡ true) ↔ (
        (0 < replicas)
        × (count_if (λ p. is_below p replicas) pods ≡ replicas)
        × (all_run cluster.spec.image replicas pods ≡ true))
unfolding image_rolled_out
image_rolled_out_iff cluster sts pods =
    rw (seen_running-all cluster.spec.image (size_of sts.spec_replicas) pods 0) (ground arith)
