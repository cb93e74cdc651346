-- ===== src/Api.antt =====
-- The KahunaCluster resource (api/v1alpha1/kahunacluster_types.go) and the pods that the operator
-- reads. An int32 that the CRD keeps at or above 0 is a number, a `*T` is an `Option`, a
-- `metav1.Time` and a `time.Duration` are counted in nanoseconds.
mod SpecTypes
mod StatusTypes
mod PodTypes
pub use SpecTypes.*
pub use StatusTypes.*
pub use PodTypes.*
use kahuna_k8s_operator.Common.{ℕ, String}

pub record Cluster : Type 0 where
  pub name : String
  pub namespace : String
  pub generation : ℕ
  pub spec : Spec
  pub status : Status
