-- ===== src/Api/PodTypes.antt =====
-- The fields of a `corev1.Pod` that the operator reads.
use kahuna_k8s_operator.Common.{String, Bool, List}
use kahuna_k8s_operator.Common.Dict.{Dict}

pub record PodCondition : Type 0 where
  pub kind : String
  pub status : String

pub record Container : Type 0 where
  pub name : String
  pub image : String

pub record Pod : Type 0 where
  pub name : String
  pub uid : String
  pub pod_ip : String
  pub deleting : Bool
  pub conditions : List PodCondition
  pub annotations : Dict String String
  pub containers : List Container
