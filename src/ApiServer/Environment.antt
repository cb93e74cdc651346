-- ===== src/ApiServer/Environment.antt =====
-- What a pass uses of the Kubernetes API beside `Objects`, and what it leaves: the answers that its
-- reads and writes get, and the writes in their order.
use kahuna_k8s_operator.Common.{ℕ, String, Bool, Option, List, [], ◌∷◌, ◌++◌}
use kahuna_k8s_operator.Api.{Status, Condition, Pod, BackupSpec}
use kahuna_k8s_operator.Kahuna.Errors.{Error, Result}
use kahuna_k8s_operator.ApiServer.{Objects, Reply}
use kahuna_k8s_operator.Certificate.{Secret, CertificateObject, Applied}
use kahuna_k8s_operator.Resources.{Service, ConfigMap, DisruptionBudget}
use kahuna_k8s_operator.Scaling.{Existing, StsAction}
use kahuna_k8s_operator.Reporting.{StatefulSet}
use kahuna_k8s_operator.Backup.{Schedule}
use kahuna_k8s_operator.Backup.Claims.{Claim}
use kahuna_k8s_operator.Backup.Volume.{BoundClaim, Event}

-- A write that a pass tries.
pub data Write : Type 0 where
  pin_size : ℕ → Write
  service : String → Write
  config_map : ConfigMap → Write
  make_pdb : DisruptionBudget → Write
  drop_pdb : Write
  stateful_set : StsAction → Write
  status : Status → Write

-- What the API server and the machinery around it do in a pass.
pub record Environment : Type 0 where
  pub write_status : Status → Option Error
  pub apply_certificate : CertificateObject → Applied
  -- `CreateOrUpdate` of the Service of this name, with what is made of the one that is there.
  pub apply_service : String → (Service → Service) → Option Error
  pub apply_config_map : ConfigMap → Option Error
  pub apply_pdb : DisruptionBudget → Option Error
  pub delete_pdb : Option Error
  pub set_owner : Secret → Result Secret
  pub random : Result String
  pub random_key : Result String
  pub list_pods : Result (List Pod)
  pub existing : Existing
  pub write_sts : StsAction → Result StatefulSet
  pub read_claim : BackupSpec → Reply BoundClaim
  pub claim_events : Result (List Event)
  pub parse_schedule : String → Result Schedule
  pub show_time : ℕ → String
  pub config_hash : String → String
  -- `refuses` is the PKCS#12 decoder's verdict on a password.
  pub refuses : String → String → Bool
  pub equal_status : Status → Status → Bool
  pub set_status_condition : List Condition → Condition → List Condition
  pub remove_status_condition : List Condition → String → List Condition

module _ (secrets : Objects Secret) (claims : Objects Claim) where
  pub record World : Type 0 where
    pub secret_state : secrets.State
    pub claim_state : claims.State
    pub writes : List Write

  abbrev pub wrote : World → Write → World
  wrote w write = record w { writes = w.writes ++ (write ∷ []) }
