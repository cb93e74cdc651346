-- ===== src/Kahuna/Client.antt =====
-- The `Client` interface (internal/kahuna/client.go). One value stands for what the nodes answer
-- during one pass, by base URL; the context's deadline is part of what the node answers.
use kahuna_k8s_operator.Common.{String}
use kahuna_k8s_operator.Kahuna.Errors.{Result}
use kahuna_k8s_operator.Kahuna.{Membership, Health, LeaveResult, Placement, Metrics, BackupInfo}

pub record Client (F : Type 0) : Type 0 where
  pub membership : String → Result Membership
  pub health : String → Result Health
  pub leave : String → Result LeaveResult
  pub placement : String → Result Placement
  pub metrics : String → Result (Metrics F)
  pub take_coordinated_backup : String → Result BackupInfo
  pub take_incremental_backup : String → String → Result BackupInfo
