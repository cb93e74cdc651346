-- ===== src/Kahuna/Errors.antt =====
-- Errors as the operator tells them apart: the sentinel `ErrPlacementUnsupported`, the typed
-- refusal `BackupError` (internal/kahuna/client.go), `unclaimedBackupError`
-- (internal/controller/backup.go), a wrap by `%w`, and any other error by its text.
use kahuna_k8s_operator.Common.{
  ℕ, ◌≡◌, refl, ◌⊎◌, inl, inr, String, ◌<>◌, Bool, true, false, Option, none, some, List, str_eq,
  join, contains, [], ◌∷◌, if◌then◌else◌,
}
use kahuna_k8s_operator.Common.Decimal.{decimal}

pub record BackupError : Type 0 where
  pub status_code : ℕ
  pub outcome : String
  pub detail : String

pub data Error : Type 0 where
  placement_unsupported : Error
  refused : BackupError → Error
  unclaimed : List String → Error
  wrapped : String → Error → Error
  other : String → Error

pub data Result (A : Type 0) : Type 0 where
  ok : A → Result A
  err : Error → Result A

unfoldable backup_error_text : BackupError → String
backup_error_text e =
    if str_eq e.detail ""
    then "backup refused with HTTP " <> (decimal e.status_code <> (" (" <> (e.outcome <> ")")))
    else "backup refused with HTTP "
      <> (decimal e.status_code <> (" (" <> (e.outcome <> ("): " <> e.detail))))

abbrev pub is_ok : {A : Type 0} → Result A → Bool
is_ok (ok a) = true
is_ok (err e) = false

pub Result-cases :
    {A : Type 0} (r : Result A) → ((a : A) × (r ≡ ok a)) ⊎ ((e : Error) × (r ≡ err e))
Result-cases (ok a) = inl (a, refl)
Result-cases (err e) = inr (e, refl)

-- `err.Error()`
unfoldable pub error_text : Error → String
unfolding backup_error_text join
error_text placement_unsupported = "the server does not support replica placement"
error_text (refused e) = backup_error_text e
error_text (unclaimed refusals) = "no node took the backup: " <> join "; " refusals
error_text (wrapped context e) = context <> (": " <> error_text e)
error_text (other text) = text

-- `errors.As(err, &be)` for `*BackupError`
unfoldable pub as_backup_error : Error → Option BackupError
as_backup_error (refused e) = some e
as_backup_error (wrapped context e) = as_backup_error e
as_backup_error placement_unsupported = none
as_backup_error (unclaimed refusals) = none
as_backup_error (other text) = none

-- `errors.As(err, &unclaimed)` for `*unclaimedBackupError`
unfoldable pub is_unclaimed : Error → Bool
is_unclaimed (unclaimed refusals) = true
is_unclaimed (wrapped context e) = is_unclaimed e
is_unclaimed placement_unsupported = false
is_unclaimed (refused e) = false
is_unclaimed (other text) = false

-- `errors.Is(err, kahuna.ErrPlacementUnsupported)`
unfoldable pub is_placement_unsupported : Error → Bool
is_placement_unsupported placement_unsupported = true
is_placement_unsupported (wrapped context e) = is_placement_unsupported e
is_placement_unsupported (refused e) = false
is_placement_unsupported (unclaimed refusals) = false
is_placement_unsupported (other text) = false

abbrev pub not_backup_coordinator : String
not_backup_coordinator = "NotBackupCoordinator"

abbrev retryable_leadership_loss : String
retryable_leadership_loss = "RetryableLeadershipLoss"

abbrev cut_unverified : String
cut_unverified = "CutUnverified"

abbrev not_configured : String
not_configured = "NotConfigured"

abbrev pub parent_missing : String
parent_missing = "ParentMissing"

abbrev topology_changed : String
topology_changed = "TopologyChanged"

abbrev partition_capture_failed : String
partition_capture_failed = "PartitionCaptureFailed"

unfoldable pub try_another_node : BackupError → Bool
try_another_node e =
    contains
      (not_backup_coordinator ∷ retryable_leadership_loss ∷ cut_unverified ∷ not_configured
        ∷ topology_changed ∷ partition_capture_failed ∷ [])
      e.outcome

unfoldable pub clears_on_retry : BackupError → Bool
clears_on_retry e =
    contains
      (not_backup_coordinator ∷ retryable_leadership_loss ∷ cut_unverified ∷ topology_changed
        ∷ partition_capture_failed ∷ [])
      e.outcome
