-- ===== src/Backup/Run.antt =====
-- One backup sent to the nodes in turn (internal/controller/backup.go, `runBackup`). What a node
-- answers is the client's; `expired` says at which target the context has ended by the answer.
use kahuna_k8s_operator.Common.{
  String, ◌<>◌, Bool, true, false, ◌&&◌, Option, none, some, List, [], ◌∷◌, ◌++◌, join,
  if◌then◌else◌,
}
use kahuna_k8s_operator.Kahuna.{BackupInfo}
use kahuna_k8s_operator.Kahuna.Errors.{
  BackupError, Error, unclaimed, wrapped, other, Result, ok, err, error_text, as_backup_error,
  try_another_node, clears_on_retry,
}
use kahuna_k8s_operator.Kahuna.Client.{Client}
use kahuna_k8s_operator.Backup.{BackupKind, full}

pub record BackupTarget : Type 0 where
  pub pod : String
  pub url : String

-- What the loop does with one answer: it returns, or goes on with one more refusal, which clears
-- on retry or does not.
pub data Outcome : Type 0 where
  settles : Result BackupInfo → Outcome
  refuses : String → Bool → Outcome

abbrev refusal : BackupTarget → Error → String
refusal t e = t.pod <> (": " <> error_text e)

abbrev pub refused_by : BackupTarget → Error → Option BackupError → Outcome
refused_by t e none = refuses (refusal t e) false
refused_by t e (some be) =
    if try_another_node be
    then refuses (refusal t e) (clears_on_retry be)
    else settles (err (wrapped t.pod e))

abbrev pub outcome : Bool → BackupTarget → Result BackupInfo → Outcome
outcome expired t (ok info) = settles (ok info)
outcome true t (err e) =
    settles (err (wrapped (t.pod <> " did not finish the backup before the timeout") e))
outcome false t (err e) = refused_by t e (as_backup_error e)

-- After the loop.
unfoldable pub none_took : List String → Bool → Error
none_took [] clears = other "no ready node to send the backup to"
none_took (r ∷ rs) true = unclaimed (r ∷ rs)
none_took (r ∷ rs) false = other ("no node took the backup: " <> join "; " (r ∷ rs))

module _ {F : Type 0} (client : Client F) (expired : BackupTarget → Bool) (kind : BackupKind)
    (parent : String) where
  abbrev pub take_from : BackupTarget → Result BackupInfo
  take_from t = elim kind [
    | full ↦ client.take_coordinated_backup t.url
    | _ ↦ client.take_incremental_backup t.url parent
  ]

  unfoldable pub run_loop : List String → Bool → List BackupTarget → Result BackupInfo
  run_loop refusals clears [] = err (none_took refusals clears)
  run_loop refusals clears (t ∷ ts) = elim (outcome (expired t) t (take_from t)) [
    | settles r ↦ r
    | refuses text c ↦ run_loop (refusals ++ (text ∷ [])) (clears && c) ts
  ]

  unfoldable pub run_backup : List BackupTarget → Result BackupInfo
  unfolding run_loop none_took
  run_backup targets = run_loop [] true targets
