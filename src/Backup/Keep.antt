-- ===== src/Backup/Keep.antt =====
-- The claim and the signing key of the backups (internal/controller/backup.go,
-- `reconcileBackupResources`). The API server for claims and for Secrets and the random bytes are
-- parameters.
use kahuna_k8s_operator.Common.{String, Option, none, some, [], ◌∷◌, if◌then◌else◌}
use kahuna_k8s_operator.Api.{Cluster, BackupSpec, VolumeSpec, SecretKeySelector}
use kahuna_k8s_operator.Naming.{pod_labels, backup_claim_name, backup_mac_secret_name}
use kahuna_k8s_operator.Kahuna.Errors.{Error, Result, ok, err, wrapped}
use kahuna_k8s_operator.ApiServer.{
  Reply, found, missing, failed, Created, created, already_there, create_failed, Deleted, deleted,
  absent, conflicting, delete_failed, Objects,
}
use kahuna_k8s_operator.Certificate.{Secret}
use kahuna_k8s_operator.Resources.{desired_backup_claim, backup_mac_key}
use kahuna_k8s_operator.Backup.Claims.{Claim, claim_needs_replacing}

module _ (claims : Objects Claim) where
  open claims use {State, get, create, delete}

  abbrev pub claim_created : Created × State → Option Error × State
  claim_created (created, s) = (none, s)
  claim_created (already_there, s) = (none, s)
  claim_created (create_failed e, s) = (some (wrapped "creating backup claim" e), s)

  abbrev pub claim_deleted : Deleted × State → Option Error × State
  claim_deleted (deleted, s) = (none, s)
  claim_deleted (absent, s) = (none, s)
  claim_deleted (conflicting, s) = (none, s)
  claim_deleted (delete_failed e, s) = (some (wrapped "deleting unbound backup claim" e), s)

  abbrev pub claim_read : String → Claim → State → Reply Claim → Option Error × State
  claim_read name desired s missing = claim_created (create name desired s)
  claim_read name desired s (failed e) = (some e, s)
  claim_read name desired s (found existing) =
      if claim_needs_replacing existing desired
      then claim_deleted (delete name existing s)
      else (none, s)

  -- A claim that the spec names is not the operator's.
  abbrev pub claim_step : Cluster → BackupSpec → State → Option VolumeSpec → Option Error × State
  claim_step cluster b s none = (none, s)
  claim_step cluster b s (some v) =
      claim_read (backup_claim_name cluster b) (desired_backup_claim cluster v) s
        (get s (backup_claim_name cluster b))

module _ (secrets : Objects Secret) (random : Result String) (cluster : Cluster) where
  open secrets use {State, get, create}

  abbrev pub key_created : Created × State → Option Error × State
  key_created (created, s) = (none, s)
  key_created (already_there, s) = (none, s)
  key_created (create_failed e, s) = (some (wrapped "creating backup MAC key" e), s)

  abbrev pub with_key : State → Result String → Option Error × State
  with_key s (err e) = (some (wrapped "generating backup MAC key" e), s)
  with_key s (ok key) = key_created (
      create (backup_mac_secret_name cluster)
        (record {
          labels = pod_labels cluster;
          annotations = [];
          entries = (backup_mac_key, key) ∷ [];
        })
        s)

  abbrev pub key_read : State → Reply Secret → Option Error × State
  key_read s (found existing) = (none, s)
  key_read s (failed e) = (some e, s)
  key_read s missing = with_key s random

  abbrev pub key_step : State → Option SecretKeySelector → Option Error × State
  key_step s (some ref) = (none, s)
  key_step s none = key_read s (get s (backup_mac_secret_name cluster))

module _ (claims : Objects Claim) (secrets : Objects Secret) (random : Result String)
    (cluster : Cluster) where
  abbrev pub Both : Type 0
  Both = claims.State × secrets.State

  abbrev pub with_claims : claims.State → Option Error × secrets.State → Option Error × Both
  with_claims c (e, s) = (e, (c, s))

  abbrev pub after_claim :
      BackupSpec → secrets.State → Option Error × claims.State → Option Error × Both
  after_claim b s (some e, c) = (some e, (c, s))
  after_claim b s (none, c) = with_claims c (key_step secrets random cluster s b.mac_key_secret_ref)

  abbrev pub resources_for : Both → Option BackupSpec → Option Error × Both
  resources_for (c, s) none = (none, (c, s))
  resources_for (c, s) (some b) = after_claim b s (claim_step claims cluster b c b.volume.claim)

  unfoldable pub reconcile_backup_resources : Both → Option Error × Both
  reconcile_backup_resources both = resources_for both cluster.spec.backup
