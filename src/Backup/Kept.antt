-- ===== src/Backup/Kept.antt =====
-- Backups and the key that makes them usable are not lost (internal/controller/backup.go,
-- `reconcileBackupResources` and `claimNeedsReplacing`).
use kahuna_k8s_operator.Common.{
  String, ◌≡◌, refl, sym, ◌∙◌, ap, inl, inr, true, false, Option, none, some, string_dec,
  Bool-cases,
}
use kahuna_k8s_operator.Api.{Cluster, BackupSpec, VolumeSpec, SecretKeySelector}
use kahuna_k8s_operator.Naming.{backup_claim_name, backup_mac_secret_name}
use kahuna_k8s_operator.Kahuna.Errors.{Error, Result, ok, err}
use kahuna_k8s_operator.ApiServer.{
  Reply, found, missing, failed, Created, created, already_there, create_failed, Deleted, deleted,
  absent, conflicting, delete_failed, Objects,
}
use kahuna_k8s_operator.Certificate.{Secret}
use kahuna_k8s_operator.Resources.{desired_backup_claim}
use kahuna_k8s_operator.Backup.Claims.{Claim, claim_needs_replacing, is_kept}
use kahuna_k8s_operator.Backup.Keep.{
  claim_created, claim_deleted, claim_read, claim_step, key_created, with_key, key_read, key_step,
  after_claim, resources_for, reconcile_backup_resources,
}

kept_not_replaced :
    (existing desired : Claim)
    → claim_needs_replacing existing desired ≡ true
    → is_kept existing ≡ false
unfolding claim_needs_replacing
kept_not_replaced existing desired h = elim (Bool-cases (is_kept existing)) [
  | inl kept ↦ cc (rw kept at h)
  | inr loose ↦ loose
]

module _ (claims : Objects Claim) (cluster : Cluster) where
  open claims use {
    State, get, held, create, delete, create_keeps, delete_other, delete_pinned, read_current,
  }

  created-state : (c : Created × State) → (claim_created claims c).1 ≡ c.1
  created-state (created, s) = refl
  created-state (already_there, s) = refl
  created-state (create_failed e, s) = refl

  deleted-state : (d : Deleted × State) → (claim_deleted claims d).1 ≡ d.1
  deleted-state (deleted, s) = refl
  deleted-state (absent, s) = refl
  deleted-state (conflicting, s) = refl
  deleted-state (delete_failed e, s) = refl

  module _ (s : State) (m : String) (c : Claim) (there : held s m ≡ some c)
      (kept : is_kept c ≡ true) where
    -- The claim in hand is not the one that is held, which has a volume.
    keeps-deleted :
        (name : String) (existing desired : Claim)
        → get s name ≡ found existing
        → claim_needs_replacing existing desired ≡ true
        → held (delete name existing s).1 m ≡ some c
    keeps-deleted name existing desired got replaced = elim (string_dec name m) [
      | no other ↦ delete_other s name m existing other ∙ there
      | yes same ↦ elim (delete_pinned s name existing c (rw same there)) [
        | inl stays ↦ rw (← same) stays
        | inr pinned ↦
            let current = read_current s name existing c got (rw same there) pinned in
            cc (sym (kept_not_replaced existing desired replaced) ∙ ap is_kept current ∙ kept)
      ]
    ]

    keeps-read :
        (name : String) (desired : Claim) (r : Reply Claim)
        → get s name ≡ r
        → held (claim_read claims name desired s r).1 m ≡ some c
    keeps-read name desired missing e =
        rw (created-state (create name desired s)) (create_keeps s name m desired c there)
    keeps-read name desired (failed f) e = there
    keeps-read name desired (found existing) e =
        elim (Bool-cases (claim_needs_replacing existing desired)) [
          | inl replaced ↦ rw replaced (
              rw (deleted-state (delete name existing s))
                (keeps-deleted name existing desired e replaced))
          | inr fits ↦ rw fits there
        ]

    keeps-claim :
        (b : BackupSpec) (v : Option VolumeSpec)
        → held (claim_step claims cluster b s v).1 m ≡ some c
    keeps-claim b none = there
    keeps-claim b (some v) =
        keeps-read (backup_claim_name cluster b) (desired_backup_claim cluster v)
          (get s (backup_claim_name cluster b)) refl

module _ (secrets : Objects Secret) (random : Result String) (cluster : Cluster) where
  open secrets use {State, get, held, create, create_keeps}

  key-state : (c : Created × State) → (key_created secrets random cluster c).1 ≡ c.1
  key-state (created, s) = refl
  key-state (already_there, s) = refl
  key-state (create_failed e, s) = refl

  module _ (s : State) (m : String) (k : Secret) (there : held s m ≡ some k) where
    keeps-random : (r : Result String) → held (with_key secrets random cluster s r).1 m ≡ some k
    keeps-random (err e) = there
    keeps-random (ok key) =
        rw (key-state (create (backup_mac_secret_name cluster) _ s))
          (create_keeps s (backup_mac_secret_name cluster) m _ k there)

    keeps-key :
        (o : Option SecretKeySelector) → held (key_step secrets random cluster s o).1 m ≡ some k
    keeps-key (some ref) = there
    keeps-key none = of_reply (get s (backup_mac_secret_name cluster))
      where
        of_reply : (r : Reply Secret) → held (key_read secrets random cluster s r).1 m ≡ some k
        of_reply (found existing) = there
        of_reply (failed e) = there
        of_reply missing = keeps-random random

module _ (claims : Objects Claim) (secrets : Objects Secret) (random : Result String)
    (cluster : Cluster) where
  kept_by :
      (b : BackupSpec) (s : secrets.State) (r : Option Error × claims.State) (n : String)
      (k : Secret)
      → secrets.held s n ≡ some k
      → ((after_claim claims secrets random cluster b s r).1.0 ≡ r.1)
        × (secrets.held (after_claim claims secrets random cluster b s r).1.1 n ≡ some k)
  kept_by b s (some e, c) n k there = (refl, there)
  kept_by b s (none, c) n k there =
      (refl, keeps-key secrets random cluster s n k there b.mac_key_secret_ref)

  resources_kept :
      (c : claims.State) (s : secrets.State) (m n : String) (claim : Claim) (secret : Secret)
      → claims.held c m ≡ some claim
      → is_kept claim ≡ true
      → secrets.held s n ≡ some secret
      → (o : Option BackupSpec)
      → (claims.held (resources_for claims secrets random cluster (c, s) o).1.0 m ≡ some claim)
        × (secrets.held (resources_for claims secrets random cluster (c, s) o).1.1 n ≡ some secret)
  resources_kept c s m n claim secret here kept there none = (here, there)
  resources_kept c s m n claim secret here kept there (some b) =
      let step = claim_step claims cluster b c b.volume.claim in
      let (left, stays) = kept_by b s step n secret there in
      (
        ap (λ d. claims.held d m) left
            ∙ keeps-claim claims cluster c m claim here kept b b.volume.claim,
        stays,
      )

  -- Whatever the reads gave, cached and stale ones included, a pass over the backup objects leaves a
  -- claim that has or had a volume, or is being deleted, and every Secret, as they were.
  pub backup_resources_kept :
      (c : claims.State) (s : secrets.State) (m n : String) (claim : Claim) (secret : Secret)
      → claims.held c m ≡ some claim
      → is_kept claim ≡ true
      → secrets.held s n ≡ some secret
      → (claims.held (reconcile_backup_resources claims secrets random cluster (c, s)).1.0 m
          ≡ some claim)
        × (secrets.held (reconcile_backup_resources claims secrets random cluster (c, s)).1.1 n
            ≡ some secret)
  unfolding reconcile_backup_resources
  backup_resources_kept c s m n claim secret here kept there =
      resources_kept c s m n claim secret here kept there cluster.spec.backup
