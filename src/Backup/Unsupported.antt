-- ===== src/Backup/Unsupported.antt =====
-- When an image is too old for backups (internal/controller/backup.go, `backupUnsupported`).
use text.Mathlib.TextLemmas.{cons-append}
use kahuna_k8s_operator.Common.{
  ℕ, ◌<◌, ◌≤◌, ltb, leb, ◌≡◌, ◌≢◌, ◌↔◌, ◌⊎◌, inl, inr, refl, sym, ◌∙◌, false, Option, none, some,
  Bool-cases, Option-cases, arith,
}
use kahuna_k8s_operator.Api.{Cluster, ReplicationSpec}
use kahuna_k8s_operator.Backup.Images.{
  image_version, at_least, backup_unsupported, unsupported_for, most_nodes, unsupported_text,
  composed_backup_version, Version,
}

abbrev pub IsOlder : Version → Type 0
IsOlder v = (v.0 < 1) ⊎ ((v.0 ≡ 1) × ((v.1 < 12) ⊎ ((v.1 ≡ 12) × (v.2 < 5))))

lt_or_le : (m n : ℕ) → (m < n) ⊎ (n ≤ m)
lt_or_le m n = elim (Bool-cases (ltb m n)) [
  | inl lt ↦ inl (ground arith)
  | inr ge ↦ inr (ground arith)
]

IsOlder-at_least :
    (a b c : ℕ) → at_least (a, b, c) composed_backup_version ≡ false → IsOlder (a, b, c)
IsOlder-at_least a b c h = older (lt_or_le a 1) (lt_or_le b 12)
  where
    older : ((a < 1) ⊎ (1 ≤ a)) → ((b < 12) ⊎ (12 ≤ b)) → IsOlder (a, b, c)
    older (inl lt) k = inl lt
    older (inr ge) (inl lt) = inr (ground arith, inl lt)
    older (inr ge) (inr le) = inr (ground arith, inr (ground arith, ground arith))

at_least-IsOlder :
    (a b c : ℕ) → IsOlder (a, b, c) → at_least (a, b, c) composed_backup_version ≡ false
at_least-IsOlder a b c (inl lt) = ground arith
at_least-IsOlder a b c (inr (e, inl lt)) = ground arith
at_least-IsOlder a b c (inr (e, inr (f, lt))) = ground arith

unsupported_text-ne-empty :
    (cluster : Cluster) (r : ReplicationSpec) (most : ℕ) → unsupported_text cluster r most ≢ ""
unsupported_text-ne-empty cluster r most e = cc (sym (cons-append "i" "mage " _) ∙ e)

module _ (cluster : Cluster) (most : ℕ) where
  abbrev IsUnsupported : Option ReplicationSpec → Type 0
  IsUnsupported o =
      (r : ReplicationSpec) × (v : Version) × (o ≡ some r)
      × (r.factor < most)
      × (image_version cluster.spec.image ≡ some v)
      × IsOlder v

  unsupported_for-IsUnsupported :
      (o : Option ReplicationSpec) → unsupported_for cluster most o ≢ "" → IsUnsupported o
  unsupported_for-IsUnsupported none h = absurd (h refl)
  unsupported_for-IsUnsupported (some r) h = elim (Bool-cases (leb most r.factor)) [
    | inl covered ↦ absurd (h (rw covered))
    | inr few ↦ elim (Option-cases (image_version cluster.spec.image)) [
      | inl unknown ↦ absurd (h (rw (few, unknown)))
      | inr (v, known) ↦ elim (Bool-cases (at_least v composed_backup_version)) [
        | inl new ↦ absurd (h (rw (few, known, new)))
        | inr old ↦ (r, v, refl, ground arith, known, IsOlder-at_least v.0 v.1 v.2 old)
      ]
    ]
  ]

  IsUnsupported-ne-empty :
      (o : Option ReplicationSpec) → IsUnsupported o → unsupported_for cluster most o ≢ ""
  IsUnsupported-ne-empty o (r, v, some_r, few, known, old) e =
      unsupported_text-ne-empty cluster r most
        (sym (rw some_r (rw (few_lem, known, at_least-IsOlder v.0 v.1 v.2 old) refl)) ∙ e)
    where
      few_lem : leb most r.factor ≡ false
      few_lem = ground arith

-- The operator holds backups back on account of the image exactly when the image's version is known
-- and is older than 1.12.5, and some node may host no replica of a partition: the replication factor
-- is less than the most nodes the cluster can have.
pub backup_unsupported_iff :
    (cluster : Cluster)
    → (backup_unsupported cluster ≢ "") ↔ (
        (r : ReplicationSpec) × (v : Version) × (cluster.spec.replication ≡ some r)
        × (r.factor < most_nodes cluster cluster.spec.autoscaling)
        × (image_version cluster.spec.image ≡ some v)
        × IsOlder v)
unfolding backup_unsupported
backup_unsupported_iff cluster = (
  unsupported_for-IsUnsupported cluster (most_nodes cluster cluster.spec.autoscaling)
      cluster.spec.replication,
  IsUnsupported-ne-empty cluster (most_nodes cluster cluster.spec.autoscaling)
      cluster.spec.replication,
)
