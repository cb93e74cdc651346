-- ===== src/Backup/Open.antt =====
-- When a backup may start (internal/controller/backup.go, `backupBlocked`).
use text.Mathlib.TextLemmas.{nil-append, cons-append}
use kahuna_k8s_operator.Common.{
  ℕ, suc, ◌+◌, ◌≤◌, ◌≡◌, ◌↔◌, refl, ap, ◌∙◌, inl, inr, ltb, leb, String, ◌<>◌, Bool, true, false,
  not, ◌&&◌, ◌||◌, Option, List, [], ◌∷◌, all, count_if, str_eq, Bool-cases, arith, if◌then◌else◌,
}
use kahuna_k8s_operator.Common.Decimal.{decimal}
use kahuna_k8s_operator.Api.{Cluster, Pod}
use kahuna_k8s_operator.Naming.{desired_replicas}
use kahuna_k8s_operator.Kahuna.{Membership}
use kahuna_k8s_operator.Plan.{roster_matches}
use kahuna_k8s_operator.Membership.{is_below, pod_is_ready}
use kahuna_k8s_operator.Reporting.{pod_image}
use kahuna_k8s_operator.Backup.Gate.{hash_of, pods_block, backup_blocked}

abbrev is_blank : String → Bool
is_blank String.[] = true
is_blank (String.◌∷◌ c s) = false

is_blank-append_right : (s t : String) → is_blank t ≡ false → is_blank (s <> t) ≡ false
is_blank-append_right String.[] t h = rw (nil-append t) h
is_blank-append_right (String.◌∷◌ c s) t h = rw (cons-append c s t) refl

is_blank-append_left : (s t : String) → is_blank s ≡ false → is_blank (s <> t) ≡ false
is_blank-append_left String.[] t h = cc
is_blank-append_left (String.◌∷◌ c s) t h = rw (cons-append c s t) refl

blank : (s : String) → is_blank s ≡ true → s ≡ ""
blank String.[] h = refl
blank (String.◌∷◌ c s) h = cc

module _ (cluster : Cluster) (hash : String) (desired : ℕ) where
  -- The pod is ready and stays, and runs the current configuration and image.
  abbrev is_fit : Pod → Bool
  is_fit p =
      not p.deleting
      && (pod_is_ready p && (str_eq (hash_of p) hash && str_eq (pod_image p) cluster.spec.image))

  abbrev pub ours : Pod → Bool
  ours p = is_below p desired

  -- Every pod below the size is fit.
  abbrev pub all_fit : List Pod → Bool
  all_fit = all (λ p. not (is_below p desired) || is_fit p)

  is_blank-pods_block :
      (pods : List Pod) (seen : ℕ)
      → is_blank (pods_block cluster hash desired pods seen)
        ≡ (all_fit pods && leb desired (seen + count_if ours pods))
  unfolding pods_block
  is_blank-pods_block [] seen = elim (Bool-cases (ltb seen desired)) [
    | inl few ↦ rw few (
        is_blank-append_right (decimal seen) (" of " <> (decimal desired <> " pods exist"))
          (is_blank-append_left " of " (decimal desired <> " pods exist") refl)
        ∙ ground arith)
    | inr enough ↦ rw enough (ground arith)
  ]
  is_blank-pods_block (p ∷ pods) seen = ground (
    arith,
    is_blank-pods_block pods seen,
    is_blank-pods_block pods (suc seen),
    is_blank-append_right p.name " is not ready" refl,
    is_blank-append_right p.name " does not run the current configuration yet" refl,
    is_blank-append_right p.name (" does not run image " <> (cluster.spec.image <> " yet"))
        (is_blank-append_left " does not run image " (cluster.spec.image <> " yet") refl),
  )

is_blank-backup_blocked :
    (cluster : Cluster) (hash : String) (m : Option Membership) (pods : List Pod)
    → is_blank (backup_blocked cluster hash m pods) ≡ (
        cluster.status.bootstrapped
        && (roster_matches cluster m (desired_replicas cluster)
            && is_blank (pods_block cluster hash (desired_replicas cluster) pods 0)))
unfolding backup_blocked
is_blank-backup_blocked cluster hash m pods =
    by_tests cluster.status.bootstrapped (roster_matches cluster m (desired_replicas cluster))
      (pods_block cluster hash (desired_replicas cluster) pods 0)
  where
    by_tests :
        (bootstrapped matches : Bool) (text : String)
        → is_blank (
            if not bootstrapped
            then "the cluster has not finished bootstrap"
            else if not matches
            then "the roster has not converged on the desired nodes"
            else text)
          ≡ (bootstrapped && (matches && is_blank text))
    by_tests false matches text = refl
    by_tests true false text = refl
    by_tests true true text = refl

blank_iff : (s : String) → (s ≡ "") ↔ (is_blank s ≡ true)
blank_iff s = (λ e. ap is_blank e, blank s)

-- A backup may start exactly when the cluster is bootstrapped, the roster matches the desired size,
-- at least as many pods exist below that size, and every one of these is ready, is not being
-- deleted, and runs the current configuration and image.
pub backup_blocked_iff :
    (cluster : Cluster) (hash : String) (m : Option Membership) (pods : List Pod)
    → let desired = desired_replicas cluster in
      (backup_blocked cluster hash m pods ≡ "") ↔ (
        (cluster.status.bootstrapped ≡ true)
        × (roster_matches cluster m desired ≡ true)
        × (desired ≤ count_if (ours cluster hash desired) pods)
        × (all_fit cluster hash desired pods ≡ true))
backup_blocked_iff cluster hash m pods =
    let desired = desired_replicas cluster in
    let text = backup_blocked cluster hash m pods in
    let whole = is_blank-backup_blocked cluster hash m pods in
    let part = is_blank-pods_block cluster hash desired pods 0 in
    (
      λ e. ground (arith, whole, part, (blank_iff text).0 e),
      λ h. (blank_iff text).1 (ground (arith, whole, part)),
    )
