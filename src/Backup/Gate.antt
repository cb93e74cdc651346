-- ===== src/Backup/Gate.antt =====
-- Why a backup must not start now (internal/controller/backup.go, `backupBlocked`). The hash of the
-- startup script is a parameter.
use kahuna_k8s_operator.Common.{
  ℕ, suc, ltb, String, ◌<>◌, not, ◌||◌, Option, none, some, List, [], ◌∷◌, str_eq, string_dec,
  if◌then◌else◌,
}
use kahuna_k8s_operator.Common.Decimal.{decimal}
use kahuna_k8s_operator.Common.Dict.{lookup}
use kahuna_k8s_operator.Api.{Cluster, Pod}
use kahuna_k8s_operator.Naming.{desired_replicas, config_hash_annotation}
use kahuna_k8s_operator.Kahuna.{Membership}
use kahuna_k8s_operator.Plan.{roster_matches}
use kahuna_k8s_operator.Membership.{is_below, pod_is_ready}
use kahuna_k8s_operator.Reporting.{pod_image}

-- A missing key of a map of texts reads as the empty text.
abbrev or_empty : Option String → String
or_empty none = ""
or_empty (some v) = v

unfoldable pub hash_of : Pod → String
unfolding lookup
hash_of p = or_empty (lookup string_dec config_hash_annotation p.annotations)

module _ (cluster : Cluster) (hash : String) where
  -- The loop over the pods, with how many were seen.
  unfoldable pub pods_block : ℕ → List Pod → ℕ → String
  unfolding hash_of
  pods_block desired [] seen =
      if ltb seen desired
      then decimal seen <> (" of " <> (decimal desired <> " pods exist"))
      else ""
  pods_block desired (p ∷ pods) seen =
      let skip = pods_block desired pods seen in
      let next = pods_block desired pods (suc seen) in
      if not (is_below p desired)
      then skip
      else if p.deleting || not (pod_is_ready p)
      then p.name <> " is not ready"
      else if not (str_eq (hash_of p) hash)
      then p.name <> " does not run the current configuration yet"
      else if not (str_eq (pod_image p) cluster.spec.image)
      then p.name <> (" does not run image " <> (cluster.spec.image <> " yet"))
      else next

  unfoldable pub backup_blocked : Option Membership → List Pod → String
  unfolding pods_block
  backup_blocked m pods =
      if not cluster.status.bootstrapped
      then "the cluster has not finished bootstrap"
      else if not (roster_matches cluster m (desired_replicas cluster))
      then "the roster has not converged on the desired nodes"
      else pods_block (desired_replicas cluster) pods 0
