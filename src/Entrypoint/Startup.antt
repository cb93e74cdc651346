-- ===== src/Entrypoint/Startup.antt =====
-- What the startup script does on a node (the script in internal/controller/entrypoint.go), for the
-- pod of an ordinal. `none` is an exit before the server runs. The directory listing and the password
-- file are arguments.
use kahuna_k8s_operator.Common.{
  ℕ, zero, suc, ◌+◌, ◌==◌, leb, String, ◌<>◌, Bool, ◌&&◌, Option, none, some, List, [], ◌∷◌, ◌++◌,
  if◌then◌else◌,
}
use kahuna_k8s_operator.Common.Decimal.{decimal}
use kahuna_k8s_operator.Api.{Cluster}
use kahuna_k8s_operator.Naming.{sts_name, peer_domain, ports}
use kahuna_k8s_operator.Entrypoint.Arguments.{static_args}

-- What is sourced from `topology.env`.
pub record Topology : Type 0 where
  pub replicas : ℕ
  pub bootstrap_size : ℕ

-- `"${STS_NAME}-${i}.${PEER_DOMAIN}:${RAFT_PORT}"`
unfoldable pub peer_of : Cluster → ℕ → String
peer_of cluster i =
    sts_name cluster
    <> ("-"
        <> (decimal i <> ("." <> (peer_domain cluster <> (":" <> decimal (ports cluster).raft)))))

-- The loop over `i`, of so many rounds.
unfoldable pub peers_from : Cluster → ℕ → ℕ → ℕ → List String
peers_from cluster ordinal i zero = []
peers_from cluster ordinal i (suc rounds) =
    let rest = peers_from cluster ordinal (suc i) rounds in
    if i == ordinal then rest else peer_of cluster i ∷ rest

abbrev pub cluster_args_of : ℕ → List String → Option (List String)
cluster_args_of replicas (p ∷ ps) = some ("--initial-cluster" ∷ p ∷ ps)
cluster_args_of replicas [] = if replicas == 1 then some [] else none

unfoldable pub cluster_args : Cluster → ℕ → ℕ → Option (List String)
unfolding peers_from
cluster_args cluster replicas ordinal =
    cluster_args_of replicas (peers_from cluster ordinal 0 replicas)

unfoldable pub join_args : Topology → ℕ → Bool → List String
join_args t ordinal is_empty =
    if leb t.bootstrap_size ordinal && is_empty then "--join-existing" ∷ [] else []

unfoldable pub tls_args : Option String → List String
tls_args none = []
tls_args (some password) = "--https-certificate-password" ∷ password ∷ []

abbrev command_of :
    Cluster → Topology → ℕ → Bool → Option String → Option (List String) → Option (List String)
command_of cluster t ordinal is_empty password none = none
command_of cluster t ordinal is_empty password (some peers) =
    let name = sts_name cluster <> ("-" <> decimal ordinal) in
    some (
      "--raft-nodename"
      ∷ name
      ∷ "--raft-nodeid"
      ∷ decimal (ordinal + 1)
      ∷ "--raft-host"
      ∷ (name <> ("." <> peer_domain cluster))
      ∷ "--raft-port"
      ∷ decimal (ports cluster).raft
      ∷ (peers ++ (join_args t ordinal is_empty ++ (tls_args password ++ static_args cluster))))

unfoldable pub command : Cluster → Topology → ℕ → Bool → Option String → Option (List String)
unfolding cluster_args join_args tls_args
command cluster t ordinal is_empty password =
    command_of cluster t ordinal is_empty password (cluster_args cluster t.replicas ordinal)
