-- ===== src/Entrypoint/Script.antt =====
-- The startup script and the topology that it reads (internal/controller/entrypoint.go,
-- `topologyEnv` and `entrypointScript`). The digest in `configHash` is a library's.
use kahuna_k8s_operator.Common.{ℕ, String, ◌<>◌, List, [], ◌∷◌, ◌++◌, map, join}
use kahuna_k8s_operator.Common.Decimal.{decimal}
use kahuna_k8s_operator.Api.{Cluster}
use kahuna_k8s_operator.Naming.{
  sts_name, peer_domain, ports, topology_path, data_path, wal_path, desired_replicas,
}
use kahuna_k8s_operator.Entrypoint.{shell_quote}
use kahuna_k8s_operator.Entrypoint.Arguments.{static_args}

abbrev server_dll_path : String
server_dll_path = "/app/Kahuna.Server.dll"

abbrev password_file : String
password_file = "/etc/kahuna/tls-password/password"

unfoldable pub topology_env : Cluster → ℕ → String
topology_env cluster bootstrap_size =
    "# Generated by kahuna-operator. Read at startup; changes need no pod restart.\n"
    <> ("REPLICAS="
        <> (decimal (desired_replicas cluster)
            <> ("\nBOOTSTRAP_SIZE=" <> (decimal bootstrap_size <> "\n"))))

-- The script by lines, in five parts.
unfoldable pub identity_lines : Cluster → List String
identity_lines cluster =
    "#!/usr/bin/env bash"
    ∷ ("# Generated by kahuna-operator for "
        <> (cluster.namespace
            <> ("/" <> (cluster.name <> ". Do not edit — the next reconcile overwrites it."))))
    ∷ "set -euo pipefail"
    ∷ ""
    ∷ "if [[ -z \"${POD_NAME:-}\" ]]; then"
    ∷ "  echo \"kahuna-operator: POD_NAME is unset; the downward API env var is missing\" >&2"
    ∷ "  exit 1"
    ∷ "fi"
    ∷ ""
    ∷ "# The StatefulSet ordinal is the node's durable identity: pod names are stable across restarts,"
    ∷ "# so the Raft node id derived from it is too."
    ∷ "ORDINAL=\"${POD_NAME##*-}\""
    ∷ "if ! [[ \"$ORDINAL\" =~ ^[0-9]+$ ]]; then"
    ∷ "  echo \"kahuna-operator: cannot derive an ordinal from POD_NAME=$POD_NAME\" >&2"
    ∷ "  exit 1"
    ∷ "fi"
    ∷ ""
    ∷ ("STS_NAME=" <> shell_quote (sts_name cluster))
    ∷ ("PEER_DOMAIN=" <> shell_quote (peer_domain cluster))
    ∷ ("RAFT_PORT=" <> decimal (ports cluster).raft)
    ∷ ""
    ∷ []

unfoldable pub topology_lines : List String
topology_lines =
    "# Topology lives in a separate file rather than in this script so that scaling the cluster does"
    ∷ "# not change the pod template and therefore does not restart every existing node."
    ∷ ("TOPOLOGY=" <> shell_quote topology_path)
    ∷ "if [[ ! -f \"$TOPOLOGY\" ]]; then"
    ∷ "  echo \"kahuna-operator: $TOPOLOGY is missing\" >&2"
    ∷ "  exit 1"
    ∷ "fi"
    ∷ "# shellcheck source=/dev/null"
    ∷ "source \"$TOPOLOGY\""
    ∷ ""
    ∷ "# +1 because --raft-nodeid defaults to 0, making a node given 0 indistinguishable from one that"
    ∷ "# was never configured."
    ∷ "NODE_ID=$((ORDINAL + 1))"
    ∷ "RAFT_HOST=\"${POD_NAME}.${PEER_DOMAIN}\""
    ∷ ""
    ∷ []

unfoldable pub peer_lines : List String
peer_lines =
    "# --initial-cluster lists this node's PEERS and must exclude the node itself. Before the roster"
    ∷ "# is seeded, Kommander assigns the discovery list straight to its peer set without filtering"
    ∷ "# self, so a self-entry would inflate quorum math during bootstrap." ∷ "PEERS=()"
    ∷ "for ((i = 0; i < REPLICAS; i++)); do"
    ∷ "  if [[ \"$i\" -eq \"$ORDINAL\" ]]; then continue; fi"
    ∷ "  PEERS+=(\"${STS_NAME}-${i}.${PEER_DOMAIN}:${RAFT_PORT}\")" ∷ "done" ∷ ""
    ∷ "# An empty peer list is not an error: it is how a single-node cluster asks the server for its"
    ∷ "# standalone mode. It is, however, the wrong thing to hand a multi-node member, so a node that"
    ∷ "# expects peers and has none fails rather than silently starting a second one-node cluster."
    ∷ "CLUSTER_ARGS=()" ∷ "if [[ ${#PEERS[@]} -gt 0 ]]; then"
    ∷ "  CLUSTER_ARGS+=(--initial-cluster \"${PEERS[@]}\")" ∷ "elif [[ \"$REPLICAS\" -ne 1 ]]; then"
    ∷ "  echo \"kahuna-operator: empty --initial-cluster with REPLICAS=$REPLICAS would start a standalone node\" >&2"
    ∷ "  exit 1" ∷ "fi" ∷ "" ∷ []

unfoldable pub join_lines : List String
join_lines =
    "# Join mode. BOOTSTRAP_SIZE is the size the cluster was first created at and never changes, so"
    ∷ "# an ordinal at or above it is by definition a node added after the cluster was already running."
    ∷ "#"
    ∷ "#   * Ordinal below BOOTSTRAP_SIZE -> one of the founding nodes. Static discovery seeds the"
    ∷ "#                      roster; --join-existing here could fork it into a second roster."
    ∷ "#   * At or above, with data on disk -> already a member. It replays its WAL and rejoins its"
    ∷ "#                      partitions; asking it to re-admit itself is wrong."
    ∷ "#   * At or above, empty -> a new node arriving at a running cluster (scale-up, or a node whose"
    ∷ "#                      volume was lost). It must enter as a Learner via the seeds."
    ∷ "JOIN_ARGS=()"
    ∷ ("if [[ \"$ORDINAL\" -ge \"$BOOTSTRAP_SIZE\" && -z \"$(ls -A "
        <> (shell_quote data_path <> " 2>/dev/null)\" ]]; then"))
    ∷ "  JOIN_ARGS+=(--join-existing)"
    ∷ "fi"
    ∷ ""
    ∷ []

unfoldable pub start_lines : Cluster → List String
unfolding static_args
start_lines cluster =
    ("mkdir -p " <> (shell_quote data_path <> (" " <> shell_quote wal_path)))
    ∷ ""
    ∷ "# The keystore password would be visible in this container's argv. Kahuna reads it only from the"
    ∷ "# command line, so there is no way to avoid that; it is not exposed outside the pod."
    ∷ "TLS_ARGS=()"
    ∷ ("if [[ -f " <> (shell_quote password_file <> " ]]; then"))
    ∷ ("  TLS_ARGS+=(--https-certificate-password \"$(cat "
        <> (shell_quote password_file <> ")\")"))
    ∷ "fi"
    ∷ ""
    ∷ ("STATIC_ARGS=(" <> (join " " (map shell_quote (static_args cluster)) <> ")"))
    ∷ ""
    ∷ "# ${ARR[@]+\"${ARR[@]}\"} rather than \"${ARR[@]}\": under \"set -u\" an empty array is an unbound"
    ∷ "# variable in bash before 4.4, and a single-node cluster leaves CLUSTER_ARGS empty."
    ∷ "set -x"
    ∷ ("exec dotnet " <> (server_dll_path <> " \\"))
    ∷ "  --raft-nodename \"$POD_NAME\" \\"
    ∷ "  --raft-nodeid \"$NODE_ID\" \\"
    ∷ "  --raft-host \"$RAFT_HOST\" \\"
    ∷ "  --raft-port \"$RAFT_PORT\" \\"
    ∷ "  ${CLUSTER_ARGS[@]+\"${CLUSTER_ARGS[@]}\"} \\"
    ∷ "  ${JOIN_ARGS[@]+\"${JOIN_ARGS[@]}\"} \\"
    ∷ "  ${TLS_ARGS[@]+\"${TLS_ARGS[@]}\"} \\"
    ∷ "  ${STATIC_ARGS[@]+\"${STATIC_ARGS[@]}\"}"
    ∷ []

unfoldable pub entrypoint_script : Cluster → String
unfolding identity_lines topology_lines peer_lines join_lines start_lines
entrypoint_script cluster = join "\n" (
    identity_lines cluster
    ++ (topology_lines ++ (peer_lines ++ (join_lines ++ (start_lines cluster ++ ("" ∷ []))))))
