-- ===== src/Examples/Commands.antt =====
-- The theorems on the command line.
use mathlib.Core.Option.{some-injective}
use kahuna_k8s_operator.Common.{
  In, List, String, [], arith, contains, false, refl, some, string_dec, sym, true, ℕ, ◌+◌, ◌<>◌,
  ◌<◌, ◌↔◌, ◌∷◌, ◌≡◌, ◌≤◌, ◌⊎◌,
}
use kahuna_k8s_operator.Api.{Cluster}
use kahuna_k8s_operator.Entrypoint.{flag_name, overridden, shell_quote}
use kahuna_k8s_operator.Entrypoint.Arguments.{static_args}
use kahuna_k8s_operator.Entrypoint.Distinct.{HasPlainValues, times}
use kahuna_k8s_operator.Entrypoint.Own.{begins_plainly, own_flags, script_flags}
use kahuna_k8s_operator.Entrypoint.Peers.{IsOther, starts_with_peers}
use kahuna_k8s_operator.Entrypoint.Quoting.{bare, read_word, shell_quote_lem}
use kahuna_k8s_operator.Entrypoint.Repeats.{command-times}
use kahuna_k8s_operator.Entrypoint.Script.{entrypoint_script, topology_env}
use kahuna_k8s_operator.Entrypoint.Startup.{Topology, cluster_args, command}
use kahuna_k8s_operator.Entrypoint.Topology.{read_topology, read_topology-topology_env}
use kahuna_k8s_operator.Entrypoint.Words.{
  IsLine, between, entrypoint_script-static_args, read_words,
}
use kahuna_k8s_operator.Examples.{three}
use kahuna_k8s_operator.Naming.{desired_replicas, raft_endpoint}

shell_quote_lem_example : read_word bare (shell_quote "it's") ≡ some "it's"
shell_quote_lem_example = shell_quote_lem "it's"

-- The extra arguments set the Raft port, which the script sets too.
abbrev ported : Cluster
ported = record three {
  spec = record three.spec { extra_args = "--raft-port" ∷ "9000" ∷ "it's" ∷ [] };
}

ported-HasPlainValues : HasPlainValues ported
unfolding flag_name string_dec
ported-HasPlainValues = record {
  backend = refl;
  revision = refl;
  wal_backend = refl;
  wal_revision = refl;
  cluster_id = λ b asked. cc;
}

abbrev of_three : Topology
of_three = record { replicas = 3; bootstrap_size = 3 }

abbrev given : String → ℕ
given f = times f (overridden ported.spec.extra_args)

command-times_example :
    (args : List String) × (command ported of_three 1 true (some "secret") ≡ some args)
    × ((f : String)
        → ((contains script_flags f ≡ true)
            × (times f (overridden args)
                ≡ times f (own_flags of_three 1 true (some "secret")) + given f))
          ⊎ ((contains script_flags f ≡ false)
              × (((0 < given f) × (times f (overridden args) ≡ given f))
                  ⊎ ((given f ≡ 0) × (times f (overridden args) ≤ 1)))))
unfolding begins_plainly flag_name
command-times_example =
    command-times ported of_three 1 true (some "secret") ported-HasPlainValues refl
      (λ pw e. rw (sym (some-injective "secret" pw e)) refl) (omega arith)

starts_with_peers_example :
    ((◌≡◌ {A = ℕ} 3 1) × (cluster_args three 3 1 ≡ some []))
    ⊎ ((peers : List String) × (cluster_args three 3 1 ≡ some ("--initial-cluster" ∷ peers))
        × (In (raft_endpoint three 2) peers ↔ IsOther three 1 0 3 (raft_endpoint three 2)))
starts_with_peers_example = starts_with_peers three 3 1 (raft_endpoint three 2) (omega arith)

read_topology-topology_env_example :
    read_topology (topology_env three 3)
    ≡ some (record { replicas = desired_replicas three; bootstrap_size = 3 })
unfolding desired_replicas
read_topology-topology_env_example = read_topology-topology_env three 3 (omega arith) (omega arith)

entrypoint_script-static_args_example :
    (words : String) × IsLine ("STATIC_ARGS=(" <> (words <> ")")) (entrypoint_script ported)
    × (read_words between words ≡ some (static_args ported))
entrypoint_script-static_args_example = entrypoint_script-static_args ported
