-- ===== src/Entrypoint/Topology.antt =====
-- What a node reads from the topology file (internal/controller/entrypoint.go, `topologyEnv` and the
-- `source` of the script).
use Prim.Native.Char.{code}
use text.Mathlib.TextLemmas.{cons-append, nil-append, append_assoc}
use kahuna_k8s_operator.Common.{
  ℕ, ◌^◌, ◌<◌, ◌==◌, ◌≡◌, refl, ap, ◌∙◌, String, ◌<>◌, true, false, Option, none, some,
  if◌then◌else◌, arith,
}
use kahuna_k8s_operator.Common.Decimal.{decimal, decimal-all_digits}
use kahuna_k8s_operator.Api.{Cluster}
use kahuna_k8s_operator.Naming.{desired_replicas}
use kahuna_k8s_operator.Backup.Images.{◌>>=◌, holds_code, span_digits, some_digits, number}
use kahuna_k8s_operator.Backup.Versions.{
  starts_plain, span_digits-append, some_digits-decimal, number-decimal,
}
use kahuna_k8s_operator.Entrypoint.Script.{topology_env}
use kahuna_k8s_operator.Entrypoint.Startup.{Topology}

-- The text after its first line.
unfoldable pub drop_line : String → String
drop_line String.[] = ""
drop_line (String.◌∷◌ c s) = let rest = drop_line s in if code c == 10 then s else rest

-- What stands behind this beginning of a text.
unfoldable pub after_prefix : String → String → Option String
after_prefix String.[] s = some s
after_prefix (String.◌∷◌ c p) String.[] = none
after_prefix (String.◌∷◌ c p) (String.◌∷◌ d s) =
    let rest = after_prefix p s in if code c == code d then rest else none

-- A comment, and an assignment of a number to each of the two names.
unfoldable pub read_topology : String → Option Topology
unfolding drop_line after_prefix
read_topology text = do
  r ← after_prefix "REPLICAS=" (drop_line text)
  n ← some_digits (span_digits r)
  t ← after_prefix "\nBOOTSTRAP_SIZE=" n.1
  b ← some_digits (span_digits t)
  replicas ← number n.0
  size ← number b.0
  some (record { replicas = replicas; bootstrap_size = size })

after_prefix-append : (p s : String) → after_prefix p (p <> s) ≡ some s
unfolding after_prefix
after_prefix-append String.[] s = rw (nil-append s) refl
after_prefix-append (String.◌∷◌ c p) s =
    rw (cons-append c p s) (ground (arith, after_prefix-append p s))

drop_line-append : (p s : String) → holds_code 10 p ≡ false → drop_line (p <> ("\n" <> s)) ≡ s
unfolding drop_line
drop_line-append String.[] s h =
    rw (nil-append ("\n" <> s), cons-append "\n" "" s, nil-append s) refl
drop_line-append (String.◌∷◌ c p) s h =
    rw (cons-append c p ("\n" <> s)) (ground (arith, drop_line-append p s))

abbrev comment : String
comment = "# Generated by kahuna-operator. Read at startup; changes need no pod restart."

drop_line-comment :
    (s : String)
    → drop_line
        ("# Generated by kahuna-operator. Read at startup; changes need no pod restart.\n" <> s)
      ≡ s
drop_line-comment s = ap drop_line (append_assoc comment "\n" s) ∙ drop_line-append comment s refl

starts_plain-newline : (s : String) → starts_plain ("\n" <> s) ≡ true
starts_plain-newline s = rw (cons-append "\n" "" s) refl

starts_plain-next : (s : String) → starts_plain ("\nBOOTSTRAP_SIZE=" <> s) ≡ true
starts_plain-next s = rw (cons-append "\n" "BOOTSTRAP_SIZE=" s) refl

-- From the topology file the nodes read exactly the desired size and the pinned bootstrap size, where
-- both are below 2^31.
pub read_topology-topology_env :
    (cluster : Cluster) (bootstrap_size : ℕ)
    → desired_replicas cluster < 2 ^ 31
    → bootstrap_size < 2 ^ 31
    → read_topology (topology_env cluster bootstrap_size)
      ≡ some (record { replicas = desired_replicas cluster; bootstrap_size = bootstrap_size })
unfolding read_topology topology_env
read_topology-topology_env cluster bootstrap_size size pinned =
    rw
      (
        drop_line-comment (
            "REPLICAS="
            <> (decimal (desired_replicas cluster)
                <> ("\nBOOTSTRAP_SIZE=" <> (decimal bootstrap_size <> "\n")))),
        after_prefix-append "REPLICAS=" (
            decimal (desired_replicas cluster)
            <> ("\nBOOTSTRAP_SIZE=" <> (decimal bootstrap_size <> "\n"))),
        span_digits-append (decimal (desired_replicas cluster))
            ("\nBOOTSTRAP_SIZE=" <> (decimal bootstrap_size <> "\n"))
            (decimal-all_digits (desired_replicas cluster))
            (starts_plain-next (decimal bootstrap_size <> "\n")),
        some_digits-decimal (desired_replicas cluster)
            ("\nBOOTSTRAP_SIZE=" <> (decimal bootstrap_size <> "\n")),
        after_prefix-append "\nBOOTSTRAP_SIZE=" (decimal bootstrap_size <> "\n"),
        span_digits-append (decimal bootstrap_size) "\n" (decimal-all_digits bootstrap_size) refl,
        some_digits-decimal bootstrap_size "\n",
        number-decimal (desired_replicas cluster) (omega arith),
        number-decimal bootstrap_size (omega arith),
      )
      refl
