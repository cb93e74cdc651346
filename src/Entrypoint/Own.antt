-- ===== src/Entrypoint/Own.antt =====
-- The flags that the startup script itself gives (the script in internal/controller/entrypoint.go).
use Prim.Native.Char.{code}
use text.Mathlib.TextLemmas.{cons-append}
use kahuna_k8s_operator.Common.{
  ℕ, zero, suc, ◌+◌, ◌<◌, ◌==◌, leb, ltb, inl, inr, ◌≡◌, refl, String, ◌<>◌, Bool, true, false,
  ◌&&◌, Option, none, some, List, [], ◌∷◌, ◌++◌, Bool-cases, arith,
}
use kahuna_k8s_operator.Common.Decimal.{decimal}
use kahuna_k8s_operator.Api.{Cluster}
use kahuna_k8s_operator.Naming.{sts_name, peer_domain, ports}
use kahuna_k8s_operator.Entrypoint.{overridden, flag_name, before_equals}
use kahuna_k8s_operator.Entrypoint.Arguments.{static_args}
use kahuna_k8s_operator.Entrypoint.Startup.{
  Topology, peer_of, peers_from, join_args, tls_args, cluster_args, command,
}
use kahuna_k8s_operator.Entrypoint.Distinct.{
  overridden-append, overridden-Gives, Gives, done, flag, value, flag_name-decimal, IsPlain, times,
  times-append,
}
use kahuna_k8s_operator.Entrypoint.Peers.{cluster_args-one, cluster_args-many}

-- The text begins with a character past the dash, as each Kubernetes name does.
unfoldable pub begins_plainly : String → Bool
begins_plainly String.[] = false
begins_plainly (String.◌∷◌ c s) = ltb 45 (code c)

flag_name-begins : (s : String) → begins_plainly s ≡ true → IsPlain s
unfolding flag_name begins_plainly
flag_name-begins String.[] h = refl
flag_name-begins (String.◌∷◌ c String.[]) h = refl
flag_name-begins (String.◌∷◌ c (String.◌∷◌ d s)) h = ground arith

begins_plainly-append : (s t : String) → begins_plainly s ≡ true → begins_plainly (s <> t) ≡ true
unfolding begins_plainly
begins_plainly-append String.[] t h = ground arith
begins_plainly-append (String.◌∷◌ c s) t h = rw (cons-append c s t) h

Gives-append : {xs ys gs hs : List String} → Gives xs gs → Gives ys hs → Gives (xs ++ ys) (gs ++ hs)
Gives-append done rest = rest
Gives-append (flag e more) rest = flag e (Gives-append more rest)
Gives-append (value plain more) rest = value plain (Gives-append more rest)

-- The flags that the script gives on every node.
abbrev pub identity_flags : List String
identity_flags = "--raft-nodename" ∷ "--raft-nodeid" ∷ "--raft-host" ∷ "--raft-port" ∷ []

-- The flags that the script gives on some nodes.
abbrev pub when : Bool → String → List String
when true token = token ∷ []
when false token = []

abbrev pub has_password : Option String → Bool
has_password none = false
has_password (some password) = true

-- The flags that the script gives on the node of an ordinal.
abbrev pub own_flags : Topology → ℕ → Bool → Option String → List String
own_flags t ordinal is_empty password =
    identity_flags
    ++ (when (ltb 1 t.replicas) "--initial-cluster"
        ++ (when (leb t.bootstrap_size ordinal && is_empty) "--join-existing"
            ++ when (has_password password) "--https-certificate-password"))

-- The flags that the script can give.
abbrev pub script_flags : List String
script_flags =
    identity_flags
    ++ ("--initial-cluster" ∷ "--join-existing" ∷ "--https-certificate-password" ∷ [])

peers_from-Gives :
    (cluster : Cluster) (ordinal i rounds : ℕ)
    → begins_plainly cluster.name ≡ true
    → Gives (peers_from cluster ordinal i rounds) []
unfolding peers_from peer_of sts_name
peers_from-Gives cluster ordinal i zero h = done
peers_from-Gives cluster ordinal i (suc rounds) h = elim (Bool-cases (i == ordinal)) [
  | inl self ↦ rw self (peers_from-Gives cluster ordinal (suc i) rounds h)
  | inr other ↦ rw other (
      value (flag_name-begins (peer_of cluster i) (begins_plainly-append cluster.name _ h))
        (peers_from-Gives cluster ordinal (suc i) rounds h))
]

cluster_args-Gives :
    (cluster : Cluster) (n ordinal : ℕ)
    → begins_plainly cluster.name ≡ true
    → ordinal < n
    → (peers : List String) × (cluster_args cluster n ordinal ≡ some peers)
      × Gives peers (when (ltb 1 n) "--initial-cluster")
unfolding flag_name before_equals
cluster_args-Gives cluster n ordinal h lt = elim (Bool-cases (ltb 1 n)) [
  | inl many ↦ rw many (
    "--initial-cluster" ∷ peers_from cluster ordinal 0 n,
    cluster_args-many cluster n ordinal (ground arith),
    flag refl (peers_from-Gives cluster ordinal 0 n h),
  )
  | inr one ↦ rw one ([], cluster_args-one cluster n ordinal (ground arith) lt, done)
]

join_args-Gives :
    (t : Topology) (ordinal : ℕ) (is_empty : Bool)
    → Gives
        (join_args t ordinal is_empty)
        (when (leb t.bootstrap_size ordinal && is_empty) "--join-existing")
unfolding join_args flag_name before_equals
join_args-Gives t ordinal is_empty = elim (Bool-cases (leb t.bootstrap_size ordinal && is_empty)) [
  | inl joins ↦ rw joins (flag refl done)
  | inr stays ↦ rw stays done
]

tls_args-Gives :
    (password : Option String)
    → ((pw : String) → password ≡ some pw → IsPlain pw)
    → Gives (tls_args password) (when (has_password password) "--https-certificate-password")
unfolding tls_args flag_name before_equals
tls_args-Gives none h = done
tls_args-Gives (some pw) h = flag refl (value (h pw refl) done)

times-Gives :
    (f : String) (xs gs rest : List String)
    → Gives xs gs
    → times f (overridden (xs ++ rest)) ≡ times f gs + times f (overridden rest)
times-Gives f xs gs rest gives =
    rw
      (
        overridden-append xs rest,
        times-append f (overridden xs) (overridden rest),
        overridden-Gives gives,
      )
      refl

-- The name, the id, the host and the port.
identity_args-Gives :
    (name host : String) (id port : ℕ)
    → IsPlain name
    → IsPlain host
    → Gives
        ("--raft-nodename"
          ∷ name
          ∷ "--raft-nodeid"
          ∷ decimal id
          ∷ "--raft-host"
          ∷ host
          ∷ "--raft-port"
          ∷ decimal port
          ∷ [])
        identity_flags
unfolding flag_name before_equals
identity_args-Gives name host id port named hosted = flag refl (
    value named (
      flag refl (
        value (flag_name-decimal id)
          (flag refl (value hosted (flag refl (value (flag_name-decimal port) done)))))))

-- The script's own flags and the rest of the command line.
pub times-command :
    (cluster : Cluster) (t : Topology) (ordinal : ℕ) (is_empty : Bool) (password : Option String)
    → begins_plainly cluster.name ≡ true
    → ((pw : String) → password ≡ some pw → IsPlain pw)
    → ordinal < t.replicas
    → (args : List String) × (command cluster t ordinal is_empty password ≡ some args)
      × ((f : String)
          → times f (overridden args)
            ≡ times f (own_flags t ordinal is_empty password)
              + times f (overridden (static_args cluster)))
unfolding command sts_name
times-command cluster t ordinal is_empty password h plain lt =
    let (peers, starts, gives) = cluster_args-Gives cluster t.replicas ordinal h lt in
    let joins = when (leb t.bootstrap_size ordinal && is_empty) "--join-existing" in
    let opens = when (has_password password) "--https-certificate-password" in
    let name = cluster.name <> ("-" <> decimal ordinal) in
    let host = name <> ("." <> peer_domain cluster) in
    let begins = begins_plainly-append cluster.name ("-" <> decimal ordinal) h in
    let identity =
      identity_args-Gives name host (ordinal + 1) (ports cluster).raft
        (flag_name-begins name begins)
        (flag_name-begins host (begins_plainly-append name ("." <> peer_domain cluster) begins)) in
    rw starts (
      _,
      refl,
      λ f.
          let at_static =
            times-Gives f (tls_args password) opens (static_args cluster)
              (tls_args-Gives password plain) in
          let at_tls =
            times-Gives f (join_args t ordinal is_empty) joins
              (tls_args password ++ static_args cluster) (join_args-Gives t ordinal is_empty) in
          let at_join =
            times-Gives f peers (when (ltb 1 t.replicas) "--initial-cluster")
              (join_args t ordinal is_empty ++ (tls_args password ++ static_args cluster)) gives in
          let at_identity =
            times-Gives f _ identity_flags
              (peers
                ++ (join_args t ordinal is_empty ++ (tls_args password ++ static_args cluster)))
              identity in
          rw (at_identity, at_join, at_tls, at_static)
            (omega (
              arith,
              times-append f identity_flags
                  (when (ltb 1 t.replicas) "--initial-cluster" ++ (joins ++ opens)),
              times-append f (when (ltb 1 t.replicas) "--initial-cluster") (joins ++ opens),
              times-append f joins opens,
            )),
    )
