-- ===== src/Entrypoint/Peers.antt =====
-- The peers that a node starts with (the script in internal/controller/entrypoint.go), against the
-- endpoints by which the operator knows the nodes.
use native.Mathlib.Decide.{ℕ_discrete}
use text.Mathlib.TextLemmas.{append_assoc}
use kahuna_k8s_operator.Common.{
  ℕ, zero, suc, ◌+◌, ◌<◌, ◌≤◌, ◌==◌, ==_iff, ◌≡◌, ◌≢◌, ◌↔◌, refl, sym, ap, ◌∙◌, String, some, List,
  [], ◌∷◌, In, here, there, In-cons, Bool-cases, inl, inr, ◌⊎◌, if◌then◌else◌, arith,
}
use kahuna_k8s_operator.Api.{Cluster}
use kahuna_k8s_operator.Naming.{raft_endpoint}
use kahuna_k8s_operator.Entrypoint.Startup.{peer_of, peers_from, cluster_args, cluster_args_of}

-- The script's name of a peer is the operator's endpoint of it.
peer_of-raft_endpoint : (cluster : Cluster) (i : ℕ) → peer_of cluster i ≡ raft_endpoint cluster i
unfolding peer_of raft_endpoint
peer_of-raft_endpoint cluster i = simp append_assoc

-- An endpoint of another node of the cluster.
abbrev pub IsOther : Cluster → ℕ → ℕ → ℕ → String → Type 0
IsOther cluster ordinal lo hi e =
    (k : ℕ) × (lo ≤ k) × (k < hi) × (k ≢ ordinal) × (e ≡ raft_endpoint cluster k)

module _ (cluster : Cluster) (ordinal : ℕ) (e : String) where
  IsOther-peers :
      (i n : ℕ) → In e (peers_from cluster ordinal i n) → IsOther cluster ordinal i (i + n) e
  unfolding peers_from
  IsOther-peers i zero m = elim m [ ]
  IsOther-peers i (suc n) m = elim (Bool-cases (i == ordinal)) [
    | inl self ↦ later (IsOther-peers (suc i) n (rw self at m))
    | inr other ↦ elim (In-cons (rw other at m)) [
      | inl first ↦
          (i, omega arith, omega arith, λ s. ground arith, first ∙ peer_of-raft_endpoint cluster i)
      | inr rest ↦ later (IsOther-peers (suc i) n rest)
    ]
  ]
    where
      later :
          IsOther cluster ordinal (suc i) (suc i + n) e → IsOther cluster ordinal i (i + suc n) e
      later (k, lo, hi, differs, same) = (k, omega arith, omega arith, differs, same)

  peers-IsOther :
      (i n k : ℕ)
      → i ≤ k
      → k < i + n
      → k ≢ ordinal
      → e ≡ raft_endpoint cluster k
      → In e (peers_from cluster ordinal i n)
  unfolding peers_from
  peers-IsOther i zero k lo hi differs same = absurd (omega arith)
  peers-IsOther i (suc n) k lo hi differs same = elim (ℕ_discrete i k) [
    | yes at ↦ elim (Bool-cases (i == ordinal)) [
      | inl self ↦ absurd (differs (sym at ∙ (==_iff i ordinal).0 self))
      | inr other ↦ rw other (
          rw (same ∙ ap (raft_endpoint cluster) (sym at) ∙ sym (peer_of-raft_endpoint cluster i))
            here)
    ]
    | no past ↦
        let rest = peers-IsOther (suc i) n k (omega arith) (omega arith) differs same in
        elim (Bool-cases (i == ordinal)) [
          | inl self ↦ rw self rest
          | inr other ↦ rw other (there rest)
        ]
  ]

alone : (peers : List String) → ((e : String) → ¬ In e peers) → cluster_args_of 1 peers ≡ some []
alone [] h = refl
alone (p ∷ ps) h = absurd (h p here)

with_peer :
    (n : ℕ) (peers : List String) (e : String)
    → In e peers
    → cluster_args_of n peers ≡ some ("--initial-cluster" ∷ peers)
with_peer n [] e m = elim m [ ]
with_peer n (p ∷ ps) e m = refl

-- Another ordinal of a cluster of two nodes or more.
abbrev another : ℕ → ℕ
another ordinal = if ordinal == 0 then 1 else 0

pub cluster_args-many :
    (cluster : Cluster) (n ordinal : ℕ)
    → 1 < n
    → cluster_args cluster n ordinal ≡ some ("--initial-cluster" ∷ peers_from cluster ordinal 0 n)
unfolding cluster_args
cluster_args-many cluster n ordinal many =
    with_peer n (peers_from cluster ordinal 0 n) (raft_endpoint cluster (another ordinal)) (
      peers-IsOther cluster ordinal (raft_endpoint cluster (another ordinal)) 0 n (another ordinal)
        (omega arith) (ground arith) (λ s. ground arith) refl)

pub cluster_args-one :
    (cluster : Cluster) (n ordinal : ℕ)
    → n ≡ 1
    → ordinal < n
    → cluster_args cluster n ordinal ≡ some []
unfolding cluster_args
cluster_args-one cluster n ordinal one lt =
    rw one
      (alone (peers_from cluster ordinal 0 1) (λ e m. self (IsOther-peers cluster ordinal e 0 1 m)))
  where
    self : {e : String} → IsOther cluster ordinal 0 1 e → ⊥
    self (k, lo, hi, differs, same) = differs (omega arith)

-- Each node of the StatefulSet starts: alone without peers, and otherwise with exactly the Raft
-- endpoints of the other nodes, as the operator has them, so never with its own.
pub starts_with_peers :
    (cluster : Cluster) (n ordinal : ℕ) (e : String)
    → ordinal < n
    → ((n ≡ 1) × (cluster_args cluster n ordinal ≡ some []))
      ⊎ ((peers : List String) × (cluster_args cluster n ordinal
            ≡ some ("--initial-cluster" ∷ peers))
          × (In e peers ↔ IsOther cluster ordinal 0 n e))
starts_with_peers cluster n ordinal e lt = elim (ℕ_discrete n 1) [
  | yes one ↦ inl (one, cluster_args-one cluster n ordinal one lt)
  | no many ↦ inr (
    peers_from cluster ordinal 0 n,
    cluster_args-many cluster n ordinal (omega arith),
    (
      λ m. at_zero (IsOther-peers cluster ordinal e 0 n m),
      λ (k, lo, hi, differs, same).
          peers-IsOther cluster ordinal e 0 n k lo (omega arith) differs same,
    ),
  )
]
  where
    at_zero : IsOther cluster ordinal 0 (0 + n) e → IsOther cluster ordinal 0 n e
    at_zero (k, lo, hi, differs, same) = (k, lo, omega arith, differs, same)
