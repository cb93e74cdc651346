-- ===== src/Plan/Roster.antt =====
-- What it means that the roster matches (internal/controller/plan.go, `rosterMatches`).
use kahuna_k8s_operator.Common.{
  ℕ, zero, suc, ◌+◌, ◌<◌, ◌≤◌, ◌≡◌, refl, ◌∙◌, sym, Bool, true, ◌&&◌, some, List, [], ◌∷◌, all, any,
  length, range_from, In, all-range, str_eq, str_eq_refl, arith, Bool-cases, inl, inr, ◌==◌, ==_iff,
}
use kahuna_k8s_operator.Common.Counting.{any-In, pigeonhole}
use kahuna_k8s_operator.Api.{Cluster}
use kahuna_k8s_operator.Naming.{raft_endpoint}
use kahuna_k8s_operator.Naming.Laws.{raft_endpoint_inj}
use kahuna_k8s_operator.Kahuna.{Member, Membership, has_voter, role_voter}
use kahuna_k8s_operator.Plan.{roster_matches}

-- The member is a Voter under the ordinal's endpoint.
abbrev pub IsVoterAt : Cluster → ℕ → Member → Type 0
IsVoterAt cluster i mem = (mem.endpoint ≡ raft_endpoint cluster i) × (mem.role ≡ role_voter)

abbrev test : Cluster → ℕ → Member → Bool
test cluster i mem = str_eq mem.endpoint (raft_endpoint cluster i) && str_eq mem.role role_voter

test→IsVoterAt :
    (cluster : Cluster) (i : ℕ) (mem : Member) → test cluster i mem ≡ true → IsVoterAt cluster i mem
test→IsVoterAt cluster i mem h = ground arith

has_voter-In :
    (cluster : Cluster) (i : ℕ) (m : Membership)
    → has_voter m (raft_endpoint cluster i) ≡ true
    → (mem : Member) × In mem m.members × IsVoterAt cluster i mem
unfolding has_voter
has_voter-In cluster i m h =
    let r = any-In (test cluster i) m.members h in (r.0, r.1, test→IsVoterAt cluster i r.0 r.2)

roster_matches-held :
    (cluster : Cluster) (m : Membership) (n : ℕ)
    → roster_matches cluster (some m) n ≡ true
    → (length m.members ≡ n)
      × ((i : ℕ) → i < n → (mem : Member) × In mem m.members × IsVoterAt cluster i mem)
unfolding roster_matches
roster_matches-held cluster m n h = (
  ground arith,
  λ i lt.
      has_voter-In cluster i m
        (all-range (λ k. has_voter m (raft_endpoint cluster k)) n i (ground arith) lt),
)

-- If the roster matches a size, every ordinal below it is a Voter, and every entry of the roster
-- is the Voter of one of these ordinals: nothing else is present.
pub roster_matches_exact :
    (cluster : Cluster) (m : Membership) (n : ℕ)
    → roster_matches cluster (some m) n ≡ true
    → ((i : ℕ) → i < n → has_voter m (raft_endpoint cluster i) ≡ true)
      × ((mem : Member) → In mem m.members → (i : ℕ) × (i < n) × IsVoterAt cluster i mem)
unfolding roster_matches
roster_matches_exact cluster m n h =
    let held = roster_matches-held cluster m n h in
    (
      λ i lt. all-range (λ k. has_voter m (raft_endpoint cluster k)) n i (ground arith) lt,
      pigeonhole (IsVoterAt cluster) (λ i j mem p q. raft_endpoint_inj cluster i j (sym p.0 ∙ q.0))
          n m.members held.0 held.1,
    )

-- The Voters of `n` ordinals from `i` on.
abbrev voters_from : Cluster → ℕ → ℕ → List Member
voters_from cluster i zero = []
voters_from cluster i (suc n) =
    record {
      endpoint = raft_endpoint cluster i;
      node_id = i + 1;
      role = role_voter;
      joined_version = 1;
    }
    ∷ voters_from cluster (suc i) n

-- A roster of exactly the Voters of a size.
abbrev pub full_roster : Cluster → ℕ → Membership
full_roster cluster n = record {
  membership_version = 1;
  members = voters_from cluster 0 n;
  local_role = role_voter;
  initialized = true;
}

length-voters_from : (cluster : Cluster) (i n : ℕ) → length (voters_from cluster i n) ≡ n
length-voters_from cluster i zero = refl
length-voters_from cluster i (suc n) = omega (arith, length-voters_from cluster (suc i) n)

any-voters_from :
    (cluster : Cluster) (i n k : ℕ)
    → i ≤ k
    → k < i + n
    → any (test cluster k) (voters_from cluster i n) ≡ true
any-voters_from cluster i zero k lo hi = absurd (omega arith)
any-voters_from cluster i (suc n) k lo hi = elim (Bool-cases (i == k)) [
  | inl same ↦
      rw ((==_iff i k).0 same)
        (rw (str_eq_refl (raft_endpoint cluster k), str_eq_refl role_voter) refl)
  | inr differ ↦ ground (arith, any-voters_from cluster (suc i) n k)
]

all-range_of :
    (p : ℕ → Bool) (i n : ℕ)
    → ((k : ℕ) → i ≤ k → k < i + n → p k ≡ true)
    → all p (range_from i n) ≡ true
all-range_of p i zero h = refl
all-range_of p i (suc n) h = ground (
  arith,
  h i (omega arith) (omega arith),
  all-range_of p (suc i) n (λ k lo hi. h k (omega arith) (omega arith)),
)

-- The roster of exactly the Voters of a size matches it.
pub roster_matches-full_roster :
    (cluster : Cluster) (n : ℕ) → roster_matches cluster (some (full_roster cluster n)) n ≡ true
unfolding roster_matches has_voter
roster_matches-full_roster cluster n = ground (
  arith,
  length-voters_from cluster 0 n,
  all-range_of (λ i. has_voter (full_roster cluster n) (raft_endpoint cluster i)) 0 n
      (λ k lo hi. any-voters_from cluster 0 n k lo hi),
)
