-- ===== src/Settled/Share.antt =====
-- What `placementConverged` says of each node's share (internal/controller/autoscaler.go).
use kahuna_k8s_operator.Common.{
  ℕ, ◌/◌, max, ◌==◌, leb, String, ◌≡◌, refl, Bool, ◌||◌, ◌&&◌, Option, List, [], ◌∷◌, all, range,
  str_eq, arith,
}
use kahuna_k8s_operator.Common.Dict.{Dict}
use kahuna_k8s_operator.Api.{Cluster}
use kahuna_k8s_operator.Naming.{raft_endpoint}
use kahuna_k8s_operator.Kahuna.{Placement}
use kahuna_k8s_operator.Settled.{
  count_of, placement_settled, first_short, clock_out, placement_converged,
}

-- Every one of the first `n` nodes holds at least so many replicas.
abbrev pub all_hold : Cluster → Dict String ℕ → ℕ → List ℕ → Bool
all_hold cluster hosted least = all (λ i. leb least (count_of hosted (raft_endpoint cluster i)))

first_short-all_hold :
    (cluster : Cluster) (hosted : Dict String ℕ) (least share : ℕ) (is : List ℕ)
    → (first_short cluster hosted least share is).0 ≡ all_hold cluster hosted least is
unfolding first_short
first_short-all_hold cluster hosted least share [] = refl
first_short-all_hold cluster hosted least share (i ∷ is) =
    ground (arith, first_short-all_hold cluster hosted least share is)

-- The placement counts as converged exactly when `placementSettled` gives no reason to wait and,
-- besides, there is no whole share to wait for, or the settle clock has run out, or every node
-- holds at least half of the even share and at least one replica.
pub placement_converged_iff :
    (cluster : Cluster) (p : Option Placement) (current now : ℕ) (settle_by : Option ℕ)
    → let s = placement_settled cluster p current in
      let share = s.total / current in
      (placement_converged cluster p current now settle_by).0 ≡ (
        str_eq s.reason ""
        && (share == 0
            || (clock_out now settle_by
                || all_hold cluster s.hosted (max 1 (share / 2)) (range current))))
unfolding placement_converged
placement_converged_iff cluster p current now settle_by =
    let s = placement_settled cluster p current in
    let share : ℕ = s.total / current in
    ground (arith, first_short-all_hold cluster s.hosted (max 1 (share / 2)) share (range current))
