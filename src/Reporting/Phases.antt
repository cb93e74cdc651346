-- ===== src/Reporting/Phases.antt =====
-- What the phase and the flags of status say
-- (internal/controller/kahunacluster_controller.go, `reconcileStatus`).
use mathlib.Core.Path.{subst}
use mathlib.Core.Option.{some-injective}
use kahuna_k8s_operator.Common.{
  inl, inr, Bool-cases, sym, ℕ, ◌≤◌, ◌≡◌, refl, ◌↔◌, ◌⊎◌, true, false, Option, none, some, List,
  length, arith,
}
use kahuna_k8s_operator.Api.{Cluster, running, degraded, Pod}
use kahuna_k8s_operator.Naming.{desired_replicas}
use kahuna_k8s_operator.Kahuna.{Membership, voters}
use kahuna_k8s_operator.Membership.Joining.{count_roles-build_member_status}
use kahuna_k8s_operator.Reporting.{Observed, phase_of, has_quorum, StatefulSet, observe_status}

-- A cluster is Running exactly when it is bootstrapped, its roster is known and is as many Voters
-- as desired with no Learner, the StatefulSet has the desired size, at least that many nodes are
-- ready, and the image is current. (At least one node is desired.)
pub phase_running_iff :
    (o : Observed) (desired : ℕ)
    → 1 ≤ desired
    → (phase_of o desired ≡ running) ↔ (
        (o.bootstrapped ≡ true)
        × (o.roster_known ≡ true)
        × (o.voters ≡ desired)
        × (o.learners ≡ 0)
        × (o.replicas ≡ desired)
        × (desired ≤ o.ready_replicas)
        × (o.image_current ≡ true))
unfolding phase_of
phase_running_iff o desired h = (λ e. ground arith, λ e. ground arith)

-- A bootstrapped cluster is Degraded exactly when fewer than a majority of the desired nodes are
-- ready or the roster could not be read.
phase_degraded_iff :
    (o : Observed) (desired : ℕ)
    → o.bootstrapped ≡ true
    → (phase_of o desired ≡ degraded)
      ↔ ((has_quorum o.ready_replicas desired ≡ false) ⊎ (o.roster_known ≡ false))
unfolding phase_of
phase_degraded_iff o desired h = (λ e. ground arith, λ e. ground arith)

-- The bootstrapped flag is set exactly when it was set before, or when a roster was read that is
-- committed and has at least as many Voters as nodes are desired.
pub observe_status-bootstrapped :
    (cluster : Cluster) (sts : StatefulSet) (pods : List Pod) (m : Option Membership)
    → ((observe_status cluster sts pods m).bootstrapped ≡ true) ↔ (
        (cluster.status.bootstrapped ≡ true)
        ⊎ ((r : Membership) × (m ≡ some r)
            × (1 ≤ r.membership_version)
            × (desired_replicas cluster ≤ length (voters r))))
unfolding observe_status
observe_status-bootstrapped cluster sts pods none = (λ h. inl (ground arith), λ h. ground arith)
observe_status-bootstrapped cluster sts pods (some r) = (
  λ h. elim (Bool-cases cluster.status.bootstrapped) [
    | inl before ↦ inl before
    | inr fresh ↦
        inr (r, refl, ground arith, ground (arith, count_roles-build_member_status cluster r pods))
  ],
  λ h. elim h [
    | inl before ↦ ground arith
    | inr (q, e, committed, enough) ↦
        latches (subst Enough (sym (some-injective r q e)) (committed, enough))
  ],
)
  where
    Enough : Membership → Type 0
    Enough x = (1 ≤ x.membership_version) × (desired_replicas cluster ≤ length (voters x))

    latches : Enough r → (observe_status cluster sts pods (some r)).bootstrapped ≡ true
    latches (committed, enough) = ground (arith, count_roles-build_member_status cluster r pods)
