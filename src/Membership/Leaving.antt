-- ===== src/Membership/Leaving.antt =====
-- When a pod may be taken away (internal/controller/membership.go, `decommission`).
use kahuna_k8s_operator.Common.{
  find-In, find-none, string_dec, In, Bool, Bool-cases, ◌≢◌, ◌&&◌, not, str_eq, str_eq→eq, ℕ, ◌≤◌,
  length, String, ◌≡◌, refl, ◌⊎◌, inl, inr, true, none, some, List, Option-cases, arith,
}
use kahuna_k8s_operator.Api.{Cluster, Pod}
use kahuna_k8s_operator.Naming.{pod_name}
use kahuna_k8s_operator.Kahuna.{LeaveResult, removed, outcome_committed, outcome_not_a_member}
use kahuna_k8s_operator.Kahuna.Errors.{Result, ok, err}
use kahuna_k8s_operator.Kahuna.Client.{Client}
use kahuna_k8s_operator.Membership.{decommission, answered, pod_to_ask, pod_base_url}

-- No listed pod of the ordinal has an address, so there is no node to ask.
abbrev pub HasNoPod : Cluster → List Pod → ℕ → Type 0
HasNoPod cluster pods ordinal =
    (pod : Pod) → In pod pods → pod.name ≡ pod_name cluster ordinal → pod.pod_ip ≡ ""

-- A listed pod of the ordinal was asked to leave, and its node answered that it is no member.
abbrev pub HasLeft : {F : Type 0} → Client F → Cluster → List Pod → ℕ → Type 0
HasLeft client cluster pods ordinal =
    (pod : Pod) × (l : LeaveResult) × In pod pods
    × (pod.name ≡ pod_name cluster ordinal)
    × (pod.pod_ip ≢ "")
    × (client.leave (pod_base_url cluster pod) ≡ ok l)
    × ((l.outcome ≡ outcome_committed) ⊎ (l.outcome ≡ outcome_not_a_member))

removed-outcome :
    (l : LeaveResult)
    → removed l ≡ true
    → (l.outcome ≡ outcome_committed) ⊎ (l.outcome ≡ outcome_not_a_member)
unfolding removed
removed-outcome l h = elim (Bool-cases (str_eq l.outcome outcome_committed)) [
  | inl committed ↦ inl (str_eq→eq l.outcome outcome_committed committed)
  | inr other ↦ inr (str_eq→eq l.outcome outcome_not_a_member (rw other at h))
]

answered-left :
    (name url : String) (r : Result LeaveResult)
    → (answered name url r).left ≡ true
    → (l : LeaveResult) × (r ≡ ok l) × (removed l ≡ true)
answered-left name url (err e) h = cc
answered-left name url (ok l) h = (l, refl, ground arith)

abbrev is_asked : Cluster → ℕ → Pod → Bool
is_asked cluster ordinal p = str_eq p.name (pod_name cluster ordinal) && not (str_eq p.pod_ip "")

pod_to_ask-HasNoPod :
    (cluster : Cluster) (pods : List Pod) (ordinal : ℕ)
    → pod_to_ask cluster pods ordinal ≡ none
    → HasNoPod cluster pods ordinal
pod_to_ask-HasNoPod cluster pods ordinal e pod m same = elim (string_dec pod.pod_ip "") [
  | yes none_given ↦ none_given
  | no given ↦
      absurd (ground (arith, same, given, find-none (is_asked cluster ordinal) pods pod e m))
]

pod_to_ask-In :
    (cluster : Cluster) (pods : List Pod) (ordinal : ℕ) (pod : Pod)
    → pod_to_ask cluster pods ordinal ≡ some pod
    → In pod pods × (pod.name ≡ pod_name cluster ordinal) × (pod.pod_ip ≢ "")
pod_to_ask-In cluster pods ordinal pod e =
    let (m, asked) = find-In (is_asked cluster ordinal) pods pod e in
    (m, ground (arith, asked), λ none_given. ground (arith, asked, none_given))

-- `decommission` reports that the pod may go only if its node has left, or if there is no node to
-- ask.
pub decommission_safe :
    {F : Type 0} (client : Client F) (cluster : Cluster) (pods : List Pod) (ordinal : ℕ)
    → (decommission client cluster pods ordinal).left ≡ true
    → HasNoPod cluster pods ordinal ⊎ HasLeft client cluster pods ordinal
unfolding decommission
decommission_safe client cluster pods ordinal h =
    elim (Option-cases (pod_to_ask cluster pods ordinal)) [
      | inl e ↦ inl (pod_to_ask-HasNoPod cluster pods ordinal e)
      | inr (pod, e) ↦
          let url = pod_base_url cluster pod in
          let (l, replied, out) =
            answered-left (pod_name cluster ordinal) url (client.leave url)
              (rw (e, decommission) at h) in
          let (m, named, has_ip) = pod_to_ask-In cluster pods ordinal pod e in
          inr (pod, l, m, named, has_ip, replied, removed-outcome l out)
    ]

-- Each listed pod of the ordinal that has an address leaves when it is asked to.
abbrev pub Leaves : {F : Type 0} → Client F → Cluster → List Pod → ℕ → Type 0
Leaves client cluster pods ordinal =
    (pod : Pod)
    → In pod pods
    → pod.name ≡ pod_name cluster ordinal
    → pod.pod_ip ≢ ""
    → (l : LeaveResult) × (client.leave (pod_base_url cluster pod) ≡ ok l)
      × ((l.outcome ≡ outcome_committed) ⊎ (l.outcome ≡ outcome_not_a_member))

outcome-removed :
    (l : LeaveResult)
    → (l.outcome ≡ outcome_committed) ⊎ (l.outcome ≡ outcome_not_a_member)
    → removed l ≡ true
unfolding removed
outcome-removed l (inl e) = ground arith
outcome-removed l (inr e) = ground arith

pub decommission-Leaves :
    {F : Type 0} (client : Client F) (cluster : Cluster) (pods : List Pod) (ordinal : ℕ)
    → Leaves client cluster pods ordinal
    → (decommission client cluster pods ordinal).left ≡ true
unfolding decommission
decommission-Leaves client cluster pods ordinal leaves =
    elim (Option-cases (pod_to_ask cluster pods ordinal)) [
      | inl e ↦ rw (e, decommission) refl
      | inr (pod, e) ↦
          let (m, named, has_ip) = pod_to_ask-In cluster pods ordinal pod e in
          let (l, replied, out) = leaves pod m named has_ip in
          rw (e, decommission, replied, outcome-removed l out) refl
    ]

answered-asked :
    (name url : String) (r : Result LeaveResult) → length (answered name url r).asked ≡ 1
answered-asked name url (err e) = refl
answered-asked name url (ok l) = ground arith

-- At most one leave request is sent.
pub decommission-asked :
    {F : Type 0} (client : Client F) (cluster : Cluster) (pods : List Pod) (ordinal : ℕ)
    → length (decommission client cluster pods ordinal).asked ≤ 1
unfolding decommission
decommission-asked client cluster pods ordinal =
    elim (Option-cases (pod_to_ask cluster pods ordinal)) [
      | inl e ↦ rw (e, decommission) (omega arith)
      | inr (pod, e) ↦
          rw (e, decommission)
            (omega (
              arith,
              answered-asked (pod_name cluster ordinal) (pod_base_url cluster pod)
                  (client.leave (pod_base_url cluster pod)),
            ))
    ]
