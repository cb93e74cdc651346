-- ===== src/Membership.antt =====
-- Reading the roster and asking a node to leave it (internal/controller/membership.go).
pub mod Ordinals
pub mod Reading
pub mod Joining
pub mod Leaving
use Prim.Native.Nat.{Ordering}
use Prim.Native.Char.{code}
use Prim.Native.String.{compare}
use kahuna_k8s_operator.Common.{
  ℕ, suc, ◌+◌, ◌-◌, ◌%◌, ◌^◌, ◌==◌, ltb, leb, String, ◌<>◌, Bool, true, false, ◌&&◌, not, Option,
  none, some, List, [], ◌∷◌, map, keep, find, length, sort_stable, range, str_eq, string_dec,
  if◌then◌else◌,
}
use kahuna_k8s_operator.Common.Int.{ℤ, pos, negsuc, to_int32}
use kahuna_k8s_operator.Common.Decimal.{decimal, atoi}
use kahuna_k8s_operator.Common.Dict.{Dict, copy, lookup, entries}
use kahuna_k8s_operator.Api.{Cluster, Pod, PodCondition, MemberStatus}
use kahuna_k8s_operator.Naming.{ports, pod_name, raft_endpoint, desired_replicas}
use kahuna_k8s_operator.Kahuna.{Member, Membership, LeaveResult, removed, role_voter, role_learner}
use kahuna_k8s_operator.Kahuna.Errors.{Error, other, Result, ok, err, error_text}
use kahuna_k8s_operator.Kahuna.Client.{Client}

unfoldable pub pod_base_url : Cluster → Pod → String
pod_base_url cluster pod = "http://" <> (pod.pod_ip <> (":" <> decimal (ports cluster).http))

-- What follows the last dash; `none` is `strings.LastIndex` giving -1.
unfoldable pub after_last_dash : String → Option String
after_last_dash String.[] = none
after_last_dash (String.◌∷◌ c s) = elim (after_last_dash s) [
  | some rest ↦ some rest
  | none ↦ if code c == 45 then some s else none
]

-- -1 for a text that is no number, or a negative one.
abbrev ordinal_of_number : Option ℤ → ℤ
ordinal_of_number none = negsuc 0
ordinal_of_number (some (negsuc n)) = negsuc 0
ordinal_of_number (some (pos n)) = to_int32 n

unfoldable pub ordinal_of : String → ℤ
unfolding after_last_dash atoi
ordinal_of pod = elim (after_last_dash pod) [
  | none ↦ negsuc 0
  | some rest ↦ ordinal_of_number (atoi rest)
]

-- `!(o < 0 || o >= bound)` for the pod's ordinal `o`.
unfoldable pub is_below : Pod → ℕ → Bool
is_below pod bound = elim (ordinal_of pod.name) [ pos o ↦ ltb o bound | negsuc o ↦ false ]

-- The loop of `podIsReady` over the conditions.
unfoldable pub ready_in : List PodCondition → Bool
ready_in [] = false
ready_in (c ∷ cs) = if str_eq c.kind "Ready" then str_eq c.status "True" else ready_in cs

unfoldable pub pod_is_ready : Pod → Bool
unfolding ready_in
pod_is_ready pod = ready_in pod.conditions

-- The bits of an int32.
abbrev bits : ℤ → ℕ
bits (pos n) = n
bits (negsuc n) = 2 ^ 32 - 1 - n

-- The int32 difference of two ordinals is negative; it wraps around.
abbrev ordinal_less : String → String → Bool
ordinal_less a b = leb (2 ^ 31) ((bits (ordinal_of a) + 2 ^ 32 - bits (ordinal_of b)) % 2 ^ 32)

-- The comparison function gives a negative number.
abbrev pub comes_before : Pod → Pod → Bool
comes_before a b =
    if pod_is_ready a
    then (if pod_is_ready b then ordinal_less a.name b.name else true)
    else if pod_is_ready b
    then false
    else ordinal_less a.name b.name

abbrev pub is_candidate : Pod → Bool
is_candidate p = not (str_eq p.pod_ip "") && not p.deleting

unfoldable pub candidates : List Pod → List Pod
candidates pods = sort_stable comes_before (keep is_candidate pods)

abbrev last_error : Option Error → Error
last_error none = other "no pod was reachable"
last_error (some e) = e

module _ {F : Type 0} (client : Client F) (cluster : Cluster) where
  -- The loop over the candidates; the first answer is taken.
  unfoldable pub first_answer : Option Error → List Pod → Result Membership
  first_answer last [] = err (last_error last)
  first_answer last (p ∷ ps) = elim (client.membership (pod_base_url cluster p)) [
    | ok m ↦ ok m
    | err e ↦ first_answer (some e) ps
  ]

  unfoldable pub read_membership : List Pod → Result Membership
  unfolding first_answer candidates
  read_membership pods = first_answer none (candidates pods)

-- The maps that `buildMemberStatus` builds first.
unfoldable pub pods_by_name : List Pod → Dict String Pod
pods_by_name pods = copy string_dec [] (map (λ (p : Pod). (p.name, p)) pods)

unfoldable pub endpoint_to_pod : Cluster → ℕ → Dict String String
endpoint_to_pod cluster n =
    copy string_dec [] (entries string_dec (raft_endpoint cluster) (pod_name cluster) 0 n)

abbrev pub ready_of : Option Pod → Bool
ready_of none = false
ready_of (some pod) = pod_is_ready pod

abbrev joined : Member → Option String → Dict String Pod → MemberStatus
joined mem name by_name =
    let st : MemberStatus = record {
      pod_name = "";
      endpoint = mem.endpoint;
      node_id = mem.node_id;
      role = mem.role;
      joined_version = mem.joined_version;
      ready = false;
    } in
    elim name [
      | none ↦ st
      | some n ↦ record st { pod_name = n; ready = ready_of (lookup string_dec n by_name) }
    ]

-- The body of the loop over the members.
unfoldable pub member_status : Dict String String → Dict String Pod → Member → MemberStatus
member_status names by_name mem = joined mem (lookup string_dec mem.endpoint names) by_name

-- `strings.Compare(a.Endpoint, b.Endpoint) < 0`
abbrev endpoint_less : MemberStatus → MemberStatus → Bool
endpoint_less a b = elim (compare a.endpoint b.endpoint) [ Ordering.lt ↦ true | _ ↦ false ]

unfoldable pub build_member_status : Cluster → Membership → List Pod → List MemberStatus
unfolding member_status endpoint_to_pod pods_by_name
build_member_status cluster m pods = sort_stable endpoint_less (
    map
      (member_status (endpoint_to_pod cluster (length pods + desired_replicas cluster))
        (pods_by_name pods))
      m.members)

-- The voters and the learners.
unfoldable pub count_roles : List MemberStatus → ℕ × ℕ
count_roles [] = (0, 0)
count_roles (m ∷ ms) =
    let (voters, learners) = count_roles ms in
    if str_eq m.role role_voter
    then (suc voters, learners)
    else if str_eq m.role role_learner
    then (voters, suc learners)
    else (voters, learners)

-- What `decommission` returns, with the URLs that it sent a leave request to.
pub record Decommission : Type 0 where
  pub left : Bool
  pub reason : String
  pub asked : List String

-- The pod to ask: the one with the name, if it has an address.
abbrev pub pod_to_ask : Cluster → List Pod → ℕ → Option Pod
pod_to_ask cluster pods ordinal =
    find (λ (p : Pod). str_eq p.name (pod_name cluster ordinal) && not (str_eq p.pod_ip "")) pods

abbrev answered : String → String → Result LeaveResult → Decommission
answered name url (err e) = record {
  left = false;
  reason = "could not ask " <> (name <> (" to leave the cluster: " <> error_text e));
  asked = url ∷ [];
}
answered name url (ok l) =
    if removed l
    then record { left = true; reason = ""; asked = url ∷ [] }
    else if not l.retryable
    then record {
      left = false;
      reason = name <> (" refused to leave: " <> l.reason);
      asked = url ∷ [];
    }
    else record {
      left = false;
      reason = "waiting for " <> (name <> (" to leave the cluster: " <> l.reason));
      asked = url ∷ [];
    }

unfoldable pub decommission : {F : Type 0} → Client F → Cluster → List Pod → ℕ → Decommission
decommission client cluster pods ordinal = elim (pod_to_ask cluster pods ordinal) [
  | none ↦ record { left = true; reason = ""; asked = [] }
  | some pod ↦
      answered (pod_name cluster ordinal) (pod_base_url cluster pod)
        (client.leave (pod_base_url cluster pod))
]
