-- ===== src/Membership/Joining.antt =====
-- The join of the roster with the pods (internal/controller/membership.go, `buildMemberStatus`).
use kahuna_k8s_operator.Common.{
  ℕ, ◌<◌, ◌≡◌, refl, ◌∙◌, String, Bool, List, [], ◌∷◌, map, keep, length, count_if,
  count_if-sort_stable, str_eq, string_dec, arith,
}
use kahuna_k8s_operator.Common.Dict.{Dict, lookup, lookup-copy-entries}
use kahuna_k8s_operator.Api.{Cluster, Pod, MemberStatus}
use kahuna_k8s_operator.Naming.{raft_endpoint, pod_name}
use kahuna_k8s_operator.Naming.Laws.{raft_endpoint_inj}
use kahuna_k8s_operator.Kahuna.{Member, Membership, voters, role_voter}
use kahuna_k8s_operator.Membership.{
  build_member_status, member_status, count_roles, endpoint_to_pod, ready_of,
}

-- A member under the endpoint of an ordinal that the loop covers is joined to the pod of that
-- ordinal: it gets the pod's name, and is ready exactly when a listed pod of that name is.
pub member_status-pod_name :
    (cluster : Cluster) (n : ℕ) (by_name : Dict String Pod) (mem : Member) (i : ℕ)
    → i < n
    → mem.endpoint ≡ raft_endpoint cluster i
    → ((member_status (endpoint_to_pod cluster n) by_name mem).pod_name ≡ pod_name cluster i)
      × ((member_status (endpoint_to_pod cluster n) by_name mem).ready
          ≡ ready_of (lookup string_dec (pod_name cluster i) by_name))
unfolding member_status endpoint_to_pod
member_status-pod_name cluster n by_name mem i h e =
    let found =
      lookup-copy-entries string_dec (raft_endpoint cluster) (pod_name cluster)
        (raft_endpoint_inj cluster) [] i 0 n (omega arith) (omega arith) in
    ground (arith, found)

abbrev voting : MemberStatus → Bool
voting m = str_eq m.role role_voter

count_roles-voting : (ms : List MemberStatus) → (count_roles ms).0 ≡ count_if voting ms
unfolding count_roles
count_roles-voting [] = refl
count_roles-voting (m ∷ ms) = ground (arith, count_roles-voting ms)

count_if-member_status :
    (names : Dict String String) (by_name : Dict String Pod) (ms : List Member)
    → count_if voting (map (member_status names by_name) ms)
      ≡ length (keep (λ (m : Member). str_eq m.role role_voter) ms)
unfolding member_status
count_if-member_status names by_name [] = refl
count_if-member_status names by_name (m ∷ ms) =
    ground (arith, count_if-member_status names by_name ms)

-- The voters that status reports are as many as the roster has, whatever pods exist.
pub count_roles-build_member_status :
    (cluster : Cluster) (m : Membership) (pods : List Pod)
    → (count_roles (build_member_status cluster m pods)).0 ≡ length (voters m)
unfolding build_member_status voters
count_roles-build_member_status cluster m pods =
    count_roles-voting _
    ∙ (count_if-sort_stable _ voting (map _ m.members) ∙ count_if-member_status _ _ m.members)
