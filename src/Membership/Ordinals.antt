-- ===== src/Membership/Ordinals.antt =====
-- A pod's ordinal is read back from its name (internal/controller/membership.go, `ordinalOf`).
use text.Mathlib.TextLemmas.{nil-append, cons-append}
use kahuna_k8s_operator.Common.{ℕ, ◌<◌, ◌^◌, String, ◌<>◌, ◌≡◌, refl, true, none, some, arith}
use kahuna_k8s_operator.Common.Int.{pos}
use kahuna_k8s_operator.Common.Decimal.{decimal, all_digits, decimal-all_digits, atoi-decimal}
use kahuna_k8s_operator.Api.{Cluster}
use kahuna_k8s_operator.Naming.{pod_name}
use kahuna_k8s_operator.Membership.{after_last_dash, ordinal_of}

after_last_dash-digits : (s : String) → all_digits s ≡ true → after_last_dash s ≡ none
unfolding after_last_dash
after_last_dash-digits String.[] h = refl
after_last_dash-digits (String.◌∷◌ c s) h = ground (arith, after_last_dash-digits s)

after_last_dash-append :
    (s t r : String) → after_last_dash t ≡ some r → after_last_dash (s <> t) ≡ some r
unfolding after_last_dash
after_last_dash-append String.[] t r h = rw (nil-append t) h
after_last_dash-append (String.◌∷◌ c s) t r h =
    rw (cons-append c s t) (rw (after_last_dash-append s t r h, after_last_dash) refl)

after_last_dash-dash : (t : String) → after_last_dash t ≡ none → after_last_dash ("-" <> t) ≡ some t
unfolding after_last_dash
after_last_dash-dash t h =
    rw (cons-append "-" "" t) (rw (nil-append t) (rw (h, after_last_dash) refl))

-- Whatever the cluster is called, dashes included, an ordinal below 2^31 is read back from the name
-- of its pod.
pub ordinal_of-pod_name :
    (cluster : Cluster) (i : ℕ) → i < 2 ^ 31 → ordinal_of (pod_name cluster i) ≡ pos i
unfolding ordinal_of pod_name
ordinal_of-pod_name cluster i h =
    rw
      (
        after_last_dash-append cluster.name ("-" <> decimal i) (decimal i) (
            after_last_dash-dash (decimal i)
              (after_last_dash-digits (decimal i) (decimal-all_digits i))),
        ordinal_of,
      )
      (rw (atoi-decimal i (omega arith)) (ground arith))
