-- ===== src/Certificate/Names.antt =====
-- The names in the certificate (internal/controller/certificate.go, `certificateDNSNames`).
use Prim.Native.Char.{code}
use text.Mathlib.TextLemmas.{nil-append, cons-append}
use kahuna_k8s_operator.Common.{
  ℕ, ◌==◌, ◌≡◌, refl, String, ◌<>◌, Bool, true, false, not, ◌&&◌, Option, none, some, any, str_eq,
  str_eq_refl, if◌then◌else◌, arith,
}
use kahuna_k8s_operator.Common.Decimal.{decimal, all_digits, decimal-all_digits}
use kahuna_k8s_operator.Api.{Cluster}
use kahuna_k8s_operator.Naming.{pod_name, pod_fqdn, peer_domain}
use kahuna_k8s_operator.Certificate.{certificate_dns_names}

abbrev pub has_no_dot : String → Bool
has_no_dot String.[] = true
has_no_dot (String.◌∷◌ c s) = not (code c == 46) && has_no_dot s

-- What stands behind the first dot.
unfoldable pub after_dot : String → Option String
after_dot String.[] = none
after_dot (String.◌∷◌ c s) = if code c == 46 then some s else after_dot s

abbrev same_rest : Option String → Option String → Bool
same_rest none t = false
same_rest (some r) none = false
same_rest (some r) (some t) = str_eq r t

-- A name with a wildcard as its first label stands for any one label there, as in RFC 6125.
unfoldable pub covers : String → String → Bool
unfolding after_dot
covers String.[] host = false
covers (String.◌∷◌ c s) host =
    if code c == 42 then same_rest (after_dot s) (after_dot host) else str_eq (String.◌∷◌ c s) host

after_dot-append : (s t : String) → has_no_dot s ≡ true → after_dot (s <> ("." <> t)) ≡ some t
unfolding after_dot
after_dot-append String.[] t h = rw (nil-append ("." <> t), cons-append "." "" t, nil-append t) refl
after_dot-append (String.◌∷◌ c s) t h =
    rw (cons-append c s ("." <> t)) (ground (arith, after_dot-append s t))

has_no_dot-append :
    (s t : String) → has_no_dot s ≡ true → has_no_dot t ≡ true → has_no_dot (s <> t) ≡ true
has_no_dot-append String.[] t h k = rw (nil-append t) k
has_no_dot-append (String.◌∷◌ c s) t h k =
    rw (cons-append c s t) (ground (arith, has_no_dot-append s t))

has_no_dot-digits : (s : String) → all_digits s ≡ true → has_no_dot s ≡ true
has_no_dot-digits String.[] h = refl
has_no_dot-digits (String.◌∷◌ c s) h = ground (arith, has_no_dot-digits s)

pod_name-no_dot :
    (cluster : Cluster) (i : ℕ)
    → has_no_dot cluster.name ≡ true
    → has_no_dot (pod_name cluster i) ≡ true
unfolding pod_name
pod_name-no_dot cluster i h =
    has_no_dot-append cluster.name ("-" <> decimal i) h (
      has_no_dot-append "-" (decimal i) refl (has_no_dot-digits (decimal i) (decimal-all_digits i)))

covers-wildcard :
    (rest host : String) → after_dot host ≡ some rest → covers ("*." <> rest) host ≡ true
unfolding covers
covers-wildcard rest host h =
    rw (cons-append "*" "." rest, cons-append "." "" rest, nil-append rest, h) (str_eq_refl rest)

-- Where the cluster's name has no dot, the certificate covers the name under which each node is
-- reached, whatever its ordinal.
pub certificate_covers :
    (cluster : Cluster) (i : ℕ)
    → has_no_dot cluster.name ≡ true
    → any (λ name. covers name (pod_fqdn cluster i)) (certificate_dns_names cluster) ≡ true
unfolding certificate_dns_names pod_fqdn
certificate_covers cluster i h =
    rw
      (covers-wildcard (peer_domain cluster) (pod_fqdn cluster i)
        (after_dot-append (pod_name cluster i) (peer_domain cluster) (pod_name-no_dot cluster i h)))
      refl
