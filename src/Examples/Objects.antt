-- ===== src/Examples/Objects.antt =====
-- The theorems on the objects of a cluster with TLS and backups.
use kahuna_k8s_operator.Common.{
  Bool, String, [], all, any, contains, none, not, refl, some, str_eq, string_dec, true, ◌↔◌, ◌∷◌,
  ◌≡◌, ◌⊎◌,
}
use kahuna_k8s_operator.Api.{CertManagerSpec, Cluster, SecretKeySelector}
use kahuna_k8s_operator.Certificate.{Secret, certificate_dns_names, tls_secret_name}
use kahuna_k8s_operator.Certificate.Keystore.{certificate_ready, replace_stale_keystore}
use kahuna_k8s_operator.Certificate.Names.{certificate_covers, covers}
use kahuna_k8s_operator.Certificate.Ready.{IsReady, certificate_ready_iff}
use kahuna_k8s_operator.Certificate.Stale.{IsRefused, replace_stale_deletes}
use kahuna_k8s_operator.Common.Dict.{Dict, lookup}
use kahuna_k8s_operator.Examples.{nightly, three}
use kahuna_k8s_operator.Examples.Server.{store}
use kahuna_k8s_operator.Naming.{certificate_name, pod_fqdn}
use kahuna_k8s_operator.Resources.Mounts.{available, mounted, mounts_match}
use kahuna_k8s_operator.Resources.Template.{resized, template_unscaled}
use kahuna_k8s_operator.Resources.Workload.{desired_stateful_set}

-- The cluster of three with a certificate of cert-manager's and with backups.
abbrev guarded : Cluster
guarded = record three {
  spec = record three.spec {
    tls = record three.spec.tls { cert_manager = some issuer; password_secret_ref = some password };
    backup = some nightly;
  };
}
  where
    issuer : CertManagerSpec
    issuer = record {
      issuer_name = "ca";
      issuer_kind = "Issuer";
      issuer_group = "";
      duration = none;
      renew_before = none;
    }

    password : SecretKeySelector
    password = record { name = "tls"; key = "pw" }

abbrev digest : String → String
digest text = text

template_unscaled_example :
    ((desired_stateful_set digest (resized guarded (some 5) none three.status) 0).template
      ≡ (desired_stateful_set digest guarded 0).template)
    × ((desired_stateful_set digest (resized guarded (some 5) none three.status) 0).claims
        ≡ (desired_stateful_set digest guarded 0).claims)
template_unscaled_example = template_unscaled digest guarded 0 (some 5) none three.status

mounts_match_example :
    (all
        (contains (available (desired_stateful_set digest guarded 0)))
        (mounted (desired_stateful_set digest guarded 0))
      ≡ true)
    × (all
          (contains (mounted (desired_stateful_set digest guarded 0)))
          (available (desired_stateful_set digest guarded 0))
        ≡ true)
mounts_match_example = mounts_match digest guarded

certificate_covers_example :
    any (λ name. covers name (pod_fqdn three 12)) (certificate_dns_names three) ≡ true
certificate_covers_example = certificate_covers three 12 refl

abbrev keystore : Secret
keystore = record {
  labels = [];
  annotations = ("cert-manager.io/certificate-name", certificate_name guarded) ∷ [];
  entries = ("keystore.p12", "old") ∷ [];
}

abbrev password : Secret
password = record { labels = []; annotations = []; entries = ("pw", "new") ∷ [] }

abbrev held_secrets : Dict String Secret
held_secrets = (tls_secret_name guarded, keystore) ∷ ("tls", password) ∷ []

-- A keystore is opened by the password that it was made with.
abbrev refuses : String → String → Bool
refuses keystore password = not (str_eq keystore password)

certificate_ready_iff_example :
    ((certificate_ready store refuses guarded held_secrets).0 ≡ true)
    ↔ IsReady store refuses guarded held_secrets
certificate_ready_iff_example = certificate_ready_iff store refuses guarded held_secrets

replace_stale_deletes_example :
    (lookup string_dec "tls" (replace_stale_keystore store refuses guarded held_secrets).1
      ≡ some password)
    ⊎ (("tls" ≡ tls_secret_name guarded) × IsRefused store refuses guarded held_secrets password)
unfolding tls_secret_name string_dec lookup
replace_stale_deletes_example =
    replace_stale_deletes store refuses guarded held_secrets "tls" password refl
