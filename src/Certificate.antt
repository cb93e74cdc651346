-- ===== src/Certificate.antt =====
-- The names of the keystore and of its password, and the cert-manager `Certificate`
-- (internal/controller/certificate.go, with `tlsSecretName` of internal/controller/resources.go).
pub mod Keystore
pub mod Names
pub mod Password
pub mod Ready
pub mod Stale
use Prim.Native.Char.{code}
use kahuna_k8s_operator.Common.{
  ℕ, ◌==◌, String, ◌<>◌, Bool, true, false, not, ◌&&◌, Option, none, some, List, [], ◌∷◌, ◌++◌,
  str_eq, string_dec, if◌then◌else◌,
}
use kahuna_k8s_operator.Common.Dict.{Dict, lookup}
use kahuna_k8s_operator.Api.{Cluster, CertManagerSpec, SecretKeySelector}
use kahuna_k8s_operator.Naming.{
  peer_service_name, client_service_name, certificate_name, pod_labels,
}
use kahuna_k8s_operator.Kahuna.Errors.{Error, Result, ok, err, wrapped, error_text}
use kahuna_k8s_operator.ApiServer.{
  Reply, found, missing, failed, Created, created, already_there, create_failed, Deleted, deleted,
  absent, conflicting, delete_failed, Objects,
}
use kahuna_k8s_operator.Entrypoint.Arguments.{keystore_key}

abbrev pub cert_manager_certificate_annotation : String
cert_manager_certificate_annotation = "cert-manager.io/certificate-name"

abbrev pub keystore_password_key : String
keystore_password_key = "password"

pub record Secret : Type 0 where
  pub labels : Dict String String
  pub annotations : Dict String String
  pub entries : Dict String String

unfoldable pub cert_password_secret_name : Cluster → String
cert_password_secret_name cluster = cluster.name <> "-tls-password"

abbrev generated_ref : Cluster → SecretKeySelector
unfolding cert_password_secret_name
generated_ref cluster = record {
  name = cert_password_secret_name cluster;
  key = keystore_password_key;
}

abbrev password_ref :
    Cluster → Option SecretKeySelector → Option CertManagerSpec → Option SecretKeySelector
password_ref cluster (some ref) cm = some ref
password_ref cluster none (some cm) = some (generated_ref cluster)
password_ref cluster none none = none

unfoldable pub tls_password_ref : Cluster → Option SecretKeySelector
unfolding cert_password_secret_name
tls_password_ref cluster =
    password_ref cluster cluster.spec.tls.password_secret_ref cluster.spec.tls.cert_manager

-- `tlsSecretName` (internal/controller/resources.go)
unfoldable pub tls_secret_name : Cluster → String
unfolding certificate_name
tls_secret_name cluster = elim cluster.spec.tls.secret_ref [
  | some name ↦ name
  | none ↦ certificate_name cluster
]

unfoldable pub certificate_dns_names : Cluster → List String
unfolding peer_service_name client_service_name
certificate_dns_names cluster =
    let peer = peer_service_name cluster in
    let svc = client_service_name cluster in
    let ns = cluster.namespace in
    ("*." <> (peer <> ("." <> (ns <> ".svc.cluster.local"))))
    ∷ (peer <> ("." <> (ns <> ".svc.cluster.local")))
    ∷ (svc <> ("." <> (ns <> ".svc.cluster.local")))
    ∷ (svc <> ("." <> (ns <> ".svc")))
    ∷ (svc <> ("." <> ns))
    ∷ svc
    ∷ []

-- The `Certificate`, durations in nanoseconds.
pub record CertificateObject : Type 0 where
  pub name : String
  pub namespace : String
  pub labels : Dict String String
  pub secret_name : String
  pub issuer_ref : Dict String String
  pub common_name : String
  pub dns_names : List String
  pub password : Option SecretKeySelector
  pub duration : Option ℕ
  pub renew_before : Option ℕ

-- An entry that is left out when it is empty.
abbrev with_text : String → String → Dict String String
with_text key value = if str_eq value "" then [] else (key, value) ∷ []

unfoldable pub desired_certificate : Cluster → CertManagerSpec → CertificateObject
unfolding certificate_dns_names tls_password_ref
desired_certificate cluster cm = record {
  name = certificate_name cluster;
  namespace = cluster.namespace;
  labels = pod_labels cluster;
  secret_name = certificate_name cluster;
  issuer_ref =
      (("name", cm.issuer_name) ∷ [])
      ++ (with_text "kind" cm.issuer_kind ++ with_text "group" cm.issuer_group);
  common_name = client_service_name cluster <> ("." <> (cluster.namespace <> ".svc"));
  dns_names = certificate_dns_names cluster;
  password = tls_password_ref cluster;
  duration = cm.duration;
  renew_before = cm.renew_before;
}

-- What the write of the Certificate gave; `no_match` where cert-manager is not installed.
pub data Applied : Type 0 where
  applied : Applied
  no_match apply_failed : Error → Applied
