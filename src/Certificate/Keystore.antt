-- ===== src/Certificate/Keystore.antt =====
-- The keystore and its password: made, tested, and replaced when it is stale
-- (internal/controller/certificate.go). The API of Secrets, the random bytes, the owner reference, the
-- write of the Certificate and the PKCS#12 decoder are parameters.
use Prim.Native.Char.{code}
use kahuna_k8s_operator.Common.{
  ℕ, ◌==◌, String, ◌<>◌, Bool, true, false, not, ◌&&◌, Option, none, some, [], ◌∷◌, str_eq,
  string_dec, if◌then◌else◌,
}
use kahuna_k8s_operator.Common.Dict.{lookup}
use kahuna_k8s_operator.Api.{Cluster, CertManagerSpec, SecretKeySelector}
use kahuna_k8s_operator.Naming.{certificate_name, pod_labels}
use kahuna_k8s_operator.Kahuna.Errors.{Error, Result, ok, err, wrapped, error_text}
use kahuna_k8s_operator.ApiServer.{
  Reply, found, missing, failed, Created, created, already_there, create_failed, Deleted, deleted,
  absent, conflicting, delete_failed, Objects,
}
use kahuna_k8s_operator.Entrypoint.Arguments.{keystore_key}
use kahuna_k8s_operator.Certificate.{
  cert_manager_certificate_annotation, keystore_password_key, Secret, cert_password_secret_name,
  tls_password_ref, tls_secret_name, CertificateObject, desired_certificate, Applied, applied,
  no_match, apply_failed,
}

pub record KeystoreMaterial : Type 0 where
  pub secret : Secret
  pub keystore : String
  pub password : String

-- `strings.TrimRight(s, "\n")`
abbrev put_back : ℕ → String → String → String
put_back c line rest = if (c == 10) && str_eq rest "" then "" else line

unfoldable pub trim_newlines : String → String
trim_newlines String.[] = ""
trim_newlines (String.◌∷◌ c s) =
    let rest = trim_newlines s in put_back (code c) (String.◌∷◌ c rest) rest

abbrev pub or_empty : Option String → String
or_empty none = ""
or_empty (some text) = text

-- A missing annotation reads as the empty text.
unfoldable pub annotation_of : Secret → String
annotation_of secret =
    or_empty (lookup string_dec cert_manager_certificate_annotation secret.annotations)

module _ (server : Objects Secret) where
  open server use {State, get, create, delete}

  abbrev pub created_or_there : Created × State → Option Error × State
  created_or_there (created, s) = (none, s)
  created_or_there (already_there, s) = (none, s)
  created_or_there (create_failed e, s) = (some e, s)

  module _ (set_owner : Secret → Result Secret) (random : Result String) (cluster : Cluster)
      (s : State) where
    abbrev pub create_owned : Result Secret → Option Error × State
    create_owned (err e) = (some e, s)
    create_owned (ok secret) =
        created_or_there (create (cert_password_secret_name cluster) secret s)

    abbrev pub with_password : Result String → Option Error × State
    with_password (err e) = (some (wrapped "generating keystore password" e), s)
    with_password (ok password) = create_owned (
        set_owner (record {
          labels = pod_labels cluster;
          annotations = [];
          entries = (keystore_password_key, password) ∷ [];
        }))

    abbrev pub after_password_read : Reply Secret → Option Error × State
    after_password_read (found existing) = (none, s)
    after_password_read (failed e) = (some e, s)
    after_password_read missing = with_password random

    -- Only the generated Secret is managed.
    abbrev pub password_for :
        Option CertManagerSpec → Option SecretKeySelector → Option Error × State
    password_for none ref = (none, s)
    password_for (some cm) (some ref) = (none, s)
    password_for (some cm) none = after_password_read (get s (cert_password_secret_name cluster))

    unfoldable pub reconcile_keystore_password : Option Error × State
    reconcile_keystore_password =
        password_for cluster.spec.tls.cert_manager cluster.spec.tls.password_secret_ref

  abbrev pub material : Secret → String → Option String → Result (Option KeystoreMaterial)
  material secret keystore none = ok none
  material secret keystore (some password) =
      ok (some (record { secret = secret; keystore = keystore; password = password }))

  -- A Secret that is not found leaves nothing to test.
  abbrev pub password_in :
      Secret → String → String → Reply Secret → Result (Option KeystoreMaterial)
  password_in secret keystore key missing = ok none
  password_in secret keystore key (failed e) = err e
  password_in secret keystore key (found pw) =
      material secret keystore (lookup string_dec key pw.entries)

  abbrev pub with_keystore :
      State → SecretKeySelector → Secret → Option String → Result (Option KeystoreMaterial)
  with_keystore s ref secret none = ok none
  with_keystore s ref secret (some keystore) = password_in secret keystore ref.key (get s ref.name)

  abbrev pub keystore_in :
      Cluster → State → SecretKeySelector → Reply Secret → Result (Option KeystoreMaterial)
  keystore_in cluster s ref missing = ok none
  keystore_in cluster s ref (failed e) = err e
  keystore_in cluster s ref (found secret) =
      with_keystore s ref secret (lookup string_dec (keystore_key cluster) secret.entries)

  abbrev pub keystore_by :
      Cluster → State → Option SecretKeySelector → Result (Option KeystoreMaterial)
  keystore_by cluster s none = ok none
  keystore_by cluster s (some ref) = keystore_in cluster s ref (get s (tls_secret_name cluster))

  unfoldable pub read_keystore : Cluster → State → Result (Option KeystoreMaterial)
  read_keystore cluster s = keystore_by cluster s (tls_password_ref cluster)

  -- `refuses` says that the decoder finds the password incorrect.
  module _ (refuses : String → String → Bool) where
    abbrev pub opens_with : KeystoreMaterial → String → Bool
    opens_with k password = not (refuses k.keystore password)

    abbrev pub gone : Deleted × State → Option Error × State
    gone (deleted, s) = (none, s)
    gone (absent, s) = (none, s)
    gone (conflicting, s) = (none, s)
    gone (delete_failed e, s) = (some (wrapped "deleting stale keystore Secret" e), s)

    abbrev pub is_stale : Cluster → KeystoreMaterial → Bool
    is_stale cluster k =
        str_eq (annotation_of k.secret) (certificate_name cluster) && not (opens_with k k.password)

    abbrev pub replace_read :
        Cluster → State → Result (Option KeystoreMaterial) → Option Error × State
    replace_read cluster s (err e) = (some e, s)
    replace_read cluster s (ok none) = (none, s)
    replace_read cluster s (ok (some k)) =
        if is_stale cluster k then gone (delete (tls_secret_name cluster) k.secret s) else (none, s)

    abbrev pub replace_for : Cluster → State → Option CertManagerSpec → Option Error × State
    replace_for cluster s none = (none, s)
    replace_for cluster s (some cm) = replace_read cluster s (read_keystore cluster s)

    unfoldable pub replace_stale_keystore : Cluster → State → Option Error × State
    replace_stale_keystore cluster s = replace_for cluster s cluster.spec.tls.cert_manager

    abbrev pub after_apply : Cluster → State → Applied → Option Error × State
    after_apply cluster s applied = replace_stale_keystore cluster s
    after_apply cluster s (apply_failed e) = (some e, s)
    after_apply cluster s (no_match e) = (
      some (
          wrapped "spec.tls.certManager is set but cert-manager is not installed in this cluster"
            e),
      s,
    )

    abbrev pub certificate_for :
        (CertificateObject → Applied)
        → Cluster
        → State
        → Option CertManagerSpec
        → Option Error × State
    certificate_for apply cluster s none = (none, s)
    certificate_for apply cluster s (some cm) =
        after_apply cluster s (apply (desired_certificate cluster cm))

    unfoldable pub reconcile_certificate :
        (CertificateObject → Applied) → Cluster → State → Option Error × State
    reconcile_certificate apply cluster s =
        certificate_for apply cluster s cluster.spec.tls.cert_manager

    abbrev pub ref_name : Option SecretKeySelector → String
    ref_name none = ""
    ref_name (some ref) = ref.name

    -- The pods read the password without its trailing newlines.
    abbrev pub ready_with : Cluster → Result (Option KeystoreMaterial) → Bool × String
    ready_with cluster (err e) = (false, error_text e)
    ready_with cluster (ok none) = (true, "")
    ready_with cluster (ok (some k)) =
        if opens_with k (trim_newlines k.password) then (true, "") else (
          false,
          "keystore in Secret \""
              <> (tls_secret_name cluster
                  <> ("\" does not open with the password in Secret \""
                      <> (ref_name (tls_password_ref cluster) <> "\""))),
        )

    abbrev pub ready_entry : Cluster → State → Option String → Bool × String
    ready_entry cluster s none = (
      false,
      "Secret \""
          <> (tls_secret_name cluster <> ("\" has no \"" <> (keystore_key cluster <> "\" key"))),
    )
    ready_entry cluster s (some keystore) = ready_with cluster (read_keystore cluster s)

    abbrev pub ready_in : Cluster → State → Reply Secret → Bool × String
    ready_in cluster s missing =
        (false, "waiting for keystore Secret \"" <> (tls_secret_name cluster <> "\""))
    ready_in cluster s (failed e) = (false, error_text e)
    ready_in cluster s (found secret) =
        ready_entry cluster s (lookup string_dec (keystore_key cluster) secret.entries)

    unfoldable pub certificate_ready : Cluster → State → Bool × String
    unfolding trim_newlines
    certificate_ready cluster s = ready_in cluster s (get s (tls_secret_name cluster))
