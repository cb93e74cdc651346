-- ===== src/Certificate/Stale.antt =====
-- Which keystore Secret is deleted (internal/controller/certificate.go, `replaceStaleKeystore`), and
-- that no pass over the keystore writes a Secret over.
use kahuna_k8s_operator.Common.{
  ◌≡◌, ◌≢◌, refl, sym, ◌∙◌, ◌⊎◌, inl, inr, String, Bool, true, Option, none, some, string_dec,
  Bool-cases, arith,
}
use kahuna_k8s_operator.Api.{Cluster, CertManagerSpec}
use kahuna_k8s_operator.Naming.{certificate_name}
use kahuna_k8s_operator.ApiServer.{Objects, Deleted, deleted, absent, conflicting, delete_failed}
use kahuna_k8s_operator.Kahuna.Errors.{Result, ok, err}
use kahuna_k8s_operator.Certificate.{
  Secret, tls_secret_name, Applied, applied, no_match, apply_failed, CertificateObject,
  desired_certificate,
}
use kahuna_k8s_operator.Certificate.Keystore.{
  KeystoreMaterial, read_keystore, replace_stale_keystore, annotation_of, is_stale, after_apply,
  certificate_for, reconcile_certificate, replace_read, replace_for, gone,
}

module _ (server : Objects Secret) (refuses : String → String → Bool) (cluster : Cluster) where
  open server use {State, get, held, version, delete, delete_other, delete_pinned}

  -- The keystore that is read belongs to the cluster's Certificate, and its password is refused.
  abbrev pub IsRefused : State → Secret → Type 0
  IsRefused s secret =
      (k : KeystoreMaterial) × (read_keystore server cluster s ≡ ok (some k))
      × (annotation_of k.secret ≡ certificate_name cluster)
      × (refuses k.keystore k.password ≡ true)
      × (version k.secret ≡ version secret)

  gone-state : (e : Deleted × State) → (gone server refuses e).1 ≡ e.1
  gone-state (deleted, s) = refl
  gone-state (absent, s) = refl
  gone-state (conflicting, s) = refl
  gone-state (delete_failed e, s) = refl

  module _ (s : State) (name : String) (secret : Secret) (there : held s name ≡ some secret) where
    abbrev IsKept : State → Type 0
    IsKept s' =
        (held s' name ≡ some secret) ⊎ ((name ≡ tls_secret_name cluster) × IsRefused s secret)

    after_delete :
        (k : KeystoreMaterial)
        → read_keystore server cluster s ≡ ok (some k)
        → is_stale server refuses cluster k ≡ true
        → IsKept (delete (tls_secret_name cluster) k.secret s).1
    after_delete k e stale = elim (string_dec (tls_secret_name cluster) name) [
      | no other ↦ inl (delete_other s (tls_secret_name cluster) name k.secret other ∙ there)
      | yes same ↦
          elim (delete_pinned s (tls_secret_name cluster) k.secret secret (rw same there)) [
            | inl kept ↦ inl (rw (← same) kept)
            | inr pinned ↦ inr (sym same, (k, e, ground arith, ground arith, pinned))
          ]
    ]

    after_read :
        (r : Result (Option KeystoreMaterial))
        → read_keystore server cluster s ≡ r
        → IsKept (replace_read server refuses cluster s r).1
    after_read (err f) e = inl there
    after_read (ok none) e = inl there
    after_read (ok (some k)) e = elim (Bool-cases (is_stale server refuses cluster k)) [
      | inl stale ↦
          rw stale
            (rw (gone-state (delete (tls_secret_name cluster) k.secret s)) (after_delete k e stale))
      | inr fresh ↦ rw fresh (inl there)
    ]

    after_cert_manager :
        (cm : Option CertManagerSpec) → IsKept (replace_for server refuses cluster s cm).1
    after_cert_manager none = inl there
    after_cert_manager (some cm) = after_read (read_keystore server cluster s) refl

  -- Of any Secret that was held before, whatever the reads gave, either it is still held after, or it
  -- was the keystore Secret in the very version that was read, which cert-manager had issued for this
  -- cluster's Certificate and which its password does not open.
  pub replace_stale_deletes :
      (s : State) (name : String) (secret : Secret)
      → held s name ≡ some secret
      → (held (replace_stale_keystore server refuses cluster s).1 name ≡ some secret)
        ⊎ ((name ≡ tls_secret_name cluster) × IsRefused s secret)
  unfolding replace_stale_keystore
  replace_stale_deletes s name secret there =
      after_cert_manager s name secret there cluster.spec.tls.cert_manager

  applied-kept :
      (s : State) (name : String) (secret : Secret) (a : Applied)
      → name ≢ tls_secret_name cluster
      → held s name ≡ some secret
      → held (after_apply server refuses cluster s a).1 name ≡ some secret
  applied-kept s name secret applied other there =
      elim (replace_stale_deletes s name secret there) [
        | inl kept ↦ kept
        | inr gone ↦ absurd (other gone.0)
      ]
  applied-kept s name secret (no_match e) other there = there
  applied-kept s name secret (apply_failed e) other there = there

  -- No Secret but the keystore's is touched.
  pub reconcile_certificate-kept :
      (apply : CertificateObject → Applied) (s : State) (name : String) (secret : Secret)
      → name ≢ tls_secret_name cluster
      → held s name ≡ some secret
      → held (reconcile_certificate server refuses apply cluster s).1 name ≡ some secret
  unfolding reconcile_certificate
  reconcile_certificate-kept apply s name secret other there = by_spec cluster.spec.tls.cert_manager
    where
      by_spec :
          (cm : Option CertManagerSpec)
          → held (certificate_for server refuses apply cluster s cm).1 name ≡ some secret
      by_spec none = there
      by_spec (some cm) =
          applied-kept s name secret (apply (desired_certificate cluster cm)) other there
