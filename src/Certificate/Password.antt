-- ===== src/Certificate/Password.antt =====
-- The Secret with the generated keystore password (internal/controller/certificate.go,
-- `reconcileKeystorePassword`).
use kahuna_k8s_operator.Common.{
  ◌≡◌, refl, ◌⊎◌, inl, inr, String, Bool, true, false, Option, none, some, is_some, ◌&&◌, not,
}
use kahuna_k8s_operator.Api.{Cluster, CertManagerSpec, SecretKeySelector}
use kahuna_k8s_operator.ApiServer.{
  Reply, found, missing, failed, Objects, Created, created, already_there, create_failed, is_made,
}
use kahuna_k8s_operator.Kahuna.Errors.{Error, Result, ok, err}
use kahuna_k8s_operator.Certificate.{Secret, cert_password_secret_name}
use kahuna_k8s_operator.Certificate.Keystore.{
  reconcile_keystore_password, created_or_there, create_owned, with_password, after_password_read,
  password_for,
}

module _ (server : Objects Secret) (set_owner : Secret → Result Secret) (random : Result String)
    (cluster : Cluster) where
  open server use {State, get, held, create, create_keeps, create_makes}

  made-state : (c : Created × State) → (created_or_there server c).1 ≡ c.1
  made-state (created, s) = refl
  made-state (already_there, s) = refl
  made-state (create_failed e, s) = refl

  made_or_error :
      (c : Created × State) → (is_some (created_or_there server c).0 ≡ true) ⊎ (is_made c.0 ≡ true)
  made_or_error (created, s) = inr refl
  made_or_error (already_there, s) = inr refl
  made_or_error (create_failed e, s) = inl refl

  -- The Secret is generated, and not the user's.
  abbrev pub is_managed : Option CertManagerSpec → Option SecretKeySelector → Bool
  is_managed cm ref = is_some cm && not (is_some ref)

  module _ (s : State) where
    -- What the step leaves, by what stands in its way.
    abbrev IsMade : Option Error × State → Type 0
    IsMade (e, s') =
        (is_some e ≡ true) ⊎ (is_some (held s' (cert_password_secret_name cluster)) ≡ true)

    owned-IsMade : (r : Result Secret) → IsMade (create_owned server set_owner random cluster s r)
    owned-IsMade (err e) = inl refl
    owned-IsMade (ok secret) =
        let c = create (cert_password_secret_name cluster) secret s in
        elim (made_or_error c) [
          | inl e ↦ inl e
          | inr made ↦
              inr
                (rw (made-state c) (create_makes s (cert_password_secret_name cluster) secret made))
        ]

    random-IsMade : (r : Result String) → IsMade (with_password server set_owner random cluster s r)
    random-IsMade (err e) = inl refl
    random-IsMade (ok password) = owned-IsMade (set_owner _)

  module _ (s : State) (m : String) (b : Secret) (there : held s m ≡ some b) where
    keeps-owned :
        (r : Result Secret) → held (create_owned server set_owner random cluster s r).1 m ≡ some b
    keeps-owned (err e) = there
    keeps-owned (ok secret) =
        rw (made-state (create (cert_password_secret_name cluster) secret s))
          (create_keeps s (cert_password_secret_name cluster) m secret b there)

    keeps-random :
        (r : Result String) → held (with_password server set_owner random cluster s r).1 m ≡ some b
    keeps-random (err e) = there
    keeps-random (ok password) = keeps-owned (set_owner _)

    keeps-read :
        (r : Reply Secret)
        → held (after_password_read server set_owner random cluster s r).1 m ≡ some b
    keeps-read (found a) = there
    keeps-read (failed e) = there
    keeps-read missing = keeps-random random

    keeps-for :
        (cm : Option CertManagerSpec) (ref : Option SecretKeySelector)
        → held (password_for server set_owner random cluster s cm ref).1 m ≡ some b
    keeps-for none ref = there
    keeps-for (some cm) (some ref) = there
    keeps-for (some cm) none = keeps-read (get s (cert_password_secret_name cluster))

  abbrev IsFound : State → Type 0
  IsFound s = (a : Secret) × (get s (cert_password_secret_name cluster) ≡ found a)

  settles-read :
      (s : State) (r : Reply Secret)
      → get s (cert_password_secret_name cluster) ≡ r
      → IsFound s ⊎ IsMade s (after_password_read server set_owner random cluster s r)
  settles-read s (found a) e = inl (a, e)
  settles-read s (failed f) e = inr (inl refl)
  settles-read s missing e = inr (random-IsMade s random)

  settles-for :
      (s : State) (cm : Option CertManagerSpec) (ref : Option SecretKeySelector)
      → (is_managed cm ref ≡ false)
        ⊎ (IsFound s ⊎ IsMade s (password_for server set_owner random cluster s cm ref))
  settles-for s none ref = inl refl
  settles-for s (some cm) (some ref) = inl refl
  settles-for s (some cm) none =
      inr (settles-read s (get s (cert_password_secret_name cluster)) refl)

  -- Every Secret that was there is as it was, whatever the read gave; and where the password is
  -- generated, the Secret with it was found by the read, or is there after, or the step returns an
  -- error.
  pub keystore_password_kept :
      (s : State) (m : String) (b : Secret)
      → held s m ≡ some b
      → (held (reconcile_keystore_password server set_owner random cluster s).1 m ≡ some b)
        × ((is_managed cluster.spec.tls.cert_manager cluster.spec.tls.password_secret_ref ≡ false)
            ⊎ (IsFound s
                ⊎ IsMade s (reconcile_keystore_password server set_owner random cluster s)))
  unfolding reconcile_keystore_password
  keystore_password_kept s m b there = (
    keeps-for s m b there cluster.spec.tls.cert_manager cluster.spec.tls.password_secret_ref,
    settles-for s cluster.spec.tls.cert_manager cluster.spec.tls.password_secret_ref,
  )
