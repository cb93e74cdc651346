-- ===== src/Certificate/Ready.antt =====
-- When the keystore counts as ready (internal/controller/certificate.go, `certificateReady`).
use kahuna_k8s_operator.Common.{
  ◌≡◌, refl, sym, ◌∙◌, ◌↔◌, ◌⊎◌, inl, inr, String, Bool, true, false, Option, none, some,
  string_dec, Option-cases, not, arith,
}
use kahuna_k8s_operator.Common.Dict.{lookup}
use kahuna_k8s_operator.Kahuna.Errors.{Error}
use kahuna_k8s_operator.Api.{Cluster, SecretKeySelector}
use kahuna_k8s_operator.Kahuna.Errors.{Error}
use kahuna_k8s_operator.ApiServer.{Reply, found, missing, failed, Objects, Reply-cases}
use kahuna_k8s_operator.Entrypoint.Arguments.{keystore_key}
use kahuna_k8s_operator.Certificate.{Secret, tls_secret_name, tls_password_ref}
use kahuna_k8s_operator.Certificate.Keystore.{
  trim_newlines, read_keystore, certificate_ready, ready_with, ready_in, password_in, keystore_by,
}

module _ (server : Objects Secret) (refuses : String → String → Bool) (cluster : Cluster) where
  open server use {State, get}

  abbrev found_or_missing : Option String → Reply String
  found_or_missing none = missing
  found_or_missing (some p) = found p

  abbrev password_entry : String → Reply Secret → Reply String
  password_entry key missing = missing
  password_entry key (failed e) = failed e
  password_entry key (found pw) = found_or_missing (lookup string_dec key pw.entries)

  abbrev password_at : State → Option SecretKeySelector → Reply String
  password_at s none = missing
  password_at s (some ref) = password_entry ref.key (get s ref.name)

  -- The password that the reads give.
  unfoldable pub password_of : State → Reply String
  password_of s = password_at s (tls_password_ref cluster)

  abbrev pub IsUsable : String → Reply String → Type 0
  IsUsable keystore password =
      (password ≡ missing)
      ⊎ ((p : String) × (password ≡ found p) × (refuses keystore (trim_newlines p) ≡ false))

  abbrev usable : String → Reply String → Bool
  usable keystore missing = true
  usable keystore (failed e) = false
  usable keystore (found p) = not (refuses keystore (trim_newlines p))

  usable_iff :
      (keystore : String) (r : Reply String) → (usable keystore r ≡ true) ↔ IsUsable keystore r
  usable_iff keystore missing = (λ h. inl refl, λ h. refl)
  usable_iff keystore (failed e) = (λ h. cc, λ h. elim h [ inl m ↦ cc | inr (p, m, o) ↦ cc ])
  usable_iff keystore (found p) =
      (λ h. inr (p, refl, ground arith), λ h. elim h [ inl m ↦ cc | inr (q, m, o) ↦ ground arith ])

  ready-read :
      (s : State) (secret : Secret) (keystore : String)
      → get s (tls_secret_name cluster) ≡ found secret
      → lookup string_dec (keystore_key cluster) secret.entries ≡ some keystore
      → (certificate_ready server refuses cluster s).0 ≡ usable keystore (password_of s)
  unfolding certificate_ready read_keystore password_of
  ready-read s secret keystore got has = rw got (rw has (by_ref (tls_password_ref cluster)))
    where
      by_reply :
          (key : String) (r : Reply Secret)
          → (ready_with server refuses cluster (password_in server secret keystore key r)).0
            ≡ usable keystore (password_entry key r)
      by_reply key missing = refl
      by_reply key (failed e) = refl
      by_reply key (found pw) = elim (Option-cases (lookup string_dec key pw.entries)) [
        | inl e ↦ rw e refl
        | inr (p, e) ↦ rw e (ground arith)
      ]

      by_ref :
          (o : Option SecretKeySelector)
          → (ready_with server refuses cluster (keystore_by server cluster s o)).0
            ≡ usable keystore (password_at s o)
      by_ref none = refl
      by_ref (some ref) = rw got (rw has (by_reply ref.key (get s ref.name)))

  abbrev pub IsReady : State → Type 0
  IsReady s =
      (secret : Secret) × (keystore : String) × (get s (tls_secret_name cluster) ≡ found secret)
      × (lookup string_dec (keystore_key cluster) secret.entries ≡ some keystore)
      × IsUsable keystore (password_of s)

  unready_entry :
      (s : State) (secret : Secret)
      → get s (tls_secret_name cluster) ≡ found secret
      → lookup string_dec (keystore_key cluster) secret.entries ≡ none
      → (certificate_ready server refuses cluster s).0 ≡ false
  unfolding certificate_ready
  unready_entry s secret got e = rw got (rw e refl)

  unready :
      (s : State) (r : Reply Secret)
      → get s (tls_secret_name cluster) ≡ r
      → (ready_in server refuses cluster s r).0 ≡ false
      → (certificate_ready server refuses cluster s).0 ≡ false
  unfolding certificate_ready
  unready s r e h = rw e h

  certificate_ready-IsReady :
      (s : State) → (certificate_ready server refuses cluster s).0 ≡ true → IsReady s
  certificate_ready-IsReady s h = of_reply (Reply-cases (get s (tls_secret_name cluster)))
    where
      of_entry :
          (secret : Secret)
          → get s (tls_secret_name cluster) ≡ found secret
          → (lookup string_dec (keystore_key cluster) secret.entries ≡ none)
            ⊎ ((k : String) × (lookup string_dec (keystore_key cluster) secret.entries ≡ some k))
          → IsReady s
      of_entry secret got (inl e) = absurd (cc (unready_entry s secret got e))
      of_entry secret got (inr (k, e)) = (
        secret,
        k,
        got,
        e,
        (usable_iff k (password_of s)).0 (sym (ready-read s secret k got e) ∙ h),
      )

      of_reply :
          ((secret : Secret) × (get s (tls_secret_name cluster) ≡ found secret))
            ⊎ ((get s (tls_secret_name cluster) ≡ missing)
                ⊎ ((e : Error) × (get s (tls_secret_name cluster) ≡ failed e)))
          → IsReady s
      of_reply (inl (secret, got)) =
          of_entry secret got
            (Option-cases (lookup string_dec (keystore_key cluster) secret.entries))
      of_reply (inr (inl e)) = absurd (cc (unready s missing e refl))
      of_reply (inr (inr (e, f))) = absurd (cc (unready s (failed e) f refl))

  -- The keystore is ready exactly when the Secret that the pods mount is read and has an entry under
  -- the keystore's key, and either no password is found or the one that is found, without its
  -- trailing newlines, is not refused by that entry.
  pub certificate_ready_iff :
      (s : State) → ((certificate_ready server refuses cluster s).0 ≡ true) ↔ IsReady s
  certificate_ready_iff s = (
    certificate_ready-IsReady s,
    λ h. ready-read s h.0 h.1 h.2 h.3 ∙ (usable_iff h.1 (password_of s)).1 h.4,
  )
