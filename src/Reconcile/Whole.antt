-- ===== src/Reconcile/Whole.antt =====
-- What a whole pass leaves and when it is repeated
-- (internal/controller/kahunacluster_controller.go, `Reconcile`).
use kahuna_k8s_operator.Common.{ℕ, zero, suc, ◌≡◌, ◌≢◌, refl, ◌∙◌, String, true, some}
use kahuna_k8s_operator.Api.{Cluster}
use kahuna_k8s_operator.Naming.{desired_replicas}
use kahuna_k8s_operator.Kahuna.Errors.{Result, ok}
use kahuna_k8s_operator.Kahuna.Client.{Client}
use kahuna_k8s_operator.ApiServer.{Objects}
use kahuna_k8s_operator.Autoscaler.Arithmetic.{Float}
use kahuna_k8s_operator.Certificate.{Secret, tls_secret_name}
use kahuna_k8s_operator.Certificate.Keystore.{reconcile_keystore_password, reconcile_certificate}
use kahuna_k8s_operator.Certificate.Password.{keystore_password_kept}
use kahuna_k8s_operator.Certificate.Stale.{reconcile_certificate-kept}
use kahuna_k8s_operator.Traffic.{Sampler}
use kahuna_k8s_operator.Backup.Claims.{Claim, is_kept}
use kahuna_k8s_operator.Backup.Keep.{reconcile_backup_resources}
use kahuna_k8s_operator.Backup.Kept.{backup_resources_kept}
use kahuna_k8s_operator.Backup.Runner.{Runner}
use kahuna_k8s_operator.Reconcile.{
  Ending, returned, panicked, W, pinned, pin_by, password_step, reconcile,
}
use kahuna_k8s_operator.ApiServer.Environment.{Environment, pin_size, wrote}
use kahuna_k8s_operator.Reconcile.Endings.{IsGood, Answers, step-Answers, password-Answers}
use kahuna_k8s_operator.Reconcile.Requeue.{IsSoon}

module _ (𝓕 : Float) (secrets : Objects Secret) (claims : Objects Claim) (env : Environment)
    (now : ℕ) where
  open 𝓕 use {F}

  module _ (Keeps : secrets.State → claims.State → Type 0) (client : Client F) (cluster : Cluster)
      (r : Runner) (s : Sampler 𝓕)
      (keeps_password : (k : Cluster)
        → tls_secret_name k ≡ tls_secret_name cluster
        → (p : secrets.State) (c : claims.State) → Keeps p c
        → Keeps (reconcile_keystore_password secrets env.set_owner env.random k p).1 c)
      (keeps_certificate : (k : Cluster)
        → tls_secret_name k ≡ tls_secret_name cluster
        → (p : secrets.State) (c : claims.State) → Keeps p c
        → Keeps (reconcile_certificate secrets env.refuses env.apply_certificate k p).1 c)
      (keeps_backups : (k : Cluster)
        → tls_secret_name k ≡ tls_secret_name cluster
        → (p : secrets.State) (c : claims.State) → Keeps p c
        → Keeps
            (reconcile_backup_resources claims secrets env.random_key k (c, p)).1.1
            (reconcile_backup_resources claims secrets env.random_key k (c, p)).1.0) where
    -- The steps after the size is pinned, for the cluster that the pass goes on with.
    from_password :
        (k : Cluster)
        → tls_secret_name k ≡ tls_secret_name cluster
        → (w : W 𝓕 secrets claims env now) → IsGood 𝓕 secrets claims env now Keeps w
        → Answers 𝓕 secrets claims env now Keeps
            (password_step 𝓕 secrets claims env now client k r s w)
    from_password k same =
        password-Answers 𝓕 secrets claims env now Keeps client k r s (keeps_password k same)
          (keeps_certificate k same) (keeps_backups k same)

    from_pin :
        (w : W 𝓕 secrets claims env now) (size : ℕ)
        → IsGood 𝓕 secrets claims env now Keeps w
        → Answers 𝓕 secrets claims env now Keeps
            (pin_by 𝓕 secrets claims env now client cluster r s w size)
    unfolding tls_secret_name
    from_pin w (suc size) good = from_password cluster refl w good
    from_pin w zero good =
        step-Answers 𝓕 secrets claims env now Keeps "pinning bootstrap size" r s
          (env.write_status (pinned 𝓕 secrets claims env now cluster).status)
          (wrote secrets claims w (pin_size (desired_replicas cluster)))
          (password_step 𝓕 secrets claims env now client (pinned 𝓕 secrets claims env now cluster) r
            s)
          good (from_password (pinned 𝓕 secrets claims env now cluster) refl)

    reconcile-Answers :
        (w : W 𝓕 secrets claims env now)
        → IsGood 𝓕 secrets claims env now Keeps w
        → Answers 𝓕 secrets claims env now Keeps
            (reconcile 𝓕 secrets claims env now client cluster r s w)
    unfolding reconcile
    reconcile-Answers w good = from_pin w cluster.status.bootstrap_size good

  -- A pass that ends without an error asks for the next one after a second at least and a minute at
  -- most, whatever the schedules of its backups are.
  pub reconcile-IsSoon :
      (client : Client F) (cluster : Cluster) (r r' : Runner) (s s' : Sampler 𝓕)
      (w w' : W 𝓕 secrets claims env now) (d : ℕ)
      → reconcile 𝓕 secrets claims env now client cluster r s w ≡ returned (ok d) w' r' s'
      → IsSoon d
  reconcile-IsSoon client cluster r r' s s' w w' d e =
      (rw e at (
        reconcile-Answers (λ p c. Unit {0}) client cluster r s (λ k same p c h. tt)
          (λ k same p c h. tt) (λ k same p c h. tt) w tt)).0

  abbrev pub world_of : Ending 𝓕 secrets claims env now → W 𝓕 secrets claims env now
  world_of (returned result w r s) = w
  world_of (panicked w r s) = w

  -- However a pass ends, and whatever its reads give, stale ones included, a claim that has or had a
  -- volume and each Secret but the keystore's are as they were.
  pub reconcile_keeps :
      (client : Client F) (cluster : Cluster) (r : Runner) (s : Sampler 𝓕)
      (w : W 𝓕 secrets claims env now) (m n : String) (claim : Claim) (secret : Secret)
      → claims.held w.claim_state m ≡ some claim
      → is_kept claim ≡ true
      → secrets.held w.secret_state n ≡ some secret
      → n ≢ tls_secret_name cluster
      → (claims.held
            (world_of (reconcile 𝓕 secrets claims env now client cluster r s w)).claim_state
            m
          ≡ some claim)
        × (secrets.held
              (world_of (reconcile 𝓕 secrets claims env now client cluster r s w)).secret_state
              n
            ≡ some secret)
  reconcile_keeps client cluster r s w m n claim secret here kept there other =
      of_ending (reconcile 𝓕 secrets claims env now client cluster r s w) (
        reconcile-Answers Both client cluster r s
          (λ k same p c h.
            (h.0, (keystore_password_kept secrets env.set_owner env.random k p n secret h.1).0))
          (λ k same p c h. (
            h.0,
            reconcile_certificate-kept secrets env.refuses k env.apply_certificate p n secret
                (λ e. other (e ∙ same)) h.1,
          ))
          (λ k same p c h.
            backup_resources_kept claims secrets env.random_key k c p m n claim secret h.0 kept h.1)
          w (here, there))
    where
      Both : secrets.State → claims.State → Type 0
      Both p c = (claims.held c m ≡ some claim) × (secrets.held p n ≡ some secret)

      of_ending :
          (e : Ending 𝓕 secrets claims env now)
          → Answers 𝓕 secrets claims env now Both e
          → Both (world_of e).secret_state (world_of e).claim_state
      of_ending (returned (ok d) w r s) (soon, good) = good
      of_ending (returned (Result.err e) w r s) good = good
      of_ending (panicked w r s) good = good
