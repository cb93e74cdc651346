-- ===== src/Traffic/Readings.antt =====
-- What a measurement needs and what it keeps (internal/controller/autoscaler.go, `measure`).
use mathlib.Core.Path.{subst}
use mathlib.Core.Option.{some-injective}
use kahuna_k8s_operator.Common.{
  ◌≡◌, refl, ◌∙◌, ap, sym, all-keep, ◌≢◌, inl, inr, String, Bool, true, ◌&&◌, not, some, List, [],
  ◌∷◌, map, keep, all, any, contains, string_dec, arith,
}
use kahuna_k8s_operator.Common.Dict.{lookup, lookup-insert_same, lookup-insert_other}
use kahuna_k8s_operator.Api.{Cluster, Pod}
use kahuna_k8s_operator.Kahuna.{Metrics, is_empty}
use kahuna_k8s_operator.Kahuna.Errors.{Result, ok, err, is_ok, Result-cases}
use kahuna_k8s_operator.Kahuna.Client.{Client}
use kahuna_k8s_operator.Membership.{pod_base_url}
use kahuna_k8s_operator.Autoscaler.Arithmetic.{Float}
use kahuna_k8s_operator.Traffic.{
  Samples, Sampler, is_measured, cluster_key, read_all, measure_ready, with_reading, with_readings,
  of_live, totals_of, measure,
}

module _ (𝓕 : Float) where
  open 𝓕 use {F}

  with_reading-is_ok :
      (client : Client F) (cluster : Cluster) (p : Pod) (m : Metrics F)
      (r : Result (List (Pod × Metrics F)))
      → is_ok (with_reading 𝓕 client cluster p m r) ≡ is_ok r
  with_reading-is_ok client cluster p m (ok rest) = refl
  with_reading-is_ok client cluster p m (err e) = refl

  not-is_empty-keep :
      (test : Pod → Bool) (pods : List Pod) → not (is_empty (keep test pods)) ≡ any test pods
  not-is_empty-keep test [] = refl
  not-is_empty-keep test (p ∷ pods) = ground (arith, not-is_empty-keep test pods)

  module _ (client : Client F) (cluster : Cluster) where
    -- The pod's node gives its metrics.
    abbrev pub gives : Pod → Bool
    gives p = is_ok (client.metrics (pod_base_url cluster p))

    read_all-is_ok : (ps : List Pod) → is_ok (read_all 𝓕 client cluster ps) ≡ all gives ps
    unfolding read_all
    read_all-is_ok [] = refl
    read_all-is_ok (p ∷ ps) = elim (Result-cases (client.metrics (pod_base_url cluster p))) [
      | inl (m, e) ↦
          rw (e, read_all)
            (with_reading-is_ok client cluster p m (read_all 𝓕 client cluster ps)
              ∙ read_all-is_ok ps)
      | inr (x, e) ↦ rw (e, read_all) refl
    ]

    with_readings-is_ok :
        (key : String) (ready : List Pod) (sampler : Sampler 𝓕)
        (r : Result (List (Pod × Metrics F)))
        → is_ok (with_readings 𝓕 key ready sampler r).0 ≡ is_ok r
    with_readings-is_ok key ready sampler (ok readings) = refl
    with_readings-is_ok key ready sampler (err e) = refl

    measure_ready-is_ok :
        (ready : List Pod) (sampler : Sampler 𝓕)
        → is_ok (measure_ready 𝓕 client cluster ready sampler).0
          ≡ (not (is_empty ready) && all gives ready)
    measure_ready-is_ok [] sampler = refl
    measure_ready-is_ok (p ∷ ps) sampler =
        with_readings-is_ok (cluster_key cluster) (p ∷ ps) sampler
          (read_all 𝓕 client cluster (p ∷ ps))
        ∙ read_all-is_ok (p ∷ ps)

    -- A measurement gives a signal exactly when some pod is ready, with an address and not being
    -- deleted, and the nodes of all such pods give their metrics.
    pub measure-is_ok :
        (pods : List Pod) (sampler : Sampler 𝓕)
        → is_ok (measure 𝓕 client cluster pods sampler).0
          ≡ (any is_measured pods && all gives (keep is_measured pods))
    unfolding measure
    measure-is_ok pods sampler =
        measure_ready-is_ok (keep is_measured pods) sampler
        ∙ ap (λ b. b && all gives (keep is_measured pods)) (not-is_empty-keep is_measured pods)

    with_readings-live :
        (ready : List Pod) (sampler : Sampler 𝓕) (r : Result (List (Pod × Metrics F)))
        (samples : Samples 𝓕)
        → is_ok r ≡ true
        → lookup string_dec
            (cluster_key cluster)
            (with_readings 𝓕 (cluster_key cluster) ready sampler r).1
          ≡ some samples
        → all (λ entry. contains (map (λ p. p.uid) ready) entry.0) samples ≡ true
    with_readings-live ready sampler (ok readings) samples h e =
        let live = map (λ (p : Pod). p.uid) ready in
        let kept =
          of_live 𝓕 live
            (totals_of 𝓕 (lookup string_dec (cluster_key cluster) sampler) readings).samples in
        let same = sym (lookup-insert_same string_dec (cluster_key cluster) kept sampler) ∙ e in
        subst (λ xs. all (λ entry. contains live entry.0) xs ≡ true)
          (some-injective kept samples same)
          (all-keep (λ entry. contains live entry.0)
            (totals_of 𝓕 (lookup string_dec (cluster_key cluster) sampler) readings).samples)
    with_readings-live ready sampler (err x) samples h e = cc

    -- Another cluster's samples stay as they are.
    measure_others :
        (pods : List Pod) (sampler : Sampler 𝓕) (key : String)
        → cluster_key cluster ≢ key
        → lookup string_dec key (measure 𝓕 client cluster pods sampler).1
          ≡ lookup string_dec key sampler
    unfolding measure
    measure_others pods sampler key differ = others (keep is_measured pods)
      where
        by_readings :
            (ready : List Pod) (r : Result (List (Pod × Metrics F)))
            → lookup string_dec key (with_readings 𝓕 (cluster_key cluster) ready sampler r).1
              ≡ lookup string_dec key sampler
        by_readings ready (ok readings) =
            lookup-insert_other string_dec key (cluster_key cluster)
              (of_live 𝓕 (map (λ p. p.uid) ready)
                (totals_of 𝓕 (lookup string_dec (cluster_key cluster) sampler) readings).samples)
              sampler differ
        by_readings ready (err e) = refl

        others :
            (ready : List Pod)
            → lookup string_dec key (measure_ready 𝓕 client cluster ready sampler).1
              ≡ lookup string_dec key sampler
        others [] = refl
        others (p ∷ ps) = by_readings (p ∷ ps) (read_all 𝓕 client cluster (p ∷ ps))

    -- After a measurement that gives a signal, the cluster's samples are those of pods it measured.
    pub measure_live :
        (pods : List Pod) (sampler : Sampler 𝓕) (samples : Samples 𝓕)
        → is_ok (measure 𝓕 client cluster pods sampler).0 ≡ true
        → lookup string_dec (cluster_key cluster) (measure 𝓕 client cluster pods sampler).1
          ≡ some samples
        → all (λ entry. contains (map (λ p. p.uid) (keep is_measured pods)) entry.0) samples ≡ true
    unfolding measure
    measure_live pods sampler samples = live (keep is_measured pods)
      where
        live :
            (ready : List Pod)
            → is_ok (measure_ready 𝓕 client cluster ready sampler).0 ≡ true
            → lookup string_dec
                (cluster_key cluster)
                (measure_ready 𝓕 client cluster ready sampler).1
              ≡ some samples
            → all (λ entry. contains (map (λ p. p.uid) ready) entry.0) samples ≡ true
        live [] h e = cc
        live (p ∷ ps) h e =
            let r = read_all 𝓕 client cluster (p ∷ ps) in
            with_readings-live (p ∷ ps) sampler r samples
              (sym (with_readings-is_ok (cluster_key cluster) (p ∷ ps) sampler r) ∙ h) e
