-- ===== src/Traffic/Rates.antt =====
-- When a pod's write rate is known (internal/controller/autoscaler.go, `observeSample`).
use kahuna_k8s_operator.Common.{
  ℕ, ◌-◌, ◌*◌, ◌≤◌, ◌<◌, ◌≡◌, refl, ◌∙◌, ap, ◌⊎◌, String, true, false, Option, none, some,
  string_dec, arith,
}
use kahuna_k8s_operator.Common.Dict.{lookup, insert, lookup-insert_same}
use kahuna_k8s_operator.Autoscaler.Arithmetic.{Float}
use kahuna_k8s_operator.Traffic.{
  PodSample, Samples, observe_after, observe_sample, write_rate, min_sample_interval, millisecond,
}

module _ (𝓕 : Float) where
  open 𝓕 use {F, of_int, less}

  observe_after-known :
      (o : Option (PodSample F)) (samples : Samples 𝓕) (uid : String) (total : F) (ms : ℕ)
      → (observe_after 𝓕 o samples uid total ms).known ≡ true
      → (prev : PodSample F) × (o ≡ some prev)
        × (less total prev.writes_total ≡ false)
        × (prev.monotonic_ms < ms)
        × ((prev.has_rate ≡ true) ⊎ (min_sample_interval ≤ (ms - prev.monotonic_ms) * millisecond))
  observe_after-known none samples uid total ms h = cc
  observe_after-known (some prev) samples uid total ms h =
      (prev, refl, ground arith, ground arith, ground arith)

  -- A rate is known only from a pod read before, whose counter and clock did not go back since: a
  -- reading at least the shortest interval later, or the rate of the reading before.
  pub observe_sample_known :
      (samples : Samples 𝓕) (uid : String) (total : F) (ms : ℕ)
      → (observe_sample 𝓕 samples uid total ms).known ≡ true
      → (prev : PodSample F) × (lookup string_dec uid samples ≡ some prev)
        × (less total prev.writes_total ≡ false)
        × (prev.monotonic_ms < ms)
        × ((prev.has_rate ≡ true) ⊎ (min_sample_interval ≤ (ms - prev.monotonic_ms) * millisecond))
  unfolding observe_sample
  observe_sample_known samples uid total ms h =
      observe_after-known (lookup string_dec uid samples) samples uid total ms h

  abbrev pub first_sample : F → ℕ → PodSample F
  first_sample total ms = record {
    writes_total = total;
    monotonic_ms = ms;
    rate = of_int 0;
    has_rate = false;
  }

  observe_sample-restart :
      (samples : Samples 𝓕) (uid : String) (prev : PodSample F) (total : F) (ms : ℕ)
      → lookup string_dec uid samples ≡ some prev
      → less total prev.writes_total ≡ true
      → ((observe_sample 𝓕 samples uid total ms).known ≡ false)
        × ((observe_sample 𝓕 samples uid total ms).samples
            ≡ insert string_dec uid (first_sample total ms) samples)
  unfolding observe_sample
  observe_sample-restart samples uid prev total ms seen back = rw seen (rw back (refl, refl))

  observe_sample-rated :
      (samples : Samples 𝓕) (uid : String) (prev : PodSample F) (total : F) (ms : ℕ)
      → lookup string_dec uid samples ≡ some prev
      → less total prev.writes_total ≡ false
      → prev.monotonic_ms < ms
      → min_sample_interval ≤ (ms - prev.monotonic_ms) * millisecond
      → ((observe_sample 𝓕 samples uid total ms).known ≡ true)
        × ((observe_sample 𝓕 samples uid total ms).rate ≡ write_rate 𝓕 prev total ms)
  unfolding observe_sample
  observe_sample-rated samples uid prev total ms seen up after long = rw seen (rw up (ground arith))

  -- A counter that went back starts over: the rate is not known on that reading, and on a later
  -- one, at least the shortest interval after it and with the counter not back again, it is that
  -- between the two.
  pub observe_sample_restarts :
      (samples : Samples 𝓕) (uid : String) (prev : PodSample F) (t t' : F) (ms ms' : ℕ)
      → lookup string_dec uid samples ≡ some prev
      → less t prev.writes_total ≡ true
      → less t' t ≡ false
      → ms < ms'
      → min_sample_interval ≤ (ms' - ms) * millisecond
      → let o = observe_sample 𝓕 samples uid t ms in
        let o' = observe_sample 𝓕 o.samples uid t' ms' in
        (o.known ≡ false) × (o'.known ≡ true) × (o'.rate ≡ write_rate 𝓕 (first_sample t ms) t' ms')
  observe_sample_restarts samples uid prev t t' ms ms' seen back up after long =
      let (unknown, kept) = observe_sample-restart samples uid prev t ms seen back in
      let (known, rate) =
        observe_sample-rated (observe_sample 𝓕 samples uid t ms).samples uid (first_sample t ms) t'
          ms'
          (ap (λ s. lookup string_dec uid s) kept
            ∙ lookup-insert_same string_dec uid (first_sample t ms) samples)
          up after long in
      (unknown, known, rate)
