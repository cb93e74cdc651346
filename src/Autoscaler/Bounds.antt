-- ===== src/Autoscaler/Bounds.antt =====
-- How far one decision moves the size (internal/controller/autoscaler.go, `decideAutoscale`).
use kahuna_k8s_operator.Common.{
  ℕ, ◌+◌, ◌≤◌, ◌<◌, ◌≡◌, refl, ◌≢◌, ◌⊎◌, Bool, true, false, some, List, [], ◌∷◌, arith, inl, inr,
}
use kahuna_k8s_operator.Common.Int.{ℤ}
use kahuna_k8s_operator.Api.{AutoscalingSpec, AutoscalingStatus}
use kahuna_k8s_operator.Autoscaler.Arithmetic.{Float}
use kahuna_k8s_operator.Autoscaler.{
  Input, Decision, starting, clamp, bounded_recommendation, gather, decide_step, decide_on,
  measured_status, decide_if, decide_autoscale, tolerance_of, largest, raw_recommendation,
}

-- A recommendation lies in the bounds, and with a signal missing it is not below a size in them.
recommendation_bounds :
    (spec : AutoscalingSpec) (current : ℕ) (all_known : Bool) (raw : ℤ)
    → spec.min_replicas ≤ spec.max_replicas
    → (spec.min_replicas ≤ bounded_recommendation spec current all_known raw)
      × (bounded_recommendation spec current all_known raw ≤ spec.max_replicas)
recommendation_bounds spec current all_known raw h = ground arith

recommendation_partial :
    (spec : AutoscalingSpec) (current : ℕ) (raw : ℤ)
    → current ≤ spec.max_replicas
    → current ≤ bounded_recommendation spec current false raw
recommendation_partial spec current raw h = ground arith

module _ (𝓕 : Float) where
  open 𝓕 use {F}

  decide_step-desired :
      (i : Input F) (rec : ℕ) (ratio tolerance : F) (st : AutoscalingStatus)
      → let d = (decide_step 𝓕 i rec ratio tolerance st).status.desired_replicas in
        let current = st.desired_replicas in
        (d ≡ current)
        ⊎ ((d ≡ current + 1)
            × (current < rec)
            × ((i.growth_ceiling ≡ 0) ⊎ (current < i.growth_ceiling)))
        ⊎ ((d + 1 ≡ current) × (rec < current))
  unfolding decide_step
  decide_step-desired i rec ratio tolerance st = ground arith

  decide_step-changed :
      (i : Input F) (rec : ℕ) (ratio tolerance : F) (st : AutoscalingStatus)
      → let st' = (decide_step 𝓕 i rec ratio tolerance st).status in
        ((st'.desired_replicas ≡ st.desired_replicas) × (st'.last_scale_time ≡ st.last_scale_time))
        ⊎ (st'.last_scale_time ≡ some i.now)
  unfolding decide_step
  decide_step-changed i rec ratio tolerance st = ground arith

  -- What one decision does to a size in the bounds.
  abbrev Moves : Input F → AutoscalingStatus → Bool → Decision → Type 0
  Moves i st all_known d =
      (i.spec.min_replicas ≤ d.status.desired_replicas)
      × (d.status.desired_replicas ≤ i.spec.max_replicas)
      × (st.desired_replicas ≤ d.status.desired_replicas + 1)
      × (d.status.desired_replicas ≤ st.desired_replicas + 1)
      × (all_known ≡ false → st.desired_replicas ≤ d.status.desired_replicas)
      × (1 ≤ i.growth_ceiling
          → i.growth_ceiling ≤ st.desired_replicas
          → d.status.desired_replicas ≤ st.desired_replicas)

  decide_step-Moves :
      (i : Input F) (rec : ℕ) (ratio tolerance : F) (st : AutoscalingStatus) (all_known : Bool)
      → i.spec.min_replicas ≤ st.desired_replicas
      → st.desired_replicas ≤ i.spec.max_replicas
      → i.spec.min_replicas ≤ rec
      → rec ≤ i.spec.max_replicas
      → (all_known ≡ false → st.desired_replicas ≤ rec)
      → Moves i st all_known (decide_step 𝓕 i rec ratio tolerance st)
  decide_step-Moves i rec ratio tolerance st all_known lo hi rlo rhi partial =
      ground (arith, decide_step-desired i rec ratio tolerance st)

  decide_on-Moves :
      (i : Input F) (st : AutoscalingStatus) (gathered : List F × Bool)
      → i.spec.min_replicas ≤ i.spec.max_replicas
      → i.spec.min_replicas ≤ st.desired_replicas
      → st.desired_replicas ≤ i.spec.max_replicas
      → Moves i st gathered.1 (decide_on 𝓕 i st gathered)
  unfolding decide_on
  decide_on-Moves i st ([], all_known) h lo hi = ground arith
  decide_on-Moves i st (x ∷ xs, all_known) h lo hi =
      let ratio = largest 𝓕 x xs in
      let tolerance = tolerance_of 𝓕 i.spec.tolerance_percent in
      let raw = raw_recommendation 𝓕 st.desired_replicas ratio tolerance in
      let rec = bounded_recommendation i.spec st.desired_replicas all_known raw in
      let bounds = recommendation_bounds i.spec st.desired_replicas all_known raw h in
      decide_step-Moves i rec ratio tolerance (record st { recommended_replicas = rec }) all_known
        lo hi bounds.0 bounds.1
        (λ partial. rw partial (recommendation_partial i.spec st.desired_replicas raw hi))

  measured_status-bounds :
      (i : Input F)
      → i.spec.min_replicas ≤ i.spec.max_replicas
      → (i.spec.min_replicas ≤ (measured_status 𝓕 i).desired_replicas)
        × ((measured_status 𝓕 i).desired_replicas ≤ i.spec.max_replicas)
  unfolding measured_status
  measured_status-bounds i h = ground arith

  -- The size that the decision starts from: the last one, or the initial one, held in the bounds.
  abbrev pub base : Input F → ℕ
  base i = clamp (starting i.prev i.initial).desired_replicas i.spec

  pub measured_status-base : (i : Input F) → (measured_status 𝓕 i).desired_replicas ≡ base i
  unfolding measured_status
  measured_status-base i = ground arith

  decide_if-Moves :
      (converged : Bool) (i : Input F)
      → i.spec.min_replicas ≤ i.spec.max_replicas
      → Moves i (measured_status 𝓕 i) (gather 𝓕 i.spec i.signal).1 (decide_if 𝓕 converged i)
  decide_if-Moves true i h =
      decide_on-Moves i (measured_status 𝓕 i) (gather 𝓕 i.spec i.signal) h
        (measured_status-bounds i h).0 (measured_status-bounds i h).1
  decide_if-Moves false i h = omega (arith, measured_status-bounds i h)

  -- The size that the decision leaves lies in the bounds, which are in order, and is at most one
  -- node away from the size it starts from. It is not smaller while a signal that has a target is
  -- not known, and not larger at or above a growth ceiling.
  pub decide_autoscale_moves :
      (i : Input F)
      → i.spec.min_replicas ≤ i.spec.max_replicas
      → let d = (decide_autoscale 𝓕 i).status.desired_replicas in
        (i.spec.min_replicas ≤ d)
        × (d ≤ i.spec.max_replicas)
        × (base i ≤ d + 1)
        × (d ≤ base i + 1)
        × (((gather 𝓕 i.spec i.signal).1 ≡ true) ⊎ (base i ≤ d))
        × ((i.growth_ceiling ≡ 0) ⊎ (base i < i.growth_ceiling) ⊎ (d ≤ base i))
  unfolding decide_autoscale
  decide_autoscale_moves i h =
      by_moves (gather 𝓕 i.spec i.signal).1
        (rw (measured_status-base i) at (decide_if-Moves i.converged i h))
    where
      by_moves :
          (known : Bool) {lo up d : ℕ}
          → (lo ≤ d)
            × (d ≤ up)
            × (base i ≤ d + 1)
            × (d ≤ base i + 1)
            × (known ≡ false → base i ≤ d)
            × (1 ≤ i.growth_ceiling → i.growth_ceiling ≤ base i → d ≤ base i)
          → (lo ≤ d)
            × (d ≤ up)
            × (base i ≤ d + 1)
            × (d ≤ base i + 1)
            × ((known ≡ true) ⊎ (base i ≤ d))
            × ((i.growth_ceiling ≡ 0) ⊎ (base i < i.growth_ceiling) ⊎ (d ≤ base i))
      by_moves true (a, b, c, e, f, g) = (a, b, c, e, inl refl, ground (arith, g))
      by_moves false (a, b, c, e, f, g) = (a, b, c, e, inr (f refl), ground (arith, g))

  decide_on-clock :
      (i : Input F) (st : AutoscalingStatus) (gathered : List F × Bool)
      → let st' = (decide_on 𝓕 i st gathered).status in
        ((st'.desired_replicas ≡ st.desired_replicas) × (st'.last_scale_time ≡ st.last_scale_time))
        ⊎ (st'.last_scale_time ≡ some i.now)
  unfolding decide_on
  decide_on-clock i st ([], all_known) = ground arith
  decide_on-clock i st (x ∷ xs, all_known) =
      let ratio = largest 𝓕 x xs in
      let tolerance = tolerance_of 𝓕 i.spec.tolerance_percent in
      let raw = raw_recommendation 𝓕 st.desired_replicas ratio tolerance in
      let rec = bounded_recommendation i.spec st.desired_replicas all_known raw in
      decide_step-changed i rec ratio tolerance (record st { recommended_replicas = rec })

  decide_if-clock :
      (converged : Bool) (i : Input F)
      → let st = measured_status 𝓕 i in
        let st' = (decide_if 𝓕 converged i).status in
        ((st'.desired_replicas ≡ st.desired_replicas) × (st'.last_scale_time ≡ st.last_scale_time))
        ⊎ (st'.last_scale_time ≡ some i.now)
  decide_if-clock true i = decide_on-clock i (measured_status 𝓕 i) (gather 𝓕 i.spec i.signal)
  decide_if-clock false i = inl (refl, refl)

  measured_status-clock :
      (i : Input F) (st : AutoscalingStatus)
      → i.prev ≡ some st
      → 1 ≤ st.desired_replicas
      → ((measured_status 𝓕 i).desired_replicas ≡ st.desired_replicas)
        ⊎ ((measured_status 𝓕 i).last_scale_time ≡ some i.now)
  unfolding measured_status
  measured_status-clock i st e h = ground arith

  -- A pass that changes a size chosen before, be it by an edited bound or by a step, records its
  -- time as the time of the last scale.
  decide_autoscale_clock :
      (i : Input F) (st : AutoscalingStatus)
      → i.prev ≡ some st
      → 1 ≤ st.desired_replicas
      → (decide_autoscale 𝓕 i).status.desired_replicas ≢ st.desired_replicas
      → (decide_autoscale 𝓕 i).status.last_scale_time ≡ some i.now
  unfolding decide_autoscale
  decide_autoscale_clock i st e h change =
      ground (arith, decide_if-clock i.converged i, measured_status-clock i st e)
