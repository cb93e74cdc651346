-- ===== src/Autoscaler/Windows.antt =====
-- When a step is taken (internal/controller/autoscaler.go, `decideAutoscale`).
use kahuna_k8s_operator.Common.{
  ℕ, ◌+◌, ◌≤◌, ◌<◌, ◌≡◌, Bool, true, false, some, List, [], ◌∷◌, arith,
}
use kahuna_k8s_operator.Api.{AutoscalingSpec, AutoscalingStatus}
use kahuna_k8s_operator.Autoscaler.Arithmetic.{Float}
use kahuna_k8s_operator.Autoscaler.{
  Input, gather, decide_step, or_now, seconds_or, decide_on, measured_status, decide_if,
  decide_autoscale, tolerance_of, largest, raw_recommendation, bounded_recommendation,
  default_scale_up_stabilization, default_scale_down_stabilization,
}

abbrev pub up_window : AutoscalingSpec → ℕ
up_window spec = seconds_or spec.scale_up_stabilization_seconds default_scale_up_stabilization

abbrev pub down_window : AutoscalingSpec → ℕ
down_window spec = seconds_or spec.scale_down_stabilization_seconds default_scale_down_stabilization

-- A pass that wants more nodes, and keeps track of since when.
abbrev Tracks : AutoscalingSpec → ℕ → AutoscalingStatus → AutoscalingStatus → Type 0
Tracks spec now st st' =
    (st.desired_replicas < st'.desired_replicas
      → (st.desired_replicas < st'.recommended_replicas)
        × (or_now st.above_target_since now + up_window spec ≤ now))
    × (st'.desired_replicas < st.desired_replicas
        → (st'.recommended_replicas < st.desired_replicas)
          × (or_now st.below_target_since now + down_window spec ≤ now))
    × ((t : ℕ)
        → st'.above_target_since ≡ some t
        → (st.desired_replicas < st'.recommended_replicas) × (t ≡ or_now st.above_target_since now))
    × ((t : ℕ)
        → st'.below_target_since ≡ some t
        → (st'.recommended_replicas < st.desired_replicas) × (t ≡ or_now st.below_target_since now))

module _ (𝓕 : Float) where
  open 𝓕 use {F}

  decide_step-Tracks :
      (i : Input F) (ratio tolerance : F) (st : AutoscalingStatus)
      → Tracks i.spec i.now st (decide_step 𝓕 i st.recommended_replicas ratio tolerance st).status
  unfolding decide_step
  decide_step-Tracks i ratio tolerance st =
      (λ h. ground arith, λ h. ground arith, λ t e. ground arith, λ t e. ground arith)

  decide_on-Tracks :
      (i : Input F) (st : AutoscalingStatus) (gathered : List F × Bool)
      → Tracks i.spec i.now st (decide_on 𝓕 i st gathered).status
  unfolding decide_on
  decide_on-Tracks i st ([], all_known) =
      (λ h. ground arith, λ h. ground arith, λ t e. cc, λ t e. cc)
  decide_on-Tracks i st (x ∷ xs, all_known) =
      decide_step-Tracks i (largest 𝓕 x xs) (tolerance_of 𝓕 i.spec.tolerance_percent) (record st {
        recommended_replicas = bounded_recommendation i.spec st.desired_replicas all_known (
            raw_recommendation 𝓕 st.desired_replicas (largest 𝓕 x xs)
              (tolerance_of 𝓕 i.spec.tolerance_percent));
      })

  decide_if-Tracks :
      (converged : Bool) (i : Input F)
      → Tracks i.spec i.now (measured_status 𝓕 i) (decide_if 𝓕 converged i).status
  decide_if-Tracks true i = decide_on-Tracks i (measured_status 𝓕 i) (gather 𝓕 i.spec i.signal)
  decide_if-Tracks false i = (λ h. ground arith, λ h. ground arith, λ t e. cc, λ t e. cc)

  pub decide_autoscale-Tracks :
      (i : Input F) → Tracks i.spec i.now (measured_status 𝓕 i) (decide_autoscale 𝓕 i).status
  unfolding decide_autoscale
  decide_autoscale-Tracks i = decide_if-Tracks i.converged i
