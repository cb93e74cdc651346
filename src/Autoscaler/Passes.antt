-- ===== src/Autoscaler/Passes.antt =====
-- The decisions of many passes (internal/controller/autoscaler.go): each starts from the status
-- that the one before left.
use kahuna_k8s_operator.Common.{
  ℕ, ◌+◌, ◌≤◌, ◌<◌, ◌≡◌, refl, ◌∙◌, sym, ap, ◌⊎◌, Option, none, some, List, [], ◌∷◌, arith, inl,
  inr, Option-cases,
}
use kahuna_k8s_operator.Api.{AutoscalingStatus}
use kahuna_k8s_operator.Autoscaler.Arithmetic.{Float}
use kahuna_k8s_operator.Autoscaler.{
  Input, clamped_status, or_now, measured_status, decide_autoscale,
}
use kahuna_k8s_operator.Autoscaler.Bounds.{base, measured_status-base}
use kahuna_k8s_operator.Autoscaler.Windows.{decide_autoscale-Tracks, up_window, down_window}

-- The time since when the passes before have wanted a step, if any.
abbrev since_in : (AutoscalingStatus → Option ℕ) → Option AutoscalingStatus → Option ℕ
since_in since none = none
since_in since (some st) = since st

module _ (𝓕 : Float) where
  open 𝓕 use {F}

  -- The status after the passes, the newest of which comes first.
  abbrev pub after : List (Input F) → Option AutoscalingStatus
  after [] = none
  after (i ∷ is) = some (decide_autoscale 𝓕 (record i { prev = after is })).status

  -- The newest pass, on the status that the older ones left.
  abbrev pub pass : Input F → List (Input F) → Input F
  pass i is = record i { prev = after is }

  -- The pass recommends a larger size than it starts from.
  abbrev pub WantsMore : Input F → Type 0
  WantsMore i = base 𝓕 i < (decide_autoscale 𝓕 i).status.recommended_replicas

  abbrev pub WantsLess : Input F → Type 0
  WantsLess i = (decide_autoscale 𝓕 i).status.recommended_replicas < base 𝓕 i

  -- All the newest passes, back to one at the given time, want the step.
  abbrev pub HeldSince : (Input F → Type 0) → ℕ → List (Input F) → Type 0
  HeldSince Wants t [] = ⊥
  HeldSince Wants t (i ∷ is) = Wants (pass i is) × ((i.now ≡ t) ⊎ HeldSince Wants t is)

  module _ (since : AutoscalingStatus → Option ℕ) (Wants : Input F → Type 0)
      (keeps : (i : Input F) (t : ℕ)
        → since (decide_autoscale 𝓕 i).status ≡ some t
        → Wants i × (t ≡ or_now (since_in since i.prev) i.now)) where
    since-HeldSince :
        (is : List (Input F)) (t : ℕ) → since_in since (after is) ≡ some t → HeldSince Wants t is
    since-HeldSince [] t e = cc
    since-HeldSince (i ∷ is) t e =
        let (wants, at_start) = keeps (pass i is) t e in
        (
          wants,
          elim (Option-cases (since_in since (after is))) [
            | inl none_e ↦ inl (rw none_e at (sym at_start))
            | inr (u, some_e) ↦
                inr (since-HeldSince is t (some_e ∙ ap some (rw some_e at (sym at_start))))
          ],
        )

  measured_status-above :
      (i : Input F)
      → (measured_status 𝓕 i).above_target_since ≡ since_in (λ st. st.above_target_since) i.prev
  unfolding measured_status clamped_status
  measured_status-above i = ground arith

  measured_status-below :
      (i : Input F)
      → (measured_status 𝓕 i).below_target_since ≡ since_in (λ st. st.below_target_since) i.prev
  unfolding measured_status clamped_status
  measured_status-below i = ground arith

  keeps_above :
      (i : Input F) (t : ℕ)
      → (decide_autoscale 𝓕 i).status.above_target_since ≡ some t
      → WantsMore i × (t ≡ or_now (since_in (λ st. st.above_target_since) i.prev) i.now)
  keeps_above i t e =
      rw (measured_status-base 𝓕 i, measured_status-above i) at
        ((decide_autoscale-Tracks 𝓕 i).2 t e)

  keeps_below :
      (i : Input F) (t : ℕ)
      → (decide_autoscale 𝓕 i).status.below_target_since ≡ some t
      → WantsLess i × (t ≡ or_now (since_in (λ st. st.below_target_since) i.prev) i.now)
  keeps_below i t e =
      rw (measured_status-base 𝓕 i, measured_status-below i) at
        ((decide_autoscale-Tracks 𝓕 i).3 t e)

  -- The passes that the start of a window counts from.
  held_from :
      (since : AutoscalingStatus → Option ℕ) (Wants : Input F → Type 0)
      (keeps : (i : Input F) (t : ℕ)
        → since (decide_autoscale 𝓕 i).status ≡ some t
        → Wants i × (t ≡ or_now (since_in since i.prev) i.now))
      (now : ℕ) (is : List (Input F)) (o : Option ℕ)
      → since_in since (after is) ≡ o
      → (now ≡ or_now o now) ⊎ HeldSince Wants (or_now o now) is
  held_from since Wants keeps now is none e = inl refl
  held_from since Wants keeps now is (some u) e = inr (since-HeldSince since Wants keeps is u e)

  -- A pass of a run from an empty status that steps up ends a row of passes, itself the newest,
  -- each of which wants more nodes, and the oldest of which is at least one window old.
  pub scale_up_held :
      (i : Input F) (is : List (Input F))
      → base 𝓕 (pass i is) < (decide_autoscale 𝓕 (pass i is)).status.desired_replicas
      → (t : ℕ) × (t + up_window i.spec ≤ i.now) × HeldSince WantsMore t (i ∷ is)
  scale_up_held i is up =
      let p = pass i is in
      let (wants, waited) =
        rw (measured_status-base 𝓕 p, measured_status-above p) at (decide_autoscale-Tracks 𝓕 p).0
          up in
      (
        or_now (since_in (λ st. st.above_target_since) (after is)) i.now,
        waited,
        (
          wants,
          held_from (λ st. st.above_target_since) WantsMore keeps_above i.now is
              (since_in (λ st. st.above_target_since) (after is)) refl,
        ),
      )

  -- A pass of a run from an empty status that steps down ends a row of passes, itself the newest,
  -- each of which wants fewer nodes, and the oldest of which is at least one window old.
  pub scale_down_held :
      (i : Input F) (is : List (Input F))
      → (decide_autoscale 𝓕 (pass i is)).status.desired_replicas < base 𝓕 (pass i is)
      → (t : ℕ) × (t + down_window i.spec ≤ i.now) × HeldSince WantsLess t (i ∷ is)
  scale_down_held i is down =
      let p = pass i is in
      let (wants, waited) =
        rw (measured_status-base 𝓕 p, measured_status-below p) at (decide_autoscale-Tracks 𝓕 p).1
          down in
      (
        or_now (since_in (λ st. st.below_target_since) (after is)) i.now,
        waited,
        (
          wants,
          held_from (λ st. st.below_target_since) WantsLess keeps_below i.now is
              (since_in (λ st. st.below_target_since) (after is)) refl,
        ),
      )
