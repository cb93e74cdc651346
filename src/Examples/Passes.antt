-- ===== src/Examples/Passes.antt =====
-- The theorems on the autoscaler at a load of twice, and of half, the target.
use kahuna_k8s_operator.Common.{
  List, [], arith, none, some, true, ℕ, ◌*◌, ◌+◌, ◌<◌, ◌∷◌, ◌≡◌, ◌≤◌, ◌⊎◌,
}
use kahuna_k8s_operator.Api.{AutoscalingSpec}
use kahuna_k8s_operator.Autoscaler.{
  Input, clamped_status, decide_autoscale, decide_on, decide_step, gather, measured_status, rounded,
  second, seconds_or,
}
use kahuna_k8s_operator.Autoscaler.Bounds.{base, decide_autoscale_moves}
use kahuna_k8s_operator.Autoscaler.Fractions.{Fraction, fractions, whole}
use kahuna_k8s_operator.Autoscaler.Passes.{
  HeldSince, WantsLess, WantsMore, scale_down_held, scale_up_held,
}
use kahuna_k8s_operator.Autoscaler.Windows.{down_window, up_window}
use kahuna_k8s_operator.Reporting.{seconds}

abbrev bounds : AutoscalingSpec
bounds = record {
  min_replicas = 3;
  max_replicas = 5;
  target_writes_per_second = some 100;
  target_queue_depth = none;
  scale_up_stabilization_seconds = none;
  scale_down_stabilization_seconds = none;
  tolerance_percent = none;
}

-- A pass at a second, with a load for each node and no ceiling.
abbrev pass_at : ℕ → ℕ → ℕ → Input Fraction
pass_at seconds load initial = record {
  spec = bounds;
  prev = none;
  initial = initial;
  signal = record { writes_per_node = some (whole load); queue_per_node = none };
  converged = true;
  growth_ceiling = 0;
  ceiling_reason = "";
  now = seconds * second;
}

-- Twice the target for a minute, and half of it for five.
abbrev rising : List (Input Fraction)
rising = pass_at 1 200 3 ∷ []

abbrev falling : List (Input Fraction)
falling = pass_at 150 50 5 ∷ pass_at 1 50 5 ∷ []

scale_up_held_example :
    (t : ℕ) × (t + up_window bounds ≤ 61 * second)
    × HeldSince fractions (WantsMore fractions) t (pass_at 61 200 3 ∷ rising)
unfolding decide_autoscale measured_status clamped_status rounded decide_on decide_step seconds_or
scale_up_held_example = scale_up_held fractions (pass_at 61 200 3) rising (omega arith)

scale_down_held_example :
    (t : ℕ) × (t + down_window bounds ≤ 301 * second)
    × HeldSince fractions (WantsLess fractions) t (pass_at 301 50 5 ∷ falling)
unfolding decide_autoscale measured_status clamped_status rounded decide_on decide_step seconds_or
scale_down_held_example = scale_down_held fractions (pass_at 301 50 5) falling (omega arith)

decide_autoscale_moves_example :
    let i = pass_at 61 200 3 in
    let d = (decide_autoscale fractions i).status.desired_replicas in
    (3 ≤ d)
    × (d ≤ 5)
    × (base fractions i ≤ d + 1)
    × (d ≤ base fractions i + 1)
    × (((gather fractions i.spec i.signal).1 ≡ true) ⊎ (base fractions i ≤ d))
    × ((i.growth_ceiling ≡ 0) ⊎ (base fractions i < i.growth_ceiling) ⊎ (d ≤ base fractions i))
decide_autoscale_moves_example = decide_autoscale_moves fractions (pass_at 61 200 3) (omega arith)
