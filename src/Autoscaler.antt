-- ===== src/Autoscaler.antt =====
-- The autoscaler's decision (internal/controller/autoscaler.go, `decideAutoscale`). Floats are a
-- parameter: a type with the operations that the code uses. Times and durations are nanoseconds.
pub mod Arithmetic
pub mod Fractions
pub mod Bounds
pub mod Windows
pub mod Passes
use kahuna_k8s_operator.Common.{
  ℕ, ◌+◌, ◌-◌, ◌*◌, min, max, ◌==◌, ltb, leb, String, ◌<>◌, Bool, true, false, ◌&&◌, not, Option,
  none, some, List, [], ◌∷◌, ◌++◌, str_eq, string_dec, if◌then◌else◌,
}
use kahuna_k8s_operator.Common.Int.{ℤ, pos, lt_ℤ, at_least}
use kahuna_k8s_operator.Common.Decimal.{decimal}
use kahuna_k8s_operator.Api.{AutoscalingSpec, AutoscalingStatus}
use kahuna_k8s_operator.Autoscaler.Arithmetic.{Float}

abbrev pub second : ℕ
second = 1_000_000_000

abbrev pub default_scale_up_stabilization : ℕ
default_scale_up_stabilization = 60 * second

abbrev pub default_scale_down_stabilization : ℕ
default_scale_down_stabilization = 300 * second

abbrev default_tolerance_percent : ℕ
default_tolerance_percent = 10

unfoldable pub seconds_or : Option ℕ → ℕ → ℕ
seconds_or none fallback = fallback
seconds_or (some v) fallback = v * second

abbrev zero_status : AutoscalingStatus
zero_status = record {
  desired_replicas = 0;
  recommended_replicas = 0;
  writes_per_second_per_node = none;
  queue_depth_per_node = none;
  above_target_since = none;
  below_target_since = none;
  last_scale_time = none;
}

abbrev pub clamp : ℕ → AutoscalingSpec → ℕ
clamp n spec = min (max n spec.min_replicas) spec.max_replicas

-- `now.Sub(since) >= window`, with no subtraction that could be negative.
abbrev elapsed : ℕ → ℕ → ℕ → Bool
elapsed now since window = leb (since + window) now

abbrev pub or_now : Option ℕ → ℕ → ℕ
or_now none now = now
or_now (some t) now = t

pub record Signal (F : Type 0) : Type 0 where
  pub writes_per_node : Option F
  pub queue_per_node : Option F

pub record Input (F : Type 0) : Type 0 where
  pub spec : AutoscalingSpec
  pub prev : Option AutoscalingStatus
  pub initial : ℕ
  pub signal : Signal F
  pub converged : Bool
  pub growth_ceiling : ℕ
  pub ceiling_reason : String
  pub now : ℕ

pub record Decision : Type 0 where
  pub status : AutoscalingStatus
  pub limited : Bool
  pub reason : String

-- The previous status, with the initial size where none was chosen.
abbrev pub starting : Option AutoscalingStatus → ℕ → AutoscalingStatus
starting none initial = record zero_status { desired_replicas = initial }
starting (some st) initial = record st {
  desired_replicas = if st.desired_replicas == 0 then initial else st.desired_replicas;
}

-- A bound edited past the current size applies at once.
unfoldable pub clamped_status : AutoscalingSpec → ℕ → AutoscalingStatus → AutoscalingStatus
clamped_status spec now st =
    let clamped = clamp st.desired_replicas spec in
    if clamped == st.desired_replicas
    then st
    else record st { desired_replicas = clamped; last_scale_time = some now }

-- The return of `hold`.
abbrev hold : AutoscalingStatus → String → Decision
hold st reason = record {
  status = record st {
    recommended_replicas = st.desired_replicas;
    above_target_since = none;
    below_target_since = none;
  };
  limited = not (str_eq reason "");
  reason = reason;
}

-- The size that the traffic asks for, inside the bounds.
abbrev pub bounded_recommendation : AutoscalingSpec → ℕ → Bool → ℤ → ℕ
bounded_recommendation spec current all_known raw =
    min
      (at_least (if lt_ℤ raw (pos current) && not all_known then pos current else raw)
        spec.min_replicas)
      spec.max_replicas

-- The step up, the step down, and neither: the cases of the last `switch`.
abbrev step_up : AutoscalingSpec → ℕ → AutoscalingStatus → AutoscalingStatus
step_up spec now st =
    let since = or_now st.above_target_since now in
    let waiting : AutoscalingStatus = record st {
      above_target_since = some since;
      below_target_since = none;
    } in
    if elapsed now since
      (seconds_or spec.scale_up_stabilization_seconds default_scale_up_stabilization)
    then record waiting {
      desired_replicas = st.desired_replicas + 1;
      last_scale_time = some now;
      above_target_since = none;
    }
    else waiting

abbrev step_down : AutoscalingSpec → ℕ → AutoscalingStatus → AutoscalingStatus
step_down spec now st =
    let since = or_now st.below_target_since now in
    let waiting : AutoscalingStatus = record st {
      above_target_since = none;
      below_target_since = some since;
    } in
    if elapsed now since
      (seconds_or spec.scale_down_stabilization_seconds default_scale_down_stabilization)
    then record waiting {
      desired_replicas = st.desired_replicas - 1;
      last_scale_time = some now;
      below_target_since = none;
    }
    else waiting

abbrev steady : AutoscalingStatus → AutoscalingStatus
steady st = record st { above_target_since = none; below_target_since = none }

module _ (𝓕 : Float) where
  open 𝓕 use {F, of_int, add, sub, mul, div, abs, less, ceil, round}

  unfoldable pub rounded : Option F → Option ℕ
  rounded none = none
  rounded (some v) = some (round v)

  -- One target's ratio, and whether every signal so far is known.
  abbrev add_ratio : Option ℕ → Option F → List F × Bool → List F × Bool
  add_ratio none v acc = acc
  add_ratio (some t) (some v) (ratios, all_known) = (ratios ++ (div v (of_int t) ∷ []), all_known)
  add_ratio (some t) none (ratios, all_known) = (ratios, false)

  abbrev pub gather : AutoscalingSpec → Signal F → List F × Bool
  gather spec signal =
      add_ratio spec.target_queue_depth signal.queue_per_node
        (add_ratio spec.target_writes_per_second signal.writes_per_node ([], true))

  abbrev largest : F → List F → F
  largest x [] = x
  largest x (y ∷ ys) = largest (𝓕.max x y) ys

  abbrev percent : ℕ → F
  percent n = div (of_int n) (of_int 100)

  abbrev pub tolerance_of : Option ℕ → F
  tolerance_of none = percent default_tolerance_percent
  tolerance_of (some n) = percent n

  -- `current`, or the ceiling of `current` times the ratio outside the dead band.
  abbrev pub raw_recommendation : ℕ → F → F → ℤ
  raw_recommendation current ratio tolerance =
      if less tolerance (abs (sub ratio (of_int 1)))
      then ceil (mul (of_int current) ratio)
      else pos current

  -- The end of the function: the limit of the bounds.
  abbrev finish : Input F → ℕ → F → F → AutoscalingStatus → Decision
  finish i rec ratio tolerance st =
      if rec == i.spec.max_replicas && less (add (of_int 1) tolerance) ratio
      then record {
        status = st;
        limited = true;
        reason = "traffic asks for more than maxReplicas (" <> (decimal i.spec.max_replicas <> ")");
      }
      else record { status = st; limited = false; reason = "" }

  -- The last `switch`, on a recommendation and the status that has it recorded.
  unfoldable pub decide_step : Input F → ℕ → F → F → AutoscalingStatus → Decision
  unfolding seconds_or
  decide_step i rec ratio tolerance st =
      let current = st.desired_replicas in
      if ltb current rec
      then (if ltb 0 i.growth_ceiling && leb i.growth_ceiling current
          then record {
            status = record st { above_target_since = none; below_target_since = none };
            limited = true;
            reason = i.ceiling_reason;
          }
          else finish i rec ratio tolerance (step_up i.spec i.now st))
      else if ltb rec current
      then finish i rec ratio tolerance (step_down i.spec i.now st)
      else finish i rec ratio tolerance (steady st)

  -- With at least one ratio.
  unfoldable pub decide_on : Input F → AutoscalingStatus → List F × Bool → Decision
  decide_on i st ([], all_known) = hold st "no traffic signal is available yet"
  decide_on i st (x ∷ xs, all_known) =
      let ratio = largest x xs in
      let tolerance = tolerance_of i.spec.tolerance_percent in
      let rec =
        bounded_recommendation i.spec st.desired_replicas all_known
          (raw_recommendation st.desired_replicas ratio tolerance) in
      decide_step i rec ratio tolerance (record st { recommended_replicas = rec })

  -- The status after the bounds, with this pass's measurements.
  unfoldable pub measured_status : Input F → AutoscalingStatus
  unfolding clamped_status rounded
  measured_status i = record (clamped_status i.spec i.now (starting i.prev i.initial)) {
    writes_per_second_per_node = rounded i.signal.writes_per_node;
    queue_depth_per_node = rounded i.signal.queue_per_node;
  }

  -- By whether the previous step has converged.
  abbrev pub decide_if : Bool → Input F → Decision
  decide_if false i = hold (measured_status i) ""
  decide_if true i = decide_on i (measured_status i) (gather i.spec i.signal)

  unfoldable pub decide_autoscale : Input F → Decision
  decide_autoscale i = decide_if i.converged i
