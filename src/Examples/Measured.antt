-- ===== src/Examples/Measured.antt =====
-- The theorems on the traffic measurement and on the autoscaler's pass.
use kahuna_k8s_operator.Common.{
  List, String, [], all, any, false, keep, none, refl, some, ◌&&◌, ◌∷◌, ◌≡◌,
}
use kahuna_k8s_operator.Api.{AutoscalingSpec, Cluster, Condition}
use kahuna_k8s_operator.Autoscaler.{clamp, starting}
use kahuna_k8s_operator.Autoscaler.Fractions.{Fraction, fractions, whole}
use kahuna_k8s_operator.Autoscaling.{is_steady, reconcile_autoscaling}
use kahuna_k8s_operator.Autoscaling.Waits.{reconcile_autoscaling_waits, sampler_after, size_after}
use kahuna_k8s_operator.Examples.{info, pods, spread, three}
use kahuna_k8s_operator.Kahuna.Client.{Client}
use kahuna_k8s_operator.Kahuna.Errors.{err, is_ok, ok, other}
use kahuna_k8s_operator.Naming.{initial_autoscaled_replicas}
use kahuna_k8s_operator.Plan.Roster.{full_roster}
use kahuna_k8s_operator.Traffic.{Sampler, is_measured, measure}
use kahuna_k8s_operator.Traffic.Readings.{gives, measure-is_ok}

-- Every node gives metrics without rows.
abbrev quiet : Client Fraction
quiet = record {
  membership = λ url. ok (full_roster three 3);
  health = λ url. err (other "health");
  leave = λ url. err (other "leave");
  placement = λ url. ok spread;
  metrics = λ url. ok (record { rows = []; monotonic_ms = 5 });
  take_coordinated_backup = λ url. ok info;
  take_incremental_backup = λ url parent. ok info;
}

measure-is_ok_example :
    is_ok (measure fractions quiet three pods []).0
    ≡ (any is_measured pods && all (gives fractions quiet three) (keep is_measured pods))
measure-is_ok_example = measure-is_ok fractions quiet three pods []

-- One pod is there, and the cluster still has a sample of one that is gone.
abbrev stale : Sampler fractions
stale =
    (
      "data/kahuna",
      ("9", record { writes_total = whole 1; monotonic_ms = 1; rate = whole 0; has_rate = false })
          ∷ [],
    )
    ∷ []

abbrev bounds : AutoscalingSpec
bounds = record {
  min_replicas = 3;
  max_replicas = 5;
  target_writes_per_second = some 100;
  target_queue_depth = none;
  scale_up_stabilization_seconds = none;
  scale_down_stabilization_seconds = none;
  tolerance_percent = none;
}

abbrev autoscaled : Cluster
autoscaled = record three { spec = record three.spec { autoscaling = some bounds } }

-- A condition is put in front, and taken out by dropping all.
abbrev set : List Condition → Condition → List Condition
set conditions c = c ∷ conditions

abbrev unset : List Condition → String → List Condition
unset conditions kind = []

-- Before bootstrap.
reconcile_autoscaling_waits_example :
    let after =
      reconcile_autoscaling fractions set unset quiet autoscaled false none none none pods stale
        9 in
    (size_after fractions set unset after
      ≡ some (
          clamp
            (starting none (initial_autoscaled_replicas autoscaled bounds)).desired_replicas
            bounds))
    × (sampler_after fractions set unset after ≡ stale)
unfolding is_steady
reconcile_autoscaling_waits_example =
    reconcile_autoscaling_waits fractions set unset quiet autoscaled false none none none pods stale
      9 bounds refl refl
