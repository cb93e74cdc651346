-- ===== src/Traffic.antt =====
-- The traffic measurement (internal/controller/autoscaler.go, `observeSample`, `measure` and
-- `forget`; internal/kahuna/client.go, `CounterTotal` and `GaugeSum`). The sampler's mutex makes the
-- part of `measure` that follows the network calls one step. A map by cluster key and pod UID is an
-- association list.
pub mod Rates
pub mod Readings
use kahuna_k8s_operator.Common.{
  ℕ, ◌+◌, ◌-◌, ◌*◌, ltb, leb, String, ◌<>◌, Bool, true, false, ◌&&◌, ◌||◌, not, Option, none, some,
  List, [], ◌∷◌, map, keep, length, contains, str_eq, string_dec, if◌then◌else◌,
}
use kahuna_k8s_operator.Common.Dict.{Dict, lookup, insert, erase}
use kahuna_k8s_operator.Api.{Cluster, Pod}
use kahuna_k8s_operator.Kahuna.{MetricRow, Metrics, metric_kind_counter, metric_kind_gauge}
use kahuna_k8s_operator.Kahuna.Errors.{Error, other, wrapped, Result, ok, err}
use kahuna_k8s_operator.Kahuna.Client.{Client}
use kahuna_k8s_operator.Membership.{pod_base_url, pod_is_ready}
use kahuna_k8s_operator.Autoscaler.{Signal}
use kahuna_k8s_operator.Autoscaler.Arithmetic.{Float}

abbrev metric_writes_admitted : String
metric_writes_admitted = "kahuna.kv.write.admitted"

abbrev metric_client_queue_depth : String
metric_client_queue_depth = "raft.executor.client_queue_depth"

-- Nanoseconds, and in one millisecond.
abbrev pub min_sample_interval : ℕ
min_sample_interval = 10_000_000_000

abbrev pub millisecond : ℕ
millisecond = 1_000_000

pub record PodSample (F : Type 0) : Type 0 where
  pub writes_total : F
  pub monotonic_ms : ℕ
  pub rate : F
  pub has_rate : Bool

-- The pod has an address, is ready and is not being deleted.
abbrev pub is_measured : Pod → Bool
is_measured p = not (str_eq p.pod_ip "") && (not p.deleting && pod_is_ready p)

abbrev pub cluster_key : Cluster → String
cluster_key cluster = cluster.namespace <> ("/" <> cluster.name)

module _ (𝓕 : Float) where
  open 𝓕 use {F, of_int, add, sub, div, less}

  abbrev pub Samples : Type 0
  Samples = Dict String (PodSample F)

  -- One row's addition to a sum.
  abbrev add_reading : Bool → Option F → F → F
  add_reading false v sum = sum
  add_reading true none sum = sum
  add_reading true (some v) sum = add sum v

  unfoldable pub counter_total : String → F → List (MetricRow F) → F
  counter_total metric sum [] = sum
  counter_total metric sum (r ∷ rows) =
      counter_total metric
        (add_reading (str_eq r.metric metric && str_eq r.kind metric_kind_counter) r.total sum) rows

  unfoldable pub gauge_sum : String → F → List (MetricRow F) → F
  gauge_sum metric sum [] = sum
  gauge_sum metric sum (r ∷ rows) =
      gauge_sum metric
        (add_reading (str_eq r.metric metric && str_eq r.kind metric_kind_gauge) r.last sum) rows

  -- A reading's rate, whether it is known, and the samples with it.
  pub record Observation : Type 0 where
    pub rate : F
    pub known : Bool
    pub samples : Samples

  abbrev baseline : Samples → String → F → ℕ → Observation
  baseline samples uid total ms = record {
    rate = of_int 0;
    known = false;
    samples =
        insert string_dec uid
          (record { writes_total = total; monotonic_ms = ms; rate = of_int 0; has_rate = false })
          samples;
  }

  abbrev rated : Samples → String → F → ℕ → F → Observation
  rated samples uid total ms rate = record {
    rate = rate;
    known = true;
    samples =
        insert string_dec uid
          (record { writes_total = total; monotonic_ms = ms; rate = rate; has_rate = true })
          samples;
  }

  abbrev pub write_rate : PodSample F → F → ℕ → F
  write_rate prev total ms =
      div (sub total prev.writes_total) (div (of_int (ms - prev.monotonic_ms)) (of_int 1000))

  abbrev pub observe_after : Option (PodSample F) → Samples → String → F → ℕ → Observation
  observe_after none samples uid total ms = baseline samples uid total ms
  observe_after (some prev) samples uid total ms =
      if less total prev.writes_total || leb ms prev.monotonic_ms
      then baseline samples uid total ms
      else if ltb ((ms - prev.monotonic_ms) * millisecond) min_sample_interval
      then record { rate = prev.rate; known = prev.has_rate; samples = samples }
      else rated samples uid total ms (write_rate prev total ms)

  unfoldable pub observe_sample : Samples → String → F → ℕ → Observation
  unfolding lookup
  observe_sample samples uid total ms =
      observe_after (lookup string_dec uid samples) samples uid total ms

  module _ (client : Client F) (cluster : Cluster) where
    abbrev pub with_reading :
        Pod → Metrics F → Result (List (Pod × Metrics F)) → Result (List (Pod × Metrics F))
    with_reading p m (err e) = err e
    with_reading p m (ok rest) = ok ((p, m) ∷ rest)

    -- The pods' metrics, or the first error.
    unfoldable pub read_all : List Pod → Result (List (Pod × Metrics F))
    read_all [] = ok []
    read_all (p ∷ ps) =
        let rest = read_all ps in
        elim (client.metrics (pod_base_url cluster p)) [
          | err e ↦ err (wrapped ("reading metrics from " <> p.name) e)
          | ok m ↦ with_reading p m rest
        ]

  -- The variables of the loop over the readings.
  pub record Totals : Type 0 where
    pub samples : Samples
    pub writes : F
    pub queue : F
    pub writes_known : Bool

  abbrev add_pod : Totals → Pod → Metrics F → Totals
  add_pod t p m =
      let o =
        observe_sample t.samples p.uid (counter_total metric_writes_admitted (of_int 0) m.rows)
          m.monotonic_ms in
      record {
        samples = o.samples;
        writes = add t.writes o.rate;
        queue = add t.queue (gauge_sum metric_client_queue_depth (of_int 0) m.rows);
        writes_known = if o.known then t.writes_known else false;
      }

  unfoldable pub add_pods : Totals → List (Pod × Metrics F) → Totals
  unfolding observe_sample counter_total gauge_sum
  add_pods t [] = t
  add_pods t ((p, m) ∷ readings) = add_pods (add_pod t p m) readings

  -- The samples of the pods that are there.
  abbrev pub of_live : List String → Samples → Samples
  of_live live samples = keep (λ entry. contains live entry.0) samples

  -- The sampler: each cluster's samples, under the cluster's key.
  abbrev pub Sampler : Type 0
  Sampler = Dict String Samples

  abbrev samples_of : Option Samples → Samples
  samples_of none = []
  samples_of (some samples) = samples

  abbrev averaged : F → Totals → Signal F
  averaged n t = record {
    writes_per_node = if t.writes_known then some (div t.writes n) else none;
    queue_per_node = some (div t.queue n);
  }

  abbrev pub totals_of : Option Samples → List (Pod × Metrics F) → Totals
  totals_of samples readings =
      add_pods
        (record {
          samples = samples_of samples;
          writes = of_int 0;
          queue = of_int 0;
          writes_known = true;
        })
        readings

  -- A pass's signal, and the sampler after it.
  abbrev pub with_readings :
      String → List Pod → Sampler → Result (List (Pod × Metrics F)) → Result (Signal F) × Sampler
  with_readings key ready sampler (err e) = (err e, sampler)
  with_readings key ready sampler (ok readings) =
      let t = totals_of (lookup string_dec key sampler) readings in
      (
        ok (averaged (of_int (length ready)) t),
        insert string_dec key (of_live (map (λ p. p.uid) ready) t.samples) sampler,
      )

  abbrev pub measure_ready : Client F → Cluster → List Pod → Sampler → Result (Signal F) × Sampler
  measure_ready client cluster [] sampler =
      (err (other "no ready pod to read metrics from"), sampler)
  measure_ready client cluster (p ∷ ps) sampler =
      with_readings (cluster_key cluster) (p ∷ ps) sampler (read_all client cluster (p ∷ ps))

  unfoldable pub measure : Client F → Cluster → List Pod → Sampler → Result (Signal F) × Sampler
  unfolding read_all add_pods lookup insert
  measure client cluster pods sampler = measure_ready client cluster (keep is_measured pods) sampler

  unfoldable pub forget_samples : String → Sampler → Sampler
  unfolding erase
  forget_samples key sampler = erase string_dec key sampler
