-- ===== src/Metrics.antt =====
-- src/metrics.rs: per-host and global counters with latency histograms. The relaxed counters are
-- stepped one call of `record` at a time here; the compare-and-swap loop on the sum, where two calls
-- do meet, is Metrics/Cas. `add` is the addition of `f64`, `host_of` the host of a URL by the `url`
-- crate, `none` where it parses none.
mod Tests
pub mod History
pub mod Buckets
pub mod Cas
pub mod Text
pub mod Global
use lkrequest_py.Prelude.{
  ℕ, ◌+◌, ◌*◌, ◌%◌, ◌^◌, String, str_eq, Bool, true, false, List, [], ◌∷◌, map, Option, none, some,
  leb, if◌then◌else◌, ◌&&◌, ◌-◌, PyResult, ok, err, new_err, runtime_error,
}
use lkrequest_py.Types.{F64, nan, inf, neg_inf, pos, neg}

-- `AtomicU64` wraps.
abbrev pub u64 : ℕ → ℕ
u64 n = n % 2 ^ 64

-- `x <= y` on `f64`.
abbrev pub le_f64 : F64 → F64 → Bool
le_f64 nan y = false
le_f64 x nan = false
le_f64 neg_inf y = true
le_f64 x inf = true
le_f64 inf y = false
le_f64 x neg_inf = false
le_f64 (pos a) (pos b) = leb a b
le_f64 (pos a) (neg b) = leb a 0 && leb b 0
le_f64 (neg a) (pos b) = true
le_f64 (neg a) (neg b) = leb b a

-- `n` times 2 ^ -e, exactly.
bucket : ℕ → ℕ → F64
bucket n e = pos (n * 2 ^ (1074 - e))

-- `HISTOGRAM_BUCKETS`: 0.01, 0.025, 0.05, 0.1, 0.25, 0.5, 1, 2.5, 5 and 10, as `f64` has them.
pub histogram_buckets : List F64
unfolding bucket
histogram_buckets =
    bucket 5764607523034235 59
    ∷ bucket 3602879701896397 57
    ∷ bucket 3602879701896397 56
    ∷ bucket 3602879701896397 55
    ∷ bucket 1 2
    ∷ bucket 1 1
    ∷ bucket 1 0
    ∷ bucket 5 1
    ∷ bucket 5 0
    ∷ bucket 10 0
    ∷ []

pub record HostMetrics : Type 0 where
  pub requests : ℕ
  pub errors : ℕ
  pub bytes_received : ℕ
  pub histogram_counts : List ℕ
  pub histogram_sum : F64

-- `HostMetrics::new`; the bits 0 are 0.0.
pub new_host : HostMetrics
new_host = record {
  requests = 0;
  errors = 0;
  bytes_received = 0;
  histogram_counts = map (λ _. 0) histogram_buckets;
  histogram_sum = pos 0;
}

-- The loop over the buckets; `histogram_counts` has an entry for each.
pub count_buckets : F64 → List F64 → List ℕ → List ℕ
count_buckets elapsed [] counts = counts
count_buckets elapsed (b ∷ bs) [] = []
count_buckets elapsed (b ∷ bs) (c ∷ counts) =
    (if le_f64 elapsed b then u64 (c + 1) else c) ∷ count_buckets elapsed bs counts

-- One call of `record`.
pub record Sample : Type 0 where
  pub elapsed : F64
  pub body_size : ℕ
  pub is_error : Bool

abbrev pub one_if : Bool → ℕ
one_if true = 1
one_if false = 0

abbrev pub add_if : Bool → ℕ → ℕ
add_if true n = u64 (n + 1)
add_if false n = n

pub record MetricsInner : Type 0 where
  pub global_requests : ℕ
  pub global_errors : ℕ
  pub global_bytes_received : ℕ
  pub per_host : List (String × HostMetrics)
  pub poisoned : Bool  -- of the map's lock

pub new_inner : MetricsInner
new_inner = record {
  global_requests = 0;
  global_errors = 0;
  global_bytes_received = 0;
  per_host = [];
  poisoned = false;
}

pub lookup : String → List (String × HostMetrics) → Option HostMetrics
lookup k [] = none
lookup k ((j, v) ∷ m) = if str_eq j k then some v else lookup k m

abbrev pub or_new : Option HostMetrics → HostMetrics
or_new none = new_host
or_new (some h) = h

module _ (add : F64 → F64 → F64) where
  -- `HostMetrics::record`, its compare-and-swap loop run to its end.
  pub record_host : Sample → HostMetrics → HostMetrics
  record_host s h = record {
    requests = u64 (h.requests + 1);
    errors = add_if s.is_error h.errors;
    bytes_received = u64 (h.bytes_received + s.body_size);
    histogram_counts = count_buckets s.elapsed histogram_buckets h.histogram_counts;
    histogram_sum = add h.histogram_sum s.elapsed;
  }

  -- `get_host_metrics` with the recording that its caller does on the entry: `entry(host)`,
  -- `or_insert_with(HostMetrics::new)`, then `hm.record(…)`.
  pub record_in : String → Sample → List (String × HostMetrics) → List (String × HostMetrics)
  unfolding record_host
  record_in k s [] = (k, record_host s new_host) ∷ []
  record_in k s ((j, h) ∷ m) =
      if str_eq j k then (j, record_host s h) ∷ m else (j, h) ∷ record_in k s m

  -- `MetricsInner::record`. A poisoned lock leaves the hosts out.
  pub record_inner : String → Sample → MetricsInner → MetricsInner
  unfolding record_in
  record_inner host s m = record m {
    global_requests = u64 (m.global_requests + 1);
    global_errors = add_if s.is_error m.global_errors;
    global_bytes_received = u64 (m.global_bytes_received + s.body_size);
    per_host = if m.poisoned then m.per_host else record_in host s m.per_host;
  }

  abbrev unwrap_or_unknown : Option String → String
  unwrap_or_unknown none = "unknown"
  unwrap_or_unknown (some h) = h

  -- `PyMetricsCollector::record`.
  pub record_url : (String → Option String) → String → Sample → MetricsInner → MetricsInner
  unfolding record_inner
  record_url host_of url s m = record_inner (unwrap_or_unknown (host_of url)) s m

  -- `record_global_metrics`: `handles` is the strong count of the collector.
  pub record_global_metrics :
      (String → Option String) → ℕ → String → Sample → MetricsInner → MetricsInner
  unfolding record_url
  record_global_metrics host_of handles url s m =
      if leb 2 handles then record_url host_of url s m else m

-- `reset`: the counters go first; with a poisoned lock the hosts stay and the call raises.
pub reset : MetricsInner → PyResult (Unit {0}) × MetricsInner
reset m =
    let zeroed = record m { global_requests = 0; global_errors = 0; global_bytes_received = 0 } in
    if m.poisoned
    then (new_err runtime_error "Metrics lock poisoned", zeroed)
    else (ok tt, record zeroed { per_host = [] })

-- The samples of one `prometheus_text`, without the text around them: the three totals, and for
-- each host its buckets in order, the `+Inf` bucket, the sum and the count.
pub record HostSeries : Type 0 where
  pub host : String
  pub buckets : List (F64 × ℕ)
  pub inf_bucket : ℕ
  pub sum : F64
  pub count : ℕ

abbrev zip_counts : List F64 → List ℕ → List (F64 × ℕ)
zip_counts [] counts = []
zip_counts (b ∷ bs) [] = []
zip_counts (b ∷ bs) (c ∷ counts) = (b, c) ∷ zip_counts bs counts

pub series_of : String × HostMetrics → HostSeries
series_of (host, h) = record {
  host = host;
  buckets = zip_counts histogram_buckets h.histogram_counts;
  inf_bucket = h.requests;
  sum = h.histogram_sum;
  count = h.requests;
}

pub host_series : MetricsInner → List HostSeries
unfolding series_of
host_series m = if m.poisoned then [] else map series_of m.per_host
