-- ===== src/Metrics/Global.antt =====
-- `record_global_metrics` of src/metrics.rs, as the callers of the collector see it.
use lkrequest_py.Prelude.{ℕ, ◌+◌, ◌≡◌, String, true, Option, leb, arith}
use lkrequest_py.Types.{F64}
use lkrequest_py.Metrics.{
  u64, Sample, MetricsInner, add_if, record_inner, record_url, record_global_metrics,
}

pub global-requests :
    (add : F64 → F64 → F64) (host_of : String → Option String) (handles : ℕ) (url : String)
    (s : Sample) (m : MetricsInner)
    → leb 2 handles ≡ true
    → (record_global_metrics add host_of handles url s m).global_requests
      ≡ u64 (m.global_requests + 1)
unfolding record_global_metrics record_url record_inner
global-requests add host_of handles url s m h = ground (arith, h)

pub global-errors :
    (add : F64 → F64 → F64) (host_of : String → Option String) (handles : ℕ) (url : String)
    (s : Sample) (m : MetricsInner)
    → leb 2 handles ≡ true
    → (record_global_metrics add host_of handles url s m).global_errors
      ≡ add_if s.is_error m.global_errors
unfolding record_global_metrics record_url record_inner
global-errors add host_of handles url s m h = ground (arith, h)
