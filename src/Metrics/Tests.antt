-- ===== src/Metrics/Tests.antt =====
-- Runs of the collector of src/metrics.rs.
use lkrequest_py.Prelude.{
  length, ◌++◌, ℕ, ◌+◌, ◌≡◌, refl, ok, true, false, List, [], ◌∷◌, ◌++◌, none, arith,
}
use lkrequest_py.Types.{F64, pos}
use lkrequest_py.Metrics.{
  HostMetrics, new_inner, lookup, record_in, record_host, record_inner, reset, new_host,
}
use lkrequest_py.Metrics.History.{Call, Summarises, run, run-reset-Summarises}
use lkrequest_py.Metrics.Buckets.{IsCumulative, run-IsCumulative}
use lkrequest_py.Metrics.Cas.{Shared, Move, loads, exchanges, Adds, sum_bits, finished, moves}
use lkrequest_py.Metrics.Cas.Finishing.{turns, times, moves-turns}
use mathlib.Core.List.{Perm}
use lkrequest_py.Metrics.Text.{read_label, escaped_host, read_label-escaped_host}

abbrev later : F64 → F64 → F64
later x y = y

abbrev calls : List Call
calls =
    ("a", record { elapsed = pos 7; body_size = 10; is_error = true })
    ∷ ("b", record { elapsed = pos 8; body_size = 1; is_error = false })
    ∷ []

run-reset-Summarises_example :
    Summarises later calls (run later new_inner calls)
    × ((reset (run later new_inner calls)).0 ≡ ok tt)
    × Summarises later calls (run later (reset (run later new_inner calls)).1 calls)
run-reset-Summarises_example = run-reset-Summarises later calls calls

abbrev counters_of_a : HostMetrics
counters_of_a =
    record_host later (record { elapsed = pos 7; body_size = 10; is_error = true }) new_host

run-IsCumulative_example : IsCumulative counters_of_a.histogram_counts counters_of_a.requests
unfolding run record_inner record_in lookup new_inner
run-IsCumulative_example = run-IsCumulative later calls "a" counters_of_a (omega arith) refl

abbrev racing : Shared
racing = record {
  cell = 0;
  adders =
      record { elapsed = pos 1; loaded = none; done = false }
      ∷ record { elapsed = pos 2; loaded = none; done = false }
      ∷ [];
}

abbrev race : List Move
race = loads 0 ∷ loads 1 ∷ exchanges 1 false ∷ exchanges 0 false ∷ loads 0 ∷ exchanges 0 false ∷ []

abbrev add_bits : ℕ → F64 → ℕ
add_bits n (pos k) = n + k
add_bits n x = n

moves-turns_example :
    ((order : List F64) × Adds add_bits racing (moves add_bits race racing) order)
    × ((order : List F64) × ((moves add_bits (race ++ turns (length racing.adders)) racing).cell
          ≡ sum_bits add_bits racing.cell order)
        × Perm (order ++ finished racing.adders) (times racing.adders))
moves-turns_example = moves-turns add_bits race racing

read_label-escaped_host_example :
    read_label false (escaped_host (97 ∷ 34 ∷ 92 ∷ []) ++ 34 ∷ 125 ∷ [])
    ≡ (97 ∷ 34 ∷ 92 ∷ [], 125 ∷ [])
read_label-escaped_host_example = read_label-escaped_host (97 ∷ 34 ∷ 92 ∷ []) (125 ∷ [])
