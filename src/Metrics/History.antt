-- ===== src/Metrics/History.antt =====
-- The collector of src/metrics.rs against the history of its `record` calls.
use lkrequest_py.Prelude.{
  ℕ, ◌+◌, ◌≡◌, refl, ap, String, str_eq, eq_iff, Bool, true, false, List, [], ◌∷◌, ◌++◌, map,
  Option, none, some, arith, if◌then◌else◌, length, length-append, append-nil, append_assoc, subst,
  ok,
}
use lkrequest_py.Types.{F64, pos}
use lkrequest_py.Metrics.{
  u64, le_f64, histogram_buckets, HostMetrics, new_host, count_buckets, Sample, one_if, add_if,
  MetricsInner, new_inner, lookup, or_new, record_host, record_in, record_inner, reset,
}

-- A history is the calls so far, oldest first: the host and the sample.
abbrev pub Call : Type 0
Call = String × Sample

abbrev pub only : String → List Call → List Sample
only k [] = []
only k ((j, s) ∷ cs) = if str_eq j k then s ∷ only k cs else only k cs

abbrev pub count_errors : List Sample → ℕ
count_errors [] = 0
count_errors (s ∷ ss) = one_if s.is_error + count_errors ss

abbrev pub total_bytes : List Sample → ℕ
total_bytes [] = 0
total_bytes (s ∷ ss) = s.body_size + total_bytes ss

-- How many of the samples took at most `b`.
abbrev pub count_le : F64 → List Sample → ℕ
count_le b [] = 0
count_le b (s ∷ ss) = one_if (le_f64 s.elapsed b) + count_le b ss

abbrev pub samples : List Call → List Sample
samples [] = []
samples ((k, s) ∷ cs) = s ∷ samples cs

count_errors-snoc :
    (ss : List Sample) (s : Sample)
    → count_errors (ss ++ s ∷ []) ≡ count_errors ss + one_if s.is_error
count_errors-snoc [] s = omega arith
count_errors-snoc (x ∷ ss) s = omega (arith, count_errors-snoc ss s)

total_bytes-snoc :
    (ss : List Sample) (s : Sample) → total_bytes (ss ++ s ∷ []) ≡ total_bytes ss + s.body_size
total_bytes-snoc [] s = omega arith
total_bytes-snoc (x ∷ ss) s = omega (arith, total_bytes-snoc ss s)

count_le-snoc :
    (b : F64) (ss : List Sample) (s : Sample)
    → count_le b (ss ++ s ∷ []) ≡ count_le b ss + one_if (le_f64 s.elapsed b)
count_le-snoc b [] s = omega arith
count_le-snoc b (x ∷ ss) s = omega (arith, count_le-snoc b ss s)

samples-snoc :
    (cs : List Call) (k : String) (s : Sample) → samples (cs ++ (k, s) ∷ []) ≡ samples cs ++ s ∷ []
samples-snoc [] k s = refl
samples-snoc (c ∷ cs) k s = ap (◌∷◌ c.1) (samples-snoc cs k s)

only-snoc :
    (k j : String) (cs : List Call) (s : Sample)
    → only k (cs ++ (j, s) ∷ []) ≡ (if str_eq j k then only k cs ++ s ∷ [] else only k cs)
only-snoc k j [] s = ground arith
only-snoc k j ((i, x) ∷ cs) s = ground (arith, only-snoc k j cs s)

count_buckets-count_le :
    (bs : List F64) (ss : List Sample) (s : Sample)
    → count_buckets s.elapsed bs (map (λ b. u64 (count_le b ss)) bs)
      ≡ map (λ b. u64 (count_le b (ss ++ s ∷ []))) bs
unfolding count_buckets
count_buckets-count_le [] ss s = refl
count_buckets-count_le (b ∷ bs) ss s =
    ground (arith, count_buckets-count_le bs ss s, count_le-snoc b ss s)

add_if_lem : (b : Bool) (n : ℕ) → add_if b (u64 n) ≡ u64 (n + one_if b)
add_if_lem true n = omega arith
add_if_lem false n = omega arith

module _ (add : F64 → F64 → F64) where
  abbrev pub total_elapsed : F64 → List Sample → F64
  total_elapsed t [] = t
  total_elapsed t (s ∷ ss) = total_elapsed (add t s.elapsed) ss

  total_elapsed-snoc :
      (t : F64) (ss : List Sample) (s : Sample)
      → total_elapsed t (ss ++ s ∷ []) ≡ add (total_elapsed t ss) s.elapsed
  total_elapsed-snoc t [] s = refl
  total_elapsed-snoc t (x ∷ ss) s = total_elapsed-snoc (add t x.elapsed) ss s

  -- The counters of a host with these samples.
  abbrev pub counters : List Sample → HostMetrics
  counters ss = record {
    requests = u64 (length ss);
    errors = u64 (count_errors ss);
    bytes_received = u64 (total_bytes ss);
    histogram_counts = map (λ b. u64 (count_le b ss)) histogram_buckets;
    histogram_sum = total_elapsed (pos 0) ss;
  }

  -- A host has an entry once it has a sample.
  abbrev pub entry : List Sample → Option HostMetrics
  entry [] = none
  entry (s ∷ ss) = some (counters (s ∷ ss))

  or_new-entry : (ss : List Sample) → or_new (entry ss) ≡ counters ss
  unfolding new_host
  or_new-entry [] = refl
  or_new-entry (s ∷ ss) = refl

  entry-snoc :
      (ss : List Sample) (s : Sample) → entry (ss ++ s ∷ []) ≡ some (counters (ss ++ s ∷ []))
  entry-snoc [] s = refl
  entry-snoc (x ∷ ss) s = refl

  record_host-counters :
      (ss : List Sample) (s : Sample) → record_host add s (counters ss) ≡ counters (ss ++ s ∷ [])
  unfolding record_host
  record_host-counters ss s = ground (
    arith,
    length-append ss (s ∷ []),
    count_errors-snoc ss s,
    add_if_lem s.is_error (count_errors ss),
    total_bytes-snoc ss s,
    count_buckets-count_le histogram_buckets ss s,
    total_elapsed-snoc (pos 0) ss s,
  )

  lookup-record_in :
      (k j : String) (s : Sample) (m : List (String × HostMetrics))
      → lookup k (record_in add j s m)
        ≡ (if str_eq j k then some (record_host add s (or_new (lookup k m))) else lookup k m)
  unfolding lookup record_in
  lookup-record_in k j s [] = ground (arith, eq_iff j k)
  lookup-record_in k j s ((i, h) ∷ m) =
      ground (arith, eq_iff i j, eq_iff j k, eq_iff i k, lookup-record_in k j s m)

  -- What a collector holds after a history, with the map's lock never poisoned.
  pub record Summarises (past : List Call) (m : MetricsInner) : Type 0 where
    pub healthy : m.poisoned ≡ false
    pub requests : m.global_requests ≡ u64 (length (samples past))
    pub errors : m.global_errors ≡ u64 (count_errors (samples past))
    pub bytes : m.global_bytes_received ≡ u64 (total_bytes (samples past))
    pub hosts : (k : String) → lookup k m.per_host ≡ entry (only k past)

  pub record_inner-Summarises :
      (past : List Call) (m : MetricsInner) (k : String) (s : Sample)
      → Summarises past m
      → Summarises (past ++ (k, s) ∷ []) (record_inner add k s m)
  unfolding record_inner
  record_inner-Summarises past m k s v = record {
    healthy = v.healthy;
    requests =
        ground (arith, v.requests, samples-snoc past k s, length-append (samples past) (s ∷ []));
    errors = ground (
      arith,
      v.errors,
      samples-snoc past k s,
      count_errors-snoc (samples past) s,
      add_if_lem s.is_error (count_errors (samples past)),
    );
    bytes = ground (arith, v.bytes, samples-snoc past k s, total_bytes-snoc (samples past) s);
    hosts = λ j. ground (
      arith,
      v.healthy,
      v.hosts j,
      lookup-record_in j k s m.per_host,
      only-snoc j k past s,
      or_new-entry (only j past),
      record_host-counters (only j past) s,
      entry-snoc (only j past) s,
    );
  }

  unfoldable pub run : MetricsInner → List Call → MetricsInner
  run m [] = m
  run m ((k, s) ∷ cs) = run (record_inner add k s m) cs

  run-Summarises :
      (past cs : List Call) (m : MetricsInner)
      → Summarises past m
      → Summarises (past ++ cs) (run m cs)
  unfolding run
  run-Summarises past [] m v = rw (append-nil past) v
  run-Summarises past ((k, s) ∷ cs) m v =
      subst (λ l. Summarises l (run (record_inner add k s m) cs))
        (append_assoc past ((k, s) ∷ []) cs)
        (run-Summarises (past ++ (k, s) ∷ []) cs (record_inner add k s m)
          (record_inner-Summarises past m k s v))

  pub run_new-Summarises : (cs : List Call) → Summarises cs (run new_inner cs)
  unfolding new_inner lookup
  run_new-Summarises cs =
      run-Summarises [] cs new_inner
        (record { healthy = refl; requests = refl; errors = refl; bytes = refl; hosts = λ k. refl })

  reset-Summarises :
      (past cs : List Call) (m : MetricsInner)
      → Summarises past m
      → ((reset m).0 ≡ ok tt) × Summarises cs (run (reset m).1 cs)
  unfolding reset lookup
  reset-Summarises past cs m v = rw v.healthy (
    refl,
    run-Summarises [] cs _ (record {
      healthy = refl;
      requests = refl;
      errors = refl;
      bytes = refl;
      hosts = λ k. refl;
    }),
  )

  -- After any history of `record` calls on a new collector, its global counters are the number of
  -- calls, of errors and of bytes, modulo 2 ^ 64; and a host has an entry exactly when a call named
  -- it, with its own numbers of calls, errors and bytes, for each bucket the number of its calls that
  -- took at most that long, all modulo 2 ^ 64, and the sum of its times in the order of its calls.
  -- `reset` then succeeds and starts the history anew.
  pub run-reset-Summarises :
      (past cs : List Call)
      → Summarises past (run new_inner past)
        × ((reset (run new_inner past)).0 ≡ ok tt)
        × Summarises cs (run (reset (run new_inner past)).1 cs)
  run-reset-Summarises past cs =
      let (done, after) = reset-Summarises past cs (run new_inner past) (run_new-Summarises past) in
      (run_new-Summarises past, done, after)
