-- ===== src/Metrics/Buckets.antt =====
-- The buckets of a host are cumulative, as the Prometheus format wants them.
use lkrequest_py.Prelude.{
  ℕ, ◌^◌, ◌≤◌, ◌<◌, ◌≡◌, refl, sym, subst, ◌∙◌, String, some, Bool, true, List, [], ◌∷◌, map, arith,
  length,
}
use lkrequest_py.Types.{F64}
use lkrequest_py.Metrics.{
  u64, le_f64, histogram_buckets, Sample, one_if, HostMetrics, bucket, lookup, new_inner,
}
use lkrequest_py.Metrics.History.{Call, only, count_le, counters, entry, run, run_new-Summarises}

abbrev pub IsAscending : List F64 → Type 0
IsAscending [] = Unit {0}
IsAscending (b ∷ []) = Unit {0}
IsAscending (b ∷ c ∷ bs) = (le_f64 b c ≡ true) × IsAscending (c ∷ bs)

histogram_buckets-IsAscending : IsAscending histogram_buckets
unfolding histogram_buckets bucket
histogram_buckets-IsAscending =
    (refl, (refl, (refl, (refl, (refl, (refl, (refl, (refl, (refl, tt)))))))))

le_f64_trans : (x y z : F64) → le_f64 x y ≡ true → le_f64 y z ≡ true → le_f64 x z ≡ true
le_f64_trans x y z p q = ground arith

-- The entries ascend, and none is above `n`.
abbrev pub IsCumulative : List ℕ → ℕ → Type 0
IsCumulative [] n = Unit {0}
IsCumulative (c ∷ []) n = c ≤ n
IsCumulative (c ∷ d ∷ cs) n = (c ≤ d) × IsCumulative (d ∷ cs) n

count_le_mono : (b c : F64) (ss : List Sample) → le_f64 b c ≡ true → count_le b ss ≤ count_le c ss
count_le_mono b c [] h = omega arith
count_le_mono b c (s ∷ ss) h = omega (arith, count_le_mono b c ss h, one_if_mono s h)
  where
    one_if_mono :
        (s : Sample) → le_f64 b c ≡ true → one_if (le_f64 s.elapsed b) ≤ one_if (le_f64 s.elapsed c)
    one_if_mono s h = ground (arith, le_f64_trans s.elapsed b c)

count_le-le-length : (b : F64) (ss : List Sample) → count_le b ss ≤ length ss
count_le-le-length b [] = omega arith
count_le-le-length b (s ∷ ss) =
    omega (arith, count_le-le-length b ss, one_if-le (le_f64 s.elapsed b))
  where
    one_if-le : (b : Bool) → one_if b ≤ 1
    one_if-le b = ground arith

map-IsCumulative :
    (bs : List F64) (ss : List Sample)
    → IsAscending bs
    → length ss < 2 ^ 64
    → IsCumulative (map (λ b. u64 (count_le b ss)) bs) (u64 (length ss))
map-IsCumulative [] ss a few = tt
map-IsCumulative (b ∷ []) ss a few = omega (arith, count_le-le-length b ss)
map-IsCumulative (b ∷ c ∷ bs) ss a few = (
  omega (arith, count_le_mono b c ss a.0, count_le-le-length c ss),
  map-IsCumulative (c ∷ bs) ss a.1 few,
)

length-only : (k : String) (cs : List Call) → length (only k cs) ≤ length cs
length-only k [] = omega arith
length-only k ((j, s) ∷ cs) = ground (arith, length-only k cs)

entry-IsCumulative :
    (add : F64 → F64 → F64) (ss : List Sample) (h : HostMetrics)
    → length ss < 2 ^ 64
    → entry add ss ≡ some h
    → IsCumulative h.histogram_counts h.requests
entry-IsCumulative add [] h few e = cc
entry-IsCumulative add (s ∷ ss) h few e =
    let same : counters add (s ∷ ss) ≡ h = cc in
    subst (λ (x : HostMetrics). IsCumulative x.histogram_counts x.requests) same
      (map-IsCumulative histogram_buckets (s ∷ ss) histogram_buckets-IsAscending few)

-- After fewer than 2 ^ 64 `record` calls on a new collector, the bucket counts of every host ascend
-- from each bucket to the next, and none is above the host's number of requests, which the export
-- gives as the `+Inf` bucket.
pub run-IsCumulative :
    (add : F64 → F64 → F64) (cs : List Call) (k : String) (h : HostMetrics)
    → length cs < 2 ^ 64
    → lookup k (run add new_inner cs).per_host ≡ some h
    → IsCumulative h.histogram_counts h.requests
run-IsCumulative add cs k h few e =
    entry-IsCumulative add (only k cs) h (omega (arith, length-only k cs))
      (sym ((run_new-Summarises add cs).hosts k) ∙ e)
