-- ===== src/Retry/Delays.antt =====
-- The delays that src/retry.rs makes of floats.
use lkrequest_py.Prelude.{◌≡◌, ◌⊎◌, refl, inl, inr, none, some, arith, panic, ok, error_kind}
use lkrequest_py.Types.{F64, nan, inf, neg_inf, pos, neg}
use lkrequest_py.Types.Validation.{
  FitsDuration, IsInvalid, IsTooLong, in_nanos, from_secs_f64-pos, from_secs_f64-neg_zero,
}
use lkrequest_py.Retry.{returned_float, should_retry}

-- A number that the callable returns is the delay when a `Duration` can hold it; NaN, an infinity and
-- a negative number mean no retry; and a finite number of 2 ^ 64 seconds or more panics, though the
-- code has a test for invalid delays.
pub should_retry_cases :
    (x : F64)
    → (FitsDuration x × (should_retry (ok (returned_float x)) ≡ ok (some (in_nanos x))))
      ⊎ (IsInvalid x × (should_retry (ok (returned_float x)) ≡ ok none))
      ⊎ (IsTooLong x × (error_kind (should_retry (ok (returned_float x))) ≡ some panic))
unfolding should_retry
should_retry_cases nan = inr (inl (tt, refl))
should_retry_cases inf = inr (inl (tt, refl))
should_retry_cases neg_inf = inr (inl (tt, refl))
should_retry_cases (pos k) = elim (from_secs_f64-pos k) [
  | inl (fits, e) ↦ inl (fits, rw e refl)
  | inr (long, e) ↦ inr (inr (long, ground (arith, e)))
]
should_retry_cases (neg k) = ground (arith, from_secs_f64-neg_zero)
