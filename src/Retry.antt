-- ===== src/Retry.antt =====
-- src/retry.rs: the two built-in policies, and a Python callable as one.
mod Tests
pub mod Delays
use lkrequest_py.Prelude.{
  ℕ, String, Bool, true, false, ◌||◌, not, Option, none, some, if◌then◌else◌, PyResult, ok, err,
  ◌>>=◌,
}
use lkrequest_py.Types.{F64, Duration, is_finite, is_negative, from_secs_f64, validated_duration}

-- What the constructors hand to the library.
pub data Policy : Type 0 where
  exponential_backoff : ℕ → Duration → Duration → Bool → Policy
  fixed_interval : ℕ → Duration → Policy

pub new_exponential_backoff : ℕ → F64 → F64 → Bool → PyResult Policy
new_exponential_backoff max_retries base_delay max_delay jitter = do
  base ← validated_duration base_delay
  max ← validated_duration max_delay
  ok (exponential_backoff max_retries base max jitter)

pub new_fixed_interval : ℕ → F64 → PyResult Policy
new_fixed_interval max_retries interval = do
  every ← validated_duration interval
  ok (fixed_interval max_retries every)

-- What the callable returns: `None`, a number, or something that does not extract as one.
pub data Returned : Type 0 where
  returned_none : Returned
  returned_float : F64 → Returned
  returned_other : Returned

abbrev to_delay : PyResult Duration → PyResult (Option Duration)
to_delay (ok d) = ok (some d)
to_delay (err e) = err e

-- `should_retry`, given what the call did. It is no Python function: an error in it is a panic.
pub should_retry : PyResult Returned → PyResult (Option Duration)
should_retry (err e) = ok none
should_retry (ok returned_none) = ok none
should_retry (ok returned_other) = ok none
should_retry (ok (returned_float delay_secs)) =
    if not (is_finite delay_secs) || is_negative delay_secs
    then ok none
    else to_delay (from_secs_f64 delay_secs)
