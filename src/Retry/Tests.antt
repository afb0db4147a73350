-- ===== src/Retry/Tests.antt =====
-- Runs of the callable policy of src/retry.rs.
use lkrequest_py.Prelude.{◌≡◌, ◌⊎◌, none, some, panic, ok, error_kind}
use lkrequest_py.Types.{pos}
use lkrequest_py.Types.Validation.{FitsDuration, IsInvalid, IsTooLong, in_nanos}
use lkrequest_py.Retry.{returned_float, should_retry}
use lkrequest_py.Retry.Delays.{should_retry_cases}

should_retry_example :
    (FitsDuration (pos 7)
      × (should_retry (ok (returned_float (pos 7))) ≡ ok (some (in_nanos (pos 7)))))
    ⊎ (IsInvalid (pos 7) × (should_retry (ok (returned_float (pos 7))) ≡ ok none))
    ⊎ (IsTooLong (pos 7) × (error_kind (should_retry (ok (returned_float (pos 7)))) ≡ some panic))
should_retry_example = should_retry_cases (pos 7)
