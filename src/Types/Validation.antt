-- ===== src/Types/Validation.antt =====
-- What the validated constructors of src/types.rs accept.
use lkrequest_py.Prelude.{
  ℕ, ◌*◌, ◌^◌, ◌≤◌, ◌<◌, ◌≡◌, refl, ◌⊎◌, inl, inr, some, arith, ok, error_kind, value_error, panic,
}
use lkrequest_py.Types.{
  from_secs_f64, F64, nan, inf, neg_inf, pos, neg, one_second, Duration, nanos, validated_duration,
  H2DataFramePolicy, fixed_payload_of, socket_write_aligned_of, fixed_payload, socket_write_aligned,
}

-- 2 ^ 64 seconds, the first value that no `Duration` holds.
abbrev pub too_long : ℕ
too_long = 2 ^ 64 * one_second

-- A float that a `Duration` can hold, -0.0 included.
abbrev pub FitsDuration : F64 → Type 0
FitsDuration (pos k) = k < too_long
FitsDuration (neg k) = k ≡ 0
FitsDuration _ = ⊥

abbrev pub IsTooLong : F64 → Type 0
IsTooLong (pos k) = too_long ≤ k
IsTooLong _ = ⊥

-- NaN, an infinity, or below zero.
abbrev pub IsInvalid : F64 → Type 0
IsInvalid (pos k) = ⊥
IsInvalid (neg k) = 0 < k
IsInvalid _ = Unit {0}

abbrev pub in_nanos : F64 → Duration
in_nanos (pos k) = nanos k
in_nanos _ = 0

-- The conversion of a float that is not negative and of one that is minus zero.
pub from_secs_f64-pos :
    (k : ℕ)
    → ((k < too_long) × (from_secs_f64 (pos k) ≡ ok (nanos k)))
      ⊎ ((too_long ≤ k) × (error_kind (from_secs_f64 (pos k)) ≡ some panic))
unfolding from_secs_f64
from_secs_f64-pos k = ground arith

pub from_secs_f64-neg_zero : from_secs_f64 (neg 0) ≡ ok 0
unfolding from_secs_f64
from_secs_f64-neg_zero = refl

-- `validated_duration` accepts exactly the floats that a `Duration` can hold, to the nearest
-- nanosecond; NaN, the infinities and the negative ones raise ValueError; and every finite float of
-- 2 ^ 64 seconds or more passes its validation and makes the conversion panic.
pub validated_duration_cases :
    (x : F64)
    → (FitsDuration x × (validated_duration x ≡ ok (in_nanos x)))
      ⊎ (IsInvalid x × (error_kind (validated_duration x) ≡ some value_error))
      ⊎ (IsTooLong x × (error_kind (validated_duration x) ≡ some panic))
unfolding validated_duration
validated_duration_cases nan = inr (inl (tt, refl))
validated_duration_cases inf = inr (inl (tt, refl))
validated_duration_cases neg_inf = inr (inl (tt, refl))
validated_duration_cases (pos k) = ground arith
validated_duration_cases (neg k) = ground arith

-- What a configuration that the constructors accept can hold. Upstream asserts the same and panics
-- otherwise.
abbrev pub UpstreamAccepts : H2DataFramePolicy → Type 0
UpstreamAccepts (fixed_payload_of n) = 0 < n
UpstreamAccepts (socket_write_aligned_of n) = 9 < n
UpstreamAccepts _ = Unit {0}

-- `fixed_payload` and `socket_write_aligned` build the policy asked for exactly when upstream's
-- assertion on it holds, and raise ValueError otherwise.
pub data_frame_policy_cases :
    (n : ℕ)
    → ((UpstreamAccepts (fixed_payload_of n) × (fixed_payload n ≡ ok (fixed_payload_of n)))
        ⊎ (¬ UpstreamAccepts (fixed_payload_of n)
            × (error_kind (fixed_payload n) ≡ some value_error)))
      × ((UpstreamAccepts (socket_write_aligned_of n)
            × (socket_write_aligned n ≡ ok (socket_write_aligned_of n)))
          ⊎ (¬ UpstreamAccepts (socket_write_aligned_of n)
              × (error_kind (socket_write_aligned n) ≡ some value_error)))
unfolding fixed_payload socket_write_aligned
data_frame_policy_cases n = ground arith
