-- ===== src/Types/Tests.antt =====
-- Runs of the validated constructors of src/types.rs.
use lkrequest_py.Prelude.{◌≡◌, ◌⊎◌, ok, some, error_kind, value_error, panic}
use lkrequest_py.Types.{
  neg, validated_duration, fixed_payload_of, socket_write_aligned_of, fixed_payload,
  socket_write_aligned,
}
use lkrequest_py.Types.Validation.{
  FitsDuration, IsInvalid, IsTooLong, in_nanos, validated_duration_cases, UpstreamAccepts,
  data_frame_policy_cases,
}

validated_duration_example :
    (FitsDuration (neg 3) × (validated_duration (neg 3) ≡ ok (in_nanos (neg 3))))
    ⊎ (IsInvalid (neg 3) × (error_kind (validated_duration (neg 3)) ≡ some value_error))
    ⊎ (IsTooLong (neg 3) × (error_kind (validated_duration (neg 3)) ≡ some panic))
validated_duration_example = validated_duration_cases (neg 3)

data_frame_policy_example :
    ((UpstreamAccepts (fixed_payload_of 9) × (fixed_payload 9 ≡ ok (fixed_payload_of 9)))
      ⊎ (¬ UpstreamAccepts (fixed_payload_of 9)
          × (error_kind (fixed_payload 9) ≡ some value_error)))
    × ((UpstreamAccepts (socket_write_aligned_of 9)
          × (socket_write_aligned 9 ≡ ok (socket_write_aligned_of 9)))
        ⊎ (¬ UpstreamAccepts (socket_write_aligned_of 9)
            × (error_kind (socket_write_aligned 9) ≡ some value_error)))
data_frame_policy_example = data_frame_policy_cases 9
