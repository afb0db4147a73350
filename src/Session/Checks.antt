-- ===== src/Session/Checks.antt =====
-- `validate_body_params` of src/session.rs against a reading of its rules.
use lkrequest_py.Prelude.{
  ℕ, ◌+◌, ◌≤◌, ◌≡◌, ◌⊎◌, String, true, List, Option, some, is_some, arith, ok, error_kind,
  value_error, none,
}
use lkrequest_py.Upload.{UploadSource}
use lkrequest_py.Session.{Handle, Pairs, Bytes, one_if, validate_body_params}

-- At most one body, and a length only for a stream.
abbrev pub IsValid :
    Option String
    → Option Pairs
    → Option Bytes
    → Option (List Handle)
    → Option UploadSource
    → Option ℕ
    → Type 0
IsValid json form body multipart stream content_length =
    (one_if json + one_if form + one_if body + one_if multipart + one_if stream ≤ 1)
    × ((is_some stream ≡ true) ⊎ (content_length ≡ none))

-- Bodies are accepted exactly when at most one of the five is given and `content_length` comes with a
-- `body_stream` only; any other combination raises ValueError.
pub validate_body_params_cases :
    (json : Option String) (form : Option Pairs) (body : Option Bytes)
    (multipart : Option (List Handle)) (stream : Option UploadSource) (content_length : Option ℕ)
    → (IsValid json form body multipart stream content_length
        × (validate_body_params json form body multipart stream content_length ≡ ok tt))
      ⊎ (¬ IsValid json form body multipart stream content_length
          × (error_kind (validate_body_params json form body multipart stream content_length)
              ≡ some value_error))
unfolding validate_body_params
validate_body_params_cases json form body multipart stream content_length = ground arith

pub validate-IsValid :
    (json : Option String) (form : Option Pairs) (body : Option Bytes)
    (multipart : Option (List Handle)) (stream : Option UploadSource) (content_length : Option ℕ)
    → validate_body_params json form body multipart stream content_length ≡ ok tt
    → IsValid json form body multipart stream content_length
unfolding validate_body_params
validate-IsValid json form body multipart stream content_length h = ground arith
