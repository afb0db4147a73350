-- ===== src/Session/Tests.antt =====
-- Runs of the request building of src/session.rs.
use lkrequest_py.Prelude.{
  ◌≡◌, ◌⊎◌, refl, ok, false, List, [], ◌∷◌, none, some, error_kind, value_error,
}
use lkrequest_py.Types.{optional_duration}
use lkrequest_py.Upload
use lkrequest_py.Session.{
  default_opts, PreparedRequest, BuilderCall, starts, sets_body_stream, validate_body_params,
  apply_request_options, verb_of, head_calls, option_calls, body_calls, Verb,
}
use lkrequest_py.Session.Checks.{IsValid, validate_body_params_cases}
use lkrequest_py.Session.Building.{bodies, given, apply-bodies}

validate_body_params_example :
    (IsValid (some "{}") none (some []) none none none
      × (validate_body_params (some "{}") none (some []) none none none ≡ ok tt))
    ⊎ (¬ IsValid (some "{}") none (some []) none none none
        × (error_kind (validate_body_params (some "{}") none (some []) none none none)
            ≡ some value_error))
validate_body_params_example = validate_body_params_cases (some "{}") none (some []) none none none

-- A `POST` of a stream of 10 bytes.
abbrev streaming : PreparedRequest
streaming = record {
  method = "POST";
  url = "https://a/";
  headers = none;
  params = none;
  json_body = none;
  form_data = none;
  raw_body = none;
  cookies = none;
  cookie_overrides = none;
  timeout = none;
  bearer_auth = none;
  basic_auth = none;
  multipart = none;
  proxy = some "http://p";
  no_auto_decompress = false;
  accept_encoding = none;
  opts = record default_opts {
    body_stream = some Upload.UploadSource.reader;
    content_length = some 10;
  };
}

abbrev calls : List BuilderCall
calls =
    starts Verb.post "https://a/"
    ∷ BuilderCall.sets_proxy "http://p"
    ∷ sets_body_stream Upload.UploadSource.reader (some 10)
    ∷ []

apply-bodies_example : bodies calls ≡ given streaming
unfolding default_opts validate_body_params apply_request_options verb_of head_calls option_calls
    body_calls optional_duration
apply-bodies_example = apply-bodies streaming calls refl refl
