-- ===== src/Errors.antt =====
-- src/error.rs: the classes of exceptions, and what an error of the `lkrequest` library is raised as.
mod Tests
pub mod Catching
use lkrequest_py.Prelude.{
  ◌<>◌, String, Bool, true, false, Option, none, some, if◌then◌else◌, PyErr, ErrKind, value_error,
  type_error, runtime_error, key_error, io_error, stop_iteration, stop_async_iteration,
  request_error, tls_error, proxy_error, http_status_error, connection_error, timeout_error,
  too_many_redirects_error, resource_limit_error, json_decode_error, raised, panic,
}

-- The variants of `lkrequest::error::Error` that src/error.rs tells apart, and the others.
pub data LibError : Type 0 where
  timeout connection io tls proxy status too_many_redirects invalid_config resource_limit_exceeded
        other_error :
      String → LibError

-- The base class of each class that `create_exception!` makes. `JsonDecodeError` has a second one.
pub base_of : ErrKind → Option ErrKind
base_of tls_error = some request_error
base_of proxy_error = some request_error
base_of http_status_error = some request_error
base_of connection_error = some request_error
base_of timeout_error = some request_error
base_of too_many_redirects_error = some request_error
base_of resource_limit_error = some request_error
base_of json_decode_error = some request_error
base_of _ = none

-- The `match` of `to_py_err`.
pub class_of : LibError → ErrKind
class_of (timeout t) = timeout_error
class_of (connection t) = connection_error
class_of (io t) = connection_error
class_of (tls t) = tls_error
class_of (proxy t) = proxy_error
class_of (status t) = http_status_error
class_of (too_many_redirects t) = too_many_redirects_error
class_of (invalid_config t) = value_error
class_of (resource_limit_exceeded t) = resource_limit_error
class_of (other_error t) = request_error

-- What the library says of an error: the one it wraps, its text, and whether an address was of a
-- family that the client excludes.
module _ (unwrapped : LibError → LibError) (display : LibError → String)
    (is_address_family_mismatch : LibError → Bool) where
  pub describe : LibError → String
  describe e =
      if is_address_family_mismatch e
      then display e <> " (excluded by the client's ip_family setting)"
      else display e

  pub to_py_err : LibError → PyErr
  to_py_err e =
      let inner = unwrapped e in record { kind = class_of inner; message = describe inner }
