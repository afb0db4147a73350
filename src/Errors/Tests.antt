-- ===== src/Errors/Tests.antt =====
-- An error of the library that src/error.rs converts.
use mathlib.Core.Logic.{◌↔◌}
use lkrequest_py.Prelude.{String, Bool, true, request_error}
use lkrequest_py.Errors.{LibError, tls, to_py_err}
use lkrequest_py.Errors.Catching.{Catches, IsFor, to_py_err-caught_iff}

abbrev inner : LibError → LibError
inner e = tls "handshake"

abbrev display : LibError → String
display e = "handshake failed"

abbrev mismatch : LibError → Bool
mismatch e = true

to_py_err-caught_iff_example :
    Catches request_error (to_py_err inner display mismatch (tls "retry")).kind
    ↔ IsFor request_error (tls "handshake")
to_py_err-caught_iff_example =
    to_py_err-caught_iff inner display mismatch request_error (tls "retry")
