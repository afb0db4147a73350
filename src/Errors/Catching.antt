-- ===== src/Errors/Catching.antt =====
-- Which `except` clause catches an error of the library that src/error.rs converts.
use mathlib.Core.Logic.{◌↔◌}
use lkrequest_py.Prelude.{
  ◌≡◌, refl, sym, ◌⊎◌, inl, inr, String, Bool, some, some_inj, ErrKind, request_error, value_error,
  timeout_error, connection_error, tls_error, proxy_error, http_status_error,
  too_many_redirects_error, resource_limit_error,
}
use lkrequest_py.Errors.{
  LibError, timeout, connection, io, tls, proxy, status, too_many_redirects, invalid_config,
  resource_limit_exceeded, other_error, base_of, class_of, to_py_err,
}

-- `except class` catches an exception of this kind: the class itself or one below it.
abbrev pub Catches : ErrKind → ErrKind → Type 0
Catches class kind = (kind ≡ class) ⊎ (base_of kind ≡ some class)

abbrev pub IsInvalidConfig : LibError → Type 0
IsInvalidConfig (invalid_config t) = Unit
IsInvalidConfig e = ⊥

-- The clauses of a `try` statement that an error of the library is for.
pub data IsFor : ErrKind → LibError → Type 0 where
  slow : (t : String) → IsFor timeout_error (timeout t)
  unconnected : (t : String) → IsFor connection_error (connection t)
  unread : (t : String) → IsFor connection_error (io t)
  insecure : (t : String) → IsFor tls_error (tls t)
  unproxied : (t : String) → IsFor proxy_error (proxy t)
  unsuccessful : (t : String) → IsFor http_status_error (status t)
  redirected : (t : String) → IsFor too_many_redirects_error (too_many_redirects t)
  limited : (t : String) → IsFor resource_limit_error (resource_limit_exceeded t)
  misconfigured : (t : String) → IsFor value_error (invalid_config t)
  any_other : (e : LibError) → ¬ IsInvalidConfig e → IsFor request_error e

IsFor-caught : {class : ErrKind} {e : LibError} → IsFor class e → Catches class (class_of e)
unfolding class_of base_of
IsFor-caught (slow t) = inl refl
IsFor-caught (unconnected t) = inl refl
IsFor-caught (unread t) = inl refl
IsFor-caught (insecure t) = inl refl
IsFor-caught (unproxied t) = inl refl
IsFor-caught (unsuccessful t) = inl refl
IsFor-caught (redirected t) = inl refl
IsFor-caught (limited t) = inl refl
IsFor-caught (misconfigured t) = inl refl
IsFor-caught (any_other (timeout t) h) = inr refl
IsFor-caught (any_other (connection t) h) = inr refl
IsFor-caught (any_other (io t) h) = inr refl
IsFor-caught (any_other (tls t) h) = inr refl
IsFor-caught (any_other (proxy t) h) = inr refl
IsFor-caught (any_other (status t) h) = inr refl
IsFor-caught (any_other (too_many_redirects t) h) = inr refl
IsFor-caught (any_other (invalid_config t) h) = absurd (h tt)
IsFor-caught (any_other (resource_limit_exceeded t) h) = inr refl
IsFor-caught (any_other (other_error t) h) = inl refl

class_of-IsFor : (e : LibError) → IsFor (class_of e) e
unfolding class_of
class_of-IsFor (timeout t) = slow t
class_of-IsFor (connection t) = unconnected t
class_of-IsFor (io t) = unread t
class_of-IsFor (tls t) = insecure t
class_of-IsFor (proxy t) = unproxied t
class_of-IsFor (status t) = unsuccessful t
class_of-IsFor (too_many_redirects t) = redirected t
class_of-IsFor (invalid_config t) = misconfigured t
class_of-IsFor (resource_limit_exceeded t) = limited t
class_of-IsFor (other_error t) = any_other (other_error t) (λ h. h)

-- The class above the one that is raised.
base_of-IsFor : {class : ErrKind} (e : LibError) → base_of (class_of e) ≡ some class → IsFor class e
unfolding class_of base_of
base_of-IsFor (timeout t) p = rw (sym (some_inj p)) (any_other (timeout t) (λ h. h))
base_of-IsFor (connection t) p = rw (sym (some_inj p)) (any_other (connection t) (λ h. h))
base_of-IsFor (io t) p = rw (sym (some_inj p)) (any_other (io t) (λ h. h))
base_of-IsFor (tls t) p = rw (sym (some_inj p)) (any_other (tls t) (λ h. h))
base_of-IsFor (proxy t) p = rw (sym (some_inj p)) (any_other (proxy t) (λ h. h))
base_of-IsFor (status t) p = rw (sym (some_inj p)) (any_other (status t) (λ h. h))
base_of-IsFor (too_many_redirects t) p =
    rw (sym (some_inj p)) (any_other (too_many_redirects t) (λ h. h))
base_of-IsFor (invalid_config t) p = cc
base_of-IsFor (resource_limit_exceeded t) p =
    rw (sym (some_inj p)) (any_other (resource_limit_exceeded t) (λ h. h))
base_of-IsFor (other_error t) p = cc

-- Which clause catches a converted error depends on the error that is wrapped: `LkTimeoutError` catches
-- the time-outs, `LkConnectionError` the connections that fail and the errors of reading or writing,
-- `TlsError`, `ProxyError`, `HttpStatusError`, `TooManyRedirectsError` and `ResourceLimitError` one
-- variant each, `RequestError` everything but the invalid configurations, and `ValueError` only
-- those. No other class catches any.
pub to_py_err-caught_iff :
    (unwrapped : LibError → LibError) (display : LibError → String) (mismatch : LibError → Bool)
    (class : ErrKind) (e : LibError)
    → Catches class (to_py_err unwrapped display mismatch e).kind ↔ IsFor class (unwrapped e)
unfolding to_py_err
to_py_err-caught_iff unwrapped display mismatch class e = (
  λ h. elim h [
    | inl p ↦ rw (sym p) (class_of-IsFor (unwrapped e))
    | inr p ↦ base_of-IsFor (unwrapped e) p
  ],
  IsFor-caught,
)
