-- ===== src/Middleware.antt =====
-- `PyMiddlewareWrapper` of src/middleware.rs: a Python callback that may change a request before it is
-- sent, and a response before it is returned.
mod Tests
pub mod Effects
use lkrequest_py.Prelude.{
  ℕ, ◌<>◌, String, Bool, true, false, ◌&&◌, List, [], ◌∷◌, ◌++◌, Option, none, some, is_some,
  if◌then◌else◌, PyErr, PyResult, ok, err,
}
use lkrequest_py.SessionState.{Callback, Slots}

-- A header of the `http` crate: its name and value. A `HeaderMap` is the list of its headers in the
-- order of their addition.
abbrev pub Header : Type 0
Header = String × String

-- `MiddlewareRequest` and `MiddlewareResponse`.
pub record Request : Type 0 where
  pub method : String
  pub url : String
  pub headers : List Header

pub record Response : Type 0 where
  pub status : ℕ
  pub headers : List Header

-- A Python object where a text is looked for, the entries of a `dict` of headers, and an object where
-- such a `dict` is looked for.
abbrev pub MaybeText : Type 0
MaybeText = Option String

pub data HeadersObject : Type 0 where
  headers_dict : List (MaybeText × MaybeText) → HeadersObject
  no_dict : HeadersObject

-- What a callback returns. A `dict` by its items "url" and "headers", where it has them.
pub data Returned : Type 0 where
  returned_dict : Option MaybeText → Option HeadersObject → Returned
  returned_none : Returned
  returned_other : Returned

-- `lkrequest::error::Error::Http` with its text.
pub data LibResult (A : Type 0) : Type 0 where
  fine : A → LibResult A
  http_error : String → LibResult A

-- `HeaderName::from_bytes` and `HeaderValue::from_str`, with what they make of a text.
module _ (header_name : String → Option String) (header_value : String → Option String) where
  abbrev both : Option String → Option String → List Header
  both (some n) (some v) = (n, v) ∷ []
  both (some n) none = []
  both none v = []

  abbrev pub valid : MaybeText × MaybeText → List Header
  valid (some k, some v) = both (header_name k) (header_value v)
  valid (some k, none) = []
  valid (none, v) = []

  -- The loop over the returned headers: what is no text or no header is left out.
  pub new_headers : List (MaybeText × MaybeText) → List Header → List Header
  new_headers [] headers = headers
  new_headers (e ∷ es) headers = new_headers es (headers ++ valid e)

  abbrev set_url : Option MaybeText → Request → Request
  set_url (some (some u)) req = record req { url = u }
  set_url (some none) req = req
  set_url none req = req

  abbrev replaced : Option HeadersObject → List Header → List Header
  replaced (some (headers_dict es)) old = new_headers es []
  replaced (some no_dict) old = old
  replaced none old = old

  -- The change that a returned object makes.
  pub apply_request : Returned → Request → Request
  apply_request (returned_dict url headers) req =
      let r = set_url url req in record r { headers = replaced headers r.headers }
  apply_request returned_none req = req
  apply_request returned_other req = req

  pub apply_response : Returned → Response → Response
  apply_response (returned_dict url headers) resp = record resp {
    headers = replaced headers resp.headers;
  }
  apply_response returned_none resp = resp
  apply_response returned_other resp = resp

  -- `on_request`: the slot is looked at before the GIL is taken, and again after. `call` is what a
  -- callback does with the request it is shown, and `display` prints an exception. The first
  -- component is the callback called.
  module _ (display : PyErr → String) (call : Callback → Request → PyResult Returned) where
    abbrev called : Callback → Request → PyResult Returned → LibResult Request
    called func req (err e) = http_error ("Middleware on_request error: " <> display e)
    called func req (ok returned) = fine (apply_request returned req)

    pub on_request : Slots → Slots → Request → Option Callback × LibResult Request
    on_request before after req = elim before.on_request [
      | none ↦ (none, fine req)
      | some _ ↦ elim after.on_request [
        | none ↦ (none, fine req)
        | some func ↦ (some func, called func req (call func req))
      ]
    ]

  module _ (display : PyErr → String) (call : Callback → Response → PyResult Returned) where
    abbrev called_back : Callback → Response → PyResult Returned → LibResult Response
    called_back func resp (err e) = http_error ("Middleware on_response error: " <> display e)
    called_back func resp (ok returned) = fine (apply_response returned resp)

    pub on_response : Slots → Slots → Response → Option Callback × LibResult Response
    on_response before after resp = elim before.on_response [
      | none ↦ (none, fine resp)
      | some _ ↦ elim after.on_response [
        | none ↦ (none, fine resp)
        | some func ↦ (some func, called_back func resp (call func resp))
      ]
    ]
