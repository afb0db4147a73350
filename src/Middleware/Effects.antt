-- ===== src/Middleware/Effects.antt =====
-- What a middleware of src/middleware.rs can do to a request and to a response.
use lkrequest_py.Prelude.{
  ◌≡◌, refl, sym, ◌∙◌, String, List, [], ◌∷◌, ◌++◌, append_assoc, append-nil, Option, none, some,
  PyErr, PyResult, arith,
}
use lkrequest_py.SessionState.{Callback, Slots}
use lkrequest_py.Middleware.{
  Header, Request, Response, MaybeText, headers_dict, no_dict, Returned, returned_dict,
  returned_none, returned_other, fine, valid, new_headers, apply_request, apply_response,
  on_request, on_response,
}

-- The headers of the entries that are valid, in their order.
abbrev pub all_valid :
    (String → Option String) → (String → Option String) → List (MaybeText × MaybeText) → List Header
all_valid name value [] = []
all_valid name value (e ∷ es) = valid name value e ++ all_valid name value es

module _ (name value : String → Option String) where
  new_headers-valid :
      (es : List (MaybeText × MaybeText)) (headers : List Header)
      → new_headers name value es headers ≡ headers ++ all_valid name value es
  unfolding new_headers
  new_headers-valid [] headers = sym (append-nil headers)
  new_headers-valid (e ∷ es) headers =
      new_headers-valid es (headers ++ valid name value e)
      ∙ append_assoc headers (valid name value e) (all_valid name value es)

  -- What a returned object says of the URL and of the headers, in one look.
  abbrev pub url_after : Returned → String → String
  url_after (returned_dict (some (some u)) headers) old = u
  url_after _ old = old

  abbrev pub headers_after : Returned → List Header → List Header
  headers_after (returned_dict url (some (headers_dict es))) old = all_valid name value es
  headers_after _ old = old

  -- The changes: the method never changes; the URL becomes the text that the returned dict gives for
  -- it and else stays; the headers become exactly the valid ones of the dict that it gives for them,
  -- in order, and else stay. In a response only the headers can change.
  pub apply_effects :
      (returned : Returned) (req : Request) (resp : Response)
      → ((apply_request name value returned req).method ≡ req.method)
        × ((apply_request name value returned req).url ≡ url_after returned req.url)
        × ((apply_request name value returned req).headers ≡ headers_after returned req.headers)
        × ((apply_response name value returned resp).status ≡ resp.status)
        × ((apply_response name value returned resp).headers ≡ headers_after returned resp.headers)
  unfolding apply_request apply_response
  apply_effects (returned_dict none none) req resp = (refl, refl, refl, refl, refl)
  apply_effects (returned_dict none (some no_dict)) req resp = (refl, refl, refl, refl, refl)
  apply_effects (returned_dict none (some (headers_dict es))) req resp =
      (refl, refl, new_headers-valid es [], refl, new_headers-valid es [])
  apply_effects (returned_dict (some none) none) req resp = (refl, refl, refl, refl, refl)
  apply_effects (returned_dict (some none) (some no_dict)) req resp = (refl, refl, refl, refl, refl)
  apply_effects (returned_dict (some none) (some (headers_dict es))) req resp =
      (refl, refl, new_headers-valid es [], refl, new_headers-valid es [])
  apply_effects (returned_dict (some (some u)) none) req resp = (refl, refl, refl, refl, refl)
  apply_effects (returned_dict (some (some u)) (some no_dict)) req resp =
      (refl, refl, refl, refl, refl)
  apply_effects (returned_dict (some (some u)) (some (headers_dict es))) req resp =
      (refl, refl, new_headers-valid es [], refl, new_headers-valid es [])
  apply_effects returned_none req resp = (refl, refl, refl, refl, refl)
  apply_effects returned_other req resp = (refl, refl, refl, refl, refl)

  -- A middleware whose callbacks are gone when it gets the GIL lets everything pass, whatever it saw
  -- before: nothing is called, and the request and the response are what they were.
  pub released_passes :
      (display : PyErr → String) (call : Callback → Request → PyResult Returned)
      (reply : Callback → Response → PyResult Returned) (before after : Slots) (req : Request)
      (resp : Response)
      → after.on_request ≡ none
      → after.on_response ≡ none
      → (on_request name value display call before after req ≡ (none, fine req))
        × (on_response name value display reply before after resp ≡ (none, fine resp))
  unfolding on_request on_response
  released_passes display call reply before after req resp p q =
      (ground (arith, p), ground (arith, q))
