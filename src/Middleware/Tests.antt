-- ===== src/Middleware/Tests.antt =====
-- Runs of a middleware of src/middleware.rs.
use lkrequest_py.Prelude.{◌≡◌, refl, String, [], ◌∷◌, Option, none, some, PyErr, PyResult, ok}
use lkrequest_py.SessionState.{Callback, Slots}
use lkrequest_py.Middleware.{
  Request, Response, headers_dict, Returned, returned_dict, fine, apply_request, apply_response,
  on_request, on_response,
}
use lkrequest_py.Middleware.Effects.{url_after, headers_after, apply_effects, released_passes}

abbrev name : String → Option String
name n = some n

abbrev request : Request
request = record { method = "GET"; url = "a"; headers = ("x", "1") ∷ [] }

abbrev response : Response
response = record { status = 200; headers = ("x", "1") ∷ [] }

abbrev returned : Returned
returned =
    returned_dict (some (some "b")) (some (headers_dict ((some "y", some "2") ∷ (none, none) ∷ [])))

apply_effects_example :
    ((apply_request name name returned request).method ≡ "GET")
    × ((apply_request name name returned request).url ≡ url_after name name returned "a")
    × ((apply_request name name returned request).headers
        ≡ headers_after name name returned (("x", "1") ∷ []))
    × ((apply_response name name returned response).status ≡ 200)
    × ((apply_response name name returned response).headers
        ≡ headers_after name name returned (("x", "1") ∷ []))
apply_effects_example = apply_effects name name returned request response

abbrev held : Slots
held = record { on_request = some 1; on_response = some 2 }

abbrev empty : Slots
empty = record { on_request = none; on_response = none }

abbrev display : PyErr → String
display e = "ValueError: x"

abbrev call : Callback → Request → PyResult Returned
call func req = ok returned

abbrev reply : Callback → Response → PyResult Returned
reply func resp = ok returned

released_passes_example :
    (on_request name name display call held empty request ≡ (none, fine request))
    × (on_response name name display reply held empty response ≡ (none, fine response))
released_passes_example =
    released_passes name name display call reply held empty request response refl refl
