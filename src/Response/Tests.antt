-- ===== src/Response/Tests.antt =====
-- Runs of the responses of src/response.rs.
use lkrequest_py.Prelude.{
  ℕ, ◌≡◌, refl, ok, false, Bool, String, List, [], ◌∷◌, ◌++◌, map, none, some, is_some, Option,
  PyErr, PyResult,
}
use lkrequest_py.Response.{
  Entries, Text, RawResponse, codes, to_ascii_lowercase, get_all, get, contains, getitem, or_else,
}
use lkrequest_py.Response.Headers.{first, or_key_error, lookups_consistent}
use lkrequest_py.Response.Caches.{Use, asks_text, asks_json, changes}
use lkrequest_py.Response.Streaming
use lkrequest_py.Response.Streaming.{Read, reads_chunk, iterates, reads_bytes}
use lkrequest_py.Response.Streaming.Blocking
use lkrequest_py.Response.Streaming.Reads.{
  pieces, remaining, refusal, stop_async, stop, closed, reads-pieces, reads-Consumes,
}

abbrev headers : Entries
headers = ("Set-Cookie", "a") ∷ ("set-cookie", "b") ∷ []

lookups_consistent_example :
    ((get "SET-cookie" none headers ≡ or_else (first (get_all "SET-cookie" headers)) none)
      × (contains "SET-cookie" headers ≡ is_some (first (get_all "SET-cookie" headers)))
      × (getitem "SET-cookie" headers
          ≡ or_key_error "SET-cookie" (first (get_all "SET-cookie" headers))))
    × (get_all "SET-cookie" headers ≡ get_all "set-COOKIE" headers)
    × (get "SET-cookie" none headers ≡ get "set-COOKIE" none headers)
    × (contains "SET-cookie" headers ≡ contains "set-COOKIE" headers)
unfolding to_ascii_lowercase codes
lookups_consistent_example = lookups_consistent "SET-cookie" "set-COOKIE" none headers refl

abbrev for_label : Text → Option ℕ
for_label l = none

abbrev decode : ℕ → List ℕ → String
decode d body = "{}"

abbrev codec : String → List ℕ → PyResult String
codec c body = ok "{}"

-- An empty dictionary, by the number of its entries.
abbrev loads : String → PyResult ℕ
loads t = ok 0

abbrev is_decode_error : PyErr → Bool
is_decode_error e = false

abbrev raw : RawResponse
raw = record {
  status = 200;
  headers = ("content-type", some "application/json") ∷ [];
  url = "https://a/";
  body = 123 ∷ 125 ∷ [];
  redirect_history = [];
}

-- The caller adds an entry to the dictionary, and finds it there again.
abbrev uses : List (Use ℕ)
uses = asks_json ∷ changes 0 1 ∷ asks_text none ∷ asks_text (some "latin-1") ∷ asks_json ∷ []

abbrev read_all : Streaming.Stream → PyResult (List ℕ)
read_all s = ok []

abbrev decode_text : Option String → List ℕ → PyResult String
decode_text e body = ok ""

abbrev body_of_two : Streaming.StreamingResponse
body_of_two = record { inner = some (ok (1 ∷ []) ∷ ok (2 ∷ []) ∷ []) }

abbrev mixed : List Read
mixed = reads_chunk ∷ iterates ∷ iterates ∷ []

reads-pieces_example :
    (pieces (Streaming.read_many read_all decode_text mixed body_of_two).0
        ++ remaining (Streaming.read_many read_all decode_text mixed body_of_two).1
      ≡ (1 ∷ []) ∷ (2 ∷ []) ∷ [])
    × (pieces (Blocking.read_many read_all decode_text mixed body_of_two).0
          ++ remaining (Blocking.read_many read_all decode_text mixed body_of_two).1
        ≡ (1 ∷ []) ∷ (2 ∷ []) ∷ [])
    × ((Blocking.read_many read_all decode_text mixed body_of_two).1
        ≡ (Streaming.read_many read_all decode_text mixed body_of_two).1)
reads-pieces_example = reads-pieces read_all decode_text mixed body_of_two (tt, (tt, (tt, tt)))

reads-Consumes_example :
    (Streaming.read_many read_all decode_text mixed
        (Streaming.read read_all decode_text reads_bytes body_of_two).1
      ≡ (map (refusal stop_async) mixed, closed))
    × (Blocking.read_many read_all decode_text mixed
          (Blocking.read read_all decode_text reads_bytes body_of_two).1
        ≡ (map (refusal stop) mixed, closed))
reads-Consumes_example = reads-Consumes read_all decode_text reads_bytes body_of_two mixed tt
