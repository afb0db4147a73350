-- ===== src/Response/Caches.antt =====
-- The caches of `text` and `json` in src/response.rs, and the object that `json` gives.
use lkrequest_py.Prelude.{
  ℕ, ◌≡◌, String, Bool, List, [], ◌∷◌, ◌++◌, Option, none, some, PyErr, PyResult, ok, err, set,
}
use lkrequest_py.Response.{Text, ObjectId, Response, decode_body, text, json, to_json_py_err}

-- What a program does with a response: it asks for the text or the JSON, or it changes an object.
pub data Use (V : Type 0) : Type 0 where
  asks_text : Option String → Use V
  asks_json : Use V
  changes : ObjectId → V → Use V

pub data Answer : Type 0 where
  text_answer : PyResult String → Answer
  json_answer : PyResult ObjectId → Answer
  changed : Answer

module _ {V : Type 0} (for_label : Text → Option ℕ) (utf_8 : ℕ) (decode : ℕ → List ℕ → String)
    (codec : String → List ℕ → PyResult String) (loads : String → PyResult V)
    (is_decode_error : PyErr → Bool) where
  pub use_once : Use V → List V → Response → Answer × (List V × Response)
  use_once (asks_text encoding) heap r =
      let (t, r') = text for_label utf_8 decode codec loads is_decode_error encoding r in
      (text_answer t, (heap, r'))
  use_once asks_json heap r =
      let (v, s) = json for_label utf_8 decode codec loads is_decode_error heap r in
      (json_answer v, s)
  use_once (changes object v) heap r = (changed, (set heap object v, r))

  -- The answers, and the heap at the end.
  pub use_all : List (Use V) → List V → Response → List Answer × List V
  use_all [] heap r = ([], heap)
  use_all (u ∷ us) heap r =
      let (a, (heap', r')) = use_once u heap r in
      let rest = use_all us heap' r' in (a ∷ rest.0, rest.1)

  -- What the body is decoded to, and what its JSON is.
  abbrev decoded : Response → String
  decoded r = decode_body for_label utf_8 decode codec loads is_decode_error r

  abbrev pub parsed : Response → PyResult V
  parsed r = loads (decoded r)

  abbrev pub IsJson : PyResult V → ObjectId → PyResult ObjectId → Type 0
  IsJson (ok v) object answer = answer ≡ ok object
  IsJson (err e) object answer = answer ≡ err (to_json_py_err is_decode_error e)

  -- A text as a response would give it that was asked nothing before, and for JSON always one object,
  -- or always the error of the parser.
  abbrev pub IsAnswer : Response → ObjectId → Use V → Answer → Type 0
  IsAnswer r object (asks_text encoding) (text_answer t) =
      t ≡ (text for_label utf_8 decode codec loads is_decode_error encoding r).0
  IsAnswer r object asks_json (json_answer v) = IsJson (parsed r) object v
  IsAnswer r object (changes o v) changed = Unit
  IsAnswer r object u a = ⊥

  abbrev pub AreAnswers : Response → ObjectId → List (Use V) → List Answer → Type 0
  AreAnswers r object [] [] = Unit
  AreAnswers r object [] (a ∷ as') = ⊥
  AreAnswers r object (u ∷ us) [] = ⊥
  AreAnswers r object (u ∷ us) (a ∷ as') = IsAnswer r object u a × AreAnswers r object us as'

  -- The heap where only the program changes objects, and the contents `fresh`, if there are any, are
  -- put into a new object the first time that the JSON is asked for.
  pub edited : Option V → List (Use V) → List V → List V
  edited fresh [] heap = heap
  edited fresh (asks_text encoding ∷ us) heap = edited fresh us heap
  edited none (asks_json ∷ us) heap = edited none us heap
  edited (some v) (asks_json ∷ us) heap = edited none us (heap ++ v ∷ [])
  edited fresh (changes object v ∷ us) heap = edited fresh us (set heap object v)

  abbrev pub value : PyResult V → Option V
  value (ok v) = some v
  value (err e) = none

  module _ (r : Response) where
    abbrev with_caches : Option String → Option ObjectId → Response
    with_caches t j = record r { cached_text = t; cached_json = j }

    abbrev fresh_response : Response
    fresh_response = with_caches none none

    abbrev TextFits : Option String → Type 0
    TextFits none = Unit
    TextFits (some t) = t ≡ decoded fresh_response

    abbrev Runs : ObjectId → Option V → List (Use V) → List V → List Answer × List V → Type 0
    Runs object fresh us heap result =
        AreAnswers fresh_response object us result.0 × (result.1 ≡ edited fresh us heap)
