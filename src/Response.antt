-- ===== src/Response.antt =====
-- src/response.rs: header maps, the declared charset, and a response with its caches.
mod Tests
pub mod Headers
pub mod Caches
pub mod Streaming
use Prim.Native.Char.{Char, code}
use lkrequest_py.Prelude.{
  ℕ, ◌+◌, ◌<>◌, String, str_eq, Bool, true, false, ◌&&◌, ◌||◌, not, List, [], ◌∷◌, ◌++◌, map,
  Option, none, some, is_some, if◌then◌else◌, ltb, leb, ◌==◌, key_error, http_status_error,
  json_decode_error, PyErr, PyResult, ok, err, new_err, ◌>>=◌, ◌>>◌, length,
}
use lkrequest_py.Types.{F64}

abbrev pub Entries : Type 0
Entries = List (String × String)

-- Texts taken apart, as code points.
abbrev pub Text : Type 0
Text = List ℕ

pub codes : String → Text
codes String.[] = []
codes (String.◌∷◌ c s) = code c ∷ codes s

abbrev pub lower : ℕ → ℕ
lower c = if leb 65 c && leb c 90 then c + 32 else c

-- `to_ascii_lowercase`.
pub to_ascii_lowercase : String → Text
unfolding codes
to_ascii_lowercase s = map lower (codes s)

pub text_eq : Text → Text → Bool
text_eq [] [] = true
text_eq [] (y ∷ ys) = false
text_eq (x ∷ xs) [] = false
text_eq (x ∷ xs) (y ∷ ys) = (x == y) && text_eq xs ys

-- The comparison that the look-ups of `PyHeaderMap` make.
abbrev pub matches : String → String → Bool
matches name key = text_eq (to_ascii_lowercase key) (to_ascii_lowercase name)

-- `find`, with the value of the entry.
pub find : String → Entries → Option String
find name [] = none
find name ((k, v) ∷ es) = if matches name k then some v else find name es

-- `PyHeaderMap.__getitem__`, `get`, `get_all`, `__contains__`, `keys`, `values`.
pub getitem : String → Entries → PyResult String
unfolding find
getitem name es = elim (find name es) [ some v ↦ ok v | none ↦ new_err key_error name ]

abbrev or_else {ℓ} : {A : Type ℓ} → Option A → Option A → Option A
or_else none d = d
or_else (some a) d = some a

pub get : String → Option String → Entries → Option String
unfolding find
get name default es = or_else (find name es) default

pub get_all : String → Entries → List String
get_all name [] = []
get_all name ((k, v) ∷ es) = if matches name k then v ∷ get_all name es else get_all name es

pub contains : String → Entries → Bool
contains name [] = false
contains name ((k, v) ∷ es) = matches name k || contains name es

pub keys : Entries → List String
keys = map (λ e. e.0)

pub values : Entries → List String
values = map (λ e. e.1)

-- A Python `dict` in its order of insertion; `to_dict` sets the items one after the other.
pub set_item : String → String → Entries → Entries
set_item k v [] = (k, v) ∷ []
set_item k v ((j, w) ∷ d) = if str_eq j k then (j, v) ∷ d else (j, w) ∷ set_item k v d

pub to_dict : Entries → Entries → Entries
unfolding set_item
to_dict [] d = d
to_dict ((k, v) ∷ es) d = to_dict es (set_item k v d)

-- `char::is_whitespace`, and `trim` with it or with the quotes of `trim_matches('"')`.
pub is_whitespace : ℕ → Bool
is_whitespace c =
    (leb 9 c && leb c 13)
    || (c == 32)
    || (c == 133)
    || (c == 160)
    || (c == 5760)
    || (leb 8192 c && leb c 8202)
    || (c == 8232)
    || (c == 8233)
    || (c == 8239)
    || (c == 8287)
    || (c == 12288)

abbrev is_quote : ℕ → Bool
is_quote c = c == 34

pub trim_start : (ℕ → Bool) → Text → Text
trim_start p [] = []
trim_start p (c ∷ cs) = let rest = trim_start p cs in if p c then rest else c ∷ cs

pub trim_end : (ℕ → Bool) → Text → Text
trim_end p [] = []
trim_end p (c ∷ cs) =
    let rest = trim_end p cs in elim rest [ [] ↦ if p c then [] else c ∷ [] | d ∷ ds ↦ c ∷ d ∷ ds ]

abbrev pub trim : (ℕ → Bool) → Text → Text
trim p t = trim_end p (trim_start p t)

-- `split(';')`.
pub split_semicolon : Text → List Text
split_semicolon [] = [] ∷ []
split_semicolon (c ∷ cs) =
    let rest = split_semicolon cs in
    if c == 59 then [] ∷ rest else elim rest [ [] ↦ (c ∷ []) ∷ [] | p ∷ ps ↦ (c ∷ p) ∷ ps ]

pub strip_prefix : Text → Text → Option Text
strip_prefix [] t = some t
strip_prefix (p ∷ ps) [] = none
strip_prefix (p ∷ ps) (c ∷ cs) = let rest = strip_prefix ps cs in if p == c then rest else none

abbrev label : Text → Text
label charset = trim is_whitespace (trim is_quote charset)

pub charset_of : List Text → Option Text
unfolding strip_prefix trim_start trim_end codes is_whitespace
charset_of [] = none
charset_of (part ∷ parts) = elim (strip_prefix (codes "charset=") (trim is_whitespace part)) [
  | some charset ↦ some (label charset)
  | none ↦ charset_of parts
]

-- `parse_encoding`. `eq_ignore_ascii_case` is the comparison of the look-ups.
pub parse_encoding : Entries → Option Text
unfolding charset_of split_semicolon codes
parse_encoding [] = none
parse_encoding ((k, v) ∷ es) =
    let rest = parse_encoding es in
    if matches "content-type" k then or_else (charset_of (split_semicolon (codes v))) rest else rest

-- A Python object, by its place in a heap.
abbrev pub ObjectId : Type 0
ObjectId = ℕ

-- `PyResponse`: what its methods read, and its two caches.
pub record Response : Type 0 where
  pub status_code : ℕ
  pub headers : Entries
  pub url : String
  pub body : List ℕ
  pub encoding : Option Text
  pub elapsed : F64
  pub history : List ℕ
  pub cached_text : Option String
  pub cached_json : Option ObjectId

-- The library's response: a header's value is `none` where it is no visible ASCII.
pub record RawResponse : Type 0 where
  pub status : ℕ
  pub headers : List (String × Option String)
  pub url : String
  pub body : List ℕ
  pub redirect_history : List ℕ

abbrev unwrap_or_empty : Option String → String
unwrap_or_empty none = ""
unwrap_or_empty (some v) = v

-- `from_response`, as far as the fields above go.
pub from_response : RawResponse → F64 → Response
unfolding parse_encoding
from_response resp elapsed =
    let headers = map (λ (e : String × Option String). (e.0, unwrap_or_empty e.1)) resp.headers in
    record {
      status_code = resp.status;
      headers = headers;
      url = resp.url;
      body = resp.body;
      encoding = parse_encoding headers;
      elapsed = elapsed;
      history = resp.redirect_history;
      cached_text = none;
      cached_json = none;
    }

abbrev pub is_ok : Response → Bool
is_ok r = ltb r.status_code 400

-- `show_status` prints a number.
pub error_for_status : (ℕ → String) → Response → PyResult (Unit {0})
error_for_status show_status r =
    if leb 400 r.status_code
    then new_err http_status_error (show_status r.status_code <> (" for url: " <> r.url))
    else ok tt

-- `to_json_py_err`, where the class is registered: `is_decode_error` is the instance test.
pub to_json_py_err : (PyErr → Bool) → PyErr → PyErr
to_json_py_err is_decode_error e =
    if is_decode_error e then record { kind = json_decode_error; message = e.message } else e

-- The decoders of `encoding_rs` by their number, with the one for a label, Python's codecs, and
-- `json.loads`, by the contents of the object that it gives. A heap holds the contents of the objects,
-- which whoever has an object can change.
module _ {V : Type 0} (for_label : Text → Option ℕ) (utf_8 : ℕ) (decode : ℕ → List ℕ → String)
    (codec : String → List ℕ → PyResult String) (loads : String → PyResult V)
    (is_decode_error : PyErr → Bool) where
  pub declared_decoder : Option Text → ℕ
  declared_decoder none = utf_8
  declared_decoder (some declared) = elim (for_label declared) [ none ↦ utf_8 | some d ↦ d ]

  pub decode_body : Response → String
  unfolding declared_decoder
  decode_body r = decode (declared_decoder r.encoding) r.body

  pub text : Option String → Response → PyResult String × Response
  text (some encoding) r = (codec encoding r.body, r)
  text none r = elim r.cached_text [
    | some cached ↦ (ok cached, r)
    | none ↦ let decoded = decode_body r in (ok decoded, record r { cached_text = some decoded })
  ]

  abbrev set_json : List V → Response → PyResult V → PyResult ObjectId × (List V × Response)
  set_json heap r (ok v) =
      let object = length heap in
      (ok object, (heap ++ v ∷ [], record r { cached_json = some object }))
  set_json heap r (err e) = (err (to_json_py_err is_decode_error e), (heap, r))

  abbrev load : List V → PyResult String × Response → PyResult ObjectId × (List V × Response)
  load heap (err e, r) = (err e, (heap, r))
  load heap (ok t, r) = set_json heap r (loads t)

  -- The object that `json.loads` makes is new, and the one that the cache holds.
  pub json : List V → Response → PyResult ObjectId × (List V × Response)
  json heap r = elim r.cached_json [
    | some cached ↦ (ok cached, (heap, r))
    | none ↦ load heap (text none r)
  ]
