-- ===== src/Response/Streaming.antt =====
-- `PyStreamingResponse` of src/response.rs, the body that is read piece by piece.
pub mod Blocking
pub mod Reads
use lkrequest_py.Prelude.{
  ℕ, ◌≡◌, refl, String, List, [], ◌∷◌, ◌++◌, Option, none, some, arith, runtime_error,
  stop_async_iteration, PyResult, ok, err, new_err, All, map, ap, append_assoc, ◌∙◌,
}

abbrev pub Bytes : Type 0
Bytes = List ℕ

-- The library's stream: what its next calls of `chunk` give, at the end `none`. An error leaves it
-- where it is.
abbrev pub Stream : Type 0
Stream = List (PyResult Bytes)

-- `chunk()` on it.
abbrev pub next_chunk : Stream → PyResult (Option Bytes) × Stream
next_chunk [] = (ok none, [])
next_chunk (ok c ∷ rest) = (ok (some c), rest)
next_chunk (err e ∷ rest) = (err e, rest)

-- `inner`, which is `none` once the stream is consumed.
pub record StreamingResponse : Type 0 where
  pub inner : Option Stream

pub data Value : Type 0 where
  chunk_value : Bytes → Value
  body_value : Bytes → Value
  text_value : String → Value
  none_value : Value

abbrev pub consumed : PyResult Value
consumed = new_err runtime_error "Stream already consumed"

abbrev pub after_chunk :
    PyResult Value → PyResult (Option Bytes) × Stream → PyResult Value × StreamingResponse
after_chunk end (ok (some c), rest) = (ok (chunk_value c), record { inner = some rest })
after_chunk end (ok none, rest) = (end, record { inner = none })
after_chunk end (err e, rest) = (err e, record { inner = some rest })

-- `chunk` and `__anext__`. `chunk_decoded` differs from `chunk` in the library's call only.
pub chunk : StreamingResponse → PyResult Value × StreamingResponse
chunk r = elim r.inner [
  | none ↦ (consumed, r)
  | some stream ↦ after_chunk (ok none_value) (next_chunk stream)
]

pub anext : StreamingResponse → PyResult Value × StreamingResponse
anext r = elim r.inner [
  | none ↦ (new_err stop_async_iteration "", r)
  | some stream ↦ after_chunk (new_err stop_async_iteration "") (next_chunk stream)
]

-- A read of a response.
pub data Read : Type 0 where
  reads_chunk iterates reads_bytes : Read
  reads_text : Option String → Read

abbrev pub as_text : PyResult String → PyResult Value
as_text (ok t) = ok (text_value t)
as_text (err e) = err e

-- `read_all` is the library's `bytes()`, `decode` is `decode_text` with the declared charset.
module _ (read_all : Stream → PyResult Bytes)
    (decode : Option String → Bytes → PyResult String) where
  pub bytes : StreamingResponse → PyResult Value × StreamingResponse
  bytes r = elim r.inner [
    | none ↦ (consumed, r)
    | some stream ↦ elim (read_all stream) [
      | ok body ↦ (ok (body_value body), record { inner = none })
      | err e ↦ (err e, record { inner = none })
    ]
  ]

  pub text : Option String → StreamingResponse → PyResult Value × StreamingResponse
  text encoding r = elim r.inner [
    | none ↦ (consumed, r)
    | some stream ↦ elim (read_all stream) [
      | ok body ↦ (as_text (decode encoding body), record { inner = none })
      | err e ↦ (err e, record { inner = none })
    ]
  ]

  pub read : Read → StreamingResponse → PyResult Value × StreamingResponse
  read reads_chunk = chunk
  read iterates = anext
  read reads_bytes = bytes
  read (reads_text encoding) = text encoding

  pub read_many : List Read → StreamingResponse → List (PyResult Value) × StreamingResponse
  read_many [] r = ([], r)
  read_many (k ∷ ks) r =
      let (x, r') = read k r in let rest = read_many ks r' in (x ∷ rest.0, rest.1)
