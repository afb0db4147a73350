-- ===== src/Response/Streaming/Blocking.antt =====
-- `PyBlockingStreamingResponse` of src/response.rs, which waits for each read.
use lkrequest_py.Prelude.{
  String, List, [], ◌∷◌, Option, none, some, stop_iteration, runtime_error, PyResult, ok, err,
  new_err,
}
use lkrequest_py.Response.Streaming.{
  Bytes, Stream, next_chunk, StreamingResponse, Value, body_value, as_text, none_value, consumed,
  after_chunk, Read, reads_chunk, iterates, reads_bytes, reads_text,
}

-- `chunk` and `__next__`. `chunk_decoded` differs from `chunk` in the library's call only.
unfoldable pub chunk : StreamingResponse → PyResult Value × StreamingResponse
chunk r = elim r.inner [
  | none ↦ (consumed, r)
  | some stream ↦ after_chunk (ok none_value) (next_chunk stream)
]

unfoldable pub next : StreamingResponse → PyResult Value × StreamingResponse
next r = elim r.inner [
  | none ↦ (new_err stop_iteration "", r)
  | some stream ↦ after_chunk (new_err stop_iteration "") (next_chunk stream)
]

-- What is made of the body, where it was read.
abbrev pub with_body :
    (Bytes → PyResult Value)
    → PyResult Bytes × StreamingResponse
    → PyResult Value × StreamingResponse
with_body make (ok body, r) = (make body, r)
with_body make (err e, r) = (err e, r)

module _ (read_all : Stream → PyResult Bytes) where
  -- The part under the lock of `bytes` and of `text`.
  abbrev pub take_body : StreamingResponse → PyResult Bytes × StreamingResponse
  take_body r = elim r.inner [
    | none ↦ (new_err runtime_error "Stream already consumed", r)
    | some stream ↦ (read_all stream, record { inner = none })
  ]

  unfoldable pub bytes : StreamingResponse → PyResult Value × StreamingResponse
  bytes r = with_body (λ body. ok (body_value body)) (take_body r)

  module _ (decode : Option String → Bytes → PyResult String) where
    unfoldable pub text : Option String → StreamingResponse → PyResult Value × StreamingResponse
    text encoding r = with_body (λ body. as_text (decode encoding body)) (take_body r)

    unfoldable pub read : Read → StreamingResponse → PyResult Value × StreamingResponse
    read reads_chunk = chunk
    read iterates = next
    read reads_bytes = bytes
    read (reads_text encoding) = text encoding

    unfoldable pub read_many :
        List Read → StreamingResponse → List (PyResult Value) × StreamingResponse
    read_many [] r = ([], r)
    read_many (k ∷ ks) r =
        let (x, r') = read k r in let rest = read_many ks r' in (x ∷ rest.0, rest.1)
