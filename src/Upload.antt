-- ===== src/Upload.antt =====
-- src/upload.rs: request bodies that are pulled from a Python object, chunk by chunk.
mod Tests
pub mod Blocking
pub mod Async
use lkrequest_py.Prelude.{
  ℕ, zero, suc, ◌<>◌, String, Bool, true, false, List, [], ◌∷◌, Option, none, some, if◌then◌else◌,
  PyErr, ErrKind, type_error, stop_iteration, stop_async_iteration, PyResult, ok, err, new_err,
  ◌>>=◌, ◌>>◌,
}

abbrev pub Bytes : Type 0
Bytes = List ℕ

-- What the conversions of a Python object depend on: `bytes`, `str`, something else that extracts
-- as a sequence of bytes, `None`, or anything else, by the name of its type.
pub data PyObject : Type 0 where
  py_bytes : Bytes → PyObject
  py_str : PyObject
  byte_sequence : Bytes → PyObject
  py_none : PyObject
  other : String → PyObject

-- `extract_chunk`.
pub extract_chunk : PyObject → PyResult Bytes
extract_chunk (py_bytes b) = ok b
extract_chunk py_str =
    new_err type_error
      "body_stream produced str, expected bytes — open the file in binary mode ('rb')"
extract_chunk (byte_sequence b) = ok b
extract_chunk py_none =
    new_err type_error "body_stream must produce bytes-like chunks, got NoneType"
extract_chunk (other name) =
    new_err type_error ("body_stream must produce bytes-like chunks, got " <> name)

-- A `body_stream=` argument, as far as its classification looks at it. `iter` and `aiter` are what
-- calling `iter()` and `__aiter__()` gives.
pub record Argument : Type 0 where
  pub has_read : PyResult Bool
  pub has_aiter : PyResult Bool
  pub aiter : PyResult (Unit {0})
  pub iter : PyResult (Unit {0})
  pub running_loop : Bool
  pub type_name : String

pub data UploadSource : Type 0 where
  reader sync_iter async_iter : UploadSource

abbrev sync_source : Argument → PyResult UploadSource
sync_source a = elim a.iter [
  | ok _ ↦ ok sync_iter
  | err _ ↦ new_err type_error (
      "body_stream must be a file-like object with read(), an iterable of bytes, or an async iterable of bytes; got "
      <> a.type_name)
]

abbrev async_source : Argument → PyResult UploadSource
async_source a = do
  a.aiter
  if a.running_loop
      then ok async_iter
      else new_err type_error
          "body_stream got an async iterable, which needs a running event loop; pass a file-like object or a synchronous iterable instead"

-- `UploadSource::extract`.
pub extract : Argument → PyResult UploadSource
extract a = do
  readable ← a.has_read
  if readable
      then ok reader
      else (do asynchronous ← a.has_aiter; if asynchronous then async_source a else sync_source a)

abbrev pub is_stop_iteration : ErrKind → Bool
is_stop_iteration stop_iteration = true
is_stop_iteration _ = false

abbrev pub is_stop_async_iteration : ErrKind → Bool
is_stop_async_iteration stop_async_iteration = true
is_stop_async_iteration _ = false

abbrev non_empty : Bytes → Option Bytes
non_empty [] = none
non_empty (x ∷ xs) = some (x ∷ xs)

abbrev non_empty_chunk : PyObject → PyResult (Option Bytes)
non_empty_chunk chunk = do c ← extract_chunk chunk; ok (non_empty c)

-- `pull_reader`, given what `read(16384)` did.
pub pull_reader : PyResult PyObject → PyResult (Option Bytes)
unfolding extract_chunk
pull_reader (err e) = err e
pull_reader (ok py_none) = ok none
pull_reader (ok (py_bytes b)) = non_empty_chunk (py_bytes b)
pull_reader (ok py_str) = non_empty_chunk py_str
pull_reader (ok (byte_sequence b)) = non_empty_chunk (byte_sequence b)
pull_reader (ok (other name)) = non_empty_chunk (other name)

-- `pull_sync_iter`, given what `__next__()` did.
pub pull_sync_iter : PyResult PyObject → PyResult (Option Bytes)
unfolding extract_chunk
pull_sync_iter (ok item) = do c ← extract_chunk item; ok (some c)
pull_sync_iter (err e) = if is_stop_iteration e.kind then ok none else err e

-- An element of the upload stream: `io::Result<Bytes>`.
-- `source_failed e` is the error with the text `body_stream source failed: {e}`, which shows the
-- class of the exception and its message.
pub data Item : Type 0 where
  chunk : Bytes → Item
  failure : String → Item
  source_failed : PyErr → Item

-- `producer_error`.
pub producer_error : PyErr → Item
producer_error e = source_failed e

-- `Poll<Option<Item>>`.
pub data Poll : Type 0 where
  pending : Poll
  ready : Option Item → Poll

abbrev pub emit : Poll → List Item → List Item
emit (ready (some i)) is = i ∷ is
emit _ is = is

abbrev pub ready_polls : List Bool → ℕ
ready_polls [] = 0
ready_polls (true ∷ ts) = suc (ready_polls ts)
ready_polls (false ∷ ts) = ready_polls ts

-- What a producer makes, from the results of its pulls and whether each is the last: the items of
-- `k` pulls from number `n` on, up to the end.
pub produced : (ℕ → Option Item × Bool) → ℕ → ℕ → List Item
produced result zero n = []
produced result (suc k) n =
    let rest = produced result k (suc n) in
    let r = result n in emit (ready r.0) (if r.1 then [] else rest)
