-- ===== src/Upload/Tests.antt =====
-- Runs of the upload streams of src/upload.rs.
use lkrequest_py.Prelude.{
  ℕ, zero, suc, ok, err, true, false, Bool, List, [], ◌∷◌, stop_iteration, stop_async_iteration,
}
use lkrequest_py.Upload.{py_bytes}
use lkrequest_py.Upload.Blocking
use lkrequest_py.Upload.Async

abbrev times : List Bool
times = false ∷ true ∷ true ∷ true ∷ []

-- One chunk, then the end.
abbrev pulls : ℕ → Blocking.Answer
pulls zero = Blocking.python (ok (py_bytes (1 ∷ 2 ∷ [])))
pulls (suc n) = Blocking.python (err (record { kind = stop_iteration; message = "" }))

abbrev awaits : ℕ → Async.Answer
awaits zero = Async.awaited (ok (py_bytes (1 ∷ 2 ∷ [])))
awaits (suc n) = Async.not_started (record { kind = stop_async_iteration; message = "" })
