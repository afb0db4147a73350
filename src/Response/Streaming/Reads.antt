-- ===== src/Response/Streaming/Reads.antt =====
-- Sequences of reads of the two streaming responses of src/response.rs.
use lkrequest_py.Prelude.{
  ◌≡◌, refl, sym, String, List, [], ◌∷◌, ◌++◌, Option, none, some, arith, stop_iteration,
  stop_async_iteration, PyErr, PyResult, ok, err, All, map, ap, append_assoc, ◌∙◌,
}
use lkrequest_py.Response.Streaming.{
  Bytes, Stream, StreamingResponse, Value, chunk_value, body_value, text_value, none_value,
  consumed, Read, reads_chunk, iterates, reads_bytes, reads_text, chunk, anext, bytes, text, read,
  read_many,
}
use lkrequest_py.Response.Streaming.Blocking

-- The pieces among the results.
abbrev pub pieces : List (PyResult Value) → List Bytes
pieces [] = []
pieces (ok (chunk_value c) ∷ xs) = c ∷ pieces xs
pieces (_ ∷ xs) = pieces xs

-- The pieces that the stream still has, and that a response has.
abbrev pub ahead : Stream → List Bytes
ahead [] = []
ahead (ok c ∷ rest) = c ∷ ahead rest
ahead (err e ∷ rest) = ahead rest

abbrev pub remaining : StreamingResponse → List Bytes
remaining r = elim r.inner [ none ↦ [] | some stream ↦ ahead stream ]

-- A read that takes a piece, and not the whole rest.
abbrev pub IsPiecewise : Read → Type 0
IsPiecewise reads_chunk = Unit
IsPiecewise iterates = Unit
IsPiecewise _ = ⊥

-- One read: its piece, if any, was the next one, and an open stream gets shorter.
abbrev Takes : StreamingResponse → PyResult Value × StreamingResponse → Type 0
Takes r (x, r') = pieces (x ∷ []) ++ remaining r' ≡ remaining r

chunk-Takes : (s : Option Stream) → Takes (record { inner = s }) (chunk (record { inner = s }))
unfolding chunk
chunk-Takes none = refl
chunk-Takes (some []) = refl
chunk-Takes (some (ok c ∷ rest)) = refl
chunk-Takes (some (err e ∷ rest)) = refl

anext-Takes : (s : Option Stream) → Takes (record { inner = s }) (anext (record { inner = s }))
unfolding anext
anext-Takes none = refl
anext-Takes (some []) = refl
anext-Takes (some (ok c ∷ rest)) = refl
anext-Takes (some (err e ∷ rest)) = refl

pieces-cons :
    (x : PyResult Value) (xs : List (PyResult Value))
    → pieces (x ∷ xs) ≡ pieces (x ∷ []) ++ pieces xs
pieces-cons (ok (chunk_value c)) xs = refl
pieces-cons (ok (body_value c)) xs = refl
pieces-cons (ok (text_value c)) xs = refl
pieces-cons (ok none_value) xs = refl
pieces-cons (err e) xs = refl

-- What a read of a consumed response gives, by the exception that ends an iteration.
abbrev pub refusal : PyErr → Read → PyResult Value
refusal end iterates = err end
refusal end _ = consumed

abbrev pub stop_async : PyErr
stop_async = record { kind = stop_async_iteration; message = "" }

abbrev pub stop : PyErr
stop = record { kind = stop_iteration; message = "" }

abbrev pub closed : StreamingResponse
closed = record { inner = none }

-- A read that uses the stream up: of the whole body, or a piecewise one at the stream's end.
abbrev pub Consumes : Read → StreamingResponse → Type 0
Consumes reads_chunk r = r.inner ≡ some []
Consumes iterates r = r.inner ≡ some []
Consumes reads_bytes r = Unit
Consumes (reads_text encoding) r = Unit

-- Two results that hold the same piece, if any, and leave the response alike.
abbrev Alike : PyResult Value × StreamingResponse → PyResult Value × StreamingResponse → Type 0
Alike (x, r) (y, r') = (r ≡ r') × (pieces (x ∷ []) ≡ pieces (y ∷ []))

module _ (read_all : Stream → PyResult Bytes)
    (decode : Option String → Bytes → PyResult String) where
  read-Takes :
      (k : Read) (r : StreamingResponse) → IsPiecewise k → Takes r (read read_all decode k r)
  unfolding read
  read-Takes reads_chunk r p = chunk-Takes r.inner
  read-Takes iterates r p = anext-Takes r.inner
  read-Takes reads_bytes r p = elim p [ ]
  read-Takes (reads_text encoding) r p = elim p [ ]

  many-pieces :
      (ks : List Read) (r : StreamingResponse)
      → All IsPiecewise ks
      → pieces (read_many read_all decode ks r).0 ++ remaining (read_many read_all decode ks r).1
        ≡ remaining r
  unfolding read_many
  many-pieces [] r p = refl
  many-pieces (k ∷ ks) r p =
      let (x, r') = read read_all decode k r in
      let (xs, last) = read_many read_all decode ks r' in
      ap (λ ys. ys ++ remaining last) (pieces-cons x xs)
      ∙ append_assoc (pieces (x ∷ [])) (pieces xs) (remaining last)
      ∙ ap (λ ys. pieces (x ∷ []) ++ ys) (many-pieces ks r' p.1)
      ∙ read-Takes k r p.0

  anext-next :
      (s : Option Stream)
      → Alike (Blocking.next (record { inner = s })) (anext (record { inner = s }))
  unfolding Blocking.next anext
  anext-next none = (refl, refl)
  anext-next (some []) = (refl, refl)
  anext-next (some (ok c ∷ rest)) = (refl, refl)
  anext-next (some (err e ∷ rest)) = (refl, refl)

  read-Alike :
      (k : Read) (r : StreamingResponse)
      → Alike (Blocking.read read_all decode k r) (read read_all decode k r)
  unfolding Blocking.read read Blocking.chunk chunk Blocking.bytes bytes Blocking.text text
  read-Alike reads_chunk r = (refl, refl)
  read-Alike iterates r = anext-next r.inner
  read-Alike reads_bytes r = (ground arith, ground arith)
  read-Alike (reads_text encoding) r = (ground arith, ground arith)

  many-Alike :
      (ks : List Read) (r : StreamingResponse)
      → ((Blocking.read_many read_all decode ks r).1 ≡ (read_many read_all decode ks r).1)
        × (pieces (Blocking.read_many read_all decode ks r).0
            ≡ pieces (read_many read_all decode ks r).0)
  unfolding Blocking.read_many read_many
  many-Alike [] r = (refl, refl)
  many-Alike (k ∷ ks) r =
      let (x, r') = Blocking.read read_all decode k r in
      let (y, r'') = read read_all decode k r in
      let (same, piece) = read-Alike k r in
      let (last, rest) = many-Alike ks r'' in
      (
        ap (λ s. (Blocking.read_many read_all decode ks s).1) same ∙ last,
        pieces-cons x (Blocking.read_many read_all decode ks r').0
            ∙ ap (λ p. p ++ pieces (Blocking.read_many read_all decode ks r').0) piece
            ∙ ap (λ s. pieces (y ∷ []) ++ pieces (Blocking.read_many read_all decode ks s).0) same
            ∙ ap (λ p. pieces (y ∷ []) ++ p) rest
            ∙ sym (pieces-cons y (read_many read_all decode ks r'').0),
      )

  many-closed :
      (ks : List Read)
      → (read_many read_all decode ks closed ≡ (map (refusal stop_async) ks, closed))
        × (Blocking.read_many read_all decode ks closed ≡ (map (refusal stop) ks, closed))
  unfolding read_many read chunk anext bytes text Blocking.read_many Blocking.read Blocking.chunk
      Blocking.next Blocking.bytes Blocking.text
  many-closed [] = (refl, refl)
  many-closed (reads_chunk ∷ ks) = let (p, q) = many-closed ks in (rw p refl, rw q refl)
  many-closed (iterates ∷ ks) = let (p, q) = many-closed ks in (rw p refl, rw q refl)
  many-closed (reads_bytes ∷ ks) = let (p, q) = many-closed ks in (rw p refl, rw q refl)
  many-closed (reads_text encoding ∷ ks) = let (p, q) = many-closed ks in (rw p refl, rw q refl)

  read-closed :
      (k : Read) (s : Option Stream)
      → Consumes k (record { inner = s })
      → (read read_all decode k (record { inner = s })).1 ≡ closed
  unfolding read chunk anext bytes text
  read-closed reads_chunk s h = ground (arith, h)
  read-closed iterates s h = ground (arith, h)
  read-closed reads_bytes s h = ground arith
  read-closed (reads_text encoding) s h = ground arith

  -- Read by `chunk` and by iteration, in any mixture and also after errors, a streaming response gives
  -- the pieces of its stream in order, each once: those that the results hold and those still to come
  -- are the pieces there were. So does a blocking one, which keeps as many for later.
  pub reads-pieces :
      (ks : List Read) (r : StreamingResponse)
      → All IsPiecewise ks
      → (pieces (read_many read_all decode ks r).0 ++ remaining (read_many read_all decode ks r).1
          ≡ remaining r)
        × (pieces (Blocking.read_many read_all decode ks r).0
              ++ remaining (Blocking.read_many read_all decode ks r).1
            ≡ remaining r)
        × ((Blocking.read_many read_all decode ks r).1 ≡ (read_many read_all decode ks r).1)
  reads-pieces ks r p =
      let (last, same) = many-Alike ks r in
      let all = many-pieces ks r p in
      (
        all,
        ap (λ ps. ps ++ remaining (Blocking.read_many read_all decode ks r).1) same
            ∙ ap (λ s. pieces (read_many read_all decode ks r).0 ++ remaining s) last
            ∙ all,
        last,
      )

  -- After the end of the stream was read, or the whole body by `bytes` or `text`, whether that went
  -- well or not, a streaming response is consumed for good, and so is a blocking one: every later read
  -- raises, an iteration StopAsyncIteration or, on a blocking one, StopIteration, and any other read
  -- RuntimeError.
  pub reads-Consumes :
      (k : Read) (r : StreamingResponse) (ks : List Read)
      → Consumes k r
      → (read_many read_all decode ks (read read_all decode k r).1
          ≡ (map (refusal stop_async) ks, closed))
        × (Blocking.read_many read_all decode ks (Blocking.read read_all decode k r).1
            ≡ (map (refusal stop) ks, closed))
  reads-Consumes k r ks h =
      let (async, blocking) = many-closed ks in
      let done = read-closed k r.inner h in
      let (same, piece) = read-Alike k r in
      (
        ap (λ x. read_many read_all decode ks x) done ∙ async,
        ap (λ x. Blocking.read_many read_all decode ks x) (same ∙ done) ∙ blocking,
      )
