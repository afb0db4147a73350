-- ===== src/Upload/Async.antt =====
-- `AsyncSource` of src/upload.rs, the stream over an asynchronous iterator.
use lkrequest_py.Prelude.{
  ℕ, suc, ◌≤◌, ◌≡◌, Bool, true, false, List, [], ◌∷◌, Option, none, some, if◌then◌else◌, PyErr,
  PyResult, ok, err, length,
}
use lkrequest_py.Upload.{
  PyObject, extract_chunk, is_stop_async_iteration, Item, chunk, producer_error, Poll, pending,
  ready, emit, produced, ready_polls,
}

-- How pull number n goes: `__anext__()` or its conversion to a future raises, or the future ends.
pub data Answer : Type 0 where
  not_started : PyErr → Answer
  awaited : PyResult PyObject → Answer

pub record AsyncSource : Type 0 where
  pub handle : Option ℕ
  pub done : Bool
  pub pull : ℕ

abbrev pub new : AsyncSource
new = record { handle = none; done = false; pull = 0 }

pub end_or_error : PyErr → Option Item
unfolding producer_error
end_or_error e = if is_stop_async_iteration e.kind then none else some (producer_error e)

-- The value of a pull, and whether the stream ends with it.
pub finish : Answer → Option Item × Bool
unfolding extract_chunk end_or_error producer_error
finish (not_started e) = (end_or_error e, true)
finish (awaited (err e)) = (end_or_error e, true)
finish (awaited (ok item)) = elim (extract_chunk item) [
  | ok c ↦ (some (chunk c), false)
  | err e ↦ (some (producer_error e), true)
]

abbrev fails_to_start : Answer → Bool
fails_to_start (not_started _) = true
fails_to_start (awaited _) = false

abbrev current : AsyncSource → ℕ
current s = elim s.handle [ none ↦ s.pull | some n ↦ n ]

abbrev pulled : AsyncSource → ℕ
pulled s = elim s.handle [ none ↦ suc s.pull | some n ↦ s.pull ]

module _ (answers : ℕ → Answer) where
  -- A pull that does not start is ready at once.
  abbrev at_once : AsyncSource → Bool
  at_once s = elim s.handle [ none ↦ fails_to_start (answers s.pull) | some n ↦ false ]

  abbrev ended : AsyncSource → Option Item × Bool → Poll × AsyncSource
  ended s r = (ready r.0, record s { handle = none; done = r.1; pull = pulled s })

  -- `poll_next`. `is_ready` says whether the future has ended when it is polled.
  pub poll_next : Bool → AsyncSource → Poll × AsyncSource
  unfolding finish
  poll_next is_ready s =
      if s.done
      then (ready none, s)
      else if at_once s
      then ended s (finish (answers (current s)))
      else if is_ready
      then ended s (finish (answers (current s)))
      else (pending, record s { handle = some (current s); pull = pulled s })

  -- The items that a transport gets which polls at these times.
  pub polls : List Bool → AsyncSource → List Item × AsyncSource
  polls [] s = ([], s)
  polls (t ∷ ts) s =
      let (p, s') = poll_next t s in let rest = polls ts s' in (emit p rest.0, rest.1)

  abbrev pub result : ℕ → Option Item × Bool
  result n = finish (answers n)

  -- The pull in flight is the last one made.
  abbrev IsCurrent : AsyncSource → Type 0
  IsCurrent s = elim s.handle [ none ↦ Unit {0} | some n ↦ s.pull ≡ suc n ]

  -- The items are those of some number of pulls, at least the polls that found a finished future.
  abbrev pub Prefix : List Bool → List Item → ℕ → Type 0
  Prefix ts items n =
      (k : ℕ) × (ready_polls ts ≤ k) × (k ≤ length ts) × (items ≡ produced result k n)
