-- ===== src/Upload/Blocking.antt =====
-- `BlockingSource` of src/upload.rs, the stream over a reader or a synchronous iterator.
use lkrequest_py.Prelude.{
  ℕ, zero, suc, ◌≡◌, ◌<>◌, String, Bool, true, false, List, [], ◌∷◌, Option, none, some,
  if◌then◌else◌, PyResult, ok, err,
}
use lkrequest_py.Upload.{
  Bytes, PyObject, pull_reader, pull_sync_iter, Item, chunk, failure, producer_error, Poll, pending,
  ready, emit,
}

pub data BlockingKind : Type 0 where
  reader sync_iter : BlockingKind

-- How pull number n ends: the Python call returns or raises, or the worker task fails.
pub data Answer : Type 0 where
  python : PyResult PyObject → Answer
  join_error : String → Answer

-- `pull` numbers the next pull, `handle` is the pull in flight.
pub record BlockingSource : Type 0 where
  pub kind : BlockingKind
  pub handle : Option ℕ
  pub done : Bool
  pub pull : ℕ

abbrev pub new : BlockingKind → BlockingSource
new kind = record { kind = kind; handle = none; done = false; pull = 0 }

abbrev pub at_least_one : ℕ → ℕ
at_least_one zero = 1
at_least_one (suc n) = suc n

abbrev run_pull : BlockingKind → PyResult PyObject → PyResult (Option Bytes)
run_pull reader r = pull_reader r
run_pull sync_iter r = pull_sync_iter r

-- The value of a finished pull, and whether the stream ends with it.
pub finish : BlockingKind → Answer → Option Item × Bool
unfolding pull_reader pull_sync_iter producer_error
finish kind (python r) = elim (run_pull kind r) [
  | ok none ↦ (none, true)
  | ok (some c) ↦ (some (chunk c), false)
  | err e ↦ (some (producer_error e), true)
]
finish kind (join_error join) = (some (failure ("body_stream source task failed: " <> join)), true)

-- The pull in flight, or a new one: `spawn_blocking`.
abbrev current : BlockingSource → ℕ
current s = elim s.handle [ none ↦ s.pull | some n ↦ n ]

abbrev pulled : BlockingSource → ℕ
pulled s = elim s.handle [ none ↦ suc s.pull | some n ↦ s.pull ]

module _ (answers : ℕ → Answer) where
  -- `poll_next`. `is_ready` says whether the worker has finished when the handle is polled.
  pub poll_next : Bool → BlockingSource → Poll × BlockingSource
  unfolding finish
  poll_next is_ready s =
      let r = finish s.kind (answers (current s)) in
      if s.done
      then (ready none, s)
      else if is_ready
      then (ready r.0, record s { handle = none; done = r.1; pull = pulled s })
      else (pending, record s { handle = some (current s); pull = pulled s })

  -- The items that a transport gets which polls at these times.
  pub polls : List Bool → BlockingSource → List Item × BlockingSource
  polls [] s = ([], s)
  polls (t ∷ ts) s =
      let (p, s') = poll_next t s in let rest = polls ts s' in (emit p rest.0, rest.1)

  -- What pull number `n` gives.
  abbrev pub result : BlockingKind → ℕ → Option Item × Bool
  result kind n = finish kind (answers n)

  -- The pull in flight is the last one made.
  abbrev IsCurrent : BlockingSource → Type 0
  IsCurrent s = elim s.handle [ none ↦ Unit {0} | some n ↦ s.pull ≡ suc n ]

  -- The numbers of pulls that polls at these times need from pull number n on. A finished poll ends
  -- one pull, and a pending one leaves one in flight; the body ends with the first pull that says so.
  pub needed : BlockingKind → List Bool → ℕ → ℕ
  needed kind [] n = 0
  needed kind (true ∷ ts) n =
      let rest = needed kind ts (suc n) in if (result kind n).1 then 1 else suc rest
  needed kind (false ∷ ts) n = at_least_one (needed kind ts n)

  -- The source before pull number n, or with it in flight.
  abbrev before : BlockingKind → Bool → ℕ → BlockingSource
  before kind in_flight n = record {
    kind = kind;
    handle = if in_flight then some n else none;
    done = false;
    pull = if in_flight then suc n else n;
  }

  -- The source when pull number n has ended the body.
  abbrev over : BlockingKind → ℕ → BlockingSource
  over kind n = record { kind = kind; handle = none; done = true; pull = suc n }
