-- ===== src/Bridge.antt =====
-- src/bridge.rs: the tokio to asyncio bridge. A guard (`InFlightGuard`) is one unit of the
-- process-wide count; here it is a Bool that says whether a slot holds one. What the runtime and
-- the event loop decide (when a future ends, what `is_closed` and the forwarded call answer, when
-- a reference is freed) comes in as events.
mod Tests
pub mod Guards
pub mod Final
pub mod Drain
use text.Mathlib.Text.{find?}
use lkrequest_py.Prelude.{
  ℕ, zero, suc, ◌+◌, ◌-◌, ◌%◌, ◌^◌, String, Bool, true, false, ◌&&◌, List, [], ◌∷◌, ◌++◌, map,
  Option, none, some, ◌==◌, if◌then◌else◌, is_some, length, get_elem?, set, PyErr, ErrKind,
  runtime_error, PyResult, ok, err, new_err,
}

-- `AtomicUsize` wraps.
abbrev pub usize_mod : ℕ
usize_mod = 2 ^ 64

-- Where one tracked crossing stands.
pub data Stage : Type 0 where
  running : Stage  -- the wrapper future has not ended
  completed : Stage  -- it has parked its guard, and its result waits for `set_result`
  cancelled : Stage  -- it was dropped before it completed
  skipped : Stage  -- cancelled after completion: the bridge delivers nothing
  queued : Stage  -- the result callback is in the real loop's queue
  discarded : Stage  -- the real loop was closed
  failed : Stage  -- the real loop raised something else

pub record Crossing : Type 0 where
  pub stage : Stage
  pub owned : Bool  -- the wrapper still owns its guard
  pub parked : Bool  -- the guard is in the proxy's hand-off slot

pub record Bridge : Type 0 where
  pub count : ℕ
  pub notified : ℕ  -- calls of `notify_waiters`
  pub queue : List ℕ  -- the crossings whose callbacks the loop has, in order
  pub crossings : List Crossing

abbrev pub initial : Bridge
initial = record { count = 0; notified = 0; queue = []; crossings = [] }

-- `InFlightGuard::register`: `fetch_add(1)`.
pub register : Bridge → Bridge
register w = record w { count = (w.count + 1) % usize_mod }

-- `InFlightGuard::drop`: `fetch_sub(1)`, and a wake-up if the old value was 1.
pub drop_guard : Bridge → Bridge
drop_guard w = record w {
  count = (w.count + usize_mod - 1) % usize_mod;
  notified = if w.count == 1 then w.notified + 1 else w.notified;
}

-- Dropping an `Option<InFlightGuard>`.
pub release : Bool → Bridge → Bridge
release true w = drop_guard w
release false w = w

abbrev is_runtime_error : ErrKind → Bool
is_runtime_error runtime_error = true
is_runtime_error _ = false

pub is_loop_closed_error : PyErr → Bool
is_loop_closed_error e = is_runtime_error e.kind && is_some (find? e.message "Event loop is closed")

-- `GuardedEventLoop::call_soon_threadsafe`, its value together with whether the callback went into
-- the loop's queue. `closed` is the answer of `is_closed()`, `reply` that of the forwarded call.
pub call_soon_threadsafe : PyResult Bool → PyResult (Unit {0}) → PyResult (Unit {0}) × Bool
call_soon_threadsafe (err e) reply = (err e, false)
call_soon_threadsafe (ok true) reply = (ok tt, false)
call_soon_threadsafe (ok false) (ok _) = (ok tt, true)
call_soon_threadsafe (ok false) (err e) =
    if is_loop_closed_error e then (ok tt, false) else (err e, false)

abbrev pub started : Crossing
started = record { stage = running; owned = true; parked = false }

-- `future_into_py`: the guard is taken first; without a running loop (`get_current_locals` fails)
-- the wrapper is dropped before its first poll, and its guard with it.
pub future_into_py : Bool → Bridge → PyResult ℕ × Bridge
future_into_py true w =
    let w' = register w in
    (ok (length w'.crossings), record w' { crossings = w'.crossings ++ started ∷ [] })
future_into_py false w = (new_err runtime_error "no running event loop", release true (register w))

abbrev put : ℕ → Crossing → Bridge → Bridge
put i c w = record w { crossings = set w.crossings i c }

-- The wrapper's inner future is done: the guard moves to the hand-off slot.
complete : ℕ → Crossing → Bridge → Bridge
complete i c w = put i (record c { stage = completed; owned = false; parked = c.owned }) w

-- The wrapper is dropped: Python cancelled the future, or the inner future panicked. For a panic the
-- bridge then sets an exception through a proxy whose slot is empty; that is left out.
drop_wrapper : ℕ → Crossing → Bridge → Bridge
drop_wrapper i c w = release c.owned (put i (record c { stage = cancelled; owned = false }) w)

abbrev outcome : PyResult (Unit {0}) × Bool → Stage
outcome (r, true) = queued
outcome (ok _, false) = discarded
outcome (err _, false) = failed

abbrev enqueue : ℕ → Bool → List ℕ → List ℕ
enqueue i true q = q ++ i ∷ []
enqueue i false q = q

-- `set_result`: the proxy takes the guard out of its slot, forwards the callback, and drops the
-- guard when the call returns, on every path.
deliver : PyResult Bool → PyResult (Unit {0}) → ℕ → Crossing → Bridge → Bridge
deliver closed reply i c w =
    let r = call_soon_threadsafe closed reply in
    release c.parked (record w {
      queue = enqueue i r.1 w.queue;
      crossings = set w.crossings i (record c { stage = outcome r; parked = false });
    })

-- The bridge saw `future.cancelled()`: no delivery, the guard stays in the proxy.
skip : ℕ → Crossing → Bridge → Bridge
skip i c w = put i (record c { stage = skipped }) w

-- The proxy object is freed.
free_proxy : ℕ → Crossing → Bridge → Bridge
free_proxy i c w = release c.parked (put i (record c { parked = false }) w)

pub data Event : Type 0 where
  submits : Bool → Event
  completes drops skips frees : ℕ → Event
  delivers : ℕ → PyResult Bool → PyResult (Unit {0}) → Event

-- Which event can befall a crossing; any other leaves the bridge as it is.
on_crossing : Stage → Event → ℕ → Crossing → Bridge → Bridge
unfolding complete drop_wrapper deliver skip free_proxy
on_crossing running (completes _) i c w = complete i c w
on_crossing running (drops _) i c w = drop_wrapper i c w
on_crossing completed (delivers _ closed reply) i c w = deliver closed reply i c w
on_crossing completed (skips _) i c w = skip i c w
on_crossing skipped (frees _) i c w = free_proxy i c w
on_crossing _ _ i c w = w

abbrev subject : Event → ℕ
subject (submits _) = 0
subject (completes i) = i
subject (drops i) = i
subject (skips i) = i
subject (frees i) = i
subject (delivers i _ _) = i

abbrev at_crossing : Event → Bridge → Bridge
at_crossing e w = elim (get_elem? w.crossings (subject e)) [
  | none ↦ w
  | some c ↦ on_crossing c.stage e (subject e) c w
]

pub step : Bridge → Event → Bridge
step w (submits has_loop) = (future_into_py has_loop w).1
step w (completes i) = at_crossing (completes i) w
step w (drops i) = at_crossing (drops i) w
step w (skips i) = at_crossing (skips i) w
step w (frees i) = at_crossing (frees i) w
step w (delivers i closed reply) = at_crossing (delivers i closed reply) w

pub run : Bridge → List Event → Bridge
run w [] = w
run w (e ∷ es) = run (step w e) es

-- `pending_count`.
pub pending_count : Bridge → ℕ
pending_count w = w.count
