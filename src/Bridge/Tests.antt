-- ===== src/Bridge/Tests.antt =====
-- Runs of the bridge of src/bridge.rs.
use lkrequest_py.Prelude.{◌≡◌, refl, ok, true, false, List, [], ◌∷◌, arith}
use lkrequest_py.Bridge.{
  Crossing, queued, initial, Event, submits, completes, delivers, skips, run, step, future_into_py,
  register, release, drop_guard, on_crossing, complete, deliver, skip, call_soon_threadsafe,
}
use lkrequest_py.Bridge.Guards.{initial-Inv}
use lkrequest_py.Bridge.Drain.{Round, drain, IsDelivered, drain_delivers, drain-tap_gil}

abbrev delivered : List Event
delivered = submits true ∷ completes 0 ∷ delivers 0 (ok false) (ok tt) ∷ []

abbrev arrived : Crossing
arrived = record { stage = queued; owned = false; parked = false }

drain_delivers_example :
    IsDelivered
      (drain [] (run initial delivered)).1
      (run (drain [] (run initial delivered)).1 [])
      0
      arrived
unfolding run step future_into_py register on_crossing complete deliver release drop_guard
    call_soon_threadsafe drain
drain_delivers_example = drain_delivers delivered [] [] 0 arrived refl (omega arith) refl

abbrev stranded_events : List Event
stranded_events = submits true ∷ completes 0 ∷ skips 0 ∷ []

abbrev late : Round
late = record { events = stranded_events; timed_out = true }

drain-tap_gil_example : (drain (late ∷ []) initial).0 ≡ true
unfolding run step future_into_py register on_crossing complete skip
drain-tap_gil_example = drain-tap_gil late [] initial initial-Inv refl (refl, tt)
