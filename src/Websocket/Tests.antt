-- ===== src/Websocket/Tests.antt =====
-- Runs of the websocket object of src/websocket.rs.
use lkrequest_py.Prelude.{◌≡◌, ◌≤◌, refl, List, [], ◌∷◌, none, some, if◌then◌else◌}
use lkrequest_py.Websocket.{
  World, Event, calls, ends, recv, next, send_text, close, received, new, run, begin, ended, Class,
}
use lkrequest_py.Websocket.Closing.{any_closed, run-closes}
use lkrequest_py.Websocket.Closed.{in_use, refusal, closed_for_good}

-- An iteration gets a Close message while a `recv` waits.
abbrev events : List Event
events = calls recv ∷ calls next ∷ ends 1 (received (close none "")) ∷ calls (send_text "x") ∷ []

run-closes_example :
    let w = run Class.asynchronous (record { shared = new 5; flights = [] }) events in
    w.shared.slot ≡ (if any_closed w.flights then none else some 5)
run-closes_example = run-closes Class.asynchronous 5 events

abbrev shut : World
shut = record { shared = record { slot = none }; flights = [] }

closed_for_good_example :
    let w = run Class.blocking shut events in
    (w.shared.slot ≡ none)
    × (in_use w.flights ≤ 0)
    × (begin Class.blocking next w.shared ≡ ended (refusal Class.blocking next))
closed_for_good_example = closed_for_good Class.blocking shut events next refl
