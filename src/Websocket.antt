-- ===== src/Websocket.antt =====
-- src/websocket.rs: the connection that a Python object and its operations in flight share. The
-- async and the blocking class differ only in how an iteration ends.
mod Tests
pub mod Closing
pub mod Closed
use lkrequest_py.Prelude.{
  ℕ, String, List, [], ◌∷◌, ◌++◌, Option, none, some, get_elem?, set, PyErr, runtime_error,
  stop_async_iteration, PyResult, ok, err, new_err,
}

abbrev pub Bytes : Type 0
Bytes = List ℕ

-- `lkrequest::ws::WsMessage`, as this file matches on it.
pub data RawMessage : Type 0 where
  text : String → RawMessage
  binary ping pong : Bytes → RawMessage
  close : Option ℕ → String → RawMessage

-- `PyWsMessage`.
pub data Message : Type 0 where
  text_message : String → Message
  binary_message ping_message pong_message : Bytes → Message
  close_message : Option ℕ → String → Message

pub rust_ws_to_py : RawMessage → Message
rust_ws_to_py (text s) = text_message s
rust_ws_to_py (binary b) = binary_message b
rust_ws_to_py (ping b) = ping_message b
rust_ws_to_py (pong b) = pong_message b
rust_ws_to_py (close code reason) = close_message code reason

-- The library's connection, by its identity.
abbrev pub Connection : Type 0
Connection = ℕ

-- `SharedConnection`.
pub record Shared : Type 0 where
  pub slot : Option Connection

pub new : Connection → Shared
new conn = record { slot = some conn }

pub get : Shared → Option Connection
get s = s.slot

pub open_connection : Shared → PyResult Connection
unfolding get
open_connection s = elim (get s) [
  | some conn ↦ ok conn
  | none ↦ new_err runtime_error "WebSocket is closed"
]

pub release : Shared → Shared
release s = record s { slot = none }

pub data Class : Type 0 where
  asynchronous blocking : Class

-- The methods that use the connection; `next` is `__anext__` or `__next__`.
pub data Method : Type 0 where
  send_text : String → Method
  send_binary : Bytes → Method
  recv next : Method
  close_with : Option ℕ → String → Method

-- A call of the library's connection, and how it ends.
pub data Call : Type 0 where
  calls_send_text : String → Call
  calls_send_binary : Bytes → Call
  calls_recv : Call
  calls_close : Option (ℕ × String) → Call

pub data Outcome : Type 0 where
  failed : PyErr → Outcome
  succeeded : Outcome
  received : RawMessage → Outcome

-- What a method gives back to Python.
pub data Value : Type 0 where
  returns_none : Value
  returns : Message → Value

-- The end of an iteration: an exception, or `None`.
pub iteration_end : Class → PyResult Value
iteration_end asynchronous = new_err stop_async_iteration ""
iteration_end blocking = ok returns_none

abbrev close_info : Option ℕ → String → Option (ℕ × String)
close_info none reason = none
close_info (some c) reason = some (c, reason)

-- The first half of a method: it has ended, or waits for a call on the connection that it holds.
pub data Begun : Type 0 where
  ended : PyResult Value → Begun
  waits : Connection → Call → Begun

abbrev on_open : Call → Shared → Begun
on_open call s = elim (open_connection s) [ ok conn ↦ waits conn call | err e ↦ ended (err e) ]

pub begin : Class → Method → Shared → Begun
unfolding open_connection iteration_end get
begin class (send_text t) s = on_open (calls_send_text t) s
begin class (send_binary b) s = on_open (calls_send_binary b) s
begin class recv s = on_open calls_recv s
begin class (close_with code reason) s = on_open (calls_close (close_info code reason)) s
begin class next s = elim (get s) [
  | some conn ↦ waits conn calls_recv
  | none ↦ ended (iteration_end class)
]

-- The second half: how the method ends when its call has.
pub finish : Class → Method → Outcome → Shared → PyResult Value × Shared
unfolding rust_ws_to_py release iteration_end
finish class (close_with code reason) (failed e) s = (err e, s)
finish class (close_with code reason) _ s = (ok returns_none, release s)
finish class next (failed e) s = (iteration_end class, release s)
finish class next (received (close code reason)) s = (iteration_end class, release s)
finish class next (received m) s = (ok (returns (rust_ws_to_py m)), s)
finish class next succeeded s = (ok returns_none, s)
finish class _ (failed e) s = (err e, s)
finish class _ (received m) s = (ok (returns (rust_ws_to_py m)), s)
finish class _ succeeded s = (ok returns_none, s)

-- A method that was called, with how far it is.
pub data Progress : Type 0 where
  waiting : Connection → Call → Progress
  finished : PyResult Value → Progress

pub record Flight : Type 0 where
  pub method : Method
  pub outcome : Option Outcome  -- how its call ended, once it has
  pub progress : Progress

-- The object with every method called on it, oldest first.
pub record World : Type 0 where
  pub shared : Shared
  pub flights : List Flight

pub data Event : Type 0 where
  calls : Method → Event
  ends : ℕ → Outcome → Event

abbrev pub progress_of : Begun → Progress
progress_of (ended r) = finished r
progress_of (waits conn call) = waiting conn call

abbrev pub finish_flight : Class → World → ℕ → Flight → Outcome → World
finish_flight class w i f o =
    let r = finish class f.method o w.shared in
    record {
      shared = r.1;
      flights = set w.flights i (record f { outcome = some o; progress = finished r.0 });
    }

abbrev pub end_flight : Class → World → ℕ → Outcome → Option Flight → World
end_flight class w i o none = w
end_flight class w i o (some f) = elim f.progress [
  | waiting conn call ↦ finish_flight class w i f o
  | finished r ↦ w
]

pub step : Class → World → Event → World
unfolding begin finish
step class w (calls m) = record w {
  flights =
      w.flights
      ++ record { method = m; outcome = none; progress = progress_of (begin class m w.shared) }
        ∷ [];
}
step class w (ends i o) = end_flight class w i o (get_elem? w.flights i)

pub run : Class → World → List Event → World
unfolding step
run class w [] = w
run class w (e ∷ es) = run class (step class w e) es
