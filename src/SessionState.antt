-- ===== src/SessionState.antt =====
-- src/session_state.rs and the slots of src/middleware.rs: what the handles onto one session share,
-- its event hooks, its closed flag and its middleware callbacks. Cloning a `SessionState` clones
-- references, so all handles and request futures of a session are one `State` here.
mod Tests
pub mod Firing
pub mod Released
pub mod Guarding
use lkrequest_py.Prelude.{
  ℕ, ◌+◌, String, str_eq, Bool, true, false, List, [], ◌∷◌, ◌++◌, map, Option, none, some, is_some,
  if◌then◌else◌, PyResult, ok, err, new_err, runtime_error, ◌>>=◌, ◌>>◌,
}

-- A Python callable, by its identity.
abbrev pub Callback : Type 0
Callback = ℕ

-- `MiddlewareSlots`.
pub record Slots : Type 0 where
  pub on_request : Option Callback
  pub on_response : Option Callback

-- `MiddlewareSlots::release` takes both callbacks out.
pub release : Slots → Slots
release s = record { on_request = none; on_response = none }

pub record State : Type 0 where
  pub request_hooks : List Callback
  pub response_hooks : List Callback
  pub closed : Bool
  pub middleware : List Slots

-- `SessionState::default`, and `with_middleware`.
abbrev pub default : State
default = record { request_hooks = []; response_hooks = []; closed = false; middleware = [] }

unfoldable pub with_middleware : State → List Slots → State
with_middleware s slots = record s { middleware = slots }

unfoldable pub is_closed : State → Bool
is_closed s = s.closed

abbrev pub closed_error {ℓ} : {A : Type ℓ} → PyResult A
closed_error = new_err runtime_error "Session is closed"

unfoldable pub ensure_open : State → PyResult (Unit {0})
unfolding is_closed
ensure_open s = if is_closed s then closed_error else ok tt

unfoldable pub push_request : Callback → State → State
push_request cb s = record s { request_hooks = s.request_hooks ++ cb ∷ [] }

unfoldable pub push_response : Callback → State → State
push_response cb s = record s { response_hooks = s.response_hooks ++ cb ∷ [] }

-- `EventHooks::clear`: both lists are emptied in place.
pub clear : State → State
clear s = record s { request_hooks = []; response_hooks = [] }

pub close : State → State
unfolding clear release
close s =
    let t = clear (record s { closed = true }) in record t { middleware = map release t.middleware }

-- `__clear__` of a handle that the collector found to be garbage.
pub clear_for_gc : State → State
unfolding clear
clear_for_gc s = clear s

-- The calls on a session that touch this state: `Session::on_request` and `on_response` of
-- src/session.rs with their guard, `close`, and the collector.
pub data Op : Type 0 where
  on_request on_response : Callback → Op
  closes gc_clears : Op

pub exec : Op → State → PyResult (Unit {0}) × State
unfolding ensure_open push_request push_response close clear_for_gc
exec (on_request cb) s = if is_closed s then (closed_error, s) else (ok tt, push_request cb s)
exec (on_response cb) s = if is_closed s then (closed_error, s) else (ok tt, push_response cb s)
exec closes s = (ok tt, close s)
exec gc_clears s = (ok tt, clear_for_gc s)

pub exec_all : List Op → State → State
unfolding exec
exec_all [] s = s
exec_all (o ∷ os) s = exec_all os (exec o s).1

-- What a hook was called with.
pub data HookCall : Type 0 where
  request_call : Callback → String → String → List (String × String) → HookCall
  response_call : Callback → ℕ → String → ℕ → HookCall

-- The state with the calls made so far, oldest first.
pub record World : Type 0 where
  pub state : State
  pub calls : List HookCall
  pub warnings : ℕ  -- hooks whose exception was logged

-- What a Python callback does when it is called: calls back into the session, then returns or
-- raises.
pub record Behaviour : Type 0 where
  pub ops : Callback → List Op
  pub answer : Callback → PyResult (Unit {0})

abbrev warned : PyResult (Unit {0}) → ℕ → ℕ
warned (ok _) n = n
warned (err _) n = n + 1

-- One `hook.call1(…)`; its exception is logged and dropped.
call_hook : Behaviour → (Callback → HookCall) → Callback → World → World
call_hook b args hook w = record {
  state = exec_all (b.ops hook) w.state;
  calls = w.calls ++ args hook ∷ [];
  warnings = warned (b.answer hook) w.warnings;
}

pub call_hooks : Behaviour → (Callback → HookCall) → List Callback → World → World
unfolding call_hook
call_hooks b args [] w = w
call_hooks b args (h ∷ hs) w = call_hooks b args hs (call_hook b args h w)

-- A `HashMap` collected from pairs: the last value of a key stands.
insert : String → String → List (String × String) → List (String × String)
insert k v [] = (k, v) ∷ []
insert k v ((j, w) ∷ m) = if str_eq j k then (k, v) ∷ m else (j, w) ∷ insert k v m

collect : List (String × String) → List (String × String) → List (String × String)
collect [] m = m
collect ((k, v) ∷ ps) m = collect ps (insert k v m)

abbrev unwrap_or_default : Option (List (String × String)) → List (String × String)
unwrap_or_default none = []
unwrap_or_default (some ps) = ps

-- The header map that request hooks are given.
pub headers_val : Option (List (String × String)) → List (String × String)
unfolding insert collect
headers_val headers = collect (unwrap_or_default headers) []

-- Both run over a snapshot of the list. Times are in nanoseconds.
pub fire_request : Behaviour → String → String → Option (List (String × String)) → World → World
unfolding call_hooks
fire_request b method url headers w =
    call_hooks b (λ h. request_call h method url (headers_val headers)) w.state.request_hooks w

pub fire_response : Behaviour → ℕ → String → ℕ → World → World
unfolding call_hooks
fire_response b status url elapsed w =
    call_hooks b (λ h. response_call h status url elapsed) w.state.response_hooks w

-- One poll of `Closing::guard`: `select!` polls its two branches in random order, and takes the
-- first that is ready. `none` is pending.
pub guard_poll {ℓ} : {A : Type ℓ} → Bool → Option (PyResult A) → Bool → Option (PyResult A)
guard_poll work_first (some result) false = some result
guard_poll work_first none false = none
guard_poll true (some result) true = some result
guard_poll _ _ true =
    some (new_err runtime_error "Session was closed while the request was in flight")
