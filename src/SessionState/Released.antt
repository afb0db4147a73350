-- ===== src/SessionState/Released.antt =====
-- A closed session stays closed and holds no callback.
pub mod Middlewares
use lkrequest_py.Prelude.{
  ℕ, String, ◌≡◌, ◌≢◌, refl, sym, append-nil, ◌++◌, ◌∷◌, ◌∙◌, ◌⊎◌, inl, inr, Bool, true, false,
  List, [], map, Option, none, some, arith, All, PyResult, new_err, runtime_error,
}
use lkrequest_py.SessionState.Firing.{fire_request-calls, fire_response-calls}
use lkrequest_py.SessionState.{
  Callback, Slots, release, State, close, Op, on_request, on_response, closes, gc_clears, exec,
  exec_all, World, Behaviour, HookCall, call_hook, call_hooks, fire_request, fire_response,
  request_call, response_call, headers_val, call_hook,
}

abbrev pub SlotsEmpty : Slots → Type 0
SlotsEmpty s = (s.on_request ≡ none) × (s.on_response ≡ none)

pub record IsReleased (s : State) : Type 0 where
  pub closed : s.closed ≡ true
  pub no_request_hooks : s.request_hooks ≡ []
  pub no_response_hooks : s.response_hooks ≡ []
  pub no_middleware : All SlotsEmpty s.middleware

All-release : (l : List Slots) → All SlotsEmpty (map release l)
unfolding release
All-release [] = tt
All-release (s ∷ l) = ((refl, refl), All-release l)

-- Closing a session, open or closed, leaves it closed with no hook and no middleware callback.
pub close-IsReleased : (s : State) → IsReleased (close s)
unfolding close
close-IsReleased s = record {
  closed = refl;
  no_request_hooks = refl;
  no_response_hooks = refl;
  no_middleware = All-release s.middleware;
}

-- No call undoes that; registering a hook is refused.
exec-IsReleased : (o : Op) (s : State) → IsReleased s → IsReleased (exec o s).1
unfolding exec
exec-IsReleased (on_request cb) s v = ground (arith, v)
exec-IsReleased (on_response cb) s v = ground (arith, v)
exec-IsReleased closes s v = close-IsReleased s
exec-IsReleased gc_clears s v = record {
  closed = v.closed;
  no_request_hooks = refl;
  no_response_hooks = refl;
  no_middleware = v.no_middleware;
}

pub exec_all-IsReleased : (os : List Op) (s : State) → IsReleased s → IsReleased (exec_all os s)
unfolding exec_all
exec_all-IsReleased [] s v = v
exec_all-IsReleased (o ∷ os) s v = exec_all-IsReleased os (exec o s).1 (exec-IsReleased o s v)

call_hooks-IsReleased :
    (b : Behaviour) (args : Callback → HookCall) (hs : List Callback) (w : World)
    → IsReleased w.state
    → IsReleased (call_hooks b args hs w).state
unfolding call_hooks
call_hooks-IsReleased b args [] w v = v
call_hooks-IsReleased b args (h ∷ hs) w v =
    call_hooks-IsReleased b args hs (call_hook b args h w) (exec_all-IsReleased (b.ops h) w.state v)

-- What happens to a session over time: calls on it, and hooks fired by its requests.
pub data Action : Type 0 where
  calls_op : Op → Action
  fires_request : String → String → Option (List (String × String)) → Action
  fires_response : ℕ → String → ℕ → Action

pub act : Behaviour → Action → World → World
unfolding exec
act b (calls_op o) w = record w { state = (exec o w.state).1 }
act b (fires_request method url headers) w = fire_request b method url headers w
act b (fires_response status url elapsed) w = fire_response b status url elapsed w

pub act_all : Behaviour → List Action → World → World
act_all b [] w = w
act_all b (a ∷ as') w = act_all b as' (act b a w)

-- A released session fires nothing.
act-IsReleased :
    (b : Behaviour) (a : Action) (w : World)
    → IsReleased w.state
    → IsReleased (act b a w).state × ((act b a w).calls ≡ w.calls)
unfolding act fire_request fire_response call_hooks
act-IsReleased b (calls_op o) w v = (exec-IsReleased o w.state v, refl)
act-IsReleased b (fires_request method url headers) w v = simp v.no_request_hooks (v, refl)
act-IsReleased b (fires_response status url elapsed) w v = simp v.no_response_hooks (v, refl)

act_all-IsReleased :
    (b : Behaviour) (acts : List Action) (w : World)
    → IsReleased w.state
    → IsReleased (act_all b acts w).state × ((act_all b acts w).calls ≡ w.calls)
unfolding act_all
act_all-IsReleased b [] w v = (v, refl)
act_all-IsReleased b (a ∷ acts) w v =
    let (u, quiet) = act-IsReleased b a w v in
    let (t, silent) = act_all-IsReleased b acts (act b a w) u in (t, silent ∙ quiet)

pub act_all-close :
    (b : Behaviour) (acts : List Action) (w : World)
    → IsReleased (act_all b acts (act b (calls_op closes) w)).state
      × ((act_all b acts (act b (calls_op closes) w)).calls ≡ w.calls)
unfolding act exec
act_all-close b acts w =
    act_all-IsReleased b acts (record w { state = close w.state }) (close-IsReleased w.state)

-- A callback that closes the session when it is called, among these.
abbrev HasClose : List Op → Type 0
HasClose [] = ⊥
HasClose (on_request cb ∷ os) = HasClose os
HasClose (on_response cb ∷ os) = HasClose os
HasClose (closes ∷ os) = Unit
HasClose (gc_clears ∷ os) = HasClose os

abbrev HasCloser : Behaviour → List Callback → Type 0
HasCloser b [] = ⊥
HasCloser b (h ∷ hs) = HasClose (b.ops h) ⊎ HasCloser b hs

-- Calling `close`, or firing hooks of which one does.
abbrev pub Closes : Behaviour → Action → State → Type 0
Closes b (calls_op o) s = HasClose (o ∷ [])
Closes b (fires_request method url headers) s = HasCloser b s.request_hooks
Closes b (fires_response status url elapsed) s = HasCloser b s.response_hooks

-- The calls that a firing makes, one of each hook that is registered when it begins.
abbrev pub snapshot_calls : Action → State → List HookCall
snapshot_calls (calls_op o) s = []
snapshot_calls (fires_request method url headers) s =
    map (λ h. request_call h method url (headers_val headers)) s.request_hooks
snapshot_calls (fires_response status url elapsed) s =
    map (λ h. response_call h status url elapsed) s.response_hooks

exec_all-HasClose : (os : List Op) (s : State) → HasClose os → IsReleased (exec_all os s)
unfolding exec_all exec
exec_all-HasClose [] s c = absurd c
exec_all-HasClose (on_request cb ∷ os) s c = exec_all-HasClose os (exec (on_request cb) s).1 c
exec_all-HasClose (on_response cb ∷ os) s c = exec_all-HasClose os (exec (on_response cb) s).1 c
exec_all-HasClose (closes ∷ os) s c = exec_all-IsReleased os (close s) (close-IsReleased s)
exec_all-HasClose (gc_clears ∷ os) s c = exec_all-HasClose os (exec gc_clears s).1 c

call_hooks-HasCloser :
    (b : Behaviour) (args : Callback → HookCall) (hs : List Callback) (w : World)
    → HasCloser b hs
    → IsReleased (call_hooks b args hs w).state
unfolding call_hooks
call_hooks-HasCloser b args [] w c = absurd c
call_hooks-HasCloser b args (h ∷ hs) w (inl c) =
    call_hooks-IsReleased b args hs (call_hook b args h w) (exec_all-HasClose (b.ops h) w.state c)
call_hooks-HasCloser b args (h ∷ hs) w (inr c) =
    call_hooks-HasCloser b args hs (call_hook b args h w) c

act-Closes :
    (b : Behaviour) (a : Action) (w : World)
    → Closes b a w.state
    → IsReleased (act b a w).state × ((act b a w).calls ≡ w.calls ++ snapshot_calls a w.state)
unfolding act fire_request fire_response exec
act-Closes b (calls_op (on_request cb)) w c = absurd c
act-Closes b (calls_op (on_response cb)) w c = absurd c
act-Closes b (calls_op closes) w c = (close-IsReleased w.state, sym (append-nil w.calls))
act-Closes b (calls_op gc_clears) w c = absurd c
act-Closes b (fires_request method url headers) w c = (
  call_hooks-HasCloser b (λ h. request_call h method url (headers_val headers))
      w.state.request_hooks w c,
  fire_request-calls b method url headers w,
)
act-Closes b (fires_response status url elapsed) w c = (
  call_hooks-HasCloser b (λ h. response_call h status url elapsed) w.state.response_hooks w c,
  fire_response-calls b status url elapsed w,
)

-- Once `close` has run, called on the session in any state or by one of the hooks while they are
-- fired, then after that call or firing and any further calls on the session (registering hooks and
-- closing again included) and any attempts of its requests to fire hooks, it is closed and holds no
-- hook and no middleware callback. The hooks that are called are those of the firing in which it was
-- closed, all that were registered when that firing began, once each, also those after the one that
-- closes, and none besides.
pub act_all-Closes :
    (b : Behaviour) (a : Action) (acts : List Action) (w : World)
    → Closes b a w.state
    → IsReleased (act_all b acts (act b a w)).state
      × ((act_all b acts (act b a w)).calls ≡ w.calls ++ snapshot_calls a w.state)
act_all-Closes b a acts w c =
    let (v, p) = act-Closes b a w c in
    let (t, q) = act_all-IsReleased b acts (act b a w) v in (t, q ∙ p)
