-- ===== src/SessionState/Released/Middlewares.antt =====
-- The middleware slots of a session of src/session_state.rs stay in their places.
use lkrequest_py.Prelude.{◌≡◌, refl, ◌∙◌, List, [], ◌∷◌, map, length, arith}
use lkrequest_py.SessionState.{
  push_request, push_response, with_middleware, Callback, Slots, release, State, Op, on_request,
  on_response, closes, gc_clears, exec, exec_all, close, World, Behaviour, HookCall, call_hook,
  call_hooks, fire_request, fire_response,
}
use lkrequest_py.SessionState.Released.{
  Action, calls_op, fires_request, fires_response, act, act_all,
}

length-map : (ss : List Slots) → length (map release ss) ≡ length ss
length-map [] = refl
length-map (s ∷ ss) = omega (arith, length-map ss)

exec-middleware : (o : Op) (s : State) → length (exec o s).1.middleware ≡ length s.middleware
unfolding exec
exec-middleware (on_request cb) s = ground arith
exec-middleware (on_response cb) s = ground arith
exec-middleware closes s = unfold close in length-map s.middleware
exec-middleware gc_clears s = refl

exec_all-middleware :
    (os : List Op) (s : State) → length (exec_all os s).middleware ≡ length s.middleware
unfolding exec_all
exec_all-middleware [] s = refl
exec_all-middleware (o ∷ os) s = exec_all-middleware os (exec o s).1 ∙ exec-middleware o s

call_hooks-middleware :
    (b : Behaviour) (args : Callback → HookCall) (hs : List Callback) (w : World)
    → length (call_hooks b args hs w).state.middleware ≡ length w.state.middleware
unfolding call_hooks
call_hooks-middleware b args [] w = refl
call_hooks-middleware b args (h ∷ hs) w =
    call_hooks-middleware b args hs (call_hook b args h w) ∙ exec_all-middleware (b.ops h) w.state

pub act-middleware :
    (b : Behaviour) (a : Action) (w : World)
    → length (act b a w).state.middleware ≡ length w.state.middleware
unfolding act fire_request fire_response
act-middleware b (calls_op o) w = exec-middleware o w.state
act-middleware b (fires_request method url headers) w =
    call_hooks-middleware b _ w.state.request_hooks w
act-middleware b (fires_response status url elapsed) w =
    call_hooks-middleware b _ w.state.response_hooks w

-- Whatever happens to a session, it has the slots that it started with.
pub act_all-middleware :
    (b : Behaviour) (acts : List Action) (w : World)
    → length (act_all b acts w).state.middleware ≡ length w.state.middleware
unfolding act_all
act_all-middleware b [] w = refl
act_all-middleware b (a ∷ acts) w = act_all-middleware b acts (act b a w) ∙ act-middleware b a w

pub push-middleware :
    (cb : Callback) (s : State)
    → ((push_request cb s).middleware ≡ s.middleware)
      × ((push_response cb s).middleware ≡ s.middleware)
unfolding push_request push_response
push-middleware cb s = (refl, refl)

pub with_middleware-middleware :
    (s : State) (slots : List Slots) → (with_middleware s slots).middleware ≡ slots
unfolding with_middleware
with_middleware-middleware s slots = refl
