-- ===== src/SessionPool/Blocking.antt =====
-- The constructors of the two pools of src/session_pool.rs, and `BlockingSessionPool`, whose methods
-- run to their end in one call.
use lkrequest_py.Prelude.{
  ℕ, String, List, [], ◌∷◌, ◌++◌, Option, none, some, runtime_error, PyResult, ok, new_err, ◌>>=◌,
  ◌≡◌, refl,
}
use lkrequest_py.Types.{F64, Duration, validated_duration}
use lkrequest_py.Proxy.{
  Handle, ProxiesArgument, resolve_proxy_list, RotationStrategy, rotation_named,
}
use lkrequest_py.SessionPool.{
  Lease, PoolState, guard_of, acquired, drop_guard, mark_bad, release_bad, aexit, session,
  PoolEvent, acquires, releases_bad, marks_bad, exits, reads_session, pool_step, pool_steps,
}

-- The calls on `SessionPool::builder()`.
pub data BuilderCall : Type 0 where
  sets_client : Handle → BuilderCall
  sets_proxies : List Handle → BuilderCall
  sets_max_sessions : ℕ → BuilderCall
  sets_idle_timeout : Duration → BuilderCall
  sets_rotation : RotationStrategy → BuilderCall

abbrev pub max_calls : Option ℕ → List BuilderCall
max_calls none = []
max_calls (some n) = sets_max_sessions n ∷ []

abbrev pub idle_calls : Option F64 → PyResult (List BuilderCall)
idle_calls none = ok []
idle_calls (some t) = do d ← validated_duration t; ok (sets_idle_timeout d ∷ [])

abbrev pub rotation_calls : Option String → PyResult (List BuilderCall)
rotation_calls none = ok []
rotation_calls (some strategy) = do rs ← rotation_named strategy; ok (sets_rotation rs ∷ [])

-- `parse` is the library's parser of proxies.
pub new_session_pool :
    (String → PyResult Handle)
    → Handle
    → ProxiesArgument
    → Option ℕ
    → Option F64
    → Option String
    → PyResult (List BuilderCall)
new_session_pool parse client proxies max_sessions idle_timeout rotation = do
  configs ← resolve_proxy_list parse proxies
  idle ← idle_calls idle_timeout
  strategy ← rotation_calls rotation
  ok (sets_client client ∷ sets_proxies configs ∷ (max_calls max_sessions ++ (idle ++ strategy)))

unfoldable pub acquire : PoolState → PoolState
acquire s = acquired s

-- The old lease is marked and dropped, and then a lease is taken.
unfoldable pub acquire_fresh : ℕ → PoolState → PoolState
acquire_fresh i s = acquired (drop_guard i (mark_bad i s))

unfoldable pub exit : ℕ → PoolState → PoolState
exit i s = drop_guard i s

-- `session` and `__enter__`.
unfoldable pub enter : PoolState → ℕ → PyResult Lease
enter s i = elim (guard_of s i) [
  | none ↦ new_err runtime_error "SessionGuard already released"
  | some g ↦ ok g
]

-- A call of a method of `BlockingSessionPool` or of `BlockingSessionGuard`.
pub data Call : Type 0 where
  acquires_one : Call
  acquires_fresh marks leaves enters : ℕ → Call

pub call_step : PoolState → Call → PoolState
call_step s acquires_one = acquire s
call_step s (acquires_fresh i) = acquire_fresh i s
call_step s (marks i) = mark_bad i s
call_step s (leaves i) = exit i s
call_step s (enters i) = s

pub call_steps : PoolState → List Call → PoolState
call_steps s [] = s
call_steps s (c ∷ cs) = call_steps (call_step s c) cs

-- The pieces of the asynchronous methods of the same names.
abbrev pub events_of : List Call → List PoolEvent
events_of [] = []
events_of (acquires_one ∷ cs) = acquires ∷ events_of cs
events_of (acquires_fresh i ∷ cs) = releases_bad i ∷ acquires ∷ events_of cs
events_of (marks i ∷ cs) = marks_bad i ∷ events_of cs
events_of (leaves i ∷ cs) = exits i ∷ events_of cs
events_of (enters i ∷ cs) = reads_session i ∷ events_of cs

pub call_steps-events_of :
    (s : PoolState) (cs : List Call) → call_steps s cs ≡ pool_steps s (events_of cs)
unfolding call_steps call_step acquire acquire_fresh exit pool_steps pool_step release_bad aexit
call_steps-events_of s [] = refl
call_steps-events_of s (acquires_one ∷ cs) = call_steps-events_of (acquired s) cs
call_steps-events_of s (acquires_fresh i ∷ cs) =
    call_steps-events_of (acquired (drop_guard i (mark_bad i s))) cs
call_steps-events_of s (marks i ∷ cs) = call_steps-events_of (mark_bad i s) cs
call_steps-events_of s (leaves i ∷ cs) = call_steps-events_of (drop_guard i s) cs
call_steps-events_of s (enters i ∷ cs) = call_steps-events_of s cs

pub enter-session : (s : PoolState) (i : ℕ) → enter s i ≡ session s i
unfolding enter session
enter-session s i = refl
