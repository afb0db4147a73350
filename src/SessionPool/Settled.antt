-- ===== src/SessionPool/Settled.antt =====
-- The leases and the guard objects of both pools of src/session_pool.rs, at any moment.
use lkrequest_py.Prelude.{
  ℕ, suc, ◌≡◌, refl, ◌∙◌, List, [], ◌∷◌, Option, none, some, ok, error_kind, runtime_error,
  PyResult, Option-cases, inl, inr, subst, sym, ap,
}
use lkrequest_py.SessionPool.{
  Lease, PoolState, new_pool, guard_of, acquired, drop_guard, mark_bad, release_bad, aexit, session,
  PoolEvent, acquires, pool_step, pool_steps,
}
use lkrequest_py.SessionPool.Blocking.{
  Call, acquire, call_steps, events_of, call_steps-events_of, exit, acquire_fresh, enter,
  enter-session,
}
use lkrequest_py.SessionPool.Leases.{
  times, Accounts, drop_guard-none, mark_bad-none, mark_bad-some, pool_steps-Accounts,
  new_pool-Accounts,
}
use lkrequest_py.SessionPool.Released.{IsSettled, steps-IsSettled}
use lkrequest_py.SessionPool.Effects.{
  IsLeft, session-none, session-some, drop_guard-IsLeft, release_bad-IsLeft, mark_bad-guard_of,
  mark_bad-times-suc,
}

-- What the methods of a guard object do in a state, where `left`, `fresh` and `marked` are the states
-- after leaving, `acquire_fresh` and `mark_bad`, and `later` is what happens from there on. An object
-- that holds nothing refuses, and only the acquiring of `acquire_fresh` does anything. Of one that
-- holds a lease, leaving gives it up, `acquire_fresh` marks it and gives it up, and `mark_bad` marks it.
module _ (left fresh marked acquired_only : PoolState) (later : PoolState → PoolState)
    (ask : PoolState → ℕ → PyResult Lease) (s : PoolState) (i : ℕ) where
  abbrev pub Does : Option Lease → Type 0
  Does none =
      (error_kind (ask s i) ≡ some runtime_error)
      × (left ≡ s)
      × (fresh ≡ acquired_only)
      × (marked ≡ s)
  Does (some g) =
      (ask s i ≡ ok g)
      × IsLeft g (times g s.bad) left (later left) (ask left i) (ask (later left) i)
      × IsLeft g (suc (times g s.bad)) fresh (later fresh) (ask fresh i) (ask (later fresh) i)
      × (times g marked.bad ≡ suc (times g s.bad))
      × (times g marked.returned ≡ times g s.returned)
      × (ask marked i ≡ ok g)

-- The pieces of the asynchronous methods, the acquiring of `acquire_fresh` among what comes later.
abbrev pub PoolDoes : PoolState → ℕ → List PoolEvent → Type 0
PoolDoes s i fs =
    Does (aexit i s) (release_bad i s) (mark_bad i s) s (λ t. pool_steps t fs) session s i
      (guard_of s i)

abbrev pub BlockingDoes : PoolState → ℕ → List Call → Type 0
BlockingDoes s i ds =
    Does (exit i s) (acquire_fresh i s) (mark_bad i s) (acquire s) (λ t. call_steps t ds) enter s i
      (guard_of s i)

release_bad-none : (s : PoolState) (i : ℕ) → guard_of s i ≡ none → release_bad i s ≡ s
unfolding release_bad
release_bad-none s i n = ap (drop_guard i) (mark_bad-none i s n) ∙ drop_guard-none i s n

mark_bad-kept :
    (s : PoolState) (i : ℕ) {g : Lease}
    → guard_of s i ≡ some g
    → times g (mark_bad i s).returned ≡ times g s.returned
mark_bad-kept s i p = rw (mark_bad-some i s p) refl

steps-PoolDoes : (s : PoolState) (i : ℕ) (fs : List PoolEvent) → Accounts s → PoolDoes s i fs
unfolding aexit
steps-PoolDoes s i fs a = elim (Option-cases (guard_of s i)) [
  | inl n ↦
      subst (Does (aexit i s) (release_bad i s) (mark_bad i s) s (λ t. pool_steps t fs) session s i)
        (sym n)
        (session-none s i n, drop_guard-none i s n, release_bad-none s i n, mark_bad-none i s n)
  | inr (g, p) ↦
      subst (Does (aexit i s) (release_bad i s) (mark_bad i s) s (λ t. pool_steps t fs) session s i)
        (sym p)
        (
          session-some s i p,
          drop_guard-IsLeft s i fs a p,
          release_bad-IsLeft s i fs a p,
          mark_bad-times-suc s i p,
          mark_bad-kept s i p,
          session-some (mark_bad i s) i (mark_bad-guard_of s i i p),
        )
]

-- The acquiring changes nothing of the lease that was given up before it.
acquire_fresh-IsLeft :
    (s : PoolState) (i : ℕ) {g : Lease} (fs : List PoolEvent)
    → Accounts s
    → guard_of s i ≡ some g
    → IsLeft g
        (suc (times g s.bad))
        (acquire_fresh i s)
        (pool_steps (acquire_fresh i s) fs)
        (session (acquire_fresh i s) i)
        (session (pool_steps (acquire_fresh i s) fs) i)
unfolding acquire_fresh acquired pool_steps pool_step release_bad
acquire_fresh-IsLeft s i fs a p =
    let (r, b, c, d, e) = release_bad-IsLeft s i (acquires ∷ fs) a p in
    let (r1, b1, c1, d1, e1) = release_bad-IsLeft s i (acquires ∷ []) a p in (r, b, c, e1, e)

steps-BlockingDoes : (s : PoolState) (i : ℕ) (ds : List Call) → Accounts s → BlockingDoes s i ds
unfolding exit acquire_fresh acquire release_bad enter session
steps-BlockingDoes s i ds a = elim (Option-cases (guard_of s i)) [
  | inl n ↦
      subst
        (Does (exit i s) (acquire_fresh i s) (mark_bad i s) (acquire s) (λ t. call_steps t ds) enter
          s i)
        (sym n)
        (
          session-none s i n,
          drop_guard-none i s n,
          ap acquired (release_bad-none s i n),
          mark_bad-none i s n,
        )
  | inr (g, p) ↦
      subst
        (Does (exit i s) (acquire_fresh i s) (mark_bad i s) (acquire s) (λ t. call_steps t ds) enter
          s i)
        (sym p)
        (
          session-some s i p,
          subst (λ t. IsLeft g (times g s.bad) (exit i s) t (session (exit i s) i) (session t i))
              (sym (call_steps-events_of (exit i s) ds)) (drop_guard-IsLeft s i (events_of ds) a p),
          subst
              (λ t.
                IsLeft g (suc (times g s.bad)) (acquire_fresh i s) t (session (acquire_fresh i s) i)
                  (session t i))
              (sym (call_steps-events_of (acquire_fresh i s) ds))
              (acquire_fresh-IsLeft s i (events_of ds) a p),
          mark_bad-times-suc s i p,
          mark_bad-kept s i p,
          session-some (mark_bad i s) i (mark_bad-guard_of s i i p),
        )
]

-- In any order of the pieces of the methods, a lease that the pool has given is in exactly one place:
-- in the slot of one guard object, or returned to the pool, once. A lease that it has not given is in
-- none. One that was returned is gone for the guard objects, whatever is called on them afterwards: it
-- is marked bad no more, and no guard gives its session. At any moment, leaving a guard object that
-- holds a lease returns it, and `acquire_fresh` marks it bad once more and returns it; from then on
-- that object raises a `RuntimeError`. `mark_bad` marks the lease once more and leaves it in the slot.
-- An object that holds nothing raises a `RuntimeError` and changes nothing when it is left or marked
-- or starts `acquire_fresh`. The same holds of a blocking pool and its guards, after any calls, where
-- `acquire_fresh` also acquires.
pub leases_settle :
    (l : Lease) (es fs : List PoolEvent) (cs ds : List Call) (i : ℕ)
    → IsSettled l
        (pool_steps new_pool es)
        (pool_steps (pool_steps new_pool es) fs)
        (session (pool_steps (pool_steps new_pool es) fs) i)
      × PoolDoes (pool_steps new_pool es) i fs
      × IsSettled l
          (call_steps new_pool cs)
          (call_steps (call_steps new_pool cs) ds)
          (enter (call_steps (call_steps new_pool cs) ds) i)
      × BlockingDoes (call_steps new_pool cs) i ds
leases_settle l es fs cs ds i =
    let first = call_steps-events_of new_pool cs in
    let later = call_steps-events_of (pool_steps new_pool (events_of cs)) ds in
    let blocking : IsSettled l (call_steps new_pool cs) (call_steps (call_steps new_pool cs) ds)
        (enter (call_steps (call_steps new_pool cs) ds) i) =
      rw (enter-session (call_steps (call_steps new_pool cs) ds) i, first, later)
        (steps-IsSettled l (events_of cs) (events_of ds) i) in
    let a = pool_steps-Accounts new_pool es new_pool-Accounts in
    let b : Accounts (call_steps new_pool cs) =
      rw first (pool_steps-Accounts new_pool (events_of cs) new_pool-Accounts) in
    (
      steps-IsSettled l es fs i,
      steps-PoolDoes (pool_steps new_pool es) i fs a,
      blocking,
      steps-BlockingDoes (call_steps new_pool cs) i ds b,
    )
