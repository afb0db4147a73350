-- ===== src/SessionPool/Tests.antt =====
-- Runs of the guards of src/session_pool.rs.
use lkrequest_py.Prelude.{List, [], ◌∷◌}
use lkrequest_py.SessionPool.{
  new_pool, session, PoolEvent, acquires, releases_bad, marks_bad, exits, reads_session, pool_steps,
}
use lkrequest_py.SessionPool.Blocking.{
  Call, acquires_one, acquires_fresh, marks, leaves, call_steps, enter,
}
use lkrequest_py.SessionPool.Released.{IsSettled}
use lkrequest_py.SessionPool.Settled.{PoolDoes, BlockingDoes, leases_settle}

-- The first session turns out bad, a fresh one is taken, and the first guard is left afterwards.
abbrev events : List PoolEvent
events = acquires ∷ releases_bad 0 ∷ acquires ∷ exits 0 ∷ reads_session 1 ∷ []

-- The same with the blocking classes.
abbrev calls : List Call
calls = acquires_one ∷ acquires_fresh 0 ∷ leaves 0 ∷ []

leases_settle_example :
    IsSettled 0
      (pool_steps new_pool events)
      (pool_steps (pool_steps new_pool events) (marks_bad 0 ∷ acquires ∷ []))
      (session (pool_steps (pool_steps new_pool events) (marks_bad 0 ∷ acquires ∷ [])) 1)
    × PoolDoes (pool_steps new_pool events) 1 (marks_bad 0 ∷ acquires ∷ [])
    × IsSettled 0
        (call_steps new_pool calls)
        (call_steps (call_steps new_pool calls) (marks 0 ∷ []))
        (enter (call_steps (call_steps new_pool calls) (marks 0 ∷ [])) 1)
    × BlockingDoes (call_steps new_pool calls) 1 (marks 0 ∷ [])
leases_settle_example = leases_settle 0 events (marks_bad 0 ∷ acquires ∷ []) calls (marks 0 ∷ []) 1
