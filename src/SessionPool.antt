-- ===== src/SessionPool.antt =====
-- src/session_pool.rs: the guards that hold leases of the library's pool. The pool itself is the
-- library's; its leases are numbered in the order in which it gives them.
mod Tests
pub mod Leases
pub mod Released
pub mod Effects
pub mod Settled
pub mod Blocking
use lkrequest_py.Prelude.{
  ℕ, suc, String, List, [], ◌∷◌, ◌++◌, Option, none, some, runtime_error, PyResult, ok, err,
  new_err, get_elem?, set,
}

-- A `lkrequest::SessionGuard`.
abbrev pub Lease : Type 0
Lease = ℕ

-- The slots of the guard objects, by their creation; the number of the lease that the pool gives next;
-- the leases that were marked bad and those that were dropped, which returns them to the pool.
pub record PoolState : Type 0 where
  pub guards : List (Option Lease)
  pub next : Lease
  pub bad : List Lease
  pub returned : List Lease

abbrev pub new_pool : PoolState
new_pool = record { guards = []; next = 0; bad = []; returned = [] }

abbrev join : Option (Option Lease) → Option Lease
join none = none
join (some lease) = lease

-- What the slot of a guard object holds.
abbrev pub guard_of : PoolState → ℕ → Option Lease
guard_of s i = join (get_elem? s.guards i)

-- `pool.acquire().await` gave a lease, and a guard object is made for it.
pub acquired : PoolState → PoolState
acquired s = record s { guards = s.guards ++ some s.next ∷ []; next = suc s.next }

-- `*lock = None`: a lease in the slot is dropped.
pub drop_guard : ℕ → PoolState → PoolState
drop_guard i s = elim (guard_of s i) [
  | none ↦ s
  | some g ↦ record s { guards = set s.guards i none; returned = s.returned ++ g ∷ [] }
]

pub mark_bad : ℕ → PoolState → PoolState
mark_bad i s = elim (guard_of s i) [ none ↦ s | some g ↦ record s { bad = s.bad ++ g ∷ [] } ]

-- `acquire_fresh` up to its await, under the lock of the old guard. `acquired` is the rest.
pub release_bad : ℕ → PoolState → PoolState
release_bad i s = drop_guard i (mark_bad i s)

pub aexit : ℕ → PoolState → PoolState
aexit i s = drop_guard i s

-- `session` and `__aenter__`: a view of the lease's session.
pub session : PoolState → ℕ → PyResult Lease
session s i = elim (guard_of s i) [
  | none ↦ new_err runtime_error "SessionGuard already released"
  | some g ↦ ok g
]

-- One locked piece of a method, in the order in which the lock is taken.
pub data PoolEvent : Type 0 where
  acquires : PoolEvent
  releases_bad marks_bad exits reads_session : ℕ → PoolEvent

pub pool_step : PoolState → PoolEvent → PoolState
pool_step s acquires = acquired s
pool_step s (releases_bad i) = release_bad i s
pool_step s (marks_bad i) = mark_bad i s
pool_step s (exits i) = aexit i s
pool_step s (reads_session i) = s

pub pool_steps : PoolState → List PoolEvent → PoolState
pool_steps s [] = s
pool_steps s (e ∷ es) = pool_steps (pool_step s e) es
