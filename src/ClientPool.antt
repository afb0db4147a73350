-- ===== src/ClientPool.antt =====
-- src/client_pool.rs: the rotation over several clients.
use lkrequest_py.Prelude.{
  ℕ, ◌+◌, ◌%◌, ◌^◌, ◌<>◌, String, str_eq, Bool, true, false, List, [], ◌∷◌, ◌++◌, Option, none,
  some, if◌then◌else◌, length, get_elem?, value_error, runtime_error, panic, PyResult, ok, err,
  new_err,
}
mod Tests
pub mod Rotation

-- A `lkrequest::Client`, by its identity.
abbrev pub Client : Type 0
Client = ℕ

pub data RotationStrategy : Type 0 where
  round_robin random : RotationStrategy

-- `ClientPoolInner`, and whether its lock is poisoned.
pub record Pool : Type 0 where
  pub clients : List Client
  pub index : ℕ
  pub strategy : RotationStrategy
  pub poisoned : Bool

abbrev strategy_of : String → PyResult RotationStrategy
strategy_of rotation =
    if str_eq rotation "round_robin"
    then ok round_robin
    else if str_eq rotation "random"
    then ok random
    else new_err value_error
        ("Unknown rotation strategy: '" <> (rotation <> "'. Use: round_robin, random"))

abbrev of_strategy : List Client → PyResult RotationStrategy → PyResult Pool
of_strategy clients (err e) = err e
of_strategy clients (ok strategy) =
    ok (record { clients = clients; index = 0; strategy = strategy; poisoned = false })

pub new : List Client → String → PyResult Pool
new [] rotation = new_err value_error "ClientPool requires at least one client"
new (c ∷ cs) rotation = of_strategy (c ∷ cs) (strategy_of rotation)

abbrev lock_poisoned {ℓ} : {A : Type ℓ} → PyResult A
lock_poisoned = new_err runtime_error "Lock poisoned"

abbrev take_at : List Client → ℕ → PyResult Client
take_at clients i = elim (get_elem? clients i) [
  | some c ↦ ok c
  | none ↦ new_err panic "index out of bounds"
]

-- `acquire`, with the number that the hasher gives; `index` is a `usize` of 64 bits. A remainder by
-- zero would panic.
pub acquire : ℕ → Pool → PyResult Client × Pool
acquire hash p = if p.poisoned then (lock_poisoned, p) else elim p.clients [
  | [] ↦ (new_err panic "attempt to calculate the remainder with a divisor of zero", p)
  | c ∷ cs ↦ elim p.strategy [
    | round_robin ↦ (
      take_at p.clients (p.index % length p.clients),
      record p { index = (p.index + 1) % 2 ^ 64 },
    )
    | random ↦ (take_at p.clients (hash % length p.clients), p)
  ]
]

pub add : Client → Pool → PyResult (Unit {0}) × Pool
add c p =
    if p.poisoned then (lock_poisoned, p) else (ok tt, record p { clients = p.clients ++ c ∷ [] })

pub len : Pool → PyResult ℕ
len p = if p.poisoned then lock_poisoned else ok (length p.clients)
