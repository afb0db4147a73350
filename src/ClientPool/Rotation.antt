-- ===== src/ClientPool/Rotation.antt =====
-- The rotation of src/client_pool.rs over a history of calls.
use lkrequest_py.Prelude.{
  ℕ, zero, suc, ◌+◌, ◌%◌, ◌^◌, ◌<◌, ◌≤◌, ◌≡◌, ◌≢◌, refl, sym, ap, String, true, false, List, [],
  ◌∷◌, some, arith, length, get_elem?, length-append, get_elem?-lt, All, PyResult, ok, err, ok_inj,
  panic, Bool-cases, inl, inr, subst, new_err, runtime_error,
}
use native.Mathlib.Nat.{mod-lt}
use lkrequest_py.ClientPool.{
  Client, RotationStrategy, round_robin, random, Pool, strategy_of, of_strategy, new, acquire, add,
  len,
}

pub data Op : Type 0 where
  acquires : ℕ → Op
  adds : Client → Op
  asks_len : Op

abbrev without_value {ℓ} : {A : Type ℓ} → PyResult A → PyResult (Unit {0})
without_value (ok a) = ok tt
without_value (err e) = err e

pub exec : Op → Pool → PyResult (Unit {0}) × Pool
exec (acquires hash) p = let (r, p') = acquire hash p in (without_value r, p')
exec (adds c) p = add c p
exec asks_len p = (without_value (len p), p)

pub exec_all : List Op → Pool → List (PyResult (Unit {0})) × Pool
exec_all [] p = ([], p)
exec_all (o ∷ os) p = let (r, p') = exec o p in let rest = exec_all os p' in (r ∷ rest.0, rest.1)

abbrev pub NoPanic : PyResult (Unit {0}) → Type 0
NoPanic (ok _) = Unit
NoPanic (err e) = e.kind ≢ panic

get_elem?-of_lt {ℓ} :
    {A : Type ℓ} (xs : List A) (i : ℕ) → i < length xs → (a : A) × (get_elem? xs i ≡ some a)
get_elem?-of_lt [] i h = absurd (omega arith)
get_elem?-of_lt (x ∷ xs) zero h = (x, refl)
get_elem?-of_lt (x ∷ xs) (suc i) h = get_elem?-of_lt xs i (omega arith)

acquire-round_robin :
    (hash : ℕ) (p : Pool) (c : Client)
    → p.poisoned ≡ false
    → p.strategy ≡ round_robin
    → get_elem? p.clients (p.index % length p.clients) ≡ some c
    → acquire hash p ≡ (ok c, record p { index = (p.index + 1) % 2 ^ 64 })
unfolding acquire
acquire-round_robin hash p c u s e = ground arith

acquire-random :
    (hash : ℕ) (p : Pool) (c : Client)
    → p.poisoned ≡ false
    → p.strategy ≡ random
    → get_elem? p.clients (hash % length p.clients) ≡ some c
    → acquire hash p ≡ (ok c, p)
unfolding acquire
acquire-random hash p c u s e = ground arith

acquire-poisoned :
    (hash : ℕ) (p : Pool)
    → p.poisoned ≡ true
    → acquire hash p ≡ (new_err runtime_error "Lock poisoned", p)
unfolding acquire
acquire-poisoned hash p u = ground arith

-- What a call keeps: it does not panic, and the pool is not empty after it.
abbrev Safe : PyResult (Unit {0}) × Pool → Type 0
Safe (r, p) = NoPanic r × (0 < length p.clients)

add-Safe : (c : Client) (p : Pool) → 0 < length p.clients → Safe (add c p)
unfolding add
add-Safe c p h = elim (Bool-cases p.poisoned) [
  | inl u ↦ simp u (λ e. cc, h)
  | inr u ↦ simp u (tt, omega (arith, length-append p.clients (c ∷ [])))
]

len-NoPanic : (p : Pool) → NoPanic (without_value (len p))
unfolding len
len-NoPanic p = elim (Bool-cases p.poisoned) [ inl u ↦ simp u (λ e. cc) | inr u ↦ simp u tt ]

exec-Safe : (o : Op) (p : Pool) → 0 < length p.clients → Safe (exec o p)
unfolding exec
exec-Safe (acquires hash) p h = elim (Bool-cases p.poisoned) [
  | inl u ↦ subst after (sym (acquire-poisoned hash p u)) (λ e. cc, h)
  | inr u ↦ go p.strategy refl u
]
  where
    after : PyResult Client × Pool → Type 0
    after x = Safe (without_value x.0, x.1)

    go : (s : RotationStrategy) → p.strategy ≡ s → p.poisoned ≡ false → after (acquire hash p)
    go round_robin s u =
        let (c, e) = get_elem?-of_lt p.clients (p.index % length p.clients) (mod-lt p.index h) in
        subst after (sym (acquire-round_robin hash p c u s e)) (tt, h)
    go random s u =
        let (c, e) = get_elem?-of_lt p.clients (hash % length p.clients) (mod-lt hash h) in
        subst after (sym (acquire-random hash p c u s e)) (tt, h)
exec-Safe (adds c) p h = add-Safe c p h
exec-Safe asks_len p h = (len-NoPanic p, h)

exec_all-Safe : (os : List Op) (p : Pool) → 0 < length p.clients → All NoPanic (exec_all os p).0
unfolding exec_all
exec_all-Safe [] p h = tt
exec_all-Safe (o ∷ os) p h = let (n, k) = exec-Safe o p h in (n, exec_all-Safe os (exec o p).1 k)

new-nonempty :
    (c : Client) (cs : List Client) (s : PyResult RotationStrategy) {p : Pool}
    → of_strategy (c ∷ cs) s ≡ ok p
    → 0 < length p.clients
new-nonempty c cs (err e) h = cc
new-nonempty c cs (ok s) h = subst (λ (q : Pool). 0 < length q.clients) (ok_inj h) (omega arith)

-- However many times a new pool's methods are called, and whatever numbers the hasher gives, none
-- panics: the remainder is never by zero, and the position always has a client.
pub new-never_panics :
    (clients : List Client) (rotation : String) (p : Pool) (os : List Op)
    → new clients rotation ≡ ok p
    → All NoPanic (exec_all os p).0
unfolding new
new-never_panics [] rotation p os e = cc
new-never_panics (c ∷ cs) rotation p os e =
    exec_all-Safe os p (new-nonempty c cs (strategy_of rotation) e)

-- The clients that so many calls of `acquire` give.
pub acquire_all : List ℕ → Pool → List (PyResult Client)
acquire_all [] p = []
acquire_all (hash ∷ hs) p = let (r, p') = acquire hash p in r ∷ acquire_all hs p'

-- Round robin: as long as the 64-bit counter has not wrapped, call number `k` gives the client at
-- position `index + k` modulo the number of clients, so any run of as many calls as there are
-- clients gives each position once.
pub acquire_all-rotates :
    (hs : List ℕ) (p : Pool) (k : ℕ) (c : Client)
    → p.poisoned ≡ false
    → p.strategy ≡ round_robin
    → p.index + length hs ≤ 2 ^ 64
    → k < length hs
    → get_elem? p.clients ((p.index + k) % length p.clients) ≡ some c
    → get_elem? (acquire_all hs p) k ≡ some (ok c)
unfolding acquire_all
acquire_all-rotates [] p k c u s b h e = absurd (omega arith)
acquire_all-rotates (hash ∷ hs) p zero c u s b h e =
    let here : p.index + 0 ≡ p.index = omega arith in
    ap (λ (x : PyResult Client × Pool). some x.0)
      (acquire-round_robin hash p c u s
        (subst (λ i. get_elem? p.clients (i % length p.clients) ≡ some c) here e))
acquire_all-rotates (hash ∷ hs) p (suc k) c u s b h e =
    let next : Pool = record p { index = (p.index + 1) % 2 ^ 64 } in
    let some_client : 0 < length p.clients =
      omega (arith, get_elem?-lt p.clients ((p.index + suc k) % length p.clients) e) in
    let (d, f) =
      get_elem?-of_lt p.clients (p.index % length p.clients) (mod-lt p.index some_client) in
    let there : p.index + suc k ≡ (p.index + 1) % 2 ^ 64 + k = omega arith in
    subst (λ (x : PyResult Client × Pool). get_elem? (acquire_all hs x.1) k ≡ some (ok c))
      (sym (acquire-round_robin hash p d u s f))
      (acquire_all-rotates hs next k c u s (omega arith) (omega arith)
        (subst (λ i. get_elem? p.clients (i % length p.clients) ≡ some c) there e))
