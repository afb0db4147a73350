-- ===== src/SessionPool/Effects.antt =====
-- What leaving or marking does to the lease of one guard object of src/session_pool.rs.
use lkrequest_py.Prelude.{
  ℕ, zero, suc, ◌<◌, ◌≡◌, refl, ◌∙◌, List, [], ◌∷◌, ◌++◌, Option, none, some, ok, error_kind,
  runtime_error, PyResult, get_elem?, set, arith, Option-cases, Bool-cases, inl, inr, subst, sym,
  ltb,
}
use lkrequest_py.SessionPool.{
  Lease, PoolState, guard_of, acquired, drop_guard, mark_bad, release_bad, aexit, session,
  PoolEvent, acquires, releases_bad, marks_bad, exits, reads_session, pool_step, pool_steps,
}
use lkrequest_py.SessionPool.Leases.{
  times, times-snoc, Accounts, guard_of-get, drop_guard-none, drop_guard-some, mark_bad-none,
  mark_bad-some, drop_guard-Accounts, mark_bad-Accounts,
}
use lkrequest_py.SessionPool.Released.{stays, one_if-same}

-- A guard object that was made and holds nothing.
abbrev IsEmptied : ℕ → PoolState → Type 0
IsEmptied i s = get_elem? s.guards i ≡ some none

set-get_elem? :
    (gs : List (Option Lease)) (i : ℕ) {g : Lease}
    → get_elem? gs i ≡ some (some g)
    → get_elem? (set gs i none) i ≡ some none
set-get_elem? [] i e = cc
set-get_elem? (h ∷ gs) zero e = refl
set-get_elem? (h ∷ gs) (suc i) e = set-get_elem? gs i e

set-emptied :
    (gs : List (Option Lease)) (i j : ℕ)
    → get_elem? gs i ≡ some none
    → get_elem? (set gs j none) i ≡ some none
set-emptied [] i j e = cc
set-emptied (h ∷ gs) zero zero e = refl
set-emptied (h ∷ gs) zero (suc j) e = e
set-emptied (h ∷ gs) (suc i) zero e = e
set-emptied (h ∷ gs) (suc i) (suc j) e = set-emptied gs i j e

append-emptied :
    (gs hs : List (Option Lease)) (i : ℕ)
    → get_elem? gs i ≡ some none
    → get_elem? (gs ++ hs) i ≡ some none
append-emptied [] hs i e = cc
append-emptied (g ∷ gs) hs zero e = e
append-emptied (g ∷ gs) hs (suc i) e = append-emptied gs hs i e

drop_guard-IsEmptied : (i j : ℕ) (s : PoolState) → IsEmptied i s → IsEmptied i (drop_guard j s)
drop_guard-IsEmptied i j s h = elim (Option-cases (guard_of s j)) [
  | inl n ↦ subst (IsEmptied i) (sym (drop_guard-none j s n)) h
  | inr (g, p) ↦ subst (IsEmptied i) (sym (drop_guard-some j s p)) (set-emptied s.guards i j h)
]

mark_bad-IsEmptied : (i j : ℕ) (s : PoolState) → IsEmptied i s → IsEmptied i (mark_bad j s)
mark_bad-IsEmptied i j s h = elim (Option-cases (guard_of s j)) [
  | inl n ↦ subst (IsEmptied i) (sym (mark_bad-none j s n)) h
  | inr (g, p) ↦ subst (IsEmptied i) (sym (mark_bad-some j s p)) h
]

pool_steps-IsEmptied :
    (i : ℕ) (s : PoolState) (es : List PoolEvent) → IsEmptied i s → IsEmptied i (pool_steps s es)
unfolding pool_steps pool_step release_bad aexit acquired
pool_steps-IsEmptied i s [] h = h
pool_steps-IsEmptied i s (acquires ∷ es) h =
    pool_steps-IsEmptied i (acquired s) es (append-emptied s.guards _ i h)
pool_steps-IsEmptied i s (releases_bad j ∷ es) h =
    pool_steps-IsEmptied i (release_bad j s) es
      (drop_guard-IsEmptied i j (mark_bad j s) (mark_bad-IsEmptied i j s h))
pool_steps-IsEmptied i s (marks_bad j ∷ es) h =
    pool_steps-IsEmptied i (mark_bad j s) es (mark_bad-IsEmptied i j s h)
pool_steps-IsEmptied i s (exits j ∷ es) h =
    pool_steps-IsEmptied i (aexit j s) es (drop_guard-IsEmptied i j s h)
pool_steps-IsEmptied i s (reads_session j ∷ es) h = pool_steps-IsEmptied i s es h

pub session-none :
    (s : PoolState) (i : ℕ) → guard_of s i ≡ none → error_kind (session s i) ≡ some runtime_error
unfolding session
session-none s i p = rw (p, session) refl

pub session-some : (s : PoolState) (i : ℕ) {g : Lease} → guard_of s i ≡ some g → session s i ≡ ok g
unfolding session
session-some s i p = rw (p, session) refl

IsEmptied-session :
    (s : PoolState) (i : ℕ) → IsEmptied i s → error_kind (session s i) ≡ some runtime_error
unfolding session
IsEmptied-session s i e = session-none s i (rw e refl)

-- A lease that a guard object gave up: it was returned, once, it is marked `n` times and never again,
-- and the object that held it raises a `RuntimeError`, now and later.
abbrev pub IsLeft : Lease → ℕ → PoolState → PoolState → PyResult Lease → PyResult Lease → Type 0
IsLeft g n now later answer answer_later =
    (times g now.returned ≡ 1)
    × (times g now.bad ≡ n)
    × (times g later.bad ≡ n)
    × (error_kind answer ≡ some runtime_error)
    × (error_kind answer_later ≡ some runtime_error)

returned_once :
    (g : Lease) (s : PoolState) → Accounts s → 0 < times g s.returned → times g s.returned ≡ 1
returned_once g s a p =
    let e = a g in
    elim (Bool-cases (ltb g s.next)) [
      | inl q ↦ let f = (rw q at e) in omega (arith, f, p)
      | inr q ↦ let f = (rw q at e) in omega (arith, f, p)
    ]

pub drop_guard-IsLeft :
    (s : PoolState) (i : ℕ) {g : Lease} (fs : List PoolEvent)
    → Accounts s
    → guard_of s i ≡ some g
    → IsLeft g
        (times g s.bad)
        (drop_guard i s)
        (pool_steps (drop_guard i s) fs)
        (session (drop_guard i s) i)
        (session (pool_steps (drop_guard i s) fs) i)
drop_guard-IsLeft s i {g} fs a p =
    let t = drop_guard i s in
    let q = drop_guard-some i s p in
    let b = drop_guard-Accounts i s a in
    let o = one_if-same g in
    let f = times-snoc g s.returned g in
    let r : 0 < times g t.returned = rw q (omega (arith, f, o)) in
    let e : IsEmptied i t = rw q (set-get_elem? s.guards i (guard_of-get s i p)) in
    let k : times g t.bad ≡ times g s.bad = rw q refl in
    let (kept, h) = stays g t fs b r in
    (
      returned_once g t b r,
      k,
      kept ∙ k,
      IsEmptied-session t i e,
      IsEmptied-session (pool_steps t fs) i (pool_steps-IsEmptied i t fs e),
    )

pub mark_bad-guard_of :
    (s : PoolState) (i j : ℕ) {g : Lease}
    → guard_of s i ≡ some g
    → guard_of (mark_bad j s) i ≡ some g
mark_bad-guard_of s i j {g} p = elim (Option-cases (guard_of s j)) [
  | inl n ↦ subst (λ t. guard_of t i ≡ some g) (sym (mark_bad-none j s n)) p
  | inr (h, q) ↦ subst (λ t. guard_of t i ≡ some g) (sym (mark_bad-some j s q)) p
]

pub mark_bad-times-suc :
    (s : PoolState) (i : ℕ) {g : Lease}
    → guard_of s i ≡ some g
    → times g (mark_bad i s).bad ≡ suc (times g s.bad)
mark_bad-times-suc s i {g} p =
    let f = times-snoc g s.bad g in
    let o = one_if-same g in rw (mark_bad-some i s p) (omega (arith, f, o))

pub release_bad-IsLeft :
    (s : PoolState) (i : ℕ) {g : Lease} (fs : List PoolEvent)
    → Accounts s
    → guard_of s i ≡ some g
    → IsLeft g
        (suc (times g s.bad))
        (release_bad i s)
        (pool_steps (release_bad i s) fs)
        (session (release_bad i s) i)
        (session (pool_steps (release_bad i s) fs) i)
unfolding release_bad
release_bad-IsLeft s i {g} fs a p =
    subst
      (λ n.
        IsLeft g n (drop_guard i (mark_bad i s)) (pool_steps (drop_guard i (mark_bad i s)) fs)
          (session (drop_guard i (mark_bad i s)) i)
          (session (pool_steps (drop_guard i (mark_bad i s)) fs) i))
      (mark_bad-times-suc s i p)
      (drop_guard-IsLeft (mark_bad i s) i fs (mark_bad-Accounts i s a) (mark_bad-guard_of s i i p))
