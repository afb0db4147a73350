-- ===== src/SessionPool/Leases.antt =====
-- Where the leases of src/session_pool.rs are.
use lkrequest_py.Prelude.{
  ℕ, zero, suc, ◌+◌, ◌≡◌, refl, List, [], ◌∷◌, ◌++◌, Option, none, some, get_elem?, set, ltb, ◌==◌,
  if◌then◌else◌, arith, inl, inr, Option-cases, Bool, subst, sym,
}
use lkrequest_py.SessionPool.{
  Lease, PoolState, new_pool, guard_of, acquired, drop_guard, mark_bad, release_bad, aexit,
  PoolEvent, acquires, releases_bad, marks_bad, exits, reads_session, pool_step, pool_steps,
}

abbrev pub one_if : Bool → ℕ
one_if b = if b then 1 else 0

-- How many slots hold a lease, and how often it stands in a list of leases.
abbrev pub held : Lease → List (Option Lease) → ℕ
held l [] = 0
held l (none ∷ gs) = held l gs
held l (some g ∷ gs) = one_if (g == l) + held l gs

abbrev pub times : Lease → List Lease → ℕ
times l [] = 0
times l (g ∷ gs) = one_if (g == l) + times l gs

held-snoc :
    (l : Lease) (gs : List (Option Lease)) (g : Lease)
    → held l (gs ++ some g ∷ []) ≡ held l gs + one_if (g == l)
held-snoc l [] g = omega arith
held-snoc l (none ∷ gs) g = held-snoc l gs g
held-snoc l (some h ∷ gs) g = let ih = held-snoc l gs g in omega (arith, ih)

pub times-snoc :
    (l : Lease) (gs : List Lease) (g : Lease)
    → times l (gs ++ g ∷ []) ≡ times l gs + one_if (g == l)
times-snoc l [] g = omega arith
times-snoc l (h ∷ gs) g = let ih = times-snoc l gs g in omega (arith, ih)

same_lease : {g h : Lease} → some (some g) ≡ some (some h) → g ≡ h
same_lease e = cc

pub held-set :
    (l : Lease) (gs : List (Option Lease)) (i : ℕ) {g : Lease}
    → get_elem? gs i ≡ some (some g)
    → held l (set gs i none) + one_if (g == l) ≡ held l gs
held-set l [] i e = cc
held-set l (none ∷ gs) zero e = cc
held-set l (some h ∷ gs) zero {g} e =
    subst (λ x. held l gs + one_if (x == l) ≡ one_if (h == l) + held l gs) (same_lease e)
      (omega arith)
held-set l (none ∷ gs) (suc i) e = held-set l gs i e
held-set l (some h ∷ gs) (suc i) e = let ih = held-set l gs i e in omega (arith, ih)

-- Every lease given so far is held once or was returned once, and no other is anywhere.
abbrev pub Accounts : PoolState → Type 0
Accounts s = (l : Lease) → held l s.guards + times l s.returned ≡ one_if (ltb l s.next)

given-suc : (l n : Lease) → one_if (ltb l (suc n)) ≡ one_if (ltb l n) + one_if (n == l)
given-suc l n = ground arith

acquired-Accounts : (s : PoolState) → Accounts s → Accounts (acquired s)
unfolding acquired
acquired-Accounts s h l =
    let e = h l in
    let f = held-snoc l s.guards s.next in let g = given-suc l s.next in omega (arith, e, f, g)

pub guard_of-get :
    (s : PoolState) (i : ℕ) {g : Lease}
    → guard_of s i ≡ some g
    → get_elem? s.guards i ≡ some (some g)
guard_of-get s i e = elim (Option-cases (get_elem? s.guards i)) [
  | inl n ↦ cc
  | inr (none, p) ↦ cc
  | inr (some x, p) ↦ cc
]

pub drop_guard-none : (i : ℕ) (s : PoolState) → guard_of s i ≡ none → drop_guard i s ≡ s
unfolding drop_guard
drop_guard-none i s p = rw (p, drop_guard) refl

pub drop_guard-some :
    (i : ℕ) (s : PoolState) {g : Lease}
    → guard_of s i ≡ some g
    → drop_guard i s ≡ record s { guards = set s.guards i none; returned = s.returned ++ g ∷ [] }
unfolding drop_guard
drop_guard-some i s p = rw (p, drop_guard) refl

pub mark_bad-none : (i : ℕ) (s : PoolState) → guard_of s i ≡ none → mark_bad i s ≡ s
unfolding mark_bad
mark_bad-none i s p = rw (p, mark_bad) refl

pub mark_bad-some :
    (i : ℕ) (s : PoolState) {g : Lease}
    → guard_of s i ≡ some g
    → mark_bad i s ≡ record s { bad = s.bad ++ g ∷ [] }
unfolding mark_bad
mark_bad-some i s p = rw (p, mark_bad) refl

pub drop_guard-Accounts : (i : ℕ) (s : PoolState) → Accounts s → Accounts (drop_guard i s)
drop_guard-Accounts i s h = elim (Option-cases (guard_of s i)) [
  | inl n ↦ subst Accounts (sym (drop_guard-none i s n)) h
  | inr (g, p) ↦ subst Accounts (sym (drop_guard-some i s p)) (λ l.
      let e = h l in
      let f = times-snoc l s.returned g in
      let k = held-set l s.guards i (guard_of-get s i p) in omega (arith, e, f, k))
]

pub mark_bad-Accounts : (i : ℕ) (s : PoolState) → Accounts s → Accounts (mark_bad i s)
mark_bad-Accounts i s h = elim (Option-cases (guard_of s i)) [
  | inl n ↦ subst Accounts (sym (mark_bad-none i s n)) h
  | inr (g, p) ↦ subst Accounts (sym (mark_bad-some i s p)) h
]

pub pool_step-Accounts : (s : PoolState) (e : PoolEvent) → Accounts s → Accounts (pool_step s e)
unfolding pool_step release_bad aexit
pool_step-Accounts s acquires h = acquired-Accounts s h
pool_step-Accounts s (releases_bad i) h =
    drop_guard-Accounts i (mark_bad i s) (mark_bad-Accounts i s h)
pool_step-Accounts s (marks_bad i) h = mark_bad-Accounts i s h
pool_step-Accounts s (exits i) h = drop_guard-Accounts i s h
pool_step-Accounts s (reads_session i) h = h

pub pool_steps-Accounts :
    (s : PoolState) (es : List PoolEvent) → Accounts s → Accounts (pool_steps s es)
unfolding pool_steps
pool_steps-Accounts s [] h = h
pool_steps-Accounts s (e ∷ es) h = pool_steps-Accounts (pool_step s e) es (pool_step-Accounts s e h)

pub new_pool-Accounts : Accounts new_pool
new_pool-Accounts l = ground arith

pub leases_conserved :
    (es : List PoolEvent) (l : Lease)
    → held l (pool_steps new_pool es).guards + times l (pool_steps new_pool es).returned
      ≡ one_if (ltb l (pool_steps new_pool es).next)
leases_conserved es l = pool_steps-Accounts new_pool es new_pool-Accounts l
