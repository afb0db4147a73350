-- ===== src/SessionPool/Released.antt =====
-- What becomes of a lease of src/session_pool.rs that was returned.
use lkrequest_py.Prelude.{
  ◌+◌, ◌⊎◌, ℕ, ◌<◌, ◌≤◌, ◌≡◌, ◌≢◌, refl, List, [], ◌∷◌, some, ltb, ◌==◌, arith, inl, inr,
  Option-cases, Bool-cases, ap, ok_inj, subst, sym, ok, PyResult, ◌∙◌,
}
use lkrequest_py.SessionPool.{
  Lease, PoolState, new_pool, guard_of, acquired, drop_guard, mark_bad, release_bad, aexit, session,
  PoolEvent, acquires, releases_bad, marks_bad, exits, reads_session, pool_step, pool_steps,
}
use lkrequest_py.SessionPool.Leases.{
  leases_conserved, one_if, held, times, times-snoc, held-set, Accounts, guard_of-get,
  drop_guard-none, drop_guard-some, mark_bad-none, mark_bad-some, pool_step-Accounts,
  pool_steps-Accounts, new_pool-Accounts,
}

module _ (l : Lease) where
  other :
      (s : PoolState) (i : ℕ) {g : Lease}
      → held l s.guards ≡ 0
      → guard_of s i ≡ some g
      → one_if (g == l) ≡ 0
  other s i h p = let k = held-set l s.guards i (guard_of-get s i p) in omega (arith, h, k)

  mark_bad-times :
      (i : ℕ) (s : PoolState) → held l s.guards ≡ 0 → times l (mark_bad i s).bad ≡ times l s.bad
  mark_bad-times i s h = elim (Option-cases (guard_of s i)) [
    | inl n ↦ subst (λ t. times l t.bad ≡ times l s.bad) (sym (mark_bad-none i s n)) refl
    | inr (g, p) ↦
        subst (λ t. times l t.bad ≡ times l s.bad) (sym (mark_bad-some i s p))
          (let f = times-snoc l s.bad g in let o = other s i h p in omega (arith, f, o))
  ]

  drop_guard-bad : (i : ℕ) (s : PoolState) → times l (drop_guard i s).bad ≡ times l s.bad
  drop_guard-bad i s = elim (Option-cases (guard_of s i)) [
    | inl n ↦ subst (λ t. times l t.bad ≡ times l s.bad) (sym (drop_guard-none i s n)) refl
    | inr (g, p) ↦ subst (λ t. times l t.bad ≡ times l s.bad) (sym (drop_guard-some i s p)) refl
  ]

  drop_guard-returned :
      (i : ℕ) (s : PoolState) → times l s.returned ≤ times l (drop_guard i s).returned
  drop_guard-returned i s = elim (Option-cases (guard_of s i)) [
    | inl n ↦
        subst (λ t. times l s.returned ≤ times l t.returned) (sym (drop_guard-none i s n))
          (omega arith)
    | inr (g, p) ↦
        subst (λ t. times l s.returned ≤ times l t.returned) (sym (drop_guard-some i s p))
          (let f = times-snoc l s.returned g in omega (arith, f))
  ]

  mark_bad-returned : (i : ℕ) (s : PoolState) → times l s.returned ≤ times l (mark_bad i s).returned
  mark_bad-returned i s = elim (Option-cases (guard_of s i)) [
    | inl n ↦
        subst (λ t. times l s.returned ≤ times l t.returned) (sym (mark_bad-none i s n))
          (omega arith)
    | inr (g, p) ↦
        subst (λ t. times l s.returned ≤ times l t.returned) (sym (mark_bad-some i s p))
          (omega arith)
  ]

  pool_step-returned :
      (s : PoolState) (e : PoolEvent) → times l s.returned ≤ times l (pool_step s e).returned
  unfolding pool_step release_bad aexit acquired
  pool_step-returned s acquires = omega arith
  pool_step-returned s (releases_bad i) =
      let a = mark_bad-returned i s in
      let b = drop_guard-returned i (mark_bad i s) in omega (arith, a, b)
  pool_step-returned s (marks_bad i) = mark_bad-returned i s
  pool_step-returned s (exits i) = drop_guard-returned i s
  pool_step-returned s (reads_session i) = omega arith

  pool_step-bad :
      (s : PoolState) (e : PoolEvent)
      → held l s.guards ≡ 0
      → times l (pool_step s e).bad ≡ times l s.bad
  unfolding pool_step release_bad aexit acquired
  pool_step-bad s acquires h = refl
  pool_step-bad s (releases_bad i) h = drop_guard-bad i (mark_bad i s) ∙ mark_bad-times i s h
  pool_step-bad s (marks_bad i) h = mark_bad-times i s h
  pool_step-bad s (exits i) h = drop_guard-bad i s
  pool_step-bad s (reads_session i) h = refl

  -- A returned lease is held by no guard.
  returned-held : (s : PoolState) → Accounts s → 0 < times l s.returned → held l s.guards ≡ 0
  returned-held s a p =
      let e = a l in
      elim (Bool-cases (ltb l s.next)) [
        | inl q ↦ let f = (rw q at e) in omega (arith, f, p)
        | inr q ↦ let f = (rw q at e) in omega (arith, f, p)
      ]

  pub stays :
      (s : PoolState) (fs : List PoolEvent)
      → Accounts s
      → 0 < times l s.returned
      → (times l (pool_steps s fs).bad ≡ times l s.bad) × (held l (pool_steps s fs).guards ≡ 0)
  unfolding pool_steps
  stays s [] a p = (refl, returned-held s a p)
  stays s (e ∷ fs) a p =
      let q = pool_step-returned s e in
      let (b, h) = stays (pool_step s e) fs (pool_step-Accounts s e a) (omega (arith, p, q)) in
      (b ∙ pool_step-bad s e (returned-held s a p), h)

session-held : (s : PoolState) (i : ℕ) {l : Lease} → session s i ≡ ok l → guard_of s i ≡ some l
unfolding session
session-held s i e = elim (Option-cases (guard_of s i)) [
  | inl n ↦ cc
  | inr (g, p) ↦ p ∙ ap some (ok_inj (rw (p, session) at e))
]

pub one_if-same : (l : Lease) → one_if (l == l) ≡ 1
one_if-same l = ground arith

returned_for_good :
    (l : Lease) (es fs : List PoolEvent) (i : ℕ)
    → 0 < times l (pool_steps new_pool es).returned
    → (times l (pool_steps (pool_steps new_pool es) fs).bad ≡ times l (pool_steps new_pool es).bad)
      × (session (pool_steps (pool_steps new_pool es) fs) i ≢ ok l)
returned_for_good l es fs i p =
    let s = pool_steps new_pool es in
    let (b, h) = stays l s fs (pool_steps-Accounts new_pool es new_pool-Accounts) p in
    (
      b,
      λ e.
          let o = other l (pool_steps s fs) i h (session-held (pool_steps s fs) i e) in
          let q = one_if-same l in omega (arith, o, q),
    )

-- A lease at a moment and at a later one, where a guard object is asked for its session.
abbrev pub IsSettled : Lease → PoolState → PoolState → PyResult Lease → Type 0
IsSettled l s t answer =
    (held l s.guards + times l s.returned ≡ one_if (ltb l s.next))
    × ((times l s.returned ≡ 0) ⊎ ((times l t.bad ≡ times l s.bad) × (answer ≢ ok l)))

pub steps-IsSettled :
    (l : Lease) (es fs : List PoolEvent) (i : ℕ)
    → IsSettled l
        (pool_steps new_pool es)
        (pool_steps (pool_steps new_pool es) fs)
        (session (pool_steps (pool_steps new_pool es) fs) i)
steps-IsSettled l es fs i = (leases_conserved es l, settled)
  where
    settled :
        (times l (pool_steps new_pool es).returned ≡ 0)
        ⊎ ((times l (pool_steps (pool_steps new_pool es) fs).bad
              ≡ times l (pool_steps new_pool es).bad)
            × (session (pool_steps (pool_steps new_pool es) fs) i ≢ ok l))
    settled = elim (Bool-cases (ltb 0 (times l (pool_steps new_pool es).returned))) [
      | inl p ↦ inr (returned_for_good l es fs i (ground arith))
      | inr n ↦ inl (ground arith)
    ]
