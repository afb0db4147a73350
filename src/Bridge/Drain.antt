-- ===== src/Bridge/Drain.antt =====
-- `drain` of src/bridge.rs, and what a `True` from `drain_pending()` means.
use lkrequest_py.Prelude.{
  ℕ, zero, suc, ◌+◌, ◌%◌, ◌<◌, ◌≤◌, ◌≡◌, refl, sym, ap, ◌∙◌, Bool, true, false, List, [], ◌∷◌, some,
  arith, ◌==◌, if◌then◌else◌, Bool-cases, inl, inr, length, get_elem?, map, All, All-get_elem?,
}
use lkrequest_py.Bridge.{
  usize_mod, Stage, running, completed, skipped, Crossing, Bridge, initial, release, Event, run,
}
use lkrequest_py.Bridge.Guards.{
  bit, guards, held, CrossingFits, occurs, queued_once, is_queued, Inv, initial-Inv, run-Inv,
  release-count, release-queue, release-crossings,
}
use lkrequest_py.Bridge.Final.{Extends, run-Extends, run_final}

-- A skipped crossing's guard sits in a proxy that only waits for a deferred decref.
abbrev is_stranded : Stage → Bool
is_stranded skipped = true
is_stranded _ = false

abbrev stranded : Crossing → ℕ
stranded c = if is_stranded c.stage then bit c.parked else 0

abbrev freed : Crossing → Crossing
freed c = if is_stranded c.stage then record c { parked = false } else c

free_stranded : List Crossing → Bridge → Bridge
free_stranded [] w = w
free_stranded (c ∷ cs) w =
    release (if is_stranded c.stage then c.parked else false) (free_stranded cs w)

-- `Python::with_gil(|_| ())`: taking the GIL runs the deferred decrefs, so every stranded proxy is
-- freed and its guard dropped.
pub tap_gil : Bridge → Bridge
unfolding free_stranded
tap_gil w = free_stranded w.crossings (record w { crossings = map freed w.crossings })

-- What happens until `notified` or its 100 ms timeout fires.
pub record Round : Type 0 where
  pub events : List Event
  pub timed_out : Bool

abbrev pub after_round : Round → Bridge → Bridge
after_round r w = if r.timed_out then tap_gil (run w r.events) else run w r.events

-- `drain`: the rounds that fit before `timeout` elapses. The count is read before each wait; when
-- the rounds are used up the outer timeout fires at the next wait.
unfoldable pub drain : List Round → Bridge → Bool × Bridge
drain [] w = (w.count == 0, w)
drain (r ∷ rs) w = let rest = drain rs (after_round r w) in if w.count == 0 then (true, w) else rest

guards-freed :
    (c : Crossing)
    → guards c ≡ guards (freed c) + bit (if is_stranded c.stage then c.parked else false)
guards-freed c = ground arith

free_stranded-count :
    (cs : List Crossing) (w : Bridge) (h : ℕ)
    → w.count ≡ (h + held cs) % usize_mod
    → (free_stranded cs w).count ≡ (h + held (map freed cs)) % usize_mod
unfolding free_stranded
free_stranded-count [] w h e = e
free_stranded-count (c ∷ cs) w h e =
    release-count (if is_stranded c.stage then c.parked else false) (free_stranded cs w)
      (h + held (map freed (c ∷ cs)))
      (free_stranded-count cs w (h + guards c) (e ∙ ap (λ (n : ℕ). n % usize_mod) regroup)
        ∙ ap (λ (n : ℕ). n % usize_mod) shift)
  where
    regroup : h + held (c ∷ cs) ≡ h + guards c + held cs
    regroup = omega arith

    shift :
        h + guards c + held (map freed cs)
        ≡ h + held (map freed (c ∷ cs)) + bit (if is_stranded c.stage then c.parked else false)
    shift = omega (arith, guards-freed c)

free_stranded-queue : (cs : List Crossing) (w : Bridge) → (free_stranded cs w).queue ≡ w.queue
unfolding free_stranded
free_stranded-queue [] w = refl
free_stranded-queue (c ∷ cs) w =
    release-queue (if is_stranded c.stage then c.parked else false) (free_stranded cs w)
    ∙ free_stranded-queue cs w

free_stranded-crossings :
    (cs : List Crossing) (w : Bridge) → (free_stranded cs w).crossings ≡ w.crossings
unfolding free_stranded
free_stranded-crossings [] w = refl
free_stranded-crossings (c ∷ cs) w =
    release-crossings (if is_stranded c.stage then c.parked else false) (free_stranded cs w)
    ∙ free_stranded-crossings cs w

freed-Fits : (c : Crossing) → CrossingFits c → CrossingFits (freed c)
freed-Fits c f = ground arith

All-freed : (cs : List Crossing) → All CrossingFits cs → All CrossingFits (map freed cs)
All-freed [] f = tt
All-freed (c ∷ cs) f = (freed-Fits c f.0, All-freed cs f.1)

queued_once-freed :
    (cs : List Crossing) (i : ℕ)
    → queued_once (get_elem? (map freed cs) i) ≡ queued_once (get_elem? cs i)
queued_once-freed [] i = refl
queued_once-freed (c ∷ cs) zero = ground arith
queued_once-freed (c ∷ cs) (suc i) = queued_once-freed cs i

tap_gil-Inv : (w : Bridge) → Inv w → Inv (tap_gil w)
unfolding tap_gil
tap_gil-Inv w v = record {
  counted = rw (free_stranded-crossings w.crossings after) (
      free_stranded-count w.crossings after 0
        (v.counted ∙ ap (λ (n : ℕ). n % usize_mod) (omega arith))
      ∙ ap (λ (n : ℕ). n % usize_mod) (omega arith));
  fits = rw (free_stranded-crossings w.crossings after) (All-freed w.crossings v.fits);
  once = λ i.
      rw (free_stranded-crossings w.crossings after, free_stranded-queue w.crossings after)
        (v.once i ∙ sym (queued_once-freed w.crossings i));
}
  where
    after : Bridge
    after = record w { crossings = map freed w.crossings }

after_round-Inv : (r : Round) (w : Bridge) → Inv w → Inv (after_round r w)
after_round-Inv r w v = elim (Bool-cases r.timed_out) [
  | inl e ↦ rw e (tap_gil-Inv (run w r.events) (run-Inv w r.events v))
  | inr e ↦ rw e (run-Inv w r.events v)
]

-- A drain that answers `true` saw the count at zero, in a bridge that keeps the invariant.
pub drain_ends :
    (rs : List Round) (w : Bridge)
    → Inv w
    → (drain rs w).0 ≡ true
    → Inv (drain rs w).1 × ((drain rs w).1.count ≡ 0)
unfolding drain
drain_ends [] w v e = (v, ground arith)
drain_ends (r ∷ rs) w v e = elim (Bool-cases (w.count == 0)) [
  | inl idle ↦ rw idle (v, ground arith)
  | inr busy ↦ rw busy (drain_ends rs (after_round r w) (after_round-Inv r w v) (rw busy at e))
]

held-le-length : (cs : List Crossing) → All CrossingFits cs → held cs ≤ length cs
held-le-length [] f = omega arith
held-le-length (c ∷ cs) f = omega (arith, held-le-length cs f.1, guards-le-one c f.0)
  where
    guards-le-one : (c : Crossing) → CrossingFits c → guards c ≤ 1
    guards-le-one c f = ground arith

guards-le-held :
    (cs : List Crossing) (i : ℕ) {c : Crossing} → get_elem? cs i ≡ some c → guards c ≤ held cs
guards-le-held [] i e = cc
guards-le-held (x ∷ cs) zero e = ground arith
guards-le-held (x ∷ cs) (suc i) e = omega (arith, guards-le-held cs i e)

-- With fewer than 2 ^ 64 crossings the count cannot have wrapped to zero.
pub unguarded :
    (w : Bridge) (i : ℕ) {c : Crossing}
    → Inv w
    → length w.crossings < usize_mod
    → w.count ≡ 0
    → get_elem? w.crossings i ≡ some c
    → guards c ≡ 0
unguarded w i v few zero_count here =
    omega (arith, v.counted, held-le-length w.crossings v.fits, guards-le-held w.crossings i here)

abbrev pub has_ended : Stage → Bool
has_ended running = false
has_ended completed = false
has_ended _ = true

held-freed :
    (cs : List Crossing)
    → All CrossingFits cs
    → All (λ c. has_ended c.stage ≡ true) cs
    → held (map freed cs) ≡ 0
held-freed [] f h = refl
held-freed (c ∷ cs) f h = omega (arith, held-freed cs f.1 h.1, guards-freed_ended c f.0 h.0)
  where
    guards-freed_ended :
        (c : Crossing) → CrossingFits c → has_ended c.stage ≡ true → guards (freed c) ≡ 0
    guards-freed_ended c f h = ground arith

tap_gil-count :
    (w : Bridge) → Inv w → All (λ c. has_ended c.stage ≡ true) w.crossings → (tap_gil w).count ≡ 0
unfolding tap_gil
tap_gil-count w v ended = omega (
  arith,
  free_stranded-count w.crossings (record w { crossings = map freed w.crossings }) 0
      (v.counted ∙ ap (λ (n : ℕ). n % usize_mod) (omega arith)),
  held-freed w.crossings v.fits ended,
)

drain_idle : (rs : List Round) (w : Bridge) → w.count ≡ 0 → (drain rs w).0 ≡ true
unfolding drain
drain_idle [] w e = rw e
drain_idle (r ∷ rs) w e = rw e

-- A guard stranded in a proxy holds a drain up for one 100 ms round at most: if every crossing has
-- ended when a round of waiting times out, the drain answers `true`, whatever the round began with.
pub drain-tap_gil :
    (r : Round) (rs : List Round) (w : Bridge)
    → Inv w
    → r.timed_out ≡ true
    → All (λ c. has_ended c.stage ≡ true) (run w r.events).crossings
    → (drain (r ∷ rs) w).0 ≡ true
unfolding drain
drain-tap_gil r rs w v late ended = elim (Bool-cases (w.count == 0)) [
  | inl idle ↦ rw idle
  | inr busy ↦
      rw (busy, late)
        (drain_idle rs (tap_gil (run w r.events))
          (tap_gil-count (run w r.events) (run-Inv w r.events v) ended))
]

ended-of-unguarded : (c : Crossing) → CrossingFits c → guards c ≡ 0 → has_ended c.stage ≡ true
ended-of-unguarded c f g = ground arith

-- The state of crossing `i` of `u` once `u` has become `t`: it has ended, its callback is in the
-- queue of `u` exactly once if its result was forwarded and not at all otherwise, it is the same
-- in `t`, and the queue of `t` only has entries behind those of `u`.
pub record IsDelivered (u t : Bridge) (i : ℕ) (c : Crossing) : Type 0 where
  pub ended : has_ended c.stage ≡ true
  pub enqueued : occurs i u.queue ≡ bit (is_queued c.stage)
  pub kept : get_elem? t.crossings i ≡ some c
  pub later : Extends u.queue t.queue

-- `drain_pending() == True` is a delivery guarantee. When a drain that began in a bridge reached
-- from the initial one by any events answers `true`, with fewer than 2 ^ 64 crossings submitted by
-- then, each of these crossings has ended, with its callback in the loop's queue exactly once if
-- its result was forwarded and not at all otherwise; whatever events follow, its state stays as it
-- is and the loop's queue only gets entries behind those that it has.
pub drain_delivers :
    (before : List Event) (rs : List Round) (after : List Event) (i : ℕ) (c : Crossing)
    → (drain rs (run initial before)).0 ≡ true
    → length (drain rs (run initial before)).1.crossings < usize_mod
    → get_elem? (drain rs (run initial before)).1.crossings i ≡ some c
    → IsDelivered
        (drain rs (run initial before)).1
        (run (drain rs (run initial before)).1 after)
        i
        c
drain_delivers before rs after i c answered few here =
    let u = (drain rs (run initial before)).1 in
    let (v, idle) =
      drain_ends rs (run initial before) (run-Inv initial before initial-Inv) answered in
    let f = All-get_elem? CrossingFits u.crossings i v.fits here in
    let g = unguarded u i v few idle here in
    record {
      ended = ended-of-unguarded c f g;
      enqueued = v.once i ∙ ap queued_once here;
      kept = run_final u after i c f g here;
      later = run-Extends u after;
    }
