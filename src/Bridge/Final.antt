-- ===== src/Bridge/Final.antt =====
-- A crossing that has ended and holds no guard is never touched again, and the loop's queue only
-- grows at its end.
use lkrequest_py.Prelude.{
  ℕ, ◌≡◌, refl, sym, ap, subst, ◌∙◌, Bool, true, false, List, [], ◌∷◌, ◌++◌, append_assoc,
  append-nil, some, arith, ◌==◌, Bool-cases, Option-cases, inl, inr, get_elem?, get_elem?-set,
  get_elem?-snoc, get_elem?-lt, set,
}
use lkrequest_py.Bridge.{
  Stage, running, completed, skipped, Crossing, Bridge, register, started, release, enqueue,
  call_soon_threadsafe, future_into_py, Event, submits, completes, drops, skips, frees, delivers,
  subject, on_crossing, at_crossing, step, run,
}
use lkrequest_py.Bridge.Guards.{guards, CrossingFits, release-queue, release-crossings}

-- `q` continued by some more entries.
abbrev pub Extends : List ℕ → List ℕ → Type 0
Extends q r = (more : List ℕ) × (r ≡ q ++ more)

enqueue-Extends : (i : ℕ) (b : Bool) (q : List ℕ) → Extends q (enqueue i b q)
enqueue-Extends i true q = (i ∷ [], refl)
enqueue-Extends i false q = ([], sym (append-nil q))

release-Extends :
    (b : Bool) (w : Bridge) (q : List ℕ) → Extends q w.queue → Extends q (release b w).queue
release-Extends b w q e = rw (release-queue b w) e

on_crossing-Extends :
    (w : Bridge) (s : Stage) (e : Event) (i : ℕ) (c : Crossing)
    → Extends w.queue (on_crossing s e i c w).queue
unfolding on_crossing
on_crossing-Extends w running (completes k) i c = ([], sym (append-nil w.queue))
on_crossing-Extends w running (drops k) i c =
    release-Extends c.owned _ w.queue ([], sym (append-nil w.queue))
on_crossing-Extends w completed (delivers k closed reply) i c =
    release-Extends c.parked _ w.queue
      (enqueue-Extends i (call_soon_threadsafe closed reply).1 w.queue)
on_crossing-Extends w completed (skips k) i c = ([], sym (append-nil w.queue))
on_crossing-Extends w skipped (frees k) i c =
    release-Extends c.parked _ w.queue ([], sym (append-nil w.queue))
on_crossing-Extends w _ _ i c = ([], sym (append-nil w.queue))

at_crossing-Extends : (w : Bridge) (e : Event) → Extends w.queue (at_crossing e w).queue
at_crossing-Extends w e = elim (Option-cases (get_elem? w.crossings (subject e))) [
  | inl gone ↦ rw (gone, at_crossing) ([], sym (append-nil w.queue))
  | inr (c, here) ↦ rw (here, at_crossing) (on_crossing-Extends w c.stage e (subject e) c)
]

step-Extends : (w : Bridge) (e : Event) → Extends w.queue (step w e).queue
unfolding step future_into_py register
step-Extends w (submits true) = ([], sym (append-nil w.queue))
step-Extends w (submits false) = release-Extends true _ w.queue ([], sym (append-nil w.queue))
step-Extends w (completes i) = at_crossing-Extends w (completes i)
step-Extends w (drops i) = at_crossing-Extends w (drops i)
step-Extends w (skips i) = at_crossing-Extends w (skips i)
step-Extends w (frees i) = at_crossing-Extends w (frees i)
step-Extends w (delivers i closed reply) = at_crossing-Extends w (delivers i closed reply)

pub run-Extends : (w : Bridge) (es : List Event) → Extends w.queue (run w es).queue
unfolding run
run-Extends w [] = ([], sym (append-nil w.queue))
run-Extends w (e ∷ es) =
    let (first, p) = step-Extends w e in
    let (rest, q) = run-Extends (step w e) es in
    (first ++ rest, q ∙ ap (λ (l : List ℕ). l ++ rest) p ∙ append_assoc w.queue first rest)

set_elsewhere :
    (w : Bridge) (j i : ℕ) (c : Crossing) {d : Crossing}
    → get_elem? w.crossings j ≡ some d
    → (j == i) ≡ false
    → get_elem? (set w.crossings j c) i ≡ get_elem? w.crossings i
set_elsewhere w j i c here ne = get_elem?-set w.crossings j i c here ∙ rw ne

-- Another crossing's event leaves crossing `i` alone.
on_crossing_elsewhere :
    (w : Bridge) (s : Stage) (e : Event) (j i : ℕ) (d : Crossing)
    → get_elem? w.crossings j ≡ some d
    → (j == i) ≡ false
    → get_elem? (on_crossing s e j d w).crossings i ≡ get_elem? w.crossings i
unfolding on_crossing
on_crossing_elsewhere w running (completes k) j i d here ne = set_elsewhere w j i _ here ne
on_crossing_elsewhere w running (drops k) j i d here ne =
    rw (release-crossings d.owned) (set_elsewhere w j i _ here ne)
on_crossing_elsewhere w completed (delivers k closed reply) j i d here ne =
    rw (release-crossings d.parked) (set_elsewhere w j i _ here ne)
on_crossing_elsewhere w completed (skips k) j i d here ne = set_elsewhere w j i _ here ne
on_crossing_elsewhere w skipped (frees k) j i d here ne =
    rw (release-crossings d.parked) (set_elsewhere w j i _ here ne)
on_crossing_elsewhere w _ _ j i d here ne = refl

set_self :
    (w : Bridge) (i : ℕ) (c : Crossing) {d : Crossing}
    → get_elem? w.crossings i ≡ some d
    → get_elem? (set w.crossings i c) i ≡ some c
set_self w i c here = get_elem?-set w.crossings i i c here ∙ ground arith

-- An event of an unguarded crossing itself: only a proxy that holds nothing can still be freed.
on_crossing_itself :
    (w : Bridge) (s : Stage) (e : Event) (i : ℕ) (c : Crossing)
    → CrossingFits c
    → guards c ≡ 0
    → c.stage ≡ s
    → get_elem? w.crossings i ≡ some c
    → get_elem? (on_crossing s e i c w).crossings i ≡ some c
unfolding on_crossing
on_crossing_itself w running (completes k) i c f g s here = absurd (ground arith)
on_crossing_itself w running (drops k) i c f g s here = absurd (ground arith)
on_crossing_itself w completed (delivers k closed reply) i c f g s here = absurd (ground arith)
on_crossing_itself w completed (skips k) i c f g s here = absurd (ground arith)
on_crossing_itself w skipped (frees k) i c f g s here =
    rw (release-crossings c.parked) (set_self w i _ here ∙ ground arith)
on_crossing_itself w _ _ i c f g s here = here

-- The same with the subject's number and value still to be identified.
on_crossing_same :
    (w : Bridge) (e : Event) (j i : ℕ) (c d : Crossing)
    → CrossingFits c
    → guards c ≡ 0
    → j ≡ i
    → get_elem? w.crossings j ≡ some d
    → get_elem? w.crossings i ≡ some c
    → get_elem? (on_crossing d.stage e j d w).crossings i ≡ some c
on_crossing_same w e j i c d f g p there here =
    subst (λ k. get_elem? (on_crossing d.stage e k d w).crossings i ≡ some c) (sym p)
      (subst (λ x. get_elem? (on_crossing x.stage e i x w).crossings i ≡ some c) (cc)
        (on_crossing_itself w c.stage e i c f g refl here))

at_crossing_final :
    (w : Bridge) (e : Event) (i : ℕ) (c : Crossing)
    → CrossingFits c
    → guards c ≡ 0
    → get_elem? w.crossings i ≡ some c
    → get_elem? (at_crossing e w).crossings i ≡ some c
at_crossing_final w e i c f g here = elim (Option-cases (get_elem? w.crossings (subject e))) [
  | inl gone ↦ rw (gone, at_crossing) here
  | inr (d, there) ↦
      rw (there, at_crossing)
        (elim (Bool-cases (subject e == i)) [
          | inl same ↦ on_crossing_same w e (subject e) i c d f g (ground arith) there here
          | inr other ↦ on_crossing_elsewhere w d.stage e (subject e) i d there other ∙ here
        ])
]

step_final :
    (w : Bridge) (e : Event) (i : ℕ) (c : Crossing)
    → CrossingFits c
    → guards c ≡ 0
    → get_elem? w.crossings i ≡ some c
    → get_elem? (step w e).crossings i ≡ some c
unfolding step future_into_py register
step_final w (submits true) i c f g here =
    get_elem?-snoc w.crossings started i ∙ ground (arith, get_elem?-lt w.crossings i here)
step_final w (submits false) i c f g here = rw (release-crossings true) here
step_final w (completes k) i c f g here = at_crossing_final w (completes k) i c f g here
step_final w (drops k) i c f g here = at_crossing_final w (drops k) i c f g here
step_final w (skips k) i c f g here = at_crossing_final w (skips k) i c f g here
step_final w (frees k) i c f g here = at_crossing_final w (frees k) i c f g here
step_final w (delivers k closed reply) i c f g here =
    at_crossing_final w (delivers k closed reply) i c f g here

pub run_final :
    (w : Bridge) (es : List Event) (i : ℕ) (c : Crossing)
    → CrossingFits c
    → guards c ≡ 0
    → get_elem? w.crossings i ≡ some c
    → get_elem? (run w es).crossings i ≡ some c
unfolding run
run_final w [] i c f g here = here
run_final w (e ∷ es) i c f g here = run_final (step w e) es i c f g (step_final w e i c f g here)
