-- ===== src/Bridge/Guards.antt =====
-- The in-flight count of src/bridge.rs against the guards that are held somewhere.
use lkrequest_py.Prelude.{
  ℕ, suc, zero, ◌+◌, ◌%◌, ◌≡◌, refl, Bool, true, false, List, [], ◌∷◌, ◌++◌, Option, none, some,
  arith, ap, ◌∙◌, ◌==◌, if◌then◌else◌, Option-cases, get_elem?, set, All, All-get_elem?, All-set,
  All-append, get_elem?-set, get_elem?-snoc, get_elem?-length, PyResult, ok, err, inl, inr,
}
use lkrequest_py.Bridge.{
  usize_mod, Stage, running, completed, cancelled, skipped, queued, Crossing, Bridge, initial,
  register, drop_guard, release, call_soon_threadsafe, future_into_py, started, enqueue, Event,
  submits, completes, drops, skips, frees, delivers, on_crossing, at_crossing, subject, outcome,
  step, run,
}

abbrev pub bit : Bool → ℕ
bit true = 1
bit false = 0

abbrev pub guards : Crossing → ℕ
guards c = bit c.owned + bit c.parked

abbrev pub held : List Crossing → ℕ
held [] = 0
held (c ∷ cs) = guards c + held cs

-- What the stage says of the two slots.
abbrev pub Fits : Stage → Bool → Bool → Type 0
Fits running owned parked = (owned ≡ true) × (parked ≡ false)
Fits completed owned parked = (owned ≡ false) × (parked ≡ true)
Fits skipped owned parked = owned ≡ false
Fits _ owned parked = (owned ≡ false) × (parked ≡ false)

abbrev pub CrossingFits : Crossing → Type 0
CrossingFits c = Fits c.stage c.owned c.parked

abbrev pub occurs : ℕ → List ℕ → ℕ
occurs i [] = 0
occurs i (j ∷ js) = (if i == j then 1 else 0) + occurs i js

abbrev pub is_queued : Stage → Bool
is_queued queued = true
is_queued _ = false

abbrev pub queued_once : Option Crossing → ℕ
queued_once none = 0
queued_once (some c) = bit (is_queued c.stage)

pub record Inv (w : Bridge) : Type 0 where
  pub counted : w.count ≡ held w.crossings % usize_mod
  pub fits : All CrossingFits w.crossings
  pub once : (i : ℕ) → occurs i w.queue ≡ queued_once (get_elem? w.crossings i)

held-set :
    (cs : List Crossing) (i : ℕ) (c d : Crossing)
    → get_elem? cs i ≡ some c
    → held (set cs i d) + guards c ≡ held cs + guards d
held-set [] i c d e = cc
held-set (x ∷ cs) zero c d e = ground arith
held-set (x ∷ cs) (suc i) c d e = omega (arith, held-set cs i c d e)

held-snoc : (cs : List Crossing) (c : Crossing) → held (cs ++ c ∷ []) ≡ held cs + guards c
held-snoc [] c = omega arith
held-snoc (x ∷ cs) c = omega (arith, held-snoc cs c)

occurs-snoc :
    (i j : ℕ) (q : List ℕ) → occurs i (q ++ j ∷ []) ≡ occurs i q + (if i == j then 1 else 0)
occurs-snoc i j [] = omega arith
occurs-snoc i j (x ∷ q) = omega (arith, occurs-snoc i j q)

-- Releasing one of `h + 1` counted guards leaves `h` counted.
pub release-count :
    (b : Bool) (w : Bridge) (h : ℕ)
    → w.count ≡ (h + bit b) % usize_mod
    → (release b w).count ≡ h % usize_mod
unfolding release drop_guard
release-count true w h e = omega arith
release-count false w h e = omega arith

pub release-queue : (b : Bool) (w : Bridge) → (release b w).queue ≡ w.queue
unfolding release drop_guard
release-queue true w = refl
release-queue false w = refl

pub release-crossings : (b : Bool) (w : Bridge) → (release b w).crossings ≡ w.crossings
unfolding release drop_guard
release-crossings true w = refl
release-crossings false w = refl

pub initial-Inv : Inv initial
initial-Inv = record { counted = refl; fits = tt; once = λ i. refl }

-- What a handler does to the bridge when its crossing becomes `d`: `b` says that a guard is dropped,
-- `q` that the callback is enqueued.
abbrev changed : Bridge → ℕ → Crossing → Bool → Bool → Bridge
changed w i d b q =
    release b (record w { queue = enqueue i q w.queue; crossings = set w.crossings i d })

occurs-enqueue :
    (i j : ℕ) (b : Bool) (q : List ℕ)
    → occurs j (enqueue i b q) ≡ occurs j q + (if j == i then bit b else 0)
occurs-enqueue i j true q = ground (arith, occurs-snoc j i q)
occurs-enqueue i j false q = ground arith

changed-Inv :
    (w : Bridge) (i : ℕ) (c d : Crossing) (b q : Bool)
    → Inv w
    → get_elem? w.crossings i ≡ some c
    → guards c ≡ guards d + bit b
    → bit (is_queued d.stage) ≡ bit (is_queued c.stage) + bit q
    → CrossingFits d
    → Inv (changed w i d b q)
changed-Inv w i c d b q v here g e f = record {
  counted = rw (release-crossings b after) (
      release-count b after (held (set w.crossings i d))
        (v.counted ∙ ap (λ (n : ℕ). n % usize_mod) total));
  fits = rw (release-crossings b after) (All-set CrossingFits w.crossings i d v.fits f);
  once = λ j.
      rw (release-crossings b after, release-queue b after)
        (ground (
          arith,
          v.once j,
          v.once i,
          occurs-enqueue i j q w.queue,
          get_elem?-set w.crossings i j d here,
        ));
}
  where
    after : Bridge
    after = record w { queue = enqueue i q w.queue; crossings = set w.crossings i d }

    total : held w.crossings ≡ held (set w.crossings i d) + bit b
    total = omega (arith, held-set w.crossings i c d here, g)

outcome-queued : (r : PyResult (Unit {0}) × Bool) → bit (is_queued (outcome r)) ≡ bit r.1
outcome-queued (r, true) = refl
outcome-queued (ok _, false) = refl
outcome-queued (err _, false) = refl

outcome-Fits :
    (r : PyResult (Unit {0}) × Bool) (owned : Bool) → owned ≡ false → Fits (outcome r) owned false
outcome-Fits (r, true) owned e = (e, refl)
outcome-Fits (ok _, false) owned e = (e, refl)
outcome-Fits (err _, false) owned e = (e, refl)

-- The crossing's own stage decides which event can befall it.
on_crossing-Inv :
    (w : Bridge) (s : Stage) (e : Event) (i : ℕ) (c : Crossing)
    → Inv w
    → get_elem? w.crossings i ≡ some c
    → CrossingFits c
    → c.stage ≡ s
    → Inv (on_crossing s e i c w)
unfolding on_crossing release
on_crossing-Inv w running (completes k) i c v here f s =
    changed-Inv w i c (record c { stage = completed; owned = false; parked = c.owned }) false false
      v here (ground arith) (ground arith) (ground arith)
on_crossing-Inv w running (drops k) i c v here f s =
    changed-Inv w i c (record c { stage = cancelled; owned = false }) c.owned false v here
      (ground arith) (ground arith) (ground arith)
on_crossing-Inv w completed (delivers k closed reply) i c v here f s =
    let r = call_soon_threadsafe closed reply in
    changed-Inv w i c (record c { stage = outcome r; parked = false }) c.parked r.1 v here
      (ground arith) (ground (arith, outcome-queued r)) (outcome-Fits r c.owned (ground arith))
on_crossing-Inv w completed (skips k) i c v here f s =
    changed-Inv w i c (record c { stage = skipped }) false false v here (ground arith)
      (ground arith) (ground arith)
on_crossing-Inv w skipped (frees k) i c v here f s =
    changed-Inv w i c (record c { parked = false }) c.parked false v here (ground arith)
      (ground arith) (ground arith)
on_crossing-Inv w _ _ i c v here f s = v

at_crossing-Inv : (w : Bridge) (e : Event) → Inv w → Inv (at_crossing e w)
at_crossing-Inv w e v = elim (Option-cases (get_elem? w.crossings (subject e))) [
  | inl gone ↦ rw (gone, at_crossing) v
  | inr (c, here) ↦
      rw (here, at_crossing)
        (on_crossing-Inv w c.stage e (subject e) c v here
          (All-get_elem? CrossingFits w.crossings (subject e) v.fits here) refl)
]

submits-Inv : (w : Bridge) (has_loop : Bool) → Inv w → Inv (future_into_py has_loop w).1
unfolding future_into_py register
submits-Inv w true v = record {
  counted = omega (arith, v.counted, held-snoc w.crossings started);
  fits = All-append CrossingFits w.crossings (started ∷ []) v.fits ((refl, refl), tt);
  once = λ j.
      ground (arith, v.once j, get_elem?-snoc w.crossings started j, get_elem?-length w.crossings);
}
submits-Inv w false v = record {
  counted =
      rw (release-crossings true (register w))
        (release-count true (register w) (held w.crossings) (omega (arith, v.counted)));
  fits = rw (release-crossings true (register w)) v.fits;
  once = λ j. rw (release-crossings true (register w), release-queue true (register w)) (v.once j);
}

-- Every event keeps the invariant.
pub step-Inv : (w : Bridge) (e : Event) → Inv w → Inv (step w e)
unfolding step
step-Inv w (submits has_loop) v = submits-Inv w has_loop v
step-Inv w (completes i) v = at_crossing-Inv w (completes i) v
step-Inv w (drops i) v = at_crossing-Inv w (drops i) v
step-Inv w (skips i) v = at_crossing-Inv w (skips i) v
step-Inv w (frees i) v = at_crossing-Inv w (frees i) v
step-Inv w (delivers i closed reply) v = at_crossing-Inv w (delivers i closed reply) v

pub run-Inv : (w : Bridge) (es : List Event) → Inv w → Inv (run w es)
unfolding run
run-Inv w [] v = v
run-Inv w (e ∷ es) v = run-Inv (step w e) es (step-Inv w e v)
