-- ===== src/Metrics/Cas/Finishing.antt =====
-- The end of the loop of `HostMetrics::record` (src/metrics.rs).
use lkrequest_py.Prelude.{
  ℕ, zero, suc, ◌<◌, ◌≡◌, ◌≢◌, refl, sym, ◌∙◌, ap, subst, true, false, List, [], ◌∷◌, ◌++◌, map,
  none, some, arith, ◌==◌, Bool-cases, Option-cases, inl, inr, get_elem?, get_elem?-lt,
  get_elem?-set, set, length, length-set,
}
use mathlib.Core.List.{Perm}
use lkrequest_py.Types.{F64}
use lkrequest_py.Metrics.Cas.{
  Adder, Shared, Move, loads, exchanges, calm, written, load, exchange, move, moves, finished,
  sum_bits, Adds, moves-Adds, undisturbed_done,
}

abbrev pub times : List Adder → List F64
times as' = map (λ (a : Adder). a.elapsed) as'

-- Each call in turn loads and then tries its exchange, with nothing in between and no spurious failure.
abbrev pub turns : ℕ → List Move
turns zero = []
turns (suc n) = turns n ++ loads n ∷ exchanges n false ∷ []

times-set :
    (as' : List Adder) (i : ℕ) (a b : Adder)
    → get_elem? as' i ≡ some a
    → b.elapsed ≡ a.elapsed
    → times (set as' i b) ≡ times as'
times-set [] i a b e p = refl
times-set (x ∷ as') zero a b e p = ground arith
times-set (x ∷ as') (suc i) a b e p = ap (λ ts. x.elapsed ∷ ts) (times-set as' i a b e p)

-- The calls stay, with their times.
abbrev Keeps : Shared → Shared → Type 0
Keeps s t = (length t.adders ≡ length s.adders) × (times t.adders ≡ times s.adders)

set-Keeps :
    (s : Shared) (cell i : ℕ) (a b : Adder)
    → get_elem? s.adders i ≡ some a
    → b.elapsed ≡ a.elapsed
    → Keeps s (record { cell = cell; adders = set s.adders i b })
set-Keeps s cell i a b e p = (length-set s.adders i b, times-set s.adders i a b e p)

module _ (add_bits : ℕ → F64 → ℕ) where
  move-Keeps : (m : Move) (s : Shared) → Keeps s (move add_bits m s)
  unfolding move load exchange
  move-Keeps (loads i) s = elim (Option-cases (get_elem? s.adders i)) [
    | inl gone ↦ rw (gone, move) (refl, refl)
    | inr (a, here) ↦ elim (Bool-cases a.done) [
      | inl h ↦ rw (here, move) (rw h (refl, refl))
      | inr h ↦
          rw (here, move)
            (rw h (
              set-Keeps s s.cell i a
                (record { elapsed = a.elapsed; loaded = some s.cell; done = false }) here refl))
    ]
  ]
  move-Keeps (exchanges i spurious) s = elim (Option-cases (get_elem? s.adders i)) [
    | inl gone ↦ rw (gone, move) (refl, refl)
    | inr (a, here) ↦ elim (Bool-cases a.done) [
      | inl h ↦ rw (here, move) (rw h (refl, refl))
      | inr h ↦ elim (Option-cases (written add_bits spurious s.cell a)) [
        | inl failed ↦
            rw (here, move) (rw (h, failed, exchange) (set-Keeps s s.cell i a (calm a) here refl))
        | inr (v, e) ↦
            rw (here, move)
              (rw (h, e, exchange)
                (set-Keeps s v i a (record { elapsed = a.elapsed; loaded = none; done = true }) here
                  refl))
      ]
    ]
  ]

  moves-append :
      (ms ns : List Move) (s : Shared)
      → moves add_bits (ms ++ ns) s ≡ moves add_bits ns (moves add_bits ms s)
  unfolding moves
  moves-append [] ns s = refl
  moves-append (m ∷ ms) ns s = moves-append ms ns (move add_bits m s)

  moves-Keeps : (ms : List Move) (s : Shared) → Keeps s (moves add_bits ms s)
  unfolding moves
  moves-Keeps [] s = (refl, refl)
  moves-Keeps (m ∷ ms) s =
      let (l, t) = move-Keeps m s in
      let (l', t') = moves-Keeps ms (move add_bits m s) in (l' ∙ l, t' ∙ t)

  turn : ℕ → Shared → Shared
  turn i s = move add_bits (exchanges i false) (move add_bits (loads i) s)

  turn_self :
      (i : ℕ) (s : Shared) {a : Adder} → get_elem? (turn i s).adders i ≡ some a → a.done ≡ true
  unfolding turn move load exchange
  turn_self i s e = elim (Option-cases (get_elem? s.adders i)) [
    | inl gone ↦ ground (arith, gone, e)
    | inr (b, here) ↦ elim (Bool-cases b.done) [
      | inl h ↦ ground (arith, here, h, e)
      | inr h ↦ cc (undisturbed_done add_bits i b s here h, e)
    ]
  ]

  turn_other : (i j : ℕ) (s : Shared) → i ≢ j → get_elem? (turn i s).adders j ≡ get_elem? s.adders j
  unfolding turn move load exchange
  turn_other i j s d = elim (Option-cases (get_elem? s.adders i)) [
    | inl gone ↦ ground (arith, gone)
    | inr (b, here) ↦ elim (Bool-cases b.done) [
      | inl h ↦ ground (arith, here, h)
      | inr h ↦
          let c = record b { loaded = some s.cell } in
          let loaded : get_elem? (set s.adders i c) i ≡ some c =
            get_elem?-set s.adders i i c here ∙ ground arith in
          ground (
            arith,
            loaded,
            get_elem?-set s.adders i j c here,
            get_elem?-set (set s.adders i c) i j (record (calm b) { done = true }) loaded,
          )
    ]
  ]

  turns-done :
      (n j : ℕ) (s : Shared) {a : Adder}
      → j < n
      → get_elem? (moves add_bits (turns n) s).adders j ≡ some a
      → a.done ≡ true
  unfolding moves turn
  turns-done zero j s p e = absurd (omega arith)
  turns-done (suc n) j s {a} p e =
      let t = moves add_bits (turns n) s in
      let last : get_elem? (turn n t).adders j ≡ some a =
        subst (λ (u : Shared). get_elem? u.adders j ≡ some a)
          (moves-append (turns n) (loads n ∷ exchanges n false ∷ []) s) e in
      elim (Bool-cases (j == n)) [
        | inl q ↦
            let same : j ≡ n = ground arith in
            turn_self n t (subst (λ k. get_elem? (turn n t).adders k ≡ some a) same last)
        | inr q ↦
            turns-done n j s (ground arith) (sym (turn_other n j t (λ r. ground arith)) ∙ last)
      ]

all_done :
    (as' : List Adder)
    → ((j : ℕ) (a : Adder) → get_elem? as' j ≡ some a → a.done ≡ true)
    → finished as' ≡ times as'
all_done [] h = refl
all_done (x ∷ as') h =
    rw (h 0 x refl) (ap (λ ts. x.elapsed ∷ ts) (all_done as' (λ j a e. h (suc j) a e)))

-- However the calls in the loop are interleaved, and however often an exchange fails for no reason, no
-- addition is lost or made twice: the cell is what it was with the times of the calls that got done
-- meanwhile added one after the other, each once, in some order. And the loop ends: once every call has
-- had a turn undisturbed, all are done, and then the times added are those of all the calls that were
-- not done at the start.
pub moves-turns :
    (add_bits : ℕ → F64 → ℕ) (ms : List Move) (s : Shared)
    → ((order : List F64) × Adds add_bits s (moves add_bits ms s) order)
      × ((order : List F64) × ((moves add_bits (ms ++ turns (length s.adders)) s).cell
            ≡ sum_bits add_bits s.cell order)
          × Perm (order ++ finished s.adders) (times s.adders))
moves-turns add_bits ms s =
    let rounds = turns (length s.adders) in
    let u = moves add_bits (ms ++ rounds) s in
    let (order, added) = moves-Adds add_bits (ms ++ rounds) s in
    let (l, kept) = moves-Keeps add_bits (ms ++ rounds) s in
    let split = moves-append add_bits ms rounds s in
    let done : finished u.adders ≡ times u.adders = all_done u.adders (λ j a e.
      turns-done add_bits (length s.adders) j (moves add_bits ms s)
        (let p = get_elem?-lt u.adders j e in omega (arith, p, l))
        (subst (λ (v : Shared). get_elem? v.adders j ≡ some a) split e)) in
    (
      moves-Adds add_bits ms s,
      (
        order,
        added.cell,
        subst (λ ts. Perm (order ++ finished s.adders) ts) (done ∙ kept) added.each_once,
      ),
    )
