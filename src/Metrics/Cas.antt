-- ===== src/Metrics/Cas.antt =====
-- The loop of `HostMetrics::record` (src/metrics.rs) that adds a time to `histogram_sum`, run by
-- several calls at once: a load, the addition, and a `compare_exchange_weak`, which may fail for no
-- reason. The cell is the `u64` that holds the bits of the sum, and `add_bits` takes the bits and a
-- time to the bits of their sum.
pub mod Finishing
use lkrequest_py.Prelude.{
  ℕ, zero, suc, ◌≡◌, refl, ◌∙◌, Bool, true, false, not, ◌&&◌, List, [], ◌∷◌, ◌++◌, Option, none,
  some, arith, ◌==◌, if◌then◌else◌, Bool-cases, ◌⊎◌, Option-cases, inl, inr, get_elem?,
  get_elem?-set, set,
}
use mathlib.Core.List.{Perm, perm_middle}
use mathlib.Core.List.Perm
use lkrequest_py.Types.{F64}

-- One call in its loop.
pub record Adder : Type 0 where
  pub elapsed : F64
  pub loaded : Option ℕ  -- `current`, between the load and the exchange
  pub done : Bool

pub record Shared : Type 0 where
  pub cell : ℕ
  pub adders : List Adder

-- What the scheduler lets happen next: call `i` loads, or it tries its exchange, where `spurious`
-- says that the exchange fails though the cell is unchanged.
pub data Move : Type 0 where
  loads : ℕ → Move
  exchanges : ℕ → (spurious : Bool) → Move

abbrev pub calm : Adder → Adder
calm a = record a { loaded = none }

-- The value that an exchange writes, if it succeeds.
abbrev pub written : (ℕ → F64 → ℕ) → Bool → ℕ → Adder → Option ℕ
written add_bits spurious cell a = elim a.loaded [
  | none ↦ none
  | some current ↦
      if not spurious && current == cell then some (add_bits current a.elapsed) else none
]

module _ (add_bits : ℕ → F64 → ℕ) where
  -- A call that is done has left the loop.
  load : ℕ → Adder → Shared → Shared
  load i a s =
      if a.done then s else record s { adders = set s.adders i (record a { loaded = some s.cell }) }

  exchange : ℕ → Bool → Adder → Shared → Shared
  exchange i spurious a s = if a.done then s else elim (written add_bits spurious s.cell a) [
    | none ↦ record s { adders = set s.adders i (calm a) }
    | some v ↦ record { cell = v; adders = set s.adders i (record (calm a) { done = true }) }
  ]

  pub move : Move → Shared → Shared
  unfolding load exchange
  move (loads i) s = elim (get_elem? s.adders i) [ none ↦ s | some a ↦ load i a s ]
  move (exchanges i spurious) s = elim (get_elem? s.adders i) [
    | none ↦ s
    | some a ↦ exchange i spurious a s
  ]

  pub moves : List Move → Shared → Shared
  moves [] s = s
  moves (m ∷ ms) s = moves ms (move m s)

abbrev pub finished : List Adder → List F64
finished [] = []
finished (a ∷ as') = if a.done then a.elapsed ∷ finished as' else finished as'

-- The cell after these times were added one after the other.
abbrev pub sum_bits : (ℕ → F64 → ℕ) → ℕ → List F64 → ℕ
sum_bits add_bits v [] = v
sum_bits add_bits v (e ∷ es) = sum_bits add_bits (add_bits v e) es

-- The times that were added, in some order, and the cell they led to.
pub record Adds (add_bits : ℕ → F64 → ℕ) (s t : Shared) (order : List F64) : Type 0 where
  pub cell : t.cell ≡ sum_bits add_bits s.cell order
  pub each_once : Perm (order ++ finished s.adders) (finished t.adders)

finished-set_same :
    (as' : List Adder) (i : ℕ) (a b : Adder)
    → get_elem? as' i ≡ some a
    → a.done ≡ false
    → b.done ≡ false
    → finished (set as' i b) ≡ finished as'
finished-set_same [] i a b e p q = cc
finished-set_same (x ∷ as') zero a b e p q = ground arith
finished-set_same (x ∷ as') (suc i) a b e p q = ground (arith, finished-set_same as' i a b e p q)

finished-set_done :
    (as' : List Adder) (i : ℕ) (a b : Adder)
    → get_elem? as' i ≡ some a
    → a.done ≡ false
    → b.done ≡ true
    → Perm (b.elapsed ∷ finished as') (finished (set as' i b))
finished-set_done [] i a b e p q = cc
finished-set_done (x ∷ as') zero a b e p q =
    let h : x.done ≡ false = ground arith in rw (h, q) (Perm.refl (b.elapsed ∷ finished as'))
finished-set_done (x ∷ as') (suc i) a b e p q = elim (Bool-cases x.done) [
  | inl h ↦ rw h (
      Perm.trans (Perm.swap x.elapsed b.elapsed (finished as'))
        (Perm.cons x.elapsed (finished-set_done as' i a b e p q)))
  | inr h ↦ rw h (finished-set_done as' i a b e p q)
]

-- One move adds nothing, or the time of one call, which is then done.
abbrev AddsOne : (ℕ → F64 → ℕ) → Shared → Shared → Type 0
AddsOne add_bits s t =
    ((t.cell ≡ s.cell) × (finished t.adders ≡ finished s.adders))
    ⊎ ((e : F64) × (t.cell ≡ add_bits s.cell e) × Perm (e ∷ finished s.adders) (finished t.adders))

module _ (add_bits : ℕ → F64 → ℕ) where
  load-AddsOne :
      (i : ℕ) (a : Adder) (s : Shared)
      → get_elem? s.adders i ≡ some a
      → AddsOne add_bits s (load add_bits i a s)
  unfolding load
  load-AddsOne i a s here = elim (Bool-cases a.done) [
    | inl h ↦ rw h (inl (refl, refl))
    | inr h ↦ rw h (inl (refl, finished-set_same s.adders i a _ here h refl))
  ]

  -- An exchange that succeeds finds in the cell what its call has loaded.
  written-eq :
      (spurious : Bool) (cell v : ℕ) (a : Adder)
      → written add_bits spurious cell a ≡ some v
      → v ≡ add_bits cell a.elapsed
  written-eq spurious cell v a e = ground arith

  exchange-AddsOne :
      (i : ℕ) (spurious : Bool) (a : Adder) (s : Shared)
      → get_elem? s.adders i ≡ some a
      → AddsOne add_bits s (exchange add_bits i spurious a s)
  unfolding exchange
  exchange-AddsOne i spurious a s here = elim (Bool-cases a.done) [
    | inl h ↦ rw h (inl (refl, refl))
    | inr h ↦ elim (Option-cases (written add_bits spurious s.cell a)) [
      | inl failed ↦
          rw (h, failed, exchange) (inl (refl, finished-set_same s.adders i a (calm a) here h h))
      | inr (v, e) ↦
          rw (h, e, exchange)
            (inr (
              a.elapsed,
              written-eq spurious s.cell v a e,
              finished-set_done s.adders i a (record (calm a) { done = true }) here h refl,
            ))
    ]
  ]

  move-AddsOne : (m : Move) (s : Shared) → AddsOne add_bits s (move add_bits m s)
  unfolding move
  move-AddsOne (loads i) s = elim (Option-cases (get_elem? s.adders i)) [
    | inl gone ↦ rw (gone, move) (inl (refl, refl))
    | inr (a, here) ↦ rw (here, move) (load-AddsOne i a s here)
  ]
  move-AddsOne (exchanges i spurious) s = elim (Option-cases (get_elem? s.adders i)) [
    | inl gone ↦ rw (gone, move) (inl (refl, refl))
    | inr (a, here) ↦ rw (here, move) (exchange-AddsOne i spurious a s here)
  ]

  AddsOne-cons :
      {s t u : Shared} {order : List F64}
      → AddsOne add_bits s t
      → Adds add_bits t u order
      → (whole : List F64) × Adds add_bits s u whole
  AddsOne-cons {order = order} (inl (same, kept)) r =
      (order, record { cell = rw (← same) r.cell; each_once = rw (← kept) r.each_once })
  AddsOne-cons {s} {order = order} (inr (e, grown, more)) r = (
    e ∷ order,
    record {
      cell = rw (← grown) r.cell;
      each_once =
          Perm.trans (Perm.symm (perm_middle order (finished s.adders)))
            (Perm.trans (Perm.append_left order more) r.each_once);
    },
  )

  pub moves-Adds :
      (ms : List Move) (s : Shared)
      → (order : List F64) × Adds add_bits s (moves add_bits ms s) order
  unfolding moves
  moves-Adds [] s = ([], record { cell = refl; each_once = Perm.refl (finished s.adders) })
  moves-Adds (m ∷ ms) s = AddsOne-cons (move-AddsOne m s) (moves-Adds ms (move add_bits m s)).1

  -- A call that loads and then tries its exchange with nothing in between and no spurious failure
  -- gets done.
  pub undisturbed_done :
      (i : ℕ) (a : Adder) (s : Shared)
      → get_elem? s.adders i ≡ some a
      → a.done ≡ false
      → get_elem? (move add_bits (exchanges i false) (move add_bits (loads i) s)).adders i
        ≡ some (record (calm a) { done = true })
  unfolding move load exchange
  undisturbed_done i a s here busy =
      let b = record a { loaded = some s.cell } in
      let loaded : get_elem? (set s.adders i b) i ≡ some b =
        get_elem?-set s.adders i i b here ∙ ground arith in
      ground (
        arith,
        loaded,
        get_elem?-set (set s.adders i b) i i (record (calm a) { done = true }) loaded,
      )
