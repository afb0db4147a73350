-- ===== src/Prelude/Tables.antt =====
-- Tables of names: a `match` on a text with a catch-all, and the printers that invert them.
use Prim.Native.String.{String}
use text.Mathlib.Text.{◌==◌ as str_eq}
use text.Mathlib.TextEquality.{eq_iff}
use mathlib.Core.Path.{◌≡◌, refl, sym}
use mathlib.Core.Logic.{◌≢◌, inl, inr}
use mathlib.Core.Option.{Option, none, some}
use mathlib.Core.List.{List, [], ◌∷◌}
use lkrequest_py.Prelude.Tests.{if◌then◌else◌, Bool-cases}
use lkrequest_py.Prelude.Errors.{PyResult, ok, err, new_err, value_error}

-- A text, or a list of them, is read as the value that is printed as it, and refused with
-- a `ValueError` if there is none.
abbrev pub Reads : {A T : Type 0} → (A → T) → T → PyResult A → Type 0
Reads print s (ok a) = print a ≡ s
Reads {A} print s (err e) = (e.kind ≡ value_error) × ((a : A) → print a ≢ s)

-- One line of such a table, before the others.
pub entry :
    {A : Type 0} (print : A → String) (s : String) (a : A) (rest : PyResult A)
    → (print a ≢ s → Reads print s rest)
    → Reads print s (if str_eq s (print a) then ok a else rest)
entry print s a rest h = elim (Bool-cases (str_eq s (print a))) [
  | inl e ↦ rw e (sym ((eq_iff s (print a)).0 e))
  | inr e ↦ rw e (h (λ p. cc ((eq_iff s (print a)).1 (sym p), e)))
]

-- The first line that has the name.
abbrev pub choose : {A : Type 0} → String → List (String × A) → Option A
choose s [] = none
choose s ((k, a) ∷ t) = if str_eq s k then some a else choose s t

abbrev pub AllPrint : {A : Type 0} → (A → String) → List (String × A) → Type 0
AllPrint print [] = Unit
AllPrint print ((k, a) ∷ t) = (print a ≡ k) × AllPrint print t

-- What stands in the table, or a `ValueError`.
abbrev pub or_unknown : {A : Type 0} → String → Option A → PyResult A
or_unknown message none = new_err value_error message
or_unknown message (some a) = ok a

module _ {A : Type 0} (print : A → String) where
  abbrev Chosen : String → Option A → Type 0
  Chosen s none = Unit
  Chosen s (some a) = print a ≡ s

  choose-Chosen : (s : String) (t : List (String × A)) → AllPrint print t → Chosen s (choose s t)
  choose-Chosen s [] h = tt
  choose-Chosen s ((k, a) ∷ t) (p, h) = elim (Bool-cases (str_eq s k)) [
    | inl e ↦ rw e (cc ((eq_iff s k).0 e, p))
    | inr e ↦ rw e (choose-Chosen s t h)
  ]

  -- A table that gives each value under the name that is printed for it.
  pub table-Reads :
      (t : List (String × A)) (message s : String)
      → AllPrint print t
      → ((a : A) → choose (print a) t ≡ some a)
      → Reads print s (or_unknown message (choose s t))
  table-Reads t message s h complete = at (choose s t) refl (choose-Chosen s t h)
    where
      at : (o : Option A) → choose s t ≡ o → Chosen s o → Reads print s (or_unknown message o)
      at (some a) e c = c
      at none e c = (refl, λ a p. cc (complete a, e, p))
