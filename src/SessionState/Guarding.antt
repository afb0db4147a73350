-- ===== src/SessionState/Guarding.antt =====
-- A request under the guard of src/session_state.rs, polled over time while its session is used.
use lkrequest_py.Prelude.{
  ◌≡◌, ◌≢◌, ◌⊎◌, Bool, true, List, [], ◌∷◌, ◌++◌, map, Option, none, some, PyResult, new_err,
  runtime_error,
}
use lkrequest_py.SessionState.{
  State, Op, on_request, on_response, closes, gc_clears, exec, guard_poll,
}

-- A call on the session, or a poll of the guarded request: which branch is polled first, and what the
-- request itself answers.
pub data Moment (A : Type 0) : Type 0 where
  calls : Op → Moment A
  polls : Bool → Option (PyResult A) → Moment A

-- What the guarded request ends with in this time, if it ends. It is polled until it is ready.
pub guarded : {A : Type 0} → List (Moment A) → State → Option (PyResult A)
guarded [] s = none
guarded (calls o ∷ ms) s = guarded ms (exec o s).1
guarded (polls work_first work ∷ ms) s =
    let rest = guarded ms s in
    elim (guard_poll work_first work s.closed) [ none ↦ rest | some r ↦ some r ]

-- What the request ends with if nothing guards it.
pub unguarded : {A : Type 0} → List (Moment A) → Option (PyResult A)
unguarded [] = none
unguarded (calls o ∷ ms) = unguarded ms
unguarded (polls work_first none ∷ ms) = unguarded ms
unguarded (polls work_first (some r) ∷ ms) = some r

-- Nobody closes the session in this time.
abbrev pub IsQuiet : {A : Type 0} → List (Moment A) → Type 0
IsQuiet [] = Unit
IsQuiet (calls (on_request cb) ∷ ms) = IsQuiet ms
IsQuiet (calls (on_response cb) ∷ ms) = IsQuiet ms
IsQuiet (calls closes ∷ ms) = ⊥
IsQuiet (calls gc_clears ∷ ms) = IsQuiet ms
IsQuiet (polls work_first work ∷ ms) = IsQuiet ms

abbrev pub interrupted : {A : Type 0} → PyResult A
interrupted = new_err runtime_error "Session was closed while the request was in flight"

-- The first poll after the closing decides: for the request only if it is polled first and ready.
abbrev pub IsDecided : {A : Type 0} → Bool → Option (PyResult A) → Option (PyResult A) → Type 0
IsDecided work_first work result =
    (result ≡ some interrupted) ⊎ ((work_first ≡ true) × (result ≡ work) × (work ≢ none))

-- A request that has ended by itself keeps its result.
abbrev pub IsOutcome :
    {A : Type 0} → Option (PyResult A) → Bool → Option (PyResult A) → Option (PyResult A) → Type 0
IsOutcome (some r) work_first work result = result ≡ some r
IsOutcome none work_first work result = IsDecided work_first work result

module _ {A : Type 0} (work_first : Bool) (work : Option (PyResult A))
    (after : List (Moment A)) where
  module _ (between : List Op) where
    abbrev pub rest : List (Moment A)
    rest = calls closes ∷ (map calls between ++ polls work_first work ∷ after)

    -- The outcome if the next poll finds the session closed or open.
    abbrev Polled : Bool → Option (PyResult A) → List (Moment A) → State → Bool → Type 0
    Polled first w ms s b =
        (elim (guard_poll first w b) [ none ↦ guarded ms s | some r ↦ some r ]
          ≡ unguarded (polls first w ∷ ms))
        × IsOutcome (unguarded (polls first w ∷ ms)) work_first work
            (elim (guard_poll first w b) [ none ↦ guarded (ms ++ rest) s | some r ↦ some r ])
