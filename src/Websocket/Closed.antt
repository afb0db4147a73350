-- ===== src/Websocket/Closed.antt =====
-- What a closed object of src/websocket.rs still does.
use lkrequest_py.Prelude.{
  ℕ, zero, suc, ◌≤◌, ◌≡◌, refl, List, [], ◌∷◌, ◌++◌, Option, none, some, get_elem?, set, arith,
  runtime_error, PyResult, new_err, Bool, true, false, if◌then◌else◌,
}
use lkrequest_py.Websocket.{
  Shared, release, Class, Method, send_text, send_binary, recv, next, close_with, Outcome, Value,
  Connection, iteration_end, get, open_connection, ended, begin, finish, Progress, waiting,
  finished, Flight, World, Event, calls, ends, step, run, end_flight, finish_flight, progress_of,
}
use lkrequest_py.Websocket.Closing.{closes, finish-closes}

-- The number of methods that still use the connection.
abbrev pub in_use : List Flight → ℕ
in_use [] = 0
in_use (f ∷ fs) = elim f.progress [ waiting c k ↦ suc (in_use fs) | finished r ↦ in_use fs ]

-- What a method on a closed object gives.
pub refusal : Class → Method → PyResult Value
unfolding iteration_end
refusal class next = iteration_end class
refusal class _ = new_err runtime_error "WebSocket is closed"

module _ (class : Class) where
  begin-closed :
      (m : Method) (s : Shared) → s.slot ≡ none → begin class m s ≡ ended (refusal class m)
  unfolding begin open_connection get refusal
  begin-closed m s e = go m s.slot e
    where
      go :
          (m : Method) (x : Option Connection)
          → x ≡ none
          → begin class m (record { slot = x }) ≡ ended (refusal class m)
      go (send_text t) none e = refl
      go (send_binary b) none e = refl
      go recv none e = refl
      go next none e = refl
      go (close_with code reason) none e = refl
      go m (some c) e = cc

  in_use-set :
      (fs : List Flight) (i : ℕ) (f g : Flight) (r : PyResult Value)
      → get_elem? fs i ≡ some f
      → g.progress ≡ finished r
      → in_use (set fs i g) ≤ in_use fs
  in_use-set [] i f g r e p = omega arith
  in_use-set (x ∷ fs) zero f g r e p = ground arith
  in_use-set (x ∷ fs) (suc i) f g r e p = ground (arith, in_use-set fs i f g r e p)

  in_use-snoc :
      (fs : List Flight) (f : Flight) (r : PyResult Value)
      → f.progress ≡ finished r
      → in_use (fs ++ f ∷ []) ≡ in_use fs
  in_use-snoc [] f r p = ground arith
  in_use-snoc (x ∷ fs) f r p = ground (arith, in_use-snoc fs f r p)

  -- What the steps on a closed object keep.
  abbrev Closed : World → World → Type 0
  Closed w w' = (w'.shared.slot ≡ none) × (in_use w'.flights ≤ in_use w.flights)

  stays_closed : (b : Bool) (s : Shared) → s.slot ≡ none → (if b then release s else s).slot ≡ none
  unfolding release
  stays_closed true s n = refl
  stays_closed false s n = n

  end-Closed :
      (w : World) (i : ℕ) (f : Flight) (o : Outcome)
      → w.shared.slot ≡ none
      → get_elem? w.flights i ≡ some f
      → Closed w (end_flight class w i o (some f))
  end-Closed w i f o n e = go f.progress
    where
      go :
          (p : Progress)
          → Closed w (elim p [ waiting k call ↦ finish_flight class w i f o | finished r ↦ w ])
      go (waiting k call) =
          let r = finish class f.method o w.shared in
          let g : Flight = record f { outcome = some o; progress = finished r.0 } in
          (
            rw (finish-closes class f.method o w.shared)
                (stays_closed (closes f.method o) w.shared n),
            in_use-set w.flights i f g r.0 e refl,
          )
      go (finished r) = (n, omega arith)

  step-Closed : (w : World) (e : Event) → w.shared.slot ≡ none → Closed w (step class w e)
  unfolding step
  step-Closed w (calls m) n =
      let f : Flight = record {
        method = m;
        outcome = none;
        progress = progress_of (begin class m w.shared);
      } in
      (
        n,
        ground (
          arith,
          in_use-snoc w.flights f (refusal class m) (rw (begin-closed m w.shared n) refl),
        ),
      )
  step-Closed w (ends i o) n = go (get_elem? w.flights i) refl
    where
      go : (x : Option Flight) → get_elem? w.flights i ≡ x → Closed w (end_flight class w i o x)
      go none e = (n, omega arith)
      go (some f) e = end-Closed w i f o n e

  run-Closed : (w : World) (es : List Event) → w.shared.slot ≡ none → Closed w (run class w es)
  unfolding run
  run-Closed w [] n = (n, omega arith)
  run-Closed w (e ∷ es) n =
      let (m, le) = step-Closed w e n in
      let (k, le') = run-Closed (step class w e) es m in (k, omega arith)

  -- An object whose slot is empty stays closed, whatever happens: the number of methods that use the
  -- connection never grows, and every method that is called then ends at once without it, an
  -- iteration by its end and any other by the error "WebSocket is closed".
  pub closed_for_good :
      (w : World) (es : List Event) (m : Method)
      → w.shared.slot ≡ none
      → let w' = run class w es in
        (w'.shared.slot ≡ none)
        × (in_use w'.flights ≤ in_use w.flights)
        × (begin class m w'.shared ≡ ended (refusal class m))
  closed_for_good w es m n =
      let (k, le) = run-Closed w es n in (k, le, begin-closed m (run class w es).shared k)
