-- ===== src/Websocket/Closing.antt =====
-- What makes the connection of src/websocket.rs go away, and what follows from it.
use lkrequest_py.Prelude.{
  ℕ, zero, suc, ◌≡◌, refl, Bool, true, false, ◌||◌, List, [], ◌∷◌, ◌++◌, Option, none, some,
  get_elem?, set, All, All-set, All-append, All-get_elem?, subst, ap, arith, if◌then◌else◌,
}
use lkrequest_py.Websocket.{
  text, binary, ping, pong, close, Connection, Shared, new, release, Class, Method, send_text,
  send_binary, recv, next, close_with, Call, Outcome, failed, succeeded, received, Begun, ended,
  waits, begin, end_flight, finish_flight, progress_of, finish, Progress, waiting, finished, Flight,
  World, Event, calls, ends, step, run,
}

-- A call's end that closes the object: of `close` when it went through, of an iteration's step when
-- it brought a Close message or an error.
abbrev pub closes : Method → Outcome → Bool
closes (close_with code reason) (failed e) = false
closes (close_with code reason) _ = true
closes next (failed e) = true
closes next (received (close code reason)) = true
closes _ _ = false

abbrev pub has_closed : Flight → Bool
has_closed f = elim f.outcome [ none ↦ false | some o ↦ closes f.method o ]

abbrev pub any_closed : List Flight → Bool
any_closed [] = false
any_closed (f ∷ fs) = has_closed f || any_closed fs

pub finish-closes :
    (class : Class) (m : Method) (o : Outcome) (s : Shared)
    → (finish class m o s).1 ≡ (if closes m o then release s else s)
unfolding finish
finish-closes class (close_with code reason) (failed e) s = refl
finish-closes class (close_with code reason) succeeded s = refl
finish-closes class (close_with code reason) (received m) s = refl
finish-closes class next (failed e) s = refl
finish-closes class next (received (close code reason)) s = refl
finish-closes class next (received (text t)) s = refl
finish-closes class next (received (binary t)) s = refl
finish-closes class next (received (ping t)) s = refl
finish-closes class next (received (pong t)) s = refl
finish-closes class next succeeded s = refl
finish-closes class (send_text t) (failed e) s = refl
finish-closes class (send_text t) (received m) s = refl
finish-closes class (send_text t) succeeded s = refl
finish-closes class (send_binary t) (failed e) s = refl
finish-closes class (send_binary t) (received m) s = refl
finish-closes class (send_binary t) succeeded s = refl
finish-closes class recv (failed e) s = refl
finish-closes class recv (received m) s = refl
finish-closes class recv succeeded s = refl

-- A waiting flight has no outcome yet.
abbrev Consistent : Flight → Type 0
Consistent f = elim f.progress [ waiting c k ↦ f.outcome ≡ none | finished r ↦ Unit {0} ]

abbrev pub slot_of : Connection → List Flight → Option Connection
slot_of c fs = if any_closed fs then none else some c

-- The slot is empty exactly when some finished flight has closed it.
record Inv (c : Connection) (w : World) : Type 0 where
  slot : w.shared.slot ≡ slot_of c w.flights
  flights : All Consistent w.flights

any_closed-snoc :
    (fs : List Flight) (f : Flight) → any_closed (fs ++ f ∷ []) ≡ (any_closed fs || has_closed f)
any_closed-snoc [] f = ground arith
any_closed-snoc (x ∷ fs) f = ground (arith, any_closed-snoc fs f)

some_eq : {A : Type 0} {a b : A} → some a ≡ some b → a ≡ b
some_eq e = cc

any_closed-set :
    (fs : List Flight) (i : ℕ) (f g : Flight)
    → get_elem? fs i ≡ some f
    → has_closed f ≡ false
    → any_closed (set fs i g) ≡ (any_closed fs || has_closed g)
any_closed-set [] i f g e h = cc
any_closed-set (x ∷ fs) zero f g e h =
    let p : has_closed x ≡ false = ground (arith, some_eq e) in ground arith
any_closed-set (x ∷ fs) (suc i) f g e h = ground (arith, any_closed-set fs i f g e h)

none_of :
    (f : Flight) (k : Connection) (call : Call)
    → f.progress ≡ waiting k call
    → Consistent f
    → f.outcome ≡ none
none_of f k call q h =
    subst (λ (p : Progress). elim p [ waiting c k ↦ f.outcome ≡ none | finished r ↦ Unit {0} ]) q h

begun-Consistent :
    (b : Begun) (m : Method)
    → Consistent (record { method = m; outcome = none; progress = progress_of b })
begun-Consistent (ended r) m = tt
begun-Consistent (waits c k) m = refl

module _ (class : Class) (c : Connection) where
  flight-Inv :
      (w : World) (i : ℕ) (f : Flight) (o : Outcome)
      → Inv c w
      → get_elem? w.flights i ≡ some f
      → f.outcome ≡ none
      → Inv c (record {
        shared = (finish class f.method o w.shared).1;
        flights = set w.flights i (record f {
          outcome = some o;
          progress = finished (finish class f.method o w.shared).0;
        });
      })
  unfolding release
  flight-Inv w i f o v e n =
      let r = finish class f.method o w.shared in
      let g : Flight = record f { outcome = some o; progress = finished r.0 } in
      record {
        slot = ground (
          arith,
          v.slot,
          finish-closes class f.method o w.shared,
          any_closed-set w.flights i f g e (ap has n),
        );
        flights = All-set Consistent w.flights i g v.flights tt;
      }
    where
      has : Option Outcome → Bool
      has x = elim x [ none ↦ false | some p ↦ closes f.method p ]

  end-Inv :
      (w : World) (i : ℕ) (o : Outcome) (x : Option Flight)
      → Inv c w
      → get_elem? w.flights i ≡ x
      → Inv c (end_flight class w i o x)
  end-Inv w i o none v e = v
  end-Inv w i o (some f) v e = go f.progress refl
    where
      go :
          (p : Progress)
          → f.progress ≡ p
          → Inv c (elim p [ waiting k call ↦ finish_flight class w i f o | finished r ↦ w ])
      go (waiting k call) q =
          flight-Inv w i f o v e
            (none_of f k call q (All-get_elem? Consistent w.flights i v.flights e))
      go (finished r) q = v

  step-Inv : (w : World) (e : Event) → Inv c w → Inv c (step class w e)
  unfolding step
  step-Inv w (calls m) v =
      let f : Flight = record {
        method = m;
        outcome = none;
        progress = progress_of (begin class m w.shared);
      } in
      record {
        slot = ground (arith, v.slot, any_closed-snoc w.flights f);
        flights =
            All-append Consistent w.flights (f ∷ []) v.flights
              (begun-Consistent (begin class m w.shared) m, tt);
      }
  step-Inv w (ends i o) v = end-Inv w i o (get_elem? w.flights i) v refl

  run-Inv : (w : World) (es : List Event) → Inv c w → Inv c (run class w es)
  unfolding run
  run-Inv w [] v = v
  run-Inv w (e ∷ es) v = run-Inv (step class w e) es (step-Inv w e v)

  -- From the creation of the object on, whatever is called on it and however the calls end: the slot
  -- holds the connection as long as no finished method has closed it, and is empty once a `close`
  -- went through or a step of an iteration got a Close message or an error. A failing or closing
  -- `recv`, `send_text` or `send_binary`, and a failing `close`, leave it in place.
  pub run-closes :
      (es : List Event)
      → let w = run class (record { shared = new c; flights = [] }) es in
        w.shared.slot ≡ (if any_closed w.flights then none else some c)
  unfolding new
  run-closes es =
      (run-Inv (record { shared = new c; flights = [] }) es
        (record { slot = refl; flights = tt })).slot
