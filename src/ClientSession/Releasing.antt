-- ===== src/ClientSession/Releasing.antt =====
-- The middleware of a session that `Client.session` of src/client.rs made, when it is closed.
use lkrequest_py.Prelude.{
  ℕ, zero, suc, ◌+◌, ◌<◌, ◌≤◌, append_assoc, ◌≡◌, refl, sym, ◌∙◌, subst, ap, Bool, true, false,
  List, [], ◌∷◌, ◌++◌, Option, none, some, ok, ok_inj, >>=-eq-ok, length, get_elem?, All,
  All-append, All-get_elem?, length-append, arith,
}
use lkrequest_py.SessionState.{
  Slots, State, World, Behaviour, closes, default, with_middleware, push_request, push_response,
  Callback,
}
use lkrequest_py.SessionState.Released.{Action, calls_op, act, act_all, SlotsEmpty, act_all-close}
use lkrequest_py.SessionState.Released.Middlewares.{
  act_all-middleware, act-middleware, push-middleware, with_middleware-middleware,
}
use lkrequest_py.Proxy.{apply_session_proxy, ProxyArgument}
use lkrequest_py.Types.{F64, validated_duration}
use lkrequest_py.ClientSession.{
  SessionCall, adds_middleware, SessionOptions, Calls, when_some, when_set, redirect_calls,
  apply_retry_policy, RetryArgument, built_in, callable, no_policy, apply_middlewares,
  middleware_of, version_calls, body_calls, last_calls, Session, session, hooked, proxy_calls,
  retry_calls, idle_calls,
}

abbrev wraps : SessionCall → List ℕ
wraps (adds_middleware i) = i ∷ []
wraps call = []

-- The middleware wrappers that the library is given, by the places of their slots.
abbrev pub wrappers : Calls → List ℕ
wrappers [] = []
wrappers (c ∷ cs) = wraps c ++ wrappers cs

wrappers-append : (cs ds : Calls) → wrappers (cs ++ ds) ≡ wrappers cs ++ wrappers ds
wrappers-append [] ds = refl
wrappers-append (c ∷ cs) ds =
    ap (λ (l : List ℕ). wraps c ++ l) (wrappers-append cs ds)
    ∙ sym (append_assoc (wraps c) (wrappers cs) (wrappers ds))

apply_retry_policy-wraps :
    (r : RetryArgument) {c : SessionCall} → apply_retry_policy r ≡ ok c → wraps c ≡ []
unfolding apply_retry_policy
apply_retry_policy-wraps (built_in policy) e = subst (λ c. wraps c ≡ []) (ok_inj e) refl
apply_retry_policy-wraps (callable f) e = subst (λ c. wraps c ≡ []) (ok_inj e) refl
apply_retry_policy-wraps no_policy e = cc

-- `k` wrappers, with their slots at places below `n`.
record Wraps (n k : ℕ) (cs : Calls) : Type 0 where
  pub below : All (λ i. i < n) (wrappers cs)
  pub count : length (wrappers cs) ≡ k

reindex : {m n j k : ℕ} {cs : Calls} → m ≡ n → j ≡ k → Wraps m j cs → Wraps n k cs
reindex {m} {n} {j} {k} {cs} p q w = record {
  below = subst (λ (x : ℕ). All (λ i. i < x) (wrappers cs)) p w.below;
  count = w.count ∙ q;
}

module _ {n : ℕ} where
  nil-Wraps : Wraps n 0 []
  nil-Wraps = record { below = tt; count = refl }

  append-Wraps :
      {j k : ℕ} {cs ds : Calls} → Wraps n j cs → Wraps n k ds → Wraps n (j + k) (cs ++ ds)
  append-Wraps {cs = cs} {ds} v w = record {
    below =
        subst (All (λ i. i < n)) (sym (wrappers-append cs ds))
          (All-append (λ i. i < n) (wrappers cs) (wrappers ds) v.below w.below);
    count =
        let e = ap length (wrappers-append cs ds) in
        let f = length-append (wrappers cs) (wrappers ds) in
        let g = v.count in let h = w.count in omega (arith, e, f, g, h);
  }

  one-Wraps : {c : SessionCall} → wraps c ≡ [] → Wraps n 0 (c ∷ [])
  one-Wraps {c} e = record {
    below = subst (λ (l : List ℕ). All (λ i. i < n) (l ++ [])) (sym e) tt;
    count = ap (λ (l : List ℕ). length (l ++ [])) e;
  }

  when_some-Wraps :
      {A : Type 0} (o : Option A) (f : A → SessionCall)
      → ((a : A) → wraps (f a) ≡ [])
      → Wraps n 0 (when_some o f)
  when_some-Wraps none f h = nil-Wraps
  when_some-Wraps (some a) f h = one-Wraps (h a)

  when_set-Wraps : (b : Bool) (c : SessionCall) → wraps c ≡ [] → Wraps n 0 (when_set b c)
  when_set-Wraps true c h = one-Wraps h
  when_set-Wraps false c h = nil-Wraps

  redirect_calls-Wraps : (b : Bool) (o : Option ℕ) → Wraps n 0 (redirect_calls b o)
  unfolding redirect_calls
  redirect_calls-Wraps false o = one-Wraps refl
  redirect_calls-Wraps true o = when_some-Wraps o _ (λ a. refl)

  version_calls-Wraps : (o : SessionOptions) → Wraps n 0 (version_calls o)
  unfolding version_calls
  version_calls-Wraps o = append-Wraps (when_set-Wraps o.http1_only _ refl) (
      append-Wraps (when_set-Wraps o.http2_only _ refl) (
        append-Wraps (when_set-Wraps o.http3_only _ refl)
          (when_set-Wraps o.http3_with_fallback _ refl)))

  body_calls-Wraps : (o : SessionOptions) → Wraps n 0 (body_calls o)
  unfolding body_calls
  body_calls-Wraps o = append-Wraps (when_some-Wraps o.accept_encoding _ (λ a. refl)) (
      append-Wraps (when_some-Wraps o.ech_config _ (λ a. refl))
        (when_some-Wraps o.max_connections _ (λ a. refl)))

  last_calls-Wraps : (o : SessionOptions) → Wraps n 0 (last_calls o)
  unfolding last_calls
  last_calls-Wraps o = append-Wraps (when_some-Wraps o.protocol_policy _ (λ a. refl)) (
      append-Wraps (when_some-Wraps o.http_intent _ (λ a. refl)) (
        append-Wraps (when_some-Wraps o.broken_quic_policy _ (λ a. refl)) (
          append-Wraps (when_some-Wraps o.h3_retry_mode _ (λ a. refl)) (
            append-Wraps (when_some-Wraps o.header_order _ (λ a. refl)) (
              append-Wraps (when_some-Wraps o.cookie_order _ (λ a. refl)) (
                append-Wraps (when_some-Wraps o.h3_header_order _ (λ a. refl)) (
                  append-Wraps (when_set-Wraps o.https_only _ refl) (
                    append-Wraps (when_some-Wraps o.hsts _ (λ a. refl))
                      (when_some-Wraps o.network_partition_context _ (λ a. refl))))))))))

  proxy_calls-Wraps : (o : Option ProxyArgument) {cs : Calls} → proxy_calls o ≡ ok cs → Wraps n 0 cs
  proxy_calls-Wraps none e = subst (Wraps n 0) (ok_inj e) nil-Wraps
  proxy_calls-Wraps (some p) e =
      let (c, q, r) = >>=-eq-ok (apply_session_proxy p) _ e in
      subst (Wraps n 0) (ok_inj r) (one-Wraps refl)

  idle_calls-Wraps : (o : Option F64) {cs : Calls} → idle_calls o ≡ ok cs → Wraps n 0 cs
  idle_calls-Wraps none e = subst (Wraps n 0) (ok_inj e) nil-Wraps
  idle_calls-Wraps (some t) e =
      let (c, q, r) = >>=-eq-ok (validated_duration t) _ e in
      subst (Wraps n 0) (ok_inj r) (one-Wraps refl)

  retry_calls-Wraps : (o : Option RetryArgument) {cs : Calls} → retry_calls o ≡ ok cs → Wraps n 0 cs
  retry_calls-Wraps none e = subst (Wraps n 0) (ok_inj e) nil-Wraps
  retry_calls-Wraps (some t) e =
      let (c, q, r) = >>=-eq-ok (apply_retry_policy t) _ e in
      subst (Wraps n 0) (ok_inj r) (one-Wraps (apply_retry_policy-wraps t q))

apply_middlewares-Wraps :
    (i n : ℕ) (mws : List Slots)
    → i + length mws ≤ n
    → Wraps n (length mws) (apply_middlewares i mws).0
      × (length (apply_middlewares i mws).1 ≡ length mws)
unfolding apply_middlewares
apply_middlewares-Wraps i n [] h = (nil-Wraps, refl)
apply_middlewares-Wraps i n (mw ∷ mws) h =
    let (w, e) = apply_middlewares-Wraps (suc i) n mws (omega (arith, h)) in
    (
      record { below = (omega (arith, h), w.below); count = let c = w.count in omega (arith, c) },
      omega (arith, e),
    )

abbrev pub given : Option (List Slots) → List Slots
given none = []
given (some mws) = mws

middleware_of-Wraps :
    (o : Option (List Slots))
    → Wraps (length (given o)) (length (given o)) (middleware_of o).0
      × (length (middleware_of o).1 ≡ length (given o))
middleware_of-Wraps none = (nil-Wraps, refl)
middleware_of-Wraps (some mws) = apply_middlewares-Wraps 0 (length mws) mws (omega arith)

hooked-middleware :
    (o p : Option Callback) (s : State)
    → (hooked o push_response (hooked p push_request s)).middleware ≡ s.middleware
hooked-middleware none none s = refl
hooked-middleware none (some p) s = (push-middleware p s).0
hooked-middleware (some o) none s = (push-middleware o s).1
hooked-middleware (some o) (some p) s =
    (push-middleware o (push_request p s)).1 ∙ (push-middleware p s).0

-- The library's session is given one wrapper for each middleware, and the state has slots for each.
session-Wraps :
    (o : SessionOptions) (s : Session)
    → session o ≡ ok s
    → Wraps (length s.state.middleware) (length (given o.middleware)) s.inner
      × (length s.state.middleware ≡ length (given o.middleware))
unfolding session
session-Wraps o s e =
    let (ps, p1, e1) = >>=-eq-ok (proxy_calls o.proxy) _ e in
    let (rs, p2, e2) = >>=-eq-ok (retry_calls o.retry) _ e1 in
    let (is, p3, e3) = >>=-eq-ok (idle_calls o.idle_timeout) _ e2 in
    let (w, l) = middleware_of-Wraps o.middleware in
    let state = with_middleware default (middleware_of o.middleware).1 in
    let len =
      ap length (
        hooked-middleware o.on_response o.on_request state
        ∙ with_middleware-middleware default (middleware_of o.middleware).1)
      ∙ l in
    subst
      (λ t.
        Wraps (length t.state.middleware) (length (given o.middleware)) t.inner
        × (length t.state.middleware ≡ length (given o.middleware)))
      (ok_inj e3)
      (
        reindex (sym len) (omega arith) (
            append-Wraps (proxy_calls-Wraps o.proxy p1) (
              append-Wraps (redirect_calls-Wraps o.allow_redirects o.max_redirects) (
                append-Wraps (version_calls-Wraps o) (
                  append-Wraps (retry_calls-Wraps o.retry p2) (
                    append-Wraps w (
                      append-Wraps (body_calls-Wraps o) (
                        append-Wraps (idle_calls-Wraps o.idle_timeout p3)
                          (last_calls-Wraps o)))))))),
        len,
      )

elem_below :
    {A : Type 0} (xs : List A) (i : ℕ) → i < length xs → (x : A) × (get_elem? xs i ≡ some x)
elem_below [] i h = absurd (omega (arith, h))
elem_below (x ∷ xs) zero h = (x, refl)
elem_below (x ∷ xs) (suc i) h = elem_below xs i (omega (arith, h))

-- The slots at a place, which are empty.
abbrev pub EmptyAt : List Slots → ℕ → Type 0
EmptyAt slots i = (s : Slots) × (get_elem? slots i ≡ some s) × SlotsEmpty s

All-EmptyAt :
    (slots : List Slots) (is : List ℕ)
    → All SlotsEmpty slots
    → All (λ i. i < length slots) is
    → All (EmptyAt slots) is
All-EmptyAt slots [] h b = tt
All-EmptyAt slots (i ∷ is) h b =
    let (s, e) = elem_below slots i b.0 in
    ((s, e, All-get_elem? SlotsEmpty slots i h e), All-EmptyAt slots is h b.1)

-- Closing a session that `Client.session` made releases the callbacks of every middleware it was made
-- with, whatever happened to the session before it was closed and whatever happens after: the library
-- holds one wrapper for each middleware given, and the slots that a wrapper reads its callbacks from are
-- empty.
pub session_releases :
    (b : Behaviour) (o : SessionOptions) (s : Session) (before after : List Action)
    → session o ≡ ok s
    → let w = act_all b before (record { state = s.state; calls = []; warnings = 0 }) in
      All
        (EmptyAt (act_all b after (act b (calls_op closes) w)).state.middleware)
        (wrappers s.inner)
      × (length (wrappers s.inner) ≡ length (given o.middleware))
session_releases b o s before after e =
    let start : World = record { state = s.state; calls = []; warnings = 0 } in
    let w = act_all b before start in
    let (v, l) = session-Wraps o s e in
    let released = (act_all-close b after w).0 in
    let final = act_all b after (act b (calls_op closes) w) in
    let len : length final.state.middleware ≡ length s.state.middleware =
      act_all-middleware b after (act b (calls_op closes) w)
      ∙ (act-middleware b (calls_op closes) w ∙ act_all-middleware b before start) in
    (
      All-EmptyAt final.state.middleware (wrappers s.inner) released.no_middleware
          (subst (λ (n : ℕ). All (λ i. i < n) (wrappers s.inner)) (sym len) v.below),
      v.count,
    )
