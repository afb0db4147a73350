-- ===== src/Session/Building.antt =====
-- The builder calls that `apply_request_options` of src/session.rs makes for a checked request.
use lkrequest_py.Prelude.{
  ℕ, ◌≡◌, refl, String, Bool, true, false, List, [], ◌∷◌, ◌++◌, Option, none, some, arith,
  if◌then◌else◌, new_err, value_error, ◌<>◌, ok, ok_inj, subst, >>=-eq-ok,
}
use lkrequest_py.Types.{Duration, optional_duration}
use lkrequest_py.Session.{
  Pairs, PreparedRequest, Verb, verb_of, BuilderCall, starts, adds_header, adds_cookie,
  adds_cookie_override, sets_query, sets_bearer_auth, sets_timeout, sets_proxy,
  sets_no_auto_decompress, sets_accept_encoding, sets_priority, sets_preferred_http_version,
  sets_idempotency, sets_protocol_policy, sets_http_intent, sets_h2_priority_weight,
  sets_header_order, sets_cookie_order, sets_h3_header_order, sets_text_body, sets_body, sets_form,
  sets_multipart, sets_body_stream, start_call, when_some, for_pairs, for_each, when_set, basic,
  head_calls, option_calls, body_calls, apply_request_options,
}
use lkrequest_py.Session.Sending.{validate}
use lkrequest_py.Session.Checks.{validate-IsValid}

-- The calls that give the request a body.
abbrev pub is_body : BuilderCall → Bool
is_body (sets_text_body _) = true
is_body (sets_body _) = true
is_body (sets_form _) = true
is_body (sets_multipart _) = true
is_body (sets_body_stream _ _) = true
is_body _ = false

abbrev pub bodies : List BuilderCall → List BuilderCall
bodies [] = []
bodies (c ∷ cs) = if is_body c then c ∷ bodies cs else bodies cs

-- Every body that the caller gave, as the call that sends it.
abbrev pub given : PreparedRequest → List BuilderCall
given r =
    when_some r.json_body sets_text_body
    ++ (when_some r.form_data sets_form
        ++ (when_some r.multipart sets_multipart
            ++ (when_some r.raw_body sets_body
                ++ when_some r.opts.body_stream (λ s. sets_body_stream s r.opts.content_length))))

bodies-append : (xs ys : List BuilderCall) → bodies (xs ++ ys) ≡ bodies xs ++ bodies ys
bodies-append [] ys = refl
bodies-append (x ∷ xs) ys = ground (arith, bodies-append xs ys)

abbrev NotBody {ℓ} : {A : Type ℓ} → (A → BuilderCall) → Type ℓ
NotBody {A = A} f = (a : A) → is_body (f a) ≡ false

bodies-when_some {ℓ} :
    {A : Type ℓ} (o : Option A) (f : A → BuilderCall) → NotBody f → bodies (when_some o f) ≡ []
bodies-when_some none f h = refl
bodies-when_some (some a) f h = rw (h a) refl

bodies-for_pairs :
    (ps : Pairs) (f : String → String → BuilderCall)
    → ((k v : String) → is_body (f k v) ≡ false)
    → bodies (for_pairs ps f) ≡ []
bodies-for_pairs [] f h = refl
bodies-for_pairs ((k, v) ∷ ps) f h = rw (h k v) (bodies-for_pairs ps f h)

bodies-for_each :
    (o : Option Pairs) (f : String → String → BuilderCall)
    → ((k v : String) → is_body (f k v) ≡ false)
    → bodies (for_each o f) ≡ []
bodies-for_each none f h = refl
bodies-for_each (some ps) f h = bodies-for_pairs ps f h

bodies-head_calls : (r : PreparedRequest) → bodies (head_calls r) ≡ []
unfolding head_calls
bodies-head_calls r =
    simp
      (
        bodies-append,
        bodies-for_each r.headers adds_header (λ (k v : String). refl),
        bodies-when_some r.params sets_query (λ (p : Pairs). refl),
        bodies-for_each r.cookies adds_cookie (λ (k v : String). refl),
        bodies-for_each r.cookie_overrides adds_cookie_override (λ (k v : String). refl),
        bodies-when_some r.bearer_auth sets_bearer_auth (λ (t : String). refl),
        bodies-when_some r.basic_auth basic (λ (t : String × Option String). refl),
      )
      refl

bodies-when_set : (b : Bool) (c : BuilderCall) → is_body c ≡ false → bodies (when_set b c) ≡ []
bodies-when_set true c h = rw h refl
bodies-when_set false c h = refl

bodies-option_calls : (r : PreparedRequest) → bodies (option_calls r) ≡ []
unfolding option_calls
bodies-option_calls r =
    let o = r.opts in
    simp
      (
        bodies-append,
        bodies-when_some r.proxy sets_proxy (λ (t : String). refl),
        bodies-when_set r.no_auto_decompress sets_no_auto_decompress refl,
        bodies-when_some r.accept_encoding sets_accept_encoding (λ (t : ℕ). refl),
        bodies-when_some o.priority sets_priority (λ (t : ℕ). refl),
        bodies-when_some o.h2_priority_weight sets_h2_priority_weight (λ (t : ℕ). refl),
        bodies-when_some o.preferred_http_version sets_preferred_http_version (λ (t : ℕ). refl),
        bodies-when_some o.idempotency sets_idempotency (λ (t : ℕ). refl),
        bodies-when_some o.header_order sets_header_order (λ (t : List String). refl),
        bodies-when_some o.cookie_order sets_cookie_order (λ (t : List String). refl),
        bodies-when_some o.h3_header_order sets_h3_header_order (λ (t : List String). refl),
        bodies-when_some o.protocol_policy sets_protocol_policy (λ (t : ℕ). refl),
        bodies-when_some o.http_intent sets_http_intent (λ (t : ℕ). refl),
      )
      refl

-- With at most one body, the chain of tests passes none over.
bodies-body_calls : (r : PreparedRequest) → validate r ≡ ok tt → bodies (body_calls r) ≡ given r
unfolding body_calls
bodies-body_calls r v =
    let (one, _) =
      validate-IsValid r.json_body r.form_data r.raw_body r.multipart r.opts.body_stream
        r.opts.content_length v in
    ground arith

-- The start of the request is the call that its method's name asks for.
start-not-body : (m u : String) {c : BuilderCall} → start_call m u ≡ ok c → is_body c ≡ false
start-not-body m u {c} h = go (verb_of m) h
  where
    go :
        (x : Option Verb)
        → elim x [
          | some v ↦ ok (starts v u)
          | none ↦ new_err value_error ("Unsupported HTTP method: " <> m)
        ]
          ≡ ok c
        → is_body c ≡ false
    go none h = cc
    go (some v) h = subst (λ (d : BuilderCall). is_body d ≡ false) (ok_inj h) refl

-- A request that was checked and whose options are applied sends each body that the caller gave,
-- once, by the call for its form, and no other: none is dropped by another, and the length given for
-- a stream goes with it.
pub apply-bodies :
    (r : PreparedRequest) (calls : List BuilderCall)
    → validate r ≡ ok tt
    → apply_request_options r ≡ ok calls
    → bodies calls ≡ given r
unfolding apply_request_options
apply-bodies r calls v h =
    let (start, s, h') = >>=-eq-ok (start_call r.method r.url) _ h in
    let (timeout, t, h'') = >>=-eq-ok (optional_duration r.timeout) _ h' in
    subst (λ (cs : List BuilderCall). bodies cs ≡ given r) (ok_inj h'')
      (simp
        (
          start-not-body r.method r.url s,
          bodies-append,
          bodies-head_calls r,
          bodies-when_some timeout sets_timeout (λ (d : Duration). refl),
          bodies-option_calls r,
          bodies-body_calls r v,
        )
        refl)
