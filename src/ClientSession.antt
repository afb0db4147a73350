-- ===== src/ClientSession.antt =====
-- `Client.session` of src/client.rs, with `Hsts.apply` of src/hsts.rs: the options of a session,
-- turned into calls on a `SessionBuilder` of the `lkrequest` library, and the state of the session
-- that they start with. The published wheel has the `quic-h3` feature.
mod Tests
pub mod Releasing
use lkrequest_py.Prelude.{
  ℕ, suc, String, Bool, true, false, not, List, [], ◌∷◌, ◌++◌, Option, none, some, if◌then◌else◌,
  type_error, PyResult, ok, err, new_err, ◌>>=◌,
}
use lkrequest_py.Types.{F64, Duration, validated_duration}
use lkrequest_py.SessionState.{
  Callback, Slots, State, default, with_middleware, push_request, push_response,
}
use lkrequest_py.Retry.{Policy}
use lkrequest_py.Proxy.{ProxyArgument, ProxyCall, apply_session_proxy}
use lkrequest_py.Protocol.{LibIntent, HttpIntent, to_lib_intent, BrokenQuicPolicy, H3RetryMode}

-- A value of the library.
abbrev pub Handle : Type 0
Handle = ℕ

-- `HstsKind`, and the policies of the library.
pub data HstsKind : Type 0 where
  no_hsts : HstsKind
  static_hsts : List String → Bool → HstsKind
  dynamic_hsts : List String → HstsKind

pub data HstsPolicy : Type 0 where
  never_upgrades learns_hosts : HstsPolicy
  upgrades_hosts upgrades_hosts_and_tlds learns_hosts_from : List String → HstsPolicy

-- `Hsts.dynamic`.
pub dynamic : Option (List String) → HstsKind
dynamic none = dynamic_hsts []
dynamic (some seed) = dynamic_hsts seed

pub hsts_policy : HstsKind → HstsPolicy
hsts_policy no_hsts = never_upgrades
hsts_policy (static_hsts hosts true) = upgrades_hosts_and_tlds hosts
hsts_policy (static_hsts hosts false) = upgrades_hosts hosts
hsts_policy (dynamic_hsts []) = learns_hosts
hsts_policy (dynamic_hsts (h ∷ hs)) = learns_hosts_from (h ∷ hs)

-- A Python object where a retry policy is looked for.
pub data RetryArgument : Type 0 where
  built_in : Policy → RetryArgument
  callable : Callback → RetryArgument
  no_policy : RetryArgument

-- A call on the builder. `adds_middleware` gives the library a wrapper; it shares the slots that stand
-- at this place in the session's state.
pub data SessionCall : Type 0 where
  proxies : ProxyCall → SessionCall
  redirects_not : SessionCall
  sets_max_redirects : ℕ → SessionCall
  http1_only http2_only http3_only http3_with_fallback : SessionCall
  retries : Policy → SessionCall
  retries_by : Callback → SessionCall
  adds_middleware : ℕ → SessionCall
  sets_accept_encoding sets_protocol_policy sets_network_partition : Handle → SessionCall
  sets_ech_config : List ℕ → SessionCall
  sets_max_connections : ℕ → SessionCall
  sets_idle_timeout : Duration → SessionCall
  sets_http_intent : LibIntent → SessionCall
  sets_broken_quic_policy : BrokenQuicPolicy → SessionCall
  sets_h3_retry_mode : H3RetryMode → SessionCall
  sets_header_order sets_cookie_order sets_h3_header_order : List String → SessionCall
  https_only : SessionCall
  sets_hsts : HstsPolicy → SessionCall

pub record SessionOptions : Type 0 where
  pub proxy : Option ProxyArgument
  pub max_redirects : Option ℕ
  pub allow_redirects : Bool
  pub http1_only : Bool
  pub http2_only : Bool
  pub http3_only : Bool
  pub http3_with_fallback : Bool
  pub retry : Option RetryArgument
  pub middleware : Option (List Slots)
  pub accept_encoding : Option Handle
  pub ech_config : Option (List ℕ)
  pub max_connections : Option ℕ
  pub idle_timeout : Option F64
  pub on_request : Option Callback
  pub on_response : Option Callback
  pub protocol_policy : Option Handle
  pub http_intent : Option HttpIntent
  pub broken_quic_policy : Option BrokenQuicPolicy
  pub h3_retry_mode : Option H3RetryMode
  pub header_order : Option (List String)
  pub h3_header_order : Option (List String)
  pub cookie_order : Option (List String)
  pub https_only : Bool
  pub hsts : Option HstsKind
  pub base_url : Option String
  pub network_partition_context : Option Handle

abbrev pub Calls : Type 0
Calls = List SessionCall

abbrev pub when_some {ℓ} : {A : Type ℓ} → Option A → (A → SessionCall) → Calls
when_some none f = []
when_some (some a) f = f a ∷ []

abbrev pub when_set : Bool → SessionCall → Calls
when_set true c = c ∷ []
when_set false c = []

abbrev pub proxy_calls : Option ProxyArgument → PyResult Calls
proxy_calls none = ok []
proxy_calls (some p) = do call ← apply_session_proxy p; ok (proxies call ∷ [])

-- `allow_redirects=False` goes before `max_redirects`.
pub redirect_calls : Bool → Option ℕ → Calls
redirect_calls false max_redirects = redirects_not ∷ []
redirect_calls true max_redirects = when_some max_redirects sets_max_redirects

pub apply_retry_policy : RetryArgument → PyResult SessionCall
apply_retry_policy (built_in policy) = ok (retries policy)
apply_retry_policy (callable f) = ok (retries_by f)
apply_retry_policy no_policy =
    new_err type_error
      "retry must be ExponentialBackoff, FixedInterval, or a callable(attempt, error, status) -> float | None"

abbrev pub retry_calls : Option RetryArgument → PyResult Calls
retry_calls none = ok []
retry_calls (some r) = do call ← apply_retry_policy r; ok (call ∷ [])

-- One wrapper for each middleware, with slots of its own that hold the callbacks; `i` is the place of
-- the first.
pub apply_middlewares : ℕ → List Slots → Calls × List Slots
apply_middlewares i [] = ([], [])
apply_middlewares i (mw ∷ mws) =
    let rest = apply_middlewares (suc i) mws in
    (
      adds_middleware i ∷ rest.0,
      record { on_request = mw.on_request; on_response = mw.on_response } ∷ rest.1,
    )

abbrev pub middleware_of : Option (List Slots) → Calls × List Slots
middleware_of none = ([], [])
middleware_of (some mws) = apply_middlewares 0 mws

abbrev pub idle_calls : Option F64 → PyResult Calls
idle_calls none = ok []
idle_calls (some t) = do d ← validated_duration t; ok (sets_idle_timeout d ∷ [])

pub version_calls : SessionOptions → Calls
version_calls o =
    when_set o.http1_only http1_only
    ++ (when_set o.http2_only http2_only
        ++ (when_set o.http3_only http3_only ++ when_set o.http3_with_fallback http3_with_fallback))

pub body_calls : SessionOptions → Calls
body_calls o =
    when_some o.accept_encoding sets_accept_encoding
    ++ (when_some o.ech_config sets_ech_config ++ when_some o.max_connections sets_max_connections)

pub last_calls : SessionOptions → Calls
last_calls o =
    when_some o.protocol_policy sets_protocol_policy
    ++ (when_some o.http_intent (λ intent. sets_http_intent (to_lib_intent intent))
        ++ (when_some o.broken_quic_policy sets_broken_quic_policy
            ++ (when_some o.h3_retry_mode sets_h3_retry_mode
                ++ (when_some o.header_order sets_header_order
                    ++ (when_some o.cookie_order sets_cookie_order
                        ++ (when_some o.h3_header_order sets_h3_header_order
                            ++ (when_set o.https_only https_only
                                ++ (when_some o.hsts (λ kind. sets_hsts (hsts_policy kind))
                                    ++ when_some o.network_partition_context
                                        sets_network_partition))))))))

abbrev hooked : Option Callback → (Callback → State → State) → State → State
hooked none push s = s
hooked (some cb) push s = push cb s

-- `PySession`: the library's session by the calls that build it.
pub record Session : Type 0 where
  pub inner : Calls
  pub state : State
  pub base_url : Option String

pub session : SessionOptions → PyResult Session
session o = do
  proxy ← proxy_calls o.proxy
  retry ← retry_calls o.retry
  idle ← idle_calls o.idle_timeout
  let wrapped = middleware_of o.middleware
  let state = with_middleware default wrapped.1
  ok (record {
    inner =
        proxy
        ++ (redirect_calls o.allow_redirects o.max_redirects
            ++ (version_calls o
                ++ (retry ++ (wrapped.0 ++ (body_calls o ++ (idle ++ last_calls o))))));
    state = hooked o.on_response push_response (hooked o.on_request push_request state);
    base_url = o.base_url;
  })

-- `BlockingClient.session`, which the source writes out a second time.
pub blocking_session : SessionOptions → PyResult Session
blocking_session = session
