-- ===== src/ClientSession/Tests.antt =====
-- A session that `Client.session` of src/client.rs makes.
use lkrequest_py.Prelude.{◌≡◌, refl, true, false, [], ◌∷◌, none, some, All, length, ok}
use lkrequest_py.SessionState.{
  Slots, Op, with_middleware, push_request, push_response, Behaviour, closes,
}
use lkrequest_py.SessionState.Released.{calls_op, fires_request, act, act_all}
use lkrequest_py.Proxy.{proxy_url, uses_proxy, apply_session_proxy}
use lkrequest_py.ClientSession.{
  SessionOptions, Session, session, callable, retries_by, redirects_not, http2_only,
  adds_middleware, proxies, redirect_calls, version_calls, apply_retry_policy, apply_middlewares,
  body_calls, last_calls, https_only,
}
use lkrequest_py.ClientSession.Releasing.{EmptyAt, wrappers, given, session_releases}

abbrev slots : Slots
slots = record { on_request = some 1; on_response = none }

abbrev options : SessionOptions
options = record {
  proxy = some (proxy_url "http://p");
  max_redirects = some 3;
  allow_redirects = false;
  http1_only = false;
  http2_only = true;
  http3_only = false;
  http3_with_fallback = false;
  retry = some (callable 7);
  middleware = some (slots ∷ slots ∷ []);
  accept_encoding = none;
  ech_config = none;
  max_connections = none;
  idle_timeout = none;
  on_request = some 5;
  on_response = none;
  protocol_policy = none;
  http_intent = none;
  broken_quic_policy = none;
  h3_retry_mode = none;
  header_order = none;
  h3_header_order = none;
  cookie_order = none;
  https_only = true;
  hsts = none;
  base_url = none;
  network_partition_context = none;
}

abbrev made : Session
made = record {
  inner =
      proxies (uses_proxy "http://p")
      ∷ redirects_not
      ∷ http2_only
      ∷ retries_by 7
      ∷ adds_middleware 0
      ∷ adds_middleware 1
      ∷ https_only
      ∷ [];
  state = record {
    request_hooks = 5 ∷ [];
    response_hooks = [];
    closed = false;
    middleware = slots ∷ slots ∷ [];
  };
  base_url = none;
}

-- A hook that registers itself again.
abbrev behaviour : Behaviour
behaviour = record { ops = λ cb. Op.on_request cb ∷ []; answer = λ cb. ok tt }

session_releases_example :
    All
      (EmptyAt
        (act_all behaviour (fires_request "GET" "a" none ∷ []) (
          act behaviour (calls_op closes) (
            act_all behaviour
              (fires_request "GET" "a" none ∷ [])
              (record { state = made.state; calls = []; warnings = 0 })))).state.middleware)
      (wrappers made.inner)
    × (length (wrappers made.inner) ≡ length (given options.middleware))
unfolding session apply_session_proxy apply_retry_policy redirect_calls version_calls
    apply_middlewares body_calls last_calls with_middleware push_request push_response
session_releases_example =
    session_releases behaviour options made (fires_request "GET" "a" none ∷ [])
      (fires_request "GET" "a" none ∷ []) refl
