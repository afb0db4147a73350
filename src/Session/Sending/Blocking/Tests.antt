-- ===== src/Session/Sending/Blocking/Tests.antt =====
-- A blocking call of src/session.rs, against the asynchronous one.
use lkrequest_py.Prelude.{◌≡◌, ok, false, String, List, [], ◌∷◌, none, some, Option, PyResult}
use lkrequest_py.Types.{F64, pos}
use lkrequest_py.SessionState.{Behaviour}
use lkrequest_py.Metrics.{new_inner}
use lkrequest_py.Session.{Handle, BuilderCall}
use lkrequest_py.Session.Sending
use lkrequest_py.Session.Sending.{Options, Tuning, Bodies, Env, Received}
use lkrequest_py.Session.Sending.Blocking
use lkrequest_py.Session.Sending.Blocking.{block_on, stream_request}
use lkrequest_py.Session.Sending.Blocking.Twins.{
  Ask, posts, submit, call, complete, feed, twins_agree,
}

abbrev parse : String → Option Handle
parse url = none

abbrev join : Handle → String → Option String
join base url = some url

abbrev upper : String → String
upper m = m

abbrev later : F64 → F64 → F64
later x y = y

abbrev parse_host : String → Option String
parse_host url = some "a"

abbrev silent : Behaviour
silent = record { ops = λ cb. []; answer = λ cb. ok tt }

abbrev answers : List BuilderCall → Env → PyResult Received × Env
answers calls e =
    (ok (record { url = "a"; status_code = 200; body = []; elapsed = pos 1; elapsed_nanos = 0 }), e)

abbrev opens : List BuilderCall → Env → PyResult Handle × Env
opens calls e = (ok 5, e)

abbrev plain : Options
plain = record {
  headers = none;
  params = none;
  cookies = none;
  cookie_override = none;
  timeout = none;
  bearer_auth = none;
  basic_auth = none;
  proxy = none;
  accept_encoding = none;
  header_order = none;
  cookie_order = none;
  h3_header_order = none;
  protocol_policy = none;
  http_intent = none;
}

abbrev untuned : Tuning
untuned = record {
  no_decompress = false;
  priority = none;
  h2_priority_weight = none;
  preferred_http_version = none;
  idempotency = none;
}

abbrev form : Bodies
form = record {
  json = none;
  form = none;
  body = none;
  multipart = some 0;
  body_stream = none;
  content_length = none;
}

abbrev env : Env
env = record {
  world = record {
    state = record { request_hooks = []; response_hooks = []; closed = false; middleware = [] };
    calls = [];
    warnings = 0;
  };
  metrics = new_inner;
  multiparts = (7 ∷ 8 ∷ []) ∷ [];
}

abbrev ask : Ask
ask = posts "a" plain untuned form

twins_agree_example :
    (call parse join none upper later parse_host 2 silent answers none ask env
      ≡ complete later parse_host 2 silent answers none (submit parse join none upper ask env))
    × (Blocking.send_streaming opens none parse join none "POST" "a" plain form env
        ≡ feed
            (λ r env'. block_on none (stream_request opens r env'))
            (Sending.send_streaming parse join none "POST" "a" plain form env))
twins_agree_example =
    twins_agree parse join none upper later parse_host 2 silent answers opens none ask "POST" "a"
      plain form env
