-- ===== src/Session/Sending/Tests.antt =====
-- Runs of the methods of `Session` in src/session.rs.
use lkrequest_py.Prelude.{
  ◌≡◌, refl, ok, true, false, String, Bool, List, [], ◌∷◌, none, some, Option, PyResult, set,
}
use lkrequest_py.Types.{F64, pos}
use lkrequest_py.SessionState.{State, Behaviour}
use lkrequest_py.Metrics.{new_inner}
use lkrequest_py.Session.{Handle, default_opts, PreparedRequest, BuilderCall}
use lkrequest_py.Session.Sending.{
  Options, Tuning, Bodies, Env, Received, post, send_streaming, prepared, basic_opts,
}
use lkrequest_py.Session.Sending.Refusals.{IsErr, Entry, enter, closed_refuses, refused_parts}
use lkrequest_py.Session.Sending.Counting.{execute_all, Counts, execute_all-Counts}

-- A URL library that knows one absolute URL, and joins by taking the relative one for the result.
abbrev parse : String → Option Handle
parse url = none

abbrev join : Handle → String → Option String
join base url = some url

abbrev plain : Options
plain = record {
  headers = none;
  params = none;
  cookies = none;
  cookie_override = none;
  timeout = none;
  bearer_auth = none;
  basic_auth = none;
  proxy = none;
  accept_encoding = none;
  header_order = none;
  cookie_order = none;
  h3_header_order = none;
  protocol_policy = none;
  http_intent = none;
}

abbrev untuned : Tuning
untuned = record {
  no_decompress = false;
  priority = none;
  h2_priority_weight = none;
  preferred_http_version = none;
  idempotency = none;
}

abbrev state : Bool → State
state closed = record { request_hooks = []; response_hooks = []; closed = closed; middleware = [] }

abbrev env : Bool → Env
env closed = record {
  world = record { state = state closed; calls = []; warnings = 0 };
  metrics = new_inner;
  multiparts = (7 ∷ 8 ∷ []) ∷ [];
}

abbrev request_a : PreparedRequest
unfolding default_opts
request_a = prepared "GET" "a" plain false (basic_opts plain)

abbrev form : Bodies
form = record {
  json = none;
  form = none;
  body = none;
  multipart = some 0;
  body_stream = none;
  content_length = none;
}

abbrev upper : String → String
upper m = m

closed_refuses_example :
    IsErr (enter parse join none upper "get" (Entry.requests "a" plain untuned form) (env true)).0
closed_refuses_example =
    closed_refuses parse join none upper "get" (Entry.requests "a" plain untuned form) (env true)
      refl

refused_parts_example :
    IsErr (post parse join none "a" plain untuned form (env true)).0
    × ((post parse join none "a" plain untuned form (env true)).1
        ≡ record (env true) { multiparts = set ((7 ∷ 8 ∷ []) ∷ []) 0 [] })
    × ((send_streaming parse join none "POST" "a" plain form (env true)).1 ≡ env true)
refused_parts_example =
    refused_parts parse join none "a" plain untuned form (env true) 0 (7 ∷ 8 ∷ []) refl refl refl
      refl refl

abbrev parse_host : String → Option String
parse_host url = some "a"

abbrev later : F64 → F64 → F64
later x y = y

abbrev silent : Behaviour
silent = record { ops = λ cb. []; answer = λ cb. ok tt }

-- A server that answers 404.
abbrev missing : List BuilderCall → Env → PyResult Received × Env
missing calls e =
    (ok (record { url = "a"; status_code = 404; body = []; elapsed = pos 1; elapsed_nanos = 0 }), e)

execute_all-Counts_example :
    Counts later parse_host 2 silent missing
      (env false)
      (execute_all later parse_host 2 silent missing (request_a ∷ request_a ∷ []) (env false)).0
      (execute_all later parse_host 2 silent missing (request_a ∷ request_a ∷ []) (env false)).1
execute_all-Counts_example =
    execute_all-Counts later parse_host 2 silent missing refl (λ calls e. refl)
      (request_a ∷ request_a ∷ []) (env false)
