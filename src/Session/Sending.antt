-- ===== src/Session/Sending.antt =====
-- The methods of `Session` in src/session.rs that send something, and `execute_request`.
mod Tests
pub mod Refusals
pub mod Counting
pub mod Blocking
use lkrequest_py.Prelude.{
  ℕ, String, Bool, false, List, [], ◌∷◌, ◌++◌, map, Option, none, some, leb, length, get_elem?, set,
  PyResult, ok, err, ◌>>=◌, ◌>>◌,
}
use lkrequest_py.Types.{F64}
use lkrequest_py.Upload.{Argument, UploadSource, extract}
use lkrequest_py.SessionState.{State, World, Behaviour, ensure_open, fire_request, fire_response}
use lkrequest_py.Metrics.{MetricsInner, Sample, record_global_metrics}
use lkrequest_py.Session.{
  Handle, Pairs, Bytes, RequestOpts, default_opts, PreparedRequest, BuilderCall,
  apply_request_options, validate_body_params, resolve_base_url,
}

-- The keyword arguments that every method takes, and those that only some do.
pub record Options : Type 0 where
  pub headers : Option Pairs
  pub params : Option Pairs
  pub cookies : Option Pairs
  pub cookie_override : Option Pairs
  pub timeout : Option F64
  pub bearer_auth : Option String
  pub basic_auth : Option (String × Option String)
  pub proxy : Option String
  pub accept_encoding : Option Handle
  pub header_order : Option (List String)
  pub cookie_order : Option (List String)
  pub h3_header_order : Option (List String)
  pub protocol_policy : Option Handle
  pub http_intent : Option Handle

pub record Tuning : Type 0 where
  pub no_decompress : Bool
  pub priority : Option Handle
  pub h2_priority_weight : Option ℕ
  pub preferred_http_version : Option Handle
  pub idempotency : Option Handle

-- The bodies. `json` is what `json.dumps` gives, `multipart` the number of a `Multipart` object.
pub record Bodies : Type 0 where
  pub json : Option (PyResult String)
  pub form : Option Pairs
  pub body : Option Bytes
  pub multipart : Option ℕ
  pub body_stream : Option Argument
  pub content_length : Option ℕ

-- The session with what its requests share: the metrics collector, and every `Multipart` object of
-- the program with its parts.
pub record Env : Type 0 where
  pub world : World
  pub metrics : MetricsInner
  pub multiparts : List (List Handle)

-- `serialize_json`, and `body_stream.map(extract).transpose()`.
pub serialize_json : Option (PyResult String) → PyResult (Option String)
serialize_json none = ok none
serialize_json (some dumped) = do s ← dumped; ok (some s)

abbrev pub extract_upload : Option Argument → PyResult (Option UploadSource)
extract_upload none = ok none
extract_upload (some source) = do u ← extract source; ok (some u)

-- `extract_multipart` takes the parts out of the object, and leaves it empty.
pub extract_multipart : Option ℕ → Env → Option (List Handle) × Env
extract_multipart none env = (none, env)
extract_multipart (some m) env = elim (get_elem? env.multiparts m) [
  | none ↦ (none, env)
  | some parts ↦ (some parts, record env { multiparts = set env.multiparts m [] })
]

abbrev pub prepared : String → String → Options → Bool → RequestOpts → PreparedRequest
prepared method url o no_decompress opts = record {
  method = method;
  url = url;
  headers = o.headers;
  params = o.params;
  json_body = none;
  form_data = none;
  raw_body = none;
  cookies = o.cookies;
  cookie_overrides = o.cookie_override;
  timeout = o.timeout;
  bearer_auth = o.bearer_auth;
  basic_auth = o.basic_auth;
  multipart = none;
  proxy = o.proxy;
  no_auto_decompress = no_decompress;
  accept_encoding = o.accept_encoding;
  opts = opts;
}

abbrev pub basic_opts : Options → RequestOpts
basic_opts o = record default_opts {
  header_order = o.header_order;
  cookie_order = o.cookie_order;
  h3_header_order = o.h3_header_order;
  protocol_policy = o.protocol_policy;
  http_intent = o.http_intent;
}

abbrev pub tuned_opts : Options → Tuning → RequestOpts
tuned_opts o t = record (basic_opts o) {
  priority = t.priority;
  h2_priority_weight = t.h2_priority_weight;
  preferred_http_version = t.preferred_http_version;
  idempotency = t.idempotency;
}

-- A request with its bodies, the converted ones given.
abbrev pub with_bodies :
    PreparedRequest
    → Bodies
    → Option String
    → Option UploadSource
    → Option (List Handle)
    → PreparedRequest
with_bodies r b json upload parts = record r {
  json_body = json;
  form_data = b.form;
  raw_body = b.body;
  multipart = parts;
  opts = record r.opts { body_stream = upload; content_length = b.content_length };
}

abbrev pub validate : PreparedRequest → PyResult (Unit {0})
validate r =
    validate_body_params r.json_body r.form_data r.raw_body r.multipart r.opts.body_stream
      r.opts.content_length

-- The bodies converted, in the source's order: `json`, `body_stream`, then `multipart`.
pub convert : PreparedRequest → Bodies → Env → PyResult PreparedRequest × Env
convert r b env = elim (serialize_json b.json) [
  | err e ↦ (err e, env)
  | ok json ↦ elim (extract_upload b.body_stream) [
    | err e ↦ (err e, env)
    | ok upload ↦
        let (parts, env') = extract_multipart b.multipart env in
        (ok (with_bodies r b json upload parts), env')
  ]
]

module _ (parse : String → Option Handle) (join : Handle → String → Option String)
    (base_url : Option String) where
  -- `make_request`: what it hands to the bridge, where it does.
  pub make_request : State → PreparedRequest → PyResult PreparedRequest
  make_request s r =
      let url = resolve_base_url parse join base_url r.url in
      validate r >> (ensure_open s >> ok (record r { url = url }))

  pub get : String → Options → Tuning → Env → PyResult PreparedRequest
  get url o t env =
      make_request env.world.state (prepared "GET" url o t.no_decompress (tuned_opts o t))

  pub head : String → Options → Env → PyResult PreparedRequest
  head url o env = make_request env.world.state (prepared "HEAD" url o false (basic_opts o))

  pub options : String → Options → Env → PyResult PreparedRequest
  options url o env = make_request env.world.state (prepared "OPTIONS" url o false (basic_opts o))

  -- The body that `request`, `post`, `put` and `patch` share.
  pub send_body : String → String → Options → Tuning → Bodies → Env → PyResult PreparedRequest × Env
  send_body method url o t b env =
      let r = prepared method url o t.no_decompress (tuned_opts o t) in
      let (full, env') = convert r b env in (full >>= make_request env'.world.state, env')

  pub post : String → Options → Tuning → Bodies → Env → PyResult PreparedRequest × Env
  post = send_body "POST"

  pub put : String → Options → Tuning → Bodies → Env → PyResult PreparedRequest × Env
  put = send_body "PUT"

  pub patch : String → Options → Tuning → Bodies → Env → PyResult PreparedRequest × Env
  patch = send_body "PATCH"

  -- `delete` takes no `multipart`.
  pub delete : String → Options → Tuning → Bodies → Env → PyResult PreparedRequest × Env
  delete url o t b = send_body "DELETE" url o t (record b { multipart = none })

  -- `request`, over `str::to_uppercase`.
  pub request :
      (String → String)
      → String
      → String
      → Options
      → Tuning
      → Bodies
      → Env
      → PyResult PreparedRequest × Env
  request to_uppercase method = send_body (to_uppercase method)

  pub send_streaming : String → String → Options → Bodies → Env → PyResult PreparedRequest × Env
  send_streaming method url o b env = elim (ensure_open env.world.state) [
    | err e ↦ (err e, env)
    | ok _ ↦
        let url' = resolve_base_url parse join base_url url in
        let (full, env') = convert (prepared method url' o false (basic_opts o)) b env in
        (full >>= (λ r. validate r >> ok r), env')
  ]

-- What the methods without a body hand to the bridge: the calls on the websocket's builder, and the
-- URLs to connect to.
pub data SocketCall : Type 0 where
  starts_websocket : String → SocketCall
  adds_socket_header : String → String → SocketCall
  adds_protocol : String → SocketCall

abbrev socket_headers : Option Pairs → List SocketCall
socket_headers none = []
socket_headers (some ps) = map (λ p. adds_socket_header p.0 p.1) ps

abbrev socket_protocols : Option (List String) → List SocketCall
socket_protocols none = []
socket_protocols (some ps) = map adds_protocol ps

pub ws_connect : String → Option Pairs → Option (List String) → State → PyResult (List SocketCall)
ws_connect url headers protocols s =
    ensure_open s
    >> ok (starts_websocket url ∷ socket_headers headers ++ socket_protocols protocols)

pub preconnect : String → State → PyResult String
preconnect url s = ensure_open s >> ok url

pub preconnect_many : List String → State → PyResult (List String)
preconnect_many urls s = ensure_open s >> ok urls

pub prefetch : List String → State → PyResult (List String)
prefetch urls s = ensure_open s >> ok urls

pub aenter : State → PyResult (Unit {0})
aenter s = ensure_open s

-- A response, as far as `execute_request` reads it before `PyResponse::from_response` copies it.
pub record Received : Type 0 where
  pub url : String
  pub status_code : ℕ
  pub body : Bytes
  pub elapsed : F64
  pub elapsed_nanos : ℕ

abbrev pub sample : Received → Sample
sample resp = record {
  elapsed = resp.elapsed;
  body_size = length resp.body;
  is_error = leb 400 resp.status_code;
}

-- `send` is the library's, with all that happens while it is awaited; its errors are those that
-- `to_py_err` makes.
module _ (add : F64 → F64 → F64) (host_of : String → Option String) (handles : ℕ)
    (hooks : Behaviour) (send : List BuilderCall → Env → PyResult Received × Env) where
  abbrev pub received : PyResult Received → Env → PyResult Received × Env
  received (err e) env = (err e, env)
  received (ok resp) env = (
    ok resp,
    record env {
      metrics = record_global_metrics add host_of handles resp.url (sample resp) env.metrics;
      world = fire_response hooks resp.status_code resp.url resp.elapsed_nanos env.world;
    },
  )

  pub execute_request : PreparedRequest → Env → PyResult Received × Env
  execute_request r env =
      let fired = record env { world = fire_request hooks r.method r.url r.headers env.world } in
      elim (apply_request_options r) [
        | err e ↦ (err e, fired)
        | ok calls ↦ let (result, after) = send calls fired in received result after
      ]
