-- ===== src/Session/Sending/Blocking.antt =====
-- `BlockingSession` of src/session.rs: the methods of `Session` on the blocking runtime, which the
-- source writes out a second time. A call returns when its work is done.
mod Tests
pub mod Twins
use lkrequest_py.Prelude.{
  ℕ, String, Bool, false, List, [], ◌∷◌, ◌++◌, Option, none, some, PyResult, ok, err, new_err,
  runtime_error,
}
use lkrequest_py.Types.{F64}
use lkrequest_py.Upload.{UploadSource}
use lkrequest_py.SessionState.{Behaviour, ensure_open}
use lkrequest_py.Session.{
  Handle, Pairs, PreparedRequest, BuilderCall, apply_request_options, validate_body_params,
  resolve_base_url,
}
use lkrequest_py.Session.Sending.{
  Options, Tuning, prepared, basic_opts, tuned_opts, with_bodies, Bodies, Env, serialize_json,
  extract_upload, extract_multipart, validate, SocketCall, starts_websocket, socket_headers,
  socket_protocols, Received, execute_request,
}

-- `block_on(closing.guard(work))`. `none` when the work finishes; otherwise the session is closed
-- under it, and this is what the abandoned work leaves.
pub block_on : {A : Type 0} → Option Env → PyResult A × Env → PyResult A × Env
block_on none done = done
block_on (some left) done =
    (new_err runtime_error "Session was closed while the request was in flight", left)

-- Work that a session starts if it is open.
pub while_open : {A : Type 0} → Option Env → (Env → PyResult A × Env) → Env → PyResult A × Env
while_open cut work env = elim (ensure_open env.world.state) [
  | err e ↦ (err e, env)
  | ok _ ↦ block_on cut (work env)
]

-- `serialize_json`, `UploadSource::extract` and `extract_multipart`, in this order, and then `next`.
pub with_converted :
    {A : Type 0}
    → Bodies
    → (Option String → Option UploadSource → Option (List Handle) → Env → PyResult A × Env)
    → Env
    → PyResult A × Env
with_converted b next env = elim (serialize_json b.json) [
  | err e ↦ (err e, env)
  | ok json ↦ elim (extract_upload b.body_stream) [
    | err e ↦ (err e, env)
    | ok upload ↦
        let (parts, env') = extract_multipart b.multipart env in next json upload parts env'
  ]
]

-- `send` is the library's, as for `execute_request`.
module _ (parse : String → Option Handle) (join : Handle → String → Option String)
    (base_url : Option String) (add : F64 → F64 → F64) (host_of : String → Option String)
    (handles : ℕ) (hooks : Behaviour) (send : List BuilderCall → Env → PyResult Received × Env)
    (cut : Option Env) where
  pub make_blocking_request : PreparedRequest → Env → PyResult Received × Env
  make_blocking_request r env =
      let url = resolve_base_url parse join base_url r.url in
      elim (validate r) [
        | err e ↦ (err e, env)
        | ok _ ↦
            while_open cut (execute_request add host_of handles hooks send (record r { url = url }))
              env
      ]

  pub get : String → Options → Tuning → Env → PyResult Received × Env
  get url o t = make_blocking_request (prepared "GET" url o t.no_decompress (tuned_opts o t))

  pub head : String → Options → Env → PyResult Received × Env
  head url o = make_blocking_request (prepared "HEAD" url o false (basic_opts o))

  pub options : String → Options → Env → PyResult Received × Env
  options url o = make_blocking_request (prepared "OPTIONS" url o false (basic_opts o))

  pub send_body : String → String → Options → Tuning → Bodies → Env → PyResult Received × Env
  send_body method url o t b = with_converted b (λ json upload parts.
      make_blocking_request
        (with_bodies (prepared method url o t.no_decompress (tuned_opts o t)) b json upload parts))

  pub post : String → Options → Tuning → Bodies → Env → PyResult Received × Env
  post = send_body "POST"

  pub put : String → Options → Tuning → Bodies → Env → PyResult Received × Env
  put = send_body "PUT"

  pub patch : String → Options → Tuning → Bodies → Env → PyResult Received × Env
  patch = send_body "PATCH"

  -- `delete` takes no `multipart`.
  pub delete : String → Options → Tuning → Bodies → Env → PyResult Received × Env
  delete url o t b = send_body "DELETE" url o t (record b { multipart = none })

  pub request :
      (String → String)
      → String
      → String
      → Options
      → Tuning
      → Bodies
      → Env
      → PyResult Received × Env
  request to_uppercase method = send_body (to_uppercase method)

-- `stream` is the library's `send_streaming`, which gives a streaming response.
-- The work of a streaming request, once it is checked.
module _ (stream : List BuilderCall → Env → PyResult Handle × Env) where
  pub stream_request : PreparedRequest → Env → PyResult Handle × Env
  stream_request r env = elim (apply_request_options r) [
    | err e ↦ (err e, env)
    | ok calls ↦ stream calls env
  ]

module _ (stream : List BuilderCall → Env → PyResult Handle × Env) (cut : Option Env) where
  abbrev pub checked_stream : PreparedRequest → Env → PyResult Handle × Env
  checked_stream r env = elim (validate r) [
    | err e ↦ (err e, env)
    | ok _ ↦ block_on cut (stream_request stream r env)
  ]

  pub send_streaming :
      (String → Option Handle)
      → (Handle → String → Option String)
      → Option String
      → String
      → String
      → Options
      → Bodies
      → Env
      → PyResult Handle × Env
  send_streaming parse join base_url method url o b env =
      let r = prepared method (resolve_base_url parse join base_url url) o false (basic_opts o) in
      elim (ensure_open env.world.state) [
        | err e ↦ (err e, env)
        | ok _ ↦
            with_converted b
              (λ json upload parts. checked_stream (with_bodies r b json upload parts)) env
      ]

-- `connect` makes the library's connection.
pub ws_connect :
    (List SocketCall → Env → PyResult Handle × Env)
    → Option Env
    → String
    → Option Pairs
    → Option (List String)
    → Env
    → PyResult Handle × Env
ws_connect connect cut url headers protocols =
    while_open cut
      (connect (starts_websocket url ∷ socket_headers headers ++ socket_protocols protocols))

-- `connect` is the library's `preconnect`.
pub preconnect :
    (String → Env → PyResult (Unit {0}) × Env)
    → Option Env
    → String
    → Env
    → PyResult (Unit {0}) × Env
preconnect connect cut url = while_open cut (connect url)
