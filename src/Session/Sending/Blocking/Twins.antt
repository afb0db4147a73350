-- ===== src/Session/Sending/Blocking/Twins.antt =====
-- `Session` and `BlockingSession` of src/session.rs are written out twice. They agree.
use lkrequest_py.Prelude.{
  ℕ, ◌≡◌, refl, String, false, List, Option, none, PyErr, PyResult, ok, err, arith, inl, inr, ◌⊎◌,
  ◌>>=◌, ◌>>◌, ◌∙◌,
}
use lkrequest_py.Types.{F64}
use lkrequest_py.SessionState.{Behaviour, ensure_open}
use lkrequest_py.Session.{Handle, PreparedRequest, BuilderCall, resolve_base_url}
use lkrequest_py.Session.Sending
use lkrequest_py.Session.Sending.{
  Options, Tuning, Bodies, Env, Received, execute_request, validate, prepared, with_bodies,
  basic_opts, tuned_opts,
}
use lkrequest_py.Session.Sending.Blocking
use lkrequest_py.Session.Sending.Blocking.{
  block_on, while_open, stream_request, checked_stream, make_blocking_request, with_converted,
}

-- A request that a session can be asked for: all methods but `send_streaming`, with their arguments.
pub data Ask : Type 0 where
  gets : String → Options → Tuning → Ask
  posts puts patches deletes : String → Options → Tuning → Bodies → Ask
  requests : String → String → Options → Tuning → Bodies → Ask
  heads asks_options : String → Options → Ask

result-cases : {A : Type 0} (r : PyResult A) → ((e : PyErr) × (r ≡ err e)) ⊎ ((a : A) × (r ≡ ok a))
result-cases (err e) = inl (e, refl)
result-cases (ok a) = inr (a, refl)

-- The converted request, if there is one, goes on.
abbrev pub feed :
    {A : Type 0}
    → (PreparedRequest → Env → PyResult A × Env)
    → PyResult PreparedRequest × Env
    → PyResult A × Env
feed next (err e, env) = (err e, env)
feed next (ok r, env) = next r env

with_converted-feed :
    {A : Type 0} (r : PreparedRequest) (b : Bodies)
    (next : PreparedRequest → Env → PyResult A × Env) (env : Env)
    → with_converted b (λ json upload parts. next (with_bodies r b json upload parts)) env
      ≡ feed next (Sending.convert r b env)
unfolding with_converted Sending.convert
with_converted-feed r b next env = elim (result-cases (Sending.serialize_json b.json)) [
  | inl (e, p) ↦ rw (p, with_converted, Sending.convert) refl
  | inr (json, p) ↦ elim (result-cases (Sending.extract_upload b.body_stream)) [
    | inl (e, q) ↦ rw (p, with_converted, Sending.convert) (rw q refl)
    | inr (upload, q) ↦ rw (p, with_converted, Sending.convert) (rw q refl)
  ]
]

module _ (add : F64 → F64 → F64) (host_of : String → Option String) (handles : ℕ)
    (hooks : Behaviour) (send : List BuilderCall → Env → PyResult Received × Env)
    (cut : Option Env) where
  -- The work that the bridge is handed, run to its end on the spot.
  abbrev pub complete : PyResult PreparedRequest × Env → PyResult Received × Env
  complete (err e, env) = (err e, env)
  complete (ok r, env) = block_on cut (execute_request add host_of handles hooks send r env)

module _ (parse : String → Option Handle) (join : Handle → String → Option String)
    (base : Option String) (up : String → String) where
  -- What the method of a `Session` hands to the bridge.
  pub submit : Ask → Env → PyResult PreparedRequest × Env
  submit (gets url o t) env = (Sending.get parse join base url o t env, env)
  submit (posts url o t b) env = Sending.post parse join base url o t b env
  submit (puts url o t b) env = Sending.put parse join base url o t b env
  submit (patches url o t b) env = Sending.patch parse join base url o t b env
  submit (deletes url o t b) env = Sending.delete parse join base url o t b env
  submit (requests m url o t b) env = Sending.request parse join base up m url o t b env
  submit (heads url o) env = (Sending.head parse join base url o env, env)
  submit (asks_options url o) env = (Sending.options parse join base url o env, env)

  module _ (add : F64 → F64 → F64) (host_of : String → Option String) (handles : ℕ)
      (hooks : Behaviour) (send : List BuilderCall → Env → PyResult Received × Env)
      (cut : Option Env) where
    -- What the same method of a `BlockingSession` does.
    pub call : Ask → Env → PyResult Received × Env
    call (gets url o t) env =
        Blocking.get parse join base add host_of handles hooks send cut url o t env
    call (posts url o t b) env =
        Blocking.post parse join base add host_of handles hooks send cut url o t b env
    call (puts url o t b) env =
        Blocking.put parse join base add host_of handles hooks send cut url o t b env
    call (patches url o t b) env =
        Blocking.patch parse join base add host_of handles hooks send cut url o t b env
    call (deletes url o t b) env =
        Blocking.delete parse join base add host_of handles hooks send cut url o t b env
    call (requests m url o t b) env =
        Blocking.request parse join base add host_of handles hooks send cut up m url o t b env
    call (heads url o) env =
        Blocking.head parse join base add host_of handles hooks send cut url o env
    call (asks_options url o) env =
        Blocking.options parse join base add host_of handles hooks send cut url o env

    make-agrees :
        (r : PreparedRequest) (env : Env)
        → make_blocking_request parse join base add host_of handles hooks send cut r env
          ≡ complete add host_of handles hooks send cut
              (Sending.make_request parse join base env.world.state r, env)
    unfolding make_blocking_request Sending.make_request while_open
    make-agrees r env = ground arith

    body-agrees :
        (method url : String) (o : Options) (t : Tuning) (b : Bodies) (env : Env)
        → Blocking.send_body parse join base add host_of handles hooks send cut method url o t b env
          ≡ complete add host_of handles hooks send cut
              (Sending.send_body parse join base method url o t b env)
    unfolding Blocking.send_body Sending.send_body
    body-agrees method url o t b env =
        let r = prepared method url o t.no_decompress (tuned_opts o t) in
        with_converted-feed r b
          (make_blocking_request parse join base add host_of handles hooks send cut) env
        ∙ made (Sending.convert r b env)
      where
        made :
            (x : PyResult PreparedRequest × Env)
            → feed (make_blocking_request parse join base add host_of handles hooks send cut) x
              ≡ complete add host_of handles hooks send cut
                  (x.0 >>= Sending.make_request parse join base x.1.world.state, x.1)
        made (err e, env') = refl
        made (ok r, env') = make-agrees r env'

    call-submit :
        (ask : Ask) (env : Env)
        → call ask env ≡ complete add host_of handles hooks send cut (submit ask env)
    unfolding call submit Blocking.get Blocking.post Blocking.put Blocking.patch Blocking.delete
        Blocking.request Blocking.head Blocking.options Sending.get Sending.post Sending.put
        Sending.patch Sending.delete Sending.request Sending.head Sending.options
    call-submit (gets url o t) env =
        make-agrees (prepared "GET" url o t.no_decompress (tuned_opts o t)) env
    call-submit (posts url o t b) env = body-agrees "POST" url o t b env
    call-submit (puts url o t b) env = body-agrees "PUT" url o t b env
    call-submit (patches url o t b) env = body-agrees "PATCH" url o t b env
    call-submit (deletes url o t b) env =
        body-agrees "DELETE" url o t (record b { multipart = none }) env
    call-submit (requests m url o t b) env = body-agrees (up m) url o t b env
    call-submit (heads url o) env = make-agrees (prepared "HEAD" url o false (basic_opts o)) env
    call-submit (asks_options url o) env =
        make-agrees (prepared "OPTIONS" url o false (basic_opts o)) env

module _ (parse : String → Option Handle) (join : Handle → String → Option String)
    (base : Option String) where
  streaming-agrees :
      (stream : List BuilderCall → Env → PyResult Handle × Env) (cut : Option Env)
      (method url : String) (o : Options) (b : Bodies) (env : Env)
      → Blocking.send_streaming stream cut parse join base method url o b env
        ≡ feed
            (λ r env'. block_on cut (stream_request stream r env'))
            (Sending.send_streaming parse join base method url o b env)
  unfolding Blocking.send_streaming Sending.send_streaming
  streaming-agrees stream cut method url o b env =
      let r = prepared method (resolve_base_url parse join base url) o false (basic_opts o) in
      elim (result-cases (ensure_open env.world.state)) [
        | inl (e, p) ↦ rw (p, Blocking.send_streaming, Sending.send_streaming) refl
        | inr (u, p) ↦
            rw (p, Blocking.send_streaming, Sending.send_streaming)
              (with_converted-feed r b (checked_stream stream cut) env
                ∙ made (Sending.convert r b env))
      ]
    where
      made :
          (x : PyResult PreparedRequest × Env)
          → feed (checked_stream stream cut) x
            ≡ feed
                (λ r env'. block_on cut (stream_request stream r env'))
                (x.0 >>= (λ r. validate r >> ok r), x.1)
      made (err e, env') = refl
      made (ok r, env') = elim (result-cases (validate r)) [
        | inl (e, p) ↦ ground (arith, p)
        | inr (u, p) ↦ ground (arith, p)
      ]

-- A blocking method does what the method of the same name of a `Session` hands to the bridge, on the
-- spot: it raises the same exception where that one raises, leaves the same `Multipart` objects empty,
-- and else runs `execute_request` on the same request, until it ends or the session is closed under it.
-- So does `send_streaming`, with the opening of the stream in place of `execute_request`.
pub twins_agree :
    (parse : String → Option Handle) (join : Handle → String → Option String) (base : Option String)
    (up : String → String) (add : F64 → F64 → F64) (host_of : String → Option String) (handles : ℕ)
    (hooks : Behaviour) (send : List BuilderCall → Env → PyResult Received × Env)
    (stream : List BuilderCall → Env → PyResult Handle × Env) (cut : Option Env) (ask : Ask)
    (method url : String) (o : Options) (b : Bodies) (env : Env)
    → (call parse join base up add host_of handles hooks send cut ask env
        ≡ complete add host_of handles hooks send cut (submit parse join base up ask env))
      × (Blocking.send_streaming stream cut parse join base method url o b env
          ≡ feed
              (λ r env'. block_on cut (stream_request stream r env'))
              (Sending.send_streaming parse join base method url o b env))
twins_agree parse join base up add host_of handles hooks send stream cut ask method url o b env = (
  call-submit parse join base up add host_of handles hooks send cut ask env,
  streaming-agrees parse join base stream cut method url o b env,
)
