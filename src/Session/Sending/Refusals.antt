-- ===== src/Session/Sending/Refusals.antt =====
-- What `Session` of src/session.rs lets through: only checked requests, and only while it is open.
use lkrequest_py.Prelude.{
  ap, subst, arith, get_elem?, set, [], ℕ, ◌≡◌, refl, String, true, false, List, Option, none, some,
  PyResult, ok, err, ◌>>=◌, ◌>>◌, runtime_error, sym, new_err,
}
use lkrequest_py.SessionState.{State, ensure_open, is_closed}
use lkrequest_py.Session.{Handle, Pairs, PreparedRequest, resolve_base_url}
use lkrequest_py.Session.Sending.{
  Options, Tuning, prepared, basic_opts, tuned_opts, Bodies, Env, serialize_json, extract_multipart,
  convert, validate, make_request, get, head, options as options_method, send_body, post, put,
  patch, delete, request, send_streaming, ws_connect, preconnect, preconnect_many, prefetch, aenter,
}

abbrev pub IsErr {ℓ} : {A : Type ℓ} → PyResult A → Type 0
IsErr (ok a) = ⊥
IsErr (err e) = Unit {0}

ensure_open-ok : (s : State) → ensure_open s ≡ ok tt → s.closed ≡ false
unfolding ensure_open is_closed
ensure_open-ok s h = ground arith

ensure_open-closed :
    (s : State) → s.closed ≡ true → ensure_open s ≡ new_err runtime_error "Session is closed"
unfolding ensure_open is_closed
ensure_open-closed s c = simp c refl

extract_multipart-world : (m : Option ℕ) (env : Env) → (extract_multipart m env).1.world ≡ env.world
unfolding extract_multipart
extract_multipart-world none env = refl
extract_multipart-world (some m) env = ground arith

convert-world :
    (r : PreparedRequest) (b : Bodies) (env : Env) → (convert r b env).1.world ≡ env.world
unfolding convert
convert-world r b env = ground (arith, extract_multipart-world b.multipart env)

-- A method of the session that can start work, with its arguments.
pub data Entry : Type 0 where
  gets posts puts patches deletes requests : String → Options → Tuning → Bodies → Entry
  heads asks_options : String → Options → Entry
  streams : String → String → Options → Bodies → Entry
  connects_socket : String → Option Pairs → Option (List String) → Entry
  preconnects : String → Entry
  preconnects_many prefetches : List String → Entry
  enters : Entry

module _ (parse : String → Option Handle) (join : Handle → String → Option String)
    (base : Option String) where
  closed-make_request :
      (s : State) (r : PreparedRequest) → s.closed ≡ true → IsErr (make_request parse join base s r)
  unfolding make_request
  closed-make_request s r c =
      refused (validate r) (ok (record r { url = resolve_base_url parse join base r.url }))
    where
      refused :
          (v : PyResult (Unit {0})) (x : PyResult PreparedRequest)
          → IsErr (v >> (ensure_open s >> x))
      refused (err e) x = tt
      refused (ok u) x = rw (ensure_open-closed s c) tt

  closed-send_body :
      (method url : String) (o : Options) (t : Tuning) (b : Bodies) (env : Env)
      → env.world.state.closed ≡ true
      → IsErr (send_body parse join base method url o t b env).0
  unfolding send_body
  closed-send_body method url o t b env c =
      let r = prepared method url o t.no_decompress (tuned_opts o t) in
      let w = convert-world r b env in refused (convert r b env).0 (convert r b env).1 (rw w c)
    where
      refused :
          (x : PyResult PreparedRequest) (env' : Env)
          → env'.world.state.closed ≡ true
          → IsErr (x >>= make_request parse join base env'.world.state)
      refused (err e) env' c = tt
      refused (ok r) env' c = closed-make_request env'.world.state r c

  -- The result of a method with its value left out, and the environment after it.
  abbrev done {ℓ} : {A : Type ℓ} → PyResult A → PyResult (Unit {0})
  done (ok a) = ok tt
  done (err e) = err e

  pub enter : (String → String) → String → Entry → Env → PyResult (Unit {0}) × Env
  enter up m (gets url o t b) env = (done (get parse join base url o t env), env)
  enter up m (posts url o t b) env = let (x, e) = post parse join base url o t b env in (done x, e)
  enter up m (puts url o t b) env = let (x, e) = put parse join base url o t b env in (done x, e)
  enter up m (patches url o t b) env =
      let (x, e) = patch parse join base url o t b env in (done x, e)
  enter up m (deletes url o t b) env =
      let (x, e) = delete parse join base url o t b env in (done x, e)
  enter up m (requests url o t b) env =
      let (x, e) = request parse join base up m url o t b env in (done x, e)
  enter up m (heads url o) env = (done (head parse join base url o env), env)
  enter up m (asks_options url o) env = (done (options_method parse join base url o env), env)
  enter up m (streams method url o b) env =
      let (x, e) = send_streaming parse join base method url o b env in (done x, e)
  enter up m (connects_socket url headers protocols) env =
      (done (ws_connect url headers protocols env.world.state), env)
  enter up m (preconnects url) env = (done (preconnect url env.world.state), env)
  enter up m (preconnects_many urls) env = (done (preconnect_many urls env.world.state), env)
  enter up m (prefetches urls) env = (done (prefetch urls env.world.state), env)
  enter up m enters env = (done (aenter env.world.state), env)

  done-IsErr : {A : Type 0} (x : PyResult A) → IsErr x → IsErr (done x)
  done-IsErr (ok a) h = elim h [ ]
  done-IsErr (err e) h = tt

  closed-send_streaming :
      (method url : String) (o : Options) (b : Bodies) (env : Env)
      → env.world.state.closed ≡ true
      → send_streaming parse join base method url o b env
        ≡ (new_err runtime_error "Session is closed", env)
  unfolding send_streaming
  closed-send_streaming method url o b env c =
      rw (ensure_open-closed env.world.state c, send_streaming) refl

  -- The parts leave the object before anything is checked.
  send_body-parts :
      (method url : String) (o : Options) (t : Tuning) (b : Bodies) (env : Env) (m : ℕ)
      (parts : List Handle)
      → b.json ≡ none
      → b.body_stream ≡ none
      → b.multipart ≡ some m
      → get_elem? env.multiparts m ≡ some parts
      → (send_body parse join base method url o t b env).1
        ≡ record env { multiparts = set env.multiparts m [] }
  unfolding send_body convert serialize_json extract_multipart
  send_body-parts method url o t b env m parts j s p e = ground (arith, j, s, p, e)

  -- A closed session starts nothing: every method that could raises instead.
  pub closed_refuses :
      (up : String → String) (m : String) (entry : Entry) (env : Env)
      → env.world.state.closed ≡ true
      → IsErr (enter up m entry env).0
  unfolding enter
  closed_refuses up m (gets url o t b) env c =
      unfold get in
      done-IsErr _ (
        closed-make_request env.world.state (prepared "GET" url o t.no_decompress (tuned_opts o t))
          c)
  closed_refuses up m (posts url o t b) env c =
      unfold post in done-IsErr _ (closed-send_body "POST" url o t b env c)
  closed_refuses up m (puts url o t b) env c =
      unfold put in done-IsErr _ (closed-send_body "PUT" url o t b env c)
  closed_refuses up m (patches url o t b) env c =
      unfold patch in done-IsErr _ (closed-send_body "PATCH" url o t b env c)
  closed_refuses up m (deletes url o t b) env c =
      unfold delete in
      done-IsErr _ (closed-send_body "DELETE" url o t (record b { multipart = none }) env c)
  closed_refuses up m (requests url o t b) env c =
      unfold request in done-IsErr _ (closed-send_body (up m) url o t b env c)
  closed_refuses up m (heads url o) env c =
      unfold head in
      done-IsErr _
        (closed-make_request env.world.state (prepared "HEAD" url o false (basic_opts o)) c)
  closed_refuses up m (asks_options url o) env c =
      unfold options_method in
      done-IsErr _
        (closed-make_request env.world.state (prepared "OPTIONS" url o false (basic_opts o)) c)
  closed_refuses up m (streams method url o b) env c =
      subst (λ (r : PyResult PreparedRequest × Env). IsErr (done r.0))
        (sym (closed-send_streaming method url o b env c)) tt
  closed_refuses up m (connects_socket url headers protocols) env c =
      unfold ws_connect in rw (ensure_open-closed env.world.state c) tt
  closed_refuses up m (preconnects url) env c =
      unfold preconnect in rw (ensure_open-closed env.world.state c) tt
  closed_refuses up m (preconnects_many urls) env c =
      unfold preconnect_many in rw (ensure_open-closed env.world.state c) tt
  closed_refuses up m (prefetches urls) env c =
      unfold prefetch in rw (ensure_open-closed env.world.state c) tt
  closed_refuses up m enters env c = unfold aenter in rw (ensure_open-closed env.world.state c) tt

  -- Not so the arguments: a closed session's `post` has taken the parts out of the `Multipart` it was
  -- given, where `json` and `body_stream` are left out. `send_streaming` leaves everything as it was.
  pub refused_parts :
      (url : String) (o : Options) (t : Tuning) (b : Bodies) (env : Env) (m : ℕ)
      (parts : List Handle)
      → env.world.state.closed ≡ true
      → b.json ≡ none
      → b.body_stream ≡ none
      → b.multipart ≡ some m
      → get_elem? env.multiparts m ≡ some parts
      → IsErr (post parse join base url o t b env).0
        × ((post parse join base url o t b env).1
            ≡ record env { multiparts = set env.multiparts m [] })
        × ((send_streaming parse join base "POST" url o b env).1 ≡ env)
  refused_parts url o t b env m parts c j s p e = (
    unfold post in closed-send_body "POST" url o t b env c,
    unfold post in send_body-parts "POST" url o t b env m parts j s p e,
    ap (λ (r : PyResult PreparedRequest × Env). r.1) (closed-send_streaming "POST" url o b env c),
  )
