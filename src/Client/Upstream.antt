-- ===== src/Client/Upstream.antt =====
-- The pieces of `build_client` of src/client.rs, by what upstream asserts of their calls.
use lkrequest_py.Prelude.{
  ℕ, ◌+◌, ◌<◌, ◌≡◌, refl, inl, inr, String, Bool, true, false, List, [], ◌∷◌, ◌++◌, map, Option,
  none, some, ◌==◌, PyResult, ok, err, ok_inj, All, All-append, arith, Bool-cases, subst,
  if◌then◌else◌, ◌>>=◌,
}
use lkrequest_py.Dns.{IpFamily, DialOverride}
use lkrequest_py.Dns.Overrides.{IsDialable}
use lkrequest_py.Types.{TimeoutConfig, ResourceLimits}
use lkrequest_py.ClientOptions.{
  ClientCall, set_option, set_flag, set_order, set_timeout_config, set_resource_limits,
  set_max_pending_h2_requests, set_h2_dispatch_batch_size, set_system_dns_cache, set_dns,
  add_connect_to, Bytes, Handle, ClientConfig, add_ca_certs_pem, set_keylog,
}
use lkrequest_py.Client.{
  IoResult, Calls, when_some, when_set, profile_calls, timeout_calls, limit_calls, positive,
  flag_calls, ca_cert_calls, tls_calls, connect_calls, keylog_calls, last_calls, given_timeouts,
}

-- A call that upstream's assertions hold for, under the family chosen.
abbrev pub IsSafe : (String → Option String) → IpFamily → ClientCall → Type 0
IsSafe host_of family (set_max_pending_h2_requests n) = 0 < n
IsSafe host_of family (set_h2_dispatch_batch_size n) = 0 < n
IsSafe host_of family (add_connect_to host port address) =
    IsDialable host_of family (record { host = host; port = port; address = address })
IsSafe host_of family call = Unit

abbrev resolves : ClientCall → ℕ
resolves (set_system_dns_cache ttl n) = 1
resolves (set_dns config) = 1
resolves call = 0

-- How many calls choose a resolver.
abbrev pub resolvers : Calls → ℕ
resolvers [] = 0
resolvers (c ∷ cs) = resolves c + resolvers cs

resolvers-append : (cs ds : Calls) → resolvers (cs ++ ds) ≡ resolvers cs + resolvers ds
resolvers-append [] ds = omega arith
resolvers-append (c ∷ cs) ds = let ih = resolvers-append cs ds in omega (arith, ih)

-- Safe calls, of which `n` choose a resolver.
pub record Fits (host_of : String → Option String) (family : IpFamily) (n : ℕ) (cs : Calls)
    : Type 0 where
  pub safe : All (IsSafe host_of family) cs
  pub count : resolvers cs ≡ n

module _ (host_of : String → Option String) (family : IpFamily) where
  pub append-Fits :
      {m n : ℕ} {cs ds : Calls}
      → Fits host_of family m cs
      → Fits host_of family n ds
      → Fits host_of family (m + n) (cs ++ ds)
  append-Fits {cs = cs} {ds} h k = record {
    safe = All-append (IsSafe host_of family) cs ds h.safe k.safe;
    count =
        let e = h.count in
        let f = k.count in let g = resolvers-append cs ds in omega (arith, e, f, g);
  }

  pub nil-Fits : Fits host_of family 0 []
  nil-Fits = record { safe = tt; count = refl }

  -- A call that any argument is fine for.
  abbrev Plain : ClientCall → Type 0
  Plain c = IsSafe host_of family c × (resolves c ≡ 0)

  pub one-Fits : {c : ClientCall} → Plain c → Fits host_of family 0 (c ∷ [])
  one-Fits (s, e) = record { safe = (s, tt); count = omega (arith, e) }

  when_some-Fits :
      {A : Type 0} (f : A → ClientCall)
      → ((a : A) → Plain (f a))
      → (o : Option A) → Fits host_of family 0 (when_some o f)
  when_some-Fits f h none = nil-Fits
  when_some-Fits f h (some a) = one-Fits (h a)

  when_set-Fits : (c : ClientCall) → Plain c → (b : Bool) → Fits host_of family 0 (when_set b c)
  when_set-Fits c h true = one-Fits h
  when_set-Fits c h false = nil-Fits

  map-Fits :
      {A : Type 0} (f : A → ClientCall)
      → ((a : A) → Plain (f a))
      → (xs : List A) → Fits host_of family 0 (map f xs)
  map-Fits f h [] = nil-Fits
  map-Fits f h (x ∷ xs) = append-Fits (one-Fits (h x)) (map-Fits f h xs)

  option-Fits :
      (name : String) (o : Option Handle) → Fits host_of family 0 (when_some o (set_option name))
  option-Fits name o = when_some-Fits (set_option name) (λ a. (tt, refl)) o

  flag-Fits :
      (name : String) (o : Option Bool) → Fits host_of family 0 (when_some o (set_flag name))
  flag-Fits name o = when_some-Fits (set_flag name) (λ a. (tt, refl)) o

  order-Fits :
      (name : String) (o : Option (List String))
      → Fits host_of family 0 (when_some o (set_order name))
  order-Fits name o = when_some-Fits (set_order name) (λ a. (tt, refl)) o

  pub profile_calls-Fits : (c : ClientConfig) → Fits host_of family 0 (profile_calls c)
  unfolding profile_calls
  profile_calls-Fits c = append-Fits (option-Fits _ c.tls_profile) (
      append-Fits (option-Fits _ c.h2_profile) (
        append-Fits (option-Fits _ c.tcp_fingerprint) (
          append-Fits (map-Fits _ (λ h. (tt, refl)) c.default_headers) (
            append-Fits (order-Fits _ c.header_order)
              (append-Fits (order-Fits _ c.h3_header_order) (order-Fits _ c.cookie_order))))))

  pub flag_calls-Fits : (c : ClientConfig) → Fits host_of family 0 (flag_calls c)
  unfolding flag_calls
  flag_calls-Fits c = append-Fits (flag-Fits _ c.h2_fallback_h1) (
      append-Fits (flag-Fits _ c.proxy_fallback_direct) (
        append-Fits (flag-Fits _ c.retry_on_connection_close)
          (map-Fits _ (λ m. (tt, refl)) c.middleware)))

  pub tls_calls-Fits : (c : ClientConfig) → Fits host_of family 0 (tls_calls c)
  unfolding tls_calls
  tls_calls-Fits c = append-Fits (when_some-Fits _ (λ a. (tt, refl)) c.ca_cert_pem) (
      append-Fits (when_some-Fits _ (λ a. (tt, refl)) c.ca_cert_der) (
        append-Fits (flag-Fits _ c.verify) (
          append-Fits (when_set-Fits _ (tt, refl) c.use_native_certs)
            (when_some-Fits _ (λ a. (tt, refl)) c.ech_config))))

  pub last_calls-Fits : (c : ClientConfig) → Fits host_of family 0 (last_calls c)
  unfolding last_calls
  last_calls-Fits c = append-Fits (option-Fits _ c.protocol_policy) (
      append-Fits (option-Fits _ c.session_resumption) (
        append-Fits (option-Fits _ c.quic_fingerprint) (
          append-Fits (option-Fits _ c.quic_profile) (
            append-Fits (when_set-Fits _ (tt, refl) c.disable_http3) (
              append-Fits (option-Fits _ c.randomize) (
                append-Fits (option-Fits _ c.h2_data_frame_policy) (
                  append-Fits (flag-Fits _ c.require_close_notify) (
                    append-Fits (option-Fits _ c.tls_session_resumption_policy) (
                      append-Fits (option-Fits _ c.tls_session_cache_partition_policy)
                        (option-Fits _ c.masque))))))))))

  pub connect_calls-Fits :
      (os : List DialOverride)
      → All (IsDialable host_of family) os
      → Fits host_of family 0 (connect_calls os)
  unfolding connect_calls
  connect_calls-Fits [] h = nil-Fits
  connect_calls-Fits (o ∷ os) (d, h) = append-Fits (one-Fits (d, refl)) (connect_calls-Fits os h)

  pub positive-Fits :
      (message : String) (f : ℕ → ClientCall)
      → ((n : ℕ) → 0 < n → Plain (f n))
      → (o : Option ℕ) {cs : Calls} → positive message f o ≡ ok cs
      → Fits host_of family 0 cs
  unfolding positive
  positive-Fits message f h none e = subst (Fits host_of family 0) (ok_inj e) nil-Fits
  positive-Fits message f h (some n) e = elim (Bool-cases (n == 0)) [
    | inl z ↦ cc
    | inr p ↦ subst (Fits host_of family 0) (ok_inj (rw p at e)) (one-Fits (h n (ground arith)))
  ]

  single-Fits :
      {A : Type 0} (r : PyResult A) (f : A → ClientCall)
      → ((a : A) → Plain (f a))
      → {cs : Calls} → (r >>= (λ a. ok (f a ∷ []))) ≡ ok cs
      → Fits host_of family 0 cs
  single-Fits (err x) f h e = cc
  single-Fits (ok a) f h e = subst (Fits host_of family 0) (ok_inj e) (one-Fits (h a))

  guarded-Fits :
      (b : Bool) (r : PyResult Calls) {cs : Calls}
      → (r ≡ ok cs → Fits host_of family 0 cs)
      → (if b then ok [] else r) ≡ ok cs
      → Fits host_of family 0 cs
  guarded-Fits true r h e = subst (Fits host_of family 0) (ok_inj e) nil-Fits
  guarded-Fits false r h e = h e

  pub timeout_calls-Fits :
      (d : TimeoutConfig) (c : ClientConfig) {cs : Calls}
      → timeout_calls d c ≡ ok cs
      → Fits host_of family 0 cs
  unfolding timeout_calls
  timeout_calls-Fits d c e =
      guarded-Fits _ _ (single-Fits (given_timeouts d c) set_timeout_config (λ t. (tt, refl))) e

  pub limit_calls-Fits :
      (d : ResourceLimits) (c : ClientConfig) {cs : Calls}
      → limit_calls d c ≡ ok cs
      → Fits host_of family 0 cs
  unfolding limit_calls
  limit_calls-Fits d c e = guarded-Fits _ _ (single-Fits _ set_resource_limits (λ t. (tt, refl))) e

  pub ca_cert_calls-Fits :
      (read_file : String → IoResult Bytes) (o : Option String) {cs : Calls}
      → ca_cert_calls read_file o ≡ ok cs
      → Fits host_of family 0 cs
  unfolding ca_cert_calls
  ca_cert_calls-Fits read_file none e = subst (Fits host_of family 0) (ok_inj e) nil-Fits
  ca_cert_calls-Fits read_file (some path) e = single-Fits _ add_ca_certs_pem (λ t. (tt, refl)) e

  pub keylog_calls-Fits :
      (keylog_to_file : String → IoResult Handle) (o : Option String) {cs : Calls}
      → keylog_calls keylog_to_file o ≡ ok cs
      → Fits host_of family 0 cs
  unfolding keylog_calls
  keylog_calls-Fits keylog_to_file none e = subst (Fits host_of family 0) (ok_inj e) nil-Fits
  keylog_calls-Fits keylog_to_file (some path) e = single-Fits _ set_keylog (λ t. (tt, refl)) e
