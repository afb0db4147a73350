-- ===== src/Client.antt =====
-- `build_client` of src/client.rs: a client's options, checked and turned into calls on a builder of
-- the `lkrequest` library.
mod Tests
pub mod Accepted
pub mod Arguments
pub mod Upstream
pub mod Window
use lkrequest_py.Prelude.{
  ℕ, ◌<>◌, String, str_eq, Bool, true, false, ◌&&◌, ◌||◌, not, List, [], ◌∷◌, ◌++◌, map, Option,
  none, some, is_some, if◌then◌else◌, ◌==◌, value_error, io_error, PyErr, PyResult, ok, err,
  new_err, ◌>>=◌, ◌>>◌,
}
use lkrequest_py.ClientOptions.{
  Bytes, ClientCall, ClientConfig, DnsConfig, Handle, add_ca_cert_der, add_ca_certs_pem,
  add_connect_to, add_default_header, add_middleware, cloudflare, cloudflare_https, google,
  google_https, quad9, quad9_https, set_dns, set_ech_config, set_flag, set_h2_dispatch_batch_size,
  set_ip_family, set_keylog, set_max_pending_h2_requests, set_option, set_order,
  set_resource_limits, set_system_dns_cache, set_timeout_config, system,
}
use lkrequest_py.Types.{
  F64, Duration, validated_duration, TimeoutConfig, ResourceLimits, optional_duration, or_keep,
}
use lkrequest_py.Dns.{IpFamily, any, SocketAddr, DialOverride, parse_ip_family, parse_connect_to}

abbrev pub Calls : Type 0
Calls = List ClientCall

abbrev pub when_some {ℓ} : {A : Type ℓ} → Option A → (A → ClientCall) → Calls
when_some none f = []
when_some (some a) f = f a ∷ []

abbrev pub when_set : Bool → ClientCall → Calls
when_set true c = c ∷ []
when_set false c = []

-- With the `doh` feature, which the published wheel enables.
pub resolve_dns_config : String → PyResult DnsConfig
resolve_dns_config name =
    if str_eq name "system"
    then ok system
    else if str_eq name "google"
    then ok google
    else if str_eq name "cloudflare"
    then ok cloudflare
    else if str_eq name "quad9"
    then ok quad9
    else if str_eq name "google_https"
    then ok google_https
    else if str_eq name "cloudflare_https"
    then ok cloudflare_https
    else if str_eq name "quad9_https"
    then ok quad9_https
    else new_err value_error (
        "Unknown DNS config: '"
        <> (name
            <> "'. Available: system, google, google_https, cloudflare, cloudflare_https, quad9, quad9_https"))

-- The builder's calls, in the order of the code and in pieces of it.
pub profile_calls : ClientConfig → Calls
profile_calls c =
    when_some c.tls_profile (set_option "fingerprint")
    ++ (when_some c.h2_profile (set_option "h2_profile")
        ++ (when_some c.tcp_fingerprint (set_option "tcp_fingerprint")
            ++ (map (λ (h : String × String). add_default_header h.0 h.1) c.default_headers
                ++ (when_some c.header_order (set_order "header_order")
                    ++ (when_some c.h3_header_order (set_order "h3_header_order")
                        ++ when_some c.cookie_order (set_order "cookie_order"))))))

abbrev or_else : Option Duration → Option Duration → Option Duration
or_else none old = old
or_else (some d) old = some d

-- `default_timeouts` and `default_limits` are `TimeoutConfig::default()` and
-- `ResourceLimits::default()`.
pub given_timeouts : TimeoutConfig → ClientConfig → PyResult TimeoutConfig
given_timeouts default_timeouts c = do
  dns ← optional_duration c.dns_timeout
  tcp ← optional_duration c.tcp_connect_timeout
  tls ← optional_duration c.tls_handshake_timeout
  ttfb ← optional_duration c.ttfb_timeout
  total ← optional_duration c.total_timeout
  quic ← optional_duration c.quic_connect_timeout
  ok (record {
    dns_timeout = or_else dns default_timeouts.dns_timeout;
    tcp_connect_timeout = or_else tcp default_timeouts.tcp_connect_timeout;
    tls_handshake_timeout = or_else tls default_timeouts.tls_handshake_timeout;
    ttfb_timeout = or_else ttfb default_timeouts.ttfb_timeout;
    total_timeout = or_else total default_timeouts.total_timeout;
    quic_connect_timeout = or_else quic default_timeouts.quic_connect_timeout;
  })

pub timeout_calls : TimeoutConfig → ClientConfig → PyResult Calls
timeout_calls default_timeouts c =
    let given =
      is_some c.dns_timeout
      || is_some c.tcp_connect_timeout
      || is_some c.tls_handshake_timeout
      || is_some c.ttfb_timeout
      || is_some c.total_timeout
      || is_some c.quic_connect_timeout in
    if not given
    then ok []
    else (do timeouts ← given_timeouts default_timeouts c; ok (set_timeout_config timeouts ∷ []))

abbrev with_window : Option F64 → ResourceLimits → PyResult ResourceLimits
with_window none limits = ok limits
with_window (some w) limits = do
  window ← validated_duration w
  ok (record limits { transfer_rate_window = window })

abbrev with_rate : Option ℕ → Option F64 → ResourceLimits → PyResult ResourceLimits
with_rate none window limits = ok limits
with_rate (some rate) window limits =
    with_window window (record limits { min_transfer_rate = some rate })

pub limit_calls : ResourceLimits → ClientConfig → PyResult Calls
limit_calls default_limits c =
    let given =
      is_some c.max_response_body_size
      || is_some c.max_connections_per_session
      || is_some c.max_header_count
      || is_some c.max_header_size
      || is_some c.max_headers_total_size
      || is_some c.min_transfer_rate in
    let limits = record default_limits {
      max_response_body_size =
          or_keep c.max_response_body_size default_limits.max_response_body_size;
      max_connections_per_session =
          or_keep c.max_connections_per_session default_limits.max_connections_per_session;
      max_header_count = or_keep c.max_header_count default_limits.max_header_count;
      max_header_size = or_keep c.max_header_size default_limits.max_header_size;
      max_headers_total_size =
          or_keep c.max_headers_total_size default_limits.max_headers_total_size;
    } in
    if not given then ok [] else (do
      full ← with_rate c.min_transfer_rate c.min_transfer_rate_window limits
      ok (set_resource_limits full ∷ []))

-- A number that upstream asserts to be positive.
pub positive : String → (ℕ → ClientCall) → Option ℕ → PyResult Calls
positive message f none = ok []
positive message f (some n) = if n == 0 then new_err value_error message else ok (f n ∷ [])

pub flag_calls : ClientConfig → Calls
flag_calls c =
    when_some c.h2_fallback_h1 (set_flag "h2_fallback_h1")
    ++ (when_some c.proxy_fallback_direct (set_flag "proxy_fallback_direct")
        ++ (when_some c.retry_on_connection_close (set_flag "retry_on_connection_close")
            ++ map add_middleware c.middleware))

-- What an operation on a file gives: a value, or an error by its text.
pub data IoResult (A : Type 0) : Type 0 where
  opened : A → IoResult A
  io_failed : String → IoResult A

abbrev or_io_error : {A : Type 0} → String → String → IoResult A → PyResult A
or_io_error what path (opened a) = ok a
or_io_error what path (io_failed e) = new_err io_error (what <> (path <> ("': " <> e)))

-- `read_file` is `std::fs::read`.
pub ca_cert_calls : (String → IoResult Bytes) → Option String → PyResult Calls
ca_cert_calls read_file none = ok []
ca_cert_calls read_file (some path) = do
  pem ← or_io_error "Failed to read CA cert '" path (read_file path)
  ok (add_ca_certs_pem pem ∷ [])

pub tls_calls : ClientConfig → Calls
tls_calls c =
    when_some c.ca_cert_pem add_ca_certs_pem
    ++ (when_some c.ca_cert_der add_ca_cert_der
        ++ (when_some c.verify (set_flag "verify")
            ++ (when_set c.use_native_certs (set_flag "use_native_certs" true)
                ++ when_some c.ech_config set_ech_config)))

-- The choice of the resolver, once no two options conflict.
abbrev pub resolver_choice : Option F64 → Option ℕ → Option String → PyResult Calls
resolver_choice (some ttl) max_entries dns = do
  positive_ttl ← validated_duration ttl
  ok (set_system_dns_cache positive_ttl max_entries ∷ [])
resolver_choice none max_entries (some name) = do
  config ← resolve_dns_config name
  ok (set_dns config ∷ [])
resolver_choice none max_entries none = ok []

pub resolver_calls : ClientConfig → PyResult Calls
resolver_calls c =
    if is_some c.system_dns_cache_ttl && is_some c.dns
    then new_err value_error
        "system_dns_cache_ttl cannot be combined with dns: the cache already selects the system resolver"
    else if is_some c.system_dns_cache_max_entries && not (is_some c.system_dns_cache_ttl)
    then new_err value_error "system_dns_cache_max_entries requires system_dns_cache_ttl"
    else resolver_choice c.system_dns_cache_ttl c.system_dns_cache_max_entries c.dns

abbrev pub family_of : Option String → PyResult IpFamily
family_of none = ok any
family_of (some name) = parse_ip_family name

pub connect_calls : List DialOverride → Calls
connect_calls os = map (λ (o : DialOverride). add_connect_to o.host o.port o.address) os

pub keylog_calls : (String → IoResult Handle) → Option String → PyResult Calls
keylog_calls keylog_to_file none = ok []
keylog_calls keylog_to_file (some path) = do
  callback ← or_io_error "Failed to open keylog file '" path (keylog_to_file path)
  ok (set_keylog callback ∷ [])

pub last_calls : ClientConfig → Calls
last_calls c =
    when_some c.protocol_policy (set_option "protocol_policy")
    ++ (when_some c.session_resumption (set_option "session_resumption")
        ++ (when_some c.quic_fingerprint (set_option "quic_fingerprint")
            ++ (when_some c.quic_profile (set_option "quic_profile")
                ++ (when_set c.disable_http3 (set_flag "disable_http3" true)
                    ++ (when_some c.randomize (set_option "randomize")
                        ++ (when_some c.h2_data_frame_policy (set_option "h2_data_frame_policy")
                            ++ (when_some c.require_close_notify (set_flag "require_close_notify")
                                ++ (when_some c.tls_session_resumption_policy
                                      (set_option "tls_session_resumption_policy")
                                    ++ (when_some c.tls_session_cache_partition_policy
                                          (set_option "tls_session_cache_partition_policy")
                                        ++ when_some c.masque (set_option "masque"))))))))))

-- The calls on the builder in their order, or the first error. `keylog_to_file` is the library's; the
-- last four parameters are those of `parse_connect_to`.
module _ (read_file : String → IoResult Bytes) (keylog_to_file : String → IoResult Handle)
    (default_timeouts : TimeoutConfig) (default_limits : ResourceLimits)
    (host_of : String → Option String) (address_of : String → Option SocketAddr)
    (show : SocketAddr → String) (show_port : ℕ → String) where
  pub build_client : ClientConfig → PyResult Calls
  build_client c = do
    timeouts ← timeout_calls default_timeouts c
    limits ← limit_calls default_limits c
    pending ←
        positive "max_pending_h2_requests must be greater than 0 (omit it for unbounded)"
          set_max_pending_h2_requests c.max_pending_h2_requests
    batch ←
        positive "h2_dispatch_batch_size must be greater than 0 (omit it for the default of 1)"
          set_h2_dispatch_batch_size c.h2_dispatch_batch_size
    ca_cert ← ca_cert_calls read_file c.ca_cert
    resolver ← resolver_calls c
    family ← family_of c.ip_family
    overrides ← parse_connect_to host_of address_of show show_port c.connect_to family
    keylog ← keylog_calls keylog_to_file c.keylog
    ok (
        profile_calls c
        ++ (timeouts
            ++ (limits
                ++ (pending
                    ++ (batch
                        ++ (flag_calls c
                            ++ (ca_cert
                                ++ (tls_calls c
                                    ++ (resolver
                                        ++ (set_ip_family family
                                            ∷ (connect_calls overrides
                                                ++ (keylog ++ last_calls c))))))))))))
