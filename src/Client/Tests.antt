-- ===== src/Client/Tests.antt =====
-- Runs of `build_client` of src/client.rs.
use lkrequest_py.Prelude.{
  ℕ, ◌≡◌, String, false, [], ◌∷◌, Option, none, some, error_kind, value_error,
}
use lkrequest_py.Dns.{ipv4, v4, SocketAddr}
use lkrequest_py.Types.{pos, TimeoutConfig, ResourceLimits, new_resource_limits}
use lkrequest_py.ClientOptions.{
  set_option, Bytes, Handle, ClientConfig, quad9, set_max_pending_h2_requests, set_ip_family,
  add_connect_to, set_dns, add_ca_certs_pem,
}
use lkrequest_py.Client.{IoResult, opened, io_failed, Calls, build_client}
use lkrequest_py.Presets.{Parsed, unparsed}
use lkrequest_py.Client.Arguments.{preset, profile_object, Constants, ClientArguments}
use lkrequest_py.Client.Window.{window_ignored}

abbrev read_file : String → IoResult Bytes
read_file path = opened (1 ∷ [])

abbrev keylog_to_file : String → IoResult Handle
keylog_to_file path = io_failed "denied"

abbrev timeouts : TimeoutConfig
timeouts = record {
  dns_timeout = none;
  tcp_connect_timeout = none;
  tls_handshake_timeout = none;
  ttfb_timeout = none;
  total_timeout = none;
  quic_connect_timeout = none;
}

abbrev limits : ResourceLimits
limits = record {
  max_response_body_size = 100;
  max_connections_per_session = 10;
  max_header_count = 10;
  max_header_size = 10;
  max_headers_total_size = 10;
  min_transfer_rate = none;
  transfer_rate_window = 10000000000;
}

abbrev host_of : String → Option String
host_of h = some h

abbrev address_of : String → Option SocketAddr
address_of a = some (record { ip = v4 2130706433; port = 8080 })

abbrev show : SocketAddr → String
show a = "127.0.0.1:8080"

abbrev show_port : ℕ → String
show_port p = "443"

abbrev config : ClientConfig
config = record {
  tls_profile = none;
  h2_profile = none;
  tcp_fingerprint = none;
  default_headers = [];
  header_order = none;
  h3_header_order = none;
  cookie_order = none;
  dns_timeout = none;
  tcp_connect_timeout = none;
  tls_handshake_timeout = none;
  ttfb_timeout = none;
  total_timeout = none;
  quic_connect_timeout = none;
  max_response_body_size = none;
  max_connections_per_session = none;
  max_pending_h2_requests = some 8;
  h2_dispatch_batch_size = none;
  max_header_count = none;
  max_header_size = none;
  max_headers_total_size = none;
  min_transfer_rate = none;
  min_transfer_rate_window = none;
  h2_fallback_h1 = none;
  proxy_fallback_direct = none;
  retry_on_connection_close = none;
  middleware = [];
  ca_cert = some "ca.pem";
  ca_cert_pem = none;
  ca_cert_der = none;
  verify = none;
  use_native_certs = false;
  ech_config = none;
  dns = some "quad9";
  ip_family = some "ipv4";
  connect_to = ("a:443", "127.0.0.1:8080") ∷ [];
  system_dns_cache_ttl = none;
  system_dns_cache_max_entries = none;
  keylog = none;
  protocol_policy = none;
  session_resumption = none;
  disable_http3 = false;
  quic_fingerprint = none;
  quic_profile = none;
  randomize = none;
  h2_data_frame_policy = none;
  require_close_notify = none;
  tls_session_resumption_policy = none;
  tls_session_cache_partition_policy = none;
  masque = none;
}

abbrev full_calls : Calls
full_calls =
    set_option "fingerprint" 1
    ∷ set_option "h2_profile" 2
    ∷ set_max_pending_h2_requests 8
    ∷ add_ca_certs_pem (1 ∷ [])
    ∷ set_dns quad9
    ∷ set_ip_family ipv4
    ∷ add_connect_to "a" 443 (record { ip = v4 2130706433; port = 8080 })
    ∷ set_option "quic_profile" 4
    ∷ []

abbrev constants : Constants
constants = record { tls = λ p. 1; h2 = λ p. 2; tcp = λ c. 3; quic = λ p. 4 }

abbrev from_ja4t : String → Parsed
from_ja4t s = unparsed "no JA4T text"

abbrev arguments : ClientArguments
arguments = record {
  tls_profile = some (preset "chrome_155");
  h2_profile = some (profile_object 2);
  tcp_fingerprint = none;
  quic_fingerprint = none;
  quic_profile = some (preset "chrome");
  masque = none;
  plain = config;
}

window_ignored_example :
    (error_kind (new_resource_limits limits none none none (some (pos 5))) ≡ some value_error)
    × (build_client read_file keylog_to_file timeouts limits host_of address_of show show_port
          (record config { min_transfer_rate = none; min_transfer_rate_window = some (pos 5) })
        ≡ build_client read_file keylog_to_file timeouts limits host_of address_of show show_port
            (record config { min_transfer_rate = none; min_transfer_rate_window = none }))
window_ignored_example =
    window_ignored read_file keylog_to_file timeouts limits host_of address_of show show_port config
      (pos 5) none none
