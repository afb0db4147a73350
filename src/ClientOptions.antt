-- ===== src/ClientOptions.antt =====
-- What src/client.rs works on: the options that a client is given, and the calls that they become on
-- the `ClientBuilder` of the `lkrequest` library.
use lkrequest_py.Prelude.{ℕ, String, Bool, List, Option}
use lkrequest_py.Types.{F64, Duration, TimeoutConfig, ResourceLimits}
use lkrequest_py.Dns.{IpFamily, SocketAddr}

-- A value of a type of the library.
abbrev pub Handle : Type 0
Handle = ℕ

abbrev pub Bytes : Type 0
Bytes = List ℕ

pub data DnsConfig : Type 0 where
  system google cloudflare quad9 google_https cloudflare_https quad9_https : DnsConfig

-- A call on `ClientBuilder`. `set_option` is a setter that takes what it is given, by its name.
pub data ClientCall : Type 0 where
  set_option : String → Handle → ClientCall
  set_flag : String → Bool → ClientCall
  set_order : String → List String → ClientCall
  add_default_header : String → String → ClientCall
  set_timeout_config : TimeoutConfig → ClientCall
  set_resource_limits : ResourceLimits → ClientCall
  set_max_pending_h2_requests set_h2_dispatch_batch_size : ℕ → ClientCall
  add_middleware : Handle → ClientCall
  add_ca_certs_pem add_ca_cert_der : Bytes → ClientCall
  set_ech_config : Bytes → ClientCall
  set_system_dns_cache : Duration → Option ℕ → ClientCall
  set_dns : DnsConfig → ClientCall
  set_ip_family : IpFamily → ClientCall
  add_connect_to : String → ℕ → SocketAddr → ClientCall
  set_keylog : Handle → ClientCall

-- `ClientConfig`.
pub record ClientConfig : Type 0 where
  pub tls_profile : Option Handle
  pub h2_profile : Option Handle
  pub tcp_fingerprint : Option Handle
  pub default_headers : List (String × String)
  pub header_order : Option (List String)
  pub h3_header_order : Option (List String)
  pub cookie_order : Option (List String)
  pub dns_timeout : Option F64
  pub tcp_connect_timeout : Option F64
  pub tls_handshake_timeout : Option F64
  pub ttfb_timeout : Option F64
  pub total_timeout : Option F64
  pub quic_connect_timeout : Option F64
  pub max_response_body_size : Option ℕ
  pub max_connections_per_session : Option ℕ
  pub max_pending_h2_requests : Option ℕ
  pub h2_dispatch_batch_size : Option ℕ
  pub max_header_count : Option ℕ
  pub max_header_size : Option ℕ
  pub max_headers_total_size : Option ℕ
  pub min_transfer_rate : Option ℕ
  pub min_transfer_rate_window : Option F64
  pub h2_fallback_h1 : Option Bool
  pub proxy_fallback_direct : Option Bool
  pub retry_on_connection_close : Option Bool
  pub middleware : List Handle
  pub ca_cert : Option String
  pub ca_cert_pem : Option Bytes
  pub ca_cert_der : Option Bytes
  pub verify : Option Bool
  pub use_native_certs : Bool
  pub ech_config : Option Bytes
  pub dns : Option String
  pub ip_family : Option String
  pub connect_to : List (String × String)
  pub system_dns_cache_ttl : Option F64
  pub system_dns_cache_max_entries : Option ℕ
  pub keylog : Option String
  pub protocol_policy : Option Handle
  pub session_resumption : Option Handle
  pub disable_http3 : Bool
  pub quic_fingerprint : Option Handle
  pub quic_profile : Option Handle
  pub randomize : Option Handle
  pub h2_data_frame_policy : Option Handle
  pub require_close_notify : Option Bool
  pub tls_session_resumption_policy : Option Handle
  pub tls_session_cache_partition_policy : Option Handle
  pub masque : Option Handle
