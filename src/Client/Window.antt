-- ===== src/Client/Window.antt =====
-- The window of a transfer rate, in src/client.rs and in src/types.rs.
use lkrequest_py.Prelude.{ℕ, ◌≡◌, refl, String, Option, none, some, error_kind, value_error}
use lkrequest_py.Dns.{SocketAddr}
use lkrequest_py.Types.{F64, TimeoutConfig, ResourceLimits, new_resource_limits}
use lkrequest_py.ClientOptions.{Bytes, Handle, ClientConfig}
use lkrequest_py.Client.{
  IoResult, limit_calls, timeout_calls, given_timeouts, profile_calls, flag_calls, tls_calls,
  resolver_calls, last_calls, build_client,
}

-- A window for the transfer rate, of any length and with no rate beside it, is a `ValueError` in
-- `ResourceLimits`. `Client` takes it in silence: what it builds, or raises, is what it does without
-- the window.
pub window_ignored :
    (read_file : String → IoResult Bytes) (keylog_to_file : String → IoResult Handle)
    (default_timeouts : TimeoutConfig) (default_limits : ResourceLimits)
    (host_of : String → Option String) (address_of : String → Option SocketAddr)
    (show : SocketAddr → String) (show_port : ℕ → String) (c : ClientConfig) (w : F64)
    (size connections : Option ℕ)
    → (error_kind (new_resource_limits default_limits size connections none (some w))
        ≡ some value_error)
      × (build_client read_file keylog_to_file default_timeouts default_limits host_of address_of
            show show_port
            (record c { min_transfer_rate = none; min_transfer_rate_window = some w })
          ≡ build_client read_file keylog_to_file default_timeouts default_limits host_of address_of
              show show_port
              (record c { min_transfer_rate = none; min_transfer_rate_window = none }))
unfolding build_client limit_calls timeout_calls given_timeouts profile_calls flag_calls tls_calls
    resolver_calls last_calls new_resource_limits
window_ignored read_file keylog_to_file timeouts limits host_of address_of show show_port c w size
      connections =
    (refl, refl)
