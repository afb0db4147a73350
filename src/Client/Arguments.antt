-- ===== src/Client/Arguments.antt =====
-- `Client.new` of src/client.rs: profiles by name or as objects, and then `build_client`. The published
-- wheel has the `quic-h3` feature.
pub mod Known
use lkrequest_py.Prelude.{
  ℕ, String, List, ◌∷◌, [], Option, none, some, PyResult, ok, err, new_err, type_error, ◌>>=◌,
  choose, or_unknown, ◌<>◌,
}
use lkrequest_py.Types.{TimeoutConfig, ResourceLimits}
use lkrequest_py.Dns.{SocketAddr}
use lkrequest_py.Presets.{
  Preset, TcpChoice, Parsed, resolve_tls_profile, resolve_h2_profile, resolve_tcp_fingerprint,
}
use lkrequest_py.Proxy.{MasqueArgument, resolve_masque}
use lkrequest_py.ClientOptions.{Bytes, ClientConfig, Handle}
use lkrequest_py.Client.{IoResult, Calls, build_client}

-- A Python object where a profile is looked for: a text, an object of the class, or another one.
pub data ProfileArgument : Type 0 where
  preset : String → ProfileArgument
  profile_object : Handle → ProfileArgument
  other_object : ProfileArgument

pub data QuicPreset : Type 0 where
  chrome chrome_146 chrome_150 chrome_151 chrome_152 chrome_153 chrome_154 chrome_155 : QuicPreset

abbrev pub quic_table : List (String × QuicPreset)
quic_table =
    ("chrome", chrome)
    ∷ ("chrome_146", chrome_146)
    ∷ ("chrome_150", chrome_150)
    ∷ ("chrome_151", chrome_151)
    ∷ ("chrome_152", chrome_152)
    ∷ ("chrome_153", chrome_153)
    ∷ ("chrome_154", chrome_154)
    ∷ ("chrome_155", chrome_155)
    ∷ []

abbrev pub quic_preset : String → PyResult QuicPreset
quic_preset s =
    or_unknown
      ("Unknown QUIC profile: '"
        <> (s
            <> "'. Available: chrome, chrome_146, chrome_150, chrome_151, chrome_152, chrome_153, chrome_154, chrome_155"))
      (choose s quic_table)

-- The library's constants.
pub record Constants : Type 0 where
  pub tls : Preset → Handle
  pub h2 : Preset → Handle
  pub tcp : TcpChoice → Handle
  pub quic : QuicPreset → Handle

unfoldable pub resolve_tls_from_any : Constants → ProfileArgument → PyResult Handle
resolve_tls_from_any k (preset s) = do p ← resolve_tls_profile s; ok (k.tls p)
resolve_tls_from_any k (profile_object p) = ok p
resolve_tls_from_any k other_object =
    new_err type_error "tls_profile must be str (preset name) or TlsProfile object"

unfoldable pub resolve_h2_from_any : Constants → ProfileArgument → PyResult Handle
resolve_h2_from_any k (preset s) = do p ← resolve_h2_profile s; ok (k.h2 p)
resolve_h2_from_any k (profile_object p) = ok p
resolve_h2_from_any k other_object =
    new_err type_error "h2_profile must be str (preset name) or H2Profile object"

unfoldable pub resolve_quic_from_any : Constants → ProfileArgument → PyResult Handle
resolve_quic_from_any k (preset s) = do p ← quic_preset s; ok (k.quic p)
resolve_quic_from_any k (profile_object p) = ok p
resolve_quic_from_any k other_object =
    new_err type_error "quic_profile must be str (preset name) or QuicProfile object"

pub resolve_tcp_from_any : Constants → (String → Parsed) → ProfileArgument → PyResult Handle
resolve_tcp_from_any k from_ja4t (preset s) = do
  p ← resolve_tcp_fingerprint from_ja4t s
  ok (k.tcp p)
resolve_tcp_from_any k from_ja4t (profile_object p) = ok p
resolve_tcp_from_any k from_ja4t other_object =
    new_err type_error "tcp_fingerprint must be str (preset name or JA4T) or TcpFingerprint object"

-- `map(f).transpose()`.
abbrev pub optional : {A B : Type 0} → (A → PyResult B) → Option A → PyResult (Option B)
optional f none = ok none
optional f (some a) = do b ← f a; ok (some b)

-- The arguments that are resolved. `plain` are the others, which `ClientConfig` takes as they are.
pub record ClientArguments : Type 0 where
  pub tls_profile : Option ProfileArgument
  pub h2_profile : Option ProfileArgument
  pub tcp_fingerprint : Option ProfileArgument
  pub quic_fingerprint : Option ProfileArgument
  pub quic_profile : Option ProfileArgument
  pub masque : Option MasqueArgument
  pub plain : ClientConfig

module _ (k : Constants) (from_ja4t : String → Parsed) where
  unfoldable pub resolve_arguments : ClientArguments → PyResult ClientConfig
  resolve_arguments a = do
    masque ← resolve_masque a.masque
    tls ← optional (resolve_tls_from_any k) a.tls_profile
    h2 ← optional (resolve_h2_from_any k) a.h2_profile
    tcp ← optional (resolve_tcp_from_any k from_ja4t) a.tcp_fingerprint
    quic_fp ← optional (resolve_tls_from_any k) a.quic_fingerprint
    quic ← optional (resolve_quic_from_any k) a.quic_profile
    ok (record a.plain {
      tls_profile = tls;
      h2_profile = h2;
      tcp_fingerprint = tcp;
      quic_fingerprint = quic_fp;
      quic_profile = quic;
      masque = masque;
    })

  module _ (read_file : String → IoResult Bytes) (keylog_to_file : String → IoResult Handle)
      (default_timeouts : TimeoutConfig) (default_limits : ResourceLimits)
      (host_of : String → Option String) (address_of : String → Option SocketAddr)
      (show : SocketAddr → String) (show_port : ℕ → String) where
    -- The constructor of `Client`, which the source repeats for `BlockingClient`.
    unfoldable pub new_client : ClientArguments → PyResult Calls
    new_client a = do
      config ← resolve_arguments a
      build_client read_file keylog_to_file default_timeouts default_limits host_of address_of show
          show_port config

    pub new_blocking_client : ClientArguments → PyResult Calls
    new_blocking_client a = do
      config ← resolve_arguments a
      build_client read_file keylog_to_file default_timeouts default_limits host_of address_of show
          show_port config
