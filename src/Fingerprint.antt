-- ===== src/Fingerprint.antt =====
-- src/fingerprint.rs: TLS and TCP fingerprints built by hand. H2 has those of HTTP/2.
mod Tests
pub mod H2
pub mod Extensions
use lkrequest_py.Prelude.{
  ℕ, ◌<>◌, String, str_eq, Bool, true, false, List, [], ◌∷◌, ◌++◌, map, Option, none, some,
  if◌then◌else◌, value_error, PyResult, ok, err, new_err, ◌>>=◌,
}

pub data TlsVersion : Type 0 where
  tls10 tls11 tls12 tls13 : TlsVersion

pub str_to_tls_version : String → PyResult TlsVersion
str_to_tls_version s =
    if str_eq s "tls10"
    then ok tls10
    else if str_eq s "tls11"
    then ok tls11
    else if str_eq s "tls12"
    then ok tls12
    else if str_eq s "tls13"
    then ok tls13
    else new_err value_error
        ("Unknown TLS version: '" <> (s <> "'. Use: tls10, tls11, tls12, tls13"))

-- `ExtensionSource`, and `ExtensionSpec` with its type.
pub data ExtensionSource : Type 0 where
  auto grease : ExtensionSource
  raw_bytes : String → ExtensionSource
  trust_anchors : List String → Bool → ExtensionSource

pub record ExtensionSpec : Type 0 where
  pub extension_type : ℕ
  pub source : ExtensionSource

abbrev required {ℓ} : {A : Type ℓ} → String → Option A → PyResult A
required message none = new_err value_error message
required message (some a) = ok a

pub extension_source :
    String → Option String → Option (List String) → Bool → PyResult ExtensionSource
extension_source source raw_data trust_anchor_ids shuffle =
    if str_eq source "auto"
    then ok auto
    else if str_eq source "grease"
    then ok grease
    else if str_eq source "raw_bytes"
    then (do
      hex ← required "raw_data (hex string) is required when source='raw_bytes'" raw_data
      ok (raw_bytes hex))
    else if str_eq source "trust_anchor_ids"
    then (do
      ids ←
          required
            "trust_anchor_ids (list of hex strings) is required when source='trust_anchor_ids'"
            trust_anchor_ids
      ok (trust_anchors ids shuffle))
    else new_err value_error
        ("Unknown source: '" <> (source <> "'. Use: auto, grease, raw_bytes, trust_anchor_ids"))

pub new_extension_spec :
    ℕ → String → Option String → Option (List String) → Bool → PyResult ExtensionSpec
new_extension_spec extension_type source raw_data trust_anchor_ids shuffle = do
  ext_source ← extension_source source raw_data trust_anchor_ids shuffle
  ok (record { extension_type = extension_type; source = ext_source })

-- The getters.
pub source_name : ExtensionSpec → String
source_name spec = elim spec.source [
  | auto ↦ "auto"
  | grease ↦ "grease"
  | raw_bytes hex ↦ "raw_bytes"
  | trust_anchors ids shuffle ↦ "trust_anchor_ids"
]

pub trust_anchor_ids : ExtensionSpec → Option (List String)
trust_anchor_ids spec = elim spec.source [ trust_anchors ids shuffle ↦ some ids | _ ↦ none ]

pub shuffle : ExtensionSpec → Option Bool
shuffle spec = elim spec.source [ trust_anchors ids shuffles ↦ some shuffles | _ ↦ none ]

pub record GreaseConfig : Type 0 where
  pub cipher_suite : Bool
  pub extensions : Bool
  pub supported_groups : Bool
  pub supported_versions : Bool
  pub signature_algorithms : Bool
  pub key_share : Bool

pub data PaddingStrategy : Type 0 where
  block_align : ℕ → ℕ → PaddingStrategy
  fixed_target : ℕ → PaddingStrategy
  no_padding : PaddingStrategy

-- The arguments of `TlsProfile`, and the fields of the library's profile that they set.
pub record TlsArguments : Type 0 where
  pub name : String
  pub cipher_suites : Option (List ℕ)
  pub extensions : Option (List ExtensionSpec)
  pub supported_groups : Option (List ℕ)
  pub signature_algorithms : Option (List ℕ)
  pub key_share_curves : Option (List ℕ)
  pub alpn_protocols : Option (List String)
  pub tls_min_version : Option String
  pub tls_max_version : Option String
  pub ec_point_formats : Option (List ℕ)
  pub compression_methods : Option (List ℕ)
  pub grease : Option GreaseConfig
  pub padding : Option PaddingStrategy
  pub alps_protocols : Option (List String)
  pub compress_cert_algorithms : Option (List ℕ)
  pub record_size_limit : Option ℕ
  pub delegated_credentials_sig_algs : Option (List ℕ)
  pub session_id_length : ℕ
  pub shuffle_extensions : Option Bool

pub record TlsProfile : Type 0 where
  pub name : String
  pub tls_min_version : TlsVersion
  pub tls_max_version : TlsVersion
  pub cipher_suites : List ℕ
  pub extensions : List ExtensionSpec
  pub supported_groups : List ℕ
  pub signature_algorithms : List ℕ
  pub ec_point_formats : List ℕ
  pub compression_methods : List ℕ
  pub grease : GreaseConfig
  pub padding : PaddingStrategy
  pub alps_protocols : Option (List String)
  pub compress_cert_algorithms : Option (List ℕ)
  pub key_share_curves : List ℕ
  pub record_size_limit : Option ℕ
  pub delegated_credentials : Option (List ℕ)
  pub session_id_length : ℕ
  pub alpn_protocols : List String
  pub randomization : Option Bool

abbrev unwrap_or {ℓ} : {A : Type ℓ} → A → Option A → A
unwrap_or d none = d
unwrap_or d (some a) = a

abbrev version_or : TlsVersion → Option String → PyResult TlsVersion
version_or v none = ok v
version_or v (some s) = str_to_tls_version s

-- The defaults of the library's two types are parameters.
pub new_tls_profile : GreaseConfig → PaddingStrategy → TlsArguments → PyResult TlsProfile
new_tls_profile default_grease default_padding a = do
  min_ver ← version_or tls12 a.tls_min_version
  max_ver ← version_or tls13 a.tls_max_version
  ok (record {
    name = a.name;
    tls_min_version = min_ver;
    tls_max_version = max_ver;
    cipher_suites = unwrap_or [] a.cipher_suites;
    extensions = unwrap_or [] a.extensions;
    supported_groups = unwrap_or [] a.supported_groups;
    signature_algorithms = unwrap_or [] a.signature_algorithms;
    ec_point_formats = unwrap_or (0 ∷ []) a.ec_point_formats;
    compression_methods = unwrap_or (0 ∷ []) a.compression_methods;
    grease = unwrap_or default_grease a.grease;
    padding = unwrap_or default_padding a.padding;
    alps_protocols = a.alps_protocols;
    compress_cert_algorithms = a.compress_cert_algorithms;
    key_share_curves = unwrap_or [] a.key_share_curves;
    record_size_limit = a.record_size_limit;
    delegated_credentials = a.delegated_credentials_sig_algs;
    session_id_length = a.session_id_length;
    alpn_protocols = unwrap_or ("h2" ∷ "http/1.1" ∷ []) a.alpn_protocols;
    randomization = a.shuffle_extensions;
  })

-- The calls of `TcpFingerprint` on the library's builder, which starts from `none()`.
pub data TcpCall : Type 0 where
  with_window_size with_mss with_window_scale with_ttl with_recv_buf_size with_send_buf_size :
      ℕ → TcpCall
  with_tcp_nodelay : Bool → TcpCall

abbrev when_some {ℓ} : {A : Type ℓ} → Option A → (A → TcpCall) → List TcpCall
when_some none f = []
when_some (some a) f = f a ∷ []

pub new_tcp_fingerprint :
    Option ℕ → Option ℕ → Option ℕ → Option ℕ → Option Bool → Option ℕ → Option ℕ → List TcpCall
new_tcp_fingerprint window_size mss window_scale ttl tcp_nodelay recv_buf_size send_buf_size =
    when_some window_size with_window_size
    ++ (when_some mss with_mss
        ++ (when_some window_scale with_window_scale
            ++ (when_some ttl with_ttl
                ++ (when_some tcp_nodelay with_tcp_nodelay
                    ++ (when_some recv_buf_size with_recv_buf_size
                        ++ when_some send_buf_size with_send_buf_size)))))
