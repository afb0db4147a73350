-- ===== src/Presets.antt =====
-- The presets: the names that src/types.rs resolves, the static constructors of src/client.rs and
-- src/fingerprint.rs. A preset stands for the constants of the library's crates that are called after
-- it.
mod Tests
pub mod Names
pub mod Validation
pub mod Consistency
pub mod Offers
use lkrequest_py.Prelude.{
  ℕ, ◌<>◌, String, str_eq, Bool, true, false, ◌&&◌, ◌||◌, not, List, [], ◌∷◌, ◌++◌, Option, none,
  some, is_some, if◌then◌else◌, ◌==◌, value_error, type_error, PyResult, ok, err, new_err, choose,
  or_unknown,
}

abbrev Handle : Type 0
Handle = ℕ

pub data Preset : Type 0 where
  chrome_131 chrome_144 chrome_145 chrome_146 chrome_147 chrome_148 chrome_149 chrome_150 chrome_151
        chrome_152 chrome_153 chrome_154 chrome_155 firefox_133 firefox_147 firefox_156 safari_18
        safari_26 :
      Preset

pub data TcpPreset : Type 0 where
  chrome chrome_win chrome_linux chrome_macos firefox firefox_win firefox_linux firefox_macos
        safari :
      TcpPreset

-- The constants of `lktls::profile::presets`: the ClientHello on TCP, or the one inside QUIC.
pub data TlsConstant : Type 0 where
  hello hello_quic : Preset → TlsConstant

-- A TCP fingerprint of the library: a constant, or one that it read from a JA4T text.
pub data TcpChoice : Type 0 where
  tcp_constant : TcpPreset → TcpChoice
  from_text : Handle → TcpChoice

abbrev pub tls_table : List (String × Preset)
tls_table =
    ("chrome_131", chrome_131)
    ∷ ("chrome_144", chrome_144)
    ∷ ("chrome_145", chrome_145)
    ∷ ("chrome_146", chrome_146)
    ∷ ("chrome_147", chrome_147)
    ∷ ("chrome_148", chrome_148)
    ∷ ("chrome_149", chrome_149)
    ∷ ("chrome_150", chrome_150)
    ∷ ("chrome_151", chrome_151)
    ∷ ("chrome_152", chrome_152)
    ∷ ("chrome_153", chrome_153)
    ∷ ("chrome_154", chrome_154)
    ∷ ("chrome_155", chrome_155)
    ∷ ("firefox_133", firefox_133)
    ∷ ("firefox_147", firefox_147)
    ∷ ("firefox_156", firefox_156)
    ∷ ("safari_18", safari_18)
    ∷ ("safari_26", safari_26)
    ∷ []

unfoldable pub resolve_tls_profile : String → PyResult Preset
resolve_tls_profile name =
    or_unknown
      ("Unknown TLS profile: '"
        <> (name
            <> "'. Available: chrome_131, chrome_144, chrome_145, chrome_146, chrome_147, chrome_148, chrome_149, chrome_150, chrome_151, chrome_152, chrome_153, chrome_154, chrome_155, firefox_133, firefox_147, firefox_156, safari_18, safari_26"))
      (choose name tls_table)

abbrev pub h2_table : List (String × Preset)
h2_table =
    ("chrome_131", chrome_131)
    ∷ ("chrome_144", chrome_144)
    ∷ ("chrome_145", chrome_145)
    ∷ ("chrome_146", chrome_146)
    ∷ ("chrome_147", chrome_147)
    ∷ ("chrome_148", chrome_148)
    ∷ ("chrome_149", chrome_149)
    ∷ ("chrome_150", chrome_150)
    ∷ ("chrome_151", chrome_151)
    ∷ ("chrome_152", chrome_152)
    ∷ ("chrome_153", chrome_153)
    ∷ ("chrome_154", chrome_154)
    ∷ ("chrome_155", chrome_155)
    ∷ ("firefox_133", firefox_133)
    ∷ ("firefox_147", firefox_147)
    ∷ ("firefox_156", firefox_156)
    ∷ ("safari_18", safari_18)
    ∷ ("safari_26", safari_26)
    ∷ []

pub resolve_h2_profile : String → PyResult Preset
resolve_h2_profile name =
    or_unknown
      ("Unknown H2 profile: '"
        <> (name
            <> "'. Available: chrome_131, chrome_144, chrome_145, chrome_146, chrome_147, chrome_148, chrome_149, chrome_150, chrome_151, chrome_152, chrome_153, chrome_154, chrome_155, firefox_133, firefox_147, firefox_156, safari_18, safari_26"))
      (choose name h2_table)

abbrev pub tcp_table : List (String × TcpPreset)
tcp_table =
    ("chrome", chrome)
    ∷ ("chrome_win", chrome_win)
    ∷ ("chrome_linux", chrome_linux)
    ∷ ("chrome_macos", chrome_macos)
    ∷ ("firefox", firefox)
    ∷ ("firefox_win", firefox_win)
    ∷ ("firefox_linux", firefox_linux)
    ∷ ("firefox_macos", firefox_macos)
    ∷ ("safari", safari)
    ∷ []

-- What the library's parser of JA4T texts gives.
pub data Parsed : Type 0 where
  parsed : Handle → Parsed
  unparsed : String → Parsed

pub resolve_tcp_fingerprint : (String → Parsed) → String → PyResult TcpChoice
resolve_tcp_fingerprint from_ja4t name = elim (choose name tcp_table) [
  | some preset ↦ ok (tcp_constant preset)
  | none ↦ elim (from_ja4t name) [
    | parsed fingerprint ↦ ok (from_text fingerprint)
    | unparsed e ↦
        new_err value_error
          ("Unknown TCP fingerprint preset '" <> (name <> ("' and failed to parse as JA4T: " <> e)))
  ]
]

-- The static methods of `TlsProfile`, `H2Profile` and `TcpFingerprint` without an argument, by name.
abbrev pub tls_static : String → Option TlsConstant
tls_static name = choose name (
    ("chrome_131", hello chrome_131)
    ∷ ("chrome_144", hello chrome_144)
    ∷ ("chrome_145", hello chrome_145)
    ∷ ("chrome_146", hello chrome_146)
    ∷ ("chrome_147", hello chrome_147)
    ∷ ("chrome_148", hello chrome_148)
    ∷ ("chrome_149", hello chrome_149)
    ∷ ("chrome_150", hello chrome_150)
    ∷ ("chrome_151", hello chrome_151)
    ∷ ("chrome_152", hello chrome_152)
    ∷ ("chrome_153", hello chrome_153)
    ∷ ("chrome_154", hello chrome_154)
    ∷ ("chrome_155", hello chrome_155)
    ∷ ("chrome_146_quic", hello_quic chrome_146)
    ∷ ("chrome_150_quic", hello_quic chrome_150)
    ∷ ("chrome_151_quic", hello_quic chrome_151)
    ∷ ("chrome_152_quic", hello_quic chrome_152)
    ∷ ("chrome_153_quic", hello_quic chrome_153)
    ∷ ("chrome_154_quic", hello_quic chrome_154)
    ∷ ("chrome_155_quic", hello_quic chrome_155)
    ∷ ("firefox_133", hello firefox_133)
    ∷ ("firefox_147", hello firefox_147)
    ∷ ("firefox_156", hello firefox_156)
    ∷ ("safari_18", hello safari_18)
    ∷ ("safari_26", hello safari_26)
    ∷ [])

abbrev pub h2_static : String → Option Preset
h2_static name = choose name (
    ("chrome_131", chrome_131)
    ∷ ("chrome_144", chrome_144)
    ∷ ("chrome_145", chrome_145)
    ∷ ("chrome_146", chrome_146)
    ∷ ("chrome_147", chrome_147)
    ∷ ("chrome_148", chrome_148)
    ∷ ("chrome_149", chrome_149)
    ∷ ("chrome_150", chrome_150)
    ∷ ("chrome_151", chrome_151)
    ∷ ("chrome_152", chrome_152)
    ∷ ("chrome_153", chrome_153)
    ∷ ("chrome_154", chrome_154)
    ∷ ("chrome_155", chrome_155)
    ∷ ("firefox_133", firefox_133)
    ∷ ("firefox_147", firefox_147)
    ∷ ("firefox_156", firefox_156)
    ∷ ("safari_18", safari_18)
    ∷ ("safari_26", safari_26)
    ∷ [])

abbrev pub tcp_static : String → Option TcpPreset
tcp_static name = choose name (
    ("chrome", chrome)
    ∷ ("chrome_win", chrome_win)
    ∷ ("chrome_linux", chrome_linux)
    ∷ ("chrome_macos", chrome_macos)
    ∷ ("firefox", firefox)
    ∷ ("firefox_win", firefox_win)
    ∷ ("firefox_linux", firefox_linux)
    ∷ ("firefox_macos", firefox_macos)
    ∷ ("safari", safari)
    ∷ [])

-- `build_preset_client`: the bundle of `lkrequest::preset` under its name, and a TCP fingerprint.
pub record PresetClient : Type 0 where
  pub preset : Preset
  pub tcp_fingerprint : TcpPreset

abbrev pub build_preset_client : Preset → TcpPreset → PresetClient
build_preset_client preset tcp = record { preset = preset; tcp_fingerprint = tcp }

-- The static methods of `Client`; `BlockingClient` has the same ones.
abbrev pub client_static : String → Option PresetClient
client_static name = choose name (
    ("chrome_131", build_preset_client chrome_131 TcpPreset.chrome)
    ∷ ("chrome_144", build_preset_client chrome_144 TcpPreset.chrome)
    ∷ ("chrome_145", build_preset_client chrome_145 TcpPreset.chrome)
    ∷ ("chrome_146", build_preset_client chrome_146 TcpPreset.chrome)
    ∷ ("chrome_147", build_preset_client chrome_147 TcpPreset.chrome)
    ∷ ("chrome_148", build_preset_client chrome_148 TcpPreset.chrome)
    ∷ ("chrome_149", build_preset_client chrome_149 TcpPreset.chrome)
    ∷ ("chrome_150", build_preset_client chrome_150 TcpPreset.chrome)
    ∷ ("chrome_151", build_preset_client chrome_151 TcpPreset.chrome)
    ∷ ("chrome_152", build_preset_client chrome_152 TcpPreset.chrome)
    ∷ ("chrome_153", build_preset_client chrome_153 TcpPreset.chrome)
    ∷ ("chrome_154", build_preset_client chrome_154 TcpPreset.chrome)
    ∷ ("chrome_155", build_preset_client chrome_155 TcpPreset.chrome)
    ∷ ("firefox_133", build_preset_client firefox_133 TcpPreset.firefox)
    ∷ ("firefox_147", build_preset_client firefox_147 TcpPreset.firefox)
    ∷ ("firefox_156", build_preset_client firefox_156 TcpPreset.firefox)
    ∷ ("safari_18", build_preset_client safari_18 TcpPreset.safari)
    ∷ ("safari_26", build_preset_client safari_26 TcpPreset.safari)
    ∷ [])

abbrev pub blocking_client_static : String → Option PresetClient
blocking_client_static name = choose name (
    ("chrome_131", build_preset_client chrome_131 TcpPreset.chrome)
    ∷ ("chrome_144", build_preset_client chrome_144 TcpPreset.chrome)
    ∷ ("chrome_145", build_preset_client chrome_145 TcpPreset.chrome)
    ∷ ("chrome_146", build_preset_client chrome_146 TcpPreset.chrome)
    ∷ ("chrome_147", build_preset_client chrome_147 TcpPreset.chrome)
    ∷ ("chrome_148", build_preset_client chrome_148 TcpPreset.chrome)
    ∷ ("chrome_149", build_preset_client chrome_149 TcpPreset.chrome)
    ∷ ("chrome_150", build_preset_client chrome_150 TcpPreset.chrome)
    ∷ ("chrome_151", build_preset_client chrome_151 TcpPreset.chrome)
    ∷ ("chrome_152", build_preset_client chrome_152 TcpPreset.chrome)
    ∷ ("chrome_153", build_preset_client chrome_153 TcpPreset.chrome)
    ∷ ("chrome_154", build_preset_client chrome_154 TcpPreset.chrome)
    ∷ ("chrome_155", build_preset_client chrome_155 TcpPreset.chrome)
    ∷ ("firefox_133", build_preset_client firefox_133 TcpPreset.firefox)
    ∷ ("firefox_147", build_preset_client firefox_147 TcpPreset.firefox)
    ∷ ("firefox_156", build_preset_client firefox_156 TcpPreset.firefox)
    ∷ ("safari_18", build_preset_client safari_18 TcpPreset.safari)
    ∷ ("safari_26", build_preset_client safari_26 TcpPreset.safari)
    ∷ [])
