-- ===== src/Client/Arguments/Known.antt =====
-- What the constructors of the two clients in src/client.rs accept.
use lkrequest_py.Prelude.{◌≡◌, String, Option, none, some}
use lkrequest_py.Presets.Names.{preset_name}
use lkrequest_py.Client.Arguments.{
  ProfileArgument, preset, profile_object, other_object, QuicPreset, chrome, chrome_146, chrome_150,
  chrome_151, chrome_152, chrome_153, chrome_154, chrome_155, ClientArguments,
}

abbrev pub quic_name : QuicPreset → String
quic_name chrome = "chrome"
quic_name chrome_146 = "chrome_146"
quic_name chrome_150 = "chrome_150"
quic_name chrome_151 = "chrome_151"
quic_name chrome_152 = "chrome_152"
quic_name chrome_153 = "chrome_153"
quic_name chrome_154 = "chrome_154"
quic_name chrome_155 = "chrome_155"

-- A profile that was given is an object of its class, or the name of a preset.
abbrev pub IsKnown : {P : Type 0} → (P → String) → Option ProfileArgument → Type 0
IsKnown print none = Unit
IsKnown {P} print (some (preset s)) = (p : P) × (print p ≡ s)
IsKnown print (some (profile_object h)) = Unit
IsKnown print (some other_object) = ⊥

-- The profiles that a client was given.
pub record AreKnown (a : ClientArguments) : Type 0 where
  pub tls : IsKnown preset_name a.tls_profile
  pub h2 : IsKnown preset_name a.h2_profile
  pub quic_tls : IsKnown preset_name a.quic_fingerprint
  pub quic : IsKnown quic_name a.quic_profile
