-- ===== src/Presets/Validation.antt =====
-- `validate_fingerprint_consistency` of src/lib.rs.
use Prim.Native.Char.{code}
use lkrequest_py.Prelude.{
  ℕ, ◌<>◌, String, str_eq, Bool, true, false, ◌&&◌, ◌||◌, not, List, [], ◌∷◌, ◌++◌, Option, none,
  some, is_some, if◌then◌else◌, ◌==◌, ok, err,
}
use lkrequest_py.Presets.{Preset, resolve_tls_profile}

-- `str::contains` of a text, on the code points.
abbrev pub codes : String → List ℕ
codes String.[] = []
codes (String.◌∷◌ c s) = code c ∷ codes s

abbrev pub starts_with : List ℕ → List ℕ → Bool
starts_with s [] = true
starts_with [] (c ∷ p) = false
starts_with (d ∷ s) (c ∷ p) = (d == c) && starts_with s p

abbrev pub contains : List ℕ → List ℕ → Bool
contains [] p = starts_with [] p
contains (c ∷ s) p = starts_with (c ∷ s) p || contains s p

unfoldable pub browser_family : String → Option String
browser_family name =
    if contains (codes name) (codes "chrome")
    then some "chrome"
    else if contains (codes name) (codes "firefox")
    then some "firefox"
    else if contains (codes name) (codes "safari")
    then some "safari"
    else none

abbrev pub family_of : Option String → Option String
family_of none = none
family_of (some name) = browser_family name

-- The warning where two families are known and differ.
abbrev pub mismatch : String → Option String → Option String → List String
mismatch other (some tf) (some f) =
    if str_eq tf f
    then []
    else ("TLS profile family '"
        <> (tf <> ("' does not match " <> (other <> (" family '" <> (f <> "'"))))))
      ∷ []
mismatch other tls family = []

abbrev pub any_h2 : List String → Bool
any_h2 [] = false
any_h2 (p ∷ ps) = str_eq p "h2" || any_h2 ps

-- `alpn_protocols` are the protocols of the library's TLS profiles.
abbrev pub alpn_warning : (Preset → List String) → Option String → Option String → List String
alpn_warning alpn_protocols none h2_profile = []
alpn_warning alpn_protocols (some tls_name) h2_profile = elim (resolve_tls_profile tls_name) [
  | ok profile ↦
      if any_h2 (alpn_protocols profile) && not (is_some h2_profile)
      then "TLS profile advertises h2 in ALPN but no H2 profile is set" ∷ []
      else []
  | err e ↦ []
]

abbrev pub is_empty : List String → Bool
is_empty [] = true
is_empty (w ∷ ws) = false

pub record Verdict : Type 0 where
  pub valid : Bool
  pub warnings : List String

unfoldable pub validate_fingerprint_consistency :
    (Preset → List String) → Option String → Option String → Option String → Verdict
validate_fingerprint_consistency alpn_protocols tls_profile h2_profile tcp_fingerprint =
    let warnings =
      mismatch "H2 profile" (family_of tls_profile) (family_of h2_profile)
      ++ (mismatch "TCP fingerprint" (family_of tls_profile) (family_of tcp_fingerprint)
          ++ alpn_warning alpn_protocols tls_profile h2_profile) in
    record { valid = is_empty warnings; warnings = warnings }
