-- ===== src/Presets/Tests.antt =====
-- Presets by their names.
use mathlib.Core.Logic.{◌↔◌}
use lkrequest_py.Prelude.{◌≡◌, String, true, List, [], ◌∷◌, none, some, Reads}
use lkrequest_py.Presets.{
  Preset, chrome_155, Parsed, unparsed, resolve_tls_profile, resolve_h2_profile,
}
use lkrequest_py.Presets.Validation.{validate_fingerprint_consistency, Verdict}
use lkrequest_py.Presets.Names.{preset_name, profiles_agree}
use lkrequest_py.Presets.Consistency.{IsConsistent, IsQuiet, validate_iff}
use lkrequest_py.Presets.Offers.{IsOffered, presets_consistent}

profiles_agree_example :
    Reads preset_name "chrome_155" (resolve_tls_profile "chrome_155")
    × Reads preset_name "chrome_155" (resolve_h2_profile "chrome_155")
profiles_agree_example = profiles_agree "chrome_155"

abbrev from_ja4t : String → Parsed
from_ja4t s = unparsed "no JA4T text"

abbrev alpn : Preset → List String
alpn p = "h2" ∷ "http/1.1" ∷ []

presets_consistent_example :
    IsOffered from_ja4t chrome_155
    × IsQuiet (
        validate_fingerprint_consistency alpn
          (some "chrome_155")
          (some "chrome_155")
          (some "chrome"))
presets_consistent_example = presets_consistent from_ja4t alpn chrome_155

abbrev firefox_on_chrome : Verdict
firefox_on_chrome =
    validate_fingerprint_consistency alpn (some "firefox_147") (some "firefox_147")
      (some "chrome_win")

validate_iff_example :
    ((firefox_on_chrome.valid ≡ true)
      ↔ IsConsistent alpn (some "firefox_147") (some "firefox_147") (some "chrome_win"))
    × ((firefox_on_chrome.warnings ≡ [])
        ↔ IsConsistent alpn (some "firefox_147") (some "firefox_147") (some "chrome_win"))
    × ((validate_fingerprint_consistency alpn none (some "firefox_147") (some "chrome_win")).valid
        ≡ true)
validate_iff_example =
    validate_iff alpn (some "firefox_147") (some "firefox_147") (some "chrome_win")
