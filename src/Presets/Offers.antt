-- ===== src/Presets/Offers.antt =====
-- What src/types.rs, src/client.rs and src/fingerprint.rs offer for a preset.
use lkrequest_py.Prelude.{◌≡◌, refl, String, List, some, ok}
use lkrequest_py.Presets.{
  Preset, chrome_131, chrome_144, chrome_145, chrome_146, chrome_147, chrome_148, chrome_149,
  chrome_150, chrome_151, chrome_152, chrome_153, chrome_154, chrome_155, firefox_133, firefox_147,
  firefox_156, safari_18, safari_26, TcpPreset, hello, tcp_constant, Parsed, resolve_tls_profile,
  resolve_h2_profile, resolve_tcp_fingerprint, tls_static, h2_static, tcp_static, client_static,
  blocking_client_static,
}
use lkrequest_py.Presets.Validation.{browser_family, validate_fingerprint_consistency}
use lkrequest_py.Presets.Names.{preset_name}
use lkrequest_py.Presets.Consistency.{IsConsistent, IsQuiet, validate_iff}

-- The browser of a preset, and its text.
abbrev pub browser : Preset → TcpPreset
browser chrome_131 = TcpPreset.chrome
browser chrome_144 = TcpPreset.chrome
browser chrome_145 = TcpPreset.chrome
browser chrome_146 = TcpPreset.chrome
browser chrome_147 = TcpPreset.chrome
browser chrome_148 = TcpPreset.chrome
browser chrome_149 = TcpPreset.chrome
browser chrome_150 = TcpPreset.chrome
browser chrome_151 = TcpPreset.chrome
browser chrome_152 = TcpPreset.chrome
browser chrome_153 = TcpPreset.chrome
browser chrome_154 = TcpPreset.chrome
browser chrome_155 = TcpPreset.chrome
browser firefox_133 = TcpPreset.firefox
browser firefox_147 = TcpPreset.firefox
browser firefox_156 = TcpPreset.firefox
browser safari_18 = TcpPreset.safari
browser safari_26 = TcpPreset.safari

abbrev pub browser_name : Preset → String
browser_name chrome_131 = "chrome"
browser_name chrome_144 = "chrome"
browser_name chrome_145 = "chrome"
browser_name chrome_146 = "chrome"
browser_name chrome_147 = "chrome"
browser_name chrome_148 = "chrome"
browser_name chrome_149 = "chrome"
browser_name chrome_150 = "chrome"
browser_name chrome_151 = "chrome"
browser_name chrome_152 = "chrome"
browser_name chrome_153 = "chrome"
browser_name chrome_154 = "chrome"
browser_name chrome_155 = "chrome"
browser_name firefox_133 = "firefox"
browser_name firefox_147 = "firefox"
browser_name firefox_156 = "firefox"
browser_name safari_18 = "safari"
browser_name safari_26 = "safari"

-- What the constructors and the names give for a preset.
pub record IsOffered (from_ja4t : String → Parsed) (p : Preset) : Type 0 where
  pub tls : resolve_tls_profile (preset_name p) ≡ ok p
  pub h2 : resolve_h2_profile (preset_name p) ≡ ok p
  pub tcp : resolve_tcp_fingerprint from_ja4t (browser_name p) ≡ ok (tcp_constant (browser p))
  pub tls_method : tls_static (preset_name p) ≡ some (hello p)
  pub h2_method : h2_static (preset_name p) ≡ some p
  pub tcp_method : tcp_static (browser_name p) ≡ some (browser p)
  pub client :
      client_static (preset_name p) ≡ some (record { preset = p; tcp_fingerprint = browser p })
  pub blocking : blocking_client_static (preset_name p) ≡ client_static (preset_name p)

module _ (from_ja4t : String → Parsed) where
  offered :
      {p : Preset}
      → resolve_tls_profile (preset_name p) ≡ ok p
      → resolve_h2_profile (preset_name p) ≡ ok p
      → resolve_tcp_fingerprint from_ja4t (browser_name p) ≡ ok (tcp_constant (browser p))
      → tls_static (preset_name p) ≡ some (hello p)
      → h2_static (preset_name p) ≡ some p
      → tcp_static (browser_name p) ≡ some (browser p)
      → client_static (preset_name p) ≡ some (record { preset = p; tcp_fingerprint = browser p })
      → blocking_client_static (preset_name p) ≡ client_static (preset_name p)
      → IsOffered from_ja4t p
  offered t h c tm hm cm cl b = record {
    tls = t;
    h2 = h;
    tcp = c;
    tls_method = tm;
    h2_method = hm;
    tcp_method = cm;
    client = cl;
    blocking = b;
  }

  offers : (p : Preset) → IsOffered from_ja4t p
  unfolding resolve_tls_profile resolve_h2_profile resolve_tcp_fingerprint
  offers chrome_131 = offered {p = chrome_131} refl refl refl refl refl refl refl refl
  offers chrome_144 = offered {p = chrome_144} refl refl refl refl refl refl refl refl
  offers chrome_145 = offered {p = chrome_145} refl refl refl refl refl refl refl refl
  offers chrome_146 = offered {p = chrome_146} refl refl refl refl refl refl refl refl
  offers chrome_147 = offered {p = chrome_147} refl refl refl refl refl refl refl refl
  offers chrome_148 = offered {p = chrome_148} refl refl refl refl refl refl refl refl
  offers chrome_149 = offered {p = chrome_149} refl refl refl refl refl refl refl refl
  offers chrome_150 = offered {p = chrome_150} refl refl refl refl refl refl refl refl
  offers chrome_151 = offered {p = chrome_151} refl refl refl refl refl refl refl refl
  offers chrome_152 = offered {p = chrome_152} refl refl refl refl refl refl refl refl
  offers chrome_153 = offered {p = chrome_153} refl refl refl refl refl refl refl refl
  offers chrome_154 = offered {p = chrome_154} refl refl refl refl refl refl refl refl
  offers chrome_155 = offered {p = chrome_155} refl refl refl refl refl refl refl refl
  offers firefox_133 = offered {p = firefox_133} refl refl refl refl refl refl refl refl
  offers firefox_147 = offered {p = firefox_147} refl refl refl refl refl refl refl refl
  offers firefox_156 = offered {p = firefox_156} refl refl refl refl refl refl refl refl
  offers safari_18 = offered {p = safari_18} refl refl refl refl refl refl refl refl
  offers safari_26 = offered {p = safari_26} refl refl refl refl refl refl refl refl

families :
    (p : Preset)
    → (browser_family (preset_name p) ≡ some (browser_name p))
      × (browser_family (browser_name p) ≡ some (browser_name p))
unfolding browser_family
families chrome_131 = (refl, refl)
families chrome_144 = (refl, refl)
families chrome_145 = (refl, refl)
families chrome_146 = (refl, refl)
families chrome_147 = (refl, refl)
families chrome_148 = (refl, refl)
families chrome_149 = (refl, refl)
families chrome_150 = (refl, refl)
families chrome_151 = (refl, refl)
families chrome_152 = (refl, refl)
families chrome_153 = (refl, refl)
families chrome_154 = (refl, refl)
families chrome_155 = (refl, refl)
families firefox_133 = (refl, refl)
families firefox_147 = (refl, refl)
families firefox_156 = (refl, refl)
families safari_18 = (refl, refl)
families safari_26 = (refl, refl)

-- Each preset is offered everywhere under its name, and with the TCP fingerprint of its browser: by
-- the two resolvers of names, by the static constructors of the profiles, and by those of the two
-- clients. The check for consistency finds nothing in what `Client` puts together.
pub presets_consistent :
    (from_ja4t : String → Parsed) (alpn_protocols : Preset → List String) (p : Preset)
    → IsOffered from_ja4t p
      × IsQuiet (
          validate_fingerprint_consistency alpn_protocols
            (some (preset_name p))
            (some (preset_name p))
            (some (browser_name p)))
presets_consistent from_ja4t alpn_protocols p =
    let h : IsConsistent alpn_protocols (some (preset_name p)) (some (preset_name p))
        (some (browser_name p)) =
      record {
        with_h2 = rw ((families p).0) refl;
        with_tcp = rw ((families p).0, (families p).1) refl;
        alpn = tt;
      } in
    let (v, w, t) =
      validate_iff alpn_protocols (some (preset_name p)) (some (preset_name p))
        (some (browser_name p)) in
    (offers from_ja4t p, (v.1 h, w.1 h))
