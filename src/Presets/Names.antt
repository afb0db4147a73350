-- ===== src/Presets/Names.antt =====
-- The names of the presets in src/types.rs, and the static constructors.
use lkrequest_py.Prelude.{◌≡◌, refl, String, some, Reads, choose, AllPrint, table-Reads}
use lkrequest_py.Presets.{
  Preset, chrome_131, chrome_144, chrome_145, chrome_146, chrome_147, chrome_148, chrome_149,
  chrome_150, chrome_151, chrome_152, chrome_153, chrome_154, chrome_155, firefox_133, firefox_147,
  firefox_156, safari_18, safari_26, tls_table, resolve_tls_profile, h2_table, resolve_h2_profile,
}

abbrev pub preset_name : Preset → String
preset_name chrome_131 = "chrome_131"
preset_name chrome_144 = "chrome_144"
preset_name chrome_145 = "chrome_145"
preset_name chrome_146 = "chrome_146"
preset_name chrome_147 = "chrome_147"
preset_name chrome_148 = "chrome_148"
preset_name chrome_149 = "chrome_149"
preset_name chrome_150 = "chrome_150"
preset_name chrome_151 = "chrome_151"
preset_name chrome_152 = "chrome_152"
preset_name chrome_153 = "chrome_153"
preset_name chrome_154 = "chrome_154"
preset_name chrome_155 = "chrome_155"
preset_name firefox_133 = "firefox_133"
preset_name firefox_147 = "firefox_147"
preset_name firefox_156 = "firefox_156"
preset_name safari_18 = "safari_18"
preset_name safari_26 = "safari_26"

pub chosen_tls : (p : Preset) → choose (preset_name p) tls_table ≡ some p
chosen_tls chrome_131 = refl
chosen_tls chrome_144 = refl
chosen_tls chrome_145 = refl
chosen_tls chrome_146 = refl
chosen_tls chrome_147 = refl
chosen_tls chrome_148 = refl
chosen_tls chrome_149 = refl
chosen_tls chrome_150 = refl
chosen_tls chrome_151 = refl
chosen_tls chrome_152 = refl
chosen_tls chrome_153 = refl
chosen_tls chrome_154 = refl
chosen_tls chrome_155 = refl
chosen_tls firefox_133 = refl
chosen_tls firefox_147 = refl
chosen_tls firefox_156 = refl
chosen_tls safari_18 = refl
chosen_tls safari_26 = refl

chosen_h2 : (p : Preset) → choose (preset_name p) h2_table ≡ some p
chosen_h2 chrome_131 = refl
chosen_h2 chrome_144 = refl
chosen_h2 chrome_145 = refl
chosen_h2 chrome_146 = refl
chosen_h2 chrome_147 = refl
chosen_h2 chrome_148 = refl
chosen_h2 chrome_149 = refl
chosen_h2 chrome_150 = refl
chosen_h2 chrome_151 = refl
chosen_h2 chrome_152 = refl
chosen_h2 chrome_153 = refl
chosen_h2 chrome_154 = refl
chosen_h2 chrome_155 = refl
chosen_h2 firefox_133 = refl
chosen_h2 firefox_147 = refl
chosen_h2 firefox_156 = refl
chosen_h2 safari_18 = refl
chosen_h2 safari_26 = refl

all_print : AllPrint preset_name tls_table
all_print = (
  refl,
  (
    refl,
    (
      refl,
      (
        refl,
        (
          refl,
          (
            refl,
            (
              refl,
              (
                refl,
                (refl, (refl, (refl, (refl, (refl, (refl, (refl, (refl, (refl, (refl, tt)))))))))),
              ),
            ),
          ),
        ),
      ),
    ),
  ),
)

-- A name is accepted as a TLS profile exactly when it is accepted as an HTTP/2 profile: when it is one
-- of the eighteen presets, which both then give. Any other text is a `ValueError` in both.
pub profiles_agree :
    (name : String)
    → Reads preset_name name (resolve_tls_profile name)
      × (Reads preset_name name (resolve_h2_profile name))
unfolding resolve_tls_profile resolve_h2_profile
profiles_agree name = (
  table-Reads preset_name tls_table _ name all_print chosen_tls,
  table-Reads preset_name h2_table _ name all_print chosen_h2,
)
