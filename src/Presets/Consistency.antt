-- ===== src/Presets/Consistency.antt =====
-- The consistency check of src/lib.rs, and the presets of src/client.rs.
use mathlib.Core.Logic.{◌↔◌}
use lkrequest_py.Prelude.{
  ◌≡◌, refl, sym, ◌⊎◌, inl, inr, String, str_eq, eq_iff, Bool-cases, true, false, List, [], ◌∷◌,
  ◌++◌, Option, none, some, PyResult, ok, err, Reads, choose, ap, ◌∙◌, ◌&&◌, if◌then◌else◌,
}
use lkrequest_py.Presets.{tls_table, Preset, resolve_tls_profile}
use lkrequest_py.Presets.Validation.{
  is_empty, family_of, mismatch, any_h2, alpn_warning, Verdict, validate_fingerprint_consistency,
}
use lkrequest_py.Presets.Names.{preset_name, chosen_tls, profiles_agree}

-- Two families that are known are the same.
abbrev pub Agree : Option String → Option String → Type 0
Agree (some a) (some b) = a ≡ b
Agree none other = Unit
Agree (some a) none = Unit

abbrev pub Advertises : List String → Type 0
Advertises [] = ⊥
Advertises (p ∷ ps) = (p ≡ "h2") ⊎ Advertises ps

abbrev pub OffersH2 : (Preset → List String) → Option String → Option String → Type 0
OffersH2 alpn_protocols (some name) none =
    (p : Preset) → preset_name p ≡ name → ¬ Advertises (alpn_protocols p)
OffersH2 alpn_protocols none h2 = Unit
OffersH2 alpn_protocols (some name) (some h2) = Unit

mismatch-Agree : (other : String) (t f : Option String) → (mismatch other t f ≡ []) ↔ Agree t f
mismatch-Agree other none f = (λ e. tt, λ h. refl)
mismatch-Agree other (some a) none = (λ e. tt, λ h. refl)
mismatch-Agree other (some a) (some b) = elim (Bool-cases (str_eq a b)) [
  | inl e ↦ (λ q. (eq_iff a b).0 e, λ h. rw e refl)
  | inr e ↦ (λ q. cc (e, q), λ h. cc ((eq_iff a b).1 h, e))
]

any_h2-Advertises : (ps : List String) → (any_h2 ps ≡ true) ↔ Advertises ps
any_h2-Advertises [] = (λ e. cc, λ h. absurd h)
any_h2-Advertises (p ∷ ps) = elim (Bool-cases (str_eq p "h2")) [
  | inl e ↦ (λ q. inl ((eq_iff p "h2").0 e), λ h. rw e refl)
  | inr e ↦ (
    λ q. inr ((any_h2-Advertises ps).0 (cc (e, q))),
    λ h. elim h [ inl x ↦ cc (x) | inr x ↦ rw e ((any_h2-Advertises ps).1 x) ],
  )
]

preset_name_inj :
    {name : String} (p q : Preset) → preset_name p ≡ name → preset_name q ≡ name → p ≡ q
preset_name_inj p q s t =
    some_inj (sym (chosen_tls p) ∙ ap (λ n. choose n tls_table) (s ∙ sym t) ∙ chosen_tls q)
  where
    some_inj : {a b : Preset} → some a ≡ some b → a ≡ b
    some_inj e = cc

alpn_warning-OffersH2 :
    (alpn_protocols : Preset → List String) (tls h2 : Option String)
    → (alpn_warning alpn_protocols tls h2 ≡ []) ↔ OffersH2 alpn_protocols tls h2
alpn_warning-OffersH2 alpn_protocols none h2 = (λ e. tt, λ h. refl)
alpn_warning-OffersH2 alpn_protocols (some name) (some h2) = quiet (resolve_tls_profile name)
  where
    quiet :
        (r : PyResult Preset)
        → ((elim r as (λ x. List String) [
          | ok profile ↦
              if any_h2 (alpn_protocols profile) && false
              then "TLS profile advertises h2 in ALPN but no H2 profile is set" ∷ []
              else []
          | err e ↦ []
        ])
            ≡ [])
          ↔ Unit {0}
    quiet (err e) = (λ q. tt, λ h. refl)
    quiet (ok p) = elim (Bool-cases (any_h2 (alpn_protocols p))) [
      | inl e ↦ rw e (λ q. tt, λ h. refl)
      | inr e ↦ rw e (λ q. tt, λ h. refl)
    ]
alpn_warning-OffersH2 alpn_protocols (some name) none =
    loud (resolve_tls_profile name) (profiles_agree name).0
  where
    loud :
        (r : PyResult Preset)
        → Reads preset_name name r
        → ((elim r as (λ x. List String) [
          | ok profile ↦
              if any_h2 (alpn_protocols profile) && true
              then "TLS profile advertises h2 in ALPN but no H2 profile is set" ∷ []
              else []
          | err e ↦ []
        ])
            ≡ [])
          ↔ OffersH2 alpn_protocols (some name) none
    loud (err e) (k, h) = (λ q p t a. h p t, λ h. refl)
    loud (ok p) t = elim (Bool-cases (any_h2 (alpn_protocols p))) [
      | inl e ↦ rw e (λ q. cc, λ h. absurd (h p t ((any_h2-Advertises (alpn_protocols p)).0 e)))
      | inr e ↦ rw e (
        λ q p' t' a. cc ((any_h2-Advertises (alpn_protocols p')).1 a, preset_name_inj p' p t' t, e),
        λ h. refl,
      )
    ]

append_empty : (a b : List String) → (a ++ b ≡ []) ↔ ((a ≡ []) × (b ≡ []))
append_empty [] b = (λ e. (refl, e), λ h. h.1)
append_empty (w ∷ a) b = (λ e. cc, λ h. cc (h.0))

abbrev pub IsQuiet : Verdict → Type 0
IsQuiet v = (v.valid ≡ true) × (v.warnings ≡ [])

verdict_of : (ws : List String) → (is_empty ws ≡ true) → ws ≡ []
verdict_of [] e = refl
verdict_of (w ∷ ws) e = cc

module _ (alpn_protocols : Preset → List String)
    (tls_profile h2_profile tcp_fingerprint : Option String) where
  -- The families agree, and HTTP/2 is set if the TLS profile offers it.
  pub record IsConsistent : Type 0 where
    pub with_h2 : Agree (family_of tls_profile) (family_of h2_profile)
    pub with_tcp : Agree (family_of tls_profile) (family_of tcp_fingerprint)
    pub alpn : OffersH2 alpn_protocols tls_profile h2_profile

  -- The configuration is reported as valid exactly when the browser of the TLS profile is that of the
  -- HTTP/2 profile and that of the TCP fingerprint, as far as their names show one, and an HTTP/2
  -- profile is given if the TLS profile names a preset that advertises h2. There are then no warnings,
  -- and only then. So without a TLS profile everything is valid.
  pub validate_iff :
      (((validate_fingerprint_consistency alpn_protocols tls_profile h2_profile
            tcp_fingerprint).valid
          ≡ true)
        ↔ IsConsistent)
      × (((validate_fingerprint_consistency alpn_protocols tls_profile h2_profile
              tcp_fingerprint).warnings
            ≡ [])
          ↔ IsConsistent)
      × ((validate_fingerprint_consistency alpn_protocols none h2_profile tcp_fingerprint).valid
          ≡ true)
  unfolding validate_fingerprint_consistency
  validate_iff =
      ((λ e. quiet (verdict_of _ e), λ h. ap is_empty (consistent h)), (quiet, consistent), refl)
    where
      a : List String
      a = mismatch "H2 profile" (family_of tls_profile) (family_of h2_profile)

      b : List String
      b = mismatch "TCP fingerprint" (family_of tls_profile) (family_of tcp_fingerprint)

      c : List String
      c = alpn_warning alpn_protocols tls_profile h2_profile

      quiet : (a ++ (b ++ c) ≡ []) → IsConsistent
      quiet e =
          let (x, r) = (append_empty a (b ++ c)).0 e in
          let (y, z) = (append_empty b c).0 r in
          record {
            with_h2 = (mismatch-Agree _ _ _).0 x;
            with_tcp = (mismatch-Agree _ _ _).0 y;
            alpn = (alpn_warning-OffersH2 _ _ _).0 z;
          }

      consistent : IsConsistent → a ++ (b ++ c) ≡ []
      consistent h = (append_empty a (b ++ c)).1 (
        (mismatch-Agree _ _ _).1 h.with_h2,
        (append_empty b c).1
            ((mismatch-Agree _ _ _).1 h.with_tcp, (alpn_warning-OffersH2 _ _ _).1 h.alpn),
      )
