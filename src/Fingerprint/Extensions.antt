-- ===== src/Fingerprint/Extensions.antt =====
-- What `ExtensionSpec` of src/fingerprint.rs accepts, and what its getters give back.
use lkrequest_py.Prelude.{
  ℕ, ◌≡◌, ◌≢◌, refl, sym, ◌⊎◌, inl, inr, String, str_eq, eq_iff, Bool, true, false, arith, subst,
  Option-cases, List, Option, none, some, value_error, PyResult, ok, err, if◌then◌else◌, Bool-cases,
}
use lkrequest_py.Fingerprint.{
  ExtensionSource, auto, grease, raw_bytes, trust_anchors, ExtensionSpec, extension_source,
  new_extension_spec, source_name, trust_anchor_ids, shuffle,
}

-- The source wants an argument that is not there.
abbrev pub IsMissing : String → Option String → Option (List String) → Type 0
IsMissing source raw_data ids =
    ((source ≡ "raw_bytes") × (raw_data ≡ none)) ⊎ ((source ≡ "trust_anchor_ids") × (ids ≡ none))

no_name :
    (s : String)
    → str_eq s "auto" ≡ false
    → str_eq s "grease" ≡ false
    → str_eq s "raw_bytes" ≡ false
    → str_eq s "trust_anchor_ids" ≡ false
    → (spec : ExtensionSpec) → source_name spec ≢ s
unfolding source_name
no_name s a g r t spec = λ p. named spec.source (sym p)
  where
    named :
        (source : ExtensionSource)
        → s ≢ source_name (record { extension_type = 0; source = source })
    named auto = λ p. cc ((eq_iff s "auto").1 p, a)
    named grease = λ p. cc ((eq_iff s "grease").1 p, g)
    named (raw_bytes hex) = λ p. cc ((eq_iff s "raw_bytes").1 p, r)
    named (trust_anchors ids flag) = λ p. cc ((eq_iff s "trust_anchor_ids").1 p, t)

module _ (extension_type : ℕ) (raw_data : Option String) (ids : Option (List String))
    (shuffles : Bool) where
  abbrev pub IsSpecOf : String → PyResult ExtensionSpec → Type 0
  IsSpecOf source (ok spec) =
      (spec.extension_type ≡ extension_type)
      × (source_name spec ≡ source)
      × (trust_anchor_ids spec ≡ (if str_eq source "trust_anchor_ids" then ids else none))
      × (shuffle spec ≡ (if str_eq source "trust_anchor_ids" then some shuffles else none))
      × ¬ IsMissing source raw_data ids
  IsSpecOf source (err e) =
      (e.kind ≡ value_error)
      × (IsMissing source raw_data ids ⊎ ((spec : ExtensionSpec) → source_name spec ≢ source))

  auto-IsSpecOf : IsSpecOf "auto" (new_extension_spec extension_type "auto" raw_data ids shuffles)
  unfolding new_extension_spec extension_source source_name trust_anchor_ids shuffle
  auto-IsSpecOf = (
    refl,
    refl,
    refl,
    refl,
    λ h. elim h [
      | inl (p, q) ↦ ground (arith, eq_iff "auto" "raw_bytes")
      | inr (p, q) ↦ ground (arith, eq_iff "auto" "trust_anchor_ids")
    ],
  )

  grease-IsSpecOf :
      IsSpecOf "grease" (new_extension_spec extension_type "grease" raw_data ids shuffles)
  unfolding new_extension_spec extension_source source_name trust_anchor_ids shuffle
  grease-IsSpecOf = (
    refl,
    refl,
    refl,
    refl,
    λ h. elim h [
      | inl (p, q) ↦ ground (arith, eq_iff "grease" "raw_bytes")
      | inr (p, q) ↦ ground (arith, eq_iff "grease" "trust_anchor_ids")
    ],
  )

  raw-IsSpecOf :
      IsSpecOf "raw_bytes" (new_extension_spec extension_type "raw_bytes" raw_data ids shuffles)
  unfolding new_extension_spec extension_source source_name trust_anchor_ids shuffle
  raw-IsSpecOf = elim (Option-cases raw_data) [
    | inl e ↦ rw e (refl, inl (inl (refl, refl)))
    | inr (hex, e) ↦ rw e (
      refl,
      refl,
      refl,
      refl,
      λ h. elim h [
        | inl (p, q) ↦ cc
        | inr (p, q) ↦ ground (arith, eq_iff "raw_bytes" "trust_anchor_ids")
      ],
    )
  ]

  trust-IsSpecOf :
      IsSpecOf "trust_anchor_ids"
        (new_extension_spec extension_type "trust_anchor_ids" raw_data ids shuffles)
  unfolding new_extension_spec extension_source source_name trust_anchor_ids shuffle
  trust-IsSpecOf = elim (Option-cases ids) [
    | inl e ↦ rw e (refl, inl (inr (refl, refl)))
    | inr (texts, e) ↦ rw e (
      refl,
      refl,
      refl,
      refl,
      λ h. elim h [
        | inl (p, q) ↦ ground (arith, eq_iff "trust_anchor_ids" "raw_bytes")
        | inr (p, q) ↦ cc
      ],
    )
  ]

  -- `ExtensionSpec(…)` raises a `ValueError` exactly when `source` is none of the names that the getter
  -- `source` can give, or is "raw_bytes" without data, or "trust_anchor_ids" without identifiers.
  -- Otherwise the getters give back the type and the source, and the identifiers and the flag for
  -- "trust_anchor_ids"; for any other source they give `None`, whatever was passed.
  pub new_extension_spec-IsSpecOf :
      (source : String)
      → IsSpecOf source (new_extension_spec extension_type source raw_data ids shuffles)
  unfolding new_extension_spec extension_source
  new_extension_spec-IsSpecOf source = elim (Bool-cases (str_eq source "auto")) [
    | inl e ↦ at "auto" e auto-IsSpecOf
    | inr a ↦ elim (Bool-cases (str_eq source "grease")) [
      | inl e ↦ at "grease" e grease-IsSpecOf
      | inr g ↦ elim (Bool-cases (str_eq source "raw_bytes")) [
        | inl e ↦ at "raw_bytes" e raw-IsSpecOf
        | inr r ↦ elim (Bool-cases (str_eq source "trust_anchor_ids")) [
          | inl e ↦ at "trust_anchor_ids" e trust-IsSpecOf
          | inr t ↦ rw (a, g, r, t) (refl, inr (no_name source a g r t))
        ]
      ]
    ]
  ]
    where
      at :
          (name : String)
          → str_eq source name ≡ true
          → IsSpecOf name (new_extension_spec extension_type name raw_data ids shuffles)
          → IsSpecOf source (new_extension_spec extension_type source raw_data ids shuffles)
      at name e h =
          subst (λ s. IsSpecOf s (new_extension_spec extension_type s raw_data ids shuffles))
            (sym ((eq_iff source name).0 e)) h
