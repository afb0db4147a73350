-- ===== src/Fingerprint/H2/Priorities.antt =====
-- What `PriorityConfig` of src/fingerprint.rs accepts.
use lkrequest_py.Prelude.{
  ℕ, Reads, entry, value_error, if◌then◌else◌, ◌==◌, Bool-cases, ◌<◌, ◌≤◌, ◌≡◌, ◌≢◌, refl, ◌⊎◌, inl,
  inr, String, Bool, List, Option, none, some, new_err, PyResult, ok, err, ◌>>=◌, arith, length,
  ltb,
}
use lkrequest_py.Fingerprint.H2.{
  PriorityConfig, StreamDepPolicy, flat, chain, priority_chain, str_to_stream_dep_policy,
  stream_dep_policy_to_str, new_priority_config, eight_weights,
}

policy-Reads : (s : String) → Reads stream_dep_policy_to_str s (str_to_stream_dep_policy s)
unfolding str_to_stream_dep_policy stream_dep_policy_to_str
policy-Reads s = entry stream_dep_policy_to_str s flat _ λ f.
    entry stream_dep_policy_to_str s chain _
      λ c. entry stream_dep_policy_to_str s priority_chain _ λ p. (refl, every f c p)
  where
    every :
        stream_dep_policy_to_str flat ≢ s
        → stream_dep_policy_to_str chain ≢ s
        → stream_dep_policy_to_str priority_chain ≢ s
        → (i : StreamDepPolicy) → stream_dep_policy_to_str i ≢ s
    every f c p flat = f
    every f c p chain = c
    every f c p priority_chain = p

abbrev pub IsEight : Option (List ℕ) → Type 0
IsEight none = Unit
IsEight (some ws) = length ws ≡ 8

abbrev ChecksWeights : Option (List ℕ) → PyResult (Option (List ℕ)) → Type 0
ChecksWeights weights (ok w) = IsEight weights × (w ≡ weights)
ChecksWeights weights (err e) = (e.kind ≡ value_error) × ¬ IsEight weights

weights-ChecksWeights :
    (show_length : ℕ → String) (weights : Option (List ℕ))
    → ChecksWeights weights (eight_weights show_length weights)
weights-ChecksWeights show_length none = (tt, refl)
weights-ChecksWeights show_length (some ws) = elim (Bool-cases (length ws == 8)) [
  | inl e ↦ rw e (ground arith, refl)
  | inr e ↦ rw e (refl, λ h. ground arith)
]

module _ (weights : Option (List ℕ)) (exclusive : Bool) (policy : String) (auto_header : Bool)
    (urgency : ℕ) (incremental : Bool) where
  abbrev pub IsConfigOf : PyResult PriorityConfig → Type 0
  IsConfigOf (ok c) =
      IsEight weights
      × (urgency ≤ 7)
      × (c.urgency_weights ≡ weights)
      × (c.default_urgency ≡ urgency)
      × (stream_dep_policy_to_str c.stream_dep_policy ≡ policy)
      × (c.exclusive ≡ exclusive)
      × (c.auto_priority_header ≡ auto_header)
      × (c.default_incremental ≡ incremental)
  IsConfigOf (err e) =
      (e.kind ≡ value_error)
      × ((¬ IsEight weights)
          ⊎ (7 < urgency)
          ⊎ ((p : StreamDepPolicy) → stream_dep_policy_to_str p ≢ policy))

module _ (show_length : ℕ → String) (weights : Option (List ℕ)) (exclusive : Bool) (policy : String)
    (auto_header : Bool) (urgency : ℕ) (incremental : Bool) where
  pub new_priority_config-IsConfigOf :
      IsConfigOf weights exclusive policy auto_header urgency incremental
        (new_priority_config show_length weights exclusive policy auto_header urgency incremental)
  unfolding new_priority_config
  new_priority_config-IsConfigOf =
      made (eight_weights show_length weights) (str_to_stream_dep_policy policy)
        (weights-ChecksWeights show_length weights) (policy-Reads policy)
    where
      config_of : Option (List ℕ) → StreamDepPolicy → PriorityConfig
      config_of w p = record {
        urgency_weights = w;
        exclusive = exclusive;
        stream_dep_policy = p;
        auto_priority_header = auto_header;
        default_urgency = urgency;
        default_incremental = incremental;
      }

      in_range :
          (w : Option (List ℕ)) (r : PyResult StreamDepPolicy)
          → IsEight weights × (w ≡ weights)
          → urgency ≤ 7
          → Reads stream_dep_policy_to_str policy r
          → IsConfigOf weights exclusive policy auto_header urgency incremental
              (r >>= (λ p. ok (config_of w p)))
      in_range w (err e) c h (k, p) = (k, inr (inr p))
      in_range w (ok p) (c, q) h t = (c, h, q, refl, t, refl, refl, refl)

      made :
          (x : PyResult (Option (List ℕ))) (r : PyResult StreamDepPolicy)
          → ChecksWeights weights x
          → Reads stream_dep_policy_to_str policy r
          → IsConfigOf weights exclusive policy auto_header urgency incremental (
              x >>= (λ w.
                if ltb 7 urgency
                then new_err value_error "default_urgency must be in the range 0–7"
                else (r >>= (λ p. ok (config_of w p)))))
      made (err e) r (k, h) t = (k, inl h)
      made (ok w) r c t = elim (Bool-cases (ltb 7 urgency)) [
        | inl e ↦ rw e (refl, inr (inl (ground arith)))
        | inr e ↦ rw e (in_range w r c (ground arith) t)
      ]
