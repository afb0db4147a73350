-- ===== src/Fingerprint/H2/Bounds.antt =====
-- What the constructors for HTTP/2 in src/fingerprint.rs accept.
use lkrequest_py.Prelude.{
  ℕ, Reads, entry, ◌%◌, ◌^◌, value_error, ◌==◌, Bool-cases, ◌<◌, ◌≡◌, ◌≢◌, refl, ◌⊎◌, inl, inr,
  String, Bool, List, [], ◌∷◌, map, Option, none, some, PyResult, ok, err, ◌>>=◌, arith, ltb,
}
use lkrequest_py.Fingerprint.H2.{
  PseudoHeaderId, method, authority, scheme, path, str_to_pseudo_header_id, pseudo_headers,
  validated_initial_stream_id, H2Setting, HeadersPriority, PriorityFrame, PriorityConfig, H2Profile,
  new_h2_profile, new_priority_config, unwrap_or_default, config_or,
}
use lkrequest_py.Fingerprint.H2.Priorities.{IsConfigOf, new_priority_config-IsConfigOf}

abbrev pub header_name : PseudoHeaderId → String
header_name method = "method"
header_name authority = "authority"
header_name scheme = "scheme"
header_name path = "path"

header-Reads : (s : String) → Reads header_name s (str_to_pseudo_header_id s)
unfolding str_to_pseudo_header_id
header-Reads s = entry header_name s method _ λ m.
    entry header_name s authority _
      λ a. entry header_name s scheme _ λ c. entry header_name s path _ λ p. (refl, every m a c p)
  where
    every :
        header_name method ≢ s
        → header_name authority ≢ s
        → header_name scheme ≢ s
        → header_name path ≢ s
        → (i : PseudoHeaderId) → header_name i ≢ s
    every m a c p method = m
    every m a c p authority = a
    every m a c p scheme = c
    every m a c p path = p

abbrev pub header_names : List PseudoHeaderId → List String
header_names = map header_name

-- The texts before a bad one may be fine.
headers-Reads : (order : List String) → Reads header_names order (pseudo_headers order)
unfolding pseudo_headers
headers-Reads [] = refl
headers-Reads (s ∷ ss) =
    both (str_to_pseudo_header_id s) (pseudo_headers ss) (header-Reads s) (headers-Reads ss)
  where
    bad :
        (name : PseudoHeaderId → String)
        → ((i : PseudoHeaderId) → name i ≢ s)
        → (is : List PseudoHeaderId) → map name is ≢ s ∷ ss
    bad name h [] = λ p. cc
    bad name h (i ∷ is) = λ p. h i cc

    worse :
        (name : PseudoHeaderId → String)
        → ((is : List PseudoHeaderId) → map name is ≢ ss)
        → (is : List PseudoHeaderId) → map name is ≢ s ∷ ss
    worse name h [] = λ p. cc
    worse name h (i ∷ is) = λ p. h is cc

    both :
        (x : PyResult PseudoHeaderId) (r : PyResult (List PseudoHeaderId))
        → Reads header_name s x
        → Reads header_names ss r
        → Reads header_names (s ∷ ss) (x >>= (λ id. r >>= (λ ids. ok (id ∷ ids))))
    both (err e) r (k, h) hs = (k, bad header_name h)
    both (ok i) (err e) h (k, hs) = (k, worse header_name hs)
    both (ok i) (ok is) h hs = cc

abbrev pub IsClientId : ℕ → Type 0
IsClientId n = (0 < n) × (n < 2 ^ 31) × (n % 2 ≡ 1)

abbrev ChecksId : ℕ → PyResult ℕ → Type 0
ChecksId n (ok m) = IsClientId n × (m ≡ n)
ChecksId n (err e) = (e.kind ≡ value_error) × ¬ IsClientId n

id-ChecksId : (n : ℕ) → ChecksId n (validated_initial_stream_id n)
unfolding validated_initial_stream_id
id-ChecksId n = elim (Bool-cases (n == 0)) [
  | inl e ↦ rw e (refl, λ h. ground arith)
  | inr e ↦ elim (Bool-cases (ltb 2147483647 n)) [
    | inl f ↦ rw (e, f) (refl, λ h. ground arith)
    | inr f ↦ elim (Bool-cases (n % 2 == 0)) [
      | inl g ↦ rw (e, f, g) (refl, λ h. ground arith)
      | inr g ↦ rw (e, f, g) ((ground arith, ground arith, ground arith), refl)
    ]
  ]
]

-- The value of an argument that may be left out.
abbrev pub IsGivenOr : {A : Type 0} → Option A → A → A → Type 0
IsGivenOr none default x = x ≡ default
IsGivenOr (some a) default x = x ≡ a

module _ (default_config : PriorityConfig) (settings : List H2Setting) (window : ℕ)
    (order : List String) (headers : Option HeadersPriority) (frames : Option (List PriorityFrame))
    (config : Option PriorityConfig) (n : ℕ) where
  abbrev pub IsProfileOf : PyResult H2Profile → Type 0
  IsProfileOf (ok p) =
      IsClientId n
      × (p.initial_stream_id ≡ n)
      × (header_names p.pseudo_header_order ≡ order)
      × (p.settings ≡ settings)
      × (p.window_update ≡ window)
      × (p.headers_priority ≡ headers)
      × IsGivenOr frames [] p.priority_frames
      × IsGivenOr config default_config p.priority_config
  IsProfileOf (err e) =
      (e.kind ≡ value_error)
      × ((¬ IsClientId n) ⊎ ((ids : List PseudoHeaderId) → header_names ids ≢ order))

unwrap_or_default-IsGivenOr :
    (given : Option (List PriorityFrame)) → IsGivenOr given [] (unwrap_or_default given)
unwrap_or_default-IsGivenOr none = refl
unwrap_or_default-IsGivenOr (some frames) = refl

config_or-IsGivenOr :
    (default : PriorityConfig) (given : Option PriorityConfig)
    → IsGivenOr given default (config_or default given)
config_or-IsGivenOr default none = refl
config_or-IsGivenOr default (some c) = refl

module _ (default_config : PriorityConfig) (settings : List H2Setting) (window : ℕ)
    (order : List String) (headers : Option HeadersPriority) (frames : Option (List PriorityFrame))
    (config : Option PriorityConfig) (n : ℕ) where
  new_h2_profile-IsProfileOf :
      IsProfileOf default_config settings window order headers frames config n
        (new_h2_profile default_config settings window order headers frames config n)
  unfolding new_h2_profile
  new_h2_profile-IsProfileOf =
      made (pseudo_headers order) (validated_initial_stream_id n) (headers-Reads order)
        (id-ChecksId n)
    where
      made :
          (x : PyResult (List PseudoHeaderId)) (r : PyResult ℕ)
          → Reads header_names order x
          → ChecksId n r
          → IsProfileOf default_config settings window order headers frames config n (
              x >>= (λ pho. r >>= (λ id. ok (record {
                initial_stream_id = id;
                settings = settings;
                window_update = window;
                pseudo_header_order = pho;
                headers_priority = headers;
                priority_frames = unwrap_or_default frames;
                priority_config = config_or default_config config;
              }))))
      made (err e) r (k, h) c = (k, inr h)
      made (ok ids) (err e) h (k, c) = (k, inl c)
      made (ok ids) (ok m) h (c, p) = (
        c,
        p,
        h,
        refl,
        refl,
        refl,
        unwrap_or_default-IsGivenOr frames,
        config_or-IsGivenOr default_config config,
      )

-- `H2Profile(…)` is built exactly when every pseudo-header is one of the four known names and the
-- initial stream identifier is an odd number above 0 that fits in 31 bits. It then holds the
-- identifier, the settings, the window and the priority of the headers as given, an order whose names
-- are the given ones, the given priority frames or none, and the given priority configuration or the
-- default one. `PriorityConfig(…)` is built exactly when the weights are left out or are eight, the
-- default urgency is at most 7 and the policy is one of the three known names. It then holds the
-- weights, the flags for exclusiveness, for the header of the priority and for incremental delivery
-- and the urgency as given, and a policy whose name is the given one. Otherwise either raises a
-- `ValueError`.
pub h2_constructors :
    (default_config : PriorityConfig) (settings : List H2Setting) (window : ℕ) (order : List String)
    (headers : Option HeadersPriority) (frames : Option (List PriorityFrame))
    (config : Option PriorityConfig) (n : ℕ) (show_length : ℕ → String) (weights : Option (List ℕ))
    (exclusive : Bool) (policy : String) (auto_header : Bool) (urgency : ℕ) (incremental : Bool)
    → IsProfileOf default_config settings window order headers frames config n
        (new_h2_profile default_config settings window order headers frames config n)
      × IsConfigOf weights exclusive policy auto_header urgency incremental
          (new_priority_config show_length weights exclusive policy auto_header urgency incremental)
h2_constructors default_config settings window order headers frames config n show_length weights
      exclusive policy auto_header urgency incremental =
    (
      new_h2_profile-IsProfileOf default_config settings window order headers frames config n,
      new_priority_config-IsConfigOf show_length weights exclusive policy auto_header urgency
          incremental,
    )
