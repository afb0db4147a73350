-- ===== src/Fingerprint/Tests.antt =====
-- Fingerprints built by hand in src/fingerprint.rs.
use lkrequest_py.Prelude.{String, List, [], ◌∷◌, Option, none, some, ℕ, true, false}
use lkrequest_py.Fingerprint.{new_extension_spec}
use lkrequest_py.Fingerprint.Extensions.{IsSpecOf, new_extension_spec-IsSpecOf}
use lkrequest_py.Fingerprint.H2.{PriorityConfig, flat, new_h2_profile, new_priority_config}
use lkrequest_py.Fingerprint.H2.Priorities.{IsConfigOf}
use lkrequest_py.Fingerprint.H2.Bounds.{IsProfileOf, h2_constructors}

abbrev ids : Option (List String)
ids = some ("0a" ∷ "0b" ∷ [])

new_extension_spec-IsSpecOf_example :
    IsSpecOf 51914 none ids true "trust_anchor_ids"
      (new_extension_spec 51914 "trust_anchor_ids" none ids true)
new_extension_spec-IsSpecOf_example =
    new_extension_spec-IsSpecOf 51914 none ids true "trust_anchor_ids"

abbrev default_config : PriorityConfig
default_config = record {
  urgency_weights = none;
  exclusive = true;
  stream_dep_policy = flat;
  auto_priority_header = true;
  default_urgency = 3;
  default_incremental = false;
}

abbrev order : List String
order = "method" ∷ "path" ∷ "authority" ∷ "scheme" ∷ []

abbrev shown : ℕ → String
shown n = "9"

abbrev weights : Option (List ℕ)
weights = some (256 ∷ 220 ∷ 183 ∷ 147 ∷ 110 ∷ 73 ∷ 37 ∷ 1 ∷ [])

h2_constructors_example :
    IsProfileOf default_config [] 65535 order none none none 3
      (new_h2_profile default_config [] 65535 order none none none 3)
    × IsConfigOf weights true "chain" false 7 false
        (new_priority_config shown weights true "chain" false 7 false)
h2_constructors_example =
    h2_constructors default_config [] 65535 order none none none 3 shown weights true "chain" false
      7 false
