-- ===== src/Fingerprint/H2.antt =====
-- The HTTP/2 half of src/fingerprint.rs: settings, priorities and profiles built by hand.
pub mod Priorities
pub mod Bounds
use lkrequest_py.Prelude.{
  ℕ, ◌%◌, ◌^◌, ◌<>◌, String, str_eq, Bool, true, false, ◌||◌, not, List, [], ◌∷◌, Option, none,
  some, if◌then◌else◌, ltb, ◌==◌, length, value_error, type_error, PyResult, ok, err, new_err,
  ◌>>=◌, ◌>>◌,
}

pub data H2SettingId : Type 0 where
  header_table_size enable_push max_concurrent_streams initial_window_size max_frame_size
        max_header_list_size enable_connect_protocol no_rfc7540_priorities :
      H2SettingId
  unknown : ℕ → H2SettingId

pub str_to_h2_setting_id : String → PyResult H2SettingId
str_to_h2_setting_id s =
    if str_eq s "header_table_size"
    then ok header_table_size
    else if str_eq s "enable_push"
    then ok enable_push
    else if str_eq s "max_concurrent_streams"
    then ok max_concurrent_streams
    else if str_eq s "initial_window_size"
    then ok initial_window_size
    else if str_eq s "max_frame_size"
    then ok max_frame_size
    else if str_eq s "max_header_list_size"
    then ok max_header_list_size
    else if str_eq s "enable_connect_protocol"
    then ok enable_connect_protocol
    else if str_eq s "no_rfc7540_priorities"
    then ok no_rfc7540_priorities
    else new_err value_error (
        "Unknown H2 setting: '"
        <> (s
            <> "'. Use: header_table_size, enable_push, max_concurrent_streams, initial_window_size, max_frame_size, max_header_list_size, enable_connect_protocol, no_rfc7540_priorities"))

pub data PseudoHeaderId : Type 0 where
  method authority scheme path : PseudoHeaderId

pub str_to_pseudo_header_id : String → PyResult PseudoHeaderId
str_to_pseudo_header_id s =
    if str_eq s "method"
    then ok method
    else if str_eq s "authority"
    then ok authority
    else if str_eq s "scheme"
    then ok scheme
    else if str_eq s "path"
    then ok path
    else new_err value_error
        ("Unknown pseudo header: '" <> (s <> "'. Use: method, authority, scheme, path"))

-- A Python object where the identity of a setting is looked for: a text, a number of 16 bits, or
-- neither.
pub data SettingArgument : Type 0 where
  setting_name : String → SettingArgument
  setting_number : ℕ → SettingArgument
  no_setting : SettingArgument

pub record H2Setting : Type 0 where
  pub id : H2SettingId
  pub value : ℕ

abbrev setting_id : SettingArgument → PyResult H2SettingId
setting_id (setting_name s) = str_to_h2_setting_id s
setting_id (setting_number n) = ok (unknown n)
setting_id no_setting = new_err type_error "id must be str (e.g. 'header_table_size') or int"

pub new_h2_setting : SettingArgument → ℕ → PyResult H2Setting
new_h2_setting argument value = do id ← setting_id argument; ok (record { id = id; value = value })

pub record HeadersPriority : Type 0 where
  pub stream_dependency : ℕ
  pub weight : ℕ
  pub exclusive : Bool

pub record PriorityFrame : Type 0 where
  pub stream_id : ℕ
  pub dependency : ℕ
  pub weight : ℕ
  pub exclusive : Bool

pub data StreamDepPolicy : Type 0 where
  flat chain priority_chain : StreamDepPolicy

pub str_to_stream_dep_policy : String → PyResult StreamDepPolicy
str_to_stream_dep_policy s =
    if str_eq s "flat"
    then ok flat
    else if str_eq s "chain"
    then ok chain
    else if str_eq s "priority_chain"
    then ok priority_chain
    else new_err value_error
        ("Unknown stream_dep_policy: '" <> (s <> "'. Use 'flat', 'chain' or 'priority_chain'"))

pub stream_dep_policy_to_str : StreamDepPolicy → String
stream_dep_policy_to_str flat = "flat"
stream_dep_policy_to_str chain = "chain"
stream_dep_policy_to_str priority_chain = "priority_chain"

pub record PriorityConfig : Type 0 where
  pub urgency_weights : Option (List ℕ)
  pub exclusive : Bool
  pub stream_dep_policy : StreamDepPolicy
  pub auto_priority_header : Bool
  pub default_urgency : ℕ
  pub default_incremental : Bool

-- `show_length` prints a number.
module _ (show_length : ℕ → String) where
  -- `try_into` an array of 8.
  abbrev pub eight_weights : Option (List ℕ) → PyResult (Option (List ℕ))
  eight_weights none = ok none
  eight_weights (some w) =
      if length w == 8
      then ok (some w)
      else new_err value_error
          ("urgency_weights must have exactly 8 elements, got " <> show_length (length w))

  pub new_priority_config :
      Option (List ℕ) → Bool → String → Bool → ℕ → Bool → PyResult PriorityConfig
  new_priority_config urgency_weights exclusive policy auto_header urgency incremental = do
    weights ← eight_weights urgency_weights
    if ltb 7 urgency then new_err value_error "default_urgency must be in the range 0–7" else (do
      stream_dep_policy ← str_to_stream_dep_policy policy
      ok (record {
        urgency_weights = weights;
        exclusive = exclusive;
        stream_dep_policy = stream_dep_policy;
        auto_priority_header = auto_header;
        default_urgency = urgency;
        default_incremental = incremental;
      }))

-- `MAX_CLIENT_STREAM_ID`. `id & 1` is the remainder by 2.
abbrev pub max_client_stream_id : ℕ
max_client_stream_id = 2147483647

pub validated_initial_stream_id : ℕ → PyResult ℕ
validated_initial_stream_id id =
    if (id == 0) || ltb max_client_stream_id id || (id % 2) == 0
    then new_err value_error "initial_stream_id must be a nonzero odd 31-bit client stream ID"
    else ok id

pub record H2Profile : Type 0 where
  pub initial_stream_id : ℕ
  pub settings : List H2Setting
  pub window_update : ℕ
  pub pseudo_header_order : List PseudoHeaderId
  pub headers_priority : Option HeadersPriority
  pub priority_frames : List PriorityFrame
  pub priority_config : PriorityConfig

-- `iter().map(…).collect::<PyResult<_>>()`.
pub pseudo_headers : List String → PyResult (List PseudoHeaderId)
pseudo_headers [] = ok []
pseudo_headers (s ∷ ss) =
    let rest = pseudo_headers ss in (do id ← str_to_pseudo_header_id s; ids ← rest; ok (id ∷ ids))

abbrev pub unwrap_or_default : Option (List PriorityFrame) → List PriorityFrame
unwrap_or_default none = []
unwrap_or_default (some fs) = fs

abbrev pub config_or : PriorityConfig → Option PriorityConfig → PriorityConfig
config_or d none = d
config_or d (some c) = c

-- `default_config` is `PriorityConfig::default()`.
pub new_h2_profile :
    PriorityConfig
    → List H2Setting
    → ℕ
    → List String
    → Option HeadersPriority
    → Option (List PriorityFrame)
    → Option PriorityConfig
    → ℕ
    → PyResult H2Profile
new_h2_profile default_config settings window order headers frames config stream_id = do
  pho ← pseudo_headers order
  id ← validated_initial_stream_id stream_id
  ok (record {
    initial_stream_id = id;
    settings = settings;
    window_update = window;
    pseudo_header_order = pho;
    headers_priority = headers;
    priority_frames = unwrap_or_default frames;
    priority_config = config_or default_config config;
  })
