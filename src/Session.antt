-- ===== src/Session.antt =====
-- src/session.rs: a request's options, checked and turned into calls on a builder of the
-- `lkrequest` library, whose values stand here by their identity.
mod Tests
pub mod Sending
pub mod Checks
pub mod Building
use lkrequest_py.Prelude.{
  ℕ, suc, ◌+◌, ◌<>◌, String, str_eq, Bool, true, false, ◌&&◌, not, List, [], ◌∷◌, ◌++◌, Option,
  none, some, is_some, if◌then◌else◌, ltb, value_error, PyResult, ok, err, new_err, ◌>>=◌, ◌>>◌,
}
use lkrequest_py.Types.{F64, Duration, optional_duration}
use lkrequest_py.Upload.{UploadSource}

-- A value of a type of the libraries `lkrequest` and `lkh2`.
abbrev pub Handle : Type 0
Handle = ℕ

abbrev pub Pairs : Type 0
Pairs = List (String × String)

abbrev pub Bytes : Type 0
Bytes = List ℕ

pub record RequestOpts : Type 0 where
  pub priority : Option Handle
  pub h2_priority_weight : Option ℕ
  pub preferred_http_version : Option Handle
  pub idempotency : Option Handle
  pub header_order : Option (List String)
  pub cookie_order : Option (List String)
  pub h3_header_order : Option (List String)
  pub protocol_policy : Option Handle
  pub http_intent : Option Handle
  pub body_stream : Option UploadSource
  pub content_length : Option ℕ

-- `RequestOpts::default`.
pub default_opts : RequestOpts
default_opts = record {
  priority = none;
  h2_priority_weight = none;
  preferred_http_version = none;
  idempotency = none;
  header_order = none;
  cookie_order = none;
  h3_header_order = none;
  protocol_policy = none;
  http_intent = none;
  body_stream = none;
  content_length = none;
}

-- `multipart` holds the parts of the form.
pub record PreparedRequest : Type 0 where
  pub method : String
  pub url : String
  pub headers : Option Pairs
  pub params : Option Pairs
  pub json_body : Option String
  pub form_data : Option Pairs
  pub raw_body : Option Bytes
  pub cookies : Option Pairs
  pub cookie_overrides : Option Pairs
  pub timeout : Option F64
  pub bearer_auth : Option String
  pub basic_auth : Option (String × Option String)
  pub multipart : Option (List Handle)
  pub proxy : Option String
  pub no_auto_decompress : Bool
  pub accept_encoding : Option Handle
  pub opts : RequestOpts

-- A method of `lkrequest::Session` that starts a builder.
pub data Verb : Type 0 where
  get post put delete head patch options : Verb

-- A call that makes or changes a `RequestBuilder`.
pub data BuilderCall : Type 0 where
  starts : Verb → String → BuilderCall
  adds_header adds_cookie adds_cookie_override : String → String → BuilderCall
  sets_query : Pairs → BuilderCall
  sets_bearer_auth : String → BuilderCall
  sets_basic_auth : String → Option String → BuilderCall
  sets_timeout : Duration → BuilderCall
  sets_proxy : String → BuilderCall
  sets_no_auto_decompress : BuilderCall
  sets_accept_encoding sets_priority sets_preferred_http_version sets_idempotency
        sets_protocol_policy sets_http_intent :
      Handle → BuilderCall
  sets_h2_priority_weight : ℕ → BuilderCall
  sets_header_order sets_cookie_order sets_h3_header_order : List String → BuilderCall
  sets_text_body : String → BuilderCall  -- `body(json_str.into_bytes())`
  sets_body : Bytes → BuilderCall
  sets_form : Pairs → BuilderCall
  sets_multipart : List Handle → BuilderCall
  sets_body_stream : UploadSource → Option ℕ → BuilderCall

-- The `match` on the method's name.
pub verb_of : String → Option Verb
verb_of name =
    if str_eq name "GET"
    then some get
    else if str_eq name "POST"
    then some post
    else if str_eq name "PUT"
    then some put
    else if str_eq name "DELETE"
    then some delete
    else if str_eq name "HEAD"
    then some head
    else if str_eq name "PATCH"
    then some patch
    else if str_eq name "OPTIONS"
    then some options
    else none

abbrev pub start_call : String → String → PyResult BuilderCall
start_call method url = elim (verb_of method) [
  | some v ↦ ok (starts v url)
  | none ↦ new_err value_error ("Unsupported HTTP method: " <> method)
]

-- `if let Some(a) = … { rb = rb.f(a) }`, and the loop over the pairs of an option.
abbrev pub when_some {ℓ} : {A : Type ℓ} → Option A → (A → BuilderCall) → List BuilderCall
when_some none f = []
when_some (some a) f = f a ∷ []

abbrev pub for_pairs : Pairs → (String → String → BuilderCall) → List BuilderCall
for_pairs [] f = []
for_pairs ((k, v) ∷ ps) f = f k v ∷ for_pairs ps f

abbrev pub for_each : Option Pairs → (String → String → BuilderCall) → List BuilderCall
for_each none f = []
for_each (some ps) f = for_pairs ps f

abbrev pub when_set : Bool → BuilderCall → List BuilderCall
when_set true c = c ∷ []
when_set false c = []

abbrev pub basic : String × Option String → BuilderCall
basic (user, pass) = sets_basic_auth user pass

-- The calls before the timeout, and those between it and the body.
pub head_calls : PreparedRequest → List BuilderCall
head_calls r =
    for_each r.headers adds_header
    ++ (when_some r.params sets_query
        ++ (for_each r.cookies adds_cookie
            ++ (for_each r.cookie_overrides adds_cookie_override
                ++ (when_some r.bearer_auth sets_bearer_auth ++ when_some r.basic_auth basic))))

pub option_calls : PreparedRequest → List BuilderCall
option_calls r =
    let o = r.opts in
    when_some r.proxy sets_proxy
    ++ (when_set r.no_auto_decompress sets_no_auto_decompress
        ++ (when_some r.accept_encoding sets_accept_encoding
            ++ (when_some o.priority sets_priority
                ++ (when_some o.h2_priority_weight sets_h2_priority_weight
                    ++ (when_some o.preferred_http_version sets_preferred_http_version
                        ++ (when_some o.idempotency sets_idempotency
                            ++ (when_some o.header_order sets_header_order
                                ++ (when_some o.cookie_order sets_cookie_order
                                    ++ (when_some o.h3_header_order sets_h3_header_order
                                        ++ (when_some o.protocol_policy sets_protocol_policy
                                            ++ when_some o.http_intent sets_http_intent))))))))))

-- The chain of `else if` over the bodies.
pub body_calls : PreparedRequest → List BuilderCall
body_calls r = elim r.json_body [
  | some json ↦ adds_header "content-type" "application/json" ∷ sets_text_body json ∷ []
  | none ↦ elim r.form_data [
    | some form ↦ sets_form form ∷ []
    | none ↦ elim r.multipart [
      | some parts ↦ sets_multipart parts ∷ []
      | none ↦ elim r.raw_body [
        | some body ↦ sets_body body ∷ []
        | none ↦ elim r.opts.body_stream [
          | some source ↦ sets_body_stream source r.opts.content_length ∷ []
          | none ↦ []
        ]
      ]
    ]
  ]
]

-- `apply_request_options`.
pub apply_request_options : PreparedRequest → PyResult (List BuilderCall)
apply_request_options r = do
  start ← start_call r.method r.url
  timeout ← optional_duration r.timeout
  ok (start ∷ head_calls r ++ (when_some timeout sets_timeout ++ (option_calls r ++ body_calls r)))

abbrev pub one_if {ℓ} : {A : Type ℓ} → Option A → ℕ
one_if none = 0
one_if (some a) = 1

pub validate_body_params :
    Option String
    → Option Pairs
    → Option Bytes
    → Option (List Handle)
    → Option UploadSource
    → Option ℕ
    → PyResult (Unit {0})
validate_body_params json form body multipart body_stream content_length =
    let count = one_if json + one_if form + one_if body + one_if multipart + one_if body_stream in
    if ltb 1 count
    then new_err value_error
        "Cannot specify more than one of: json, data, body, multipart, body_stream"
    else if is_some content_length && not (is_some body_stream)
    then new_err value_error "content_length requires body_stream"
    else ok tt

-- `resolve_base_url`, over `Url::parse` and `join` of the `url` crate; `parse` also gives the text
-- that `to_string` prints.
pub resolve_base_url :
    (String → Option Handle) → (Handle → String → Option String) → Option String → String → String
resolve_base_url parse join none url = url
resolve_base_url parse join (some b) url = elim (parse url) [
  | some absolute ↦ url
  | none ↦ elim (parse b) [
    | none ↦ url
    | some base ↦ elim (join base url) [ some joined ↦ joined | none ↦ url ]
  ]
]
