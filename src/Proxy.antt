-- ===== src/Proxy.antt =====
-- src/proxy.rs, and what it uses of src/masque.rs: the proxies that Python gives, one or a list, and
-- the options of a pool of proxies. The published wheel has the `masque` feature.
mod Tests
pub mod Lists
use lkrequest_py.Prelude.{
  ℕ, ◌<>◌, String, str_eq, Bool, true, false, ◌&&◌, not, List, [], ◌∷◌, ◌++◌, Option, none, some,
  is_some, if◌then◌else◌, value_error, type_error, PyErr, PyResult, ok, err, new_err, ◌>>=◌, ◌>>◌,
}
use lkrequest_py.Types.{F64, Duration, validated_duration}

-- A `lkrequest::proxy::ProxyConfig`, or another value of the library.
abbrev pub Handle : Type 0
Handle = ℕ

-- A Python object where a proxy is looked for.
pub data ProxyArgument : Type 0 where
  proxy_url : String → ProxyArgument
  proxy_object : Handle → ProxyArgument
  no_proxy : ProxyArgument

-- An object where several are: an iterable gives its items one by one, and may raise.
pub data ProxiesArgument : Type 0 where
  single_url : String → ProxiesArgument
  not_iterable : ProxiesArgument
  iterable : List (PyResult ProxyArgument) → ProxiesArgument

abbrev pub proxy_type_error {ℓ} : {A : Type ℓ} → PyResult A
proxy_type_error = new_err type_error "proxy must be str or ProxyConfig"

-- The call that `apply_session_proxy` makes on a session builder.
pub data ProxyCall : Type 0 where
  uses_proxy : String → ProxyCall
  uses_proxy_config : Handle → ProxyCall

unfoldable pub apply_session_proxy : ProxyArgument → PyResult ProxyCall
apply_session_proxy (proxy_url url) = ok (uses_proxy url)
apply_session_proxy (proxy_object config) = ok (uses_proxy_config config)
apply_session_proxy no_proxy = proxy_type_error

abbrev pub as_url : ProxyArgument → PyResult String
as_url (proxy_url url) = ok url
as_url (proxy_object config) = new_err type_error "every proxy URL must be str"
as_url no_proxy = new_err type_error "every proxy URL must be str"

-- `iter.map(|item| f(item?)).collect()`: up to the first error.
pub collect : {A B : Type 0} → (A → PyResult B) → List (PyResult A) → PyResult (List B)
collect f [] = ok []
collect f (item ∷ items) =
    let rest = collect f items in (do a ← item; b ← f a; bs ← rest; ok (b ∷ bs))

pub resolve_proxy_urls : ProxiesArgument → PyResult (List String)
resolve_proxy_urls (single_url url) =
    new_err type_error "proxy URLs must be an iterable of str, not a single str"
resolve_proxy_urls not_iterable = new_err type_error "proxy URLs must be an iterable of str"
resolve_proxy_urls (iterable items) = collect as_url items

-- `parse` is `ProxyConfig::parse`, with the exception that `to_py_err` makes of its error.
module _ (parse : String → PyResult Handle) where
  pub resolve_proxy : ProxyArgument → PyResult Handle
  resolve_proxy (proxy_url url) = parse url
  resolve_proxy (proxy_object config) = ok config
  resolve_proxy no_proxy = proxy_type_error

  pub resolve_proxy_list : ProxiesArgument → PyResult (List Handle)
  resolve_proxy_list (single_url url) =
      new_err type_error "proxies must be an iterable of str or ProxyConfig, not a single str"
  resolve_proxy_list not_iterable =
      new_err type_error "proxies must be an iterable of str or ProxyConfig"
  resolve_proxy_list (iterable items) = collect resolve_proxy items

-- `ProxyConfig.parse_chain` and `through`, over the library's.
pub parse_chain : (List String → PyResult Handle) → ProxiesArgument → PyResult Handle
parse_chain chain urls = do hops ← resolve_proxy_urls urls; chain hops

pub through :
    (String → PyResult Handle)
    → (Handle → List Handle → Handle)
    → Handle
    → ProxiesArgument
    → PyResult Handle
through parse prepend config hops = do
  configs ← resolve_proxy_list parse hops
  ok (prepend config configs)

pub data ProxyAuthHeader : Type 0 where
  proxy_authorization authorization : ProxyAuthHeader

-- The header of `with_auth_header`, over `str::to_ascii_lowercase`.
pub auth_header : (String → String) → String → PyResult ProxyAuthHeader
auth_header to_ascii_lowercase header =
    let lower = to_ascii_lowercase header in
    if str_eq lower "proxy-authorization"
    then ok proxy_authorization
    else if str_eq lower "authorization"
    then ok authorization
    else new_err value_error (
        "Unknown proxy auth header: '"
        <> (header <> "'. Use 'proxy-authorization' or 'authorization'"))

pub record BadProxyConfig : Type 0 where
  pub failure_threshold : ℕ
  pub window : Duration
  pub cooldown_duration : Duration
  pub max_cooldowns : ℕ

pub new_bad_proxy_config : ℕ → F64 → F64 → ℕ → PyResult BadProxyConfig
new_bad_proxy_config failure_threshold window cooldown max_cooldowns = do
  w ← validated_duration window
  c ← validated_duration cooldown
  ok (record {
    failure_threshold = failure_threshold;
    window = w;
    cooldown_duration = c;
    max_cooldowns = max_cooldowns;
  })

-- What `HealthCheckConfig` sets. `masque_outer_config` is the configuration of the outer hop.
pub record HealthCheckConfig : Type 0 where
  pub interval : Duration
  pub timeout : Duration
  pub target_host : String
  pub target_port : ℕ
  pub tunnel_probe : Bool
  pub masque_outer_config : Option Handle

-- `masque::resolve`: the object is a `MasqueConfig`, or is none.
pub data MasqueArgument : Type 0 where
  masque_object : Handle → MasqueArgument
  no_masque : MasqueArgument

unfoldable pub resolve_masque : Option MasqueArgument → PyResult (Option Handle)
resolve_masque none = ok none
resolve_masque (some (masque_object config)) = ok (some config)
resolve_masque (some no_masque) = new_err type_error "masque must be a MasqueConfig"

-- `apply_to_health_check`.
pub apply_to_health_check : Bool → Option Handle → HealthCheckConfig → PyResult HealthCheckConfig
apply_to_health_check tunnel_probe config health =
    if tunnel_probe && not (is_some config)
    then new_err value_error
        "tunnel_probe=True needs masque=MasqueConfig(...): the probe must know which trust anchors the proxy's certificate chains to"
    else ok (record health { tunnel_probe = tunnel_probe; masque_outer_config = config })

pub new_health_check :
    F64 → F64 → String → ℕ → Bool → Option MasqueArgument → PyResult HealthCheckConfig
new_health_check interval timeout target_host target_port tunnel_probe masque = do
  every ← validated_duration interval
  limit ← validated_duration timeout
  config ← resolve_masque masque
  apply_to_health_check tunnel_probe config (record {
    interval = every;
    timeout = limit;
    target_host = target_host;
    target_port = target_port;
    tunnel_probe = false;
    masque_outer_config = none;
  })

pub data RotationStrategy : Type 0 where
  round_robin random : RotationStrategy

abbrev pub rotation_named : String → PyResult RotationStrategy
rotation_named strategy =
    if str_eq strategy "round_robin"
    then ok round_robin
    else if str_eq strategy "random"
    then ok random
    else new_err value_error
        ("Unknown rotation strategy: '" <> (strategy <> "'. Use 'round_robin' or 'random'"))

-- The calls on `ProxyPool::builder()`.
pub data PoolCall : Type 0 where
  adds_proxies : List Handle → PoolCall
  sets_max_proxies : ℕ → PoolCall
  sets_rotation : RotationStrategy → PoolCall
  sets_bad_proxy_config : BadProxyConfig → PoolCall
  sets_health_check : HealthCheckConfig → PoolCall

abbrev pub when_some {ℓ} : {A : Type ℓ} → Option A → (A → PoolCall) → List PoolCall
when_some none f = []
when_some (some a) f = f a ∷ []

abbrev pub rotation_calls : Option String → PyResult (List PoolCall)
rotation_calls none = ok []
rotation_calls (some strategy) = do rs ← rotation_named strategy; ok (sets_rotation rs ∷ [])

pub new_proxy_pool :
    (String → PyResult Handle)
    → ProxiesArgument
    → Option ℕ
    → Option String
    → Option BadProxyConfig
    → Option HealthCheckConfig
    → PyResult (List PoolCall)
new_proxy_pool parse proxies max_proxies rotation bad_proxy_config health_check = do
  configs ← resolve_proxy_list parse proxies
  rotation_call ← rotation_calls rotation
  ok (
      adds_proxies configs
      ∷ (when_some max_proxies sets_max_proxies
          ++ (rotation_call
              ++ (when_some bad_proxy_config sets_bad_proxy_config
                  ++ when_some health_check sets_health_check))))
