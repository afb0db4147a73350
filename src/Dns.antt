-- ===== src/Dns.antt =====
-- src/dns.rs: the checks of `Client(ip_family=…)` and `Client(connect_to=…)`.
mod Tests
pub mod Overrides
pub mod Ports
use Prim.Native.Char.{Char, code}
use lkrequest_py.Prelude.{
  ℕ, suc, zero, ◌+◌, ◌-◌, ◌*◌, ◌/◌, ◌^◌, ◌<>◌, String, str_eq, Bool, true, false, ◌&&◌, ◌||◌, not,
  List, [], ◌∷◌, ◌++◌, Option, none, some, is_some, if◌then◌else◌, ltb, leb, ◌==◌, value_error,
  PyResult, ok, err, new_err, ◌>>=◌, ◌>>◌,
}

pub data IpFamily : Type 0 where
  any ipv4 ipv6 : IpFamily

-- An address, by its bits.
pub data IpAddr : Type 0 where
  v4 v6 : ℕ → IpAddr

pub record SocketAddr : Type 0 where
  pub ip : IpAddr
  pub port : ℕ

unfoldable pub parse_ip_family : String → PyResult IpFamily
parse_ip_family name =
    if str_eq name "any"
    then ok any
    else if str_eq name "ipv4"
    then ok ipv4
    else if str_eq name "ipv6"
    then ok ipv6
    else new_err value_error ("Unknown ip_family: '" <> (name <> "'. Available: any, ipv4, ipv6"))

pub family_label : IpFamily → String
family_label any = "any"
family_label ipv4 = "ipv4"
family_label ipv6 = "ipv6"

-- `to_ipv4_mapped`: ::ffff:0:0/96.
abbrev pub is_ipv4_mapped : ℕ → Bool
is_ipv4_mapped bits = (bits / 2 ^ 32) == 65535

unfoldable pub family_allows : IpFamily → IpAddr → Bool
family_allows any ip = true
family_allows ipv4 (v4 bits) = true
family_allows ipv4 (v6 bits) = false
family_allows ipv6 (v4 bits) = false
family_allows ipv6 (v6 bits) = not (is_ipv4_mapped bits)

pub record DialOverride : Type 0 where
  pub host : String
  pub port : ℕ
  pub address : SocketAddr

-- `key.find("]:")`, with the two slices around it: up to the bracket, and after the colon.
pub split_bracket : String → Option (String × String)
split_bracket String.[] = none
split_bracket (String.◌∷◌ c String.[]) = none
split_bracket (String.◌∷◌ c (String.◌∷◌ d s)) =
    let rest = split_bracket (String.◌∷◌ d s) in
    if (code c == 93) && (code d == 58)
    then some (String.◌∷◌ c String.[], s)
    else elim rest [ none ↦ none | some (h, p) ↦ some (String.◌∷◌ c h, p) ]

-- `key.rsplit_once(':')`, and `host.contains(':')`.
unfoldable pub rsplit_colon : String → Option (String × String)
rsplit_colon String.[] = none
rsplit_colon (String.◌∷◌ c s) =
    let rest = rsplit_colon s in
    elim rest [
      | some (h, p) ↦ some (String.◌∷◌ c h, p)
      | none ↦ if code c == 58 then some (String.[], s) else none
    ]

unfoldable pub contains_colon : String → Bool
contains_colon String.[] = false
contains_colon (String.◌∷◌ c s) = (code c == 58) || contains_colon s

unfoldable pub starts_with_bracket : String → Bool
starts_with_bracket String.[] = false
starts_with_bracket (String.◌∷◌ c s) = code c == 91

-- `str::parse::<u16>`: digits, after a `+` at most, with every step inside 16 bits.
unfoldable pub parse_digits : ℕ → String → Option ℕ
parse_digits acc String.[] = some acc
parse_digits acc (String.◌∷◌ c s) =
    let next = acc * 10 + (code c - 48) in
    let rest = parse_digits next s in
    if (leb 48 (code c) && leb (code c) 57) && ltb next (2 ^ 16) then rest else none

unfoldable pub parse_u16 : String → Option ℕ
unfolding parse_digits
parse_u16 String.[] = none
parse_u16 (String.◌∷◌ c String.[]) = parse_digits 0 (String.◌∷◌ c String.[])
parse_u16 (String.◌∷◌ c (String.◌∷◌ d s)) =
    if code c == 43
    then parse_digits 0 (String.◌∷◌ d s)
    else parse_digits 0 (String.◌∷◌ c (String.◌∷◌ d s))

unfoldable pub parse_port : String → Option ℕ
parse_port text = elim (parse_u16 text) [
  | none ↦ none
  | some port ↦ if port == 0 then none else some port
]

-- The `invalid` closure of `parse_origin`.
abbrev invalid {ℓ} : {A : Type ℓ} → String → String → PyResult A
invalid key why = new_err value_error (
    "connect_to key '"
    <> (key
        <> ("' "
            <> (why <> "; expected \"host:port\" (an IPv6 host in brackets, e.g. \"[::1]:443\")"))))

abbrev has_port : String → Option (String × String) → PyResult (String × String)
has_port key none = invalid key "has no port"
has_port key (some parts) = ok parts

-- The text of the host and of the port.
unfoldable pub split_origin : String → PyResult (String × String)
split_origin key = if starts_with_bracket key then has_port key (split_bracket key) else (do
  parts ← has_port key (rsplit_colon key)
  if contains_colon parts.0 then invalid key "has an unbracketed IPv6 host" else ok parts)

abbrev pub some_or {ℓ} : {A : Type ℓ} → PyResult A → Option A → PyResult A
some_or e none = e
some_or e (some a) = ok a

unfoldable pub lists : String → ℕ → List DialOverride → Bool
lists host port [] = false
lists host port (o ∷ os) = (str_eq o.host host && (o.port == port)) || lists host port os

-- An early return with a `ValueError`.
abbrev pub unless : Bool → String → PyResult (Unit {0})
unless true message = new_err value_error message
unless false message = ok tt

-- `host_of` is `url::Host::parse`, with the text that `to_string` gives, `address_of` the parser of
-- socket addresses, `show` their printer and `show_port` that of numbers.
module _ (host_of : String → Option String) (address_of : String → Option SocketAddr)
    (show : SocketAddr → String) (show_port : ℕ → String) where
  unfoldable pub parse_origin : String → PyResult (String × ℕ)
  parse_origin key = do
    parts ← split_origin key
    port ← some_or (invalid key "has an invalid port") (parse_port parts.1)
    host ← some_or (invalid key "has an invalid host") (host_of parts.0)
    ok (host, port)

  abbrev bad_address {ℓ} : {A : Type ℓ} → String → String → PyResult A
  bad_address key value = new_err value_error (
      "connect_to value '"
      <> (value
          <> ("' for "
              <> (key
                  <> " must be \"ip:port\" with a non-zero port (IPv6 as \"[2001:db8::1]:443\")"))))

  unfoldable pub parse_address : String → String → PyResult SocketAddr
  parse_address key value = elim (address_of value) [
    | none ↦ bad_address key value
    | some address ↦ if address.port == 0 then bad_address key value else ok address
  ]

  -- One round of the loop over the entries.
  unfoldable pub add_entry :
      IpFamily → String × String → List DialOverride → PyResult (List DialOverride)
  add_entry family (key, value) overrides = do
    origin ← parse_origin key
    unless (lists origin.0 origin.1 overrides)
        ("connect_to lists " <> (origin.0 <> (":" <> (show_port origin.1 <> " more than once"))))
    address ← parse_address key value
    unless (not (family_allows family address.ip)) (
        "connect_to maps "
        <> (key
            <> (" to "
                <> (show address
                    <> (", which ip_family=\"" <> (family_label family <> "\" excludes"))))))
    ok (overrides ++ record { host = origin.0; port = origin.1; address = address } ∷ [])

  abbrev pub add_entries :
      IpFamily → List (String × String) → List DialOverride → PyResult (List DialOverride)
  add_entries family [] overrides = ok overrides
  add_entries family (e ∷ es) overrides = do
    next ← add_entry family e overrides
    add_entries family es next

  -- The entries in the order in which the map is walked.
  unfoldable pub parse_connect_to : List (String × String) → IpFamily → PyResult (List DialOverride)
  parse_connect_to entries family = add_entries family entries []
