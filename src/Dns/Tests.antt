-- ===== src/Dns/Tests.antt =====
-- Runs of the checks of src/dns.rs.
use lkrequest_py.Prelude.{ℕ, refl, String, List, [], ◌∷◌, some, All, Option}
use lkrequest_py.Dns.{
  ipv4, v4, SocketAddr, DialOverride, parse_connect_to, add_entry, parse_origin, parse_address,
  split_origin, rsplit_colon, starts_with_bracket, contains_colon, parse_port, parse_u16,
  parse_digits, family_allows, lists,
}
use lkrequest_py.Dns.Overrides.{AllMake, IsDialable, Distinct, parse_connect_to-ok}

abbrev host_of : String → Option String
host_of h = some h

abbrev address_of : String → Option SocketAddr
address_of a = some (record { ip = v4 2130706433; port = 8080 })

abbrev show : SocketAddr → String
show a = "127.0.0.1:8080"

abbrev show_port : ℕ → String
show_port p = "443"

abbrev entries : List (String × String)
entries = ("a:443", "127.0.0.1:8080") ∷ []

abbrev overrides : List DialOverride
overrides =
    record { host = "a"; port = 443; address = record { ip = v4 2130706433; port = 8080 } } ∷ []

parse_connect_to-ok_example :
    AllMake host_of address_of show show_port entries overrides
    × All (IsDialable host_of ipv4) overrides
    × Distinct host_of address_of show show_port overrides
unfolding parse_connect_to add_entry parse_origin parse_address split_origin rsplit_colon
    starts_with_bracket contains_colon parse_port parse_u16 parse_digits family_allows lists
parse_connect_to-ok_example =
    parse_connect_to-ok host_of address_of show show_port entries ipv4 overrides refl
