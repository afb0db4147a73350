-- ===== src/Dns/Overrides.antt =====
-- What `parse_connect_to` of src/dns.rs lets through.
use lkrequest_py.Prelude.{
  ℕ, ◌<◌, ◌≡◌, ◌≢◌, refl, sym, subst, ◌∙◌, String, str_eq, eq_iff, Bool, true, false, ◌&&◌, ◌||◌,
  not, List, [], ◌∷◌, ◌++◌, append_assoc, append-nil, Option, none, some, arith, ◌==◌, PyErr, ok,
  err, ok_inj, >>=-eq-ok, All, Bool-cases, Option-cases, inl, inr,
}
use lkrequest_py.Dns.{
  IpFamily, SocketAddr, DialOverride, family_allows, unless, some_or, parse_port, split_origin,
  parse_origin, parse_address, lists, add_entry, add_entries, parse_connect_to,
}
use lkrequest_py.Dns.Ports.{parse_port-bounds}

unless-ok : (b : Bool) (m : String) {u : Unit {0}} → unless b m ≡ ok u → b ≡ false
unless-ok true m e = cc
unless-ok false m e = refl

not-false : (b : Bool) → not b ≡ false → b ≡ true
not-false true e = refl
not-false false e = cc

some_or-ok : {A : Type 0} (e : PyErr) (o : Option A) {a : A} → some_or (err e) o ≡ ok a → o ≡ some a
some_or-ok e none h = cc
some_or-ok e (some a) h = cc

-- An override that the library can dial under this family.
pub record IsDialable (host_of : String → Option String) (family : IpFamily) (o : DialOverride)
    : Type 0 where
  pub valid_host : (text : String) × (host_of text ≡ some o.host)
  pub port_positive : 0 < o.port
  pub port_bounded : o.port < 65536
  pub address_port : o.address.port ≢ 0
  pub allowed : family_allows family o.address.ip ≡ true

module _ (host_of : String → Option String) (address_of : String → Option SocketAddr)
    (show : SocketAddr → String) (show_port : ℕ → String) where
  -- The override that an entry stands for.
  abbrev pub Makes : String × String → DialOverride → Type 0
  Makes (key, value) o =
      (parse_origin host_of address_of show show_port key ≡ ok (o.host, o.port))
      × (parse_address host_of address_of show show_port key value ≡ ok o.address)

  -- Entry by entry, in order.
  abbrev pub AllMake : List (String × String) → List DialOverride → Type 0
  AllMake [] [] = Unit
  AllMake [] (o ∷ os) = ⊥
  AllMake (e ∷ es) [] = ⊥
  AllMake (e ∷ es) (o ∷ os) = Makes e o × AllMake es os

  -- No origin stands twice.
  abbrev pub Distinct : List DialOverride → Type 0
  Distinct [] = Unit
  Distinct (o ∷ os) = (lists o.host o.port os ≡ false) × Distinct os

  address-port :
      (key value : String) {a : SocketAddr}
      → parse_address host_of address_of show show_port key value ≡ ok a
      → a.port ≢ 0
  unfolding parse_address
  address-port key value e = elim (Option-cases (address_of value)) [
    | inl n ↦ cc
    | inr (address, s) ↦ elim (Bool-cases (address.port == 0)) [ inl z ↦ cc | inr p ↦ ground arith ]
  ]

  origin-port :
      (key : String) {host : String} {port : ℕ}
      → parse_origin host_of address_of show show_port key ≡ ok (host, port)
      → ((0 < port) × (port < 65536)) × ((text : String) × (host_of text ≡ some host))
  unfolding parse_origin
  origin-port key e =
      let (parts, p, e1) = >>=-eq-ok (split_origin key) _ e in
      let (port, q, e2) = >>=-eq-ok (some_or _ (parse_port parts.1)) _ e1 in
      let (host, r, e3) = >>=-eq-ok (some_or _ (host_of parts.0)) _ e2 in
      let bounds = parse_port-bounds parts.1 (some_or-ok _ (parse_port parts.1) q) in
      let parsed = some_or-ok _ (host_of parts.0) r in
      subst
        (λ (o : String × ℕ).
          ((0 < o.1) × (o.1 < 65536)) × ((text : String) × (host_of text ≡ some o.0)))
        (ok_inj e3) (bounds, (parts.0, parsed))

  add_entry-ok :
      (family : IpFamily) (entry : String × String) (os next : List DialOverride)
      → add_entry host_of address_of show show_port family entry os ≡ ok next
      → (o : DialOverride) × (next ≡ os ++ o ∷ [])
        × Makes entry o
        × IsDialable host_of family o
        × (lists o.host o.port os ≡ false)
  unfolding add_entry
  add_entry-ok family (key, value) os next e =
      let (origin, p, e1) = >>=-eq-ok (parse_origin host_of address_of show show_port key) _ e in
      let (_, q, e2) = >>=-eq-ok (unless (lists origin.0 origin.1 os) _) _ e1 in
      let (address, r, e3) =
        >>=-eq-ok (parse_address host_of address_of show show_port key value) _ e2 in
      let (_, s, e4) = >>=-eq-ok (unless (not (family_allows family address.ip)) _) _ e3 in
      let ports = origin-port key p in
      (
        record { host = origin.0; port = origin.1; address = address },
        sym (ok_inj e4),
        (p, r),
        record {
          valid_host = ports.1;
          port_positive = ports.0.0;
          port_bounded = ports.0.1;
          address_port = address-port key value r;
          allowed = not-false (family_allows family address.ip) (unless-ok _ _ s);
        },
        unless-ok _ _ q,
      )

  same-sym :
      (a b : DialOverride)
      → (str_eq a.host b.host && (a.port == b.port)) ≡ (str_eq b.host a.host && (b.port == a.port))
  same-sym a b = ground (arith, eq_iff a.host b.host, eq_iff b.host a.host)

  lists-snoc :
      (host : String) (port : ℕ) (os : List DialOverride) (o : DialOverride)
      → lists host port (os ++ o ∷ [])
        ≡ (lists host port os || (str_eq o.host host && (o.port == port)))
  unfolding lists
  lists-snoc host port [] o = ground arith
  lists-snoc host port (x ∷ os) o = ground (arith, lists-snoc host port os o)

  Distinct-snoc :
      (os : List DialOverride) (o : DialOverride)
      → Distinct os
      → lists o.host o.port os ≡ false
      → Distinct (os ++ o ∷ [])
  unfolding lists
  Distinct-snoc [] o d n = (refl, tt)
  Distinct-snoc (x ∷ os) o d n =
      let apart : lists x.host x.port (os ++ o ∷ []) ≡ false =
        ground (arith, lists-snoc x.host x.port os o, same-sym x o, d.0) in
      (apart, Distinct-snoc os o d.1 (ground arith))

  -- The overrides made from these entries after those that were there.
  abbrev Extends :
      IpFamily → List (String × String) → List DialOverride → List DialOverride → Type 0
  Extends family es os result =
      (made : List DialOverride) × (result ≡ os ++ made)
      × AllMake es made
      × All (IsDialable host_of family) made
      × Distinct result

  add_entries-Extends :
      (family : IpFamily) (es : List (String × String)) (os result : List DialOverride)
      → Distinct os
      → add_entries host_of address_of show show_port family es os ≡ ok result
      → Extends family es os result
  add_entries-Extends family [] os result d e =
      ([], sym (ok_inj e) ∙ sym (append-nil os), tt, tt, subst Distinct (ok_inj e) d)
  add_entries-Extends family (entry ∷ es) os result d e =
      let (next, p, e1) =
        >>=-eq-ok (add_entry host_of address_of show show_port family entry os) _ e in
      let (o, q, makes, dialable, fresh) = add_entry-ok family entry os next p in
      let d1 = subst Distinct (sym q) (Distinct-snoc os o d fresh) in
      let (made, r, all_make, all_dialable, d2) = add_entries-Extends family es next result d1 e1 in
      (o ∷ made, simp (r, q, append_assoc) refl, (makes, all_make), (dialable, all_dialable), d2)

  -- What `connect_to` accepts: the overrides are those of the entries, one for each and in the order
  -- of the map, each with a host that the URL library parsed, a port of 1 to 65535, an address whose
  -- port is not 0 and whose family `ip_family` allows; and no two of them are for one host and port,
  -- as the URL library spells the host.
  pub parse_connect_to-ok :
      (entries : List (String × String)) (family : IpFamily) (os : List DialOverride)
      → parse_connect_to host_of address_of show show_port entries family ≡ ok os
      → AllMake entries os × All (IsDialable host_of family) os × Distinct os
  unfolding parse_connect_to
  parse_connect_to-ok entries family os e =
      let (made, r, all_make, all_dialable, d) = add_entries-Extends family entries [] os tt e in
      (
        subst (AllMake entries) (sym r) all_make,
        subst (All (IsDialable host_of family)) (sym r) all_dialable,
        d,
      )
