-- ===== src/Client/Accepted.antt =====
-- What a configuration that `build_client` of src/client.rs accepts tells the builder.
use lkrequest_py.Prelude.{
  ℕ, ◌≤◌, ◌≡◌, refl, inl, inr, String, [], ◌∷◌, Option, none, some, is_some, ok, ok_inj, >>=-eq-ok,
  All, arith, subst, not, ◌&&◌, Bool-cases,
}
use lkrequest_py.Dns.{IpFamily, SocketAddr, parse_connect_to}
use lkrequest_py.Dns.Overrides.{parse_connect_to-ok}
use lkrequest_py.Types.{F64, TimeoutConfig, ResourceLimits, validated_duration}
use lkrequest_py.ClientOptions.{
  set_ip_family, set_max_pending_h2_requests, set_h2_dispatch_batch_size, Bytes, Handle,
  ClientConfig,
}
use lkrequest_py.Client.{
  IoResult, Calls, timeout_calls, limit_calls, positive, ca_cert_calls, resolver_choice,
  resolver_calls, family_of, keylog_calls, build_client, resolve_dns_config,
}
use lkrequest_py.Client.Upstream.{
  IsSafe, resolvers, Fits, append-Fits, nil-Fits, one-Fits, profile_calls-Fits, flag_calls-Fits,
  tls_calls-Fits, last_calls-Fits, connect_calls-Fits, positive-Fits, timeout_calls-Fits,
  limit_calls-Fits, ca_cert_calls-Fits, keylog_calls-Fits,
}

module _ (host_of : String → Option String) (family : IpFamily) where
  abbrev AtMostOne : Calls → Type 0
  AtMostOne cs = (n : ℕ) × (n ≤ 1) × Fits host_of family n cs

  resolver_choice-Fits :
      (ttl : Option F64) (max_entries : Option ℕ) (dns : Option String) {cs : Calls}
      → resolver_choice ttl max_entries dns ≡ ok cs
      → AtMostOne cs
  resolver_choice-Fits (some ttl) m dns e =
      let (d, p, q) = >>=-eq-ok (validated_duration ttl) _ e in
      subst AtMostOne (ok_inj q) (1, omega arith, record { safe = (tt, tt); count = omega arith })
  resolver_choice-Fits none m (some name) e =
      let (d, p, q) = >>=-eq-ok (resolve_dns_config name) _ e in
      subst AtMostOne (ok_inj q) (1, omega arith, record { safe = (tt, tt); count = omega arith })
  resolver_choice-Fits none m none e =
      subst AtMostOne (ok_inj e) (0, omega arith, nil-Fits host_of family)

  resolver_calls-Fits : (c : ClientConfig) {cs : Calls} → resolver_calls c ≡ ok cs → AtMostOne cs
  unfolding resolver_calls
  resolver_calls-Fits c e = elim (Bool-cases (is_some c.system_dns_cache_ttl && is_some c.dns)) [
    | inl p ↦ cc
    | inr p ↦
        elim (Bool-cases
          (is_some c.system_dns_cache_max_entries && not (is_some c.system_dns_cache_ttl))) [
            | inl q ↦ cc
            | inr q ↦
                resolver_choice-Fits c.system_dns_cache_ttl c.system_dns_cache_max_entries c.dns
                  (rw q at (rw p at e))
          ]
  ]

-- An accepted configuration ends in calls on the builder under the family that `ip_family` names. Each
-- satisfies what upstream asserts of it: the two HTTP/2 numbers are positive, and an override has a
-- host that the URL library parsed, ports from 1 to 65535, an address port that is not 0, and an address that the family allows. And
-- one call at most chooses a resolver, so none overrides another.
pub build_client-IsSafe :
    (read_file : String → IoResult Bytes) (keylog_to_file : String → IoResult Handle)
    (default_timeouts : TimeoutConfig) (default_limits : ResourceLimits)
    (host_of : String → Option String) (address_of : String → Option SocketAddr)
    (show : SocketAddr → String) (show_port : ℕ → String) (c : ClientConfig) (calls : Calls)
    → build_client read_file keylog_to_file default_timeouts default_limits host_of address_of show
        show_port c
      ≡ ok calls
    → (family : IpFamily) × (family_of c.ip_family ≡ ok family)
      × All (IsSafe host_of family) calls
      × (resolvers calls ≤ 1)
unfolding build_client
build_client-IsSafe read_file keylog_to_file timeouts limits host_of address_of show show_port c
      calls e =
    let (ts, p1, e1) = >>=-eq-ok (timeout_calls timeouts c) _ e in
    let (ls, p2, e2) = >>=-eq-ok (limit_calls limits c) _ e1 in
    let (ps, p3, e3) =
      >>=-eq-ok (positive _ set_max_pending_h2_requests c.max_pending_h2_requests) _ e2 in
    let (bs, p4, e4) =
      >>=-eq-ok (positive _ set_h2_dispatch_batch_size c.h2_dispatch_batch_size) _ e3 in
    let (cert, p5, e5) = >>=-eq-ok (ca_cert_calls read_file c.ca_cert) _ e4 in
    let (rs, p6, e6) = >>=-eq-ok (resolver_calls c) _ e5 in
    let (family, p7, e7) = >>=-eq-ok (family_of c.ip_family) _ e6 in
    let (os, p8, e8) =
      >>=-eq-ok (parse_connect_to host_of address_of show show_port c.connect_to family) _ e7 in
    let (ks, p9, e9) = >>=-eq-ok (keylog_calls keylog_to_file c.keylog) _ e8 in
    let dialable =
      (parse_connect_to-ok host_of address_of show show_port c.connect_to family os p8).1 in
    let (n, le, resolver) = resolver_calls-Fits host_of family c p6 in
    let fits = append-Fits host_of family (profile_calls-Fits host_of family c) (
      append-Fits host_of family (timeout_calls-Fits host_of family timeouts c p1) (
        append-Fits host_of family (limit_calls-Fits host_of family limits c p2) (
          append-Fits host_of family
            (positive-Fits host_of family _ set_max_pending_h2_requests (λ n h. (h, refl))
              c.max_pending_h2_requests p3)
            (append-Fits host_of family
              (positive-Fits host_of family _ set_h2_dispatch_batch_size (λ n h. (h, refl))
                c.h2_dispatch_batch_size p4)
              (append-Fits host_of family (flag_calls-Fits host_of family c) (
                append-Fits host_of family
                  (ca_cert_calls-Fits host_of family read_file c.ca_cert p5)
                  (append-Fits host_of family (tls_calls-Fits host_of family c) (
                    append-Fits host_of family resolver (
                      append-Fits host_of family {cs = set_ip_family family ∷ []}
                        (one-Fits host_of family (tt, refl))
                        (append-Fits host_of family (connect_calls-Fits host_of family os dialable)
                          (append-Fits host_of family
                            (keylog_calls-Fits host_of family keylog_to_file c.keylog p9)
                            (last_calls-Fits host_of family c)))))))))))) in
    let all = subst (Fits host_of family _) (ok_inj e9) fits in
    (family, p7, all.safe, let count = all.count in omega (arith, count, le))
