-- ===== src/Wfp/NetworkLock/Contents.antt =====
-- What `install_network_lock` of `crates/routeguard-wfp/src/filters.rs` asks for is the list of
-- filters that is written out.
use route_guard.Prelude.{
  ℕ, suc, ◌≡◌, refl, Bool, true, false, Option, none, some, List, [], ◌∷◌, ◌++◌, map, All,
}
use route_guard.Prelude.Text.{Text, bytes, contains_byte}
use route_guard.Core.Net.{IpAddr, v4, v6, SocketAddr}
use route_guard.Core.Transport.{TransportPermitRule}
use route_guard.Wfp.{Platform, Laws}
use route_guard.Wfp.Filters
use route_guard.Wfp.Filters.{NetworkLockPolicy, or_routing_error}
use route_guard.Wfp.Filters.Installing.{
  lock_rules, dns_rules, transport_rules, endpoint_rules, lan_rules_if, lan_rules, permit_made,
  permit_rule,
}
use route_guard.Wfp.Filters.Contents.{
  lock_filters, dns_filters, transport_filters, endpoint_filters, lan_filters, permit_net,
  permit_nets, host,
}

module _ (wfp : Platform) (laws : Laws wfp) where
  pub from_ip-host : (ip : IpAddr) → Filters.from_ip wfp ip ≡ host wfp ip
  from_ip-host (v4 a) = refl
  from_ip-host (v6 a) = refl

  permit_made-permit_net :
      (suffix : Text) (mask : Option wfp.IpAddrMask)
      → permit_made wfp laws suffix (or_routing_error wfp mask)
        ≡ permit_net wfp (bytes "RouteGuard_KS_" ++ suffix) mask
  permit_made-permit_net suffix none = refl
  permit_made-permit_net suffix (some mask) = refl

  -- A text with a slash is read as a network.
  permit_rule-permit_net :
      (suffix cidr : Text)
      → contains_byte 47 cidr ≡ true
      → permit_rule wfp laws suffix cidr
        ≡ permit_net wfp (bytes "RouteGuard_KS_" ++ suffix) (wfp.from_cidr cidr)
  unfolding Filters.from_str
  permit_rule-permit_net suffix cidr slash =
      rw slash (permit_made-permit_net suffix (wfp.from_cidr cidr))

  lan_rules-permit_nets :
      (nets : List (Text × Text))
      → All (λ (n : Text × Text). contains_byte 47 n.1 ≡ true) nets
      → lan_rules wfp laws nets
        ≡ permit_nets wfp (map (λ (n : Text × Text). (bytes "RouteGuard_KS_" ++ n.0, n.1)) nets)
  lan_rules-permit_nets [] slashes = refl
  lan_rules-permit_nets ((suffix, cidr) ∷ nets) (slash, slashes) =
      rw (permit_rule-permit_net suffix cidr slash, lan_rules-permit_nets nets slashes) refl

  lan_rules_if-filters : (b : Bool) → lan_rules_if wfp laws b ≡ lan_filters wfp b
  lan_rules_if-filters false = refl
  lan_rules_if-filters true =
      lan_rules-permit_nets Filters.lan_cidrs (refl, (refl, (refl, (refl, (refl, (refl, tt))))))

  dns_rules-filters :
      (i : ℕ) (servers : List SocketAddr) → dns_rules wfp laws i servers ≡ dns_filters wfp i servers
  dns_rules-filters i [] = refl
  dns_rules-filters i (dns ∷ rest) = rw (from_ip-host dns.ip, dns_rules-filters (suc i) rest) refl

  endpoint_rules-filters :
      (ep : Option SocketAddr) → endpoint_rules wfp laws ep ≡ endpoint_filters wfp ep
  endpoint_rules-filters none = refl
  endpoint_rules-filters (some ep) = rw (from_ip-host ep.ip) refl

  transport_rules-filters :
      (i : ℕ) (permits : List TransportPermitRule)
      → transport_rules wfp laws i permits ≡ transport_filters wfp i permits
  transport_rules-filters i [] = refl
  transport_rules-filters i (permit ∷ rest) =
      rw (from_ip-host permit.remote_ip, transport_rules-filters (suc i) rest) refl

  pub lock_rules-filters :
      (policy : NetworkLockPolicy) → lock_rules wfp laws policy ≡ lock_filters wfp policy
  unfolding lock_rules lock_filters
  lock_rules-filters policy =
      rw
        (
          permit_rule-permit_net (bytes "ALLOW_LOOPBACK_V4") (bytes "127.0.0.0/8") refl,
          permit_rule-permit_net (bytes "ALLOW_LOOPBACK_V6") (bytes "::1/128") refl,
          lan_rules_if-filters policy.allow_lan,
          dns_rules-filters 0 policy.dns_servers,
          endpoint_rules-filters policy.endpoint,
          transport_rules-filters 0 policy.transport_permits,
        )
        refl
