-- ===== src/Wfp/Filters.antt =====
-- `crates/routeguard-wfp/src/filters.rs` and `ip_mask.rs`: the filters of the network lock and of a
-- routing policy.
pub mod Installing
pub mod Contents
use route_guard.Prelude.{
  ℕ, suc, Bool, true, false, Option, none, some, List, [], ◌∷◌, ◌++◌, not, keep, contains, nat_eq,
  if◌then◌else◌,
}
use route_guard.Prelude.Text.{Text, bytes, contains_byte}
use route_guard.Prelude.Decimal.{decimal}
use route_guard.Prelude.Result.{Result, ok, err, and_then}
use route_guard.Core.Net.{IpAddr, v4, v6, SocketAddr}
use route_guard.Core.Transport.{TransportProtocol, udp, TransportPermitRule}
use route_guard.Core.Policy.{PolicySnapshot}
use route_guard.Wfp.{
  Platform, Action, permit_action, block_action, FilterWeight, user_permit, user_block, FilterRule,
  WfpError, network_lock_error, routing_error, WfpSessionInner,
}

-- `NetworkLockPolicy` of network_lock.rs
pub record NetworkLockPolicy : Type 0 where
  pub enabled : Bool
  pub allow_lan : Bool
  pub dns_servers : List SocketAddr
  pub tunnel_if_index : Option ℕ
  pub endpoint : Option SocketAddr
  pub transport_permits : List TransportPermitRule

abbrev pub prefixed : Text → Text
prefixed suffix = bytes "RouteGuard_" ++ suffix

-- The filters before anything else is said of them.
abbrev pub plain_permit : {Mask : Type 0} → Text → FilterRule Mask
plain_permit name = record {
  name = name;
  action = permit_action;
  weight = user_permit;
  app_path = none;
  remote_ip = none;
  protocol = none;
  remote_port = none;
}

abbrev pub plain_block : {Mask : Type 0} → Text → FilterRule Mask
plain_block name = record {
  name = name;
  action = block_action;
  weight = user_block;
  app_path = none;
  remote_ip = none;
  protocol = none;
  remote_port = none;
}

-- `LAN_CIDRS`
abbrev pub lan_cidrs : List (Text × Text)
lan_cidrs =
    (bytes "ALLOW_LAN_10", bytes "10.0.0.0/8")
    ∷ (bytes "ALLOW_LAN_172", bytes "172.16.0.0/12")
    ∷ (bytes "ALLOW_LAN_192", bytes "192.168.0.0/16")
    ∷ (bytes "ALLOW_LAN_LLV4", bytes "169.254.0.0/16")
    ∷ (bytes "ALLOW_LAN_LLV6", bytes "fe80::/10")
    ∷ (bytes "ALLOW_LAN_ULA", bytes "fc00::/7")
    ∷ []

module _ (wfp : Platform) where
  abbrev pub Session : Type 0
  Session = WfpSessionInner wfp.Engine

  abbrev pub Rule : Type 0
  Rule = FilterRule wfp.IpAddrMask

  -- `ip_mask::from_ip`
  abbrev pub from_ip : IpAddr → wfp.IpAddrMask
  from_ip (v4 a) = wfp.new_mask (v4 a) 32
  from_ip (v6 a) = wfp.new_mask (v6 a) 128

  abbrev pub or_routing_error : Option wfp.IpAddrMask → Result WfpError wfp.IpAddrMask
  or_routing_error none = err routing_error
  or_routing_error (some mask) = ok mask

  abbrev pub mask_of : Option IpAddr → Result WfpError wfp.IpAddrMask
  mask_of none = err routing_error
  mask_of (some ip) = ok (from_ip ip)

  -- `ip_mask::from_str`
  unfoldable pub from_str : Text → Result WfpError wfp.IpAddrMask
  from_str s =
      if contains_byte 47 s then or_routing_error (wfp.from_cidr s) else mask_of (wfp.parse_ip s)

  abbrev named : WfpError → wfp.Engine × Option ℕ → Session → Session × Result WfpError ℕ
  named e (engine, none) s = (record s { engine = engine }, err e)
  named e (engine, some id) s = (record s { engine = engine }, ok id)

  -- `FilterBuilder::add_filter(..).map_err(..)`
  unfoldable pub add_filter : WfpError → Rule → Session → Session × Result WfpError ℕ
  add_filter e rule s = named e (wfp.add_filter rule s.engine) s

  abbrev pub permit_ip : Text → wfp.IpAddrMask → Rule
  permit_ip suffix mask = record (plain_permit (prefixed (bytes "KS_" ++ suffix))) {
    remote_ip = some mask;
  }

  abbrev pub add_permit_mask :
      Text → Result WfpError wfp.IpAddrMask → Session → Session × Result WfpError ℕ
  add_permit_mask suffix (err e) s = (s, err e)
  add_permit_mask suffix (ok mask) s = add_filter network_lock_error (permit_ip suffix mask) s

  -- `add_permit_ip`
  unfoldable pub add_permit_ip : Text → Text → Session → Session × Result WfpError ℕ
  unfolding from_str add_filter
  add_permit_ip suffix cidr s = add_permit_mask suffix (from_str cidr) s

  abbrev pub dns_rule : Text → SocketAddr → Rule
  dns_rule suffix addr = record (permit_ip suffix (from_ip addr.ip)) { protocol = some udp }

  -- `add_permit_dns`
  unfoldable pub add_permit_dns : Text → SocketAddr → Session → Session × Result WfpError ℕ
  unfolding add_filter
  add_permit_dns suffix addr s = add_filter network_lock_error (dns_rule suffix addr) s

  abbrev pub transport_rule : Text → TransportPermitRule → Rule
  transport_rule suffix permit = record (permit_ip suffix (from_ip permit.remote_ip)) {
    protocol = some permit.protocol;
    remote_port = permit.remote_port;
  }

  -- `add_transport_permit`
  unfoldable pub add_transport_permit :
      Text → TransportPermitRule → Session → Session × Result WfpError ℕ
  unfolding add_filter
  add_transport_permit suffix permit s =
      add_filter network_lock_error (transport_rule suffix permit) s

  abbrev pub endpoint_rule : SocketAddr → Rule
  endpoint_rule ep = dns_rule (bytes "ALLOW_EP") ep

  -- `add_permit_endpoint`
  unfoldable pub add_permit_endpoint : SocketAddr → Session → Session × Result WfpError ℕ
  unfolding add_filter
  add_permit_endpoint ep s = add_filter network_lock_error (endpoint_rule ep) s

  -- A session with the `ids` so far, and a part of a function that may return early.
  pub record Progress : Type 0 where
    pub session : Session
    pub ids : List ℕ

  abbrev pub Part : Type 0
  Part = Progress → Progress × Result WfpError (Unit {0})

  abbrev pushed : Session × Result WfpError ℕ → List ℕ → Progress × Result WfpError (Unit {0})
  pushed (s, err e) ids = (record { session = s; ids = ids }, err e)
  pushed (s, ok id) ids = (record { session = s; ids = ids ++ id ∷ [] }, ok tt)

  -- `ids.push(call(session)?)`
  abbrev pub push : (Session → Session × Result WfpError ℕ) → Part
  push add p = pushed (add p.session) p.ids

  abbrev pub skip : Part
  skip p = (p, ok tt)

  infixl 4 ◌then◌
  abbrev pub ◌then◌ : Part → Part → Part
  (f then g) p = and_then (f p) (λ p' u. g p')

  abbrev pub permit_lan : List (Text × Text) → Part
  permit_lan [] = skip
  permit_lan ((name, cidr) ∷ rest) = push (add_permit_ip name cidr) then permit_lan rest

  abbrev pub permit_dns : ℕ → List SocketAddr → Part
  permit_dns i [] = skip
  permit_dns i (dns ∷ rest) =
      push (add_permit_dns (bytes "ALLOW_DNS_" ++ decimal i) dns) then permit_dns (suc i) rest

  abbrev pub permit_transports : ℕ → List TransportPermitRule → Part
  permit_transports i [] = skip
  permit_transports i (permit ∷ rest) =
      push (add_transport_permit (bytes "TRANSPORT_" ++ decimal i) permit)
      then permit_transports (suc i) rest

  abbrev pub permit_endpoint : Option SocketAddr → Part
  permit_endpoint none = skip
  permit_endpoint (some ep) = push (add_permit_endpoint ep)

  abbrev pub permit_lan_if : Bool → Part
  permit_lan_if true = permit_lan lan_cidrs
  permit_lan_if false = skip

  -- The body of `install_network_lock`.
  abbrev pub lock_part : NetworkLockPolicy → Part
  lock_part policy =
      push (add_filter network_lock_error (plain_block (prefixed (bytes "KS_BLOCK"))))
      then push (add_permit_ip (bytes "ALLOW_LOOPBACK_V4") (bytes "127.0.0.0/8"))
      then push (add_permit_ip (bytes "ALLOW_LOOPBACK_V6") (bytes "::1/128"))
      then permit_lan_if policy.allow_lan
      then permit_dns 0 policy.dns_servers
      then permit_endpoint policy.endpoint
      then permit_transports 0 policy.transport_permits

  abbrev pub collected : Progress × Result WfpError (Unit {0}) → Session × Result WfpError (List ℕ)
  collected (p, err e) = (p.session, err e)
  collected (p, ok u) = (p.session, ok p.ids)

  -- `install_network_lock`
  unfoldable pub install_network_lock :
      NetworkLockPolicy → Session → Session × Result WfpError (List ℕ)
  unfolding add_filter add_permit_ip add_permit_dns add_transport_permit add_permit_endpoint decimal
  install_network_lock policy s = collected (lock_part policy (record { session = s; ids = [] }))
