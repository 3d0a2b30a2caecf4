-- ===== src/Wfp/Filters/Contents.antt =====
-- The filters of a kill switch and of a routing policy, written out: for filters.rs and
-- split_tunnel.rs of `crates/routeguard-wfp/src`.
use route_guard.Prelude.{ℕ, suc, Bool, true, false, Option, none, some, List, [], ◌∷◌, ◌++◌, nat_eq}
use route_guard.Prelude.Text.{Text, bytes, contains_byte}
use route_guard.Prelude.Decimal.{decimal}
use route_guard.Core.Net.{IpAddr, v4, v6, SocketAddr}
use route_guard.Core.Config.{RoutingMode, full_tunnel, split_include}
use route_guard.Core.Policy.{PolicySnapshot, AppFilterEntry}
use route_guard.Core.Transport.{TransportProtocol, udp, TransportPermitRule}
use route_guard.Wfp.{
  Platform, Action, permit_action, block_action, FilterWeight, user_permit, user_block, FilterRule,
}
use route_guard.Wfp.Filters.{NetworkLockPolicy}

abbrev pub bits_of : IpAddr → ℕ
bits_of (v4 a) = 32
bits_of (v6 a) = 128

abbrev pub lan_nets : List (Text × Text)
lan_nets =
    (bytes "RouteGuard_KS_ALLOW_LAN_10", bytes "10.0.0.0/8")
    ∷ (bytes "RouteGuard_KS_ALLOW_LAN_172", bytes "172.16.0.0/12")
    ∷ (bytes "RouteGuard_KS_ALLOW_LAN_192", bytes "192.168.0.0/16")
    ∷ (bytes "RouteGuard_KS_ALLOW_LAN_LLV4", bytes "169.254.0.0/16")
    ∷ (bytes "RouteGuard_KS_ALLOW_LAN_LLV6", bytes "fe80::/10")
    ∷ (bytes "RouteGuard_KS_ALLOW_LAN_ULA", bytes "fc00::/7")
    ∷ []

module _ (wfp : Platform) where
  abbrev Rules : Type 0
  Rules = List (FilterRule wfp.IpAddrMask)

  -- A permit for packets to these addresses, by this protocol, to this port.
  abbrev pub permit_to :
      Text → wfp.IpAddrMask → Option TransportProtocol → Option ℕ → FilterRule wfp.IpAddrMask
  permit_to name addresses protocol port = record {
    name = name;
    action = permit_action;
    weight = user_permit;
    app_path = none;
    remote_ip = some addresses;
    protocol = protocol;
    remote_port = port;
  }

  abbrev pub for_app :
      Action → FilterWeight → Text → Option Text → Option wfp.IpAddrMask → FilterRule wfp.IpAddrMask
  for_app action weight name app addresses = record {
    name = name;
    action = action;
    weight = weight;
    app_path = app;
    remote_ip = addresses;
    protocol = none;
    remote_port = none;
  }

  abbrev pub host : IpAddr → wfp.IpAddrMask
  host ip = wfp.new_mask ip (bits_of ip)

  -- A network that cannot be read has no filter; `install_network_lock` then stops with an error.
  abbrev pub permit_net : Text → Option wfp.IpAddrMask → Rules
  permit_net name none = []
  permit_net name (some mask) = permit_to name mask none none ∷ []

  abbrev pub permit_nets : List (Text × Text) → Rules
  permit_nets [] = []
  permit_nets ((name, cidr) ∷ rest) = permit_net name (wfp.from_cidr cidr) ++ permit_nets rest

  abbrev pub lan_filters : Bool → Rules
  lan_filters false = []
  lan_filters true = permit_nets lan_nets

  -- UDP to each server, whatever the port.
  abbrev pub dns_filters : ℕ → List SocketAddr → Rules
  dns_filters i [] = []
  dns_filters i (dns ∷ rest) =
      permit_to (bytes "RouteGuard_KS_ALLOW_DNS_" ++ decimal i) (host dns.ip) (some udp) none
      ∷ dns_filters (suc i) rest

  abbrev pub endpoint_filters : Option SocketAddr → Rules
  endpoint_filters none = []
  endpoint_filters (some ep) =
      permit_to (bytes "RouteGuard_KS_ALLOW_EP") (host ep.ip) (some udp) none ∷ []

  abbrev pub transport_filters : ℕ → List TransportPermitRule → Rules
  transport_filters i [] = []
  transport_filters i (permit ∷ rest) =
      permit_to (bytes "RouteGuard_KS_TRANSPORT_" ++ decimal i) (host permit.remote_ip)
        (some permit.protocol) permit.remote_port
      ∷ transport_filters (suc i) rest

  -- The kill switch: a block of everything, and permits, each for an address. There is none for the
  -- interface of the tunnel, which the policy names.
  unfoldable pub lock_filters : NetworkLockPolicy → Rules
  lock_filters policy =
      ((((((for_app block_action user_block (bytes "RouteGuard_KS_BLOCK") none none ∷ [])
                ++ permit_net (bytes "RouteGuard_KS_ALLOW_LOOPBACK_V4")
                    (wfp.from_cidr (bytes "127.0.0.0/8")))
              ++ permit_net (bytes "RouteGuard_KS_ALLOW_LOOPBACK_V6")
                  (wfp.from_cidr (bytes "::1/128")))
            ++ lan_filters policy.allow_lan)
          ++ dns_filters 0 policy.dns_servers)
        ++ endpoint_filters policy.endpoint)
      ++ transport_filters 0 policy.transport_permits

  -- A permit and a block for each application, with the same condition: its path.
  abbrev pub app_filters : Text → Text → ℕ → List AppFilterEntry → Rules
  app_filters permit_name block_name i [] = []
  app_filters permit_name block_name i (app ∷ apps) =
      for_app permit_action user_permit (permit_name ++ decimal i) (some app.path) none
      ∷ for_app block_action user_block (block_name ++ decimal i) (some app.path) none
      ∷ app_filters permit_name block_name (suc i) apps

  abbrev pub hosted : Option IpAddr → Option wfp.IpAddrMask
  hosted none = none
  hosted (some ip) = some (host ip)

  -- A text with a slash is a network, any other an address.
  abbrev pub read_net : Bool → Text → Option wfp.IpAddrMask
  read_net true s = wfp.from_cidr s
  read_net false s = hosted (wfp.parse_ip s)

  abbrev pub block_to : Text → Option wfp.IpAddrMask → Rules
  block_to name none = []
  block_to name (some mask) = for_app block_action user_block name none (some mask) ∷ []

  abbrev pub block_filters : ℕ → List Text → Rules
  block_filters i [] = []
  block_filters i (cidr ∷ cidrs) =
      block_to (bytes "RouteGuard_SPLIT_IP_BLOCK_" ++ decimal i)
        (read_net (contains_byte 47 cidr) cidr)
      ++ block_filters (suc i) cidrs

  -- A permit without a condition, where an application goes past the tunnel.
  abbrev pub tunnel_filters : List AppFilterEntry → Rules
  tunnel_filters [] = []
  tunnel_filters (app ∷ apps) =
      for_app permit_action user_permit (bytes "RouteGuard_SPLIT_PERMIT_TUN") none none ∷ []

  abbrev pub mode_filters : RoutingMode → PolicySnapshot → Rules
  mode_filters full_tunnel policy =
      (app_filters (bytes "RouteGuard_SPLIT_PERMIT_EXCL_")
          (bytes "RouteGuard_SPLIT_BLOCK_TUN_EXCL_") 0 policy.bypass_apps
        ++ tunnel_filters policy.bypass_apps)
      ++ block_filters 0 policy.block_cidrs
  mode_filters split_include policy =
      app_filters (bytes "RouteGuard_SPLIT_PERMIT_INC_") (bytes "RouteGuard_SPLIT_BLOCK_PHYS_INC_")
        0 policy.tunnel_apps

  -- The filters of a routing policy: none without a tunnel.
  abbrev pub filters_with : Option ℕ → PolicySnapshot → Rules
  filters_with none policy = []
  filters_with (some tunnel_if) policy = mode_filters policy.routing_mode policy

  unfoldable pub split_filters : PolicySnapshot → Rules
  split_filters policy = filters_with policy.tunnel_if_index policy
