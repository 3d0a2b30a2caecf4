-- ===== src/Core/Transport.antt =====
-- `crates/routeguard-core/src/transport/mod.rs`: the data of the transport layer.
pub mod Merge
use route_guard.Prelude.{ℕ, Bool, true, false, Option, none, List}
use route_guard.Prelude.Text.{Text}
use route_guard.Core.Net.{IpAddr, SocketAddr}

pub data TransportKind : Type 0 where
  direct_udp phantun lwo : TransportKind

pub data TransportPreference : Type 0 where
  auto direct_udp phantun lwo : TransportPreference

pub record PhantunTransportConfig : Type 0 where
  pub remote_tcp : Option Text
  pub local_listen : Option Text

pub record LwoTransportConfig : Type 0 where
  pub remote_udp : Option Text
  pub local_listen : Option Text
  pub protocol_version : ℕ  -- u8
  pub mode : Option Text

pub record TunnelTransportConfig : Type 0 where
  pub preference : TransportPreference
  pub require_phantun : Bool
  pub require_lwo : Bool
  pub phantun : Option PhantunTransportConfig
  pub lwo : Option LwoTransportConfig

-- `TunnelTransportConfig::default()`
abbrev pub default_transport : TunnelTransportConfig
default_transport = record {
  preference = TransportPreference.auto;
  require_phantun = false;
  require_lwo = false;
  phantun = none;
  lwo = none;
}

pub record ResolvedTransport : Type 0 where
  pub kind : TransportKind
  pub fallback : Bool
  pub fallback_reason : Option Text
  pub requested : Option TransportKind

pub data TransportProtocol : Type 0 where
  udp tcp : TransportProtocol

pub record TransportPermitRule : Type 0 where
  pub remote_ip : IpAddr
  pub remote_port : Option ℕ  -- u16
  pub protocol : TransportProtocol

pub record PolicyTransportEndpoints : Type 0 where
  pub wireguard_endpoint : SocketAddr
  pub original_endpoint : SocketAddr
  pub bypass_ips : List IpAddr
  pub extra_permits : List TransportPermitRule

pub record TransportSession : Type 0 where
  pub kind : TransportKind
  pub handle_id : ℕ  -- u64
  pub wireguard_endpoint : SocketAddr
  pub original_endpoint : SocketAddr
  pub remote_transport : Option SocketAddr
  pub effective_mtu : ℕ  -- u16
  pub protocol_version : ℕ  -- u8
  pub wire_format : Option Text

pub data TransportHealth : Type 0 where
  healthy degraded failed : TransportHealth

-- `matches!(p, TransportPreference::Auto)`
abbrev pub is_auto : TransportPreference → Bool
is_auto TransportPreference.auto = true
is_auto TransportPreference.direct_udp = false
is_auto TransportPreference.phantun = false
is_auto TransportPreference.lwo = false
