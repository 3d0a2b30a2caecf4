-- ===== src/Core/Observability.antt =====
-- `crates/routeguard-core/src/observability/mod.rs`: what the service observes. A `serde_json::Value`
-- is its text.
use route_guard.Prelude.{ℕ, Bool, Option, List}
use route_guard.Prelude.Text.{Text}

pub record TunnelBackendObs : Type 0 where
  pub kind : Text
  pub active : Bool
  pub fallback_used : Bool
  pub requested : Option Text

pub record PeerObs : Type 0 where
  pub public_key : Option Text
  pub rx_bytes : ℕ  -- u64
  pub tx_bytes : ℕ  -- u64
  pub last_handshake_secs_ago : Option ℕ  -- u64

pub record TunnelStatsObs : Type 0 where
  pub rx_bytes : ℕ  -- u64
  pub tx_bytes : ℕ  -- u64
  pub rx_rate_bps : ℕ  -- u64
  pub tx_rate_bps : ℕ  -- u64
  pub rx_packets : Option ℕ  -- u64
  pub tx_packets : Option ℕ  -- u64
  pub last_handshake_secs_ago : Option ℕ  -- u64
  pub peer_count : ℕ

pub record TunnelObs : Type 0 where
  pub name : Text
  pub lifecycle : Text
  pub if_index : Option ℕ  -- u32
  pub backend : TunnelBackendObs
  pub peers : List PeerObs
  pub stats : TunnelStatsObs

pub record TransportRecoveryObs : Type 0 where
  pub attempts : ℕ  -- u32
  pub max_attempts : ℕ  -- u32
  pub last_recovery_at : Option Text
  pub last_failure_reason : Option Text

pub record TransportObs : Type 0 where
  pub kind : Text
  pub active : Bool
  pub fallback_used : Bool
  pub health : Text
  pub local_endpoint : Option Text
  pub remote_transport : Option Text
  pub protocol_version : Option ℕ  -- u8
  pub wire_format : Option Text
  pub recovery : TransportRecoveryObs
  pub extensions : Option Text

pub record RuleCountObs : Type 0 where
  pub total : ℕ
  pub enabled : ℕ

pub record DomainRoutesObs : Type 0 where
  pub active : ℕ
  pub resolved_ips : ℕ
  pub generation : ℕ  -- u64

pub record RoutingObs : Type 0 where
  pub mode : Text
  pub app_rules : RuleCountObs
  pub ip_rules : RuleCountObs
  pub domain_rules : RuleCountObs
  pub domain_routes : DomainRoutesObs
  pub compiled_policy_hash : Option Text

pub record NetworkLockObs : Type 0 where
  pub configured : Bool
  pub active : Bool
  pub wfp_filters : ℕ  -- u32
  pub violations_blocked : ℕ  -- u64
  pub last_recovery_at : Option Text

pub record DnsDriverObs : Type 0 where
  pub present : Bool
  pub ready : Bool
  pub version : Option Text

pub record DnsObs : Type 0 where
  pub proxy_enabled : Bool
  pub listen : Text
  pub kernel_redirect : Bool
  pub redirect_active : Bool
  pub driver : DnsDriverObs
  pub redirect_stats : Option Text
