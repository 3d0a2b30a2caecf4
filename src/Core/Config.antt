-- ===== src/Core/Config.antt =====
-- `crates/routeguard-core/src/config.rs`: the persisted configuration and its defaults.
use route_guard.Prelude.{ℕ, ◌≡◌, ◌↔◌, Bool, true, false, Option, none, List, [], ◌∷◌, arith}
use route_guard.Prelude.Text.{Text, bytes}
use route_guard.Core.Net.{FilePath}
use route_guard.Core.Backend.{TunnelBackendPreference}
use route_guard.Core.Transport.{TunnelTransportConfig}

pub data RoutingMode : Type 0 where
  full_tunnel split_include : RoutingMode

pub data RuleMode : Type 0 where
  include exclude : RuleMode

pub data RouteTarget : Type 0 where
  tunnel bypass block : RouteTarget

abbrev pub rule_mode_beq : RuleMode → RuleMode → Bool
rule_mode_beq include include = true
rule_mode_beq exclude exclude = true
rule_mode_beq _ _ = false

abbrev pub target_beq : RouteTarget → RouteTarget → Bool
target_beq tunnel tunnel = true
target_beq bypass bypass = true
target_beq block block = true
target_beq _ _ = false

pub rule_mode_beq_iff : (a b : RuleMode) → (rule_mode_beq a b ≡ true) ↔ (a ≡ b)
rule_mode_beq_iff a b = ground arith

pub target_beq_iff : (a b : RouteTarget) → (target_beq a b ≡ true) ↔ (a ≡ b)
target_beq_iff a b = ground arith

pub record AppRule : Type 0 where
  pub priority : ℕ  -- u16
  pub mode : RuleMode
  pub path : FilePath

pub record IpRule : Type 0 where
  pub priority : ℕ  -- u16
  pub cidr : Text
  pub target : RouteTarget

pub record DomainRule : Type 0 where
  pub priority : ℕ  -- u16
  pub pattern : Text
  pub target : RouteTarget

pub record DomainDnsConfig : Type 0 where
  pub enabled : Bool
  pub listen : Text
  pub listen_v6 : Text
  pub upstream : List Text
  pub redirect_port_53 : Bool
  pub kernel_redirect : Bool
  pub explicit_proxy : Bool
  pub min_ttl_secs : ℕ  -- u32
  pub max_ttl_secs : ℕ  -- u32
  pub max_resolved_ips : ℕ
  pub max_domains : ℕ

pub record RoutingConfig : Type 0 where
  pub mode : RoutingMode
  pub app_rules : List AppRule
  pub ip_rules : List IpRule
  pub domain_rules : List DomainRule
  pub domain_dns : DomainDnsConfig

pub record NetworkLockConfig : Type 0 where
  pub enabled : Bool
  pub allow_lan : Bool
  pub dns_servers : List Text

pub record TunnelConfig : Type 0 where
  pub name : Text
  pub config_path : FilePath
  pub mtu : ℕ  -- u16
  pub backend : TunnelBackendPreference
  pub require_awg : Bool
  pub transport : TunnelTransportConfig

pub record AppConfig : Type 0 where
  pub tunnel : Option TunnelConfig
  pub routing : RoutingConfig
  pub network_lock : NetworkLockConfig

-- `DomainDnsConfig::default()`
abbrev pub default_domain_dns : DomainDnsConfig
default_domain_dns = record {
  enabled = true;
  listen = bytes "127.0.0.1:5353";
  listen_v6 = bytes "[::1]:5353";
  upstream = bytes "1.1.1.1:53" ∷ bytes "[2606:4700:4700::1111]:53" ∷ [];
  redirect_port_53 = false;
  kernel_redirect = false;
  explicit_proxy = false;
  min_ttl_secs = 30;
  max_ttl_secs = 3600;
  max_resolved_ips = 50000;
  max_domains = 10000;
}

-- `RoutingConfig::default()`
abbrev pub default_routing : RoutingConfig
default_routing = record {
  mode = full_tunnel;
  app_rules = [];
  ip_rules = [];
  domain_rules = [];
  domain_dns = default_domain_dns;
}

-- `NetworkLockConfig::default()`
abbrev pub default_network_lock : NetworkLockConfig
default_network_lock = record { enabled = false; allow_lan = true; dns_servers = [] }

-- `AppConfig::default()`
abbrev pub default_config : AppConfig
default_config = record {
  tunnel = none;
  routing = default_routing;
  network_lock = default_network_lock;
}
