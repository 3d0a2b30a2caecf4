-- ===== src/Core/Policy.antt =====
-- `crates/routeguard-core/src/policy.rs`: the compiled policy and the session's states.
use route_guard.Prelude.{ℕ, Bool, false, Option, none, List, [], ◌∷◌, ◌++◌}
use route_guard.Prelude.Text.{Text}
use route_guard.Core.Transport.{TransportPermitRule}
use route_guard.Core.Config.{
  RoutingMode, full_tunnel, RuleMode, RouteTarget, tunnel, bypass, block, IpRule, AppConfig,
}

pub record AppFilterEntry : Type 0 where
  pub path : Text
  pub priority : ℕ  -- u16
  pub mode : RuleMode

pub record PolicySnapshot : Type 0 where
  pub routing_mode : RoutingMode
  pub tunnel_if_index : Option ℕ
  pub tunnel_if_luid : Option ℕ
  pub physical_if_index : Option ℕ
  pub endpoint : Option Text
  pub app_permits : List Text
  pub app_blocks : List Text
  pub tunnel_apps : List AppFilterEntry
  pub bypass_apps : List AppFilterEntry
  pub bypass_cidrs : List Text
  pub block_cidrs : List Text
  pub dynamic_bypass_hosts : List Text
  pub dynamic_tunnel_hosts : List Text
  pub domain_route_generation : ℕ  -- u64
  pub network_lock_enabled : Bool
  pub allow_lan : Bool
  pub dns_servers : List Text
  pub transport_permits : List TransportPermitRule
  pub wfp_filter_ids : List ℕ

-- `PolicySnapshot::default()`
abbrev pub default_policy : PolicySnapshot
default_policy = record {
  routing_mode = full_tunnel;
  tunnel_if_index = none;
  tunnel_if_luid = none;
  physical_if_index = none;
  endpoint = none;
  app_permits = [];
  app_blocks = [];
  tunnel_apps = [];
  bypass_apps = [];
  bypass_cidrs = [];
  block_cidrs = [];
  dynamic_bypass_hosts = [];
  dynamic_tunnel_hosts = [];
  domain_route_generation = 0;
  network_lock_enabled = false;
  allow_lan = false;
  dns_servers = [];
  transport_permits = [];
  wfp_filter_ids = [];
}

abbrev pub push_ip_rule : RouteTarget → Text → PolicySnapshot → PolicySnapshot
push_ip_rule bypass cidr snap = record snap { bypass_cidrs = snap.bypass_cidrs ++ cidr ∷ [] }
push_ip_rule block cidr snap = record snap { block_cidrs = snap.block_cidrs ++ cidr ∷ [] }
push_ip_rule tunnel cidr snap = snap

-- The loop over `cfg.routing.ip_rules`.
unfoldable pub push_ip_rules : List IpRule → PolicySnapshot → PolicySnapshot
push_ip_rules [] snap = snap
push_ip_rules (r ∷ rules) snap = push_ip_rules rules (push_ip_rule r.target r.cidr snap)

-- `PolicySnapshot::from_config`
unfoldable pub from_config : AppConfig → Option ℕ → Option ℕ → PolicySnapshot
from_config cfg tunnel_if_index tunnel_if_luid =
    push_ip_rules cfg.routing.ip_rules (record default_policy {
      routing_mode = cfg.routing.mode;
      tunnel_if_index = tunnel_if_index;
      tunnel_if_luid = tunnel_if_luid;
      network_lock_enabled = cfg.network_lock.enabled;
      allow_lan = cfg.network_lock.allow_lan;
      dns_servers = cfg.network_lock.dns_servers;
    })

pub data SessionState : Type 0 where
  disconnected connecting connected reconnecting disconnecting error locked_down : SessionState
