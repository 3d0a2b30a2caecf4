-- ===== src/Routing/Engine.antt =====
-- `crates/routeguard-routing/src/engine.rs`: the routing decision for a flow. A reason is the data
-- that the source formats into the text of `RouteDecision::reason`.
pub mod Decision
use route_guard.Prelude.{ℕ, Bool, false, Option, none, some, List, if◌then◌else◌}
use route_guard.Prelude.Text.{Text}
use route_guard.Prelude.Result.{Result, ok, ◌>>=◌}
use route_guard.Core.Net.{Platform, IpAddr, FilePath}
use route_guard.Core.Config.{
  AppConfig, RoutingMode, full_tunnel, split_include, RuleMode, include, exclude, RouteTarget,
  tunnel, bypass, block, target_beq,
}
use route_guard.Routing.App
use route_guard.Routing.App.{AppRuleSet}
use route_guard.Routing.Ip
use route_guard.Routing.Ip.{IpRuleTable, IpRuleEntry, RoutingError}
use route_guard.Routing.Domain
use route_guard.Routing.Domain.{DomainCache, DomainRuleEntry, Clock}

pub data Protocol : Type 0 where
  tcp udp icmp other : Protocol

pub record FlowContext : Type 0 where
  pub app_path : Option FilePath
  pub remote_ip : IpAddr
  pub remote_port : ℕ  -- u16
  pub protocol : Protocol
  pub domain : Option Text

pub data Reason : Type 0 where
  ip_block_rule : ℕ → Reason
  domain_resolved_ip_block : Reason
  domain_block : Text → Reason
  app_exclude : ℕ → Reason
  app_include : ℕ → Reason
  app_rule_default : Reason
  ip_rule : ℕ → Reason
  domain_rule : Text → Reason
  domain_resolved_ip : Reason
  default_full_tunnel : Reason
  default_split_include_bypass : Reason

pub record RouteDecision : Type 0 where
  pub target : RouteTarget
  pub reason : Reason

pub record RoutingSnapshot (Net : Type 0) : Type 0 where
  pub mode : RoutingMode
  pub app_rules : AppRuleSet
  pub ip_table : IpRuleTable Net
  pub domain_cache : DomainCache

pub record RoutingEngine (Net : Type 0) : Type 0 where
  pub snapshot : RoutingSnapshot Net

abbrev pub when_block {ℓ} : {A : Type ℓ} → Bool → A → A → A
when_block b yes_block otherwise = if b then yes_block else otherwise

module _ {Net : Type 0} where
  abbrev pub is_block_entry : Option (IpRuleEntry Net) → Bool
  is_block_entry none = false
  is_block_entry (some entry) = target_beq entry.target block

abbrev pub is_block_target : Option RouteTarget → Bool
is_block_target none = false
is_block_target (some t) = target_beq t block

abbrev pub is_block_rule : Option DomainRuleEntry → Bool
is_block_rule none = false
is_block_rule (some rule) = target_beq rule.target block

-- Step 4.
abbrev by_default : RoutingMode → RouteDecision
by_default full_tunnel = record { target = tunnel; reason = default_full_tunnel }
by_default split_include = record { target = bypass; reason = default_split_include_bypass }

-- Step 3, its third test.
abbrev by_domain_ip : Option RouteTarget → RoutingMode → RouteDecision
by_domain_ip (some t) mode = record { target = t; reason = domain_resolved_ip }
by_domain_ip none mode = by_default mode

-- Step 3, its second test.
abbrev by_domain : Option DomainRuleEntry → Option RouteTarget → RoutingMode → RouteDecision
by_domain (some rule) resolved mode = record {
  target = rule.target;
  reason = domain_rule rule.pattern;
}
by_domain none resolved mode = by_domain_ip resolved mode

-- Step 3, its first test.
abbrev by_ip :
    {Net : Type 0}
    → Option (IpRuleEntry Net)
    → Option DomainRuleEntry
    → Option RouteTarget
    → RoutingMode
    → RouteDecision
by_ip (some entry) rule resolved mode = record {
  target = entry.target;
  reason = ip_rule entry.priority;
}
by_ip none rule resolved mode = by_domain rule resolved mode

-- Step 2: the `match` on the engine's mode and the rule's.
abbrev by_app : RoutingMode → RuleMode → ℕ → RouteDecision
by_app full_tunnel exclude pri = record { target = bypass; reason = app_exclude pri }
by_app split_include include pri = record { target = tunnel; reason = app_include pri }
by_app _ _ pri = record { target = tunnel; reason = app_rule_default }

abbrev app_or : Option (RuleMode × ℕ) → RoutingMode → RouteDecision → RouteDecision
app_or (some (rule_mode, pri)) mode rest = by_app mode rule_mode pri
app_or none mode rest = rest

-- Step 1, one function for each test.
abbrev domain_block_or : Option DomainRuleEntry → RouteDecision → RouteDecision
domain_block_or none rest = rest
domain_block_or (some rule) rest =
    if target_beq rule.target block
    then record { target = block; reason = domain_block rule.pattern }
    else rest

abbrev resolved_block_or : Option RouteTarget → RouteDecision → RouteDecision
resolved_block_or none rest = rest
resolved_block_or (some t) rest =
    if target_beq t block
    then record { target = block; reason = domain_resolved_ip_block }
    else rest

abbrev ip_block_or : {Net : Type 0} → Option (IpRuleEntry Net) → RouteDecision → RouteDecision
ip_block_or none rest = rest
ip_block_or (some entry) rest =
    if target_beq entry.target block
    then record { target = block; reason = ip_block_rule entry.priority }
    else rest

module _ (env : Platform) where
  open env use {IpNet}

  -- `RoutingSnapshot::from_config`
  unfoldable pub snapshot_from_config : AppConfig → Result RoutingError (RoutingSnapshot IpNet)
  snapshot_from_config cfg = do
    table ← Ip.from_rules env cfg.routing.ip_rules
    ok (record {
      mode = cfg.routing.mode;
      app_rules = App.from_rules env cfg.routing.app_rules;
      ip_table = table;
      domain_cache = Domain.from_rules cfg.routing.domain_rules;
    })

  -- `RoutingEngine::from_config`
  unfoldable pub from_config : AppConfig → Result RoutingError (RoutingEngine IpNet)
  unfolding snapshot_from_config
  from_config cfg = do snapshot ← snapshot_from_config cfg; ok (record { snapshot = snapshot })

  -- `RoutingEngine::on_dns_resolved`
  unfoldable pub on_dns_resolved :
      Clock → RoutingEngine IpNet → Text → List IpAddr → ℕ → RoutingEngine IpNet
  on_dns_resolved now engine domain ips ttl_secs = record engine {
    snapshot = record engine.snapshot {
      domain_cache = Domain.on_resolved env now engine.snapshot.domain_cache domain ips ttl_secs;
    };
  }

  -- The rule of the flow's domain name, where the flow has one.
  abbrev pub domain_rule_of : DomainCache → Option Text → Option DomainRuleEntry
  domain_rule_of cache none = none
  domain_rule_of cache (some domain) = Domain.match_domain env cache domain

  abbrev pub app_rule_of : AppRuleSet → Option FilePath → RoutingMode → Option (RuleMode × ℕ)
  app_rule_of set none mode = none
  app_rule_of set (some path) mode = App.match_path env set path mode

  -- `RoutingEngine::decide`, at the instant `now` of its lookups in the cache.
  unfoldable pub decide : ℕ → RoutingEngine IpNet → FlowContext → RouteDecision
  decide now engine ctx =
      let s : RoutingSnapshot IpNet = engine.snapshot in
      let entry : Option (IpRuleEntry IpNet) = Ip.lookup env s.ip_table ctx.remote_ip in
      let resolved : Option RouteTarget = Domain.lookup_ip now s.domain_cache ctx.remote_ip in
      let rule : Option DomainRuleEntry = domain_rule_of s.domain_cache ctx.domain in
      ip_block_or entry (
        resolved_block_or resolved (
          domain_block_or rule (
            app_or (app_rule_of s.app_rules ctx.app_path s.mode) s.mode
              (by_ip entry rule resolved s.mode))))
