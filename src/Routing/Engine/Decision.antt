-- ===== src/Routing/Engine/Decision.antt =====
-- What `RoutingEngine::decide` returns, against the order of precedence that its steps announce.
use route_guard.Prelude.{
  ℕ, ◌≡◌, ◌≢◌, Bool, ◌||◌, Option, none, some, List, [], ◌∷◌, if◌then◌else◌, arith,
}
use route_guard.Core.Net.{Platform}
use route_guard.Core.Config.{
  RoutingMode, full_tunnel, split_include, RuleMode, RouteTarget, tunnel, bypass, block, target_beq,
}
use route_guard.Routing.App
use route_guard.Routing.App.{AppRuleSet}
use route_guard.Routing.Ip
use route_guard.Routing.Ip.{IpRuleEntry}
use route_guard.Routing.Domain
use route_guard.Routing.Domain.{DomainRuleEntry}
use route_guard.Routing.Engine.{
  RoutingEngine, FlowContext, app_rule_default, is_block_entry, is_block_target, is_block_rule,
  domain_rule_of, app_rule_of, decide,
}

-- The target of the first source that has one.
abbrev pub first_or : RouteTarget → List (Option RouteTarget) → RouteTarget
first_or d [] = d
first_or d (none ∷ rest) = first_or d rest
first_or d (some t ∷ rest) = t

abbrev pub entry_target : {Net : Type 0} → Option (IpRuleEntry Net) → Option RouteTarget
entry_target none = none
entry_target (some e) = some e.target

abbrev pub rule_target : Option DomainRuleEntry → Option RouteTarget
rule_target none = none
rule_target (some r) = some r.target

-- An exclude rule of the full tunnel means bypass, an include rule of the split tunnel means tunnel.
abbrev pub app_target : RoutingMode → Option (RuleMode × ℕ) → Option RouteTarget
app_target mode none = none
app_target full_tunnel (some m) = some bypass
app_target split_include (some m) = some tunnel

abbrev pub default_target : RoutingMode → RouteTarget
default_target full_tunnel = tunnel
default_target split_include = bypass

abbrev pub block_target : Bool → Option RouteTarget
block_target b = if b then some block else none

module _ (env : Platform) (now : ℕ) (engine : RoutingEngine env.IpNet) (ctx : FlowContext) where
  abbrev entry : Option (IpRuleEntry env.IpNet)
  entry = Ip.lookup env engine.snapshot.ip_table ctx.remote_ip

  abbrev resolved : Option RouteTarget
  resolved = Domain.lookup_ip now engine.snapshot.domain_cache ctx.remote_ip

  abbrev rule : Option DomainRuleEntry
  rule = domain_rule_of env engine.snapshot.domain_cache ctx.domain

  abbrev app : Option (RuleMode × ℕ)
  app = app_rule_of env engine.snapshot.app_rules ctx.app_path engine.snapshot.mode

  -- The decision is to block exactly when the flow's IP rule, its resolved address or its domain
  -- rule says so: no application rule lifts a block, and nothing else blocks.
  pub decide-block_iff :
      target_beq (decide env now engine ctx).target block
      ≡ (is_block_entry entry || (is_block_target resolved || is_block_rule rule))
  unfolding decide
  decide-block_iff = ground arith

  -- The decision is that of the first source with an opinion, in the order: a block by any of the
  -- three, the application rule, the IP rule, the domain rule, the resolved address, the default.
  pub decide-first_or :
      (decide env now engine ctx).target
      ≡ first_or (default_target engine.snapshot.mode) (
          block_target (is_block_entry entry || (is_block_target resolved || is_block_rule rule))
          ∷ app_target engine.snapshot.mode app
          ∷ entry_target entry
          ∷ rule_target rule
          ∷ resolved
          ∷ [])
  unfolding decide App.match_path
  decide-first_or = ground arith

  -- The arm `_` of the match on the modes is dead: no flow gets its reason.
  pub decide-ne-app_rule_default : (decide env now engine ctx).reason ≢ app_rule_default
  unfolding decide App.match_path
  decide-ne-app_rule_default h = ground arith
