-- ===== src/Routing/Ip.antt =====
-- `crates/routeguard-routing/src/ip.rs`: the table of IP rules in the order of priority.
pub mod Selection
use route_guard.Prelude.{ℕ, Option, none, some, List, [], ◌∷◌, map, find, keep}
use route_guard.Prelude.Text.{Text}
use route_guard.Prelude.Sort.{sort_by_key}
use route_guard.Prelude.Result.{Result, ok, err, ◌>>=◌}
use route_guard.Core.Net.{Platform, IpAddr}
use route_guard.Core.Config.{IpRule, RouteTarget, bypass, block, target_beq}

pub record IpRuleEntry (Net : Type 0) : Type 0 where
  pub priority : ℕ
  pub cidr : Net
  pub target : RouteTarget

pub record IpRuleTable (Net : Type 0) : Type 0 where
  pub rules : List (IpRuleEntry Net)

-- The texts of the errors that building an engine returns.
pub data RoutingError : Type 0 where
  invalid_cidr : Text → RoutingError

module _ (env : Platform) where
  open env use {IpNet, parse_net, net_contains}

  abbrev parse_or_fail : Text → Option IpNet → Result RoutingError IpNet
  parse_or_fail text none = err (invalid_cidr text)
  parse_or_fail text (some net) = ok net

  -- The loop of `from_rules`.
  unfoldable pub parse_rules : List IpRule → Result RoutingError (List (IpRuleEntry IpNet))
  parse_rules [] = ok []
  parse_rules (rule ∷ rules) = do
    net ← parse_or_fail rule.cidr (parse_net rule.cidr)
    rest ← parse_rules rules
    ok (record { priority = rule.priority; cidr = net; target = rule.target } ∷ rest)

  -- `IpRuleTable::from_rules`
  unfoldable pub from_rules : List IpRule → Result RoutingError (IpRuleTable IpNet)
  unfolding parse_rules
  from_rules rules = do
    entries ← parse_rules rules
    ok (record { rules = sort_by_key (λ r. r.priority) entries })

  unfoldable pub lookup : IpRuleTable IpNet → IpAddr → Option (IpRuleEntry IpNet)
  lookup table ip = find (λ r. net_contains r.cidr ip) table.rules

  unfoldable pub all_bypass_cidrs : IpRuleTable IpNet → List IpNet
  all_bypass_cidrs table = map (λ r. r.cidr) (keep (λ r. target_beq r.target bypass) table.rules)

  unfoldable pub all_block_cidrs : IpRuleTable IpNet → List IpNet
  all_block_cidrs table = map (λ r. r.cidr) (keep (λ r. target_beq r.target block) table.rules)
