-- ===== src/Routing/Ip/Selection.antt =====
-- Which rule `IpRuleTable::lookup` finds in a table that `from_rules` built.
use route_guard.Prelude.{◌≡◌, refl, List, [], ◌∷◌, arith, all, is_some, keep}
use route_guard.Prelude.Sort.{min_by_key, find-sort_by_key}
use route_guard.Prelude.Result.{ok, is_ok, >>=-eq-ok}
use route_guard.Core.Net.{Platform, IpAddr}
use route_guard.Core.Config.{IpRule}
use route_guard.Routing.Ip.{IpRuleEntry, IpRuleTable, parse_rules, from_rules, lookup}

module _ (env : Platform) where
  open env use {IpNet, parse_net, net_contains}

  parse_rules-is_ok :
      (rules : List IpRule)
      → is_ok (parse_rules env rules) ≡ all (λ r. is_some (parse_net r.cidr)) rules
  unfolding parse_rules
  parse_rules-is_ok [] = refl
  parse_rules-is_ok (r ∷ rules) = ground (arith, parse_rules-is_ok rules)

  -- A table is built exactly when the text of every rule is a network.
  pub from_rules-is_ok :
      (rules : List IpRule)
      → is_ok (from_rules env rules) ≡ all (λ r. is_some (parse_net r.cidr)) rules
  unfolding from_rules
  from_rules-is_ok rules = ground (arith, parse_rules-is_ok rules)

  -- In a table built from rules, `lookup` returns a rule with the least priority number among those
  -- whose network holds the address, the earliest in the configuration where several have it, and
  -- nothing exactly when none holds it.
  pub lookup-min_by_key :
      (rules : List IpRule) (table : IpRuleTable IpNet) (ip : IpAddr)
      → from_rules env rules ≡ ok table
      → (entries : List (IpRuleEntry IpNet)) × (parse_rules env rules ≡ ok entries)
        × (lookup env table ip
            ≡ min_by_key (λ r. r.priority) (keep (λ r. net_contains r.cidr ip) entries))
  unfolding from_rules lookup
  lookup-min_by_key rules table ip h =
      let (entries, parsed, built) = >>=-eq-ok (parse_rules env rules) _ table h in
      (
        entries,
        parsed,
        ground (
          arith,
          built,
          find-sort_by_key (λ r. r.priority) (λ r. net_contains r.cidr ip) entries,
        ),
      )
