-- ===== src/Tests/Flows.antt =====
-- Decisions for flows, and the rules that they find.
use route_guard.Prelude.{
  ℕ, ◌≡◌, ◌≢◌, refl, true, false, none, some, List, [], ◌∷◌, ◌||◌, map, keep, is_some, all,
}
use route_guard.Prelude.Text.{Text, bytes, to_ascii_lowercase}
use route_guard.Prelude.Sort.{min_by_key, sort_by_key}
use route_guard.Prelude.Result.{ok, is_ok}
use route_guard.Core.Net.{IpAddr, v4, ip_beq}
use route_guard.Core.Config.{target_beq, block, bypass, tunnel, full_tunnel, exclude}
use route_guard.Routing.App.{normalize_path, path_matches, match_path, hit}
use route_guard.Routing.App
use route_guard.Routing.App.Selection.{match_path-min_by_key}
use route_guard.Routing.Ip
use route_guard.Routing.Ip.{IpRuleTable, IpRuleEntry, parse_rules}
use route_guard.Routing.Ip.Selection.{lookup-min_by_key, from_rules-is_ok}
use route_guard.Routing.Domain
use route_guard.Routing.Engine.{decide, app_rule_default}
use route_guard.Routing.Engine.Decision.{
  decide-block_iff, decide-first_or, decide-ne-app_rule_default,
}
use route_guard.Tests.Sample.{
  test_platform, test_engine, test_flow, test_app_rules, test_ip_rules, steam,
}

abbrev test_table : IpRuleTable IpAddr
test_table = record {
  rules =
      record { priority = 10; cidr = v4 b'B'; target = block }
      ∷ record { priority = 20; cidr = v4 b'A'; target = tunnel }
      ∷ record { priority = 30; cidr = v4 b'A'; target = bypass }
      ∷ [];
}

-- Steam is excluded, but the block of the host's domain comes first.
decide-block_iff_example :
    target_beq (decide test_platform 5 test_engine test_flow).target block ≡ true
unfolding Ip.lookup Domain.lookup_ip Domain.match_domain Domain.from_rules
    route_guard.Prelude.Dict.lookup Domain.best_rule min_by_key Domain.sorted_entries sort_by_key
    Domain.domain_matches route_guard.Prelude.Text.starts_with to_ascii_lowercase
    route_guard.Prelude.Text.trim_end_matches route_guard.Prelude.Text.ends_with
decide-block_iff_example = decide-block_iff test_platform 5 test_engine test_flow

-- To an address without a rule and without a name it goes past the tunnel.
decide-first_or_example :
    (decide test_platform 5 test_engine (record test_flow { domain = none })).target ≡ bypass
unfolding Ip.lookup Domain.lookup_ip App.match_path App.from_rules route_guard.Prelude.Dict.lookup
    Domain.from_rules sort_by_key to_ascii_lowercase
decide-first_or_example =
    decide-first_or test_platform 5 test_engine (record test_flow { domain = none })

decide-ne-app_rule_default_example :
    (decide test_platform 5 test_engine test_flow).reason ≢ app_rule_default
decide-ne-app_rule_default_example =
    decide-ne-app_rule_default test_platform 5 test_engine test_flow

-- The exact rule has the least priority of the two exclude rules that match.
match_path-min_by_key_example :
    match_path test_platform (App.from_rules test_platform test_app_rules) steam full_tunnel
    ≡ some (exclude, 10)
unfolding normalize_path path_matches min_by_key to_ascii_lowercase
    route_guard.Prelude.Text.starts_with route_guard.Prelude.Text.ends_with
match_path-min_by_key_example = match_path-min_by_key test_platform test_app_rules steam full_tunnel

from_rules-is_ok_example : is_ok (Ip.from_rules test_platform test_ip_rules) ≡ true
from_rules-is_ok_example = from_rules-is_ok test_platform test_ip_rules

-- `A` has two rules.
lookup-min_by_key_example :
    (entries : List (IpRuleEntry IpAddr)) × (parse_rules test_platform test_ip_rules ≡ ok entries)
    × (Ip.lookup test_platform test_table (v4 b'A')
        ≡ min_by_key (λ r. r.priority) (keep (λ r. ip_beq r.cidr (v4 b'A')) entries))
unfolding Ip.from_rules sort_by_key
lookup-min_by_key_example = lookup-min_by_key test_platform test_ip_rules test_table (v4 b'A') refl
