-- ===== src/Tests/Sample.antt =====
-- A small platform and configuration for the tests. A network is a single address, written as one
-- byte.
use route_guard.Prelude.{true, not, Option, none, some, List, [], ◌∷◌, is_empty}
use route_guard.Prelude.Text.{Text, bytes, to_ascii_lowercase}
use route_guard.Core.Net.{Platform, IpAddr, v4, v6, ip_beq}
use route_guard.Core.Config.{
  AppRule, IpRule, DomainRule, include, exclude, tunnel, bypass, block, full_tunnel,
}
use route_guard.Routing.App
use route_guard.Routing.Domain
use route_guard.Routing.Engine.{RoutingEngine, FlowContext, tcp}

abbrev one_byte_net : Text → Option IpAddr
one_byte_net [] = none
one_byte_net (b ∷ []) = some (v4 b)
one_byte_net (b ∷ c ∷ rest) = none

abbrev net_name : IpAddr → Text
net_name (v4 b) = b ∷ []
net_name (v6 b) = b ∷ 0 ∷ []

abbrev pub test_platform : Platform
test_platform = record {
  IpNet = IpAddr;
  parse_net = one_byte_net;
  net_contains = ip_beq;
  net_text = net_name;
  net_of_ip = λ ip. ip;
  to_lowercase = to_ascii_lowercase;
  is_absolute = λ path. not (is_empty path);
  exists = λ path. true;
}

abbrev pub steam : Text
steam = bytes "C:/Games/Steam.exe"

abbrev pub test_app_rules : List AppRule
test_app_rules =
    record { priority = 20; mode = exclude; path = bytes "C:/Games/*.exe" }
    ∷ record { priority = 10; mode = include; path = steam }
    ∷ record { priority = 10; mode = exclude; path = steam }
    ∷ []

abbrev pub test_ip_rules : List IpRule
test_ip_rules =
    record { priority = 30; cidr = bytes "A"; target = bypass }
    ∷ record { priority = 20; cidr = bytes "A"; target = tunnel }
    ∷ record { priority = 10; cidr = bytes "B"; target = block }
    ∷ []

abbrev pub test_domain_rules : List DomainRule
test_domain_rules =
    record { priority = 10; pattern = bytes "*.bank.com"; target = block }
    ∷ record { priority = 20; pattern = bytes "example.com"; target = bypass }
    ∷ []

abbrev pub test_engine : RoutingEngine IpAddr
test_engine = record {
  snapshot = record {
    mode = full_tunnel;
    app_rules = App.from_rules test_platform test_app_rules;
    ip_table = record { rules = [] };
    domain_cache = Domain.from_rules test_domain_rules;
  };
}

-- Steam asks for a host that a rule blocks.
abbrev pub test_flow : FlowContext
test_flow = record {
  app_path = some steam;
  remote_ip = v4 1;
  remote_port = 443;
  protocol = tcp;
  domain = some (bytes "Login.Bank.com.");
}
