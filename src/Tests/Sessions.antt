-- ===== src/Tests/Sessions.antt =====
-- The choice of a backend, a session's calls, and health.
use route_guard.Prelude.{
  ◌+◌, ◌*◌, ◌/◌, ◌≡◌, ◌≤◌, refl, true, false, ◌&&◌, not, none, some, is_some, [], All,
}
use route_guard.Prelude.Text.{bytes}
use route_guard.Prelude.Result.{ok, err, is_ok}
use route_guard.Core.Backend.{BackendKind, TunnelBackendPreference, TunnelHandle, is_awg}
use route_guard.Core.Config.{AppConfig, TunnelConfig, default_config}
use route_guard.Core.Health.{HealthComponent, compute_health, score_age, weighted}
use route_guard.Core.Health.Bounds.{compute_health-bounds}
use route_guard.Core.Observability.{RoutingObs, NetworkLockObs, DnsObs}
use route_guard.Core.Transport.{default_transport}
use route_guard.Service.BackendSelector.{
  ResolvedBackend, wgnt, resolve, resolve_kind, resolve-is_ok, resolve-ok, choice_for, insists,
  wants_awg,
}
use route_guard.Service.Session.{new_orchestrator}
use route_guard.Service.Session.Traces.{
  act, connect_action, disconnect_action, started, acted, Agrees, Run-Agrees,
}

-- A tunnel with AmneziaWG parameters that does not insist on them.
abbrev test_tunnel : TunnelConfig
test_tunnel = record {
  name = bytes "home";
  config_path = bytes "C:/home.conf";
  mtu = 1420;
  backend = TunnelBackendPreference.auto;
  require_awg = false;
  transport = default_transport;
}

abbrev fallback_backend : ResolvedBackend
fallback_backend = record {
  kind = BackendKind.wireguard_nt;
  fallback = true;
  fallback_reason = some (bytes "awg_params_present_dll_missing");
}

resolve-is_ok_example : is_ok (resolve true false test_tunnel) ≡ true
resolve-is_ok_example = resolve-is_ok true false test_tunnel

resolve-ok_example :
    (wgnt ≡ choice_for fallback_backend.kind)
    × (is_awg fallback_backend.kind ≡ (wants_awg test_tunnel.backend true && false))
    × (fallback_backend.fallback ≡ (wants_awg test_tunnel.backend true && not false))
    × (is_some fallback_backend.fallback_reason ≡ fallback_backend.fallback)
    × ((fallback_backend.fallback && insists test_tunnel.backend test_tunnel.require_awg) ≡ false)
unfolding resolve resolve_kind
resolve-ok_example = resolve-ok true false test_tunnel fallback_backend wgnt refl

abbrev home_config : AppConfig
home_config = record default_config { tunnel = some test_tunnel }

abbrev test_handle : TunnelHandle
test_handle = record {
  id = 1;
  name = bytes "home";
  if_index = 42;
  if_luid = 7;
  backend = BackendKind.wireguard_nt;
}

-- A connection, and a disconnection that the backend refuses.
Run-Agrees_example : Agrees (
    act
      (disconnect_action (λ h. err (bytes "busy")))
      (act (connect_action (λ t. ok test_handle) none) (new_orchestrator home_config)))
Run-Agrees_example =
    Run-Agrees
      (act (disconnect_action (λ h. err (bytes "busy")))
        (act (connect_action (λ t. ok test_handle) none) (new_orchestrator home_config)))
      (acted (disconnect_action (λ h. err (bytes "busy")))
        (acted (connect_action (λ t. ok test_handle) none) (started home_config)))

abbrev quiet_routing : RoutingObs
quiet_routing = record {
  mode = bytes "full_tunnel";
  app_rules = record { total = 0; enabled = 0 };
  ip_rules = record { total = 0; enabled = 0 };
  domain_rules = record { total = 1; enabled = 1 };
  domain_routes = record { active = 0; resolved_ips = 0; generation = 0 };
  compiled_policy_hash = none;
}

abbrev open_lock : NetworkLockObs
open_lock = record {
  configured = true;
  active = false;
  wfp_filters = 0;
  violations_blocked = 0;
  last_recovery_at = none;
}

abbrev no_driver : DnsObs
no_driver = record {
  proxy_enabled = false;
  listen = [];
  kernel_redirect = true;
  redirect_active = false;
  driver = record { present = false; ready = false; version = none };
  redirect_stats = none;
}

compute_health-bounds_example :
    let report = compute_health none none quiet_routing open_lock no_driver (bytes "connected") in
    (report.score ≤ 100)
    × (report.score ≡ (80 * 25 + 100 * 20 + 100 * 20 + 100 * 10 + 40 * 10 + 50 * 10 + 0 * 5) / 100)
    × All (λ (c : HealthComponent). c.score ≤ 100) report.components
unfolding route_guard.Core.Health.score_tunnel route_guard.Core.Health.score_transport
    route_guard.Core.Health.score_handshake route_guard.Core.Health.score_routing
    route_guard.Core.Health.score_domain route_guard.Core.Health.score_network_lock
    route_guard.Core.Health.score_driver compute_health
compute_health-bounds_example =
    compute_health-bounds none none quiet_routing open_lock no_driver (bytes "connected")
