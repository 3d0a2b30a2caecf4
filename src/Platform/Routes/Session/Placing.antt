-- ===== src/Platform/Routes/Session/Placing.antt =====
-- `SessionRoutes::install_domain_route` in `crates/routeguard-platform/src/routes.rs`.
use route_guard.Prelude.{◌⊎◌, is_some, ℕ, ◌≡◌, ◌≤◌, true, some, nat_eq}
use route_guard.Prelude.Dict
use route_guard.Core.Net.{Platform, IpAddr, ip_eq}
use route_guard.Core.Config.{RouteTarget, tunnel, bypass, block, target_beq}
use route_guard.Platform.Routes
use route_guard.Platform.Routes.{System, Routes, DomainRouteHandle}
use route_guard.Platform.Routes.Session
use route_guard.Platform.Routes.Session.{State}

module _ (env : Platform) (sys : System env.IpNet) where
  -- The address has a route for the target, that lasts at least as long.
  abbrev Lasts : IpAddr → RouteTarget → ℕ → State env sys → Type 0
  Lasts ip target expires_at w =
      (d : DomainRouteHandle) × (Dict.lookup ip w.session.domain_routes ≡ some d)
      × (target_beq d.target target ≡ true)
      × (expires_at ≤ d.expires_at)

  -- The interface and the metric of a route for the target: the tunnel with 100, the physical
  -- interface with 1.
  abbrev interface_for : RouteTarget → ℕ → ℕ → ℕ
  interface_for tunnel tunnel_if physical_if = tunnel_if
  interface_for bypass tunnel_if physical_if = physical_if
  interface_for block tunnel_if physical_if = physical_if

  abbrev cost_for : RouteTarget → ℕ
  cost_for tunnel = 100
  cost_for bypass = 1
  cost_for block = 1

  -- The system's last call has made the host route of the address, through this interface.
  abbrev IsMade : IpAddr → ℕ → ℕ → sys.Os → sys.Os → Type 0
  IsMade ip if_index metric before after =
      ((sys.create_entry (env.net_of_ip ip) if_index metric before).1 ≡ 0)
      × (after ≡ (sys.create_entry (env.net_of_ip ip) if_index metric before).0)

  -- Either a route was there and nothing has changed, or the last call of the system, after the
  -- removal of a route that was there, has made this one.
  abbrev pub IsKeptOrMade : IpAddr → RouteTarget → ℕ → ℕ → State env sys → State env sys → Type 0
  IsKeptOrMade ip target t p w after =
      ((is_some (Dict.lookup ip w.session.domain_routes) ≡ true) × (after ≡ w))
      ⊎ IsMade ip (interface_for target t p) (cost_for target)
          (Session.remove_domain_route env sys ip w).0.table.os after.table.os
