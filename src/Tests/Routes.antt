-- ===== src/Tests/Routes.antt =====
-- A system whose calls all succeed, and a manager on it that hears of one address.
use route_guard.Prelude.{ℕ, nat_eq, ◌+◌, ◌≡◌, refl, true, none, [], ◌∷◌, if◌then◌else◌, arith}
use route_guard.Prelude.Dict
use route_guard.Prelude.Dict.{IsDistinct}
use route_guard.Prelude.Result.{is_ok}
use route_guard.Core.Net.{IpAddr, v4, ip_eq}
use route_guard.Core.Config.{bypass}
use route_guard.Platform.Routes.{System, Routes, RouteTable, new_routes, remove_route}
use route_guard.Platform.Routes.Session.{State, clear}
use route_guard.Platform.Routes.Session.Tracking.{IsInjective}
use route_guard.Platform.Routes.Session.History
use route_guard.Platform.Routes.Session.History.{Reachable, apply, install_call}
use route_guard.Platform.Routes.Session.Clearing.{IsEmpty, is_held, clear-releases}
use route_guard.Tests.Sample.{test_platform}

abbrev pub test_system : System IpAddr
test_system = record {
  Os = ℕ;
  create_entry = λ net if_index metric os. (os + 1, 0);
  delete_entry = λ net os. (os, 1168);
}

abbrev pub test_table : RouteTable IpAddr ℕ
test_table = record { os = 0; next_handle = 1; routes = [] }

abbrev pub fresh : State test_platform test_system
fresh = record { session = new_routes; table = test_table }

pub same_net : IsInjective test_platform test_system
same_net a b h = h

pub fresh-Reachable : Reachable test_platform test_system fresh
unfolding Dict.lookup
fresh-Reachable = History.start test_table (λ h n found. absurd (ground arith))

-- One route of a domain, one of the tunnel, and one of another session.
abbrev busy : State test_platform test_system
busy = record {
  session = record new_routes {
    wg_handles = 1 ∷ [];
    domain_routes =
        (v4 7, record { ip = v4 7; route_handle = 2; expires_at = 100; target = bypass }) ∷ [];
  };
  table = record { os = 3; next_handle = 4; routes = (1, v4 1) ∷ (2, v4 7) ∷ (3, v4 9) ∷ [] };
}

busy-IsDistinct : IsDistinct busy.session.domain_routes
unfolding Dict.lookup
busy-IsDistinct = (refl, tt)

cleared : is_ok (clear test_platform test_system busy).1 ≡ true
unfolding clear Dict.lookup remove_route route_guard.Platform.Routes.remove_routes Dict.remove
cleared = refl

clear-releases_example :
    IsEmpty test_platform test_system (clear test_platform test_system busy).0
    × (Dict.lookup 3 (clear test_platform test_system busy).0.table.routes ≡ (
        if is_held test_platform test_system 3 busy then none else Dict.lookup 3 busy.table.routes))
clear-releases_example = clear-releases test_platform test_system busy 3 busy-IsDistinct cleared
