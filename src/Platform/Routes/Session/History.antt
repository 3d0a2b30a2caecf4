-- ===== src/Platform/Routes/Session/History.antt =====
-- The methods of `SessionRoutes` one after the other, as `crates/routeguard-platform/src/routes.rs`
-- lets its callers call them.
use route_guard.Prelude.{ℕ, ◌+◌, ◌^◌, ◌≡◌, ◌<◌, some, List, nat_eq, arith}
use route_guard.Prelude.Dict
use route_guard.Prelude.Result.{and_then-keeps, ok}
use route_guard.Core.Net.{Platform, IpAddr, SocketAddr, ip_eq}
use route_guard.Core.Config.{RouteTarget}
use route_guard.Core.Policy.{PolicySnapshot}
use route_guard.Platform.Routes.{System, RouteTable, RouteHandle, DomainRouteHandle, new_routes}
use route_guard.Platform.Routes.Session
use route_guard.Platform.Routes.Session.{State}
use route_guard.Platform.Routes.Session.Tracking.{
  IsTracked, IsInjective, Owns, Tracks, IsBelow, push_wg-IsTracked, clear_split-IsTracked,
  clear_wg-IsTracked, remove_domain_route-IsTracked, remove_domain_routes-IsTracked,
}
use route_guard.Platform.Routes.Session.Installing.{
  weaken, split_count, install_domain_route-IsTracked, install_split_routes-IsTracked,
}

-- The public methods of `SessionRoutes` with their arguments; what the clock says is one of them.
pub data RouteCall (Net : Type 0) : Type 0 where
  default_call : Net → ℕ → RouteCall Net
  bypass_call : Net → ℕ → RouteCall Net
  endpoint_call : SocketAddr → ℕ → RouteCall Net
  split_call : PolicySnapshot → RouteCall Net
  install_call : IpAddr → RouteTarget → ℕ → ℕ → ℕ → RouteCall Net
  remove_call : IpAddr → RouteCall Net
  purge_call : ℕ → RouteCall Net
  clear_domain_call : RouteCall Net
  clear_split_call : RouteCall Net
  clear_call : RouteCall Net

module _ (env : Platform) (sys : System env.IpNet) where
  -- The state after a call, which may have failed.
  unfoldable pub apply : RouteCall env.IpNet → State env sys → State env sys
  apply (default_call net i) w = (Session.add_default_route env sys net i w).0
  apply (bypass_call net i) w = (Session.add_bypass env sys net i w).0
  apply (endpoint_call endpoint i) w = (Session.add_endpoint_bypass env sys endpoint i w).0
  apply (split_call policy) w = (Session.install_split_routes env sys policy w).0
  apply (install_call ip target t p expires_at) w =
      (Session.install_domain_route env sys ip target t p expires_at w).0
  apply (remove_call ip) w = (Session.remove_domain_route env sys ip w).0
  apply (purge_call now) w = (Session.purge_expired_domain_routes env sys now w).0
  apply clear_domain_call w = (Session.clear_domain_routes env sys w).0
  apply clear_split_call w = (Session.clear_split env sys w).0
  apply clear_call w = (Session.clear env sys w).0

  -- How many handles a call gives out at most.
  abbrev pub allocations : RouteCall env.IpNet → ℕ
  allocations (split_call policy) = split_count env sys policy
  allocations (default_call net i) = 1
  allocations (bypass_call net i) = 1
  allocations (endpoint_call endpoint i) = 1
  allocations (install_call ip target t p expires_at) = 1
  allocations _ = 0

  -- A new session on a table whose handles have been given out, and the calls of it while the
  -- counter of the handles does not wrap around.
  pub data Reachable : State env sys → Type 0 where
    start :
        (t : RouteTable env.IpNet sys.Os)
        → ((h : RouteHandle) (n : env.IpNet) → Dict.lookup h t.routes ≡ some n → h < t.next_handle)
        → Reachable (record { session = new_routes; table = t })
    after :
        {w : State env sys} (c : RouteCall env.IpNet)
        → w.table.next_handle + allocations c < 2 ^ 64
        → Reachable w
        → Reachable (apply c w)

  clear-IsTracked :
      (inj : IsInjective env sys) (k : ℕ) (w : State env sys)
      → IsTracked env sys k w
      → IsTracked env sys k (Session.clear env sys w).0
  unfolding Session.clear Session.clear_domain_routes
  clear-IsTracked inj k w h =
      let P = IsTracked env sys k in
      and_then-keeps P P (Session.clear_domain_routes env sys w)
        (λ w1 u. Session.clear_handles env sys w1) (λ w1 g. g)
        (remove_domain_routes-IsTracked env sys inj k (Dict.keys w.session.domain_routes) w h)
        (λ w1 u g1.
          and_then-keeps P P (Session.clear_split env sys w1)
            (λ w2 u. Session.clear_wg_and_filters env sys w2) (λ w2 g. g)
            (clear_split-IsTracked env sys k w1 g1)
            (λ w2 u g2.
              and_then-keeps P P (Session.clear_wg env sys w2)
                (λ w3 u. (Session.forget_filters env sys w3, ok tt)) (λ w3 g. g)
                (clear_wg-IsTracked env sys k w2 g2) (λ w3 u g3. g3)))

  pub apply-IsTracked :
      (inj : IsInjective env sys) (c : RouteCall env.IpNet) (k : ℕ) (w : State env sys)
      → k + allocations c < 2 ^ 64
      → IsTracked env sys k w
      → IsTracked env sys (k + allocations c) (apply c w)
  unfolding apply Session.add_default_route Session.add_bypass Session.add_endpoint_bypass
      Session.purge_expired_domain_routes Session.clear_domain_routes
  apply-IsTracked inj (default_call net i) k w small h =
      push_wg-IsTracked env sys k net i 100 w small h
  apply-IsTracked inj (bypass_call net i) k w small h =
      push_wg-IsTracked env sys k net i 5 w small h
  apply-IsTracked inj (endpoint_call endpoint i) k w small h =
      push_wg-IsTracked env sys k (env.net_of_ip endpoint.ip) i 0 w small h
  apply-IsTracked inj (split_call policy) k w small h =
      install_split_routes-IsTracked env sys policy k w small h
  apply-IsTracked inj (install_call ip target t p expires_at) k w small h =
      install_domain_route-IsTracked env sys inj k ip target t p expires_at w small h
  apply-IsTracked inj (remove_call ip) k w small h =
      weaken env sys k (k + 0) (apply (remove_call ip) w) (omega arith)
        (remove_domain_route-IsTracked env sys inj k ip w h)
  apply-IsTracked inj (purge_call now) k w small h =
      let P = IsTracked env sys k in
      let ips : List IpAddr = Session.expired_ips env sys now w in
      weaken env sys k (k + 0) (apply (purge_call now) w) (omega arith) (
        and_then-keeps P P (Session.remove_domain_routes env sys ips w) (λ w' u. (w', ok ips))
          (λ w' g. g) (remove_domain_routes-IsTracked env sys inj k ips w h) (λ w' u g. g))
  apply-IsTracked inj clear_domain_call k w small h =
      weaken env sys k (k + 0) (apply clear_domain_call w) (omega arith)
        (remove_domain_routes-IsTracked env sys inj k (Dict.keys w.session.domain_routes) w h)
  apply-IsTracked inj clear_split_call k w small h =
      weaken env sys k (k + 0) (apply clear_split_call w) (omega arith)
        (clear_split-IsTracked env sys k w h)
  apply-IsTracked inj clear_call k w small h =
      weaken env sys k (k + 0) (apply clear_call w) (omega arith) (clear-IsTracked inj k w h)

  pub Reachable-Tracks :
      (inj : IsInjective env sys) (w : State env sys)
      → Reachable w
      → Tracks env sys w × IsBelow env sys w
  unfolding Dict.lookup
  Reachable-Tracks inj w (start t h) = ((λ ip d found. absurd (ground arith)), (h, tt, tt))
  Reachable-Tracks inj w (after {w = v} c small r) =
      let (t, b) = Reachable-Tracks inj v r in
      let (t', b', le) = apply-IsTracked inj c v.table.next_handle v small (t, b, omega arith) in
      (t', b')

  -- In every state that a session reaches, failed calls included, the route that it keeps for an
  -- address stands in the table as the host route of that address, under a handle that is in neither
  -- of the session's lists, and is no block. The host networks of different addresses differ.
  pub Reachable-Owns :
      (inj : IsInjective env sys) (w : State env sys) (ip : IpAddr) (d : DomainRouteHandle)
      → Reachable w
      → Dict.lookup ip w.session.domain_routes ≡ some d
      → Owns env sys w ip d
  Reachable-Owns inj w ip d reach there = (Reachable-Tracks inj w reach).0 ip d there
