-- ===== src/Platform/Routes/Session.antt =====
-- The methods of `SessionRoutes` in `crates/routeguard-platform/src/routes.rs`.
pub mod Tracking
pub mod Installing
pub mod History
pub mod Outcome
pub mod Clearing
pub mod Placing
use route_guard.Prelude.{
  ℕ, ◌&&◌, Bool, true, false, Option, none, some, List, [], ◌∷◌, ◌++◌, nat_beq, leb, if◌then◌else◌,
  keep, length,
}
use route_guard.Prelude.Text.{Text, bytes}
use route_guard.Prelude.Dict
use route_guard.Prelude.Result.{Result, ok, err, and_then}
use route_guard.Core.Net.{Platform, IpAddr, ip_eq, SocketAddr}
use route_guard.Core.Config.{RouteTarget, tunnel, bypass, block}
use route_guard.Core.Policy.{PolicySnapshot}
use route_guard.Platform.Routes
use route_guard.Platform.Routes.{
  System, Routes, RouteTable, RouteHandle, RouteError, bad_cidr, bad_dynamic_tunnel, panicked, Done,
  SessionRoutes, DomainRouteHandle, metric_of, keeps,
}

module _ (env : Platform) (sys : System env.IpNet) where
  abbrev pub State : Type 0
  State = Routes env.IpNet sys.Os

  -- A call of the table.
  abbrev pub on_table {ℓ} :
      {A : Type ℓ}
      → (RouteTable env.IpNet sys.Os → RouteTable env.IpNet sys.Os × Result RouteError A)
      → State
      → State × Result RouteError A
  on_table f w = let (t, r) = f w.table in (record w { table = t }, r)

  abbrev pub with_session : SessionRoutes → State → State
  with_session s w = record w { session = s }

  -- `self.wg_handles.push(table.call()?)`
  abbrev pub push_wg :
      (RouteTable env.IpNet sys.Os → RouteTable env.IpNet sys.Os × Result RouteError ℕ)
      → State
      → State × Done
  push_wg f w = and_then (on_table f w) (λ w' h.
      let s : SessionRoutes = w'.session in
      (with_session (record s { wg_handles = s.wg_handles ++ h ∷ [] }) w', ok tt))

  -- `add_default_route`
  unfoldable pub add_default_route : env.IpNet → ℕ → State → State × Done
  add_default_route net if_index w = push_wg (Routes.set_default_via_tunnel env sys if_index net) w

  -- `add_bypass`
  unfoldable pub add_bypass : env.IpNet → ℕ → State → State × Done
  add_bypass net if_index w = push_wg (Routes.add_bypass_route env sys net if_index) w

  -- `add_endpoint_bypass`
  unfoldable pub add_endpoint_bypass : SocketAddr → ℕ → State → State × Done
  add_endpoint_bypass endpoint if_index w =
      push_wg (Routes.add_host_route_outside_tunnel env sys (env.net_of_ip endpoint.ip) if_index) w

  -- `clear_split`: the handles are drained, whatever the removals give.
  unfoldable pub clear_split : State → State × Done
  clear_split w =
      on_table (Routes.remove_routes env sys w.session.split_handles)
        (with_session (record (w.session) { split_handles = [] }) w)

  -- `self.split_handles.push(table.add_route(net, if_index, metric)?)`
  unfoldable pub push_split : env.IpNet → ℕ → ℕ → State → State × Done
  push_split net if_index metric w =
      and_then (on_table (Routes.add_route env sys net if_index metric) w) (λ w' h.
        let s : SessionRoutes = w'.session in
        (with_session (record s { split_handles = s.split_handles ++ h ∷ [] }) w', ok tt))

  abbrev pub push_parsed : Option env.IpNet → RouteError → ℕ → ℕ → State → State × Done
  push_parsed none e if_index metric w = (w, err e)
  push_parsed (some net) e if_index metric w = push_split net if_index metric w

  -- A loop over networks as texts.
  unfoldable pub push_all : (Text → RouteError) → List Text → ℕ → ℕ → State → State × Done
  unfolding push_split
  push_all bad [] if_index metric w = (w, ok tt)
  push_all bad (cidr ∷ cidrs) if_index metric w =
      and_then (push_parsed (env.parse_net cidr) (bad cidr) if_index metric w)
        (λ w' u. push_all bad cidrs if_index metric w')

  -- The two routes of all addresses; the caller unwraps or skips a text that is no network.
  abbrev pub push_default : env.IpNet → ℕ → ℕ → State → State × Done
  push_default net tunnel_if physical_if w =
      and_then (push_split net physical_if 1 w) (λ w' u. push_split net tunnel_if 100 w')

  abbrev pub push_v4 : Option env.IpNet → ℕ → ℕ → State → State × Done
  push_v4 none tunnel_if physical_if w = (w, err panicked)
  push_v4 (some net) tunnel_if physical_if w = push_default net tunnel_if physical_if w

  abbrev pub push_v6 : Option env.IpNet → ℕ → ℕ → State → State × Done
  push_v6 none tunnel_if physical_if w = (w, ok tt)
  push_v6 (some net) tunnel_if physical_if w = push_default net tunnel_if physical_if w

  abbrev pub install_hosts : ℕ → ℕ → PolicySnapshot → State → State × Done
  install_hosts tunnel_if physical_if policy w =
      and_then (push_all bad_cidr policy.bypass_cidrs physical_if 1 w)
        (λ w' u. push_all bad_dynamic_tunnel policy.dynamic_tunnel_hosts tunnel_if 100 w')

  abbrev pub install_after_v4 : ℕ → ℕ → PolicySnapshot → State → State × Done
  install_after_v4 tunnel_if physical_if policy w =
      and_then (push_v6 (env.parse_net (bytes "::/0")) tunnel_if physical_if w)
        (λ w' u. install_hosts tunnel_if physical_if policy w')

  abbrev pub install_between : Option ℕ → Option ℕ → PolicySnapshot → State → State × Done
  install_between none physical policy w = (w, ok tt)
  install_between (some tunnel_if) none policy w = (w, ok tt)
  install_between (some tunnel_if) (some physical_if) policy w =
      and_then (push_v4 (env.parse_net (bytes "0.0.0.0/0")) tunnel_if physical_if w)
        (λ w' u. install_after_v4 tunnel_if physical_if policy w')

  -- `install_split_routes`
  unfoldable pub install_split_routes : PolicySnapshot → State → State × Done
  unfolding clear_split push_split push_all
  install_split_routes policy w =
      and_then (clear_split w)
        (λ w' u. install_between policy.tunnel_if_index policy.physical_if_index policy w')

  abbrev pub remove_entry : Option DomainRouteHandle → IpAddr → State → State × Done
  remove_entry none ip w = (w, ok tt)
  remove_entry (some entry) ip w =
      let s : SessionRoutes = w.session in
      on_table (Routes.remove_route env sys entry.route_handle)
        (with_session (record s { domain_routes = Dict.remove ip s.domain_routes }) w)

  -- `remove_domain_route`
  unfoldable pub remove_domain_route : IpAddr → State → State × Done
  remove_domain_route ip w = remove_entry (Dict.lookup ip w.session.domain_routes) ip w

  -- The route is added and remembered.
  abbrev pub install_on : IpAddr → RouteTarget → ℕ → ℕ → State → State × Done
  install_on ip target if_index expires_at w =
      and_then
        (on_table (Routes.add_route env sys (env.net_of_ip ip) if_index (metric_of target)) w)
        (λ w' h.
          let s : SessionRoutes = w'.session in
          let entry : DomainRouteHandle = record {
            ip = ip;
            route_handle = h;
            expires_at = expires_at;
            target = target;
          } in
          (
            with_session (record s { domain_routes = Dict.insert ip entry s.domain_routes }) w',
            ok tt,
          ))

  abbrev pub install_fresh : IpAddr → RouteTarget → ℕ → ℕ → ℕ → State → State × Done
  install_fresh ip bypass tunnel_if physical_if expires_at w =
      install_on ip bypass physical_if expires_at w
  install_fresh ip tunnel tunnel_if physical_if expires_at w =
      install_on ip tunnel tunnel_if expires_at w
  install_fresh ip block tunnel_if physical_if expires_at w = (w, ok tt)

  abbrev pub install_over :
      Option DomainRouteHandle → IpAddr → RouteTarget → ℕ → ℕ → ℕ → State → State × Done
  install_over none ip target tunnel_if physical_if expires_at w =
      install_fresh ip target tunnel_if physical_if expires_at w
  install_over (some existing) ip target tunnel_if physical_if expires_at w =
      if keeps existing target expires_at
      then (w, ok tt)
      else and_then (remove_domain_route ip w)
          (λ w' u. install_fresh ip target tunnel_if physical_if expires_at w')

  -- `install_domain_route`
  unfoldable pub install_domain_route : IpAddr → RouteTarget → ℕ → ℕ → ℕ → State → State × Done
  unfolding remove_domain_route
  install_domain_route ip target tunnel_if physical_if expires_at w =
      install_over (Dict.lookup ip w.session.domain_routes) ip target tunnel_if physical_if
        expires_at w

  -- `for ip in ips { self.remove_domain_route(table, ip)?; }`
  unfoldable pub remove_domain_routes : List IpAddr → State → State × Done
  unfolding remove_domain_route
  remove_domain_routes [] w = (w, ok tt)
  remove_domain_routes (ip ∷ ips) w =
      and_then (remove_domain_route ip w) (λ w' u. remove_domain_routes ips w')

  -- The addresses whose routes have expired.
  abbrev pub expired_ips : ℕ → State → List IpAddr
  expired_ips now w =
      Dict.keys
        (keep (λ (p : IpAddr × DomainRouteHandle). leb p.1.expires_at now) w.session.domain_routes)

  -- `purge_expired_domain_routes`
  unfoldable pub purge_expired_domain_routes : ℕ → State → State × Result RouteError (List IpAddr)
  unfolding remove_domain_routes
  purge_expired_domain_routes now w =
      and_then (remove_domain_routes (expired_ips now w) w) (λ w' u. (w', ok (expired_ips now w)))

  -- `clear_domain_routes`
  unfoldable pub clear_domain_routes : State → State × Done
  unfolding remove_domain_routes
  clear_domain_routes w = remove_domain_routes (Dict.keys w.session.domain_routes) w

  -- `domain_route_count`
  abbrev pub domain_route_count : SessionRoutes → ℕ
  domain_route_count s = length s.domain_routes

  -- `for h in self.wg_handles.drain(..) { table.remove_route(h)?; }`
  abbrev pub clear_wg : State → State × Done
  clear_wg w =
      on_table (Routes.remove_routes env sys w.session.wg_handles)
        (with_session (record (w.session) { wg_handles = [] }) w)

  abbrev pub forget_filters : State → State
  forget_filters w = with_session (record (w.session) { wfp_filter_ids = [] }) w

  abbrev pub clear_wg_and_filters : State → State × Done
  clear_wg_and_filters w = and_then (clear_wg w) (λ w' u. (forget_filters w', ok tt))

  abbrev pub clear_handles : State → State × Done
  clear_handles w = and_then (clear_split w) (λ w' u. clear_wg_and_filters w')

  -- `clear`
  unfoldable pub clear : State → State × Done
  unfolding clear_domain_routes clear_split
  clear w = and_then (clear_domain_routes w) (λ w' u. clear_handles w')
