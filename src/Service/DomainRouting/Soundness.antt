-- ===== src/Service/DomainRouting/Soundness.antt =====
-- What every sequence of the methods of `crates/routeguard-service/src/domain_routing.rs` keeps,
-- whatever fails in them.
use route_guard.Prelude.{ℕ, ◌+◌, ◌^◌, ◌≡◌, ◌<◌, refl, some, List, length, arith}
use route_guard.Prelude.Text.{Text}
use route_guard.Prelude.Dict
use route_guard.Core.Net.{Platform, IpAddr, ip_eq}
use route_guard.Core.Config.{DomainRule}
use route_guard.Core.Policy.{PolicySnapshot}
use route_guard.Routing.Engine.{RoutingEngine}
use route_guard.Routing.Store
use route_guard.Routing.Store.{DomainRouteStoreConfig}
use route_guard.Routing.Store.History.{start, IsValid, Reachable-IsValid}
use route_guard.Routing.Store.Persist.{Json}
use route_guard.Platform.Routes.{System, Routes, DomainRouteHandle}
use route_guard.Platform.Routes.Session.Tracking.{IsInjective, Owns}
use route_guard.Platform.Routes.Session.History.{Reachable, Reachable-Tracks}
use route_guard.Service.DomainRouting
use route_guard.Service.DomainRouting.{Files, Moment, State}
use route_guard.Service.DomainRouting.Steps.{IsSound, grow}
use route_guard.Service.DomainRouting.Methods.{
  rebuild_rules-IsSound, on_dns_response-IsSound, purge_expired-IsSound, clear-IsSound,
  reinstall_routes_from_cache-IsSound, load_persisted-IsSound,
}

-- The methods with their arguments.
pub data ManagerCall : Type 0 where
  rebuild_call : Moment → List DomainRule → ManagerCall
  answer_call : Moment → Text → List (IpAddr × ℕ) → PolicySnapshot → ManagerCall
  expire_call : Moment → ManagerCall
  reset_call : Moment → ManagerCall
  reinstall_call : PolicySnapshot → ManagerCall
  load_call : Moment → ManagerCall

module _ (env : Platform) (sys : System env.IpNet) (fs : Files) (json : Json) where
  unfoldable pub perform : ManagerCall → State env sys fs json → State env sys fs json
  perform (rebuild_call now rules) w = DomainRouting.rebuild_rules env sys fs json now rules w
  perform (answer_call now domain records policy) w =
      DomainRouting.on_dns_response env sys fs json now domain records policy w
  perform (expire_call now) w = DomainRouting.purge_expired env sys fs json now w
  perform (reset_call now) w = DomainRouting.clear env sys fs json now w
  perform (reinstall_call policy) w =
      DomainRouting.reinstall_routes_from_cache env sys fs json policy w
  perform (load_call now) w = DomainRouting.load_persisted env sys fs json now w

  -- How many routes a method asks for at most.
  abbrev pub demand : ManagerCall → State env sys fs json → ℕ
  demand (answer_call now domain records policy) w = length records
  demand (reinstall_call policy) w = length (Dict.values w.store.by_ip)
  demand _ w = 0

  -- A manager made on the routes of a session, and its methods while the counter of the handles does
  -- not wrap around.
  pub data Managed (config : DomainRouteStoreConfig) : State env sys fs json → Type 0 where
    made :
        (now : Moment) (engine : RoutingEngine env.IpNet) (files : fs.Fs)
        (routes : Routes env.IpNet sys.Os)
        → Reachable env sys routes
        → routes.table.next_handle < 2 ^ 64
        → Managed config (DomainRouting.new env sys fs json now config engine files routes)
    performed :
        {w : State env sys fs json} (c : ManagerCall)
        → w.routes.table.next_handle + demand c w < 2 ^ 64
        → Managed config w
        → Managed config (perform c w)

  perform-IsSound :
      (inj : IsInjective env sys) (config : DomainRouteStoreConfig) (k : ℕ) (c : ManagerCall)
      (w : State env sys fs json)
      → k + demand c w < 2 ^ 64
      → IsSound env sys fs json config k w
      → IsSound env sys fs json config (k + demand c w) (perform c w)
  unfolding perform
  perform-IsSound inj config k (rebuild_call now rules) w small h =
      grow env sys fs json config k (k + 0) (perform (rebuild_call now rules) w) (omega arith)
        (rebuild_rules-IsSound env sys fs json config k now rules w h)
  perform-IsSound inj config k (answer_call now domain records policy) w small h =
      on_dns_response-IsSound env sys fs json inj config k now domain records policy w small h
  perform-IsSound inj config k (expire_call now) w small h =
      grow env sys fs json config k (k + 0) (perform (expire_call now) w) (omega arith)
        (purge_expired-IsSound env sys fs json inj config k now w (omega arith) h)
  perform-IsSound inj config k (reset_call now) w small h =
      grow env sys fs json config k (k + 0) (perform (reset_call now) w) (omega arith)
        (clear-IsSound env sys fs json inj config k now w h)
  perform-IsSound inj config k (reinstall_call policy) w small h =
      reinstall_routes_from_cache-IsSound env sys fs json inj config k policy w small h
  perform-IsSound inj config k (load_call now) w small h =
      grow env sys fs json config k (k + 0) (perform (load_call now) w) (omega arith)
        (load_persisted-IsSound env sys fs json config k now w h)

  Managed-IsSound :
      (inj : IsInjective env sys) (config : DomainRouteStoreConfig) (w : State env sys fs json)
      → Managed config w
      → (k : ℕ) × IsSound env sys fs json config k w
  unfolding DomainRouting.new
  Managed-IsSound inj config w (made now engine files routes reach small) =
      let (t, b) = Reachable-Tracks env sys inj routes reach in
      (
        routes.table.next_handle,
        load_persisted-IsSound env sys fs json config routes.table.next_handle now _
            (Reachable-IsValid config (Store.new config) start, refl, (t, b, omega arith)),
      )
  Managed-IsSound inj config w (performed {w = v} c small m) =
      let (k, (valid, same, (t, b, le))) = Managed-IsSound inj config v m in
      (
        v.routes.table.next_handle + demand c v,
        perform-IsSound inj config v.routes.table.next_handle c v small
            (valid, same, (t, b, omega arith)),
      )

  -- Whatever answers, expiries, reloads and failures of the system a manager has been through: its
  -- store is valid for the configuration that it was made with, and each route that the session
  -- keeps for an address is the host route of that address in the table, under a handle that is in
  -- neither of the session's lists, and is no block. The host networks of different addresses differ.
  pub Managed-Owns :
      (inj : IsInjective env sys) (config : DomainRouteStoreConfig) (w : State env sys fs json)
      (ip : IpAddr) (d : DomainRouteHandle)
      → Managed config w
      → Dict.lookup ip w.routes.session.domain_routes ≡ some d
      → IsValid config w.store × Owns env sys w.routes ip d
  Managed-Owns inj config w ip d m there =
      let (k, (valid, same, (t, b, le))) = Managed-IsSound inj config w m in (valid, t ip d there)
