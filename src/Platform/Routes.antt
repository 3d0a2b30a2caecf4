-- ===== src/Platform/Routes.antt =====
-- `crates/routeguard-platform/src/routes.rs`: the table of installed routes and the routes of one
-- session. The calls of the system's routing table are arguments: a change of its state and a status.
-- A method that returns an error keeps the changes that it made before.
pub mod Session
pub mod Handles
use route_guard.Prelude.{
  ℕ, ◌+◌, ◌%◌, ◌^◌, ◌&&◌, Bool, true, false, Option, none, some, List, [], ◌∷◌, ◌++◌, nat_beq,
  nat_eq, leb, if◌then◌else◌, keep, length,
}
use route_guard.Prelude.Text.{Text, bytes}
use route_guard.Prelude.Dict
use route_guard.Prelude.Dict.{Dict}
use route_guard.Prelude.Result.{Result, ok, err, and_then}
use route_guard.Core.Net.{Platform, IpAddr, ip_eq, SocketAddr}
use route_guard.Core.Config.{RouteTarget, tunnel, bypass, block, target_beq}
use route_guard.Core.Policy.{PolicySnapshot}

-- `CreateIpForwardEntry2` and `DeleteIpForwardEntry2` on a state of the system, with their status.
pub record System (Net : Type 0) : Type 1 where
  pub Os : Type 0
  pub create_entry : Net → ℕ → ℕ → Os → Os × ℕ
  pub delete_entry : Net → Os → Os × ℕ

pub data RouteError : Type 0 where
  platform_error : ℕ → RouteError
  bad_cidr bad_dynamic_tunnel : Text → RouteError
  panicked : RouteError

abbrev pub Done : Type 0
Done = Result RouteError (Unit {0})

-- `RouteHandle`
abbrev pub RouteHandle : Type 0
RouteHandle = ℕ

-- `RouteTableManager`, with `NEXT_HANDLE` and the system.
pub record RouteTable (Net Os : Type 0) : Type 0 where
  pub os : Os
  pub next_handle : ℕ  -- u64
  pub routes : Dict RouteHandle Net

pub record DomainRouteHandle : Type 0 where
  pub ip : IpAddr
  pub route_handle : RouteHandle
  pub expires_at : ℕ  -- u64
  pub target : RouteTarget

pub record SessionRoutes : Type 0 where
  pub wg_handles : List RouteHandle
  pub split_handles : List RouteHandle
  pub domain_routes : Dict IpAddr DomainRouteHandle
  pub wfp_filter_ids : List ℕ

-- A session with the table that it is called with.
pub record Routes (Net Os : Type 0) : Type 0 where
  pub session : SessionRoutes
  pub table : RouteTable Net Os

-- `SessionRoutes::new`
abbrev pub new_routes : SessionRoutes
new_routes = record { wg_handles = []; split_handles = []; domain_routes = []; wfp_filter_ids = [] }

-- `target == Tunnel`
abbrev pub metric_of : RouteTarget → ℕ
metric_of target = if target_beq target tunnel then 100 else 1

-- Is the route that is there to stay?
abbrev pub keeps : DomainRouteHandle → RouteTarget → ℕ → Bool
keeps existing target expires_at =
    leb expires_at existing.expires_at && target_beq existing.target target

module _ (env : Platform) (sys : System env.IpNet) where
  abbrev pub Table : Type 0
  Table = RouteTable env.IpNet sys.Os

  -- `alloc_handle`
  abbrev pub alloc_handle : Table → Table
  alloc_handle t = record t { next_handle = (t.next_handle + 1) % 2 ^ 64 }

  abbrev pub created : RouteHandle → env.IpNet → Table → sys.Os × ℕ → Table × Result RouteError ℕ
  created handle net t (os, status) =
      if nat_beq status 0
      then (record t { os = os; routes = Dict.insert handle net t.routes }, ok handle)
      else (record t { os = os }, err (platform_error status))

  -- `add_route`
  unfoldable pub add_route : env.IpNet → ℕ → ℕ → Table → Table × Result RouteError ℕ
  add_route net if_index metric t =
      created t.next_handle net (alloc_handle t) (sys.create_entry net if_index metric t.os)

  -- `set_default_via_tunnel`, `add_bypass_route` and `add_host_route_outside_tunnel`
  abbrev pub set_default_via_tunnel : ℕ → env.IpNet → Table → Table × Result RouteError ℕ
  set_default_via_tunnel if_index net t = add_route net if_index 100 t

  abbrev pub add_bypass_route : env.IpNet → ℕ → Table → Table × Result RouteError ℕ
  add_bypass_route net if_index t = add_route net if_index 5 t

  abbrev pub add_host_route_outside_tunnel : env.IpNet → ℕ → Table → Table × Result RouteError ℕ
  add_host_route_outside_tunnel net if_index t = add_route net if_index 0 t

  -- The status 1168 says that there is no such route.
  abbrev pub deleted : Table → sys.Os × ℕ → Table × Done
  deleted t (os, status) =
      if nat_beq status 0
      then (record t { os = os }, ok tt)
      else if nat_beq status 1168
      then (record t { os = os }, ok tt)
      else (record t { os = os }, err (platform_error status))

  abbrev pub remove_found : Option env.IpNet → RouteHandle → Table → Table × Done
  remove_found none handle t = (t, ok tt)
  remove_found (some net) handle t =
      deleted (record t { routes = Dict.remove handle t.routes }) (sys.delete_entry net t.os)

  -- `remove_route`
  unfoldable pub remove_route : RouteHandle → Table → Table × Done
  remove_route handle t = remove_found (Dict.lookup handle t.routes) handle t

  -- `for h in handles.drain(..) { table.remove_route(h)?; }`
  unfoldable pub remove_routes : List RouteHandle → Table → Table × Done
  unfolding remove_route
  remove_routes [] t = (t, ok tt)
  remove_routes (h ∷ handles) t = and_then (remove_route h t) (λ t' u. remove_routes handles t')

  -- `for h in handles { let _ = self.remove_route(h); }`
  abbrev pub forget_routes : List RouteHandle → Table → Table
  forget_routes [] t = t
  forget_routes (h ∷ handles) t = forget_routes handles (remove_route h t).0

  -- `RouteTable::clear`
  unfoldable pub clear_table : Table → Table
  clear_table t = forget_routes (Dict.keys t.routes) t
