-- ===== src/Platform/Routes/Handles.antt =====
-- `crates/routeguard-platform/src/routes.rs`: what the methods of the table do to its handles.
use route_guard.Prelude.{
  ℕ, ◌+◌, ◌^◌, ◌≡◌, ◌<◌, refl, true, false, none, some, List, [], ◌∷◌, nat_beq, nat_beq_iff, nat_eq,
  if◌then◌else◌, contains, arith,
}
use route_guard.Prelude.Dict
use route_guard.Prelude.Dict.{lookup-insert, lookup-remove}
use route_guard.Prelude.Result.{ok, is_ok}
use route_guard.Core.Net.{Platform}
use route_guard.Platform.Routes
use route_guard.Platform.Routes.{System, RouteError, RouteHandle, platform_error, Done}

module _ (env : Platform) (sys : System env.IpNet) where
  abbrev Table : Type 0
  Table = Routes.Table env sys

  -- A handle is new, and with a status of nothing wrong it stands for the network.
  pub add_route-routes :
      (net : env.IpNet) (if_index metric : ℕ) (t : Table) (j : RouteHandle)
      → t.next_handle + 1 < 2 ^ 64
      → ((Routes.add_route env sys net if_index metric t).0.next_handle ≡ t.next_handle + 1)
        × (Dict.lookup j (Routes.add_route env sys net if_index metric t).0.routes ≡ (
            if is_ok (Routes.add_route env sys net if_index metric t).1
            then (if nat_beq t.next_handle j then some net else Dict.lookup j t.routes)
            else Dict.lookup j t.routes))
  unfolding Routes.add_route
  add_route-routes net if_index metric t j h =
      ground (arith, lookup-insert t.next_handle j net t.routes)

  pub add_route-eq-ok :
      (net : env.IpNet) (if_index metric : ℕ) (t t' : Table) (h : RouteHandle)
      → Routes.add_route env sys net if_index metric t ≡ (t', ok h)
      → h ≡ t.next_handle
  unfolding Routes.add_route
  add_route-eq-ok net if_index metric t t' h e = ground arith

  -- The handle is gone, whatever the system says.
  pub lookup-remove_route :
      (h j : RouteHandle) (t : Table)
      → ((Routes.remove_route env sys h t).0.next_handle ≡ t.next_handle)
        × (Dict.lookup j (Routes.remove_route env sys h t).0.routes
            ≡ (if nat_beq h j then none else Dict.lookup j t.routes))
  unfolding Routes.remove_route
  lookup-remove_route h j t = ground (arith, lookup-remove h j t.routes, nat_beq_iff h j)

  -- Removing many leaves every other handle, also when it stops at an error.
  pub lookup-remove_routes-others :
      (hs : List RouteHandle) (j : RouteHandle) (t : Table)
      → contains hs j ≡ false
      → ((Routes.remove_routes env sys hs t).0.next_handle ≡ t.next_handle)
        × (Dict.lookup j (Routes.remove_routes env sys hs t).0.routes ≡ Dict.lookup j t.routes)
  unfolding Routes.remove_routes
  lookup-remove_routes-others [] j t h = (refl, refl)
  lookup-remove_routes-others (i ∷ hs) j t h = ground (
    arith,
    lookup-remove_route i j t,
    lookup-remove_routes-others hs j (Routes.remove_route env sys i t).0 (ground arith),
  )

  -- When nothing fails, exactly the given handles are gone.
  pub lookup-remove_routes :
      (hs : List RouteHandle) (j : RouteHandle) (t : Table)
      → is_ok (Routes.remove_routes env sys hs t).1 ≡ true
      → Dict.lookup j (Routes.remove_routes env sys hs t).0.routes
        ≡ (if contains hs j then none else Dict.lookup j t.routes)
  unfolding Routes.remove_routes
  lookup-remove_routes [] j t h = refl
  lookup-remove_routes (i ∷ hs) j t h = ground (
    arith,
    lookup-remove_route i j t,
    lookup-remove_routes hs j (Routes.remove_route env sys i t).0,
  )

  -- Nothing comes into the table.
  pub lookup-remove_routes-fewer :
      (hs : List RouteHandle) (j : RouteHandle) (n : env.IpNet) (t : Table)
      → Dict.lookup j (Routes.remove_routes env sys hs t).0.routes ≡ some n
      → Dict.lookup j t.routes ≡ some n
  unfolding Routes.remove_routes
  lookup-remove_routes-fewer [] j n t h = h
  lookup-remove_routes-fewer (i ∷ hs) j n t h = ground (
    arith,
    lookup-remove_route i j t,
    lookup-remove_routes-fewer hs j n (Routes.remove_route env sys i t).0,
  )

  pub next_handle-remove_routes :
      (hs : List RouteHandle) (t : Table)
      → (Routes.remove_routes env sys hs t).0.next_handle ≡ t.next_handle
  unfolding Routes.remove_routes
  next_handle-remove_routes [] t = refl
  next_handle-remove_routes (i ∷ hs) t = ground (
    arith,
    lookup-remove_route i 0 t,
    next_handle-remove_routes hs (Routes.remove_route env sys i t).0,
  )
