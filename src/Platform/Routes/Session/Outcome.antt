-- ===== src/Platform/Routes/Session/Outcome.antt =====
-- What a call of `SessionRoutes` in `crates/routeguard-platform/src/routes.rs` has done when it gives
-- no error.
use route_guard.Prelude.{
  ◌≡◌, refl, true, false, none, some, List, [], ◌∷◌, nat_beq, nat_eq, if◌then◌else◌, contains,
  Bool-cases, Option-cases, inl, inr, arith,
}
use route_guard.Prelude.Dict
use route_guard.Prelude.Dict.{lookup-insert, lookup-remove}
use route_guard.Prelude.Result.{is_ok}
use route_guard.Core.Net.{Platform, IpAddr, ip_eq, ip_beq, ip_beq_iff}
use route_guard.Platform.Routes
use route_guard.Platform.Routes.{
  System, Routes, RouteTable, RouteHandle, DomainRouteHandle, metric_of, keeps, SessionRoutes,
}
use route_guard.Platform.Routes.Handles.{lookup-remove_route, lookup-remove_routes}
use route_guard.Platform.Routes.Session
use route_guard.Platform.Routes.Session.{State}

module _ (env : Platform) (sys : System env.IpNet) where
  -- No more is in the table than before.
  pub remove_domain_route-none :
      (ip : IpAddr) (h : RouteHandle) (w : State env sys)
      → Dict.lookup h w.table.routes ≡ none
      → Dict.lookup h (Session.remove_domain_route env sys ip w).0.table.routes ≡ none
  unfolding Session.remove_domain_route
  remove_domain_route-none ip h w g = elim (Option-cases (Dict.lookup ip w.session.domain_routes)) [
    | inl gone ↦ rw gone g
    | inr (d, there) ↦
        rw there (ground (arith, g, lookup-remove_route env sys d.route_handle h w.table))
  ]

  pub lookup-remove_domain_route :
      (ip j : IpAddr) (w : State env sys)
      → Dict.lookup j (Session.remove_domain_route env sys ip w).0.session.domain_routes
        ≡ (if ip_beq ip j then none else Dict.lookup j w.session.domain_routes)
  unfolding Session.remove_domain_route
  lookup-remove_domain_route ip j w =
      ground (arith, lookup-remove ip j w.session.domain_routes, ip_beq_iff ip j)

  pub remove_domain_route-handle :
      (ip : IpAddr) (d : DomainRouteHandle) (w : State env sys)
      → Dict.lookup ip w.session.domain_routes ≡ some d
      → Dict.lookup d.route_handle (Session.remove_domain_route env sys ip w).0.table.routes ≡ none
  unfolding Session.remove_domain_route
  remove_domain_route-handle ip d w h =
      rw h (ground (arith, lookup-remove_route env sys d.route_handle d.route_handle w.table))

  pub remove_domain_route-session :
      (ip : IpAddr) (w : State env sys)
      → ((Session.remove_domain_route env sys ip w).0.session.wg_handles ≡ w.session.wg_handles)
        × ((Session.remove_domain_route env sys ip w).0.session.split_handles
            ≡ w.session.split_handles)
  unfolding Session.remove_domain_route
  remove_domain_route-session ip w = ground arith

  pub remove_domain_routes-session :
      (ips : List IpAddr) (w : State env sys)
      → ((Session.remove_domain_routes env sys ips w).0.session.wg_handles ≡ w.session.wg_handles)
        × ((Session.remove_domain_routes env sys ips w).0.session.split_handles
            ≡ w.session.split_handles)
  unfolding Session.remove_domain_routes
  remove_domain_routes-session [] w = (refl, refl)
  remove_domain_routes-session (ip ∷ ips) w = ground (
    arith,
    remove_domain_route-session ip w,
    remove_domain_routes-session ips (Session.remove_domain_route env sys ip w).0,
  )

  pub remove_domain_routes-fewer :
      (ips : List IpAddr) (h : RouteHandle) (w : State env sys)
      → Dict.lookup h w.table.routes ≡ none
      → Dict.lookup h (Session.remove_domain_routes env sys ips w).0.table.routes ≡ none
  unfolding Session.remove_domain_routes
  remove_domain_routes-fewer [] h w g = g
  remove_domain_routes-fewer (ip ∷ ips) h w g = ground (
    arith,
    g,
    remove_domain_route-none ip h w g,
    remove_domain_routes-fewer ips h (Session.remove_domain_route env sys ip w).0,
  )

  pub lookup-remove_domain_routes :
      (ips : List IpAddr) (j : IpAddr) (w : State env sys)
      → is_ok (Session.remove_domain_routes env sys ips w).1 ≡ true
      → Dict.lookup j (Session.remove_domain_routes env sys ips w).0.session.domain_routes
        ≡ (if contains ips j then none else Dict.lookup j w.session.domain_routes)
  unfolding Session.remove_domain_routes
  lookup-remove_domain_routes [] j w h = refl
  lookup-remove_domain_routes (ip ∷ ips) j w h = ground (
    arith,
    lookup-remove_domain_route ip j w,
    lookup-remove_domain_routes ips j (Session.remove_domain_route env sys ip w).0,
  )

  pub remove_domain_routes-handles :
      (ips : List IpAddr) (j : IpAddr) (d : DomainRouteHandle) (w : State env sys)
      → is_ok (Session.remove_domain_routes env sys ips w).1 ≡ true
      → contains ips j ≡ true
      → Dict.lookup j w.session.domain_routes ≡ some d
      → Dict.lookup d.route_handle (Session.remove_domain_routes env sys ips w).0.table.routes
        ≡ none
  unfolding Session.remove_domain_routes
  remove_domain_routes-handles [] j d w h c there = absurd (ground arith)
  remove_domain_routes-handles (ip ∷ ips) j d w h c there =
      let v = (Session.remove_domain_route env sys ip w).0 in
      elim (Bool-cases (ip_beq ip j)) [
        | inl same ↦
            let gone = remove_domain_route-handle j d w there in
            ground (arith, ip_beq_iff ip j, gone, remove_domain_routes-fewer ips d.route_handle v)
        | inr other ↦
            ground
              (arith, lookup-remove_domain_route ip j w, remove_domain_routes-handles ips j d v)
      ]

  -- The handle belongs to none of the domains.
  abbrev pub IsForeign : RouteHandle → State env sys → Type 0
  IsForeign h w =
      (ip : IpAddr) (d : DomainRouteHandle)
      → Dict.lookup ip w.session.domain_routes ≡ some d
      → nat_beq d.route_handle h ≡ false

  pub remove_domain_route-others :
      (ip : IpAddr) (h : RouteHandle) (w : State env sys)
      → IsForeign h w
      → Dict.lookup h (Session.remove_domain_route env sys ip w).0.table.routes
        ≡ Dict.lookup h w.table.routes
  unfolding Session.remove_domain_route
  remove_domain_route-others ip h w f =
      elim (Option-cases (Dict.lookup ip w.session.domain_routes)) [
        | inl gone ↦ rw gone refl
        | inr (d, there) ↦
            rw there
              (ground (arith, f ip d there, lookup-remove_route env sys d.route_handle h w.table))
      ]

  pub remove_domain_routes-others :
      (ips : List IpAddr) (h : RouteHandle) (w : State env sys)
      → IsForeign h w
      → Dict.lookup h (Session.remove_domain_routes env sys ips w).0.table.routes
        ≡ Dict.lookup h w.table.routes
  unfolding Session.remove_domain_routes
  remove_domain_routes-others [] h w f = refl
  remove_domain_routes-others (ip ∷ ips) h w f = ground (
    arith,
    remove_domain_route-others ip h w f,
    remove_domain_routes-others ips h (Session.remove_domain_route env sys ip w).0
        (λ j d g. f j d (ground (arith, g, lookup-remove_domain_route ip j w))),
  )

  pub clear_handles-routes :
      (h : RouteHandle) (w : State env sys)
      → is_ok (Session.clear_handles env sys w).1 ≡ true
      → Dict.lookup h (Session.clear_handles env sys w).0.table.routes ≡ (
          if contains w.session.split_handles h
          then none
          else if contains w.session.wg_handles h
          then none
          else Dict.lookup h w.table.routes)
  unfolding Session.clear_split
  clear_handles-routes h w ok_all =
      let t1 = (Routes.remove_routes env sys w.session.split_handles w.table).0 in
      ground (
        arith,
        ok_all,
        lookup-remove_routes env sys w.session.split_handles h w.table,
        lookup-remove_routes env sys w.session.wg_handles h t1,
      )

  pub clear_handles-session :
      (w : State env sys)
      → is_ok (Session.clear_handles env sys w).1 ≡ true
      → (Session.clear_handles env sys w).0.session
        ≡ record (w.session) { wg_handles = []; split_handles = []; wfp_filter_ids = [] }
  unfolding Session.clear_split
  clear_handles-session w ok_all = ground (arith, ok_all)

  -- The two steps of `clear` when neither fails.
  pub clear-steps :
      (w : State env sys)
      → is_ok (Session.clear env sys w).1 ≡ true
      → (is_ok (Session.clear_domain_routes env sys w).1 ≡ true)
        × (is_ok (Session.clear_handles env sys (Session.clear_domain_routes env sys w).0).1 ≡ true)
        × ((Session.clear env sys w).0
            ≡ (Session.clear_handles env sys (Session.clear_domain_routes env sys w).0).0)
  unfolding Session.clear
  clear-steps w h = ground (arith, h)
