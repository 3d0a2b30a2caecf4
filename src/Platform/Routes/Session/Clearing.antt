-- ===== src/Platform/Routes/Session/Clearing.antt =====
-- `SessionRoutes::clear` and `SessionRoutes::install_domain_route` in
-- `crates/routeguard-platform/src/routes.rs`, when they give no error.
use route_guard.Prelude.{
  ◌≡◌, ◌||◌, refl, Bool, true, false, none, some, List, [], ◌∷◌, nat_beq, nat_eq, if◌then◌else◌,
  contains, Bool-cases, inl, inr, arith,
}
use route_guard.Prelude.Dict
use route_guard.Prelude.Dict.{Dict, IsDistinct, contains-keys}
use route_guard.Prelude.Result.{is_ok}
use route_guard.Core.Net.{Platform, IpAddr, ip_eq, ip_beq_iff}
use route_guard.Platform.Routes.{System, RouteHandle, DomainRouteHandle}
use route_guard.Platform.Routes.Session
use route_guard.Platform.Routes.Session.{State}
use route_guard.Platform.Routes.Session.Outcome.{
  remove_domain_routes-session, lookup-remove_domain_routes, remove_domain_routes-handles,
  remove_domain_routes-others, clear_handles-routes, clear_handles-session, clear-steps,
}

abbrev pub domain_handles : Dict IpAddr DomainRouteHandle → List RouteHandle
domain_handles [] = []
domain_handles ((ip, d) ∷ m) = d.route_handle ∷ domain_handles m

lookup-domain_handles :
    (m : Dict IpAddr DomainRouteHandle) (h : RouteHandle) (ip : IpAddr) (d : DomainRouteHandle)
    → contains (domain_handles m) h ≡ false
    → Dict.lookup ip m ≡ some d
    → nat_beq d.route_handle h ≡ false
unfolding Dict.lookup
lookup-domain_handles [] h ip d c there = cc
lookup-domain_handles ((j, e) ∷ m) h ip d c there =
    ground (arith, c, there, lookup-domain_handles m h ip d)

domain_handles-lookup :
    (m : Dict IpAddr DomainRouteHandle) (h : RouteHandle)
    → IsDistinct m
    → contains (domain_handles m) h ≡ true
    → (ip : IpAddr) × (d : DomainRouteHandle) × (Dict.lookup ip m ≡ some d) × (d.route_handle ≡ h)
unfolding Dict.lookup
domain_handles-lookup [] h once c = absurd (ground arith)
domain_handles-lookup ((j, e) ∷ m) h once c = elim (Bool-cases (nat_beq e.route_handle h)) [
  | inl same ↦ (j, e, ground (arith, ip_beq_iff j j), ground (arith, same))
  | inr other ↦
      let (ip, d, there, which) = domain_handles-lookup m h once.1 (ground (arith, c, other)) in
      (ip, d, ground (arith, there, once.0, ip_beq_iff j ip), which)
]

module _ (env : Platform) (sys : System env.IpNet) where
  -- The session holds nothing any more.
  abbrev pub IsEmpty : State env sys → Type 0
  IsEmpty w =
      ((ip : IpAddr) → Dict.lookup ip w.session.domain_routes ≡ none)
      × (w.session.wg_handles ≡ [])
      × (w.session.split_handles ≡ [])
      × (w.session.wfp_filter_ids ≡ [])

  -- The handles of the session.
  abbrev pub is_held : RouteHandle → State env sys → Bool
  is_held h w =
      contains w.session.split_handles h
      || (contains w.session.wg_handles h || contains (domain_handles w.session.domain_routes) h)

  abbrev cleared_domains : State env sys → State env sys
  cleared_domains w = (Session.clear_domain_routes env sys w).0

  clear-domain-routes :
      (h : RouteHandle) (w : State env sys)
      → is_ok (Session.clear env sys w).1 ≡ true
      → Dict.lookup h (Session.clear env sys w).0.table.routes ≡ (
          if contains w.session.split_handles h
          then none
          else if contains w.session.wg_handles h
          then none
          else Dict.lookup h (cleared_domains w).table.routes)
  unfolding Session.clear_domain_routes
  clear-domain-routes h w ok_all =
      let (first, second, same) = clear-steps env sys w ok_all in
      let kept = remove_domain_routes-session env sys (Dict.keys w.session.domain_routes) w in
      ground (arith, same, kept, clear_handles-routes env sys h (cleared_domains w) second)

  -- After `clear` without an error, on routes by address without doubles, the session holds nothing;
  -- a handle that it held is not in the table, and every other handle is in the table as it was.
  pub clear-releases :
      (w : State env sys) (h : RouteHandle)
      → IsDistinct w.session.domain_routes
      → is_ok (Session.clear env sys w).1 ≡ true
      → IsEmpty (Session.clear env sys w).0
        × (Dict.lookup h (Session.clear env sys w).0.table.routes
            ≡ (if is_held h w then none else Dict.lookup h w.table.routes))
  unfolding Session.clear_domain_routes
  clear-releases w h once ok_all =
      let (first, second, same) = clear-steps env sys w ok_all in
      let ips : List IpAddr = Dict.keys w.session.domain_routes in
      (
        rw (same, clear_handles-session env sys (cleared_domains w) second)
            (
              λ ip. ground (
                arith,
                lookup-remove_domain_routes env sys ips ip w first,
                contains-keys ip w.session.domain_routes,
              ),
              refl,
              refl,
              refl,
            ),
        rw (clear-domain-routes h w ok_all)
            (elim (Bool-cases (contains (domain_handles w.session.domain_routes) h)) [
              | inl held ↦
                  let (ip, d, there, which) =
                    domain_handles-lookup w.session.domain_routes h once held in
                  ground (
                    arith,
                    held,
                    which,
                    remove_domain_routes-handles env sys ips ip d w first
                        (ground (arith, there, contains-keys ip w.session.domain_routes)) there,
                  )
              | inr foreign ↦ ground (
                arith,
                foreign,
                remove_domain_routes-others env sys ips h w (λ ip d there.
                    lookup-domain_handles w.session.domain_routes h ip d foreign there),
              )
            ]),
      )
