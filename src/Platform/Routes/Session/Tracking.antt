-- ===== src/Platform/Routes/Session/Tracking.antt =====
-- Which installed routes the session of `crates/routeguard-platform/src/routes.rs` knows.
use route_guard.Prelude.{
  ℕ, ◌+◌, ◌^◌, ◌≡◌, ◌<◌, ◌≤◌, refl, false, some, List, [], ◌∷◌, ◌++◌, nat_beq, nat_eq, contains,
  Bool-cases, Option-cases, inl, inr, arith, All, All-append, ◌||◌,
}
use route_guard.Prelude.Dict
use route_guard.Prelude.Dict.{lookup-insert, lookup-remove}
use route_guard.Prelude.Result.{and_then-keeps}
use route_guard.Core.Net.{Platform, IpAddr, ip_eq, ip_beq_iff}
use route_guard.Core.Config.{block, target_beq}
use route_guard.Platform.Routes
use route_guard.Platform.Routes.{
  System, Routes, RouteTable, RouteError, RouteHandle, SessionRoutes, DomainRouteHandle, Done,
}
use route_guard.Platform.Routes.Handles.{
  lookup-remove_route, lookup-remove_routes-others, lookup-remove_routes-fewer,
  next_handle-remove_routes,
}
use route_guard.Platform.Routes.Session
use route_guard.Platform.Routes.Session.{State}

contains-snoc :
    (hs : List RouteHandle) (x h : RouteHandle)
    → contains (hs ++ x ∷ []) h ≡ (contains hs h || nat_beq x h)
contains-snoc [] x h = ground arith
contains-snoc (y ∷ hs) x h = ground (arith, contains-snoc hs x h)

All-lt-weaken :
    (hs : List RouteHandle) (a b : ℕ) → a ≤ b → All (λ h. h < a) hs → All (λ h. h < b) hs
All-lt-weaken [] a b le h = tt
All-lt-weaken (x ∷ hs) a b le h = (omega (arith, h.0), All-lt-weaken hs a b le h.1)

pub contains-above : (hs : List RouteHandle) (n : ℕ) → All (λ h. h < n) hs → contains hs n ≡ false
contains-above [] n h = refl
contains-above (x ∷ hs) n h = ground (arith, h.0, contains-above hs n h.1)

module _ (env : Platform) (sys : System env.IpNet) where
  -- A domain's route is the host route of its address, under a handle of its own.
  abbrev pub Owns : State env sys → IpAddr → DomainRouteHandle → Type 0
  Owns w ip d =
      (Dict.lookup d.route_handle w.table.routes ≡ some (env.net_of_ip ip))
      × (contains w.session.wg_handles d.route_handle ≡ false)
      × (contains w.session.split_handles d.route_handle ≡ false)
      × (target_beq d.target block ≡ false)

  abbrev pub Tracks : State env sys → Type 0
  Tracks w =
      (ip : IpAddr) (d : DomainRouteHandle)
      → Dict.lookup ip w.session.domain_routes ≡ some d
      → Owns w ip d

  -- All handles have been given out.
  abbrev pub IsBelow : State env sys → Type 0
  IsBelow w =
      ((h : RouteHandle) (n : env.IpNet)
        → Dict.lookup h w.table.routes ≡ some n
        → h < w.table.next_handle)
      × All (λ h. h < w.table.next_handle) w.session.wg_handles
      × All (λ h. h < w.table.next_handle) w.session.split_handles

  -- So far at most `k` handles.
  abbrev pub IsTracked : ℕ → State env sys → Type 0
  IsTracked k w = Tracks w × IsBelow w × (w.table.next_handle ≤ k)

  abbrev pub IsInjective : Type 0
  IsInjective = (a b : IpAddr) → env.net_of_ip a ≡ env.net_of_ip b → a ≡ b

  pub remove_domain_route-IsTracked :
      (inj : IsInjective) (k : ℕ) (ip : IpAddr) (w : State env sys)
      → IsTracked k w
      → IsTracked k (Session.remove_domain_route env sys ip w).0
  unfolding Session.remove_domain_route
  remove_domain_route-IsTracked inj k ip w (t, b, le) =
      elim (Option-cases (Dict.lookup ip w.session.domain_routes)) [
        | inl gone ↦ rw gone (t, b, le)
        | inr (d, there) ↦
            let (same, _) = lookup-remove_route env sys d.route_handle 0 w.table in
            rw there (
              λ j e h. ground (
                arith,
                t ip d there,
                t j e,
                h,
                lookup-remove ip j w.session.domain_routes,
                ip_beq_iff ip j,
                inj ip j,
                lookup-remove_route env sys d.route_handle e.route_handle w.table,
              ),
              (
                λ h n found.
                    ground (arith, b.0 h n, lookup-remove_route env sys d.route_handle h w.table),
                All-lt-weaken w.session.wg_handles _ _ (omega (arith, same)) b.1,
                All-lt-weaken w.session.split_handles _ _ (omega (arith, same)) b.2,
              ),
              omega (arith, same),
            )
      ]

  -- The loop over the addresses, also when it stops at an error.
  pub remove_domain_routes-IsTracked :
      (inj : IsInjective) (k : ℕ) (ips : List IpAddr) (w : State env sys)
      → IsTracked k w
      → IsTracked k (Session.remove_domain_routes env sys ips w).0
  unfolding Session.remove_domain_routes
  remove_domain_routes-IsTracked inj k [] w h = h
  remove_domain_routes-IsTracked inj k (ip ∷ ips) w h =
      and_then-keeps (IsTracked k) (IsTracked k) (Session.remove_domain_route env sys ip w)
        (λ w' u. Session.remove_domain_routes env sys ips w') (λ w' g. g)
        (remove_domain_route-IsTracked inj k ip w h)
        (λ w' u g. remove_domain_routes-IsTracked inj k ips w' g)

  -- A session without some of its handles, on a table without routes of theirs.
  pub clear_split-IsTracked :
      (k : ℕ) (w : State env sys) → IsTracked k w → IsTracked k (Session.clear_split env sys w).0
  unfolding Session.clear_split
  clear_split-IsTracked k w (t, b, le) =
      let hs : List RouteHandle = w.session.split_handles in
      let same = next_handle-remove_routes env sys hs w.table in
      (
        λ ip d h.
            let (a, c, e, f) = t ip d h in
            ground (arith, lookup-remove_routes-others env sys hs d.route_handle w.table e),
        (
          λ h n found.
              omega
                (arith, same, b.0 h n (lookup-remove_routes-fewer env sys hs h n w.table found)),
          All-lt-weaken w.session.wg_handles _ _ (omega (arith, same)) b.1,
          tt,
        ),
        omega (arith, same),
      )

  pub clear_wg-IsTracked :
      (k : ℕ) (w : State env sys) → IsTracked k w → IsTracked k (Session.clear_wg env sys w).0
  clear_wg-IsTracked k w (t, b, le) =
      let hs : List RouteHandle = w.session.wg_handles in
      let same = next_handle-remove_routes env sys hs w.table in
      (
        λ ip d h.
            let (a, c, e, f) = t ip d h in
            ground (arith, lookup-remove_routes-others env sys hs d.route_handle w.table c),
        (
          λ h n found.
              omega
                (arith, same, b.0 h n (lookup-remove_routes-fewer env sys hs h n w.table found)),
          tt,
          All-lt-weaken w.session.split_handles _ _ (omega (arith, same)) b.2,
        ),
        omega (arith, same),
      )

  -- The table of a session has given out a handle, for a route that is there or not.
  abbrev pub allocated : sys.Os → State env sys → State env sys
  allocated os w = record w { table = record (Routes.alloc_handle env sys w.table) { os = os } }

  abbrev pub placed : sys.Os → env.IpNet → State env sys → State env sys
  placed os net w =
      let t : RouteTable env.IpNet sys.Os = w.table in
      record w {
        table = record (Routes.alloc_handle env sys t) {
          os = os;
          routes = Dict.insert t.next_handle net t.routes;
        };
      }

  pub allocated-IsTracked :
      (k : ℕ) (os : sys.Os) (w : State env sys)
      → k + 1 < 2 ^ 64
      → IsTracked k w
      → IsTracked (k + 1) (allocated os w)
  allocated-IsTracked k os w small (t, b, le) = (
    t,
    (
      λ h n found. omega (arith, b.0 h n found),
      All-lt-weaken w.session.wg_handles _ _ (omega arith) b.1,
      All-lt-weaken w.session.split_handles _ _ (omega arith) b.2,
    ),
    omega arith,
  )

  pub placed-IsTracked :
      (k : ℕ) (os : sys.Os) (net : env.IpNet) (w : State env sys)
      → k + 1 < 2 ^ 64
      → IsTracked k w
      → IsTracked (k + 1) (placed os net w)
  placed-IsTracked k os net w small (t, b, le) = (
    λ ip d h.
        let (a, c, e, f) = t ip d h in
        let old = b.0 d.route_handle (env.net_of_ip ip) a in
        ground (arith, lookup-insert w.table.next_handle d.route_handle net w.table.routes),
    (
      λ h n found. ground (arith, b.0 h n, lookup-insert w.table.next_handle h net w.table.routes),
      All-lt-weaken w.session.wg_handles _ _ (omega arith) b.1,
      All-lt-weaken w.session.split_handles _ _ (omega arith) b.2,
    ),
    omega arith,
  )

  -- The new handle is put down in one of the two lists, or for a domain.
  abbrev with_wg : RouteHandle → State env sys → State env sys
  with_wg h w = record w {
    session = record (w.session) { wg_handles = w.session.wg_handles ++ h ∷ [] };
  }

  abbrev with_split : RouteHandle → State env sys → State env sys
  with_split h w = record w {
    session = record (w.session) { split_handles = w.session.split_handles ++ h ∷ [] };
  }

  placed_wg-IsTracked :
      (k : ℕ) (os : sys.Os) (net : env.IpNet) (w : State env sys)
      → k + 1 < 2 ^ 64
      → IsTracked k w
      → IsTracked (k + 1) (with_wg w.table.next_handle (placed os net w))
  placed_wg-IsTracked k os net w small h =
      let (t, b, le) = placed-IsTracked k os net w small h in
      (
        λ ip d found.
            let (a, c, e, f) = t ip d found in
            let old = h.1.0 d.route_handle (env.net_of_ip ip) (h.0 ip d found).0 in
            (
              a,
              ground (arith, contains-snoc w.session.wg_handles w.table.next_handle d.route_handle),
              e,
              f,
            ),
        (b.0, All-append _ w.session.wg_handles _ b.1 (omega (arith, h.2), tt), b.2),
        le,
      )

  placed_split-IsTracked :
      (k : ℕ) (os : sys.Os) (net : env.IpNet) (w : State env sys)
      → k + 1 < 2 ^ 64
      → IsTracked k w
      → IsTracked (k + 1) (with_split w.table.next_handle (placed os net w))
  placed_split-IsTracked k os net w small h =
      let (t, b, le) = placed-IsTracked k os net w small h in
      (
        λ ip d found.
            let (a, c, e, f) = t ip d found in
            let old = h.1.0 d.route_handle (env.net_of_ip ip) (h.0 ip d found).0 in
            (
              a,
              c,
              ground
                  (arith, contains-snoc w.session.split_handles w.table.next_handle d.route_handle),
              f,
            ),
        (b.0, b.1, All-append _ w.session.split_handles _ b.2 (omega (arith, h.2), tt)),
        le,
      )

  pub push_wg-IsTracked :
      (k : ℕ) (net : env.IpNet) (if_index metric : ℕ) (w : State env sys)
      → k + 1 < 2 ^ 64
      → IsTracked k w
      → IsTracked
          (k + 1)
          (Session.push_wg env sys (Routes.add_route env sys net if_index metric) w).0
  unfolding Routes.add_route
  push_wg-IsTracked k net if_index metric w small h =
      let (os, status) = sys.create_entry net if_index metric w.table.os in
      elim (Bool-cases (nat_beq status 0)) [
        | inl done ↦ rw done (placed_wg-IsTracked k os net w small h)
        | inr failed ↦ rw failed (allocated-IsTracked k os w small h)
      ]

  pub push_split-IsTracked :
      (k : ℕ) (net : env.IpNet) (if_index metric : ℕ) (w : State env sys)
      → k + 1 < 2 ^ 64
      → IsTracked k w
      → IsTracked (k + 1) (Session.push_split env sys net if_index metric w).0
  unfolding Session.push_split Routes.add_route
  push_split-IsTracked k net if_index metric w small h =
      let (os, status) = sys.create_entry net if_index metric w.table.os in
      elim (Bool-cases (nat_beq status 0)) [
        | inl done ↦ rw done (placed_split-IsTracked k os net w small h)
        | inr failed ↦ rw failed (allocated-IsTracked k os w small h)
      ]
