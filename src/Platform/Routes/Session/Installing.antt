-- ===== src/Platform/Routes/Session/Installing.antt =====
-- The installing methods of `SessionRoutes` in `crates/routeguard-platform/src/routes.rs`, and the
-- handles that they give out.
use route_guard.Prelude.{
  ℕ, ◌+◌, ◌^◌, ◌≡◌, ◌<◌, ◌≤◌, refl, false, Option, none, some, List, [], ◌∷◌, length, nat_beq,
  nat_eq, Bool-cases, Option-cases, inl, inr, arith,
}
use route_guard.Prelude.Text.{Text, bytes}
use route_guard.Prelude.Dict
use route_guard.Prelude.Dict.{lookup-insert, lookup-remove}
use route_guard.Prelude.Result.{and_then-keeps}
use route_guard.Core.Net.{Platform, IpAddr, ip_eq, ip_beq, ip_beq_iff}
use route_guard.Core.Config.{RouteTarget, tunnel, bypass, block, target_beq}
use route_guard.Core.Policy.{PolicySnapshot}
use route_guard.Platform.Routes
use route_guard.Platform.Routes.{
  System, Routes, RouteTable, RouteError, RouteHandle, DomainRouteHandle, bad_cidr,
  bad_dynamic_tunnel, new_routes, metric_of, keeps,
}
use route_guard.Platform.Routes.Session
use route_guard.Platform.Routes.Session.{State}
use route_guard.Platform.Routes.Session.Tracking.{
  contains-above, IsTracked, IsInjective, placed-IsTracked, allocated-IsTracked,
  push_split-IsTracked, clear_split-IsTracked, remove_domain_route-IsTracked,
}

abbrev domain_handle : IpAddr → RouteTarget → ℕ → RouteHandle → DomainRouteHandle
domain_handle ip target expires_at h = record {
  ip = ip;
  route_handle = h;
  expires_at = expires_at;
  target = target;
}

module _ (env : Platform) (sys : System env.IpNet) where
  pub weaken : (k m : ℕ) (w : State env sys) → k ≤ m → IsTracked env sys k w → IsTracked env sys m w
  weaken k m w le h = (h.0, h.1, omega (arith, h.2))

  -- The route of a domain that is no block.
  install_on-IsTracked :
      (k : ℕ) (ip : IpAddr) (target : RouteTarget) (if_index expires_at : ℕ) (w : State env sys)
      → target_beq target block ≡ false
      → k + 1 < 2 ^ 64
      → IsTracked env sys k w
      → IsTracked env sys (k + 1) (Session.install_on env sys ip target if_index expires_at w).0
  unfolding Routes.add_route
  install_on-IsTracked k ip target if_index expires_at w open_target small h =
      let net = env.net_of_ip ip in
      let (os, status) = sys.create_entry net if_index (metric_of target) w.table.os in
      elim (Bool-cases (nat_beq status 0)) [
        | inl done ↦
            let (t, b, le) = placed-IsTracked env sys k os net w small h in
            rw done (
              λ j d found.
                  let stored =
                    lookup-insert ip j (domain_handle ip target expires_at w.table.next_handle)
                      w.session.domain_routes in
                  elim (Bool-cases (ip_beq ip j)) [
                    | inl same ↦
                        let entry : domain_handle ip target expires_at w.table.next_handle ≡ d =
                          ground (arith, stored) in
                        ground (
                          arith,
                          entry,
                          ip_beq_iff ip j,
                          lookup-insert w.table.next_handle w.table.next_handle net w.table.routes,
                          contains-above w.session.wg_handles w.table.next_handle h.1.1,
                          contains-above w.session.split_handles w.table.next_handle h.1.2,
                        )
                    | inr other ↦ t j d (ground (arith, stored))
                  ],
              b,
              le,
            )
        | inr failed ↦ rw failed (allocated-IsTracked env sys k os w small h)
      ]

  install_fresh-IsTracked :
      (k : ℕ) (ip : IpAddr) (target : RouteTarget) (tunnel_if physical_if expires_at : ℕ)
      (w : State env sys)
      → k + 1 < 2 ^ 64
      → IsTracked env sys k w
      → IsTracked env sys
          (k + 1)
          (Session.install_fresh env sys ip target tunnel_if physical_if expires_at w).0
  install_fresh-IsTracked k ip bypass tunnel_if physical_if expires_at w small h =
      install_on-IsTracked k ip bypass physical_if expires_at w refl small h
  install_fresh-IsTracked k ip tunnel tunnel_if physical_if expires_at w small h =
      install_on-IsTracked k ip tunnel tunnel_if expires_at w refl small h
  install_fresh-IsTracked k ip block tunnel_if physical_if expires_at w small h =
      weaken k (k + 1) w (omega arith) h

  pub install_domain_route-IsTracked :
      (inj : IsInjective env sys) (k : ℕ) (ip : IpAddr) (target : RouteTarget)
      (tunnel_if physical_if expires_at : ℕ) (w : State env sys)
      → k + 1 < 2 ^ 64
      → IsTracked env sys k w
      → IsTracked env sys
          (k + 1)
          (Session.install_domain_route env sys ip target tunnel_if physical_if expires_at w).0
  unfolding Session.install_domain_route
  install_domain_route-IsTracked inj k ip target tunnel_if physical_if expires_at w small h =
      elim (Option-cases (Dict.lookup ip w.session.domain_routes)) [
        | inl none_yet ↦
            rw none_yet
              (install_fresh-IsTracked k ip target tunnel_if physical_if expires_at w small h)
        | inr (d, there) ↦ elim (Bool-cases (keeps d target expires_at)) [
          | inl stays ↦ rw (there, stays) (weaken k (k + 1) w (omega arith) h)
          | inr replaced ↦
              rw (there, replaced)
                (and_then-keeps (IsTracked env sys k) (IsTracked env sys (k + 1))
                  (Session.remove_domain_route env sys ip w)
                  (λ w' u.
                    Session.install_fresh env sys ip target tunnel_if physical_if expires_at w')
                  (λ w' g. weaken k (k + 1) w' (omega arith) g)
                  (remove_domain_route-IsTracked env sys inj k ip w h)
                  (λ w' u g.
                    install_fresh-IsTracked k ip target tunnel_if physical_if expires_at w' small
                      g))
        ]
      ]

  push_parsed-IsTracked :
      (net : Option env.IpNet) (e : RouteError) (k if_index metric : ℕ) (w : State env sys)
      → k + 1 < 2 ^ 64
      → IsTracked env sys k w
      → IsTracked env sys (k + 1) (Session.push_parsed env sys net e if_index metric w).0
  push_parsed-IsTracked none e k if_index metric w small h = weaken k (k + 1) w (omega arith) h
  push_parsed-IsTracked (some net) e k if_index metric w small h =
      push_split-IsTracked env sys k net if_index metric w small h

  -- The loops of `install_split_routes`.
  push_all-IsTracked :
      (bad : Text → RouteError) (cidrs : List Text) (k if_index metric : ℕ) (w : State env sys)
      → k + length cidrs < 2 ^ 64
      → IsTracked env sys k w
      → IsTracked env sys
          (k + length cidrs)
          (Session.push_all env sys bad cidrs if_index metric w).0
  unfolding Session.push_all
  push_all-IsTracked bad [] k if_index metric w small h = weaken k (k + 0) w (omega arith) h
  push_all-IsTracked bad (cidr ∷ cidrs) k if_index metric w small h =
      and_then-keeps (IsTracked env sys (k + 1)) (IsTracked env sys (k + length (cidr ∷ cidrs)))
        (Session.push_parsed env sys (env.parse_net cidr) (bad cidr) if_index metric w)
        (λ w' u. Session.push_all env sys bad cidrs if_index metric w')
        (λ w' g. weaken (k + 1) _ w' (omega arith) g)
        (push_parsed-IsTracked (env.parse_net cidr) (bad cidr) k if_index metric w (omega arith) h)
        (λ w' u g.
          weaken (k + 1 + length cidrs) (k + length (cidr ∷ cidrs))
            (Session.push_all env sys bad cidrs if_index metric w').0 (omega arith)
            (push_all-IsTracked bad cidrs (k + 1) if_index metric w' (omega arith) g))

  push_default-IsTracked :
      (net : env.IpNet) (k tunnel_if physical_if : ℕ) (w : State env sys)
      → k + 2 < 2 ^ 64
      → IsTracked env sys k w
      → IsTracked env sys (k + 2) (Session.push_default env sys net tunnel_if physical_if w).0
  push_default-IsTracked net k tunnel_if physical_if w small h =
      and_then-keeps (IsTracked env sys (k + 1)) (IsTracked env sys (k + 2))
        (Session.push_split env sys net physical_if 1 w)
        (λ w' u. Session.push_split env sys net tunnel_if 100 w')
        (λ w' g. weaken (k + 1) (k + 2) w' (omega arith) g)
        (push_split-IsTracked env sys k net physical_if 1 w (omega arith) h)
        (λ w' u g.
          weaken (k + 1 + 1) (k + 2) (Session.push_split env sys net tunnel_if 100 w').0
            (omega arith)
            (push_split-IsTracked env sys (k + 1) net tunnel_if 100 w' (omega arith) g))

  push_v4-IsTracked :
      (net : Option env.IpNet) (k tunnel_if physical_if : ℕ) (w : State env sys)
      → k + 2 < 2 ^ 64
      → IsTracked env sys k w
      → IsTracked env sys (k + 2) (Session.push_v4 env sys net tunnel_if physical_if w).0
  push_v4-IsTracked none k tunnel_if physical_if w small h = weaken k (k + 2) w (omega arith) h
  push_v4-IsTracked (some net) k tunnel_if physical_if w small h =
      push_default-IsTracked net k tunnel_if physical_if w small h

  push_v6-IsTracked :
      (net : Option env.IpNet) (k tunnel_if physical_if : ℕ) (w : State env sys)
      → k + 2 < 2 ^ 64
      → IsTracked env sys k w
      → IsTracked env sys (k + 2) (Session.push_v6 env sys net tunnel_if physical_if w).0
  push_v6-IsTracked none k tunnel_if physical_if w small h = weaken k (k + 2) w (omega arith) h
  push_v6-IsTracked (some net) k tunnel_if physical_if w small h =
      push_default-IsTracked net k tunnel_if physical_if w small h

  -- Four default routes, and one for each network of the policy.
  abbrev pub split_count : PolicySnapshot → ℕ
  split_count policy = 4 + length policy.bypass_cidrs + length policy.dynamic_tunnel_hosts

  install_between-IsTracked :
      (tunnel_if physical_if : Option ℕ) (policy : PolicySnapshot) (k : ℕ) (w : State env sys)
      → k + split_count policy < 2 ^ 64
      → IsTracked env sys k w
      → IsTracked env sys
          (k + split_count policy)
          (Session.install_between env sys tunnel_if physical_if policy w).0
  install_between-IsTracked none physical policy k w small h = weaken k _ w (omega arith) h
  install_between-IsTracked (some t) none policy k w small h = weaken k _ w (omega arith) h
  install_between-IsTracked (some t) (some p) policy k w small h =
      let n : ℕ = k + split_count policy in
      let bypassed : ℕ = k + 2 + 2 + length policy.bypass_cidrs in
      and_then-keeps (IsTracked env sys (k + 2)) (IsTracked env sys n)
        (Session.push_v4 env sys (env.parse_net (bytes "0.0.0.0/0")) t p w)
        (λ w1 u. Session.install_after_v4 env sys t p policy w1)
        (λ w1 g. weaken (k + 2) n w1 (omega arith) g)
        (push_v4-IsTracked (env.parse_net (bytes "0.0.0.0/0")) k t p w (omega arith) h)
        (λ w1 u g1.
          and_then-keeps (IsTracked env sys (k + 2 + 2)) (IsTracked env sys n)
            (Session.push_v6 env sys (env.parse_net (bytes "::/0")) t p w1)
            (λ w2 u. Session.install_hosts env sys t p policy w2)
            (λ w2 g. weaken (k + 2 + 2) n w2 (omega arith) g)
            (push_v6-IsTracked (env.parse_net (bytes "::/0")) (k + 2) t p w1 (omega arith) g1)
            (λ w2 u g2.
              and_then-keeps (IsTracked env sys bypassed) (IsTracked env sys n)
                (Session.push_all env sys bad_cidr policy.bypass_cidrs p 1 w2)
                (λ w3 u.
                  Session.push_all env sys bad_dynamic_tunnel policy.dynamic_tunnel_hosts t 100 w3)
                (λ w3 g. weaken bypassed n w3 (omega arith) g)
                (push_all-IsTracked bad_cidr policy.bypass_cidrs (k + 2 + 2) p 1 w2 (omega arith)
                  g2)
                (λ w3 u g3.
                  weaken (bypassed + length policy.dynamic_tunnel_hosts) n
                    (Session.push_all env sys bad_dynamic_tunnel policy.dynamic_tunnel_hosts t 100
                      w3).0
                    (omega arith)
                    (push_all-IsTracked bad_dynamic_tunnel policy.dynamic_tunnel_hosts bypassed t
                      100 w3 (omega arith) g3))))

  pub install_split_routes-IsTracked :
      (policy : PolicySnapshot) (k : ℕ) (w : State env sys)
      → k + split_count policy < 2 ^ 64
      → IsTracked env sys k w
      → IsTracked env sys (k + split_count policy) (Session.install_split_routes env sys policy w).0
  unfolding Session.install_split_routes
  install_split_routes-IsTracked policy k w small h =
      and_then-keeps (IsTracked env sys k) (IsTracked env sys (k + split_count policy))
        (Session.clear_split env sys w)
        (λ w' u.
          Session.install_between env sys policy.tunnel_if_index policy.physical_if_index policy w')
        (λ w' g. weaken k _ w' (omega arith) g) (clear_split-IsTracked env sys k w h)
        (λ w' u g.
          install_between-IsTracked policy.tunnel_if_index policy.physical_if_index policy k w'
            small g)
