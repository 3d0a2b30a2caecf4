-- ===== src/Wfp/SplitTunnel/Installing.antt =====
-- What the loops of `crates/routeguard-wfp/src/split_tunnel.rs` add to the platform.
use route_guard.Prelude.{
  ℕ, suc, ◌&&◌, not, Option, none, some, List, [], ◌∷◌, ◌++◌, is_empty, is_some, nat_eq,
  if◌then◌else◌, Bool-cases, inl, inr, arith,
}
use route_guard.Prelude.Text.{Text, bytes}
use route_guard.Prelude.Result.{Result, ok, err}
use route_guard.Core.Config.{RoutingMode, full_tunnel, split_include}
use route_guard.Core.Policy.{PolicySnapshot, AppFilterEntry}
use route_guard.Wfp.{Platform, Laws, WfpError, routing_error}
use route_guard.Wfp.Filters
use route_guard.Wfp.Filters.{Session, Rule, Progress, plain_permit, plain_block}
use route_guard.Wfp.Filters.Installing.{Adds, push-Adds, skip-Adds, then-Adds}
use route_guard.Wfp.SplitTunnel
use route_guard.Wfp.SplitTunnel.{split_name}

module _ (wfp : Platform) (laws : Laws wfp) where
  abbrev pub app_rules : Text → Text → ℕ → List AppFilterEntry → List (Rule wfp)
  app_rules permit_kind block_kind i [] = []
  app_rules permit_kind block_kind i (app ∷ apps) =
      SplitTunnel.app_permit wfp (split_name permit_kind i) app.path
      ∷ SplitTunnel.app_block wfp (split_name block_kind i) app.path
      ∷ app_rules permit_kind block_kind (suc i) apps

  abbrev pub net_rules : Text → Result WfpError wfp.IpAddrMask → List (Rule wfp)
  net_rules name (err e) = []
  net_rules name (ok mask) = SplitTunnel.block_net wfp name mask ∷ []

  abbrev pub cidr_rules : ℕ → List Text → List (Rule wfp)
  cidr_rules i [] = []
  cidr_rules i (cidr ∷ cidrs) =
      net_rules (split_name (bytes "IP_BLOCK_") i) (Filters.from_str wfp cidr)
      ++ cidr_rules (suc i) cidrs

  abbrev pub tunnel_rules : PolicySnapshot → List (Rule wfp)
  tunnel_rules policy =
      if is_some policy.tunnel_if_index && not (is_empty policy.bypass_apps)
      then plain_permit (bytes "RouteGuard_SPLIT_PERMIT_TUN") ∷ []
      else []

  abbrev pub mode_rules : RoutingMode → PolicySnapshot → List (Rule wfp)
  mode_rules full_tunnel policy =
      (app_rules (bytes "PERMIT_EXCL_") (bytes "BLOCK_TUN_EXCL_") 0 policy.bypass_apps
        ++ tunnel_rules policy)
      ++ cidr_rules 0 policy.block_cidrs
  mode_rules split_include policy =
      app_rules (bytes "PERMIT_INC_") (bytes "BLOCK_PHYS_INC_") 0 policy.tunnel_apps

  -- The filters of a policy: none without a tunnel.
  abbrev pub when_tunnel : Option ℕ → PolicySnapshot → List (Rule wfp)
  when_tunnel none policy = []
  when_tunnel (some tunnel_if) policy = mode_rules policy.routing_mode policy

  unfoldable pub split_rules : PolicySnapshot → List (Rule wfp)
  split_rules policy = when_tunnel policy.tunnel_if_index policy

  add_apps-Adds :
      (permit_kind block_kind : Text) (i : ℕ) (apps : List AppFilterEntry)
      → Adds wfp laws
          (SplitTunnel.add_apps wfp permit_kind block_kind i apps)
          (app_rules permit_kind block_kind i apps)
  add_apps-Adds permit_kind block_kind i [] = skip-Adds wfp laws
  add_apps-Adds permit_kind block_kind i (app ∷ apps) =
      let permit = SplitTunnel.app_permit wfp (split_name permit_kind i) app.path in
      let block = SplitTunnel.app_block wfp (split_name block_kind i) app.path in
      then-Adds wfp laws _ _ (permit ∷ block ∷ []) _
        (then-Adds wfp laws _ _ (permit ∷ []) (block ∷ []) (push-Adds wfp laws routing_error permit)
          (push-Adds wfp laws routing_error block))
        (add_apps-Adds permit_kind block_kind (suc i) apps)

  add_block-Adds :
      (name : Text) (mask : Result WfpError wfp.IpAddrMask)
      → Adds wfp laws (SplitTunnel.add_block wfp name mask) (net_rules name mask)
  add_block-Adds name (err x) e p before view h = absurd (ground arith)
  add_block-Adds name (ok mask) e p before view h =
      push-Adds wfp laws routing_error (SplitTunnel.block_net wfp name mask) e p before view h

  block_cidrs-Adds :
      (i : ℕ) (cidrs : List Text)
      → Adds wfp laws (SplitTunnel.block_cidrs wfp i cidrs) (cidr_rules i cidrs)
  block_cidrs-Adds i [] = skip-Adds wfp laws
  block_cidrs-Adds i (cidr ∷ cidrs) =
      then-Adds wfp laws _ _ _ _
        (add_block-Adds (split_name (bytes "IP_BLOCK_") i) (Filters.from_str wfp cidr))
        (block_cidrs-Adds (suc i) cidrs)

  permit_tunnel-Adds :
      (policy : PolicySnapshot)
      → Adds wfp laws (SplitTunnel.permit_tunnel wfp policy) (tunnel_rules policy)
  permit_tunnel-Adds policy =
      elim (Bool-cases (is_some policy.tunnel_if_index && not (is_empty policy.bypass_apps))) [
        | inl some_app ↦
            rw some_app (
              push-Adds wfp laws routing_error (plain_permit (bytes "RouteGuard_SPLIT_PERMIT_TUN")))
        | inr no_app ↦ rw no_app (skip-Adds wfp laws)
      ]

  pub install_for-Adds :
      (mode : RoutingMode) (policy : PolicySnapshot)
      → Adds wfp laws (SplitTunnel.install_for wfp mode policy) (mode_rules mode policy)
  install_for-Adds full_tunnel policy =
      then-Adds wfp laws _ _ _ _
        (then-Adds wfp laws _ _ _ _
          (add_apps-Adds (bytes "PERMIT_EXCL_") (bytes "BLOCK_TUN_EXCL_") 0 policy.bypass_apps)
          (permit_tunnel-Adds policy))
        (block_cidrs-Adds 0 policy.block_cidrs)
  install_for-Adds split_include policy =
      add_apps-Adds (bytes "PERMIT_INC_") (bytes "BLOCK_PHYS_INC_") 0 policy.tunnel_apps
