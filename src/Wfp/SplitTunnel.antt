-- ===== src/Wfp/SplitTunnel.antt =====
-- `crates/routeguard-wfp/src/split_tunnel.rs`: the filters of applications that go past the tunnel or
-- through it.
pub mod Installing
pub mod Contents
pub mod Refinement
use route_guard.Prelude.{
  ℕ, suc, Bool, true, false, ◌&&◌, not, Option, none, some, List, [], ◌∷◌, ◌++◌, is_empty, is_some,
  keep, contains, nat_eq, if◌then◌else◌,
}
use route_guard.Prelude.Text.{Text, bytes}
use route_guard.Prelude.Decimal.{decimal}
use route_guard.Prelude.Result.{Result, ok, err, and_then}
use route_guard.Core.Config.{RoutingMode, full_tunnel, split_include}
use route_guard.Core.Policy.{PolicySnapshot, AppFilterEntry}
use route_guard.Wfp.{Platform, WfpError, routing_error, WfpSessionInner}
use route_guard.Wfp.Filters
use route_guard.Wfp.Filters.{
  Session, Rule, Part, Progress, push, skip, ◌then◌, plain_permit, plain_block, prefixed,
}

abbrev pub split_name : Text → ℕ → Text
split_name kind i = bytes "RouteGuard_SPLIT_" ++ kind ++ decimal i

module _ (wfp : Platform) where
  -- `for id in ids { let _ = FilterBuilder::delete_filter(..); }`
  abbrev pub forget_filters : List ℕ → wfp.Engine → wfp.Engine
  forget_filters [] e = e
  forget_filters (id ∷ ids) e = forget_filters ids (wfp.delete_filter id e).0

  -- `remove_split_filters`
  unfoldable pub remove_split_filters : List ℕ → Session wfp → Session wfp
  remove_split_filters ids s = record {
    engine = forget_filters ids s.engine;
    active_filters = keep (λ id. not (contains ids id)) s.active_filters;
  }

  -- `add_filter`
  abbrev pub add : Rule wfp → Part wfp
  add rule = push wfp (Filters.add_filter wfp routing_error rule)

  abbrev pub app_permit : Text → Text → Rule wfp
  app_permit name path = record (plain_permit name) { app_path = some path }

  abbrev pub app_block : Text → Text → Rule wfp
  app_block name path = record (plain_block name) { app_path = some path }

  -- The loops over applications: a permit and a block for each.
  abbrev pub add_apps : Text → Text → ℕ → List AppFilterEntry → Part wfp
  add_apps permit_kind block_kind i [] = skip wfp
  add_apps permit_kind block_kind i (app ∷ apps) =
      Filters.◌then◌ wfp
        (Filters.◌then◌ wfp (add (app_permit (split_name permit_kind i) app.path))
          (add (app_block (split_name block_kind i) app.path)))
        (add_apps permit_kind block_kind (suc i) apps)

  abbrev pub block_net : Text → wfp.IpAddrMask → Rule wfp
  block_net name mask = record (plain_block name) { remote_ip = some mask }

  abbrev pub add_block : Text → Result WfpError wfp.IpAddrMask → Part wfp
  add_block name (err e) p = (p, err e)
  add_block name (ok mask) p = add (block_net name mask) p

  -- The loop over `block_cidrs`.
  abbrev pub block_cidrs : ℕ → List Text → Part wfp
  block_cidrs i [] = skip wfp
  block_cidrs i (cidr ∷ cidrs) =
      Filters.◌then◌ wfp (add_block (split_name (bytes "IP_BLOCK_") i) (Filters.from_str wfp cidr))
        (block_cidrs (suc i) cidrs)

  abbrev pub permit_tunnel : PolicySnapshot → Part wfp
  permit_tunnel policy =
      if is_some policy.tunnel_if_index && not (is_empty policy.bypass_apps)
      then add (plain_permit (bytes "RouteGuard_SPLIT_PERMIT_TUN"))
      else skip wfp

  -- `install_full_tunnel_exclude`
  abbrev pub install_full_tunnel_exclude : PolicySnapshot → Part wfp
  install_full_tunnel_exclude policy =
      Filters.◌then◌ wfp
        (Filters.◌then◌ wfp
          (add_apps (bytes "PERMIT_EXCL_") (bytes "BLOCK_TUN_EXCL_") 0 policy.bypass_apps)
          (permit_tunnel policy))
        (block_cidrs 0 policy.block_cidrs)

  -- `install_split_include`
  abbrev pub install_split_include : PolicySnapshot → Part wfp
  install_split_include policy =
      add_apps (bytes "PERMIT_INC_") (bytes "BLOCK_PHYS_INC_") 0 policy.tunnel_apps

  abbrev pub install_for : RoutingMode → PolicySnapshot → Part wfp
  install_for full_tunnel policy = install_full_tunnel_exclude policy
  install_for split_include policy = install_split_include policy

  -- `for id in &ids { session.track_filter(*id); }`
  abbrev pub track_filters : List ℕ → Session wfp → Session wfp
  track_filters ids s = record s { active_filters = s.active_filters ++ ids }

  abbrev pub tracked :
      Session wfp × Result WfpError (List ℕ) → Session wfp × Result WfpError (List ℕ)
  tracked (s, err e) = (s, err e)
  tracked (s, ok ids) = (track_filters ids s, ok ids)

  abbrev pub install_when :
      Option ℕ → PolicySnapshot → Session wfp → Session wfp × Result WfpError (List ℕ)
  install_when none policy s = (s, ok [])
  install_when (some tunnel_if) policy s = tracked (
      Filters.collected wfp
        (install_for policy.routing_mode policy (record { session = s; ids = [] })))

  -- `apply_split_tunnel`, which `WfpSession::apply_split_policy` calls
  unfoldable pub apply_split_tunnel :
      PolicySnapshot → List ℕ → Session wfp → Session wfp × Result WfpError (List ℕ)
  unfolding remove_split_filters Filters.add_filter Filters.from_str decimal
  apply_split_tunnel policy previous_ids s =
      install_when policy.tunnel_if_index policy (remove_split_filters previous_ids s)
