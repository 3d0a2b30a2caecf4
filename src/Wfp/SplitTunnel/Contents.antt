-- ===== src/Wfp/SplitTunnel/Contents.antt =====
-- What `apply_split_tunnel` of `crates/routeguard-wfp/src/split_tunnel.rs` asks for is the list of
-- filters that is written out.
use route_guard.Prelude.{
  ℕ, suc, ◌≡◌, refl, true, not, Option, none, some, List, [], ◌∷◌, ◌++◌, is_empty, nat_eq,
  if◌then◌else◌,
}
use route_guard.Prelude.Text.{Text, bytes}
use route_guard.Core.Config.{RoutingMode, full_tunnel, split_include}
use route_guard.Core.Policy.{PolicySnapshot, AppFilterEntry}
use route_guard.Wfp.{Platform, Laws}
use route_guard.Wfp.Filters
use route_guard.Wfp.Filters.{Session, Rule, Progress, plain_permit, plain_block}
use route_guard.Wfp.SplitTunnel.{split_name}
use route_guard.Prelude.{Bool, false}
use route_guard.Prelude.Text.{contains_byte}
use route_guard.Core.Net.{IpAddr}
use route_guard.Wfp.Filters.{or_routing_error, mask_of}
use route_guard.Wfp.NetworkLock.Contents.{from_ip-host}
use route_guard.Wfp.Filters.Contents.{
  split_filters, filters_with, mode_filters, app_filters, block_filters, block_to, read_net, hosted,
  tunnel_filters,
}
use route_guard.Wfp.SplitTunnel.Installing.{
  app_rules, net_rules, cidr_rules, tunnel_rules, mode_rules, when_tunnel, split_rules,
}

module _ (wfp : Platform) (laws : Laws wfp) where
  app_rules-filters :
      (permit_kind block_kind : Text) (i : ℕ) (apps : List AppFilterEntry)
      → app_rules wfp laws permit_kind block_kind i apps
        ≡ app_filters wfp
            (bytes "RouteGuard_SPLIT_" ++ permit_kind)
            (bytes "RouteGuard_SPLIT_" ++ block_kind)
            i
            apps
  app_rules-filters permit_kind block_kind i [] = refl
  app_rules-filters permit_kind block_kind i (app ∷ apps) =
      rw (app_rules-filters permit_kind block_kind (suc i) apps) refl

  net_rules-block_to :
      (name : Text) (mask : Option wfp.IpAddrMask)
      → net_rules wfp laws name (or_routing_error wfp mask) ≡ block_to wfp name mask
  net_rules-block_to name none = refl
  net_rules-block_to name (some mask) = refl

  net_rules-hosted :
      (name : Text) (ip : Option IpAddr)
      → net_rules wfp laws name (mask_of wfp ip) ≡ block_to wfp name (hosted wfp ip)
  net_rules-hosted name none = refl
  net_rules-hosted name (some ip) = rw (from_ip-host wfp laws ip) refl

  net_rules-read_net :
      (name cidr : Text) (slash : Bool)
      → net_rules wfp laws name (
          if slash
          then or_routing_error wfp (wfp.from_cidr cidr)
          else mask_of wfp (wfp.parse_ip cidr))
        ≡ block_to wfp name (read_net wfp slash cidr)
  net_rules-read_net name cidr true = net_rules-block_to name (wfp.from_cidr cidr)
  net_rules-read_net name cidr false = net_rules-hosted name (wfp.parse_ip cidr)

  cidr_rules-filters :
      (i : ℕ) (cidrs : List Text) → cidr_rules wfp laws i cidrs ≡ block_filters wfp i cidrs
  unfolding Filters.from_str
  cidr_rules-filters i [] = refl
  cidr_rules-filters i (cidr ∷ cidrs) =
      rw
        (
          cidr_rules-filters (suc i) cidrs,
          net_rules-read_net (split_name (bytes "IP_BLOCK_") i) cidr (contains_byte 47 cidr),
        )
        refl

  tunnel_rules-filters :
      (policy : PolicySnapshot) (tunnel_if : ℕ)
      → policy.tunnel_if_index ≡ some tunnel_if
      → tunnel_rules wfp laws policy ≡ tunnel_filters wfp policy.bypass_apps
  tunnel_rules-filters policy tunnel_if there = rw there (unless_empty policy.bypass_apps)
    where
      unless_empty :
          (apps : List AppFilterEntry)
          → (if not (is_empty apps)
              then Filters.plain_permit (bytes "RouteGuard_SPLIT_PERMIT_TUN") ∷ []
              else [])
            ≡ tunnel_filters wfp apps
      unless_empty [] = refl
      unless_empty (app ∷ apps) = refl

  mode_rules-filters :
      (mode : RoutingMode) (policy : PolicySnapshot) (tunnel_if : ℕ)
      → policy.tunnel_if_index ≡ some tunnel_if
      → mode_rules wfp laws mode policy ≡ mode_filters wfp mode policy
  mode_rules-filters full_tunnel policy tunnel_if there =
      rw
        (
          app_rules-filters (bytes "PERMIT_EXCL_") (bytes "BLOCK_TUN_EXCL_") 0 policy.bypass_apps,
          tunnel_rules-filters policy tunnel_if there,
          cidr_rules-filters 0 policy.block_cidrs,
        )
        refl
  mode_rules-filters split_include policy tunnel_if there =
      app_rules-filters (bytes "PERMIT_INC_") (bytes "BLOCK_PHYS_INC_") 0 policy.tunnel_apps

  when_tunnel-filters :
      (tunnel : Option ℕ) (policy : PolicySnapshot)
      → policy.tunnel_if_index ≡ tunnel
      → when_tunnel wfp laws tunnel policy ≡ filters_with wfp tunnel policy
  when_tunnel-filters none policy same = refl
  when_tunnel-filters (some tunnel_if) policy same =
      mode_rules-filters policy.routing_mode policy tunnel_if same

  pub split_rules-filters :
      (policy : PolicySnapshot) → split_rules wfp laws policy ≡ split_filters wfp policy
  unfolding split_rules split_filters
  split_rules-filters policy = when_tunnel-filters policy.tunnel_if_index policy refl
