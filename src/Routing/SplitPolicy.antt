-- ===== src/Routing/SplitPolicy.antt =====
-- `crates/routeguard-routing/src/split_policy.rs`: the policy that filters and routes enforce,
-- compiled for the mode.
pub mod Agreement
use route_guard.Prelude.{
  ℕ, Bool, Option, none, some, List, [], ◌∷◌, ◌++◌, map, contains, nat_eq, list_eq, if◌then◌else◌,
}
use route_guard.Prelude.Text.{Text}
use route_guard.Prelude.Sort.{sort_by_key}
use route_guard.Core.Net.{Platform, IpAddr}
use route_guard.Core.Config.{
  AppConfig, AppRule, RoutingMode, RuleMode, full_tunnel, split_include, include, exclude, bypass,
  tunnel,
}
use route_guard.Core.Policy
use route_guard.Core.Policy.{PolicySnapshot, AppFilterEntry}
use route_guard.Routing.App.{normalize_path}
use route_guard.Routing.Engine.{RoutingEngine}
use route_guard.Routing.Ip.{all_bypass_cidrs, all_block_cidrs}
use route_guard.Routing.Store.{DomainRouteStore}
use route_guard.Routing.Store.Persist.{host_cidrs_for_target}

-- `if !xs.contains(&s) { xs.push(s) }`, for each of a list.
unfoldable pub push_missing : List Text → List Text → List Text
push_missing xs [] = xs
push_missing xs (s ∷ more) = push_missing (if contains xs s then xs else xs ++ s ∷ []) more

-- The `match` on the mode and the rule's.
abbrev pub push_app : RoutingMode → RuleMode → AppFilterEntry → PolicySnapshot → PolicySnapshot
push_app full_tunnel exclude entry snap = record snap {
  bypass_apps = snap.bypass_apps ++ entry ∷ [];
  app_permits = snap.app_permits ++ entry.path ∷ [];
}
push_app split_include include entry snap = record snap {
  tunnel_apps = snap.tunnel_apps ++ entry ∷ [];
}
push_app _ _ entry snap = snap

module _ (env : Platform) where
  open env use {IpNet, net_text}

  abbrev pub filter_entry : AppRule → AppFilterEntry
  filter_entry rule = record {
    path = normalize_path env rule.path;
    priority = rule.priority;
    mode = rule.mode;
  }

  -- The loop over the application rules.
  unfoldable pub push_apps : RoutingMode → List AppRule → PolicySnapshot → PolicySnapshot
  push_apps mode [] snap = snap
  push_apps mode (rule ∷ rules) snap =
      push_apps mode rules (push_app mode rule.mode (filter_entry rule) snap)

  -- The block of the store, at the time `now`; `ip_text` is `Display` of an address.
  abbrev pub with_store :
      (IpAddr → Text) → ℕ → Option DomainRouteStore → PolicySnapshot → PolicySnapshot
  with_store ip_text now none snap = snap
  with_store ip_text now (some store) snap =
      let hosts : List Text = host_cidrs_for_target ip_text now store bypass in
      record snap {
        dynamic_bypass_hosts = hosts;
        dynamic_tunnel_hosts = host_cidrs_for_target ip_text now store tunnel;
        domain_route_generation = store.generation;
        bypass_cidrs = push_missing snap.bypass_cidrs hosts;
      }

  -- What the rules give before the store and the sorting.
  abbrev pub static_policy :
      AppConfig → RoutingEngine IpNet → Option ℕ → Option ℕ → Option ℕ → PolicySnapshot
  static_policy cfg engine tunnel_if_index tunnel_if_luid physical_if_index =
      let snap : PolicySnapshot = Policy.from_config cfg tunnel_if_index tunnel_if_luid in
      let table = engine.snapshot.ip_table in
      push_apps cfg.routing.mode cfg.routing.app_rules (record snap {
        physical_if_index = physical_if_index;
        routing_mode = cfg.routing.mode;
        bypass_cidrs = push_missing snap.bypass_cidrs (map net_text (all_bypass_cidrs env table));
        block_cidrs = push_missing snap.block_cidrs (map net_text (all_block_cidrs env table));
      })

  -- The two sorts at the end.
  abbrev pub sort_apps : PolicySnapshot → PolicySnapshot
  sort_apps snap = record snap {
    bypass_apps = sort_by_key (λ (e : AppFilterEntry). e.priority) snap.bypass_apps;
    tunnel_apps = sort_by_key (λ (e : AppFilterEntry). e.priority) snap.tunnel_apps;
  }

  -- `AppSplitPolicyCompiler::compile_with_domain_store`
  unfoldable pub compile_with_domain_store :
      (IpAddr → Text)
      → ℕ
      → AppConfig
      → RoutingEngine IpNet
      → Option ℕ
      → Option ℕ
      → Option ℕ
      → Option DomainRouteStore
      → PolicySnapshot
  unfolding push_apps push_missing
  compile_with_domain_store ip_text now cfg engine tunnel_if_index tunnel_if_luid physical_if_index
        store =
      sort_apps (
        with_store ip_text now store
          (static_policy cfg engine tunnel_if_index tunnel_if_luid physical_if_index))

  -- `AppSplitPolicyCompiler::compile`, which passes no store, so that its clock is not read.
  unfoldable pub compile :
      (IpAddr → Text)
      → AppConfig
      → RoutingEngine IpNet
      → Option ℕ
      → Option ℕ
      → Option ℕ
      → PolicySnapshot
  compile ip_text cfg engine tunnel_if_index tunnel_if_luid physical_if_index =
      compile_with_domain_store ip_text 0 cfg engine tunnel_if_index tunnel_if_luid
        physical_if_index none
