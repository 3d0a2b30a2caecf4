-- ===== src/Routing/SplitPolicy/Agreement.antt =====
-- The compiled policy against the engine: filters act on the rules that decide.
use route_guard.Prelude.{
  ℕ, ◌≡◌, refl, sym, ap, ◌∙◌, Option, none, some, List, [], ◌∷◌, ◌++◌, map, keep, arith,
}
use mathlib.Core.List.{append_assoc, append-nil}
use route_guard.Prelude.Text.{Text}
use route_guard.Prelude.Sort.{sort_by_key, map-sort_by_key}
use route_guard.Core.Net.{Platform, IpAddr}
use route_guard.Core.Config.{
  AppConfig, AppRule, IpRule, RoutingMode, full_tunnel, split_include, rule_mode_beq,
}
use route_guard.Core.Policy
use route_guard.Core.Policy.{PolicySnapshot, AppFilterEntry, push_ip_rules, push_ip_rule}
use route_guard.Routing.App
use route_guard.Routing.App.{AppRuleEntry, entry_of}
use route_guard.Routing.App.Selection.{mode_of, side, entries_of, side-push_rules}
use route_guard.Routing.Engine.{RoutingEngine}
use route_guard.Routing.Ip.{all_bypass_cidrs, all_block_cidrs}
use route_guard.Routing.Store.{DomainRouteStore}
use route_guard.Routing.SplitPolicy.{
  push_app, push_apps, filter_entry, with_store, static_policy, push_missing, sort_apps,
  compile_with_domain_store,
}

-- The filters of the mode, and those of the other mode.
abbrev pub apps_of : RoutingMode → PolicySnapshot → List AppFilterEntry
apps_of full_tunnel snap = snap.bypass_apps
apps_of split_include snap = snap.tunnel_apps

abbrev pub other_apps_of : RoutingMode → PolicySnapshot → List AppFilterEntry
other_apps_of full_tunnel snap = snap.tunnel_apps
other_apps_of split_include snap = snap.bypass_apps

push_ip_rules-apps :
    (m : RoutingMode) (rules : List IpRule) (snap : PolicySnapshot)
    → (apps_of m (push_ip_rules rules snap) ≡ apps_of m snap)
      × (other_apps_of m (push_ip_rules rules snap) ≡ other_apps_of m snap)
unfolding push_ip_rules
push_ip_rules-apps m [] snap = (refl, refl)
push_ip_rules-apps m (r ∷ rules) snap =
    ground (arith, push_ip_rules-apps m rules (push_ip_rule r.target r.cidr snap))

module _ (env : Platform) where
  open env use {IpNet}

  abbrev kept : RoutingMode → List AppRule → List AppFilterEntry
  kept m rules = map (filter_entry env) (keep (λ r. rule_mode_beq r.mode (mode_of m)) rules)

  push_apps-apps :
      (m : RoutingMode) (rules : List AppRule) (snap : PolicySnapshot)
      → (apps_of m (push_apps env m rules snap) ≡ apps_of m snap ++ kept m rules)
        × (other_apps_of m (push_apps env m rules snap) ≡ other_apps_of m snap)
  unfolding push_apps
  push_apps-apps full_tunnel [] snap = (rw append-nil, refl)
  push_apps-apps split_include [] snap = (rw append-nil, refl)
  push_apps-apps full_tunnel (r ∷ rules) snap = ground (
    arith,
    push_apps-apps full_tunnel rules (push_app full_tunnel r.mode (filter_entry env r) snap),
    append_assoc snap.bypass_apps (filter_entry env r ∷ []) (kept full_tunnel rules),
  )
  push_apps-apps split_include (r ∷ rules) snap = ground (
    arith,
    push_apps-apps split_include rules (push_app split_include r.mode (filter_entry env r) snap),
    append_assoc snap.tunnel_apps (filter_entry env r ∷ []) (kept split_include rules),
  )

  -- What a filter and what a rule of the engine stand for.
  abbrev pub filter_pair : AppFilterEntry → Text × ℕ
  filter_pair e = (e.path, e.priority)

  abbrev pub rule_pair : AppRuleEntry → Text × ℕ
  rule_pair r = (r.normalized, r.priority)

  pairs-agree :
      (rules : List AppRule)
      → map filter_pair (map (filter_entry env) rules) ≡ map rule_pair (map (entry_of env) rules)
  pairs-agree [] = refl
  pairs-agree (r ∷ rules) =
      ap (λ rest. (App.normalize_path env r.path, r.priority) ∷ rest) (pairs-agree rules)

  -- What the rest of the compiler does to a policy keeps its filters.
  abbrev SameApps : RoutingMode → PolicySnapshot → PolicySnapshot → Type 0
  SameApps m a b = (apps_of m a ≡ apps_of m b) × (other_apps_of m a ≡ other_apps_of m b)

  set_cidrs-SameApps :
      (m n : RoutingMode) (p : Option ℕ) (bypasses blocks : List Text) (snap : PolicySnapshot)
      → SameApps m
          (record snap {
            physical_if_index = p;
            routing_mode = n;
            bypass_cidrs = bypasses;
            block_cidrs = blocks;
          })
          snap
  set_cidrs-SameApps full_tunnel n p bypasses blocks snap = (refl, refl)
  set_cidrs-SameApps split_include n p bypasses blocks snap = (refl, refl)

  with_store-SameApps :
      (m : RoutingMode) (ip_text : IpAddr → Text) (now : ℕ) (store : Option DomainRouteStore)
      (snap : PolicySnapshot)
      → SameApps m (with_store env ip_text now store snap) snap
  with_store-SameApps m ip_text now none snap = (refl, refl)
  with_store-SameApps full_tunnel ip_text now (some store) snap = (refl, refl)
  with_store-SameApps split_include ip_text now (some store) snap = (refl, refl)

  from_config-no_apps :
      (m : RoutingMode) (cfg : AppConfig) (i l : Option ℕ)
      → (apps_of m (Policy.from_config cfg i l) ≡ [])
        × (other_apps_of m (Policy.from_config cfg i l) ≡ [])
  unfolding Policy.from_config
  from_config-no_apps full_tunnel cfg i l = push_ip_rules-apps full_tunnel cfg.routing.ip_rules _
  from_config-no_apps split_include cfg i l =
      push_ip_rules-apps split_include cfg.routing.ip_rules _

  static_policy-apps :
      (cfg : AppConfig) (engine : RoutingEngine IpNet) (i l p : Option ℕ)
      → (apps_of cfg.routing.mode (static_policy env cfg engine i l p)
          ≡ kept cfg.routing.mode cfg.routing.app_rules)
        × (other_apps_of cfg.routing.mode (static_policy env cfg engine i l p) ≡ [])
  static_policy-apps cfg engine i l p =
      let m : RoutingMode = cfg.routing.mode in
      let snap : PolicySnapshot = Policy.from_config cfg i l in
      let table = engine.snapshot.ip_table in
      let same =
        set_cidrs-SameApps m m p
          (push_missing snap.bypass_cidrs (map env.net_text (all_bypass_cidrs env table)))
          (push_missing snap.block_cidrs (map env.net_text (all_block_cidrs env table))) snap in
      let pushed = push_apps-apps m cfg.routing.app_rules _ in
      let empty = from_config-no_apps m cfg i l in
      (
        pushed.0 ∙ ap (λ r. r ++ kept m cfg.routing.app_rules) (same.0 ∙ empty.0),
        pushed.1 ∙ (same.1 ∙ empty.1),
      )

  side-from_rules :
      (m : RoutingMode) (rules : List AppRule)
      → side m (App.from_rules env rules)
        ≡ sort_by_key (λ (r : AppRuleEntry). r.priority) (entries_of env (mode_of m) rules)
  unfolding App.from_rules
  side-from_rules full_tunnel rules =
      ap (sort_by_key (λ (r : AppRuleEntry). r.priority))
        (side-push_rules env full_tunnel rules (record { excludes = []; includes = [] }))
  side-from_rules split_include rules =
      ap (sort_by_key (λ (r : AppRuleEntry). r.priority))
        (side-push_rules env split_include rules (record { excludes = []; includes = [] }))

  sorted-apps :
      (m : RoutingMode) (snap : PolicySnapshot)
      → (apps_of m (sort_apps env snap)
          ≡ sort_by_key (λ (e : AppFilterEntry). e.priority) (apps_of m snap))
        × (other_apps_of m (sort_apps env snap)
            ≡ sort_by_key (λ (e : AppFilterEntry). e.priority) (other_apps_of m snap))
  sorted-apps full_tunnel snap = (refl, refl)
  sorted-apps split_include snap = (refl, refl)

  -- The filters that the compiler hands out for the mode are, path by path and in the order of their
  -- priorities, the rules by which an engine built from the same rules decides in that mode, and
  -- there are no filters of the other kind.
  pub compile-apps :
      (ip_text : IpAddr → Text) (now : ℕ) (cfg : AppConfig) (engine : RoutingEngine IpNet)
      (i l p : Option ℕ) (store : Option DomainRouteStore)
      → let snap = compile_with_domain_store env ip_text now cfg engine i l p store in
        let rules = App.from_rules env cfg.routing.app_rules in
        (map filter_pair (apps_of cfg.routing.mode snap)
          ≡ map rule_pair (side cfg.routing.mode rules))
        × (other_apps_of cfg.routing.mode snap ≡ [])
  unfolding compile_with_domain_store sort_by_key
  compile-apps ip_text now cfg engine i l p store =
      let m : RoutingMode = cfg.routing.mode in
      let rules : List AppRule =
        keep (λ r. rule_mode_beq r.mode (mode_of m)) cfg.routing.app_rules in
      let still : PolicySnapshot = static_policy env cfg engine i l p in
      let snap : PolicySnapshot = with_store env ip_text now store still in
      let sorted = sorted-apps m snap in
      let stored = with_store-SameApps m ip_text now store still in
      let static = static_policy-apps cfg engine i l p in
      let by_filter = λ (e : AppFilterEntry). e.priority in
      let by_rule = λ (r : AppRuleEntry). r.priority in
      let snd = λ (q : Text × ℕ). q.1 in
      (
        ap (map filter_pair) (sorted.0 ∙ ap (sort_by_key by_filter) (stored.0 ∙ static.0))
            ∙ (map-sort_by_key filter_pair by_filter snd (map (filter_entry env) rules) (λ e. refl)
                ∙ (ap (sort_by_key snd) (pairs-agree rules)
                    ∙ (sym (
                          map-sort_by_key rule_pair by_rule snd (map (entry_of env) rules)
                            (λ r. refl))
                        ∙ ap (map rule_pair) (sym (side-from_rules m cfg.routing.app_rules))))),
        sorted.1 ∙ ap (sort_by_key by_filter) (stored.1 ∙ static.1),
      )
