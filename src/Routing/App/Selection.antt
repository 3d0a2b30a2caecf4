-- ===== src/Routing/App/Selection.antt =====
-- Which application rule decides for a path, in a set that `from_rules` built.
use route_guard.Prelude.{◌≡◌, List, [], ◌∷◌, ◌++◌, arith, keep, map}
use mathlib.Core.List.{append_assoc, append-nil}
use route_guard.Prelude.Sort.{min_by_key, find-sort_by_key}
use route_guard.Core.Net.{Platform, FilePath}
use route_guard.Core.Config.{
  AppRule, RuleMode, include, exclude, RoutingMode, full_tunnel, split_include, rule_mode_beq,
}
use route_guard.Routing.App.{
  AppRuleEntry, AppRuleSet, entry_of, push_rules, from_rules, path_matches, normalize_path,
  match_path, hit, push_entry,
}

abbrev pub mode_of : RoutingMode → RuleMode
mode_of full_tunnel = exclude
mode_of split_include = include

abbrev pub side : RoutingMode → AppRuleSet → List AppRuleEntry
side full_tunnel set = set.excludes
side split_include set = set.includes

module _ (env : Platform) where
  -- The rules of one mode, compiled, in the order of the configuration.
  abbrev pub entries_of : RuleMode → List AppRule → List AppRuleEntry
  entries_of mode rules = map (entry_of env) (keep (λ r. rule_mode_beq r.mode mode) rules)

  pub side-push_rules :
      (m : RoutingMode) (rules : List AppRule) (set : AppRuleSet)
      → side m (push_rules env rules set) ≡ side m set ++ entries_of (mode_of m) rules
  unfolding push_rules
  side-push_rules full_tunnel [] set = rw append-nil
  side-push_rules split_include [] set = rw append-nil
  side-push_rules full_tunnel (r ∷ rules) set = ground (
    arith,
    side-push_rules full_tunnel rules (push_entry r.mode (entry_of env r) set),
    append_assoc set.excludes (entry_of env r ∷ []) (entries_of exclude rules),
  )
  side-push_rules split_include (r ∷ rules) set = ground (
    arith,
    side-push_rules split_include rules (push_entry r.mode (entry_of env r) set),
    append_assoc set.includes (entry_of env r ∷ []) (entries_of include rules),
  )

  -- A path is decided by a rule of the mode's kind whose path matches, one with the least priority
  -- number, the earliest in the configuration where several have it; a rule of the other kind never
  -- decides, and the result is nothing exactly when no rule of the kind matches.
  pub match_path-min_by_key :
      (rules : List AppRule) (path : FilePath) (mode : RoutingMode)
      → match_path env (from_rules env rules) path mode
        ≡ hit (mode_of mode) (
            min_by_key
              (λ r. r.priority)
              (keep
                (λ r. path_matches r.normalized (normalize_path env path))
                (entries_of (mode_of mode) rules)))
  unfolding match_path from_rules
  match_path-min_by_key rules path full_tunnel = ground (
    arith,
    side-push_rules full_tunnel rules (record { excludes = []; includes = [] }),
    find-sort_by_key (λ r. r.priority) (λ r. path_matches r.normalized (normalize_path env path))
        (entries_of exclude rules),
  )
  match_path-min_by_key rules path split_include = ground (
    arith,
    side-push_rules split_include rules (record { excludes = []; includes = [] }),
    find-sort_by_key (λ r. r.priority) (λ r. path_matches r.normalized (normalize_path env path))
        (entries_of include rules),
  )
