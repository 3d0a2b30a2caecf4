-- ===== src/Routing/Rules/Add.antt =====
-- The list of application rules that rules_ops.rs maintains: what every change to it keeps.
use mathlib.Core.Path.{subst}
use route_guard.Prelude.{
  ◌≡◌, ◌≢◌, ap, ◌≤◌, Bool, true, false, List, [], ◌∷◌, ◌++◌, arith, All, Pairwise, Pairwise-snoc,
  Pairwise-leave, All-leave, All-append, length, length-append, any, list_beq_iff, nat_eq, leb, inl,
  inr, sym,
}
use route_guard.Prelude.Sort.{
  sort_by_key, IsSorted, IsSorted-leave, sort_by_key-IsSorted, All-sort_by_key,
  Pairwise-sort_by_key, length-sort_by_key,
}
use route_guard.Prelude.Result.{ok}
use route_guard.Core.Net.{Platform, FilePath}
use route_guard.Core.Config.{
  RoutingMode, full_tunnel, split_include, RuleMode, include, exclude, AppRule, AppConfig,
  rule_mode_beq,
}
use route_guard.Routing.App.{normalize_path}
use route_guard.Routing.Rules.{
  AddAppRuleRequest, add_app_rule, remove_app_rule, validate_app_path, is_same_path, check_mode,
  max_app_rules, new_rule, with_app_rules,
}
use route_guard.Routing.Rules.Remove.{remove_app_rule-first, FirstAt}

abbrev pub fits : RoutingMode → RuleMode → Bool
fits full_tunnel mode = rule_mode_beq mode exclude
fits split_include mode = rule_mode_beq mode include

module _ (env : Platform) where
  abbrev pub IsOther : AppRule → AppRule → Type 0
  IsOther a b = normalize_path env a.path ≢ normalize_path env b.path

  -- At most 256 rules, in the order of their priorities, each for another normalized path and each
  -- of the kind that the routing mode supports.
  pub record IsRuleList (cfg : AppConfig) : Type 0 where
    pub bounded : length cfg.routing.app_rules ≤ max_app_rules
    pub sorted : IsSorted (λ r. r.priority) cfg.routing.app_rules
    pub unique : Pairwise IsOther cfg.routing.app_rules
    pub fitting : All (λ r. fits cfg.routing.mode r.mode ≡ true) cfg.routing.app_rules

  any-is_same_path :
      (path : FilePath) (req : AddAppRuleRequest) (rules : List AppRule)
      → any (is_same_path env (normalize_path env path)) rules ≡ false
      → All (λ r. IsOther r (new_rule req path)) rules
  any-is_same_path path req [] h = tt
  any-is_same_path path req (r ∷ rules) h = ground (
    arith,
    list_beq_iff (normalize_path env r.path) (normalize_path env path),
    any-is_same_path path req rules,
  )

  -- What a success of `add_app_rule` says of its arguments.
  abbrev Added : AddAppRuleRequest → AppConfig → AppConfig × AppRule → Type 0
  Added req cfg res =
      (leb max_app_rules (length cfg.routing.app_rules) ≡ false)
      × (any (is_same_path env (normalize_path env req.path)) cfg.routing.app_rules ≡ false)
      × (fits cfg.routing.mode req.mode ≡ true)
      × (res ≡ (
        with_app_rules
            (sort_by_key (λ r. r.priority) (cfg.routing.app_rules ++ new_rule req req.path ∷ []))
            cfg,
        new_rule req req.path,
      ))

  check_mode-fits :
      (mode : RoutingMode) (kind : RuleMode) → check_mode mode kind ≡ ok tt → fits mode kind ≡ true
  check_mode-fits full_tunnel kind h = ground arith
  check_mode-fits split_include kind h = ground arith

  validate_app_path-ok : (path p : FilePath) → validate_app_path env path ≡ ok p → p ≡ path
  unfolding validate_app_path
  validate_app_path-ok path p h = ground arith

  add_app_rule-ok :
      (req : AddAppRuleRequest) (cfg : AppConfig) (res : AppConfig × AppRule)
      → add_app_rule env req cfg ≡ ok res
      → Added req cfg res
  unfolding add_app_rule
  add_app_rule-ok req cfg res h =
      ground (arith, validate_app_path-ok req.path, check_mode-fits cfg.routing.mode req.mode)

  Added-IsRuleList :
      (req : AddAppRuleRequest) (cfg : AppConfig) (res : AppConfig × AppRule)
      → IsRuleList cfg
      → Added req cfg res
      → IsRuleList res.0
  Added-IsRuleList req cfg res v (room, fresh, fit, same) =
      let old : List AppRule = cfg.routing.app_rules in
      let rule : AppRule = new_rule req req.path in
      subst IsRuleList (ap (λ (r : AppConfig × AppRule). r.0) (sym same)) (record {
        bounded = ground (
          arith,
          length-sort_by_key (λ (r : AppRule). r.priority) (old ++ rule ∷ []),
          length-append old (rule ∷ []),
        );
        sorted = sort_by_key-IsSorted (λ (r : AppRule). r.priority) (old ++ rule ∷ []);
        unique =
            Pairwise-sort_by_key (λ (r : AppRule). r.priority) IsOther (old ++ rule ∷ [])
              (λ a b other same. other (sym same))
              (Pairwise-snoc IsOther old rule v.unique (any-is_same_path req.path req old fresh));
        fitting =
            All-sort_by_key (λ (r : AppRule). r.priority) _ (old ++ rule ∷ [])
              (All-append _ old (rule ∷ []) v.fitting (fit, tt));
      })

  -- When `add_app_rule` succeeds it returns the requested rule, with its path as given, and the list
  -- keeps its form: at most 256 rules in the order of their priorities, no two for one normalized path, each of the
  -- kind that the routing mode supports.
  pub add_app_rule-IsRuleList :
      (req : AddAppRuleRequest) (cfg cfg' : AppConfig) (rule : AppRule)
      → IsRuleList cfg
      → add_app_rule env req cfg ≡ ok (cfg', rule)
      → IsRuleList cfg' × (rule ≡ new_rule req req.path)
  add_app_rule-IsRuleList req cfg cfg' rule v h =
      let (room, fresh, fit, same) = add_app_rule-ok req cfg (cfg', rule) h in
      (
        Added-IsRuleList req cfg (cfg', rule) v (room, fresh, fit, same),
        ap (λ (r : AppConfig × AppRule). r.1) same,
      )

  left-IsRuleList :
      {p : AppRule → Bool} (cfg : AppConfig) (r : AppRule) (rest : List AppRule)
      → IsRuleList cfg
      → FirstAt p r rest cfg.routing.app_rules
      → IsRuleList (with_app_rules rest cfg)
  left-IsRuleList cfg r rest v first =
      let xs : List AppRule = first.before in
      let ys : List AppRule = first.after in
      let whole : cfg.routing.app_rules ≡ xs ++ r ∷ ys = first.whole in
      record {
        bounded =
            ground
              (arith, v.bounded, whole, first.left, length-append xs ys, length-append xs (r ∷ ys));
        sorted = subst (IsSorted (λ (r : AppRule). r.priority)) (sym first.left) (
            IsSorted-leave _ xs ys r
              (subst (IsSorted (λ (r : AppRule). r.priority)) whole v.sorted));
        unique =
            subst (Pairwise IsOther) (sym first.left)
              (Pairwise-leave IsOther xs ys r (subst (Pairwise IsOther) whole v.unique));
        fitting =
            subst (All (λ (r : AppRule). fits cfg.routing.mode r.mode ≡ true)) (sym first.left) (
              All-leave _ xs ys r (
                subst (All (λ (r : AppRule). fits cfg.routing.mode r.mode ≡ true)) whole
                  v.fitting));
      }

  -- When `remove_app_rule` succeeds the list keeps the same form.
  pub remove_app_rule-IsRuleList :
      (path : FilePath) (cfg cfg' : AppConfig) (rule : AppRule)
      → IsRuleList cfg
      → remove_app_rule env path cfg ≡ ok (cfg', rule)
      → IsRuleList cfg'
  remove_app_rule-IsRuleList path cfg cfg' rule v h = elim (remove_app_rule-first env path cfg) [
    | inl (failed, _) ↦ absurd (ground (arith, failed))
    | inr (r, rest, same, first) ↦
        subst IsRuleList (ground (arith, same)) (left-IsRuleList cfg r rest v first)
  ]
