-- ===== src/Routing/Rules.antt =====
-- `crates/routeguard-routing/src/rules_ops.rs`: adding and removing application rules. A function
-- that fails has changed nothing, so the configuration is part of a good result only.
pub mod Add
pub mod Remove
use route_guard.Prelude.{
  ℕ, ◌+◌, ◌-◌, ◌^◌, suc, zero, min, max, Bool, true, false, not, ◌||◌, ◌&&◌, Option, none, some,
  List, [], ◌∷◌, ◌++◌, length, any, keep, leb, list_beq, nat_eq, if◌then◌else◌,
}
use mathlib.Core.Option
use route_guard.Prelude.Text.{Text, bytes, ends_with}
use route_guard.Prelude.Sort.{sort_by_key}
use route_guard.Prelude.Result.{Result, ok, err, ◌>>=◌, ◌>>◌, fail_if}
use route_guard.Core.Net.{Platform, FilePath}
use route_guard.Core.Config.{
  RoutingMode, full_tunnel, split_include, RuleMode, include, exclude, rule_mode_beq, AppRule,
  AppConfig,
}
use route_guard.Routing.App.{normalize_path}

abbrev pub max_app_rules : ℕ
max_app_rules = 256

pub record AddAppRuleRequest : Type 0 where
  pub path : FilePath
  pub mode : RuleMode
  pub priority : ℕ  -- u16

-- The texts of the errors. `index_out_of_bounds` stands for the panic of `Vec::remove`.
pub data RuleError : Type 0 where
  not_absolute not_exe not_found : RuleError
  max_reached already_exists only_exclude only_include : RuleError
  no_such_rule index_out_of_bounds : RuleError

abbrev pub with_app_rules : List AppRule → AppConfig → AppConfig
with_app_rules rules cfg = record cfg { routing = record cfg.routing { app_rules = rules } }

-- `Iterator::max` of priorities, 0 for none.
abbrev pub max_priority : List AppRule → ℕ
max_priority [] = 0
max_priority (r ∷ rs) = max r.priority (max_priority rs)

-- `default_priority_for_mode`: `saturating_add` on u16
unfoldable pub default_priority_for_mode : AppConfig → RuleMode → ℕ
default_priority_for_mode cfg mode =
    min (max_priority (keep (λ r. rule_mode_beq r.mode mode) cfg.routing.app_rules) + 10)
      (2 ^ 16 - 1)

-- The `match` on the routing mode.
abbrev pub check_mode : RoutingMode → RuleMode → Result RuleError (Unit {0})
check_mode full_tunnel mode = fail_if (not (rule_mode_beq mode exclude)) only_exclude
check_mode split_include mode = fail_if (not (rule_mode_beq mode include)) only_include

-- `Iterator::position`
unfoldable pub position {ℓ} : {A : Type ℓ} → (A → Bool) → List A → Option ℕ
position p [] = none
position p (x ∷ xs) =
    let rest = position p xs in if p x then some 0 else Option.map (λ (i : ℕ). suc i) rest

-- `Vec::remove`
unfoldable pub remove_at {ℓ} : {A : Type ℓ} → ℕ → List A → Option (A × List A)
remove_at i [] = none
remove_at zero (x ∷ xs) = some (x, xs)
remove_at (suc i) (x ∷ xs) = elim (remove_at i xs) [ none ↦ none | some r ↦ some (r.0, x ∷ r.1) ]

abbrev pub new_rule : AddAppRuleRequest → FilePath → AppRule
new_rule req path = record { priority = req.priority; mode = req.mode; path = path }

module _ (env : Platform) where
  open env use {to_lowercase, is_absolute, exists}

  -- `validate_app_path`
  unfoldable pub validate_app_path : FilePath → Result RuleError FilePath
  validate_app_path path = do
    fail_if (not (is_absolute path)) not_absolute
    fail_if (not (ends_with (to_lowercase path) (bytes ".exe"))) not_exe
    fail_if (not (exists path)) not_found
    ok path

  abbrev pub is_same_path : Text → AppRule → Bool
  is_same_path normalized r = list_beq (normalize_path env r.path) normalized

  -- `add_app_rule`
  unfoldable pub add_app_rule :
      AddAppRuleRequest → AppConfig → Result RuleError (AppConfig × AppRule)
  unfolding validate_app_path
  add_app_rule req cfg = do
    fail_if (leb max_app_rules (length cfg.routing.app_rules)) max_reached
    path ← validate_app_path req.path
    fail_if (any (is_same_path (normalize_path env path)) cfg.routing.app_rules) already_exists
    check_mode cfg.routing.mode req.mode
    ok (
      with_app_rules
          (sort_by_key (λ r. r.priority) (cfg.routing.app_rules ++ new_rule req path ∷ [])) cfg,
      new_rule req path,
    )

  -- The test of `remove_app_rule`.
  abbrev pub is_related : Text → AppRule → Bool
  is_related normalized r =
      let rn : Text = normalize_path env r.path in
      list_beq rn normalized || (ends_with rn normalized || ends_with normalized rn)

  abbrev take_out :
      AppConfig → Option (AppRule × List AppRule) → Result RuleError (AppConfig × AppRule)
  take_out cfg none = err index_out_of_bounds
  take_out cfg (some (r, rest)) = ok (with_app_rules rest cfg, r)

  abbrev take_at : AppConfig → Option ℕ → Result RuleError (AppConfig × AppRule)
  take_at cfg none = err no_such_rule
  take_at cfg (some i) = take_out cfg (remove_at i cfg.routing.app_rules)

  -- `remove_app_rule`
  unfoldable pub remove_app_rule : FilePath → AppConfig → Result RuleError (AppConfig × AppRule)
  unfolding remove_at position
  remove_app_rule path cfg =
      take_at cfg (position (is_related (normalize_path env path)) cfg.routing.app_rules)
