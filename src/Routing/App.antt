-- ===== src/Routing/App.antt =====
-- `crates/routeguard-routing/src/app.rs`: application rules and how a path is matched.
pub mod Glob
pub mod Selection
use route_guard.Prelude.{
  ℕ, ◌+◌, Bool, true, false, ◌||◌, Option, none, some, List, [], ◌∷◌, ◌++◌, is_empty, length, drop,
  if◌then◌else◌, nat_beq, find, list_beq, nat_eq,
}
use route_guard.Prelude.Text.{Text, starts_with, ends_with, find_sub, contains_byte, replace_byte}
use route_guard.Prelude.Sort.{sort_by_key}
use route_guard.Core.Net.{Platform, FilePath}
use route_guard.Core.Config.{
  RoutingMode, full_tunnel, split_include, RuleMode, include, exclude, AppRule,
}

pub record AppRuleEntry : Type 0 where
  pub priority : ℕ
  pub path : FilePath
  pub normalized : Text

pub record AppRuleSet : Type 0 where
  pub excludes : List AppRuleEntry
  pub includes : List AppRuleEntry

-- `str::split('*')`: the pieces between the stars, always at least one.
abbrev pub cons_head : ℕ → List Text → List Text
cons_head c [] = (c ∷ []) ∷ []
cons_head c (p ∷ ps) = (c ∷ p) ∷ ps

unfoldable pub split_byte : ℕ → Text → List Text
split_byte b [] = [] ∷ []
split_byte b (c ∷ s) = if nat_beq c b then [] ∷ split_byte b s else cons_head c (split_byte b s)

-- The rounds of `glob_match`'s loop after the first; `pos` is its variable.
unfoldable pub glob_rest : Text → ℕ → List Text → Bool
glob_rest text pos [] = true
glob_rest text pos (part ∷ []) = if is_empty part then true else ends_with (drop pos text) part
glob_rest text pos (part ∷ next ∷ parts) =
    let skip = glob_rest text pos (next ∷ parts) in
    let found : Bool = elim (find_sub (drop pos text) part) [
      | none ↦ false
      | some idx ↦ glob_rest text (pos + (idx + length part)) (next ∷ parts)
    ] in
    if is_empty part then skip else found

unfoldable pub glob_parts : Text → List Text → Bool
unfolding glob_rest
glob_parts text [] = true
glob_parts text (part ∷ parts) =
    if is_empty part
    then glob_rest text 0 parts
    else if starts_with text part
    then glob_rest text (length part) parts
    else false

unfoldable pub glob_match : Text → Text → Bool
unfolding glob_parts split_byte
glob_match pattern text = glob_parts text (split_byte b'*' pattern)

unfoldable pub path_matches : Text → Text → Bool
unfolding glob_match
path_matches rule candidate =
    if contains_byte b'*' rule
    then glob_match rule candidate
    else list_beq candidate rule || ends_with candidate rule

abbrev pub push_entry : RuleMode → AppRuleEntry → AppRuleSet → AppRuleSet
push_entry exclude entry set = record set { excludes = set.excludes ++ entry ∷ [] }
push_entry include entry set = record set { includes = set.includes ++ entry ∷ [] }

abbrev pub hit : RuleMode → Option AppRuleEntry → Option (RuleMode × ℕ)
hit mode none = none
hit mode (some rule) = some (mode, rule.priority)

module _ (env : Platform) where
  open env use {to_lowercase}

  unfoldable pub normalize_path : FilePath → Text
  unfolding replace_byte
  normalize_path path = to_lowercase (replace_byte b'/' 92 path)

  abbrev pub entry_of : AppRule → AppRuleEntry
  entry_of rule = record {
    priority = rule.priority;
    path = rule.path;
    normalized = normalize_path rule.path;
  }

  -- The loop of `from_rules`.
  unfoldable pub push_rules : List AppRule → AppRuleSet → AppRuleSet
  push_rules [] set = set
  push_rules (rule ∷ rules) set = push_rules rules (push_entry rule.mode (entry_of rule) set)

  -- `AppRuleSet::from_rules`
  unfoldable pub from_rules : List AppRule → AppRuleSet
  unfolding push_rules
  from_rules rules =
      let set : AppRuleSet = push_rules rules (record { excludes = []; includes = [] }) in
      record {
        excludes = sort_by_key (λ r. r.priority) set.excludes;
        includes = sort_by_key (λ r. r.priority) set.includes;
      }

  -- `AppRuleSet::match_path`
  unfoldable pub match_path : AppRuleSet → FilePath → RoutingMode → Option (RuleMode × ℕ)
  unfolding normalize_path path_matches
  match_path set app_path full_tunnel =
      let normalized : Text = normalize_path app_path in
      hit exclude (find (λ rule. path_matches rule.normalized normalized) set.excludes)
  match_path set app_path split_include =
      let normalized : Text = normalize_path app_path in
      hit include (find (λ rule. path_matches rule.normalized normalized) set.includes)
