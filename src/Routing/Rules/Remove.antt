-- ===== src/Routing/Rules/Remove.antt =====
-- `remove_app_rule` of rules_ops.rs takes out the first rule that its test accepts.
use route_guard.Prelude.{
  ◌⊎◌, Bool-cases, suc, ap, ℕ, ◌≡◌, refl, Bool, true, false, none, some, List, [], ◌∷◌, ◌++◌, All,
  inl, inr,
}
use route_guard.Prelude.Result.{ok, err}
use route_guard.Core.Net.{Platform, FilePath}
use route_guard.Core.Config.{AppRule, AppConfig}
use route_guard.Routing.App.{normalize_path}
use route_guard.Routing.Rules.{
  position, remove_at, remove_app_rule, is_related, with_app_rules, no_such_rule,
}

-- The list is `before ++ x ∷ after`, `x` passes the test and no element before it does.
pub record FirstAt {ℓ} {A : Type ℓ} (p : A → Bool) (x : A) (rest xs : List A) : Type ℓ where
  pub before : List A
  pub after : List A
  pub whole : xs ≡ before ++ x ∷ after
  pub left : rest ≡ before ++ after
  pub none_before : All (λ y. p y ≡ false) before
  pub found : p x ≡ true

-- What taking out the element at `position` gives.
abbrev Taken {ℓ} : {A : Type ℓ} → (A → Bool) → List A → Type ℓ
Taken {A = A} p xs =
    (i : ℕ) × (x : A) × (rest : List A) × (position p xs ≡ some i)
    × (remove_at i xs ≡ some (x, rest))
    × FirstAt p x rest xs

take_first {ℓ} :
    {A : Type ℓ} (p : A → Bool) (xs : List A)
    → ((position p xs ≡ none) × All (λ y. p y ≡ false) xs) ⊎ Taken p xs
unfolding position remove_at
take_first p [] = inl (refl, tt)
take_first p (x ∷ xs) = elim (Bool-cases (p x)) [
  | inl here ↦ inr (
    0,
    x,
    xs,
    rw here refl,
    refl,
    record { before = []; after = xs; whole = refl; left = refl; none_before = tt; found = here },
  )
  | inr later ↦ elim (take_first p xs) [
    | inl (gone, none_passes) ↦ inl (rw (gone, later) refl, (later, none_passes))
    | inr (i, y, rest, at, out, first) ↦ inr (
      suc i,
      y,
      x ∷ rest,
      rw (at, later) refl,
      rw out refl,
      record {
        before = x ∷ first.before;
        after = first.after;
        whole = ap (λ r. x ∷ r) first.whole;
        left = ap (λ r. x ∷ r) first.left;
        none_before = (later, first.none_before);
        found = first.found;
      },
    )
  ]
]

abbrev rules_of : AppConfig → List AppRule
rules_of cfg = cfg.routing.app_rules

-- `remove_app_rule` fails, with `no_such_rule`, exactly when no rule is related to the path: no
-- normalized path of a rule is the wanted one, ends with it or is an end of it. It never panics.
-- Otherwise it takes out the first related rule, returns it and keeps all others in their order.
pub remove_app_rule-first :
    (env : Platform) (path : FilePath) (cfg : AppConfig)
    → ((remove_app_rule env path cfg ≡ err no_such_rule)
        × All (λ r. is_related env (normalize_path env path) r ≡ false) (rules_of cfg))
      ⊎ ((r : AppRule) × (rest : List AppRule) × (remove_app_rule env path cfg
            ≡ ok (with_app_rules rest cfg, r))
          × FirstAt (is_related env (normalize_path env path)) r rest (rules_of cfg))
unfolding remove_app_rule
remove_app_rule-first env path cfg =
    elim (take_first (is_related env (normalize_path env path)) (rules_of cfg)) [
      | inl (gone, none_passes) ↦ inl (rw gone refl, none_passes)
      | inr (i, r, rest, at, out, first) ↦ inr (r, rest, rw (at, out) refl, first)
    ]
