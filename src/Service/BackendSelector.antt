-- ===== src/Service/BackendSelector.antt =====
-- `TunnelBackendSelector::resolve` of `crates/routeguard-service/src/backend_selector.rs`. Whether the
-- configuration file has AmneziaWG parameters and whether the library loads are arguments.
use route_guard.Prelude.{
  ◌≡◌, Bool, true, false, ◌&&◌, ◌||◌, not, if◌then◌else◌, Option, none, some, is_some, arith,
}
use route_guard.Prelude.Text.{Text, bytes}
use route_guard.Prelude.Result.{Result, ok, err, ◌>>=◌, is_ok}
use route_guard.Core.Backend.{BackendKind, is_awg, TunnelBackendPreference}
use route_guard.Core.Config.{TunnelConfig}

pub record ResolvedBackend : Type 0 where
  pub kind : BackendKind
  pub fallback : Bool
  pub fallback_reason : Option Text

pub data BackendChoice : Type 0 where
  wgnt awg : BackendChoice

pub data SelectorError : Type 0 where
  requires_library require_awg_unmet : SelectorError

abbrev resolved : BackendKind → Bool → Option Text → ResolvedBackend
resolved kind fallback reason = record {
  kind = kind;
  fallback = fallback;
  fallback_reason = reason;
}

-- The `match` on the preference.
unfoldable pub resolve_kind :
    TunnelBackendPreference → Bool → Bool → Bool → Result SelectorError ResolvedBackend
resolve_kind TunnelBackendPreference.wireguard_nt require_awg conf_has_awg probe =
    ok (resolved BackendKind.wireguard_nt false none)
resolve_kind TunnelBackendPreference.awg require_awg conf_has_awg probe =
    if not probe then err requires_library else ok (resolved BackendKind.awg false none)
resolve_kind TunnelBackendPreference.auto require_awg conf_has_awg probe =
    if conf_has_awg && probe
    then ok (resolved BackendKind.awg false none)
    else if conf_has_awg && not probe
    then (if require_awg
        then err require_awg_unmet
        else ok (
            resolved BackendKind.wireguard_nt true (some (bytes "awg_params_present_dll_missing"))))
    else ok (resolved BackendKind.wireguard_nt false none)

abbrev pub choice_for : BackendKind → BackendChoice
choice_for BackendKind.awg = awg
choice_for BackendKind.wireguard_nt = wgnt

-- `resolve`
unfoldable pub resolve :
    Bool → Bool → TunnelConfig → Result SelectorError (ResolvedBackend × BackendChoice)
unfolding resolve_kind
resolve conf_has_awg probe config = do
  r ← resolve_kind config.backend config.require_awg conf_has_awg probe
  ok (r, choice_for r.kind)

-- Which backend is asked for by name, and whether AmneziaWG is wanted at all.
abbrev pub wants_awg : TunnelBackendPreference → Bool → Bool
wants_awg TunnelBackendPreference.wireguard_nt conf_has_awg = false
wants_awg TunnelBackendPreference.awg conf_has_awg = true
wants_awg TunnelBackendPreference.auto conf_has_awg = conf_has_awg

-- Whether a missing library is an error.
abbrev pub insists : TunnelBackendPreference → Bool → Bool
insists TunnelBackendPreference.wireguard_nt require_awg = false
insists TunnelBackendPreference.awg require_awg = true
insists TunnelBackendPreference.auto require_awg = require_awg

-- `resolve` fails exactly when AmneziaWG is wanted, the library does not load, and the preference
-- or `require_awg` insists.
pub resolve-is_ok :
    (conf_has_awg probe : Bool) (config : TunnelConfig)
    → is_ok (resolve conf_has_awg probe config) ≡ (
        not (wants_awg config.backend conf_has_awg)
        || (probe || not (insists config.backend config.require_awg)))
unfolding resolve
resolve-is_ok conf_has_awg probe config = ground arith

-- When `resolve` succeeds, AmneziaWG is chosen exactly when it is wanted and the library loads; the
-- result is a fallback exactly when it is wanted and the library does not load, and only then it has
-- a reason; a fallback never happens where the preference or `require_awg` insists.
pub resolve-ok :
    (conf_has_awg probe : Bool) (config : TunnelConfig) (r : ResolvedBackend)
    (choice : BackendChoice)
    → resolve conf_has_awg probe config ≡ ok (r, choice)
    → (choice ≡ choice_for r.kind)
      × (is_awg r.kind ≡ (wants_awg config.backend conf_has_awg && probe))
      × (r.fallback ≡ (wants_awg config.backend conf_has_awg && not probe))
      × (is_some r.fallback_reason ≡ r.fallback)
      × ((r.fallback && insists config.backend config.require_awg) ≡ false)
unfolding resolve
resolve-ok conf_has_awg probe config r choice h = ground arith
