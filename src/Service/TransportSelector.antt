-- ===== src/Service/TransportSelector.antt =====
-- `TransportSelector::resolve` of `crates/routeguard-service/src/transport_selector.rs`. What is
-- read in the text of the configuration, and whether the client of Phantun is found, are arguments.
pub mod Choosing
use route_guard.Prelude.{
  Bool, true, false, ◌&&◌, ◌||◌, not, Option, none, some, List, is_some, if◌then◌else◌,
}
use route_guard.Prelude.Text.{Text, bytes}
use route_guard.Prelude.Result.{Result, ok, err}
use route_guard.Core.Transport.{
  TransportKind, TransportPreference, TunnelTransportConfig, ResolvedTransport,
}
use route_guard.Core.Transport.Merge.{merge_transport_config}
use route_guard.Lwo.Validation.{TransportValidationIssue, TransportValidateResult, validate}

pub data TransportChoice : Type 0 where
  direct_udp phantun lwo : TransportChoice

-- What `transport_hints_from_conf`, `conf_wants_lwo`, `conf_wants_phantun`, `parse_lwo_keys` and
-- `parse_peer_endpoint` read in the text.
pub record ConfText : Type 0 where
  pub hints : TunnelTransportConfig
  pub wants_lwo : Bool
  pub wants_phantun : Bool
  pub keys_parse : Bool
  pub has_peer : Bool

pub data ResolveError : Type 0 where
  conflicting requires_phantun : ResolveError
  lwo_invalid : List TransportValidationIssue → ResolveError

abbrev pub Resolution : Type 0
Resolution = Result ResolveError (ResolvedTransport × TransportChoice × TunnelTransportConfig)

-- The kind as asked for.
abbrev pub taken : TransportKind → TransportChoice → TunnelTransportConfig → Resolution
taken kind choice merged = ok (
  record { kind = kind; fallback = false; fallback_reason = none; requested = none },
  choice,
  merged,
)

-- Direct UDP in place of the kind.
abbrev pub fallen_back : TransportKind → Text → TunnelTransportConfig → Resolution
fallen_back kind reason merged = ok (
  record {
    kind = TransportKind.direct_udp;
    fallback = true;
    fallback_reason = some reason;
    requested = some kind;
  },
  direct_udp,
  merged,
)

-- `resolve_lwo`
unfoldable pub resolve_lwo : ConfText → TunnelTransportConfig → Bool → Resolution
resolve_lwo conf merged explicit =
    let validation : TransportValidateResult = validate conf.keys_parse conf.has_peer merged in
    if not validation.valid
    then (if merged.require_lwo || explicit
        then err (lwo_invalid validation.issues)
        else fallen_back TransportKind.lwo (bytes "lwo_validation_failed") merged)
    else taken TransportKind.lwo lwo merged

-- `resolve_phantun`
unfoldable pub resolve_phantun : Bool → TunnelTransportConfig → Bool → Resolution
resolve_phantun phantun_avail merged explicit =
    if phantun_avail
    then taken TransportKind.phantun phantun merged
    else if merged.require_phantun || explicit
    then err requires_phantun
    else fallen_back TransportKind.phantun (bytes "phantun_unavailable") merged

-- After the `match` on the preference.
unfoldable pub resolve_auto : ConfText → Bool → TunnelTransportConfig → Resolution
unfolding resolve_lwo resolve_phantun
resolve_auto conf phantun_avail merged =
    let want_lwo : Bool = is_some merged.lwo || conf.wants_lwo in
    let want_phantun : Bool = is_some merged.phantun || conf.wants_phantun in
    if want_lwo && (want_phantun && (merged.require_phantun && merged.require_lwo))
    then err conflicting
    else if want_lwo
    then resolve_lwo conf merged false
    else if want_phantun
    then resolve_phantun phantun_avail merged false
    else taken TransportKind.direct_udp direct_udp merged

unfoldable pub resolve_for :
    TransportPreference → ConfText → Bool → TunnelTransportConfig → Resolution
unfolding resolve_lwo resolve_phantun resolve_auto
resolve_for TransportPreference.direct_udp conf phantun_avail merged =
    taken TransportKind.direct_udp direct_udp merged
resolve_for TransportPreference.lwo conf phantun_avail merged = resolve_lwo conf merged true
resolve_for TransportPreference.phantun conf phantun_avail merged =
    resolve_phantun phantun_avail merged true
resolve_for TransportPreference.auto conf phantun_avail merged =
    resolve_auto conf phantun_avail merged

-- `override_cfg.or(Some(tunnel_transport))`
abbrev pub or_tunnel : Option TunnelTransportConfig → TunnelTransportConfig → TunnelTransportConfig
or_tunnel none tunnel_transport = tunnel_transport
or_tunnel (some cfg) tunnel_transport = cfg

-- `resolve`
unfoldable pub resolve :
    ConfText
    → Bool
    → TunnelTransportConfig
    → Option TunnelTransportConfig
    → Option TunnelTransportConfig
    → Resolution
unfolding resolve_for
resolve conf phantun_avail tunnel_transport profile override_cfg =
    let merged : TunnelTransportConfig =
      merge_transport_config conf.hints profile (some (or_tunnel override_cfg tunnel_transport)) in
    resolve_for merged.preference conf phantun_avail merged
