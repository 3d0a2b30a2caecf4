-- ===== src/Service/TransportSelector/Choosing.antt =====
-- Which transport `TransportSelector::resolve` of
-- `crates/routeguard-service/src/transport_selector.rs` chooses.
use route_guard.Prelude.{
  ◌≡◌, refl, Bool, true, false, ◌&&◌, ◌||◌, not, Option, some, [], is_some, if◌then◌else◌, arith,
}
use route_guard.Prelude.Text.{Text, bytes}
use route_guard.Prelude.Result.{err}
use route_guard.Core.Transport.{TransportKind, TransportPreference, TunnelTransportConfig, is_auto}
use route_guard.Core.Transport.Merge.{merge_transport_config}
use route_guard.Lwo.Validation.{has_remote_udp, validate}
use route_guard.Service.TransportSelector.{
  TransportChoice, ConfText, Resolution, conflicting, requires_phantun, lwo_invalid, taken,
  fallen_back, or_tunnel, resolve_for, resolve,
}

-- The kind that is asked for: by the preference, else by the settings and the text, LWO before
-- Phantun.
abbrev pub wanted : TransportPreference → Bool → Bool → TransportKind
wanted TransportPreference.direct_udp lwo phantun = TransportKind.direct_udp
wanted TransportPreference.lwo lwo phantun = TransportKind.lwo
wanted TransportPreference.phantun lwo phantun = TransportKind.phantun
wanted TransportPreference.auto true phantun = TransportKind.lwo
wanted TransportPreference.auto false true = TransportKind.phantun
wanted TransportPreference.auto false false = TransportKind.direct_udp

-- Both are wanted and both are required, and the preference does not decide.
abbrev pub conflicts : TransportPreference → TunnelTransportConfig → Bool → Bool → Bool
conflicts p m lwo phantun = is_auto p && ((m.require_lwo && m.require_phantun) && (lwo && phantun))

-- LWO needs the keys and an address to send to, Phantun its client.
abbrev pub works : TransportKind → ConfText → Bool → TunnelTransportConfig → Bool
works TransportKind.direct_udp conf phantun_avail m = true
works TransportKind.phantun conf phantun_avail m = phantun_avail
works TransportKind.lwo conf phantun_avail m =
    conf.keys_parse && (has_remote_udp m.lwo || conf.has_peer)

-- A kind that is named by the preference or required is not replaced.
abbrev pub insists : TransportKind → TransportPreference → TunnelTransportConfig → Bool
insists TransportKind.direct_udp p m = false
insists TransportKind.phantun p m = not (is_auto p) || m.require_phantun
insists TransportKind.lwo p m = not (is_auto p) || m.require_lwo

abbrev kind_choice : TransportKind → TransportChoice
kind_choice TransportKind.direct_udp = TransportChoice.direct_udp
kind_choice TransportKind.phantun = TransportChoice.phantun
kind_choice TransportKind.lwo = TransportChoice.lwo

abbrev reason_for : TransportKind → Text
reason_for TransportKind.direct_udp = []
reason_for TransportKind.phantun = bytes "phantun_unavailable"
reason_for TransportKind.lwo = bytes "lwo_validation_failed"

abbrev refusal : TransportKind → ConfText → TunnelTransportConfig → Resolution
refusal TransportKind.direct_udp conf m = err conflicting
refusal TransportKind.phantun conf m = err requires_phantun
refusal TransportKind.lwo conf m =
    err (lwo_invalid (validate conf.keys_parse conf.has_peer m).issues)

-- The kind, where it works; else an error, where it is insisted on; else direct UDP.
abbrev pub select :
    TransportKind → TransportPreference → ConfText → Bool → TunnelTransportConfig → Resolution
select kind p conf phantun_avail m =
    if works kind conf phantun_avail m
    then taken kind (kind_choice kind) m
    else if insists kind p m
    then refusal kind conf m
    else fallen_back kind (reason_for kind) m

abbrev selected_for : TransportPreference → ConfText → Bool → TunnelTransportConfig → Resolution
selected_for p conf phantun_avail m =
    let lwo : Bool = is_some m.lwo || conf.wants_lwo in
    let phantun : Bool = is_some m.phantun || conf.wants_phantun in
    if conflicts p m lwo phantun
    then err conflicting
    else select (wanted p lwo phantun) p conf phantun_avail m

unfoldable pub selected : ConfText → Bool → TunnelTransportConfig → Resolution
selected conf phantun_avail m = selected_for m.preference conf phantun_avail m

-- The settings of LWO pass exactly when it can work.
valid-validate :
    (keys_parse has_peer : Bool) (m : TunnelTransportConfig)
    → (validate keys_parse has_peer m).valid ≡ (keys_parse && (has_remote_udp m.lwo || has_peer))
unfolding validate
valid-validate keys_parse has_peer m = ground arith

resolve_for-selects :
    (p : TransportPreference) (conf : ConfText) (phantun_avail : Bool) (m : TunnelTransportConfig)
    → resolve_for p conf phantun_avail m ≡ selected_for p conf phantun_avail m
unfolding resolve_for
resolve_for-selects TransportPreference.direct_udp conf phantun_avail m = refl
resolve_for-selects TransportPreference.phantun conf phantun_avail m = ground arith
resolve_for-selects TransportPreference.lwo conf phantun_avail m =
    ground (arith, valid-validate conf.keys_parse conf.has_peer m)
resolve_for-selects TransportPreference.auto conf phantun_avail m =
    ground (arith, valid-validate conf.keys_parse conf.has_peer m)

-- With the settings merged from the text, the profile and the override (the tunnel's own settings
-- where there is none), `resolve` refuses exactly when LWO and Phantun are both wanted and required
-- with no preference, or when the wanted kind does not work and is insisted on, by its require flag
-- or because the preference names it; it takes the wanted kind where it works, and falls back to
-- direct UDP, with the reason and the kind, elsewhere.
pub resolve-selects :
    (conf : ConfText) (phantun_avail : Bool) (tunnel : TunnelTransportConfig)
    (profile override_cfg : Option TunnelTransportConfig)
    → resolve conf phantun_avail tunnel profile override_cfg
      ≡ selected conf phantun_avail
          (merge_transport_config conf.hints profile (some (or_tunnel override_cfg tunnel)))
unfolding resolve selected
resolve-selects conf phantun_avail tunnel profile override_cfg =
    let m : TunnelTransportConfig =
      merge_transport_config conf.hints profile (some (or_tunnel override_cfg tunnel)) in
    resolve_for-selects m.preference conf phantun_avail m
