-- ===== src/Core/Transport/Merge.antt =====
-- `merge_transport_config` of `crates/routeguard-core/src/transport/conf.rs`: three layers of
-- settings, the later ones winning.
use route_guard.Prelude.{◌≡◌, true, not, ◌||◌, Option, none, some, if◌then◌else◌, is_some, arith}
use route_guard.Core.Transport.{
  TransportPreference, TunnelTransportConfig, is_auto, default_transport,
}

abbrev over {ℓ} : {A : Type ℓ} → Option A → Option A → Option A
over new old = if is_some new then new else old

-- The block of the profile.
merge_profile : TunnelTransportConfig → Option TunnelTransportConfig → TunnelTransportConfig
merge_profile out none = out
merge_profile out (some p) = record {
  preference =
      if not (is_auto p.preference) || is_auto out.preference then p.preference else out.preference;
  require_phantun = out.require_phantun || p.require_phantun;
  require_lwo = out.require_lwo || p.require_lwo;
  phantun = over p.phantun out.phantun;
  lwo = over p.lwo out.lwo;
}

-- The block of the override.
merge_override : TunnelTransportConfig → Option TunnelTransportConfig → TunnelTransportConfig
merge_override out none = out
merge_override out (some o) = record {
  preference = if not (is_auto o.preference) then o.preference else out.preference;
  require_phantun = if o.require_phantun then true else out.require_phantun;
  require_lwo = if o.require_lwo then true else out.require_lwo;
  phantun = over o.phantun out.phantun;
  lwo = over o.lwo out.lwo;
}

unfoldable pub merge_transport_config :
    TunnelTransportConfig
    → Option TunnelTransportConfig
    → Option TunnelTransportConfig
    → TunnelTransportConfig
unfolding merge_profile merge_override
merge_transport_config base profile override_cfg =
    merge_override (merge_profile base profile) override_cfg

-- What a layer says, `default_transport` where there is none.
abbrev pub layer : Option TunnelTransportConfig → TunnelTransportConfig
layer none = default_transport
layer (some c) = c

-- The choice of the latest layer that makes one.
abbrev pub latest : TransportPreference → TransportPreference → TransportPreference
latest new old = if is_auto new then old else new

-- The merged preference is that of the override, else that of the profile, else that of the base,
-- where `Auto` counts as no choice; and the merged `require_*` flags hold exactly when a layer sets
-- them.
pub merge-precedence :
    (base : TunnelTransportConfig) (profile override_cfg : Option TunnelTransportConfig)
    → let m = merge_transport_config base profile override_cfg in
      let p = layer profile in
      let o = layer override_cfg in
      (m.preference ≡ latest o.preference (latest p.preference base.preference))
      × (m.require_phantun ≡ (o.require_phantun || (p.require_phantun || base.require_phantun)))
      × (m.require_lwo ≡ (o.require_lwo || (p.require_lwo || base.require_lwo)))
unfolding merge_transport_config
merge-precedence base none none = ground arith
merge-precedence base none (some o) = ground arith
merge-precedence base (some p) none = ground arith
merge-precedence base (some p) (some o) = (ground arith, ground arith, ground arith)
