-- ===== src/Tests/Settings.antt =====
-- Layers of transport settings, edits of the application rules, and the obfuscated header.
use route_guard.Prelude.{
  ℕ, zero, suc, ◌≡◌, ◌⊎◌, refl, Bool, true, false, ◌||◌, Option, none, some, List, [], ◌∷◌, All,
  arith,
}
use route_guard.Prelude.Text.{Text, bytes}
use route_guard.Prelude.Result.{ok, err}
use route_guard.Core.Config.{AppRule, AppConfig, default_config, exclude}
use route_guard.Core.Transport.{TunnelTransportConfig, TransportPreference, default_transport}
use route_guard.Core.Transport.Merge.{merge_transport_config, merge-precedence}
use route_guard.Lwo.Wire.{header_len, header_size, obfuscate, deobfuscate}
use route_guard.Lwo.Wire.Roundtrip.{deobfuscate-obfuscate}
use route_guard.Routing.App.{normalize_path}
use route_guard.Routing.Rules.{
  AddAppRuleRequest, add_app_rule, remove_app_rule, with_app_rules, new_rule, is_related,
  no_such_rule,
}
use route_guard.Routing.Rules.Add.{IsRuleList, add_app_rule-IsRuleList, remove_app_rule-IsRuleList}
use route_guard.Routing.Rules.Remove.{FirstAt, remove_app_rule-first}
use route_guard.Core.Transport.{TransportKind}
use route_guard.Service.TransportSelector.{ConfText, fallen_back, resolve}
use route_guard.Service.TransportSelector.Choosing.{selected, resolve-selects}
use route_guard.Tests.Sample.{test_platform, steam}

-- The override asks for LWO, the profile for Phantun.
abbrev asks_phantun : TunnelTransportConfig
asks_phantun = record default_transport {
  preference = TransportPreference.phantun;
  require_phantun = true;
}

abbrev asks_lwo : TunnelTransportConfig
asks_lwo = record default_transport { preference = TransportPreference.lwo }

merge-precedence_example :
    let m = merge_transport_config default_transport (some asks_phantun) (some asks_lwo) in
    (m.preference ≡ TransportPreference.lwo) × (m.require_phantun ≡ true) × (m.require_lwo ≡ false)
merge-precedence_example = merge-precedence default_transport (some asks_phantun) (some asks_lwo)

abbrev request : AddAppRuleRequest
request = record { path = steam; mode = exclude; priority = 10 }

abbrev with_steam : AppConfig
with_steam = with_app_rules (new_rule request steam ∷ []) default_config

default_config-IsRuleList : IsRuleList test_platform default_config
default_config-IsRuleList = record { bounded = omega arith; sorted = tt; unique = tt; fitting = tt }

with_steam-IsRuleList : IsRuleList test_platform with_steam
with_steam-IsRuleList = record {
  bounded = omega arith;
  sorted = (tt, tt);
  unique = (tt, tt);
  fitting = (refl, tt);
}

add_app_rule-IsRuleList_example :
    IsRuleList test_platform with_steam × (new_rule request steam ≡ new_rule request steam)
unfolding add_app_rule route_guard.Prelude.Text.ends_with
    route_guard.Prelude.Text.to_ascii_lowercase route_guard.Prelude.Sort.sort_by_key
add_app_rule-IsRuleList_example =
    add_app_rule-IsRuleList test_platform request default_config with_steam (new_rule request steam)
      default_config-IsRuleList refl

remove_app_rule-IsRuleList_example : IsRuleList test_platform default_config
unfolding remove_app_rule normalize_path route_guard.Prelude.Text.to_ascii_lowercase
    route_guard.Prelude.Text.ends_with
remove_app_rule-IsRuleList_example =
    remove_app_rule-IsRuleList test_platform (bytes "steam.exe") with_steam default_config
      (new_rule request steam) with_steam-IsRuleList refl

remove_app_rule-first_example :
    ((remove_app_rule test_platform (bytes "steam.exe") with_steam ≡ err no_such_rule)
      × All
          (λ r.
            is_related test_platform (normalize_path test_platform (bytes "steam.exe")) r ≡ false)
          with_steam.routing.app_rules)
    ⊎ ((r : AppRule) × (rest : List AppRule) × (remove_app_rule test_platform
            (bytes "steam.exe")
            with_steam
          ≡ ok (with_app_rules rest with_steam, r))
        × FirstAt
            (is_related test_platform (normalize_path test_platform (bytes "steam.exe")))
            r
            rest
            with_steam.routing.app_rules)
remove_app_rule-first_example = remove_app_rule-first test_platform (bytes "steam.exe") with_steam

-- A data message of 32 bytes, type 4, and a key whose bytes are all 239.
abbrev repeated : ℕ → ℕ → List ℕ
repeated zero b = []
repeated (suc n) b = b ∷ repeated n b

deobfuscate-obfuscate_example :
    deobfuscate (obfuscate 77 (4 ∷ repeated 40 0) (repeated 32 239)) (repeated 32 239)
    ≡ 4 ∷ repeated 40 0
unfolding header_len header_size
deobfuscate-obfuscate_example =
    deobfuscate-obfuscate 77 32 (4 ∷ repeated 40 0) (repeated 32 239) refl refl

-- Both transports are wanted, and the text has no keys.
abbrev keyless : ConfText
keyless = record {
  hints = default_transport;
  wants_lwo = true;
  wants_phantun = true;
  keys_parse = false;
  has_peer = true;
}

resolve-selects_example :
    resolve keyless true default_transport none none
    ≡ fallen_back TransportKind.lwo (bytes "lwo_validation_failed") default_transport
unfolding selected merge_transport_config
resolve-selects_example = resolve-selects keyless true default_transport none none
