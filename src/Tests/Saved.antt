-- ===== src/Tests/Saved.antt =====
-- Saving, loading and synchronizing a store, and the policy compiled from a configuration.
use route_guard.Prelude.{ℕ, ◌≡◌, refl, some, none, [], ◌∷◌, map, arith}
use route_guard.Prelude.Text.{bytes}
use route_guard.Prelude.Dict
use route_guard.Prelude.Dict.{IsDistinct}
use route_guard.Prelude.Result.{ok}
use route_guard.Core.Config.{AppConfig, default_config, bypass}
use route_guard.Core.Net.{IpAddr, v4, ip_eq}
use route_guard.Core.Policy.{PolicySnapshot}
use route_guard.Routing.App
use route_guard.Routing.Domain
use route_guard.Routing.Domain.{DomainCache, Clock}
use route_guard.Routing.Rules.{with_app_rules}
use route_guard.Routing.SplitPolicy.{compile_with_domain_store}
use route_guard.Routing.SplitPolicy.Agreement.{compile-apps, filter_pair, rule_pair}
use route_guard.Routing.Store
use route_guard.Routing.Store.{
  ResolvedIpEntry, DomainRouteStore, DomainRouteStoreConfig, default_store_config, new,
  entry_for_ip,
}
use route_guard.Routing.Store.History.{IsValid}
use route_guard.Routing.Store.Persist.{
  Json, to_persisted, persist_json, load_persisted, insert_live, empty_store,
}
use route_guard.Routing.Store.Persist.Reload.{load_persisted-IsValid, lookup-load_persisted}
use route_guard.Routing.Store.Sync.{sync_domain_cache}
use route_guard.Routing.Store.Sync.Lookup.{lookup_ip-sync_domain_cache}
use route_guard.Tests.Sample.{test_platform, test_engine, test_app_rules}

abbrev entry : IpAddr → ℕ → ResolvedIpEntry
entry ip expires_at = record {
  ip = ip;
  domain = bytes "example.com";
  pattern = bytes "example.com";
  target = bypass;
  expires_at = expires_at;
  ttl_secs = 60;
}

-- The second entry expires first.
abbrev saved_store : DomainRouteStore
saved_store = record (new default_store_config) {
  by_ip = (v4 1, entry (v4 1) 300) ∷ (v4 2, entry (v4 2) 200) ∷ [];
  by_domain = (bytes "example.com", v4 1 ∷ v4 2 ∷ []) ∷ [];
}

saved_store-IsDistinct : IsDistinct saved_store.by_ip
unfolding Dict.lookup
saved_store-IsDistinct = (refl, (refl, tt))

-- It writes nothing and reads the one store that was saved.
abbrev test_json : Json
test_json = record {
  from_str = λ text. some (to_persisted saved_store);
  to_string_pretty = λ cache. some [];
}

abbrev test_clock : Clock
test_clock = record { instant = 7; unix_secs = 250 }

abbrev stale_cache : DomainCache
stale_cache = record { rules = []; resolved = []; ip_index = (v4 9, bypass) ∷ [] }

lookup_ip-sync_domain_cache_example :
    Domain.lookup_ip 7 (sync_domain_cache test_clock saved_store stale_cache) (v4 2)
    ≡ Store.lookup_ip 250 saved_store (v4 2)
lookup_ip-sync_domain_cache_example =
    lookup_ip-sync_domain_cache test_clock saved_store stale_cache (v4 2) saved_store-IsDistinct
      (refl, (refl, tt))

abbrev loaded_store : DomainRouteStore
loaded_store =
    insert_live 250 (to_persisted saved_store).entries (empty_store 0 default_store_config)

load_persisted-IsValid_example : IsValid default_store_config loaded_store
unfolding load_persisted to_persisted
load_persisted-IsValid_example =
    load_persisted-IsValid test_json 250 [] default_store_config loaded_store refl

lookup-load_persisted_example :
    (loaded : DomainRouteStore) × (load_persisted test_json 250 [] default_store_config ≡ ok loaded)
    × (Dict.lookup (v4 2) loaded.by_ip ≡ none)
unfolding persist_json entry_for_ip Dict.lookup
lookup-load_persisted_example =
    lookup-load_persisted test_json 250 [] default_store_config saved_store (v4 2) refl refl
      saved_store-IsDistinct (refl, (refl, tt)) (omega arith) (omega arith)

abbrev test_config : AppConfig
test_config = with_app_rules test_app_rules default_config

abbrev test_policy : PolicySnapshot
test_policy =
    compile_with_domain_store test_platform (λ ip. bytes "ip") 250 test_config test_engine (some 42)
      none none (some saved_store)

compile-apps_example :
    (map (filter_pair test_platform) test_policy.bypass_apps
      ≡ map (rule_pair test_platform) (App.from_rules test_platform test_app_rules).excludes)
    × (test_policy.tunnel_apps ≡ [])
compile-apps_example =
    compile-apps test_platform (λ ip. bytes "ip") 250 test_config test_engine (some 42) none none
      (some saved_store)
