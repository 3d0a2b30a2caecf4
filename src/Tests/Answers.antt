-- ===== src/Tests/Answers.antt =====
-- A manager with one rule that hears of one address.
use route_guard.Prelude.{
  ℕ, ◌+◌, ◌^◌, ◌≡◌, ◌<◌, refl, Bool, true, false, none, some, List, [], ◌∷◌, is_empty, arith,
}
use route_guard.Prelude.Text.{Text, bytes}
use route_guard.Prelude.Dict
use route_guard.Core.Net.{IpAddr, v4, ip_eq}
use route_guard.Core.Config.{DomainRule, bypass}
use route_guard.Core.Policy.{PolicySnapshot, default_policy}
use route_guard.Routing.Domain
use route_guard.Routing.Domain.{DomainRuleEntry}
use route_guard.Routing.Store
use route_guard.Routing.Store.{DomainRouteStore, DomainRouteStoreConfig}
use route_guard.Routing.Store.History.{
  call, start, after, set_rules_call, IsValid, Reachable-IsValid,
}
use route_guard.Routing.Store.Persist.{Json}
use route_guard.Platform.Routes.{DomainRouteHandle}
use route_guard.Platform.Routes.Session.Tracking.{Owns}
use route_guard.Service.DomainRouting
use route_guard.Service.DomainRouting.{Files, Moment, State, new, on_dns_response, rebuild_rules}
use route_guard.Service.DomainRouting.Agreement.{on_dns_response-agrees}
use route_guard.Service.DomainRouting.Soundness.{
  Managed, made, performed, perform, rebuild_call, answer_call, Managed-Owns,
}
use route_guard.Tests.Sample.{test_platform, test_engine}
use route_guard.Tests.Routes.{test_system, fresh, fresh-Reachable, same_net}

abbrev no_files : Files
no_files = record {
  Fs = ℕ;
  exists_cache = λ files. false;
  read_to_string = λ files. none;
  create_dir_all = λ files. (files, true);
  write = λ text files. (files + 1, true);
}

abbrev no_json : Json
no_json = record { from_str = λ text. none; to_string_pretty = λ cache. some [] }

abbrev room : DomainRouteStoreConfig
room = record { max_resolved_ips = 4; max_domains = 4; min_ttl_secs = 30; max_ttl_secs = 3600 }

abbrev noon : Moment
noon = record { clock = record { unix_secs = 1000; instant = 50 }; engine_free = true }

abbrev work_rules : List DomainRule
work_rules = record { priority = 1; pattern = bytes "*.work.com"; target = bypass } ∷ []

abbrev interfaces : PolicySnapshot
interfaces = record default_policy { tunnel_if_index = some 4; physical_if_index = some 5 }

abbrev answers : List (IpAddr × ℕ)
answers = (v4 7, 60) ∷ []

abbrev first_state : State test_platform test_system no_files no_json
first_state = new test_platform test_system no_files no_json noon room test_engine 0 fresh

abbrev ruled : State test_platform test_system no_files no_json
ruled =
    perform test_platform test_system no_files no_json (rebuild_call noon work_rules) first_state

abbrev answered : State test_platform test_system no_files no_json
answered =
    perform test_platform test_system no_files no_json
      (answer_call noon (bytes "a.work.com") answers interfaces) ruled

first_handle : first_state.routes.table.next_handle ≡ 1
unfolding new
first_handle = refl

ruled_handle : ruled.routes.table.next_handle ≡ 1
unfolding perform rebuild_rules Store.prune_unmatched_rules Store.remove_all Store.set_rules new
ruled_handle = refl

ruled-Managed : Managed test_platform test_system no_files no_json room ruled
ruled-Managed =
    performed (rebuild_call noon work_rules) (omega (arith, first_handle))
      (made noon test_engine 0 fresh fresh-Reachable (omega arith))

answered-Managed : Managed test_platform test_system no_files no_json room answered
answered-Managed =
    performed (answer_call noon (bytes "a.work.com") answers interfaces)
      (omega (arith, ruled_handle)) ruled-Managed

abbrev work_route : DomainRouteHandle
work_route = record { ip = v4 7; route_handle = 1; expires_at = 1060; target = bypass }

routed : Dict.lookup (v4 7) answered.routes.session.domain_routes ≡ some work_route
unfolding perform new on_dns_response rebuild_rules DomainRouting.apply_answer
    DomainRouting.sync_engine DomainRouting.sync_domain_store DomainRouting.persist
    DomainRouting.install_added DomainRouting.remove_gone DomainRouting.load_persisted
    Store.prune_unmatched_rules Store.remove_all Store.set_rules Store.match_domain Domain.best_rule
    Domain.sorted_entries Domain.domain_matches Domain.normalize_domain Store.insert_entry
    Store.place_entry Store.enforce_caps Store.evict_ips Store.evict_domains Store.link Dict.lookup
    Dict.insert Dict.remove route_guard.Prelude.Sort.min_by_key route_guard.Prelude.Sort.sort_by_key
    route_guard.Prelude.Text.starts_with route_guard.Prelude.Text.ends_with
    route_guard.Prelude.Text.to_ascii_lowercase route_guard.Prelude.Text.trim_end_matches
    route_guard.Platform.Routes.Session.install_domain_route route_guard.Platform.Routes.add_route
    route_guard.Routing.Store.Apply.apply_resolved route_guard.Routing.Store.Apply.clamp_ttl
    route_guard.Routing.Store.Apply.upsert route_guard.Routing.Store.Apply.upsert_all
    route_guard.Routing.Store.Persist.persist_json route_guard.Routing.Store.Persist.to_persisted
    route_guard.Routing.Store.Sync.sync_domain_cache route_guard.Routing.Store.Sync.sync_entries
    route_guard.Routing.Store.Sync.sync_entry
routed = refl

Managed-Owns_example :
    IsValid room answered.store × Owns test_platform test_system answered.routes (v4 7) work_route
Managed-Owns_example =
    Managed-Owns test_platform test_system no_files no_json same_net room answered (v4 7) work_route
      answered-Managed routed

-- The same answer for a store that has the rules.
abbrev ruled_store : DomainRouteStore
ruled_store = call (set_rules_call work_rules) (Store.new room)

ruled_store-IsValid : IsValid room ruled_store
ruled_store-IsValid = Reachable-IsValid room ruled_store (after (set_rules_call work_rules) start)

abbrev asked : State test_platform test_system no_files no_json
asked = record {
  store = ruled_store;
  engine = test_engine;
  dns_redirect_active = true;
  explicit_proxy = false;
  store_config = room;
  events = [];
  files = 0;
  routes = fresh;
}

abbrev work_rule : DomainRuleEntry
work_rule = record { priority = 1; pattern = bytes "*.work.com"; target = bypass }

matched : Store.match_domain test_platform ruled_store (bytes "a.work.com") ≡ some work_rule
unfolding Store.match_domain Domain.best_rule route_guard.Prelude.Sort.min_by_key call
    Store.set_rules Domain.sorted_entries route_guard.Prelude.Sort.sort_by_key Domain.domain_matches
    route_guard.Prelude.Text.starts_with route_guard.Prelude.Text.to_ascii_lowercase
    route_guard.Prelude.Text.trim_end_matches route_guard.Prelude.Text.ends_with
matched = refl

on_dns_response-agrees_example :
    Domain.lookup_ip 50
      (on_dns_response test_platform test_system no_files no_json noon
        (bytes "a.work.com")
        answers
        interfaces
        asked).engine.snapshot.domain_cache
      (v4 7)
    ≡ Store.lookup_ip 1000
        (on_dns_response test_platform test_system no_files no_json noon
          (bytes "a.work.com")
          answers
          interfaces
          asked).store
        (v4 7)
on_dns_response-agrees_example =
    on_dns_response-agrees test_platform test_system no_files no_json noon room (bytes "a.work.com")
      answers interfaces work_rule asked (v4 7) refl ruled_store-IsValid refl matched
