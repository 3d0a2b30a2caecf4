-- ===== src/Tests/Resolved.antt =====
-- A store of resolved addresses with room for one of them.
use route_guard.Prelude.{ℕ, ◌≡◌, ◌≤◌, ◌↔◌, refl, true, none, some, List, [], ◌∷◌, length}
use route_guard.Prelude.Text.{bytes}
use route_guard.Prelude.Dict
use route_guard.Prelude.Dict.{IsDistinct}
use route_guard.Core.Net.{IpAddr, v4, ip_eq}
use route_guard.Core.Config.{block}
use route_guard.Routing.Domain.{DomainRuleEntry}
use route_guard.Routing.Store.{
  ResolvedIpEntry, DomainRouteStore, DomainRouteStoreConfig, new, insert_entry, purge_expired,
  entry_for_ip, has_rule, prune_unmatched_rules,
}
use route_guard.Routing.Store.Apply.{apply_resolved}
use route_guard.Routing.Store.Apply.Agreement.{apply_resolved-IsConsistent}
use route_guard.Routing.Store.Caps.{length-insert_entry}
use route_guard.Routing.Store.Consistency.{IsConsistent, new-IsConsistent}
use route_guard.Routing.Store.Expiry.{lookup-purge_expired, lookup-prune_unmatched_rules}
use route_guard.Routing.Store.History.{
  start, after, IsValid, call, apply_call, purge_call, Reachable-IsValid,
}

abbrev tiny : DomainRouteStoreConfig
tiny = record { max_resolved_ips = 1; max_domains = 1; min_ttl_secs = 30; max_ttl_secs = 3600 }

abbrev bank_rule : DomainRuleEntry
bank_rule = record { priority = 10; pattern = bytes "*.bank.com"; target = block }

abbrev answers : List (IpAddr × ℕ)
answers = (v4 1, 60) ∷ (v4 2, 20) ∷ []

abbrev entry : IpAddr → ℕ → ResolvedIpEntry
entry ip expires_at = record {
  ip = ip;
  domain = bytes "a.bank.com";
  pattern = bytes "*.bank.com";
  target = block;
  expires_at = expires_at;
  ttl_secs = 60;
}

-- Two addresses, one of which expires first; no rule is left.
abbrev full_store : DomainRouteStore
full_store = record (new tiny) {
  by_ip = (v4 1, entry (v4 1) 100) ∷ (v4 2, entry (v4 2) 200) ∷ [];
  by_domain = (bytes "a.bank.com", v4 1 ∷ v4 2 ∷ []) ∷ [];
}

full_store-IsDistinct : IsDistinct full_store.by_ip
unfolding Dict.lookup
full_store-IsDistinct = (refl, (refl, tt))

apply_resolved-IsConsistent_example :
    IsConsistent (apply_resolved 1000 (bytes "A.bank.com.") answers bank_rule (new tiny)).0
apply_resolved-IsConsistent_example =
    apply_resolved-IsConsistent 1000 (bytes "A.bank.com.") answers bank_rule (new tiny)
      (new-IsConsistent tiny)

-- A third address enters, and two leave.
length-insert_entry_example :
    (length (insert_entry (entry (v4 3) 300) full_store).by_ip ≤ 1)
    × ((insert_entry (entry (v4 3) 300) full_store).config ≡ tiny)
length-insert_entry_example = length-insert_entry (entry (v4 3) 300) full_store

lookup-purge_expired_example : Dict.lookup (v4 1) (purge_expired 150 full_store).0.by_ip ≡ none
unfolding entry_for_ip Dict.lookup
lookup-purge_expired_example = lookup-purge_expired 150 (v4 1) full_store full_store-IsDistinct

lookup-prune_unmatched_rules_example :
    (Dict.lookup (v4 1) (prune_unmatched_rules full_store).0.by_ip ≡ some (entry (v4 1) 100)) ↔ (
      (Dict.lookup (v4 1) full_store.by_ip ≡ some (entry (v4 1) 100))
      × (has_rule full_store.rules (entry (v4 1) 100) ≡ true))
lookup-prune_unmatched_rules_example =
    lookup-prune_unmatched_rules (v4 1) (entry (v4 1) 100) full_store full_store-IsDistinct

Reachable-IsValid_example : IsValid tiny (
    call
      (purge_call 1100)
      (call (apply_call 1000 (bytes "a.bank.com") answers bank_rule) (new tiny)))
Reachable-IsValid_example =
    Reachable-IsValid tiny
      (call (purge_call 1100)
        (call (apply_call 1000 (bytes "a.bank.com") answers bank_rule) (new tiny)))
      (after (purge_call 1100)
        (after (apply_call 1000 (bytes "a.bank.com") answers bank_rule) start))
