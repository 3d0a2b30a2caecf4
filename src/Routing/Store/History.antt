-- ===== src/Routing/Store/History.antt =====
-- Every sequence of the public calls of domain_store.rs, as a step relation.
use route_guard.Prelude.{
  ℕ, ◌≡◌, ◌≤◌, refl, some, List, [], ◌∷◌, arith, length, Bool-cases, Option-cases, inl, inr, map,
  list_eq, nat_eq,
}
use route_guard.Prelude.Text.{Text}
use route_guard.Prelude.Dict
use route_guard.Prelude.Dict.{length-remove, length-insert-known, IsDistinct, insert-IsDistinct}
use route_guard.Core.Net.{IpAddr, ip_eq}
use route_guard.Core.Config.{DomainRule}
use route_guard.Routing.Domain.{DomainRuleEntry, normalize_domain}
use route_guard.Routing.Store.{
  ResolvedIpEntry, DomainRouteStore, DomainRouteStoreConfig, new, set_rules, remove_ip, remove_all,
  purge_expired, clear, prune_unmatched_rules,
}
use route_guard.Routing.Store.Apply.{
  apply_resolved, upsert, upsert_all, finish, is_noop, Answer, ApplyDiff, same_route, dropped,
  answer_of, entry_of,
}
use route_guard.Routing.Store.Apply.Agreement.{apply_resolved-IsConsistent}
use route_guard.Routing.Store.Distinct.{remove_ip-IsDistinct, insert_entry-IsDistinct}
use route_guard.Routing.Store.Caps.{length-insert_entry}
use route_guard.Routing.Store.Consistency.{
  IsConsistent, new-IsConsistent, remove_ip-IsConsistent, remove_all-IsConsistent,
}

-- One call of a method that changes the store, with the arguments of the call.
pub data Call : Type 0 where
  set_rules_call : List DomainRule → Call
  apply_call : ℕ → Text → List (IpAddr × ℕ) → DomainRuleEntry → Call
  remove_call : IpAddr → Call
  purge_call : ℕ → Call
  prune_call : Call
  clear_call : Call

unfoldable pub call : Call → DomainRouteStore → DomainRouteStore
call (set_rules_call rules) st = set_rules rules st
call (apply_call now domain ips rule) st = (apply_resolved now domain ips rule st).0
call (remove_call ip) st = (remove_ip ip st).0
call (purge_call now) st = (purge_expired now st).0
call prune_call st = (prune_unmatched_rules st).0
call clear_call st = clear st

-- The stores that calls make of the empty one.
pub data Reachable (config : DomainRouteStoreConfig) : DomainRouteStore → Type 0 where
  start : Reachable config (new config)
  after : {st : DomainRouteStore} → (c : Call) → Reachable config st → Reachable config (call c st)

-- Indexes that agree, no more addresses than allowed, none of them twice, and the configuration that
-- the store was made with.
pub record IsValid (config : DomainRouteStoreConfig) (st : DomainRouteStore) : Type 0 where
  pub consistent : IsConsistent st
  pub capped : length st.by_ip ≤ config.max_resolved_ips
  pub configured : st.config ≡ config
  pub distinct : IsDistinct st.by_ip

abbrev IsCapped : DomainRouteStoreConfig → DomainRouteStore → Type 0
IsCapped config st =
    (length st.by_ip ≤ config.max_resolved_ips) × (st.config ≡ config) × IsDistinct st.by_ip

remove_ip-IsCapped :
    (config : DomainRouteStoreConfig) (ip : IpAddr) (st : DomainRouteStore)
    → IsCapped config st
    → IsCapped config (remove_ip ip st).0
unfolding remove_ip
remove_ip-IsCapped config ip st h =
    ground (arith, length-remove ip st.by_ip, remove_ip-IsDistinct ip st)

remove_all-IsCapped :
    (config : DomainRouteStoreConfig) (ips : List IpAddr) (st : DomainRouteStore)
    → IsCapped config st
    → IsCapped config (remove_all ips st).0
unfolding remove_all
remove_all-IsCapped config [] st h = h
remove_all-IsCapped config (ip ∷ ips) st h =
    remove_all-IsCapped config ips (remove_ip ip st).0 (remove_ip-IsCapped config ip st h)

upsert-IsCapped :
    (config : DomainRouteStoreConfig) (domain : Text) (rule : DomainRuleEntry) (a : Answer)
    (s : DomainRouteStore × ApplyDiff)
    → IsCapped config s.0
    → IsCapped config (upsert domain rule a s).0
unfolding upsert
upsert-IsCapped config domain rule a (st, diff) (small, same_config, once) =
    let fresh : ResolvedIpEntry = entry_of domain rule a in
    let bound = length-insert_entry fresh st in
    let still = insert_entry-IsDistinct fresh st once in
    elim (Option-cases (Dict.lookup a.ip st.by_ip)) [
      | inl gone ↦ rw gone (ground (arith, bound, still))
      | inr (e, there) ↦ rw there (elim (Bool-cases (same_route (some e) domain rule)) [
        | inl same ↦ rw same (
            ground (
              arith,
              length-insert-known a.ip (record e { ttl_secs = a.ttl; expires_at = a.expires_at }) e
                  st.by_ip there,
              insert-IsDistinct a.ip (record e { ttl_secs = a.ttl; expires_at = a.expires_at })
                  st.by_ip once,
            ))
        | inr other ↦ rw other (ground (arith, bound, still))
      ])
    ]

upsert_all-IsCapped :
    (config : DomainRouteStoreConfig) (domain : Text) (rule : DomainRuleEntry)
    (answers : List Answer) (s : DomainRouteStore × ApplyDiff)
    → IsCapped config s.0
    → IsCapped config (upsert_all domain rule answers s).0
unfolding upsert_all
upsert_all-IsCapped config domain rule [] s h = h
upsert_all-IsCapped config domain rule (a ∷ answers) s h =
    upsert_all-IsCapped config domain rule answers (upsert domain rule a s)
      (upsert-IsCapped config domain rule a s h)

finish-IsCapped :
    (config : DomainRouteStoreConfig) (domain : Text) (s : DomainRouteStore × ApplyDiff)
    → IsCapped config s.0
    → IsCapped config (finish domain s).0
finish-IsCapped config domain (st, diff) h = elim (Bool-cases (is_noop diff)) [
  | inl noop ↦ rw noop h
  | inr work ↦ rw work h
]

apply_resolved-IsCapped :
    (config : DomainRouteStoreConfig) (now : ℕ) (domain : Text) (ips : List (IpAddr × ℕ))
    (rule : DomainRuleEntry) (st : DomainRouteStore)
    → IsCapped config st
    → IsCapped config (apply_resolved now domain ips rule st).0
unfolding apply_resolved
apply_resolved-IsCapped config now domain ips rule st h =
    let name : Text = normalize_domain domain in
    let answers : List Answer = map (answer_of now st.config) ips in
    let (st', removed) = remove_all (dropped name answers st) st in
    let first : DomainRouteStore × ApplyDiff =
      (st', record { added = []; removed = removed; refreshed = [] }) in
    finish-IsCapped config name (upsert_all name rule answers first) (
      upsert_all-IsCapped config name rule answers first
        (remove_all-IsCapped config (dropped name answers st) st h))

valid :
    (config : DomainRouteStoreConfig) (st : DomainRouteStore)
    → IsConsistent st
    → IsCapped config st
    → IsValid config st
valid config st c (capped, configured, distinct) = record {
  consistent = c;
  capped = capped;
  configured = configured;
  distinct = distinct;
}

pub call-IsValid :
    (config : DomainRouteStoreConfig) (c : Call) (st : DomainRouteStore)
    → IsValid config st
    → IsValid config (call c st)
unfolding call set_rules purge_expired prune_unmatched_rules clear Dict.lookup
call-IsValid config (set_rules_call rules) st v = record {
  consistent = record { keyed = v.consistent.keyed; agree = v.consistent.agree };
  capped = v.capped;
  configured = v.configured;
  distinct = v.distinct;
}
call-IsValid config (apply_call now domain ips rule) st v =
    valid config _ (apply_resolved-IsConsistent now domain ips rule st v.consistent)
      (apply_resolved-IsCapped config now domain ips rule st (v.capped, v.configured, v.distinct))
call-IsValid config (remove_call ip) st v =
    valid config _ (remove_ip-IsConsistent ip st v.consistent)
      (remove_ip-IsCapped config ip st (v.capped, v.configured, v.distinct))
call-IsValid config (purge_call now) st v =
    valid config _ (remove_all-IsConsistent _ st v.consistent)
      (remove_all-IsCapped config _ st (v.capped, v.configured, v.distinct))
call-IsValid config prune_call st v =
    valid config _ (remove_all-IsConsistent _ st v.consistent)
      (remove_all-IsCapped config _ st (v.capped, v.configured, v.distinct))
call-IsValid config clear_call st v = record {
  consistent = record { keyed = λ ip e h. cc; agree = λ d ip. refl };
  capped = omega arith;
  configured = v.configured;
  distinct = tt;
}

-- After any sequence of calls on a new store its two indexes agree, it holds no more addresses than
-- its configuration allows, none of them twice, and the configuration is the one it was made with.
pub Reachable-IsValid :
    (config : DomainRouteStoreConfig) (st : DomainRouteStore)
    → Reachable config st
    → IsValid config st
Reachable-IsValid config st start = record {
  consistent = new-IsConsistent config;
  capped = omega arith;
  configured = refl;
  distinct = tt;
}
Reachable-IsValid config st (after {st = old} c r) =
    call-IsValid config c old (Reachable-IsValid config old r)
