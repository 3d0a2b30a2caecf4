-- ===== src/Routing/Store/Apply.antt =====
-- `apply_resolved` of domain_store.rs: the answer to a DNS query enters the store.
pub mod Agreement
use route_guard.Prelude.{
  ℕ, ◌+◌, min, max, Bool, false, ◌&&◌, not, Option, none, some, List, [], ◌∷◌, ◌++◌, if◌then◌else◌,
  keep, list_beq, nat_eq, list_eq, contains, map, is_empty,
}
use route_guard.Prelude.Text.{Text}
use route_guard.Prelude.Dict
use route_guard.Core.Net.{IpAddr, ip_eq}
use route_guard.Core.Config.{target_beq}
use route_guard.Routing.Domain.{DomainRuleEntry, normalize_domain}
use route_guard.Routing.Store.{
  ResolvedIpEntry, DomainRouteStoreConfig, DomainRouteStore, or_default, remove_all, insert_entry,
}

pub record ApplyDiff : Type 0 where
  pub added : List ResolvedIpEntry
  pub removed : List ResolvedIpEntry
  pub refreshed : List ResolvedIpEntry

-- An element of `resolved`.
pub record Answer : Type 0 where
  pub ip : IpAddr
  pub ttl : ℕ
  pub expires_at : ℕ

unfoldable pub clamp_ttl : ℕ → DomainRouteStoreConfig → ℕ
clamp_ttl ttl config = min (max ttl config.min_ttl_secs) config.max_ttl_secs

abbrev pub answer_of : ℕ → DomainRouteStoreConfig → IpAddr × ℕ → Answer
answer_of now config (ip, ttl) = record {
  ip = ip;
  ttl = clamp_ttl ttl config;
  expires_at = now + clamp_ttl ttl config;
}

-- The test before `continue`: the entry is there with the same domain, pattern and target.
abbrev pub same_route : Option ResolvedIpEntry → Text → DomainRuleEntry → Bool
same_route none domain rule = false
same_route (some e) domain rule =
    list_beq e.domain domain && (list_beq e.pattern rule.pattern && target_beq e.target rule.target)

abbrev pub entry_of : Text → DomainRuleEntry → Answer → ResolvedIpEntry
entry_of domain rule a = record {
  ip = a.ip;
  domain = domain;
  pattern = rule.pattern;
  target = rule.target;
  expires_at = a.expires_at;
  ttl_secs = a.ttl;
}

abbrev refreshed_entry : Option ResolvedIpEntry → ResolvedIpEntry → Answer → ResolvedIpEntry
refreshed_entry none fresh a = fresh
refreshed_entry (some e) fresh a = record e { ttl_secs = a.ttl; expires_at = a.expires_at }

-- One round of the second loop.
unfoldable pub upsert :
    Text → DomainRuleEntry → Answer → DomainRouteStore × ApplyDiff → DomainRouteStore × ApplyDiff
upsert domain rule a (st, diff) =
    let existing = Dict.lookup a.ip st.by_ip in
    let fresh = entry_of domain rule a in
    let updated = refreshed_entry existing fresh a in
    if same_route existing domain rule
    then (
      record st { by_ip = Dict.insert a.ip updated st.by_ip },
      record diff { refreshed = diff.refreshed ++ updated ∷ [] },
    )
    else (insert_entry fresh st, record diff { added = diff.added ++ fresh ∷ [] })

unfoldable pub upsert_all :
    Text
    → DomainRuleEntry
    → List Answer
    → DomainRouteStore × ApplyDiff
    → DomainRouteStore × ApplyDiff
upsert_all domain rule [] s = s
upsert_all domain rule (a ∷ answers) s = upsert_all domain rule answers (upsert domain rule a s)

-- `self.by_domain.entry(domain).or_default()`
abbrev pub ensure_domain : Text → DomainRouteStore → DomainRouteStore
ensure_domain domain st = record st {
  by_domain = Dict.insert domain (or_default (Dict.lookup domain st.by_domain)) st.by_domain;
}

abbrev pub is_noop : ApplyDiff → Bool
is_noop diff = is_empty diff.added && (is_empty diff.removed && is_empty diff.refreshed)

abbrev pub finish : Text → DomainRouteStore × ApplyDiff → DomainRouteStore × ApplyDiff
finish domain (st, diff) = if is_noop diff then (ensure_domain domain st, diff) else (st, diff)

-- The addresses of the domain that the answer no longer has.
abbrev pub dropped : Text → List Answer → DomainRouteStore → List IpAddr
dropped domain answers st =
    keep (λ ip. not (contains (map (λ (a : Answer). a.ip) answers) ip))
      (or_default (Dict.lookup domain st.by_domain))

-- `apply_resolved`, at the Unix time `now`
unfoldable pub apply_resolved :
    ℕ → Text → List (IpAddr × ℕ) → DomainRuleEntry → DomainRouteStore → DomainRouteStore × ApplyDiff
apply_resolved now raw_domain ips rule st =
    let domain : Text = normalize_domain raw_domain in
    let answers : List Answer = map (answer_of now st.config) ips in
    let (st', removed) = remove_all (dropped domain answers st) st in
    finish domain (
      upsert_all domain rule answers
        (st', record { added = []; removed = removed; refreshed = [] }))
