-- ===== src/Routing/Store.antt =====
-- `crates/routeguard-routing/src/domain_store.rs`: resolved addresses with their time to live, by
-- address and by domain. A `HashSet` is a list, and a method that asks for the time gets one reading.
pub mod Apply
pub mod Caps
pub mod Distinct
pub mod Expiry
pub mod History
pub mod Consistency
pub mod Index
pub mod Loops
pub mod Persist
pub mod Room
pub mod Sync
use route_guard.Prelude.{
  ℕ, zero, suc, ◌+◌, min, max, Bool, true, false, ◌&&◌, not, Option, none, some, List, [], ◌∷◌,
  ◌++◌, length, if◌then◌else◌, keep, any, list_beq, nat_eq, list_eq, ltb, leb, contains, map,
  is_empty, ◌^◌, ◌-◌,
}
use route_guard.Prelude.Text.{Text}
use route_guard.Prelude.Sort.{min_by_key}
use route_guard.Prelude.Dict
use route_guard.Prelude.Dict.{Dict}
use route_guard.Core.Net.{Platform, IpAddr, ip_eq, ip_beq}
use route_guard.Core.Config.{DomainRule, RouteTarget, bypass, tunnel, target_beq}
use route_guard.Routing.Domain
use route_guard.Routing.Domain.{DomainRuleEntry, sorted_entries, normalize_domain}

pub record ResolvedIpEntry : Type 0 where
  pub ip : IpAddr
  pub domain : Text
  pub pattern : Text
  pub target : RouteTarget
  pub expires_at : ℕ  -- u64
  pub ttl_secs : ℕ  -- u32

pub record DomainRouteStoreConfig : Type 0 where
  pub max_resolved_ips : ℕ
  pub max_domains : ℕ
  pub min_ttl_secs : ℕ  -- u32
  pub max_ttl_secs : ℕ  -- u32

-- `DomainRouteStoreConfig::default()`
abbrev pub default_store_config : DomainRouteStoreConfig
default_store_config = record {
  max_resolved_ips = 50000;
  max_domains = 10000;
  min_ttl_secs = 30;
  max_ttl_secs = 3600;
}

pub record DomainRouteStore : Type 0 where
  pub rules : List DomainRuleEntry
  pub by_ip : Dict IpAddr ResolvedIpEntry
  pub by_domain : Dict Text (List IpAddr)
  pub generation : ℕ  -- u64
  pub config : DomainRouteStoreConfig

-- `DomainRouteStore::new`
abbrev pub new : DomainRouteStoreConfig → DomainRouteStore
new config = record { rules = []; by_ip = []; by_domain = []; generation = 0; config = config }

-- `bump_generation`: `saturating_add` on u64
abbrev pub bump_generation : DomainRouteStore → DomainRouteStore
bump_generation st = record st { generation = min (st.generation + 1) (2 ^ 64 - 1) }

-- `set_rules`
unfoldable pub set_rules : List DomainRule → DomainRouteStore → DomainRouteStore
set_rules rules st = bump_generation (record st { rules = sorted_entries rules })

-- `match_domain`, which normalizes the name before `domain_matches` does
unfoldable pub match_domain : Platform → DomainRouteStore → Text → Option DomainRuleEntry
match_domain env st domain = Domain.best_rule env st.rules (normalize_domain domain)

abbrev live_entry : ℕ → Option ResolvedIpEntry → Option ResolvedIpEntry
live_entry now none = none
live_entry now (some entry) = if leb entry.expires_at now then none else some entry

-- `entry_for_ip`
unfoldable pub entry_for_ip : ℕ → DomainRouteStore → IpAddr → Option ResolvedIpEntry
entry_for_ip now st ip = live_entry now (Dict.lookup ip st.by_ip)

abbrev live_target : ℕ → Option ResolvedIpEntry → Option RouteTarget
live_target now none = none
live_target now (some entry) = if leb entry.expires_at now then none else some entry.target

-- `lookup_ip`
unfoldable pub lookup_ip : ℕ → DomainRouteStore → IpAddr → Option RouteTarget
lookup_ip now st ip = live_target now (Dict.lookup ip st.by_ip)

-- `HashSet::insert` and `HashSet::remove`
abbrev pub set_insert : IpAddr → List IpAddr → List IpAddr
set_insert ip s = if contains s ip then s else s ++ ip ∷ []

abbrev pub set_remove : IpAddr → List IpAddr → List IpAddr
set_remove ip s = keep (λ j. not (ip_beq j ip)) s

-- `if let Some(set) = by_domain.get_mut(d) { set.remove(&ip); if set.is_empty() { by_domain.remove(d) } }`
abbrev unlink_found :
    Option (List IpAddr) → IpAddr → Text → Dict Text (List IpAddr) → Dict Text (List IpAddr)
unlink_found none ip d m = m
unlink_found (some s) ip d m =
    let rest = set_remove ip s in if is_empty rest then Dict.remove d m else Dict.insert d rest m

unfoldable pub unlink : IpAddr → Text → Dict Text (List IpAddr) → Dict Text (List IpAddr)
unlink ip d m = unlink_found (Dict.lookup d m) ip d m

abbrev pub or_default : Option (List IpAddr) → List IpAddr
or_default none = []
or_default (some s) = s

-- `by_domain.entry(d).or_default().insert(ip)`
unfoldable pub link : IpAddr → Text → Dict Text (List IpAddr) → Dict Text (List IpAddr)
link ip d m = Dict.insert d (set_insert ip (or_default (Dict.lookup d m))) m

abbrev remove_found :
    Option ResolvedIpEntry → IpAddr → DomainRouteStore → DomainRouteStore × Option ResolvedIpEntry
remove_found none ip st = (st, none)
remove_found (some entry) ip st = (
  record st { by_ip = Dict.remove ip st.by_ip; by_domain = unlink ip entry.domain st.by_domain },
  some entry,
)

-- `remove_ip`
unfoldable pub remove_ip : IpAddr → DomainRouteStore → DomainRouteStore × Option ResolvedIpEntry
remove_ip ip st = remove_found (Dict.lookup ip st.by_ip) ip st

abbrev push_some {ℓ} : {A : Type ℓ} → Option A → List A → List A
push_some none xs = xs
push_some (some x) xs = x ∷ xs

-- `ips.into_iter().filter_map(|ip| self.remove_ip(ip)).collect()`
unfoldable pub remove_all : List IpAddr → DomainRouteStore → DomainRouteStore × List ResolvedIpEntry
remove_all [] st = (st, [])
remove_all (ip ∷ ips) st =
    let (st', entry) = remove_ip ip st in
    let (st'', entries) = remove_all ips st' in (st'', push_some entry entries)

-- The address with the least expiry.
unfoldable pub oldest : Dict IpAddr ResolvedIpEntry → Option (IpAddr × ResolvedIpEntry)
oldest by_ip = min_by_key (λ (p : IpAddr × ResolvedIpEntry). p.1.expires_at) by_ip

-- The first loop of `enforce_caps`. The fuel is the number of addresses.
unfoldable pub evict_ips : ℕ → DomainRouteStore → DomainRouteStore
evict_ips zero st = st
evict_ips (suc fuel) st = elim (ltb st.config.max_resolved_ips (length st.by_ip)) [
  | false ↦ st
  | true ↦ elim (oldest st.by_ip) [ none ↦ st | some p ↦ evict_ips fuel (remove_ip p.0 st).0 ]
]

abbrev min_with : Option ResolvedIpEntry → Option ℕ → Option ℕ
min_with none m = m
min_with (some e) none = some e.expires_at
min_with (some e) (some k) = some (min e.expires_at k)

-- The least expiry of a domain's addresses.
unfoldable pub domain_expiry : Dict IpAddr ResolvedIpEntry → List IpAddr → Option ℕ
domain_expiry by_ip [] = none
domain_expiry by_ip (ip ∷ ips) = min_with (Dict.lookup ip by_ip) (domain_expiry by_ip ips)

abbrev push_expiry : Text → Option ℕ → List (Text × ℕ) → List (Text × ℕ)
push_expiry name none rest = rest
push_expiry name (some exp) rest = (name, exp) ∷ rest

unfoldable pub expiries : Dict IpAddr ResolvedIpEntry → Dict Text (List IpAddr) → List (Text × ℕ)
expiries by_ip [] = []
expiries by_ip ((name, ips) ∷ rest) =
    push_expiry name (domain_expiry by_ip ips) (expiries by_ip rest)

unfoldable pub victim : DomainRouteStore → Option (Text × ℕ)
unfolding expiries domain_expiry
victim st = min_by_key (λ (p : Text × ℕ). p.1) (expiries st.by_ip st.by_domain)

-- `for ip in ips { self.by_ip.remove(&ip); }`
unfoldable pub forget_ips : List IpAddr → Dict IpAddr ResolvedIpEntry → Dict IpAddr ResolvedIpEntry
forget_ips [] by_ip = by_ip
forget_ips (ip ∷ ips) by_ip = forget_ips ips (Dict.remove ip by_ip)

unfoldable pub drop_domain : Text → DomainRouteStore → DomainRouteStore
unfolding forget_ips
drop_domain domain st = record st {
  by_ip = forget_ips (or_default (Dict.lookup domain st.by_domain)) st.by_ip;
  by_domain = Dict.remove domain st.by_domain;
}

-- The second loop of `enforce_caps`. The fuel is the number of domains.
unfoldable pub evict_domains : ℕ → DomainRouteStore → DomainRouteStore
evict_domains zero st = st
evict_domains (suc fuel) st = elim (ltb st.config.max_domains (length st.by_domain)) [
  | false ↦ st
  | true ↦ elim (victim st) [ none ↦ st | some p ↦ evict_domains fuel (drop_domain p.0 st) ]
]

-- `enforce_caps`
unfoldable pub enforce_caps : DomainRouteStore → DomainRouteStore
enforce_caps st =
    let st' = evict_ips (length st.by_ip) st in evict_domains (length st'.by_domain) st'

abbrev unlink_old :
    Option ResolvedIpEntry → IpAddr → Dict Text (List IpAddr) → Dict Text (List IpAddr)
unlink_old none ip m = m
unlink_old (some old) ip m = unlink ip old.domain m

-- `insert_entry` before it calls `enforce_caps`
unfoldable pub place_entry : ResolvedIpEntry → DomainRouteStore → DomainRouteStore
place_entry entry st = record st {
  by_ip = Dict.insert entry.ip entry st.by_ip;
  by_domain =
      link entry.ip entry.domain (unlink_old (Dict.lookup entry.ip st.by_ip) entry.ip st.by_domain);
}

-- `insert_entry`
unfoldable pub insert_entry : ResolvedIpEntry → DomainRouteStore → DomainRouteStore
insert_entry entry st = enforce_caps (place_entry entry st)

-- `purge_expired`
unfoldable pub purge_expired : ℕ → DomainRouteStore → DomainRouteStore × List ResolvedIpEntry
purge_expired now st =
    remove_all
      (Dict.keys (keep (λ (p : IpAddr × ResolvedIpEntry). leb p.1.expires_at now) st.by_ip)) st

-- `clear`
unfoldable pub clear : DomainRouteStore → DomainRouteStore
clear st = bump_generation (record st { by_ip = []; by_domain = [] })

abbrev pub has_rule : List DomainRuleEntry → ResolvedIpEntry → Bool
has_rule rules e = any (λ r. list_beq r.pattern e.pattern && target_beq r.target e.target) rules

-- `prune_unmatched_rules`
unfoldable pub prune_unmatched_rules : DomainRouteStore → DomainRouteStore × List ResolvedIpEntry
prune_unmatched_rules st =
    remove_all
      (Dict.keys (keep (λ (p : IpAddr × ResolvedIpEntry). not (has_rule st.rules p.1)) st.by_ip)) st
