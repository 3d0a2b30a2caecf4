-- ===== src/Routing/Domain.antt =====
-- `crates/routeguard-routing/src/domain.rs`: domain patterns and the engine's cache of resolved
-- addresses. `Instant`s are counted in whole seconds, and a method that asks for the time gets one
-- reading of both clocks.
pub mod Matching
use route_guard.Prelude.{
  ℕ, ◌+◌, ◌-◌, Bool, ◌&&◌, ◌||◌, Option, none, some, List, [], ◌∷◌, ◌++◌, length, drop,
  if◌then◌else◌, keep, any, list_beq, nat_eq, list_eq, ltb, leb, contains, max, map,
}
use route_guard.Prelude.Text.{
  Text, starts_with, ends_with, to_ascii_lowercase, trim_end_matches, bytes,
}
use route_guard.Prelude.Sort.{sort_by_key, min_by_key}
use route_guard.Prelude.Dict
use route_guard.Prelude.Dict.{Dict}
use route_guard.Core.Net.{Platform, IpAddr, ip_eq}
use route_guard.Core.Config.{DomainRule, RouteTarget}

unfoldable pub normalize_domain : Text → Text
normalize_domain domain = to_ascii_lowercase (trim_end_matches b'.' domain)

pub record DomainRuleEntry : Type 0 where
  pub priority : ℕ
  pub pattern : Text
  pub target : RouteTarget

pub record CachedIp : Type 0 where
  pub ips : List IpAddr
  pub expires : ℕ  -- an Instant
  pub target : RouteTarget

pub record DomainCache : Type 0 where
  pub rules : List DomainRuleEntry
  pub resolved : Dict Text CachedIp
  pub ip_index : Dict IpAddr RouteTarget

-- One reading of `SystemTime::now()` in Unix seconds and of `Instant::now()`.
pub record Clock : Type 0 where
  pub unix_secs : ℕ
  pub instant : ℕ

abbrev pub rule_entry : DomainRule → DomainRuleEntry
rule_entry r = record { priority = r.priority; pattern = r.pattern; target = r.target }

-- The compilation of rules, in the order of priority.
unfoldable pub sorted_entries : List DomainRule → List DomainRuleEntry
sorted_entries rules = sort_by_key (λ r. r.priority) (map rule_entry rules)

module _ (env : Platform) where
  open env use {to_lowercase}

  unfoldable pub domain_matches : Text → Text → Bool
  unfolding normalize_domain
  domain_matches pattern host =
      let host' : Text = normalize_domain host in
      let pattern' : Text = to_lowercase (trim_end_matches b'.' pattern) in
      let suffix : Text = drop 1 pattern' in
      if starts_with pattern' (bytes "*.")
      then ends_with host' suffix && ltb (length suffix) (length host')
      else list_beq host' pattern' || ends_with host' (b'.' ∷ pattern')

  -- `filter` and `min_by_key` of both `match_domain`s.
  unfoldable pub best_rule : List DomainRuleEntry → Text → Option DomainRuleEntry
  best_rule rules host =
      min_by_key (λ r. r.priority) (keep (λ r. domain_matches r.pattern host) rules)

  -- `DomainCache::match_domain`
  unfoldable pub match_domain : DomainCache → Text → Option DomainRuleEntry
  match_domain cache host = best_rule cache.rules host

-- `DomainCache::from_rules`
unfoldable pub from_rules : List DomainRule → DomainCache
from_rules rules = record { rules = sorted_entries rules; resolved = []; ip_index = [] }

-- The loop `for ip in &ips { ip_index.insert(*ip, target) }`.
unfoldable pub index_all :
    List IpAddr → RouteTarget → Dict IpAddr RouteTarget → Dict IpAddr RouteTarget
index_all [] target index = index
index_all (ip ∷ ips) target index = index_all ips target (Dict.insert ip target index)

abbrev remember : Option DomainRuleEntry → DomainCache → Text → List IpAddr → ℕ → DomainCache
remember none cache domain ips expires = cache
remember (some rule) cache domain ips expires = record cache {
  ip_index = index_all ips rule.target cache.ip_index;
  resolved =
      Dict.insert (normalize_domain domain)
        (record { ips = ips; expires = expires; target = rule.target }) cache.resolved;
}

-- `DomainCache::on_resolved`
unfoldable pub on_resolved : Platform → Clock → DomainCache → Text → List IpAddr → ℕ → DomainCache
unfolding index_all
on_resolved env now cache domain ips ttl_secs =
    remember (match_domain env cache domain) cache domain ips (now.instant + max ttl_secs 30)

-- `DomainCache::clear_resolved`
unfoldable pub clear_resolved : DomainCache → DomainCache
clear_resolved cache = record cache { resolved = []; ip_index = [] }

-- `and_modify` and `or_insert_with` of `insert_resolved`.
abbrev pub extend_cached : Option CachedIp → IpAddr → RouteTarget → ℕ → CachedIp
extend_cached none ip target expiry = record { ips = ip ∷ []; expires = expiry; target = target }
extend_cached (some cached) ip target expiry = record {
  ips = if contains cached.ips ip then cached.ips else cached.ips ++ ip ∷ [];
  expires = expiry;
  target = target;
}

-- `DomainCache::insert_resolved`
unfoldable pub insert_resolved : Clock → DomainCache → Text → IpAddr → RouteTarget → ℕ → DomainCache
insert_resolved now cache domain ip target expires_at_unix =
    if leb expires_at_unix now.unix_secs
    then cache
    else let expiry = now.instant + (expires_at_unix - now.unix_secs) in
      let name = normalize_domain domain in
      record cache {
        ip_index = Dict.insert ip target cache.ip_index;
        resolved =
            Dict.insert name (extend_cached (Dict.lookup name cache.resolved) ip target expiry)
              cache.resolved;
      }

-- The loop of `lookup_ip`: some live entry of the cache holds the address.
unfoldable pub is_live : ℕ → IpAddr → Dict Text CachedIp → Bool
is_live now ip resolved =
    any (λ (p : Text × CachedIp). ltb now p.1.expires && contains p.1.ips ip) resolved

abbrev when_live : Option RouteTarget → Bool → Option RouteTarget
when_live none live = none
when_live (some target) live = if live then some target else none

-- `DomainCache::lookup_ip`
unfoldable pub lookup_ip : ℕ → DomainCache → IpAddr → Option RouteTarget
unfolding is_live
lookup_ip now cache ip = when_live (Dict.lookup ip cache.ip_index) (is_live now ip cache.resolved)

unfoldable pub reindex : Dict Text CachedIp → Dict IpAddr RouteTarget → Dict IpAddr RouteTarget
reindex [] index = index
reindex ((name, cached) ∷ rest) index = reindex rest (index_all cached.ips cached.target index)

-- `DomainCache::purge_expired`
unfoldable pub purge_expired : ℕ → DomainCache → DomainCache
unfolding reindex index_all
purge_expired now cache =
    let live = keep (λ (p : Text × CachedIp). ltb now p.1.expires) cache.resolved in
    record cache { resolved = live; ip_index = reindex live [] }
