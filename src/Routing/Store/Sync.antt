-- ===== src/Routing/Store/Sync.antt =====
-- `sync_domain_cache` of domain_store.rs: the engine's cache is filled from the store, all entries at
-- one reading of the clock.
pub mod Lookup
use route_guard.Prelude.{ℕ, ltb, if◌then◌else◌, List, [], ◌∷◌}
use route_guard.Prelude.Dict.{Dict}
use route_guard.Core.Net.{IpAddr}
use route_guard.Routing.Domain.{DomainCache, Clock, clear_resolved, insert_resolved}
use route_guard.Routing.Store.{ResolvedIpEntry, DomainRouteStore}

-- The body of the loop over the entries.
unfoldable pub sync_entry : Clock → ResolvedIpEntry → DomainCache → DomainCache
sync_entry now e cache =
    if ltb now.unix_secs e.expires_at
    then insert_resolved now cache e.domain e.ip e.target e.expires_at
    else cache

unfoldable pub sync_entries : Clock → Dict IpAddr ResolvedIpEntry → DomainCache → DomainCache
unfolding sync_entry
sync_entries now [] cache = cache
sync_entries now ((ip, e) ∷ by_ip) cache = sync_entries now by_ip (sync_entry now e cache)

-- `sync_domain_cache`
unfoldable pub sync_domain_cache : Clock → DomainRouteStore → DomainCache → DomainCache
unfolding sync_entries
sync_domain_cache now st cache = sync_entries now st.by_ip (clear_resolved cache)
