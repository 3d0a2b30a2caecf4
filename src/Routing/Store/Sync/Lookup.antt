-- ===== src/Routing/Store/Sync/Lookup.antt =====
-- After a synchronization the engine's cache answers for an address as the store does.
use route_guard.Prelude.{
  sym, ℕ, ◌≡◌, refl, true, false, ltb, leb, if◌then◌else◌, Option, none, some, is_some, List, [],
  ◌∷◌, ◌++◌, arith, contains, All, Bool-cases, inl, inr, list_eq, nat_eq, ◌-◌, ◌+◌,
}
use route_guard.Prelude.Text.{Text}
use route_guard.Prelude.Dict
use route_guard.Prelude.Dict.{Dict, IsDistinct, lookup-insert}
use route_guard.Core.Net.{IpAddr, ip_eq, ip_beq_iff}
use route_guard.Core.Config.{RouteTarget}
use route_guard.Routing.Domain
use route_guard.Routing.Domain.{
  DomainCache, CachedIp, Clock, clear_resolved, insert_resolved, is_live, extend_cached,
  normalize_domain,
}
use route_guard.Routing.Store
use route_guard.Routing.Store.{ResolvedIpEntry, DomainRouteStore}
use route_guard.Routing.Store.Sync.{sync_entry, sync_entries, sync_domain_cache}

contains-snoc : (xs : List IpAddr) (ip : IpAddr) → contains (xs ++ ip ∷ []) ip ≡ true
contains-snoc [] ip = ground (arith, ip_beq_iff ip ip)
contains-snoc (x ∷ xs) ip = ground (arith, contains-snoc xs ip)

contains-snoc-old :
    (xs : List IpAddr) (ip j : IpAddr) → contains xs j ≡ true → contains (xs ++ ip ∷ []) j ≡ true
contains-snoc-old [] ip j h = absurd (ground arith)
contains-snoc-old (x ∷ xs) ip j h = ground (arith, contains-snoc-old xs ip j)

-- The new value of a domain holds the new address and the old ones.
extend_cached-contains :
    (o : Option CachedIp) (ip : IpAddr) (target : RouteTarget) (expiry : ℕ)
    → contains (extend_cached o ip target expiry).ips ip ≡ true
extend_cached-contains none ip target expiry = ground (arith, ip_beq_iff ip ip)
extend_cached-contains (some c) ip target expiry = ground (arith, contains-snoc c.ips ip)

extend_cached-contains-old :
    (c : CachedIp) (ip j : IpAddr) (target : RouteTarget) (expiry : ℕ)
    → contains c.ips j ≡ true
    → contains (extend_cached (some c) ip target expiry).ips j ≡ true
extend_cached-contains-old c ip j target expiry h = ground (arith, contains-snoc-old c.ips ip j)

extend_cached-expires :
    (o : Option CachedIp) (ip : IpAddr) (target : RouteTarget) (expiry : ℕ)
    → (extend_cached o ip target expiry).expires ≡ expiry
extend_cached-expires none ip target expiry = refl
extend_cached-expires (some c) ip target expiry = refl

-- Any address of a live binding is live.
is_live-insert :
    (now : ℕ) (j : IpAddr) (name : Text) (c : CachedIp) (m : Dict Text CachedIp)
    → ltb now c.expires ≡ true
    → contains c.ips j ≡ true
    → is_live now j (Dict.insert name c m) ≡ true
unfolding is_live Dict.insert
is_live-insert now j name c [] l h = ground arith
is_live-insert now j name c ((i, w) ∷ m) l h = ground (arith, is_live-insert now j name c m l h)

-- What was live stays live when the new value is live and holds the old one's addresses.
is_live-insert-old :
    (now : ℕ) (j : IpAddr) (name : Text) (c : CachedIp) (m : Dict Text CachedIp)
    → ltb now c.expires ≡ true
    → ((old : CachedIp)
        → Dict.lookup name m ≡ some old
        → contains old.ips j ≡ true
        → contains c.ips j ≡ true)
    → is_live now j m ≡ true
    → is_live now j (Dict.insert name c m) ≡ true
unfolding is_live Dict.insert Dict.lookup
is_live-insert-old now j name c [] l k h = absurd (ground arith)
is_live-insert-old now j name c ((i, w) ∷ m) l k h = elim (Bool-cases (list_eq.beq i name)) [
  | inl same ↦ ground (arith, same, k w)
  | inr other ↦ ground (arith, other, is_live-insert-old now j name c m l)
]

-- Every address of the index is live.
abbrev IsLive : ℕ → DomainCache → Type 0
IsLive now c =
    (j : IpAddr) → is_some (Dict.lookup j c.ip_index) ≡ true → is_live now j c.resolved ≡ true

insert_resolved-IsLive :
    (now : Clock) (c : DomainCache) (d : Text) (ip : IpAddr) (t : RouteTarget) (expires : ℕ)
    → ltb now.unix_secs expires ≡ true
    → IsLive now.instant c
    → IsLive now.instant (insert_resolved now c d ip t expires)
unfolding insert_resolved
insert_resolved-IsLive now c d ip t expires fresh h j =
    let name : Text = normalize_domain d in
    let expiry : ℕ = now.instant + (expires - now.unix_secs) in
    let o : Option CachedIp = Dict.lookup name c.resolved in
    let stale : leb expires now.unix_secs ≡ false = ground arith in
    let live : ltb now.instant (extend_cached o ip t expiry).expires ≡ true =
      rw (extend_cached-expires o ip t expiry) (ground arith) in
    rw stale (λ found. elim (Bool-cases (ip_eq.beq ip j)) [
      | inl same ↦
          let eq : ip ≡ j = (ip_beq_iff ip j).0 same in
          is_live-insert now.instant j name (extend_cached o ip t expiry) c.resolved live
            (rw (sym eq) (extend_cached-contains o ip t expiry))
      | inr other ↦
          is_live-insert-old now.instant j name (extend_cached o ip t expiry) c.resolved live
            (λ old there had. rw there (extend_cached-contains-old old ip j t expiry had))
            (h j (ground (arith, found, other, lookup-insert ip j t c.ip_index)))
    ])

sync_entry-IsLive :
    (now : Clock) (e : ResolvedIpEntry) (c : DomainCache)
    → IsLive now.instant c
    → IsLive now.instant (sync_entry now e c)
unfolding sync_entry
sync_entry-IsLive now e c h = elim (Bool-cases (ltb now.unix_secs e.expires_at)) [
  | inl fresh ↦ rw fresh (insert_resolved-IsLive now c e.domain e.ip e.target e.expires_at fresh h)
  | inr stale ↦ rw stale h
]

sync_entries-IsLive :
    (now : Clock) (m : Dict IpAddr ResolvedIpEntry) (c : DomainCache)
    → IsLive now.instant c
    → IsLive now.instant (sync_entries now m c)
unfolding sync_entries
sync_entries-IsLive now [] c h = h
sync_entries-IsLive now ((ip, e) ∷ m) c h =
    sync_entries-IsLive now m (sync_entry now e c) (sync_entry-IsLive now e c h)

-- The target of a live entry, else what the index had.
abbrev target_or : ℕ → Option ResolvedIpEntry → Option RouteTarget → Option RouteTarget
target_or now none old = old
target_or now (some e) old = if ltb now e.expires_at then some e.target else old

lookup-sync_entry :
    (now : Clock) (e : ResolvedIpEntry) (c : DomainCache) (j : IpAddr)
    → Dict.lookup j (sync_entry now e c).ip_index ≡ (
        if ltb now.unix_secs e.expires_at
        then (if ip_eq.beq e.ip j then some e.target else Dict.lookup j c.ip_index)
        else Dict.lookup j c.ip_index)
unfolding sync_entry insert_resolved
lookup-sync_entry now e c j = ground (arith, lookup-insert e.ip j e.target c.ip_index)

-- Every entry stands under its own address.
abbrev pub IsKeyed : Dict IpAddr ResolvedIpEntry → Type 0
IsKeyed m = All (λ (b : IpAddr × ResolvedIpEntry). b.1.ip ≡ b.0) m

lookup-sync_entries :
    (now : Clock) (m : Dict IpAddr ResolvedIpEntry) (c : DomainCache) (j : IpAddr)
    → IsDistinct m
    → IsKeyed m
    → Dict.lookup j (sync_entries now m c).ip_index
      ≡ target_or now.unix_secs (Dict.lookup j m) (Dict.lookup j c.ip_index)
unfolding sync_entries Dict.lookup
lookup-sync_entries now [] c j d k = refl
lookup-sync_entries now ((ip, e) ∷ m) c j d k = ground (
  arith,
  lookup-sync_entries now m (sync_entry now e c) j d.1 k.1,
  lookup-sync_entry now e c j,
  ip_beq_iff ip j,
  d.0,
  k.0,
)

-- Where no address of the store occurs twice and every entry stands under its own address, the
-- cache that `sync_domain_cache` leaves answers for every address, at the instant of the
-- synchronization, what the store answers at that time.
pub lookup_ip-sync_domain_cache :
    (now : Clock) (st : DomainRouteStore) (cache : DomainCache) (ip : IpAddr)
    → IsDistinct st.by_ip
    → IsKeyed st.by_ip
    → Domain.lookup_ip now.instant (sync_domain_cache now st cache) ip
      ≡ Store.lookup_ip now.unix_secs st ip
unfolding sync_domain_cache Domain.lookup_ip Store.lookup_ip clear_resolved Dict.lookup
lookup_ip-sync_domain_cache now st cache ip d k = ground (
  arith,
  lookup-sync_entries now st.by_ip (clear_resolved cache) ip d k,
  sync_entries-IsLive now st.by_ip (clear_resolved cache) (λ j h. absurd (ground arith)) ip,
)
