-- ===== src/Routing/Store/Room.antt =====
-- `insert_entry` of domain_store.rs in a store below its caps.
use route_guard.Prelude.{
  ℕ, zero, suc, ◌+◌, ◌≡◌, ◌≤◌, refl, true, false, ltb, none, some, List, arith, length,
  Option-cases, inl, inr, list_eq, nat_eq,
}
use route_guard.Prelude.Text.{Text}
use route_guard.Prelude.Dict
use route_guard.Prelude.Dict.{Dict, length-insert, length-remove, length-insert-known}
use route_guard.Core.Net.{IpAddr, ip_eq}
use route_guard.Routing.Store.{
  ResolvedIpEntry, DomainRouteStore, insert_entry, place_entry, enforce_caps, evict_ips, oldest,
  victim, drop_domain, remove_ip, evict_domains, link, unlink, or_default, set_insert, set_remove,
}

abbrev Same : DomainRouteStore → DomainRouteStore → Type 0
Same st st' = st' ≡ st

-- Where there is room, nothing is evicted.
evict_ips-room :
    (fuel : ℕ) (st : DomainRouteStore)
    → length st.by_ip ≤ st.config.max_resolved_ips
    → evict_ips fuel st ≡ st
unfolding evict_ips
evict_ips-room zero st h = refl
evict_ips-room (suc fuel) st h =
    let low : ltb st.config.max_resolved_ips (length st.by_ip) ≡ false = ground arith in
    (elim (ltb st.config.max_resolved_ips (length st.by_ip))
        as (λ b.
          b ≡ false
          → Same st (elim b [
            | false ↦ st
            | true ↦ elim (oldest st.by_ip) [
              | none ↦ st
              | some p ↦ evict_ips fuel (remove_ip p.0 st).0
            ]
          ])) [ false ↦ λ e. refl | true ↦ λ e. absurd (ground arith) ])
      low

evict_domains-room :
    (fuel : ℕ) (st : DomainRouteStore)
    → length st.by_domain ≤ st.config.max_domains
    → evict_domains fuel st ≡ st
unfolding evict_domains
evict_domains-room zero st h = refl
evict_domains-room (suc fuel) st h =
    let low : ltb st.config.max_domains (length st.by_domain) ≡ false = ground arith in
    (elim (ltb st.config.max_domains (length st.by_domain))
        as (λ b.
          b ≡ false
          → Same st (elim b [
            | false ↦ st
            | true ↦ elim (victim st) [
              | none ↦ st
              | some p ↦ evict_domains fuel (drop_domain p.0 st)
            ]
          ])) [ false ↦ λ e. refl | true ↦ λ e. absurd (ground arith) ])
      low

length-unlink :
    (ip : IpAddr) (d : Text) (m : Dict Text (List IpAddr)) → length (unlink ip d m) ≤ length m
unfolding unlink
length-unlink ip d m = elim (Option-cases (Dict.lookup d m)) [
  | inl gone ↦ rw gone (omega arith)
  | inr (s, there) ↦
      rw there
        (ground (arith, length-remove d m, length-insert-known d (set_remove ip s) s m there))
]

-- There is room for `n` more entries, each in a domain of its own.
abbrev pub HasRoom : ℕ → DomainRouteStore → Type 0
HasRoom n st =
    (length st.by_ip + n ≤ st.config.max_resolved_ips)
    × (length st.by_domain + n ≤ st.config.max_domains)

pub place_entry-HasRoom :
    (n : ℕ) (e : ResolvedIpEntry) (st : DomainRouteStore)
    → HasRoom (suc n) st
    → HasRoom n (place_entry e st)
unfolding place_entry link
place_entry-HasRoom n e st h = elim (Option-cases (Dict.lookup e.ip st.by_ip)) [
  | inl gone ↦ rw gone (
      ground (
        arith,
        length-insert e.ip e st.by_ip,
        length-insert e.domain (set_insert e.ip (or_default (Dict.lookup e.domain st.by_domain)))
            st.by_domain,
      ))
  | inr (old, there) ↦ rw there (
      ground (
        arith,
        length-insert e.ip e st.by_ip,
        length-insert e.domain
            (set_insert e.ip
              (or_default (Dict.lookup e.domain (unlink e.ip old.domain st.by_domain))))
            (unlink e.ip old.domain st.by_domain),
        length-unlink e.ip old.domain st.by_domain,
      ))
]

-- With room for one more, `insert_entry` only places the entry.
pub insert_entry-room :
    (e : ResolvedIpEntry) (st : DomainRouteStore)
    → HasRoom 1 st
    → insert_entry e st ≡ place_entry e st
unfolding insert_entry enforce_caps
insert_entry-room e st h =
    let placed : DomainRouteStore = place_entry e st in
    let room : HasRoom 0 placed = place_entry-HasRoom 0 e st h in
    let first : evict_ips (length placed.by_ip) placed ≡ placed =
      evict_ips-room (length placed.by_ip) placed (ground arith) in
    rw first (evict_domains-room (length placed.by_domain) placed (ground arith))
