-- ===== src/Routing/Store/Caps.antt =====
-- `enforce_caps` of domain_store.rs: its loop over addresses ends below the cap.
use route_guard.Prelude.{
  list_eq, nat_eq, ℕ, zero, suc, ◌≡◌, ◌≤◌, ◌<◌, refl, true, false, none, some, List, [], ◌∷◌, arith,
  length, ltb,
}
use route_guard.Prelude.Sort.{min_by_key}
use route_guard.Prelude.Dict
use route_guard.Prelude.Dict.{
  length-remove, Dict, length-remove, length-insert, length-remove-lt, min_by_key-lookup,
  length-insert,
}
use route_guard.Core.Net.{IpAddr, ip_eq}
use route_guard.Routing.Store.{
  ResolvedIpEntry, DomainRouteStore, remove_ip, oldest, evict_ips, forget_ips, or_default,
  drop_domain, evict_domains, enforce_caps, place_entry, insert_entry,
}
use route_guard.Routing.Store.Loops.{evict_ips_rule, evict_domains_rule}

length-remove_ip :
    (st : DomainRouteStore) (p : IpAddr × ResolvedIpEntry)
    → oldest st.by_ip ≡ some p
    → length (remove_ip p.0 st).0.by_ip < length st.by_ip
unfolding remove_ip oldest
length-remove_ip st p h =
    let (v, there) = min_by_key-lookup _ st.by_ip p h in
    rw there (length-remove-lt p.0 st.by_ip v there)

oldest-ne-none : (m : Dict IpAddr ResolvedIpEntry) → oldest m ≡ none → length m ≡ 0
unfolding oldest min_by_key
oldest-ne-none [] h = refl
oldest-ne-none (x ∷ xs) h = absurd (ground arith)

remove_ip-config : (ip : IpAddr) (st : DomainRouteStore) → (remove_ip ip st).0.config ≡ st.config
unfolding remove_ip
remove_ip-config ip st = ground arith

pub evict_ips-config : (fuel : ℕ) (st : DomainRouteStore) → (evict_ips fuel st).config ≡ st.config
evict_ips-config fuel st =
    evict_ips_rule (λ s. s.config ≡ st.config)
      (λ p s found h. ground (arith, remove_ip-config p.0 s)) fuel st refl

-- `st` holds no more addresses than the configuration of `old` allows.
abbrev pub IsWithin : DomainRouteStore → DomainRouteStore → Type 0
IsWithin old st = length st.by_ip ≤ old.config.max_resolved_ips

pub length-evict_ips :
    (fuel : ℕ) (st : DomainRouteStore) → length st.by_ip ≤ fuel → IsWithin st (evict_ips fuel st)
unfolding evict_ips
length-evict_ips zero st h = omega arith
length-evict_ips (suc fuel) st h =
    (elim (ltb st.config.max_resolved_ips (length st.by_ip))
        as (λ b.
          ltb st.config.max_resolved_ips (length st.by_ip) ≡ b
          → IsWithin st (elim b [
            | false ↦ st
            | true ↦ elim (oldest st.by_ip) [
              | none ↦ st
              | some p ↦ evict_ips fuel (remove_ip p.0 st).0
            ]
          ])) [
            | false ↦ λ under. ground arith
            | true ↦ λ over.
                (elim (oldest st.by_ip)
                    as (λ o.
                      oldest st.by_ip ≡ o
                      → IsWithin st
                          (elim o [ none ↦ st | some p ↦ evict_ips fuel (remove_ip p.0 st).0 ])) [
                            | none ↦ λ gone. ground (arith, oldest-ne-none st.by_ip gone)
                            | some p ↦ λ found. ground (
                              arith,
                              length-evict_ips fuel (remove_ip p.0 st).0,
                              length-remove_ip st p found,
                              remove_ip-config p.0 st,
                            )
                          ])
                  refl
          ])
      refl

length-forget_ips :
    (ips : List IpAddr) (m : Dict IpAddr ResolvedIpEntry) → length (forget_ips ips m) ≤ length m
unfolding forget_ips
length-forget_ips [] m = omega arith
length-forget_ips (ip ∷ ips) m =
    ground (arith, length-forget_ips ips (Dict.remove ip m), length-remove ip m)

pub length-evict_domains :
    (fuel : ℕ) (st : DomainRouteStore) → length (evict_domains fuel st).by_ip ≤ length st.by_ip
unfolding drop_domain
length-evict_domains fuel st =
    evict_domains_rule (λ s. length s.by_ip ≤ length st.by_ip)
      (λ p s found h.
        ground (arith, length-forget_ips (or_default (Dict.lookup p.0 s.by_domain)) s.by_ip))
      fuel st (omega arith)

pub evict_domains-config :
    (fuel : ℕ) (st : DomainRouteStore) → (evict_domains fuel st).config ≡ st.config
unfolding drop_domain
evict_domains-config fuel st =
    evict_domains_rule (λ s. s.config ≡ st.config) (λ p s found h. h) fuel st refl

-- Whatever a store holds, after `insert_entry` it holds no more addresses than its configuration
-- allows, and the configuration is the one it had.
pub length-insert_entry :
    (e : ResolvedIpEntry) (st : DomainRouteStore)
    → (length (insert_entry e st).by_ip ≤ st.config.max_resolved_ips)
      × ((insert_entry e st).config ≡ st.config)
unfolding insert_entry enforce_caps place_entry
length-insert_entry e st = ground (
  arith,
  length-evict_ips (length (place_entry e st).by_ip) (place_entry e st),
  evict_ips-config (length (place_entry e st).by_ip) (place_entry e st),
  length-evict_domains
      (length (evict_ips (length (place_entry e st).by_ip) (place_entry e st)).by_domain)
      (evict_ips (length (place_entry e st).by_ip) (place_entry e st)),
  evict_domains-config
      (length (evict_ips (length (place_entry e st).by_ip) (place_entry e st)).by_domain)
      (evict_ips (length (place_entry e st).by_ip) (place_entry e st)),
)
