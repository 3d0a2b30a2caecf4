-- ===== src/Routing/Store/Expiry.antt =====
-- What `purge_expired` and `prune_unmatched_rules` of domain_store.rs leave in the store.
use route_guard.Prelude.{
  true, ◌↔◌, ℕ, ◌≡◌, refl, none, some, List, [], ◌∷◌, arith, if◌then◌else◌, list_eq, nat_eq,
  contains, leb, keep, not, Option-cases, inl, inr,
}
use route_guard.Prelude.Dict
use route_guard.Prelude.Dict.{lookup-remove, contains-keys-keep, IsDistinct}
use route_guard.Core.Net.{IpAddr, ip_eq}
use route_guard.Routing.Store.{
  ResolvedIpEntry, DomainRouteStore, remove_ip, remove_all, purge_expired, entry_for_ip, has_rule,
  prune_unmatched_rules,
}

lookup-remove_ip :
    (ip j : IpAddr) (st : DomainRouteStore)
    → Dict.lookup j (remove_ip ip st).0.by_ip ≡ Dict.lookup j (Dict.remove ip st.by_ip)
unfolding remove_ip
lookup-remove_ip ip j st = elim (Option-cases (Dict.lookup ip st.by_ip)) [
  | inl gone ↦ rw gone (ground (arith, lookup-remove ip j st.by_ip, gone, ip_eq.beq_iff ip j))
  | inr (e, there) ↦ rw there refl
]

lookup-remove_all :
    (ips : List IpAddr) (j : IpAddr) (st : DomainRouteStore)
    → Dict.lookup j (remove_all ips st).0.by_ip
      ≡ (if contains ips j then none else Dict.lookup j st.by_ip)
unfolding remove_all
lookup-remove_all [] j st = refl
lookup-remove_all (ip ∷ ips) j st = ground (
  arith,
  lookup-remove_all ips j (remove_ip ip st).0,
  lookup-remove_ip ip j st,
  lookup-remove ip j st.by_ip,
)

-- In a store where no address occurs twice, a look-up of the raw table after a purge finds what
-- `entry_for_ip` found before it at the same time: exactly the entries that have not expired.
pub lookup-purge_expired :
    (now : ℕ) (ip : IpAddr) (st : DomainRouteStore)
    → IsDistinct st.by_ip
    → Dict.lookup ip (purge_expired now st).0.by_ip ≡ entry_for_ip now st ip
unfolding purge_expired entry_for_ip
lookup-purge_expired now ip st h = ground (
  arith,
  lookup-remove_all
      (Dict.keys (keep (λ (p : IpAddr × ResolvedIpEntry). leb p.1.expires_at now) st.by_ip)) ip st,
  contains-keys-keep (λ (e : ResolvedIpEntry). leb e.expires_at now) ip st.by_ip h,
)

-- In a store where no address occurs twice, `prune_unmatched_rules` leaves an entry exactly when a
-- rule has its pattern and its target.
pub lookup-prune_unmatched_rules :
    (ip : IpAddr) (e : ResolvedIpEntry) (st : DomainRouteStore)
    → IsDistinct st.by_ip
    → (Dict.lookup ip (prune_unmatched_rules st).0.by_ip ≡ some e)
      ↔ ((Dict.lookup ip st.by_ip ≡ some e) × (has_rule st.rules e ≡ true))
unfolding prune_unmatched_rules
lookup-prune_unmatched_rules ip e st h = ground (
  arith,
  lookup-remove_all
      (Dict.keys (keep (λ (p : IpAddr × ResolvedIpEntry). not (has_rule st.rules p.1)) st.by_ip)) ip
      st,
  contains-keys-keep (λ (e : ResolvedIpEntry). not (has_rule st.rules e)) ip st.by_ip h,
)
