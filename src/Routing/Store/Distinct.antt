-- ===== src/Routing/Store/Distinct.antt =====
-- No operation of domain_store.rs gives an address a second entry.
use route_guard.Prelude.{List, [], ◌∷◌, Option-cases, inl, inr, list_eq, nat_eq}
use route_guard.Prelude.Dict
use route_guard.Prelude.Dict.{Dict, IsDistinct, insert-IsDistinct, remove-IsDistinct}
use route_guard.Core.Net.{IpAddr, ip_eq}
use route_guard.Routing.Store.{
  ResolvedIpEntry, DomainRouteStore, remove_ip, or_default, forget_ips, drop_domain, place_entry,
  insert_entry, enforce_caps,
}
use route_guard.Routing.Store.Loops.{evict_ips_rule, evict_domains_rule}

pub remove_ip-IsDistinct :
    (ip : IpAddr) (st : DomainRouteStore)
    → IsDistinct st.by_ip
    → IsDistinct (remove_ip ip st).0.by_ip
unfolding remove_ip
remove_ip-IsDistinct ip st h = elim (Option-cases (Dict.lookup ip st.by_ip)) [
  | inl gone ↦ rw gone h
  | inr (e, there) ↦ rw there (remove-IsDistinct ip st.by_ip h)
]

forget_ips-IsDistinct :
    (ips : List IpAddr) (m : Dict IpAddr ResolvedIpEntry)
    → IsDistinct m
    → IsDistinct (forget_ips ips m)
unfolding forget_ips
forget_ips-IsDistinct [] m h = h
forget_ips-IsDistinct (ip ∷ ips) m h =
    forget_ips-IsDistinct ips (Dict.remove ip m) (remove-IsDistinct ip m h)

pub insert_entry-IsDistinct :
    (e : ResolvedIpEntry) (st : DomainRouteStore)
    → IsDistinct st.by_ip
    → IsDistinct (insert_entry e st).by_ip
unfolding insert_entry enforce_caps place_entry drop_domain
insert_entry-IsDistinct e st h =
    evict_domains_rule (λ s. IsDistinct s.by_ip)
      (λ p s found d. forget_ips-IsDistinct (or_default (Dict.lookup p.0 s.by_domain)) s.by_ip d) _
      _
      (evict_ips_rule (λ s. IsDistinct s.by_ip) (λ p s found. remove_ip-IsDistinct p.0 s) _ _
        (insert-IsDistinct e.ip e st.by_ip h))
