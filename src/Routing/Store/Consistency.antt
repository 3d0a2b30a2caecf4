-- ===== src/Routing/Store/Consistency.antt =====
-- The store's two indexes agree, and every operation of domain_store.rs keeps it so.
use route_guard.Prelude.{
  ℕ, ◌≡◌, refl, none, some, List, [], ◌∷◌, arith, if◌then◌else◌, list_eq, nat_eq, contains,
  Option-cases, inl, inr, list_beq_iff,
}
use route_guard.Prelude.Text.{Text}
use route_guard.Prelude.Dict
use route_guard.Prelude.Dict.{Dict, lookup-insert, lookup-remove}
use route_guard.Core.Net.{IpAddr, ip_eq, ip_beq_iff}
use route_guard.Routing.Store.{
  ResolvedIpEntry, DomainRouteStoreConfig, DomainRouteStore, new, or_default, remove_ip, remove_all,
  evict_ips, forget_ips, drop_domain, evict_domains, enforce_caps, place_entry, insert_entry,
  unlink,
}
use route_guard.Routing.Store.Loops.{evict_ips_rule, evict_domains_rule}
use route_guard.Routing.Store.Index.{linked, stored, linked-unlink, linked-link}

-- Every entry stands under its own address, and a domain's set holds an address exactly when the
-- address has an entry of that domain.
pub record IsConsistent (st : DomainRouteStore) : Type 0 where
  pub keyed : (ip : IpAddr) (e : ResolvedIpEntry) → Dict.lookup ip st.by_ip ≡ some e → e.ip ≡ ip
  pub agree : (d : Text) (ip : IpAddr) → linked st.by_domain d ip ≡ stored st.by_ip d ip

pub new-IsConsistent : (config : DomainRouteStoreConfig) → IsConsistent (new config)
unfolding Dict.lookup
new-IsConsistent config = record { keyed = λ ip e h. cc; agree = λ d ip. refl }

pub remove_ip-IsConsistent :
    (ip : IpAddr) (st : DomainRouteStore) → IsConsistent st → IsConsistent (remove_ip ip st).0
unfolding remove_ip
remove_ip-IsConsistent ip st c = elim (Option-cases (Dict.lookup ip st.by_ip)) [
  | inl gone ↦ rw gone c
  | inr (old, there) ↦ rw there (record {
    keyed = λ j e h. ground (arith, lookup-remove ip j st.by_ip, c.keyed j e);
    agree = λ d j. ground (
      arith,
      there,
      lookup-remove ip j st.by_ip,
      linked-unlink ip old.domain st.by_domain d j,
      c.agree d j,
      list_beq_iff old.domain d,
      ip_beq_iff ip j,
    );
  })
]

pub place_entry-IsConsistent :
    (e : ResolvedIpEntry) (st : DomainRouteStore)
    → IsConsistent st
    → IsConsistent (place_entry e st)
unfolding place_entry
place_entry-IsConsistent e st c = record {
  keyed = λ j x h. ground (arith, lookup-insert e.ip j e st.by_ip, c.keyed j x, ip_beq_iff e.ip j);
  agree = λ d j. elim (Option-cases (Dict.lookup e.ip st.by_ip)) [
    | inl gone ↦ rw gone (
        ground (
          arith,
          gone,
          lookup-insert e.ip j e st.by_ip,
          linked-link e.ip e.domain st.by_domain d j,
          c.agree d j,
          list_beq_iff e.domain d,
          ip_beq_iff e.ip j,
        ))
    | inr (old, there) ↦ rw there (
        ground (
          arith,
          there,
          lookup-insert e.ip j e st.by_ip,
          linked-link e.ip e.domain (unlink e.ip old.domain st.by_domain) d j,
          linked-unlink e.ip old.domain st.by_domain d j,
          c.agree d j,
          list_beq_iff e.domain d,
          list_beq_iff old.domain d,
          ip_beq_iff e.ip j,
        ))
  ];
}

pub lookup-forget_ips :
    (ips : List IpAddr) (j : IpAddr) (m : Dict IpAddr ResolvedIpEntry)
    → Dict.lookup j (forget_ips ips m) ≡ (if contains ips j then none else Dict.lookup j m)
unfolding forget_ips
lookup-forget_ips [] j m = refl
lookup-forget_ips (ip ∷ ips) j m =
    ground (arith, lookup-forget_ips ips j (Dict.remove ip m), lookup-remove ip j m)

pub drop_domain-IsConsistent :
    (d : Text) (st : DomainRouteStore) → IsConsistent st → IsConsistent (drop_domain d st)
unfolding drop_domain
drop_domain-IsConsistent d st c =
    let ips : List IpAddr = or_default (Dict.lookup d st.by_domain) in
    record {
      keyed = λ j e h. ground (arith, lookup-forget_ips ips j st.by_ip, c.keyed j e);
      agree = λ d' j. elim (Option-cases (Dict.lookup j st.by_ip)) [
        | inl gone ↦ ground (
          arith,
          gone,
          lookup-forget_ips ips j st.by_ip,
          lookup-remove d d' st.by_domain,
          c.agree d j,
          c.agree d' j,
        )
        | inr (e, there) ↦ ground (
          arith,
          there,
          lookup-forget_ips ips j st.by_ip,
          lookup-remove d d' st.by_domain,
          c.agree d j,
          c.agree d' j,
          list_beq_iff d d',
          list_beq_iff e.domain d,
          list_beq_iff e.domain d',
        )
      ];
    }

pub evict_ips-IsConsistent :
    (fuel : ℕ) (st : DomainRouteStore) → IsConsistent st → IsConsistent (evict_ips fuel st)
evict_ips-IsConsistent = evict_ips_rule IsConsistent (λ p st found. remove_ip-IsConsistent p.0 st)

pub evict_domains-IsConsistent :
    (fuel : ℕ) (st : DomainRouteStore) → IsConsistent st → IsConsistent (evict_domains fuel st)
evict_domains-IsConsistent =
    evict_domains_rule IsConsistent (λ p st found. drop_domain-IsConsistent p.0 st)

pub insert_entry-IsConsistent :
    (e : ResolvedIpEntry) (st : DomainRouteStore)
    → IsConsistent st
    → IsConsistent (insert_entry e st)
unfolding insert_entry enforce_caps
insert_entry-IsConsistent e st c =
    evict_domains-IsConsistent _ _ (evict_ips-IsConsistent _ _ (place_entry-IsConsistent e st c))

pub remove_all-IsConsistent :
    (ips : List IpAddr) (st : DomainRouteStore)
    → IsConsistent st
    → IsConsistent (remove_all ips st).0
unfolding remove_all
remove_all-IsConsistent [] st c = c
remove_all-IsConsistent (ip ∷ ips) st c =
    remove_all-IsConsistent ips (remove_ip ip st).0 (remove_ip-IsConsistent ip st c)
