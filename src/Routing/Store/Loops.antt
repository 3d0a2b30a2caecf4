-- ===== src/Routing/Store/Loops.antt =====
-- The loops of `enforce_caps`: an induction rule for each, with what the round has found.
use route_guard.Prelude.{ℕ, zero, suc, ◌≡◌, refl, true, false, none, some, ltb, length}
use route_guard.Prelude.Text.{Text}
use route_guard.Core.Net.{IpAddr}
use route_guard.Routing.Store.{
  ResolvedIpEntry, DomainRouteStore, remove_ip, oldest, evict_ips, victim, drop_domain,
  evict_domains,
}

pub evict_ips_rule {ℓ} :
    (P : DomainRouteStore → Type ℓ)
    → ((p : IpAddr × ResolvedIpEntry) (st : DomainRouteStore)
        → oldest st.by_ip ≡ some p
        → P st
        → P (remove_ip p.0 st).0)
    → (fuel : ℕ) (st : DomainRouteStore) → P st
    → P (evict_ips fuel st)
unfolding evict_ips
evict_ips_rule P keep zero st h = h
evict_ips_rule P keep (suc fuel) st h =
    elim (ltb st.config.max_resolved_ips (length st.by_ip))
      as (λ b. P (elim b [
        | false ↦ st
        | true ↦ elim (oldest st.by_ip) [ none ↦ st | some p ↦ evict_ips fuel (remove_ip p.0 st).0 ]
      ])) [
        | false ↦ h
        | true ↦
            (elim (oldest st.by_ip)
                as (λ o.
                  oldest st.by_ip ≡ o
                  → P (elim o [ none ↦ st | some p ↦ evict_ips fuel (remove_ip p.0 st).0 ])) [
                    | none ↦ λ e. h
                    | some p ↦ λ e. evict_ips_rule P keep fuel (remove_ip p.0 st).0 (keep p st e h)
                  ])
              refl
      ]

pub evict_domains_rule {ℓ} :
    (P : DomainRouteStore → Type ℓ)
    → ((p : Text × ℕ) (st : DomainRouteStore) → victim st ≡ some p → P st → P (drop_domain p.0 st))
    → (fuel : ℕ) (st : DomainRouteStore) → P st
    → P (evict_domains fuel st)
unfolding evict_domains
evict_domains_rule P keep zero st h = h
evict_domains_rule P keep (suc fuel) st h =
    elim (ltb st.config.max_domains (length st.by_domain))
      as (λ b. P (elim b [
        | false ↦ st
        | true ↦ elim (victim st) [ none ↦ st | some p ↦ evict_domains fuel (drop_domain p.0 st) ]
      ])) [
        | false ↦ h
        | true ↦
            (elim (victim st)
                as (λ o.
                  victim st ≡ o
                  → P (elim o [ none ↦ st | some p ↦ evict_domains fuel (drop_domain p.0 st) ])) [
                    | none ↦ λ e. h
                    | some p ↦
                        λ e. evict_domains_rule P keep fuel (drop_domain p.0 st) (keep p st e h)
                  ])
              refl
      ]
