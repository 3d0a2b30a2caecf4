-- ===== src/Routing/Store/Apply/Agreement.antt =====
-- `apply_resolved` keeps the two indexes of the store in agreement.
use route_guard.Prelude.{
  ℕ, ◌≡◌, some, List, [], ◌∷◌, arith, list_eq, nat_eq, Option-cases, inl, inr, Bool-cases,
  list_beq_iff, map,
}
use route_guard.Prelude.Text.{Text}
use route_guard.Prelude.Dict
use route_guard.Prelude.Dict.{lookup-insert}
use route_guard.Core.Net.{IpAddr, ip_eq, ip_beq_iff}
use route_guard.Routing.Domain.{DomainRuleEntry, normalize_domain}
use route_guard.Routing.Store.{ResolvedIpEntry, DomainRouteStore, or_default, remove_all}
use route_guard.Routing.Store.Consistency.{
  IsConsistent, insert_entry-IsConsistent, remove_all-IsConsistent,
}
use route_guard.Routing.Store.Apply.{
  ApplyDiff, Answer, upsert, upsert_all, apply_resolved, entry_of, same_route, ensure_domain,
  is_noop, finish, answer_of, dropped,
}

-- A new expiry for an entry that is there.
refresh-IsConsistent :
    (ip : IpAddr) (old : ResolvedIpEntry) (ttl expires : ℕ) (st : DomainRouteStore)
    → Dict.lookup ip st.by_ip ≡ some old
    → IsConsistent st
    → IsConsistent (record st {
      by_ip = Dict.insert ip (record old { ttl_secs = ttl; expires_at = expires }) st.by_ip;
    })
refresh-IsConsistent ip old ttl expires st there c =
    let new : ResolvedIpEntry = record old { ttl_secs = ttl; expires_at = expires } in
    record {
      keyed = λ j e h.
          ground
            (arith, lookup-insert ip j new st.by_ip, c.keyed j e, c.keyed ip old, ip_beq_iff ip j);
      agree = λ d j.
          ground (arith, there, lookup-insert ip j new st.by_ip, c.agree d j, ip_beq_iff ip j);
    }

pub upsert-IsConsistent :
    (domain : Text) (rule : DomainRuleEntry) (a : Answer) (s : DomainRouteStore × ApplyDiff)
    → IsConsistent s.0
    → IsConsistent (upsert domain rule a s).0
unfolding upsert
upsert-IsConsistent domain rule a (st, diff) c = elim (Option-cases (Dict.lookup a.ip st.by_ip)) [
  | inl gone ↦ rw gone (insert_entry-IsConsistent (entry_of domain rule a) st c)
  | inr (old, there) ↦ elim (Bool-cases (same_route (some old) domain rule)) [
    | inl same ↦ rw there (rw same (refresh-IsConsistent a.ip old a.ttl a.expires_at st there c))
    | inr other ↦ rw there (rw other (insert_entry-IsConsistent (entry_of domain rule a) st c))
  ]
]

upsert_all-IsConsistent :
    (domain : Text) (rule : DomainRuleEntry) (answers : List Answer)
    (s : DomainRouteStore × ApplyDiff)
    → IsConsistent s.0
    → IsConsistent (upsert_all domain rule answers s).0
unfolding upsert_all
upsert_all-IsConsistent domain rule [] s c = c
upsert_all-IsConsistent domain rule (a ∷ answers) s c =
    upsert_all-IsConsistent domain rule answers (upsert domain rule a s)
      (upsert-IsConsistent domain rule a s c)

-- Asking for the empty set of a new domain links nothing.
ensure_domain-IsConsistent :
    (domain : Text) (st : DomainRouteStore)
    → IsConsistent st
    → IsConsistent (ensure_domain domain st)
ensure_domain-IsConsistent domain st c = record {
  keyed = c.keyed;
  agree = λ d j. ground (
    arith,
    lookup-insert domain d (or_default (Dict.lookup domain st.by_domain)) st.by_domain,
    c.agree d j,
    list_beq_iff domain d,
  );
}

finish-IsConsistent :
    (domain : Text) (s : DomainRouteStore × ApplyDiff)
    → IsConsistent s.0
    → IsConsistent (finish domain s).0
finish-IsConsistent domain (st, diff) c = elim (Bool-cases (is_noop diff)) [
  | inl noop ↦ rw noop (ensure_domain-IsConsistent domain st c)
  | inr work ↦ rw work c
]

-- A DNS answer, whatever it holds and whatever it evicts, leaves the two indexes in agreement.
pub apply_resolved-IsConsistent :
    (now : ℕ) (domain : Text) (ips : List (IpAddr × ℕ)) (rule : DomainRuleEntry)
    (st : DomainRouteStore)
    → IsConsistent st
    → IsConsistent (apply_resolved now domain ips rule st).0
unfolding apply_resolved
apply_resolved-IsConsistent now domain ips rule st c =
    let name : Text = normalize_domain domain in
    let answers : List Answer = map (answer_of now st.config) ips in
    let (st', removed) = remove_all (dropped name answers st) st in
    let start : DomainRouteStore × ApplyDiff =
      (st', record { added = []; removed = removed; refreshed = [] }) in
    finish-IsConsistent name (upsert_all name rule answers start) (
      upsert_all-IsConsistent name rule answers start
        (remove_all-IsConsistent (dropped name answers st) st c))
