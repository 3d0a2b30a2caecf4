-- ===== src/Service/DomainRouting/Steps.antt =====
-- The parts of the methods of `crates/routeguard-service/src/domain_routing.rs`: how many routes they
-- ask for, and what they keep whatever fails.
use route_guard.Prelude.{
  ℕ, ◌+◌, ◌^◌, ◌≡◌, ◌<◌, ◌≤◌, refl, List, [], ◌∷◌, length, length-append, nat_eq, map, Bool-cases,
  inl, inr, arith,
}
use route_guard.Prelude.Text.{Text}
use route_guard.Prelude.Dict
use route_guard.Prelude.Result.{Result, ok, err}
use route_guard.Core.Net.{Platform, IpAddr, ip_eq}
use route_guard.Routing.Domain.{DomainRuleEntry, normalize_domain}
use route_guard.Routing.Store
use route_guard.Routing.Store.{ResolvedIpEntry, DomainRouteStore, DomainRouteStoreConfig}
use route_guard.Routing.Store.Apply.{
  apply_resolved, ApplyDiff, Answer, upsert, upsert_all, finish, same_route, answer_of, dropped,
}
use route_guard.Routing.Store.History.{IsValid}
use route_guard.Routing.Store.Persist.{Json, StoreError, persist_json}
use route_guard.Platform.Routes.{System}
use route_guard.Platform.Routes.Session.Tracking.{
  IsTracked, IsInjective, remove_domain_route-IsTracked,
}
use route_guard.Platform.Routes.Session.Installing.{weaken}
use route_guard.Platform.Routes.Session.History.{apply, apply-IsTracked, install_call}
use route_guard.Service.DomainRouting
use route_guard.Service.DomainRouting.{Files, Moment, State, or_zero}

-- An answer adds at most one route for each of its addresses.
upsert-added :
    (domain : Text) (rule : DomainRuleEntry) (a : Answer) (s : DomainRouteStore × ApplyDiff)
    → length (upsert domain rule a s).1.added ≤ length s.1.added + 1
unfolding upsert
upsert-added domain rule a (st, diff) =
    elim (Bool-cases (same_route (Dict.lookup a.ip st.by_ip) domain rule)) [
      | inl same ↦ rw same (omega arith)
      | inr other ↦ rw other (omega (arith, length-append diff.added _))
    ]

upsert_all-added :
    (domain : Text) (rule : DomainRuleEntry) (answers : List Answer)
    (s : DomainRouteStore × ApplyDiff)
    → length (upsert_all domain rule answers s).1.added ≤ length s.1.added + length answers
unfolding upsert_all
upsert_all-added domain rule [] s = omega arith
upsert_all-added domain rule (a ∷ answers) s = omega (
  arith,
  upsert-added domain rule a s,
  upsert_all-added domain rule answers (upsert domain rule a s),
)

length-answers :
    (now : ℕ) (config : DomainRouteStoreConfig) (records : List (IpAddr × ℕ))
    → length (map (answer_of now config) records) ≡ length records
length-answers now config [] = refl
length-answers now config (r ∷ records) = omega (arith, length-answers now config records)

finish-added :
    (domain : Text) (s : DomainRouteStore × ApplyDiff) → (finish domain s).1.added ≡ s.1.added
finish-added domain (st, diff) = ground arith

pub apply_resolved-added :
    (now : ℕ) (domain : Text) (records : List (IpAddr × ℕ)) (rule : DomainRuleEntry)
    (st : DomainRouteStore)
    → length (apply_resolved now domain records rule st).1.added ≤ length records
unfolding apply_resolved
apply_resolved-added now domain records rule st =
    let name : Text = normalize_domain domain in
    let answers : List Answer = map (answer_of now st.config) records in
    let (st', removed) = Store.remove_all (dropped name answers st) st in
    let first : DomainRouteStore × ApplyDiff =
      (st', record { added = []; removed = removed; refreshed = [] }) in
    rw (finish-added name (upsert_all name rule answers first)) (
      omega (arith, upsert_all-added name rule answers first, length-answers now st.config records))

module _ (env : Platform) (sys : System env.IpNet) (fs : Files) (json : Json) where
  -- A valid store of the manager's configuration, and routes that are known.
  abbrev pub IsSound : DomainRouteStoreConfig → ℕ → State env sys fs json → Type 0
  IsSound config k w =
      IsValid config w.store × (w.store_config ≡ config) × IsTracked env sys k w.routes

  pub grow :
      (config : DomainRouteStoreConfig) (k m : ℕ) (w : State env sys fs json)
      → k ≤ m
      → IsSound config k w
      → IsSound config m w
  grow config k m w le (v, c, r) = (v, c, weaken env sys k m w.routes le r)

  pub install_added-IsSound :
      (inj : IsInjective env sys) (config : DomainRouteStoreConfig) (t p k : ℕ)
      (entries : List ResolvedIpEntry) (w : State env sys fs json)
      → k + length entries < 2 ^ 64
      → IsSound config k w
      → IsSound config
          (k + length entries)
          (DomainRouting.install_added env sys fs json t p entries w)
  unfolding DomainRouting.install_added apply
  install_added-IsSound inj config t p k [] w small (v, c, r) =
      (v, c, weaken env sys k (k + 0) w.routes (omega arith) r)
  install_added-IsSound inj config t p k (e ∷ entries) w small (v, c, r) =
      let w' =
        DomainRouting.emit_route_added env sys fs json e
          (DomainRouting.try_install env sys fs json t p e w) in
      let first =
        apply-IsTracked env sys inj (install_call e.ip e.target t p e.expires_at) k w.routes
          (omega arith) r in
      grow config (k + 1 + length entries) (k + length (e ∷ entries))
        (DomainRouting.install_added env sys fs json t p entries w') (omega arith)
        (install_added-IsSound inj config t p (k + 1) entries w' (omega arith) (v, c, first))

  pub install_entries-IsSound :
      (inj : IsInjective env sys) (config : DomainRouteStoreConfig) (t p k : ℕ)
      (entries : List ResolvedIpEntry) (w : State env sys fs json)
      → k + length entries < 2 ^ 64
      → IsSound config k w
      → IsSound config
          (k + length entries)
          (DomainRouting.install_entries env sys fs json t p entries w)
  unfolding apply
  install_entries-IsSound inj config t p k [] w small (v, c, r) =
      (v, c, weaken env sys k (k + 0) w.routes (omega arith) r)
  install_entries-IsSound inj config t p k (e ∷ entries) w small (v, c, r) =
      let w' = DomainRouting.try_install env sys fs json t p e w in
      let first =
        apply-IsTracked env sys inj (install_call e.ip e.target t p e.expires_at) k w.routes
          (omega arith) r in
      grow config (k + 1 + length entries) (k + length (e ∷ entries))
        (DomainRouting.install_entries env sys fs json t p entries w') (omega arith)
        (install_entries-IsSound inj config t p (k + 1) entries w' (omega arith) (v, c, first))

  pub remove_gone-IsSound :
      (inj : IsInjective env sys) (config : DomainRouteStoreConfig) (k : ℕ)
      (entries : List ResolvedIpEntry) (w : State env sys fs json)
      → k < 2 ^ 64
      → IsSound config k w
      → IsSound config k (DomainRouting.remove_gone env sys fs json entries w)
  unfolding DomainRouting.remove_gone apply
  remove_gone-IsSound inj config k [] w small h = h
  remove_gone-IsSound inj config k (e ∷ entries) w small (v, c, r) =
      let w' =
        DomainRouting.emit_route_expired env sys fs json e
          (DomainRouting.try_remove env sys fs json e w) in
      remove_gone-IsSound inj config k entries w' small
        (v, c, remove_domain_route-IsTracked env sys inj k e.ip w.routes r)

  write_cache-IsSound :
      (config : DomainRouteStoreConfig) (k : ℕ) (text : Result StoreError Text)
      (w : State env sys fs json)
      → IsSound config k w
      → IsSound config k (DomainRouting.write_cache env sys fs json text w).0
  write_cache-IsSound config k (err e) w h = h
  write_cache-IsSound config k (ok text) w h = h

  pub persist-IsSound :
      (config : DomainRouteStoreConfig) (k : ℕ) (w : State env sys fs json)
      → IsSound config k w
      → IsSound config k (DomainRouting.persist env sys fs json w).0
  unfolding DomainRouting.persist
  persist-IsSound config k w h =
      let (files, made) = fs.create_dir_all w.files in
      elim (Bool-cases made) [
        | inl done ↦ rw done (
            write_cache-IsSound config k (persist_json json w.store) (record w { files = files }) h)
        | inr failed ↦ rw failed h
      ]
