-- ===== src/Service/DomainRouting/Methods.antt =====
-- What each method of `crates/routeguard-service/src/domain_routing.rs` keeps, whatever fails in it.
use route_guard.Prelude.{
  ℕ, ◌+◌, ◌^◌, ◌≡◌, ◌<◌, ◌≤◌, refl, sym, not, ◌&&◌, ◌||◌, List, [], ◌∷◌, length, is_empty, nat_beq,
  Bool-cases, Option-cases, inl, inr, arith,
}
use route_guard.Prelude.Text.{Text}
use route_guard.Prelude.Dict
use route_guard.Prelude.Result.{Result, ok, err}
use route_guard.Core.Net.{Platform, IpAddr, ip_eq}
use route_guard.Core.Config.{DomainRule}
use route_guard.Core.Policy.{PolicySnapshot}
use route_guard.Routing.Domain.{DomainRuleEntry}
use route_guard.Routing.Store
use route_guard.Routing.Store.{ResolvedIpEntry, DomainRouteStore, DomainRouteStoreConfig}
use route_guard.Routing.Store.Apply.{apply_resolved, ApplyDiff}
use route_guard.Routing.Store.History.{
  call, IsValid, call-IsValid, set_rules_call, apply_call, prune_call, clear_call,
  purge_call as purge_store_call,
}
use route_guard.Routing.Store.Persist
use route_guard.Routing.Store.Persist.{Json, StoreError}
use route_guard.Routing.Store.Persist.Reload.{load_persisted-IsValid}
use route_guard.Platform.Routes.{System}
use route_guard.Platform.Routes.Session
use route_guard.Platform.Routes.Session.Tracking.{IsInjective, remove_domain_routes-IsTracked}
use route_guard.Platform.Routes.Session.Installing.{weaken}
use route_guard.Platform.Routes.Session.History.{apply, apply-IsTracked, purge_call}
use route_guard.Service.DomainRouting
use route_guard.Service.DomainRouting.{Files, Moment, State, or_zero}
use route_guard.Service.DomainRouting.Steps.{
  apply_resolved-added, IsSound, grow, install_added-IsSound, install_entries-IsSound,
  remove_gone-IsSound, persist-IsSound,
}

module _ (env : Platform) (sys : System env.IpNet) (fs : Files) (json : Json) where
  sync_engine-IsSound :
      (config : DomainRouteStoreConfig) (k : ℕ) (now : Moment) (w : State env sys fs json)
      → IsSound env sys fs json config k w
      → IsSound env sys fs json config k (DomainRouting.sync_engine env sys fs json now w)
  unfolding DomainRouting.sync_engine
  sync_engine-IsSound config k now w h = elim (Bool-cases now.engine_free) [
    | inl free ↦ rw free h
    | inr busy ↦ rw busy h
  ]

  emit_expired_all-IsSound :
      (config : DomainRouteStoreConfig) (k : ℕ) (entries : List ResolvedIpEntry)
      (w : State env sys fs json)
      → IsSound env sys fs json config k w
      → IsSound env sys fs json config k (DomainRouting.emit_expired_all env sys fs json entries w)
  emit_expired_all-IsSound config k [] w h = h
  emit_expired_all-IsSound config k (e ∷ entries) w h =
      emit_expired_all-IsSound config k entries
        (DomainRouting.emit_route_expired env sys fs json e w) h

  pub rebuild_rules-IsSound :
      (config : DomainRouteStoreConfig) (k : ℕ) (now : Moment) (rules : List DomainRule)
      (w : State env sys fs json)
      → IsSound env sys fs json config k w
      → IsSound env sys fs json config k (DomainRouting.rebuild_rules env sys fs json now rules w)
  unfolding DomainRouting.rebuild_rules call
  rebuild_rules-IsSound config k now rules w (v, c, r) =
      let st' : DomainRouteStore = Store.set_rules rules w.store in
      let (st, pruned) = Store.prune_unmatched_rules st' in
      let told = DomainRouting.emit_expired_all env sys fs json pruned (record w { store = st }) in
      sync_engine-IsSound config k now told (
        emit_expired_all-IsSound config k pruned (record w { store = st })
          (
            call-IsValid config prune_call st'
                (call-IsValid config (set_rules_call rules) w.store v),
            c,
            r,
          ))

  change_routes-IsSound :
      (inj : IsInjective env sys) (config : DomainRouteStoreConfig) (t p k n : ℕ) (diff : ApplyDiff)
      (w : State env sys fs json)
      → length diff.added ≤ n
      → k + n < 2 ^ 64
      → IsSound env sys fs json config k w
      → IsSound env sys fs json config
          (k + n)
          (DomainRouting.change_routes env sys fs json t p diff w)
  change_routes-IsSound inj config t p k n diff w few small h =
      let v = DomainRouting.install_added env sys fs json t p diff.added w in
      elim (Bool-cases (not (nat_beq t 0) || not (nat_beq p 0))) [
        | inl some_if ↦ rw some_if (
            remove_gone-IsSound env sys fs json inj config (k + n) diff.removed v small (
              grow env sys fs json config (k + length diff.added) (k + n) v (omega arith) (
                install_added-IsSound env sys fs json inj config t p k diff.added w (omega arith)
                  h)))
        | inr no_if ↦ rw no_if (grow env sys fs json config k (k + n) w (omega arith) h)
      ]

  emit_resolved-IsSound :
      (config : DomainRouteStoreConfig) (k : ℕ) (domain : Text) (records : List (IpAddr × ℕ))
      (rule : DomainRuleEntry) (diff : ApplyDiff) (w : State env sys fs json)
      → IsSound env sys fs json config k w
      → IsSound env sys fs json config k
          (DomainRouting.emit_resolved env sys fs json domain records rule diff w)
  emit_resolved-IsSound config k domain records rule diff w h =
      elim (Bool-cases (not (is_empty diff.added) || not (is_empty diff.refreshed))) [
        | inl told ↦ rw told h
        | inr silent ↦ rw silent h
      ]

  apply_answer-IsSound :
      (inj : IsInjective env sys) (config : DomainRouteStoreConfig) (k : ℕ) (now : Moment)
      (domain : Text) (records : List (IpAddr × ℕ)) (policy : PolicySnapshot)
      (rule : DomainRuleEntry) (w : State env sys fs json)
      → k + length records < 2 ^ 64
      → IsSound env sys fs json config k w
      → IsSound env sys fs json config
          (k + length records)
          (DomainRouting.apply_answer env sys fs json now domain records policy rule w)
  unfolding DomainRouting.apply_answer call
  apply_answer-IsSound inj config k now domain records policy rule w small (v, c, r) =
      let (st, diff) = apply_resolved now.clock.unix_secs domain records rule w.store in
      let synced = DomainRouting.sync_engine env sys fs json now (record w { store = st }) in
      let t : ℕ = or_zero policy.tunnel_if_index in
      let p : ℕ = or_zero policy.physical_if_index in
      let routed = DomainRouting.change_routes env sys fs json t p diff synced in
      let told = DomainRouting.emit_resolved env sys fs json domain records rule diff routed in
      let few = apply_resolved-added now.clock.unix_secs domain records rule w.store in
      let start =
        sync_engine-IsSound config k now (record w { store = st })
          (
            call-IsValid config (apply_call now.clock.unix_secs domain records rule) w.store v,
            c,
            r,
          ) in
      persist-IsSound env sys fs json config (k + length records) told (
        emit_resolved-IsSound config (k + length records) domain records rule diff routed
          (change_routes-IsSound inj config t p k (length records) diff synced few small start))

  pub on_dns_response-IsSound :
      (inj : IsInjective env sys) (config : DomainRouteStoreConfig) (k : ℕ) (now : Moment)
      (domain : Text) (records : List (IpAddr × ℕ)) (policy : PolicySnapshot)
      (w : State env sys fs json)
      → k + length records < 2 ^ 64
      → IsSound env sys fs json config k w
      → IsSound env sys fs json config
          (k + length records)
          (DomainRouting.on_dns_response env sys fs json now domain records policy w)
  unfolding DomainRouting.on_dns_response
  on_dns_response-IsSound inj config k now domain records policy w small h =
      elim (Bool-cases (is_empty records)) [
        | inl nothing ↦
            rw nothing (grow env sys fs json config k (k + length records) w (omega arith) h)
        | inr asked ↦ elim (Option-cases (Store.match_domain env w.store domain)) [
          | inl free ↦
              rw (asked, free)
                (grow env sys fs json config k (k + length records) w (omega arith) h)
          | inr (rule, matched) ↦
              rw (asked, matched)
                (apply_answer-IsSound inj config k now domain records policy rule w small h)
        ]
      ]

  pub purge_expired-IsSound :
      (inj : IsInjective env sys) (config : DomainRouteStoreConfig) (k : ℕ) (now : Moment)
      (w : State env sys fs json)
      → k < 2 ^ 64
      → IsSound env sys fs json config k w
      → IsSound env sys fs json config k (DomainRouting.purge_expired env sys fs json now w)
  unfolding DomainRouting.purge_expired call apply
  purge_expired-IsSound inj config k now w small (v, c, r) =
      let (st, expired) = Store.purge_expired now.clock.unix_secs w.store in
      let still : IsValid config st =
        call-IsValid config (purge_store_call now.clock.unix_secs) w.store v in
      let gone = DomainRouting.remove_gone env sys fs json expired (record w { store = st }) in
      elim (Bool-cases (not (is_empty expired))) [
        | inl some_expired ↦ rw some_expired (
            persist-IsSound env sys fs json config k
              (DomainRouting.sync_engine env sys fs json now gone)
              (sync_engine-IsSound config k now gone (
                remove_gone-IsSound env sys fs json inj config k expired (record w { store = st })
                  small (still, c, r))))
        | inr none_expired ↦ rw none_expired (
          still,
          c,
          weaken env sys (k + 0) k (apply env sys (purge_call now.clock.unix_secs) w.routes)
              (omega arith)
              (apply-IsTracked env sys inj (purge_call now.clock.unix_secs) k w.routes (omega arith)
                r),
        )
      ]

  pub clear-IsSound :
      (inj : IsInjective env sys) (config : DomainRouteStoreConfig) (k : ℕ) (now : Moment)
      (w : State env sys fs json)
      → IsSound env sys fs json config k w
      → IsSound env sys fs json config k (DomainRouting.clear env sys fs json now w)
  unfolding DomainRouting.clear Session.clear_domain_routes call
  clear-IsSound inj config k now w (v, c, r) =
      let emptied = record w {
        store = Store.clear w.store;
        routes = (Session.clear_domain_routes env sys w.routes).0;
      } in
      persist-IsSound env sys fs json config k
        (DomainRouting.sync_engine env sys fs json now emptied)
        (sync_engine-IsSound config k now emptied (
          call-IsValid config clear_call w.store v,
          c,
          remove_domain_routes-IsTracked env sys inj k (Dict.keys w.routes.session.domain_routes)
              w.routes r,
        ))

  pub reinstall_routes_from_cache-IsSound :
      (inj : IsInjective env sys) (config : DomainRouteStoreConfig) (k : ℕ)
      (policy : PolicySnapshot) (w : State env sys fs json)
      → k + length (Dict.values w.store.by_ip) < 2 ^ 64
      → IsSound env sys fs json config k w
      → IsSound env sys fs json config
          (k + length (Dict.values w.store.by_ip))
          (DomainRouting.reinstall_routes_from_cache env sys fs json policy w)
  unfolding DomainRouting.reinstall_routes_from_cache
  reinstall_routes_from_cache-IsSound inj config k policy w small h =
      let t : ℕ = or_zero policy.tunnel_if_index in
      let p : ℕ = or_zero policy.physical_if_index in
      let entries : List ResolvedIpEntry = Dict.values w.store.by_ip in
      elim (Bool-cases (nat_beq t 0 && nat_beq p 0)) [
        | inl no_if ↦
            rw no_if (grow env sys fs json config k (k + length entries) w (omega arith) h)
        | inr some_if ↦
            rw some_if (install_entries-IsSound env sys fs json inj config t p k entries w small h)
      ]

  recovered-IsSound :
      (config : DomainRouteStoreConfig) (k : ℕ) (now : Moment)
      (loaded : Result StoreError DomainRouteStore) (w : State env sys fs json)
      → ((st : DomainRouteStore) → loaded ≡ ok st → IsValid config st)
      → IsSound env sys fs json config k w
      → IsSound env sys fs json config k (DomainRouting.recovered env sys fs json now loaded w)
  recovered-IsSound config k now (err e) w valid h = h
  recovered-IsSound config k now (ok st) w valid (v, c, r) =
      sync_engine-IsSound config k now
        (DomainRouting.emit env sys fs json
          (DomainRouting.domain_recovered (length st.by_ip) st.generation)
          (record w { store = st }))
        (valid st refl, c, r)

  pub load_persisted-IsSound :
      (config : DomainRouteStoreConfig) (k : ℕ) (now : Moment) (w : State env sys fs json)
      → IsSound env sys fs json config k w
      → IsSound env sys fs json config k (DomainRouting.load_persisted env sys fs json now w)
  unfolding DomainRouting.load_persisted
  load_persisted-IsSound config k now w h = elim (Bool-cases (fs.exists_cache w.files)) [
    | inr missing ↦ rw missing h
    | inl there ↦ elim (Option-cases (fs.read_to_string w.files)) [
      | inl unread ↦ rw (there, unread) h
      | inr (text, read) ↦
          let loaded = Persist.load_persisted json now.clock.unix_secs text w.store_config in
          rw (there, read)
            (recovered-IsSound config k now loaded w
              (λ st same.
                load_persisted-IsValid json now.clock.unix_secs text config st (rw (sym h.1) same))
              h)
    ]
  ]
