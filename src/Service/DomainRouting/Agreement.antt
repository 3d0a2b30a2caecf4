-- ===== src/Service/DomainRouting/Agreement.antt =====
-- The engine's cache after the methods of `crates/routeguard-service/src/domain_routing.rs`.
use route_guard.Prelude.{ℕ, ◌≡◌, refl, ◌∙◌, true, false, some, List, [], ◌∷◌, is_empty, arith}
use route_guard.Prelude.Text.{Text}
use route_guard.Prelude.Dict
use route_guard.Prelude.Dict.{Dict, IsDistinct}
use route_guard.Core.Net.{Platform, IpAddr, ip_eq, ip_beq_iff}
use route_guard.Core.Policy.{PolicySnapshot}
use route_guard.Routing.Domain
use route_guard.Routing.Domain.{DomainRuleEntry}
use route_guard.Routing.Store
use route_guard.Routing.Store.{ResolvedIpEntry, DomainRouteStore, DomainRouteStoreConfig}
use route_guard.Routing.Store.Apply.{apply_resolved, ApplyDiff}
use route_guard.Routing.Store.History.{call, IsValid, call-IsValid, apply_call}
use route_guard.Routing.Store.Persist.{Json}
use route_guard.Routing.Store.Sync.Lookup.{IsKeyed, lookup_ip-sync_domain_cache}
use route_guard.Platform.Routes.{System}
use route_guard.Service.DomainRouting
use route_guard.Service.DomainRouting.{Files, Moment, State, sync_domain_store}

-- In a table without doubles, what look-ups tell of the entries holds of all of them.
All-lookup :
    (m : Dict IpAddr ResolvedIpEntry)
    → IsDistinct m
    → ((ip : IpAddr) (e : ResolvedIpEntry) → Dict.lookup ip m ≡ some e → e.ip ≡ ip)
    → IsKeyed m
unfolding Dict.lookup
All-lookup [] d h = tt
All-lookup ((ip, e) ∷ m) d h = (
  h ip e (ground (arith, ip_beq_iff ip ip)),
  All-lookup m d.1 (λ j f g. h j f (ground (arith, g, d.0, ip_beq_iff ip j))),
)

module _ (env : Platform) (sys : System env.IpNet) (fs : Files) (json : Json) where
  -- At the moment of the call the engine answers for every address as the store does.
  abbrev pub Agrees : Moment → State env sys fs json → Type 0
  Agrees now w =
      (ip : IpAddr)
      → Domain.lookup_ip now.clock.instant w.engine.snapshot.domain_cache ip
        ≡ Store.lookup_ip now.clock.unix_secs w.store ip

  sync_engine-Agrees :
      (now : Moment) (config : DomainRouteStoreConfig) (w : State env sys fs json)
      → now.engine_free ≡ true
      → IsValid config w.store
      → Agrees now (DomainRouting.sync_engine env sys fs json now w)
  unfolding DomainRouting.sync_engine sync_domain_store
  sync_engine-Agrees now config w free v ip = rw free (
      lookup_ip-sync_domain_cache now.clock w.store w.engine.snapshot.domain_cache ip v.distinct
        (All-lookup w.store.by_ip v.distinct v.consistent.keyed))

  -- Two states of the manager with the same store and engine.
  abbrev Same : State env sys fs json → State env sys fs json → Type 0
  Same v w = (v.store ≡ w.store) × (v.engine ≡ w.engine)

  Agrees-Same :
      (now : Moment) (v w : State env sys fs json) → Same v w → Agrees now w → Agrees now v
  Agrees-Same now v w (store, engine) h ip = ground (arith, store, engine, h ip)

  pub install_added-Same :
      (t p : ℕ) (entries : List ResolvedIpEntry) (w : State env sys fs json)
      → Same (DomainRouting.install_added env sys fs json t p entries w) w
  unfolding DomainRouting.install_added
  install_added-Same t p [] w = (refl, refl)
  install_added-Same t p (e ∷ entries) w = install_added-Same t p entries (
      DomainRouting.emit_route_added env sys fs json e
        (DomainRouting.try_install env sys fs json t p e w))

  pub remove_gone-Same :
      (entries : List ResolvedIpEntry) (w : State env sys fs json)
      → Same (DomainRouting.remove_gone env sys fs json entries w) w
  unfolding DomainRouting.remove_gone
  remove_gone-Same [] w = (refl, refl)
  remove_gone-Same (e ∷ entries) w = remove_gone-Same entries (
      DomainRouting.emit_route_expired env sys fs json e
        (DomainRouting.try_remove env sys fs json e w))

  pub persist-Same :
      (w : State env sys fs json) → Same (DomainRouting.persist env sys fs json w).0 w
  unfolding DomainRouting.persist
  persist-Same w = ground arith

  change_routes-Same :
      (t p : ℕ) (diff : ApplyDiff) (w : State env sys fs json)
      → Same (DomainRouting.change_routes env sys fs json t p diff w) w
  change_routes-Same t p diff w =
      let v = DomainRouting.install_added env sys fs json t p diff.added w in
      ground (arith, install_added-Same t p diff.added w, remove_gone-Same diff.removed v)

  apply_answer-Agrees :
      (now : Moment) (config : DomainRouteStoreConfig) (domain : Text) (records : List (IpAddr × ℕ))
      (policy : PolicySnapshot) (rule : DomainRuleEntry) (w : State env sys fs json)
      → now.engine_free ≡ true
      → IsValid config w.store
      → Agrees now (DomainRouting.apply_answer env sys fs json now domain records policy rule w)
  unfolding DomainRouting.apply_answer call
  apply_answer-Agrees now config domain records policy rule w free v =
      let (st, diff) = apply_resolved now.clock.unix_secs domain records rule w.store in
      let synced = DomainRouting.sync_engine env sys fs json now (record w { store = st }) in
      let t : ℕ = DomainRouting.or_zero policy.tunnel_if_index in
      let p : ℕ = DomainRouting.or_zero policy.physical_if_index in
      let routed = DomainRouting.change_routes env sys fs json t p diff synced in
      let told = DomainRouting.emit_resolved env sys fs json domain records rule diff routed in
      let saved = persist-Same told in
      let changed = change_routes-Same t p diff synced in
      let told_same : Same told routed = ground arith in
      Agrees-Same now (DomainRouting.persist env sys fs json told).0 synced
        (saved.0 ∙ told_same.0 ∙ changed.0, saved.1 ∙ told_same.1 ∙ changed.1)
        (sync_engine-Agrees now config (record w { store = st }) free
          (call-IsValid config (apply_call now.clock.unix_secs domain records rule) w.store v))

  -- In a valid store, when the engine's lock is free: after `on_dns_response` with records for a name
  -- that a rule of the store matches, the engine answers for every address as the store does, at the
  -- moment of the call.
  pub on_dns_response-agrees :
      (now : Moment) (config : DomainRouteStoreConfig) (domain : Text) (records : List (IpAddr × ℕ))
      (policy : PolicySnapshot) (rule : DomainRuleEntry) (w : State env sys fs json) (ip : IpAddr)
      → now.engine_free ≡ true
      → IsValid config w.store
      → is_empty records ≡ false
      → Store.match_domain env w.store domain ≡ some rule
      → Domain.lookup_ip now.clock.instant
          (DomainRouting.on_dns_response env sys fs json now domain records policy
            w).engine.snapshot.domain_cache
          ip
        ≡ Store.lookup_ip now.clock.unix_secs
            (DomainRouting.on_dns_response env sys fs json now domain records policy w).store
            ip
  unfolding DomainRouting.on_dns_response
  on_dns_response-agrees now config domain records policy rule w ip free v some_records matched =
      rw (some_records, matched)
        (apply_answer-Agrees now config domain records policy rule w free v ip)
