-- ===== src/Service/DomainRouting.antt =====
-- `crates/routeguard-service/src/domain_routing.rs`: resolved addresses on their way from the DNS
-- answers to the engine, to the host routes and to the cache file. The session's routes and the table
-- are part of the state here. What the calls of `std::fs` do is an argument, as is the moment of a
-- call: the clock, and whether `try_write` gets the engine's lock.
pub mod Agreement
pub mod Steps
pub mod Methods
pub mod Soundness
use route_guard.Prelude.{
  ℕ, Bool, true, false, ◌&&◌, ◌||◌, not, Option, none, some, List, [], ◌∷◌, ◌++◌, length, is_empty,
  all, map, nat_beq, if◌then◌else◌,
}
use route_guard.Prelude.Text.{Text}
use route_guard.Prelude.Dict
use route_guard.Prelude.Result.{Result, ok, err, and_then}
use route_guard.Core.Net.{Platform, IpAddr}
use route_guard.Core.Config.{DomainRule, RouteTarget, bypass, target_beq}
use route_guard.Core.Policy.{PolicySnapshot}
use route_guard.Routing.Domain.{DomainRuleEntry, Clock}
use route_guard.Routing.Engine.{RoutingEngine, RoutingSnapshot}
use route_guard.Routing.Store
use route_guard.Routing.Store.{ResolvedIpEntry, DomainRouteStore, DomainRouteStoreConfig}
use route_guard.Routing.Store.Apply.{apply_resolved, ApplyDiff}
use route_guard.Routing.Store.Persist
use route_guard.Routing.Store.Persist.{Json, StoreError, persist_json}
use route_guard.Routing.Store.Sync.{sync_domain_cache}
use route_guard.Platform.Routes.{System, Routes}
use route_guard.Platform.Routes.Session

-- The payloads that `EventStore::push` is called with.
pub data DomainEvent : Type 0 where
  route_added : IpAddr → Text → RouteTarget → ℕ → DomainEvent
  route_expired : IpAddr → Text → DomainEvent
  dns_resolved : Text → List IpAddr → ℕ → Text → RouteTarget → DomainEvent
  domain_recovered : ℕ → ℕ → DomainEvent

-- The cache file: does it exist, its text, and the calls that may fail.
pub record Files : Type 1 where
  pub Fs : Type 0
  pub exists_cache : Fs → Bool
  pub read_to_string : Fs → Option Text
  pub create_dir_all : Fs → Fs × Bool
  pub write : Text → Fs → Fs × Bool

pub record Moment : Type 0 where
  pub clock : Clock
  pub engine_free : Bool

pub data PersistError : Type 0 where
  io_error : PersistError
  store_error : StoreError → PersistError

-- `DomainRoutingManager`, with what its methods are called with.
pub record Manager (Net Os Fs : Type 0) : Type 0 where
  pub store : DomainRouteStore
  pub engine : RoutingEngine Net
  pub dns_redirect_active : Bool
  pub explicit_proxy : Bool
  pub store_config : DomainRouteStoreConfig
  pub events : List DomainEvent
  pub files : Fs
  pub routes : Routes Net Os

-- `RoutingEngine::sync_domain_store`
unfoldable pub sync_domain_store :
    {Net : Type 0} → Clock → DomainRouteStore → RoutingEngine Net → RoutingEngine Net
sync_domain_store now st engine = record engine {
  snapshot = record engine.snapshot {
    domain_cache = sync_domain_cache now st engine.snapshot.domain_cache;
  };
}

-- `unwrap_or(0)`
abbrev pub or_zero : Option ℕ → ℕ
or_zero none = 0
or_zero (some i) = i

-- `records.first().map(|(_, t)| *t).unwrap_or(300)`
abbrev pub ttl_of_first : List (IpAddr × ℕ) → ℕ
ttl_of_first [] = 300
ttl_of_first ((ip, ttl) ∷ records) = ttl

module _ (env : Platform) (sys : System env.IpNet) (fs : Files) (json : Json) where
  abbrev pub State : Type 0
  State = Manager env.IpNet sys.Os fs.Fs

  abbrev pub emit : DomainEvent → State → State
  emit e w = record w { events = w.events ++ e ∷ [] }

  abbrev pub emit_route_added : ResolvedIpEntry → State → State
  emit_route_added e w = emit (route_added e.ip e.domain e.target e.expires_at) w

  abbrev pub emit_route_expired : ResolvedIpEntry → State → State
  emit_route_expired e w = emit (route_expired e.ip e.domain) w

  -- `set_explicit_proxy`, `set_dns_redirect_active`
  abbrev pub set_explicit_proxy : Bool → State → State
  set_explicit_proxy enabled w = record w { explicit_proxy = enabled }

  abbrev pub set_dns_redirect_active : Bool → State → State
  set_dns_redirect_active active w = record w { dns_redirect_active = active }

  -- `only_bypass_targets`
  abbrev pub only_bypass_targets : DomainRouteStore → Bool
  only_bypass_targets st =
      not (is_empty st.rules) && all (λ (r : DomainRuleEntry). target_beq r.target bypass) st.rules

  -- `is_effective`
  unfoldable pub is_effective : Bool → Bool → Bool → State → Bool
  is_effective has_domain_rules dns_enabled tunnel_connected w =
      if not has_domain_rules || not dns_enabled
      then false
      else if not (w.dns_redirect_active || w.explicit_proxy)
      then false
      else tunnel_connected || only_bypass_targets w.store

  -- `sync_to_engine`, and `sync_engine`, which calls it with the manager's engine
  unfoldable pub sync_engine : Moment → State → State
  unfolding sync_domain_store
  sync_engine now w =
      if now.engine_free
      then record w { engine = sync_domain_store now.clock w.store w.engine }
      else w

  abbrev pub write_cache : Result StoreError Text → State → State × Result PersistError (Unit {0})
  write_cache (err e) w = (w, err (store_error e))
  write_cache (ok text) w =
      let (files, written) = fs.write text w.files in
      (record w { files = files }, if written then ok tt else err io_error)

  -- `persist`
  unfoldable pub persist : State → State × Result PersistError (Unit {0})
  persist w =
      let (files, made) = fs.create_dir_all w.files in
      if made
      then write_cache (persist_json json w.store) (record w { files = files })
      else (record w { files = files }, err io_error)

  abbrev pub recovered : Moment → Result StoreError DomainRouteStore → State → State
  recovered now (err e) w = w
  recovered now (ok loaded) w = sync_engine now (
      emit (domain_recovered (length loaded.by_ip) loaded.generation) (record w { store = loaded }))

  abbrev pub recover : Moment → Option Text → State → State
  recover now none w = w
  recover now (some text) w =
      recovered now (Persist.load_persisted json now.clock.unix_secs text w.store_config) w

  -- `load_persisted`
  unfoldable pub load_persisted : Moment → State → State
  unfolding sync_engine
  load_persisted now w =
      if fs.exists_cache w.files then recover now (fs.read_to_string w.files) w else w

  -- `DomainRoutingManager::new`
  unfoldable pub new :
      Moment
      → DomainRouteStoreConfig
      → RoutingEngine env.IpNet
      → fs.Fs
      → Routes env.IpNet sys.Os
      → State
  unfolding load_persisted
  new now config engine files routes = load_persisted now (record {
    store = Store.new config;
    engine = engine;
    dns_redirect_active = false;
    explicit_proxy = false;
    store_config = config;
    events = [];
    files = files;
    routes = routes;
  })

  abbrev pub emit_expired_all : List ResolvedIpEntry → State → State
  emit_expired_all [] w = w
  emit_expired_all (e ∷ entries) w = emit_expired_all entries (emit_route_expired e w)

  -- `rebuild_rules`
  unfoldable pub rebuild_rules : Moment → List DomainRule → State → State
  unfolding sync_engine
  rebuild_rules now rules w =
      let (st, pruned) = Store.prune_unmatched_rules (Store.set_rules rules w.store) in
      sync_engine now (emit_expired_all pruned (record w { store = st }))

  -- `let _ = sr.install_domain_route(...)` and `let _ = sr.remove_domain_route(...)`
  abbrev pub try_install : ℕ → ℕ → ResolvedIpEntry → State → State
  try_install tunnel_if physical_if e w = record w {
    routes =
        (Session.install_domain_route env sys e.ip e.target tunnel_if physical_if e.expires_at
          w.routes).0;
  }

  abbrev pub try_remove : ResolvedIpEntry → State → State
  try_remove e w = record w { routes = (Session.remove_domain_route env sys e.ip w.routes).0 }

  unfoldable pub install_added : ℕ → ℕ → List ResolvedIpEntry → State → State
  install_added tunnel_if physical_if [] w = w
  install_added tunnel_if physical_if (e ∷ entries) w =
      install_added tunnel_if physical_if entries
        (emit_route_added e (try_install tunnel_if physical_if e w))

  unfoldable pub remove_gone : List ResolvedIpEntry → State → State
  remove_gone [] w = w
  remove_gone (e ∷ entries) w = remove_gone entries (emit_route_expired e (try_remove e w))

  abbrev pub change_routes : ℕ → ℕ → ApplyDiff → State → State
  change_routes tunnel_if physical_if diff w =
      if not (nat_beq tunnel_if 0) || not (nat_beq physical_if 0)
      then remove_gone diff.removed (install_added tunnel_if physical_if diff.added w)
      else w

  abbrev pub emit_resolved : Text → List (IpAddr × ℕ) → DomainRuleEntry → ApplyDiff → State → State
  emit_resolved domain records rule diff w =
      if not (is_empty diff.added) || not (is_empty diff.refreshed)
      then emit
          (dns_resolved domain (map (λ (r : IpAddr × ℕ). r.0) records) (ttl_of_first records)
            rule.pattern rule.target)
          w
      else w

  unfoldable pub apply_answer :
      Moment → Text → List (IpAddr × ℕ) → PolicySnapshot → DomainRuleEntry → State → State
  unfolding sync_engine install_added remove_gone persist
  apply_answer now domain records policy rule w =
      let (st, diff) = apply_resolved now.clock.unix_secs domain records rule w.store in
      let w' : State = sync_engine now (record w { store = st }) in
      let w'' : State =
        change_routes (or_zero policy.tunnel_if_index) (or_zero policy.physical_if_index) diff w' in
      (persist (emit_resolved domain records rule diff w'')).0

  abbrev pub answer_with :
      Moment → Text → List (IpAddr × ℕ) → PolicySnapshot → Option DomainRuleEntry → State → State
  answer_with now domain records policy none w = w
  answer_with now domain records policy (some rule) w =
      apply_answer now domain records policy rule w

  -- `on_dns_response`
  unfoldable pub on_dns_response :
      Moment → Text → List (IpAddr × ℕ) → PolicySnapshot → State → State
  unfolding apply_answer
  on_dns_response now domain records policy w =
      if is_empty records
      then w
      else answer_with now domain records policy (Store.match_domain env w.store domain) w

  -- `purge_expired`
  unfoldable pub purge_expired : Moment → State → State
  unfolding sync_engine remove_gone persist
  purge_expired now w =
      let (st, expired) = Store.purge_expired now.clock.unix_secs w.store in
      if not (is_empty expired)
      then (persist (sync_engine now (remove_gone expired (record w { store = st })))).0
      else record w {
        store = st;
        routes = (Session.purge_expired_domain_routes env sys now.clock.unix_secs w.routes).0;
      }

  -- `clear`
  unfoldable pub clear : Moment → State → State
  unfolding sync_engine persist
  clear now w =
      (persist (
        sync_engine now (record w {
          store = Store.clear w.store;
          routes = (Session.clear_domain_routes env sys w.routes).0;
        }))).0

  abbrev pub install_entries : ℕ → ℕ → List ResolvedIpEntry → State → State
  install_entries tunnel_if physical_if [] w = w
  install_entries tunnel_if physical_if (e ∷ entries) w =
      install_entries tunnel_if physical_if entries (try_install tunnel_if physical_if e w)

  -- `reinstall_routes_from_cache`
  unfoldable pub reinstall_routes_from_cache : PolicySnapshot → State → State
  reinstall_routes_from_cache policy w =
      let tunnel_if = or_zero policy.tunnel_if_index in
      let physical_if = or_zero policy.physical_if_index in
      if nat_beq tunnel_if 0 && nat_beq physical_if 0
      then w
      else install_entries tunnel_if physical_if (Dict.values w.store.by_ip) w
