-- ===== src/Wfp/NetworkLock/Refinement.antt =====
-- The kill switch of `crates/routeguard-wfp/src/network_lock.rs` in terms of what the platform holds.
use route_guard.Prelude.{
  sym, ℕ, ◌≡◌, refl, ◌∙◌, true, false, none, List, [], ◌∷◌, length, contains, nat_eq, if◌then◌else◌,
  if-false, arith,
}
use route_guard.Prelude.Result.{Result, ok, err, and_then, and_then-eq, is_ok}
use route_guard.Wfp.{Platform, Laws, WfpError}
use route_guard.Wfp.Filters
use route_guard.Wfp.Filters.{Session, Progress, NetworkLockPolicy}
use route_guard.Wfp.Filters.Installing.{
  IsInstalled, expected, expected-outside, lock_rules, lock_part-Adds,
}
use route_guard.Wfp.Filters.Contents.{lock_filters}
use route_guard.Wfp.NetworkLock.Contents.{lock_rules-filters}
use route_guard.Wfp.NetworkLock
use route_guard.Wfp.NetworkLock.{StateFile, State, default_state}

module _ (wfp : Platform) (laws : Laws wfp) where
  collected-eq :
      (r : Progress wfp × Result WfpError (Unit {0}))
      → is_ok (Filters.collected wfp r).1 ≡ true
      → (is_ok r.1 ≡ true)
        × ((Filters.collected wfp r).1 ≡ ok r.0.ids)
        × ((Filters.collected wfp r).0 ≡ r.0.session)
  collected-eq (p, ok u) h = (refl, refl, refl)
  collected-eq (p, err e) h = absurd (ground arith)

  -- What an outcome of `install_network_lock` has brought in since `e`.
  abbrev IsOutcome : wfp.Engine → NetworkLockPolicy → Session wfp → List ℕ → Type 0
  IsOutcome e policy s ids =
      IsInstalled wfp laws e (record { session = s; ids = ids }) (lock_rules wfp laws policy)

  install_network_lock-eq :
      (policy : NetworkLockPolicy) (s : Session wfp)
      → is_ok (Filters.install_network_lock wfp policy s).1 ≡ true
      → (ids : List ℕ) × ((Filters.install_network_lock wfp policy s).1 ≡ ok ids)
        × IsOutcome s.engine policy (Filters.install_network_lock wfp policy s).0 ids
  unfolding Filters.install_network_lock
  install_network_lock-eq policy s h =
      let start : Progress wfp = record { session = s; ids = [] } in
      let r = Filters.lock_part wfp policy start in
      let (done, ids_same, session_same) = collected-eq r h in
      (
        r.0.ids,
        ids_same,
        rw session_same (
            lock_part-Adds wfp laws policy s.engine start []
              ((λ id. refl), refl, λ id h. absurd (ground arith)) done),
      )

  delete_filters-view :
      (disk : StateFile) (ids : List ℕ) (s : Session wfp) (id : ℕ)
      → is_ok (NetworkLock.delete_filters wfp disk ids s).1 ≡ true
      → laws.filters (NetworkLock.delete_filters wfp disk ids s).0.engine id
        ≡ (if contains ids id then none else laws.filters s.engine id)
  unfolding NetworkLock.delete_filters
  delete_filters-view disk [] s id h = refl
  delete_filters-view disk (i ∷ ids) s id h = ground (
    arith,
    h,
    laws.filters-delete_filter i s.engine id,
    delete_filters-view disk ids
        (NetworkLock.delete_one wfp disk (wfp.delete_filter i s.engine) s).0 id,
  )

  remove_filters-view :
      (disk : StateFile) (ids : List ℕ) (s : Session wfp) (id : ℕ)
      → is_ok (NetworkLock.remove_filters wfp disk ids s).1 ≡ true
      → laws.filters (NetworkLock.remove_filters wfp disk ids s).0.engine id
        ≡ (if contains ids id then none else laws.filters s.engine id)
  unfolding NetworkLock.remove_filters
  remove_filters-view disk ids s id h = ground (arith, h, delete_filters-view disk ids s id)

  save_state-same :
      (disk : StateFile) (w : State wfp disk)
      → ((NetworkLock.save_state wfp disk w).0.session ≡ w.session)
        × ((NetworkLock.save_state wfp disk w).0.state ≡ w.state)
  unfolding NetworkLock.save_state
  save_state-same disk w = ground arith

  -- A lock that has come in since `e`, with what the state says of it.
  abbrev IsLocked : (disk : StateFile) → wfp.Engine → NetworkLockPolicy → State wfp disk → Type 0
  IsLocked disk e policy w =
      (w.state.enabled ≡ true) × IsOutcome e policy w.session w.state.active_filter_ids

  enable-IsLocked :
      (disk : StateFile) (policy : NetworkLockPolicy) (w : State wfp disk)
      → w.state.enabled ≡ false
      → is_ok (NetworkLock.enable wfp disk policy w).1 ≡ true
      → IsLocked disk w.session.engine policy (NetworkLock.enable wfp disk policy w).0
  unfolding NetworkLock.enable
  enable-IsLocked disk policy w off h =
      let step = NetworkLock.on_session wfp disk (Filters.install_network_lock wfp policy) w in
      let save = λ (v : State wfp disk) (ids : List ℕ).
        NetworkLock.save_state wfp disk (NetworkLock.locked wfp disk ids v) in
      let both : is_ok (and_then step save).1 ≡ true = ground (arith, off, h) in
      let (ids, installed, rest) = and_then-eq step save both in
      let (ids', installed', outcome) =
        install_network_lock-eq policy w.session (ground (arith, installed)) in
      let same : ids' ≡ ids = ground (arith, installed, installed') in
      let (session, state) = save_state-same disk (NetworkLock.locked wfp disk ids step.0) in
      rw (if-false w.state.enabled (w, ok tt) (and_then step save) off ∙ rest, session, state)
        (refl, rw same at outcome)

  -- When the lock is off, `enable` without an error turns it on: then the platform holds, beside what
  -- it held before, exactly these filters under the identifiers in the state, in this order: a block
  -- of everything, and permits for the loopback networks, for the local networks if they are allowed,
  -- for UDP to each DNS server and to the endpoint, and for each transport. None of them is for the
  -- interface of the tunnel.
  pub enable-installs :
      (disk : StateFile) (policy : NetworkLockPolicy) (w : State wfp disk) (id : ℕ)
      → w.state.enabled ≡ false
      → is_ok (NetworkLock.enable wfp disk policy w).1 ≡ true
      → ((NetworkLock.enable wfp disk policy w).0.state.enabled ≡ true)
        × (length (NetworkLock.enable wfp disk policy w).0.state.active_filter_ids
            ≡ length (lock_filters wfp policy))
        × (laws.filters (NetworkLock.enable wfp disk policy w).0.session.engine id
            ≡ expected
                (NetworkLock.enable wfp disk policy w).0.state.active_filter_ids
                (lock_filters wfp policy)
                id
                (laws.filters w.session.engine id))
  enable-installs disk policy w id off h =
      let (on, (view, same, unused)) = enable-IsLocked disk policy w off h in
      rw (sym (lock_rules-filters wfp laws policy)) (on, same, view id)

  -- When the lock is off: after `enable` and `disable`, both without an error, the platform holds
  -- what it held before, and the state is the one of a lock that was never on.
  pub disable-enable :
      (disk : StateFile) (policy : NetworkLockPolicy) (w : State wfp disk) (id : ℕ)
      → w.state.enabled ≡ false
      → is_ok (NetworkLock.enable wfp disk policy w).1 ≡ true
      → is_ok (NetworkLock.disable wfp disk (NetworkLock.enable wfp disk policy w).0).1 ≡ true
      → (laws.filters
            (NetworkLock.disable wfp disk (NetworkLock.enable wfp disk policy w).0).0.session.engine
            id
          ≡ laws.filters w.session.engine id)
        × ((NetworkLock.disable wfp disk (NetworkLock.enable wfp disk policy w).0).0.state
            ≡ default_state)
  unfolding NetworkLock.disable
  disable-enable disk policy w id off h g =
      let (on, (view, same, unused)) = enable-IsLocked disk policy w off h in
      let v = (NetworkLock.enable wfp disk policy w).0 in
      let ids : List ℕ = v.state.active_filter_ids in
      let step = NetworkLock.on_session wfp disk (NetworkLock.remove_filters wfp disk ids) v in
      let save = λ (v : State wfp disk) (u : Unit {0}).
        NetworkLock.save_state wfp disk (NetworkLock.unlocked wfp disk v) in
      let both : is_ok (and_then step save).1 ≡ true = ground (arith, on, g) in
      let (u, removed, rest) = and_then-eq step save both in
      let (session, state) = save_state-same disk (NetworkLock.unlocked wfp disk step.0) in
      let gone = remove_filters-view disk ids v.session id (ground (arith, removed)) in
      rw (on, rest, session, state)
        (
          ground (
            arith,
            gone,
            view id,
            unused id,
            expected-outside ids (lock_rules wfp laws policy) id (laws.filters w.session.engine id),
          ),
          refl,
        )
