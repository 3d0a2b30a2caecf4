-- ===== src/Wfp/SplitTunnel/Refinement.antt =====
-- The filters of `crates/routeguard-wfp/src/split_tunnel.rs` in terms of what the platform holds.
use route_guard.Prelude.{
  nat_beq, contains, sym, Option-cases, ℕ, ◌≡◌, refl, true, Option, none, some, List, [], ◌∷◌,
  length, is_some, nat_eq, if◌then◌else◌, inl, inr, arith,
}
use route_guard.Prelude.Result.{Result, ok, err, is_ok}
use route_guard.Core.Policy.{PolicySnapshot}
use route_guard.Wfp.{Platform, Laws, WfpError}
use route_guard.Wfp.Filters
use route_guard.Wfp.Filters.{Session, Rule, Progress, plain_permit, plain_block}
use route_guard.Wfp.Filters.Installing.{IsInstalled, expected}
use route_guard.Wfp.Filters.Contents.{split_filters}
use route_guard.Wfp.SplitTunnel.Installing.{split_rules, mode_rules, when_tunnel, install_for-Adds}
use route_guard.Wfp.SplitTunnel.Contents.{split_rules-filters}
use route_guard.Wfp.SplitTunnel
use route_guard.Wfp.SplitTunnel.{split_name}

module _ (wfp : Platform) (laws : Laws wfp) where
  -- The outcome of a body that tracks what it collected.
  abbrev IsDone : wfp.Engine → List (Rule wfp) → Session wfp × Result WfpError (List ℕ) → Type 0
  IsDone e rules (s, r) =
      (ids : List ℕ) × (r ≡ ok ids)
      × IsInstalled wfp laws e (record { session = s; ids = ids }) rules

  tracked-IsDone :
      (e : wfp.Engine) (rules : List (Rule wfp)) (r : Progress wfp × Result WfpError (Unit {0}))
      → (is_ok r.1 ≡ true → IsInstalled wfp laws e r.0 rules)
      → is_ok (SplitTunnel.tracked wfp (Filters.collected wfp r)).1 ≡ true
      → IsDone e rules (SplitTunnel.tracked wfp (Filters.collected wfp r))
  tracked-IsDone e rules (p, ok u) f h = (p.ids, refl, f refl)
  tracked-IsDone e rules (p, err x) f h = absurd (ground arith)

  install_when-IsDone :
      (tunnel_if : Option ℕ) (policy : PolicySnapshot) (s : Session wfp)
      → is_ok (SplitTunnel.install_when wfp tunnel_if policy s).1 ≡ true
      → IsDone s.engine
          (when_tunnel wfp laws tunnel_if policy)
          (SplitTunnel.install_when wfp tunnel_if policy s)
  install_when-IsDone none policy s h =
      ([], refl, ((λ id. refl), refl, λ id c. absurd (ground arith)))
  install_when-IsDone (some tunnel_if) policy s h =
      let start : Progress wfp = record { session = s; ids = [] } in
      tracked-IsDone s.engine (mode_rules wfp laws policy.routing_mode policy)
        (SplitTunnel.install_for wfp policy.routing_mode policy start)
        (λ done.
          install_for-Adds wfp laws policy.routing_mode policy s.engine start []
            ((λ id. refl), refl, λ id c. absurd (ground arith)) done)
        h

  -- The platform deletes a filter that it holds.
  abbrev pub DeletesHeld : Type 0
  DeletesHeld =
      (gone : ℕ) (e : wfp.Engine)
      → is_some (laws.filters e gone) ≡ true
      → (wfp.delete_filter gone e).1 ≡ true

  delete_filter-gone :
      (deletes : DeletesHeld) (gone : ℕ) (e : wfp.Engine) (id : ℕ)
      → laws.filters (wfp.delete_filter gone e).0 id
        ≡ (if nat_beq gone id then none else laws.filters e id)
  delete_filter-gone deletes gone e id = elim (Option-cases (laws.filters e gone)) [
    | inl free ↦ ground (arith, free, laws.filters-delete_filter gone e id)
    | inr (rule, held) ↦
        let done : (wfp.delete_filter gone e).1 ≡ true = deletes gone e (ground (arith, held)) in
        ground (arith, done, laws.filters-delete_filter gone e id)
  ]

  remove_split_filters-view :
      (deletes : DeletesHeld) (ids : List ℕ) (e : wfp.Engine) (id : ℕ)
      → laws.filters (SplitTunnel.forget_filters wfp ids e) id
        ≡ (if contains ids id then none else laws.filters e id)
  remove_split_filters-view deletes [] e id = refl
  remove_split_filters-view deletes (i ∷ ids) e id = ground (
    arith,
    delete_filter-gone deletes i e id,
    remove_split_filters-view deletes ids (wfp.delete_filter i e).0 id,
  )

  -- When the platform deletes what it holds, `apply_split_tunnel` without an error leaves it with what
  -- it held before but for the previous filters, and beside it exactly the filters of the policy,
  -- under the identifiers that it returns: none without a tunnel; for split_include a permit and a
  -- block for the path of each application; for full_tunnel these for the applications that go past
  -- the tunnel, with a permit of everything if there are any, and a block for each blocked network.
  -- None of them is restricted to an interface.
  pub apply_split_tunnel-installs :
      (deletes : DeletesHeld) (policy : PolicySnapshot) (previous : List ℕ) (s : Session wfp)
      (id : ℕ)
      → is_ok (SplitTunnel.apply_split_tunnel wfp policy previous s).1 ≡ true
      → (ids : List ℕ) × ((SplitTunnel.apply_split_tunnel wfp policy previous s).1 ≡ ok ids)
        × (length ids ≡ length (split_filters wfp policy))
        × (laws.filters (SplitTunnel.apply_split_tunnel wfp policy previous s).0.engine id
            ≡ expected ids
                (split_filters wfp policy)
                id
                (if contains previous id then none else laws.filters s.engine id))
  unfolding SplitTunnel.apply_split_tunnel SplitTunnel.remove_split_filters split_rules
  apply_split_tunnel-installs deletes policy previous s id h =
      let (ids, same, (view, size, unused)) =
        install_when-IsDone policy.tunnel_if_index policy
          (SplitTunnel.remove_split_filters wfp previous s) h in
      let removed = remove_split_filters-view deletes previous s.engine id in
      rw (sym (split_rules-filters wfp laws policy), sym removed) (ids, same, size, view id)
