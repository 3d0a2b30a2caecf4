-- ===== src/Routing/Store/Persist/Reload.antt =====
-- What a store holds after it was saved and loaded.
use route_guard.Prelude.{
  ℕ, ◌≡◌, ◌≤◌, refl, ◌∙◌, ltb, if◌then◌else◌, Option, none, some, List, [], ◌∷◌, arith, length,
  Bool-cases, Option-cases, inl, inr, list_eq, nat_eq,
}
use route_guard.Prelude.Text.{Text}
use route_guard.Prelude.Dict
use route_guard.Prelude.Dict.{
  Dict, values, IsDistinct, lookup-insert, length-insert, length-remove, length-insert-known,
}
use route_guard.Prelude.Result.{ok}
use route_guard.Core.Net.{IpAddr, ip_eq, ip_beq_iff}
use route_guard.Routing.Store.{
  ResolvedIpEntry, DomainRouteStore, DomainRouteStoreConfig, new, insert_entry, place_entry,
  entry_for_ip,
}
use route_guard.Routing.Store.Caps.{length-insert_entry}
use route_guard.Routing.Store.Consistency.{
  IsConsistent, new-IsConsistent, insert_entry-IsConsistent,
}
use route_guard.Routing.Store.Distinct.{insert_entry-IsDistinct}
use route_guard.Routing.Store.History.{IsValid}
use route_guard.Routing.Store.Sync.Lookup.{IsKeyed}
use route_guard.Routing.Store.Room.{HasRoom, place_entry-HasRoom, insert_entry-room}
use route_guard.Routing.Store.Persist.{
  Json, to_persisted, insert_live, empty_store, load_persisted, persist_json,
}

insert_entry-IsValid :
    (config : DomainRouteStoreConfig) (e : ResolvedIpEntry) (st : DomainRouteStore)
    → IsValid config st
    → IsValid config (insert_entry e st)
insert_entry-IsValid config e st v =
    let (bound, same) = length-insert_entry e st in
    record {
      consistent = insert_entry-IsConsistent e st v.consistent;
      capped = ground (arith, bound, v.configured);
      configured = same ∙ v.configured;
      distinct = insert_entry-IsDistinct e st v.distinct;
    }

insert_live-IsValid :
    (config : DomainRouteStoreConfig) (now : ℕ) (entries : List ResolvedIpEntry)
    (st : DomainRouteStore)
    → IsValid config st
    → IsValid config (insert_live now entries st)
unfolding insert_live
insert_live-IsValid config now [] st v = v
insert_live-IsValid config now (e ∷ entries) st v = elim (Bool-cases (ltb now e.expires_at)) [
  | inl live ↦ rw live (
      insert_live-IsValid config now entries (insert_entry e st)
        (insert_entry-IsValid config e st v))
  | inr dead ↦ rw dead (insert_live-IsValid config now entries st v)
]

empty_store-IsValid :
    (generation : ℕ) (config : DomainRouteStoreConfig)
    → IsValid config (empty_store generation config)
empty_store-IsValid generation config =
    let start : IsConsistent (new config) = new-IsConsistent config in
    record {
      consistent = record { keyed = start.keyed; agree = start.agree };
      capped = omega arith;
      configured = refl;
      distinct = tt;
    }

-- Whatever the file holds, a store that `load_persisted` returns has two indexes that agree, no more
-- addresses than its configuration allows, none of them twice, and the configuration that was given.
pub load_persisted-IsValid :
    (json : Json) (now : ℕ) (text : Text) (config : DomainRouteStoreConfig) (st : DomainRouteStore)
    → load_persisted json now text config ≡ ok st
    → IsValid config st
unfolding load_persisted
load_persisted-IsValid json now text config st h = elim (Option-cases (json.from_str text)) [
  | inl bad ↦ absurd (ground (arith, bad))
  | inr (p, parsed) ↦
      let whole : st ≡ insert_live now p.entries (empty_store p.generation config) =
        ground (arith, parsed) in
      rw whole (
        insert_live-IsValid config now p.entries (empty_store p.generation config)
          (empty_store-IsValid p.generation config))
]

lookup-place_entry :
    (e : ResolvedIpEntry) (st : DomainRouteStore) (j : IpAddr)
    → Dict.lookup j (place_entry e st).by_ip
      ≡ (if ip_eq.beq e.ip j then some e else Dict.lookup j st.by_ip)
unfolding place_entry
lookup-place_entry e st j = lookup-insert e.ip j e st.by_ip

-- The entry where it is live, else what there was.
abbrev live_or : ℕ → Option ResolvedIpEntry → Option ResolvedIpEntry → Option ResolvedIpEntry
live_or now none old = old
live_or now (some e) old = if ltb now e.expires_at then some e else old

lookup-insert_live :
    (now : ℕ) (m : Dict IpAddr ResolvedIpEntry) (st : DomainRouteStore) (j : IpAddr)
    → IsDistinct m
    → IsKeyed m
    → HasRoom (length m) st
    → Dict.lookup j (insert_live now (values m) st).by_ip
      ≡ live_or now (Dict.lookup j m) (Dict.lookup j st.by_ip)
unfolding insert_live Dict.lookup
lookup-insert_live now [] st j d k h = refl
lookup-insert_live now ((ip, e) ∷ m) st j d k h = elim (Bool-cases (ltb now e.expires_at)) [
  | inl live ↦
      let same : insert_entry e st ≡ place_entry e st = insert_entry-room e st (ground arith) in
      let room : HasRoom (length m) (place_entry e st) = place_entry-HasRoom (length m) e st h in
      ground (
        arith,
        live,
        same,
        lookup-insert_live now m (place_entry e st) j d.1 k.1 room,
        lookup-place_entry e st j,
        ip_beq_iff ip j,
        d.0,
        k.0,
      )
  | inr dead ↦
      ground
        (arith, dead, lookup-insert_live now m st j d.1 k.1 (ground arith), ip_beq_iff ip j, d.0)
]

-- A store that was saved, and whose text `serde_json` reads back as what it wrote, is loaded without
-- an error, and a look-up in the loaded table finds what `entry_for_ip` shows of the saved store at
-- the time of the loading: where no address of it occurs twice, every entry stands under its own
-- address, and the caps of the new configuration are not below the number of entries.
pub lookup-load_persisted :
    (json : Json) (now : ℕ) (text : Text) (config : DomainRouteStoreConfig) (st : DomainRouteStore)
    (ip : IpAddr)
    → persist_json json st ≡ ok text
    → json.from_str text ≡ some (to_persisted st)
    → IsDistinct st.by_ip
    → IsKeyed st.by_ip
    → length st.by_ip ≤ config.max_resolved_ips
    → length st.by_ip ≤ config.max_domains
    → (loaded : DomainRouteStore) × (load_persisted json now text config ≡ ok loaded)
      × (Dict.lookup ip loaded.by_ip ≡ entry_for_ip now st ip)
unfolding load_persisted persist_json to_persisted entry_for_ip Dict.lookup
lookup-load_persisted json now text config st ip written read d k room rooms = (
  insert_live now (values st.by_ip) (empty_store st.generation config),
  rw read refl,
  ground (
    arith,
    lookup-insert_live now st.by_ip (empty_store st.generation config) ip d k
        (omega arith, omega arith),
  ),
)
