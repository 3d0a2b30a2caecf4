-- ===== src/Routing/Store/Persist.antt =====
-- Saving and loading of domain_store.rs, and the host routes of a store. `serde_json` is a parameter:
-- what it reads and what it writes.
pub mod Reload
use route_guard.Prelude.{
  ℕ, zero, suc, ltb, nat_beq, not, ◌&&◌, if◌then◌else◌, Option, none, some, List, [], ◌∷◌, ◌++◌,
  map, keep,
}
use route_guard.Prelude.Text.{Text, bytes}
use route_guard.Prelude.Dict.{Dict, values}
use route_guard.Prelude.Result.{Result, ok, err, ◌>>=◌, ◌>>◌, fail_if}
use route_guard.Core.Net.{Platform, IpAddr, v4, v6}
use route_guard.Core.Config.{DomainRule, RouteTarget, bypass, tunnel, target_beq}
use route_guard.Routing.Store.{
  ResolvedIpEntry, DomainRouteStore, DomainRouteStoreConfig, new, set_rules, insert_entry,
}

pub record PersistedDomainCache : Type 0 where
  pub version : ℕ  -- u32
  pub generation : ℕ  -- u64
  pub entries : List ResolvedIpEntry

-- `serde_json::from_str` and `serde_json::to_string_pretty` at this type.
pub record Json : Type 0 where
  pub from_str : Text → Option PersistedDomainCache
  pub to_string_pretty : PersistedDomainCache → Option Text

pub data StoreError : Type 0 where
  parse_error serialize_error : StoreError
  unsupported_version : ℕ → StoreError

-- `DomainRouteStore::with_rules`
unfoldable pub with_rules : List DomainRule → DomainRouteStoreConfig → DomainRouteStore
with_rules rules config = set_rules rules (new config)

unfoldable pub to_persisted : DomainRouteStore → PersistedDomainCache
to_persisted st = record { version = 1; generation = st.generation; entries = values st.by_ip }

abbrev or_error {ℓ} : {A : Type ℓ} → StoreError → Option A → Result StoreError A
or_error e none = err e
or_error e (some a) = ok a

-- The loop of `load_persisted`.
unfoldable pub insert_live : ℕ → List ResolvedIpEntry → DomainRouteStore → DomainRouteStore
insert_live now [] st = st
insert_live now (e ∷ entries) st =
    insert_live now entries (if ltb now e.expires_at then insert_entry e st else st)

-- The store that the loop starts from.
abbrev pub empty_store : ℕ → DomainRouteStoreConfig → DomainRouteStore
empty_store generation config = record (new config) { generation = generation }

-- `load_persisted`
unfoldable pub load_persisted :
    Json → ℕ → Text → DomainRouteStoreConfig → Result StoreError DomainRouteStore
unfolding insert_live
load_persisted json now text config = do
  parsed ← or_error parse_error (json.from_str text)
  fail_if (not (nat_beq parsed.version 1)) (unsupported_version parsed.version)
  ok (insert_live now parsed.entries (empty_store parsed.generation config))

-- `persist_json`
unfoldable pub persist_json : Json → DomainRouteStore → Result StoreError Text
unfolding to_persisted
persist_json json st = or_error serialize_error (json.to_string_pretty (to_persisted st))

-- `ip_to_host_cidr`: the text of a network of one address.
abbrev pub ip_to_host_cidr : (IpAddr → Text) → IpAddr → Text
ip_to_host_cidr ip_text (v4 a) = ip_text (v4 a) ++ bytes "/32"
ip_to_host_cidr ip_text (v6 a) = ip_text (v6 a) ++ bytes "/128"

-- `host_cidrs_for_target`, where `ip_text` is `Display` of an address.
unfoldable pub host_cidrs_for_target :
    (IpAddr → Text) → ℕ → DomainRouteStore → RouteTarget → List Text
host_cidrs_for_target ip_text now st target =
    map (λ (e : ResolvedIpEntry). ip_to_host_cidr ip_text e.ip)
      (keep (λ (e : ResolvedIpEntry). target_beq e.target target && ltb now e.expires_at)
        (values st.by_ip))
