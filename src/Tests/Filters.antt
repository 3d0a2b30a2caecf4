-- ===== src/Tests/Filters.antt =====
-- A platform whose identifiers are the places of a list.
use route_guard.Prelude.{
  ℕ, zero, suc, ◌+◌, ◌≡◌, refl, true, false, Option, none, some, List, [], ◌∷◌, ◌++◌, length,
  nat_beq, if◌then◌else◌, arith,
}
use route_guard.Prelude.Text.{bytes}
use route_guard.Prelude.Result.{ok, is_ok}
use route_guard.Core.Net.{IpAddr, v4, SocketAddr}
use route_guard.Core.Config.{exclude}
use route_guard.Core.Policy.{PolicySnapshot, default_policy}
use route_guard.Wfp.{is_free, FilterRule, Platform, Laws}
use route_guard.Wfp.Filters
use route_guard.Wfp.Filters.{NetworkLockPolicy}
use route_guard.Wfp.Filters.Installing.{expected}
use route_guard.Wfp.Filters.Contents.{lock_filters, split_filters}
use route_guard.Wfp.NetworkLock.{StateFile, State, default_state, enable, disable}
use route_guard.Wfp.NetworkLock.Refinement.{enable-installs, disable-enable}
use route_guard.Wfp.SplitTunnel.{apply_split_tunnel}
use route_guard.Wfp.SplitTunnel.Refinement.{apply_split_tunnel-installs}

abbrev Slots : Type 0
Slots = List (Option (FilterRule IpAddr))

abbrev at_slot : Slots → ℕ → Option (FilterRule IpAddr)
at_slot [] id = none
at_slot (r ∷ slots) zero = r
at_slot (r ∷ slots) (suc id) = at_slot slots id

abbrev free_slot : ℕ → Slots → Slots
free_slot id [] = []
free_slot zero (r ∷ slots) = none ∷ slots
free_slot (suc id) (r ∷ slots) = r ∷ free_slot id slots

abbrev test_wfp : Platform
test_wfp = record {
  Engine = Slots;
  IpAddrMask = IpAddr;
  from_cidr = λ s. some (v4 (length s));
  new_mask = λ ip bits. ip;
  parse_ip = λ s. none;
  add_filter = λ rule slots. (slots ++ some rule ∷ [], some (length slots));
  delete_filter = λ id slots. (free_slot id slots, true);
}

at_slot-append :
    (slots : Slots) (rule : FilterRule IpAddr) (id : ℕ)
    → at_slot (slots ++ some rule ∷ []) id
      ≡ (if nat_beq (length slots) id then some rule else at_slot slots id)
at_slot-append [] rule zero = refl
at_slot-append [] rule (suc id) = ground arith
at_slot-append (r ∷ slots) rule zero = ground arith
at_slot-append (r ∷ slots) rule (suc id) = ground (arith, at_slot-append slots rule id)

at_slot-length : (slots : Slots) → at_slot slots (length slots) ≡ none
at_slot-length [] = refl
at_slot-length (r ∷ slots) = at_slot-length slots

at_slot-free_slot :
    (gone : ℕ) (slots : Slots) (id : ℕ)
    → at_slot (free_slot gone slots) id ≡ (if nat_beq gone id then none else at_slot slots id)
at_slot-free_slot gone [] id = ground arith
at_slot-free_slot zero (r ∷ slots) zero = ground arith
at_slot-free_slot zero (r ∷ slots) (suc id) = ground arith
at_slot-free_slot (suc gone) (r ∷ slots) zero = ground arith
at_slot-free_slot (suc gone) (r ∷ slots) (suc id) = ground (arith, at_slot-free_slot gone slots id)

free_slot-length :
    (rule : FilterRule IpAddr) (slots : Slots)
    → is_free (at_slot slots) (test_wfp.add_filter rule slots).1 ≡ true
free_slot-length rule slots = ground (arith, at_slot-length slots)

abbrev test_laws : Laws test_wfp
test_laws = record {
  filters = at_slot;
  filters-add_filter = λ rule e id. at_slot-append e rule id;
  add_filter-free = free_slot-length;
  filters-delete_filter = at_slot-free_slot;
}

abbrev test_disk : StateFile
test_disk = record {
  Fs = ℕ;
  create_dir_all = λ files. (files, true);
  write = λ text files. (files + 1, true);
  exists = λ files. false;
  read_to_string = λ files. none;
  to_json = λ state. some [];
  from_json = λ text. none;
}

abbrev server : SocketAddr
server = record { ip = v4 9; port = 53 }

abbrev lock_policy : NetworkLockPolicy
lock_policy = record {
  enabled = true;
  allow_lan = false;
  dns_servers = server ∷ [];
  tunnel_if_index = none;
  endpoint = some server;
  transport_permits = [];
}

-- The lock is off, and another program has a filter.
abbrev idle_lock : State test_wfp test_disk
idle_lock = record {
  session = record {
    engine = some (Filters.plain_permit (bytes "other")) ∷ [];
    active_filters = [];
  };
  state = default_state;
  files = 0;
}

enabled : is_ok (enable test_wfp test_disk lock_policy idle_lock).1 ≡ true
unfolding enable Filters.install_network_lock
enabled = refl

disabled :
    is_ok (disable test_wfp test_disk (enable test_wfp test_disk lock_policy idle_lock).0).1 ≡ true
unfolding disable enable Filters.install_network_lock
disabled = refl

enable-installs_example :
    ((enable test_wfp test_disk lock_policy idle_lock).0.state.enabled ≡ true)
    × (length (enable test_wfp test_disk lock_policy idle_lock).0.state.active_filter_ids
        ≡ length (lock_filters test_wfp lock_policy))
    × (at_slot (enable test_wfp test_disk lock_policy idle_lock).0.session.engine 2
        ≡ expected
            (enable test_wfp test_disk lock_policy idle_lock).0.state.active_filter_ids
            (lock_filters test_wfp lock_policy)
            2
            (at_slot idle_lock.session.engine 2))
enable-installs_example =
    enable-installs test_wfp test_laws test_disk lock_policy idle_lock 2 refl enabled

disable-enable_example :
    (at_slot
        (disable test_wfp test_disk
          (enable test_wfp test_disk lock_policy idle_lock).0).0.session.engine
        0
      ≡ some (Filters.plain_permit (bytes "other")))
    × ((disable test_wfp test_disk (enable test_wfp test_disk lock_policy idle_lock).0).0.state
        ≡ default_state)
disable-enable_example =
    disable-enable test_wfp test_laws test_disk lock_policy idle_lock 0 refl enabled disabled

-- A game goes past the tunnel; the previous filter is replaced.
abbrev split_policy : PolicySnapshot
split_policy = record default_policy {
  tunnel_if_index = some 4;
  bypass_apps = record { path = bytes "game.exe"; priority = 1; mode = exclude } ∷ [];
}

split_done : is_ok (apply_split_tunnel test_wfp split_policy (0 ∷ []) idle_lock.session).1 ≡ true
unfolding apply_split_tunnel
split_done = refl

apply_split_tunnel-installs_example :
    (ids : List ℕ) × ((apply_split_tunnel test_wfp split_policy (0 ∷ []) idle_lock.session).1
      ≡ ok ids)
    × (length ids ≡ length (split_filters test_wfp split_policy))
    × (at_slot (apply_split_tunnel test_wfp split_policy (0 ∷ []) idle_lock.session).0.engine 0
        ≡ expected ids (split_filters test_wfp split_policy) 0 none)
apply_split_tunnel-installs_example =
    apply_split_tunnel-installs test_wfp test_laws (λ gone e held. refl) split_policy (0 ∷ [])
      idle_lock.session 0 split_done
