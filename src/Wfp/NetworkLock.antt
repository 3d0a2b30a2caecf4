-- ===== src/Wfp/NetworkLock.antt =====
-- `crates/routeguard-wfp/src/network_lock.rs`, with what persistent.rs does of its state: the kill
-- switch.
pub mod Contents
pub mod Refinement
use route_guard.Prelude.{
  ℕ, Bool, true, false, ◌&&◌, not, Option, none, some, List, [], ◌∷◌, is_empty, keep, contains,
  nat_eq, if◌then◌else◌,
}
use route_guard.Prelude.Text.{Text}
use route_guard.Prelude.Result.{Result, ok, err, and_then}
use route_guard.Wfp.{Platform, WfpError, network_lock_error, io_error, WfpSessionInner}
use route_guard.Wfp.Filters
use route_guard.Wfp.Filters.{Session, NetworkLockPolicy}

pub record NetworkLockState : Type 0 where
  pub enabled : Bool
  pub active_filter_ids : List ℕ

-- `NetworkLockState::default()`
abbrev pub default_state : NetworkLockState
default_state = record { enabled = false; active_filter_ids = [] }

-- The state file: `create_dir_all`, `write` and `read_to_string`, and `serde_json` at the state.
pub record StateFile : Type 1 where
  pub Fs : Type 0
  pub create_dir_all : Fs → Fs × Bool
  pub write : Text → Fs → Fs × Bool
  pub exists : Fs → Bool
  pub read_to_string : Fs → Option Text
  pub to_json : NetworkLockState → Option Text
  pub from_json : Text → Option NetworkLockState

-- `NetworkLock`, with the session that its methods are called with and the file.
pub record NetworkLock (Engine Fs : Type 0) : Type 0 where
  pub session : WfpSessionInner Engine
  pub state : NetworkLockState
  pub files : Fs

module _ (wfp : Platform) (disk : StateFile) where
  abbrev pub State : Type 0
  State = NetworkLock wfp.Engine disk.Fs

  abbrev pub Done : Type 0
  Done = Result WfpError (Unit {0})

  abbrev write_text : Option Text → State → State × Done
  write_text none w = (w, err io_error)
  write_text (some text) w =
      let (files, written) = disk.write text w.files in
      (record w { files = files }, if written then ok tt else err io_error)

  -- `persistent::save_state`
  unfoldable pub save_state : State → State × Done
  save_state w =
      let (files, made) = disk.create_dir_all w.files in
      if made
      then write_text (disk.to_json w.state) (record w { files = files })
      else (record w { files = files }, err io_error)

  abbrev parsed : Option NetworkLockState → Result WfpError NetworkLockState
  parsed none = err io_error
  parsed (some state) = ok state

  abbrev loaded : Option Text → Result WfpError NetworkLockState
  loaded none = err io_error
  loaded (some text) = parsed (disk.from_json text)

  -- `persistent::load_state`
  unfoldable pub load_state : disk.Fs → Result WfpError NetworkLockState
  load_state files =
      if disk.exists files then loaded (disk.read_to_string files) else ok default_state

  abbrev or_default : Result WfpError NetworkLockState → NetworkLockState
  or_default (err e) = default_state
  or_default (ok state) = state

  -- `WfpSession::open`, where the platform has given an engine
  unfoldable pub open_session : wfp.Engine → disk.Fs → State
  unfolding load_state
  open_session engine files = record {
    session = record { engine = engine; active_filters = [] };
    state = or_default (load_state files);
    files = files;
  }

  -- The loop of `remove_filters`.
  abbrev pub delete_one : wfp.Engine × Bool → Session wfp → Session wfp × Done
  delete_one (engine, deleted) s =
      (record s { engine = engine }, if deleted then ok tt else err network_lock_error)

  unfoldable pub delete_filters : List ℕ → Session wfp → Session wfp × Done
  delete_filters [] s = (s, ok tt)
  delete_filters (id ∷ ids) s =
      and_then (delete_one (wfp.delete_filter id s.engine) s) (λ s' u. delete_filters ids s')

  -- `remove_filters`
  unfoldable pub remove_filters : List ℕ → Session wfp → Session wfp × Done
  unfolding delete_filters
  remove_filters ids s = and_then (delete_filters ids s) (λ s' u.
      (record s' { active_filters = keep (λ id. not (contains ids id)) s'.active_filters }, ok tt))

  abbrev pub on_session {ℓ} :
      {A : Type ℓ}
      → (Session wfp → Session wfp × Result WfpError A)
      → State
      → State × Result WfpError A
  on_session f w = let (s, r) = f w.session in (record w { session = s }, r)

  abbrev pub locked : List ℕ → State → State
  locked ids w = record w { state = record { enabled = true; active_filter_ids = ids } }

  abbrev pub unlocked : State → State
  unlocked w = record w { state = default_state }

  -- `NetworkLock::enable`
  unfoldable pub enable : NetworkLockPolicy → State → State × Done
  unfolding save_state
  enable policy w =
      if w.state.enabled
      then (w, ok tt)
      else and_then (on_session (Filters.install_network_lock wfp policy) w)
          (λ w' ids. save_state (locked ids w'))

  -- `NetworkLock::disable`
  unfoldable pub disable : State → State × Done
  unfolding save_state remove_filters
  disable w =
      if not w.state.enabled && is_empty w.state.active_filter_ids
      then (w, ok tt)
      else and_then (on_session (remove_filters w.state.active_filter_ids) w)
          (λ w' u. save_state (unlocked w'))
