-- ===== src/Service/Session.antt =====
-- `crates/routeguard-core/src/orchestrator.rs`: the session, its handle and what it publishes. A call
-- of the backend is an argument: its result.
pub mod Traces
use route_guard.Prelude.{ℕ, Bool, Option, none, some, List, [], ◌∷◌, ◌++◌, if◌then◌else◌}
use route_guard.Prelude.Text.{Text, bytes}
use route_guard.Prelude.Result.{Result, ok, err}
use route_guard.Core.Backend.{BackendKind, TunnelHandle, is_awg}
use route_guard.Core.Config.{AppConfig, TunnelConfig}
use route_guard.Core.Policy.{
  SessionState, disconnected, connecting, connected, disconnecting, locked_down,
}

-- The events of `TunnelEvent` that the orchestrator publishes.
pub data TunnelEvent : Type 0 where
  connecting_event : Text → TunnelEvent
  connected_event : Text → ℕ → BackendKind → TunnelEvent
  awg_connected_event : Text → ℕ → TunnelEvent
  disconnecting_event : Text → TunnelEvent
  disconnected_event : Text → BackendKind → TunnelEvent

-- `TunnelOrchestrator`, with the log of `events` in the place of the bus.
pub record Orchestrator : Type 0 where
  pub config : AppConfig
  pub state : SessionState
  pub handle : Option TunnelHandle
  pub events : List TunnelEvent

pub data SessionError : Type 0 where
  no_tunnel_configured no_active_tunnel : SessionError
  backend_error : Text → SessionError

-- `TunnelOrchestrator::new`
abbrev pub new_orchestrator : AppConfig → Orchestrator
new_orchestrator config = record {
  config = config;
  state = disconnected;
  handle = none;
  events = [];
}

abbrev pub publish : TunnelEvent → Orchestrator → Orchestrator
publish event o = record o { events = o.events ++ event ∷ [] }

-- `begin_connect`
unfoldable pub begin_connect : Text → Orchestrator → Orchestrator
begin_connect name o = publish (connecting_event name) (record o { state = connecting })

-- The event that only an AmneziaWG tunnel has.
abbrev pub publish_awg : TunnelHandle → Orchestrator → Orchestrator
publish_awg handle o =
    if is_awg handle.backend then publish (awg_connected_event handle.name handle.if_index) o else o

-- `complete_connect`, and `connect_with_handle`, which only calls it
unfoldable pub complete_connect : TunnelHandle → Orchestrator → Orchestrator
complete_connect handle o =
    publish (connected_event handle.name handle.if_index handle.backend)
      (publish_awg handle (record o { handle = some handle; state = connected }))

abbrev pub name_or : Option Text → Text → Text
name_or none name = name
name_or (some given) name = given

abbrev named_config : Option TunnelConfig → Option Text → Result SessionError TunnelConfig
named_config none name = err no_tunnel_configured
named_config (some t) name = ok (record t { name = name_or name t.name })

-- `tunnel_config_for`
unfoldable pub tunnel_config_for : Option Text → Orchestrator → Result SessionError TunnelConfig
tunnel_config_for name o = named_config o.config.tunnel name

-- What the rest of `connect` does with the result of `backend.up`.
abbrev pub after_up :
    Result Text TunnelHandle → Orchestrator → Orchestrator × Result SessionError TunnelHandle
after_up (err e) o = (o, err (backend_error e))
after_up (ok handle) o = (complete_connect handle o, ok handle)

abbrev pub connect_to :
    Result SessionError TunnelConfig
    → (TunnelConfig → Result Text TunnelHandle)
    → Orchestrator
    → Orchestrator × Result SessionError TunnelHandle
connect_to (err e) up o = (o, err e)
connect_to (ok t) up o = after_up (up t) (begin_connect t.name o)

-- `connect`
unfoldable pub connect :
    (TunnelConfig → Result Text TunnelHandle)
    → Option Text
    → Orchestrator
    → Orchestrator × Result SessionError TunnelHandle
unfolding tunnel_config_for
connect up name o = connect_to (tunnel_config_for name o) up o

-- `clear_handle`
unfoldable pub clear_handle : TunnelHandle → Orchestrator → Orchestrator
clear_handle handle o =
    publish (disconnected_event handle.name handle.backend)
      (record o { handle = none; state = disconnected })

-- What the rest of `disconnect` does with the result of `backend.down`.
abbrev pub after_down :
    TunnelHandle
    → Result Text (Unit {0})
    → Orchestrator
    → Orchestrator × Result SessionError (Unit {0})
after_down handle (err e) o = (o, err (backend_error e))
after_down handle (ok u) o = (clear_handle handle o, ok u)

abbrev pub disconnect_from :
    Option TunnelHandle
    → (TunnelHandle → Result Text (Unit {0}))
    → Orchestrator
    → Orchestrator × Result SessionError (Unit {0})
disconnect_from none down o = (o, err no_active_tunnel)
disconnect_from (some handle) down o =
    after_down handle (down handle)
      (publish (disconnecting_event handle.name) (record o { state = disconnecting }))

-- `disconnect`
unfoldable pub disconnect :
    (TunnelHandle → Result Text (Unit {0}))
    → Orchestrator
    → Orchestrator × Result SessionError (Unit {0})
disconnect down o = disconnect_from o.handle down o

-- `disconnect_with_handle`
unfoldable pub disconnect_with_handle : TunnelHandle → Orchestrator → Orchestrator
unfolding clear_handle
disconnect_with_handle handle o = clear_handle handle (record o { state = disconnecting })

-- `mark_locked_down`, once its task has run: the state that it writes is the one that the caller
-- passes. That of the orchestrator is private and not among them.
unfoldable pub mark_locked_down : SessionState → Orchestrator → Orchestrator × SessionState
mark_locked_down state o = (o, locked_down)

-- `set_config` before it writes the file
unfoldable pub set_config : AppConfig → Orchestrator → Orchestrator
set_config config o = record o { config = config }
