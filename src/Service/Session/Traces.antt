-- ===== src/Service/Session/Traces.antt =====
-- Every sequence of calls of the orchestrator: its state, its handle and its events agree.
use route_guard.Prelude.{
  ◌≡◌, refl, Bool, true, Option, is_some, is_none, arith, List, none, some, last,
}
use route_guard.Prelude.Text.{Text}
use route_guard.Prelude.Result.{Result}
use route_guard.Core.Backend.{TunnelHandle}
use route_guard.Core.Config.{AppConfig, TunnelConfig}
use route_guard.Core.Policy.{SessionState, connecting, connected, disconnecting}
use route_guard.Service.Session.{
  Orchestrator, new_orchestrator, begin_connect, complete_connect, connect, disconnect,
  disconnect_with_handle, clear_handle, mark_locked_down, set_config, tunnel_config_for,
  TunnelEvent, connecting_event, connected_event, awg_connected_event, disconnecting_event,
  disconnected_event,
}

-- One call, with what the backend answers.
pub data Action : Type 0 where
  connect_action : (TunnelConfig → Result Text TunnelHandle) → Option Text → Action
  disconnect_action : (TunnelHandle → Result Text (Unit {0})) → Action
  begin_action : Text → Action
  complete_action disconnected_action : TunnelHandle → Action
  lock_action : SessionState → Action
  config_action : AppConfig → Action

unfoldable pub act : Action → Orchestrator → Orchestrator
act (connect_action up name) o = (connect up name o).0
act (disconnect_action down) o = (disconnect down o).0
act (begin_action name) o = begin_connect name o
act (complete_action handle) o = complete_connect handle o
act (disconnected_action handle) o = disconnect_with_handle handle o
act (lock_action state) o = (mark_locked_down state o).0
act (config_action config) o = set_config config o

pub data Run : Orchestrator → Type 0 where
  started : (config : AppConfig) → Run (new_orchestrator config)
  acted : {o : Orchestrator} → (a : Action) → Run o → Run (act a o)

-- A connected session has a handle, a disconnected one has none.
abbrev pub fits_handle : SessionState → Option TunnelHandle → Bool
fits_handle SessionState.connected handle = is_some handle
fits_handle SessionState.disconnected handle = is_none handle
fits_handle _ handle = true

abbrev pub Agrees : Orchestrator → Type 0
Agrees o = fits_handle o.state o.handle ≡ true

complete_connect-Agrees :
    (handle : TunnelHandle) (o : Orchestrator) → Agrees (complete_connect handle o)
unfolding complete_connect
complete_connect-Agrees handle o = ground arith

connect-Agrees :
    (up : TunnelConfig → Result Text TunnelHandle) (name : Option Text) (o : Orchestrator)
    → Agrees o
    → Agrees (connect up name o).0
unfolding connect tunnel_config_for begin_connect complete_connect
connect-Agrees up name o h = ground arith

disconnect-Agrees :
    (down : TunnelHandle → Result Text (Unit {0})) (o : Orchestrator)
    → Agrees o
    → Agrees (disconnect down o).0
unfolding disconnect clear_handle
disconnect-Agrees down o h = ground arith

act-Agrees : (a : Action) (o : Orchestrator) → Agrees o → Agrees (act a o)
unfolding act begin_connect disconnect_with_handle mark_locked_down set_config
act-Agrees (connect_action up name) o h = connect-Agrees up name o h
act-Agrees (disconnect_action down) o h = disconnect-Agrees down o h
act-Agrees (begin_action name) o h = refl
act-Agrees (complete_action handle) o h = complete_connect-Agrees handle o
act-Agrees (disconnected_action handle) o h = refl
act-Agrees (lock_action state) o h = h
act-Agrees (config_action config) o h = h

-- After any sequence of calls, whatever the backend answered, a session in the state connected has a
-- handle and one in the state disconnected has none.
pub Run-Agrees : (o : Orchestrator) → Run o → Agrees o
Run-Agrees o (started config) = refl
Run-Agrees o (acted {o = old} a r) = act-Agrees a old (Run-Agrees old r)

-- The state that a listener concludes from the last event.
abbrev pub state_of : TunnelEvent → SessionState
state_of (connecting_event name) = connecting
state_of (connected_event name if_index backend) = SessionState.connected
state_of (awg_connected_event name if_index) = SessionState.connected
state_of (disconnecting_event name) = disconnecting
state_of (disconnected_event name backend) = SessionState.disconnected

abbrev concluded : Option TunnelEvent → SessionState
concluded none = SessionState.disconnected
concluded (some event) = state_of event

abbrev pub reported : List TunnelEvent → SessionState
reported events = concluded (last events)

abbrev Reports : Orchestrator → Type 0
Reports o = o.state ≡ reported o.events
