-- ===== src/Service/TransportHealth.antt =====
-- `crates/routeguard-service/src/transport_health.rs`: the monitor of a relay as a step of its loop.
-- What a turn sees from outside is an argument: the session, the health of its relay, whether there
-- still is a session after the pause, and what the restart gives. The policy that is applied after a
-- restart is another component's.
pub mod Recovery
use route_guard.Prelude.{
  ℕ, ◌+◌, ◌-◌, Bool, true, false, Option, none, some, List, [], ◌∷◌, ◌++◌, ltb, if◌then◌else◌,
}
use route_guard.Prelude.Text.{Text, bytes}
use route_guard.Prelude.Result.{Result, ok, err}
use route_guard.Core.Net.{SocketAddr}
use route_guard.Core.Transport
use route_guard.Core.Transport.{TransportKind, TransportHealth, healthy, TransportSession}
use route_guard.Service.TransportSelector.{TransportChoice, direct_udp}

-- What the monitor reads of `ActiveConnectSession`.
pub record ActiveSession : Type 0 where
  pub tunnel_name : Text
  pub transport_choice : TransportChoice
  pub transport_session : TransportSession

-- The events of `TunnelEvent` that the monitor publishes.
pub data MonitorEvent : Type 0 where
  transport_failed : Text → TransportKind → Text → Bool → MonitorEvent
  transport_recovering : Text → TransportKind → ℕ → ℕ → MonitorEvent
  transport_recovery_result : TransportKind → ℕ → Bool → Option Text → MonitorEvent
  transport_connected :
      Text → TransportKind → SocketAddr → Option SocketAddr → Option ℕ → Option Text → MonitorEvent

-- The variable of the loop with what it does to the service: the events, the pauses in seconds, the
-- calls of `record_recovery_attempt` and of `active_session.set`.
pub record Monitor : Type 0 where
  pub recovery_attempts : ℕ  -- u32
  pub events : List MonitorEvent
  pub pauses : List ℕ
  pub recoveries : List (Bool × Option Text)
  pub sessions : List ActiveSession

pub record Turn : Type 0 where
  pub active : Option ActiveSession
  pub health : TransportHealth
  pub still_active : Bool
  pub restarted : Result Text ActiveSession

abbrev pub max_recovery_attempts : ℕ
max_recovery_attempts = 3

abbrev pub backoff_secs : List ℕ
backoff_secs = 5 ∷ 10 ∷ 15 ∷ []

-- `BACKOFF_SECS.get(i).copied().unwrap_or(15)`
abbrev pub get_or : List ℕ → ℕ → ℕ
get_or [] i = 15
get_or (s ∷ secs) ℕ.zero = s
get_or (s ∷ secs) (ℕ.suc i) = get_or secs i

abbrev pub exhausted : Text
exhausted = bytes "transport health check failed after max recovery attempts"

abbrev pub publish : MonitorEvent → Monitor → Monitor
publish e m = record m { events = m.events ++ e ∷ [] }

abbrev pub reset : Monitor → Monitor
reset m = record m { recovery_attempts = 0 }

abbrev pub is_healthy : TransportHealth → Bool
is_healthy healthy = true
is_healthy _ = false

abbrev pub is_direct : TransportChoice → Bool
is_direct direct_udp = true
is_direct _ = false

-- The version is told of an LWO relay only.
abbrev pub version_of : TransportKind → ℕ → Option ℕ
version_of TransportKind.lwo version = some version
version_of _ version = none

abbrev pub connected_event : ActiveSession → MonitorEvent
connected_event a =
    let s : TransportSession = a.transport_session in
    transport_connected a.tunnel_name s.kind s.wireguard_endpoint s.remote_transport
      (version_of s.kind s.protocol_version) s.wire_format

abbrev pub record_recovery_attempt : Bool → Option Text → Monitor → Monitor
record_recovery_attempt success reason m = record m {
  recoveries = m.recoveries ++ (success, reason) ∷ [];
}

-- The two arms after `restart_transport`.
abbrev pub after_restart : Result Text ActiveSession → ActiveSession → Monitor → Monitor
after_restart (ok fresh) active m =
    let kind : TransportKind = active.transport_session.kind in
    let m1 : Monitor = record_recovery_attempt true none m in
    let m2 : Monitor = publish (transport_recovery_result kind m.recovery_attempts true none) m1 in
    let m3 : Monitor = publish (connected_event fresh) m2 in
    reset (record m3 { sessions = m3.sessions ++ fresh ∷ [] })
after_restart (err reason) active m =
    let kind : TransportKind = active.transport_session.kind in
    let m1 : Monitor = record_recovery_attempt false (some reason) m in
    let m2 : Monitor =
      publish (transport_recovery_result kind m.recovery_attempts false (some reason)) m1 in
    publish
      (transport_failed active.tunnel_name kind reason
        (ltb m.recovery_attempts max_recovery_attempts))
      m2

abbrev pub give_up : ActiveSession → Monitor → Monitor
give_up active m =
    reset (
      publish (transport_failed active.tunnel_name active.transport_session.kind exhausted false) m)

-- After the pause.
abbrev pub try_restart : Turn → ActiveSession → Monitor → Monitor
try_restart turn active m =
    if turn.still_active then after_restart turn.restarted active m else reset m

-- From `recovery_attempts += 1` on.
unfoldable pub recover : Turn → ActiveSession → Monitor → Monitor
recover turn active m =
    let attempt : ℕ = m.recovery_attempts + 1 in
    let counted : Monitor = record m { recovery_attempts = attempt } in
    if ltb max_recovery_attempts attempt
    then give_up active counted
    else (let told : Monitor =
          publish
            (transport_recovering active.tunnel_name active.transport_session.kind attempt
              max_recovery_attempts)
            counted in
        try_restart turn active
          (record told { pauses = told.pauses ++ get_or backoff_secs (attempt - 1) ∷ [] }))

abbrev pub watch : Option ActiveSession → Turn → Monitor → Monitor
watch none turn m = reset m
watch (some active) turn m =
    if is_direct active.transport_choice
    then reset m
    else if is_healthy turn.health
    then reset m
    else recover turn active m

-- One turn of the loop.
unfoldable pub tick : Turn → Monitor → Monitor
unfolding recover
tick turn m = watch turn.active turn m

unfoldable pub run : List Turn → Monitor → Monitor
unfolding tick
run [] m = m
run (turn ∷ turns) m = run turns (tick turn m)

abbrev pub start : Monitor
start = record { recovery_attempts = 0; events = []; pauses = []; recoveries = []; sessions = [] }
