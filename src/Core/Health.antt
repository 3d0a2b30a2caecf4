-- ===== src/Core/Health.antt =====
-- `crates/routeguard-core/src/observability/health.rs`: the health score.
pub mod Bounds
use route_guard.Prelude.{
  ℕ, ◌+◌, ◌-◌, ◌*◌, ◌/◌, ◌%◌, ◌^◌, min, Bool, true, false, ◌&&◌, ◌||◌, not, ltb, leb, nat_beq,
  list_beq, nat_eq, if◌then◌else◌, Option, none, some, is_some, List, [], ◌∷◌,
}
use route_guard.Prelude.Text.{Text, bytes}
use route_guard.Core.Observability.{TunnelObs, TransportObs, RoutingObs, NetworkLockObs, DnsObs}

pub data HealthStatus : Type 0 where
  healthy degraded unhealthy unknown : HealthStatus

-- `HealthStatus::from_score`
unfoldable pub from_score : ℕ → HealthStatus
from_score score =
    if leb 90 score && leb score 100
    then healthy
    else if leb 70 score && leb score 89
    then degraded
    else if leb 1 score && leb score 69
    then unhealthy
    else unknown

-- A reason is a fixed text, or `handshake_age_{age}s`.
pub data HealthReason : Type 0 where
  fixed_reason : Text → HealthReason
  handshake_age : ℕ → HealthReason

pub record HealthComponent : Type 0 where
  pub id : Text
  pub score : ℕ  -- u8
  pub status : HealthStatus
  pub reason : Option HealthReason

pub record HealthReport : Type 0 where
  pub score : ℕ  -- u8
  pub status : HealthStatus
  pub components : List HealthComponent

-- The pairs `(u8, Option<String>)` that the scores are.
abbrev pub Score : Type 0
Score = ℕ × Option HealthReason

abbrev pub perfect : Score
perfect = (100, none)

abbrev pub because : ℕ → Text → Score
because score reason = (score, some (fixed_reason reason))

abbrev is_text : Text → Text → Bool
is_text a b = list_beq a b

unfoldable pub score_tunnel : Option TunnelObs → Text → Score
score_tunnel tunnel state =
    if is_text state (bytes "connected")
    then (if is_some tunnel then perfect else because 80 (bytes "connected_no_tunnel_obs"))
    else if is_text state (bytes "connecting") || is_text state (bytes "reconnecting")
    then because 70 state
    else if is_text state (bytes "locked_down") || is_text state (bytes "error")
    then because 0 state
    else perfect

abbrev score_transport_health : Text → Score
score_transport_health health =
    if is_text health (bytes "healthy")
    then perfect
    else if is_text health (bytes "degraded")
    then because 60 (bytes "transport_degraded")
    else if is_text health (bytes "failed")
    then because 0 (bytes "transport_failed")
    else because 80 (bytes "transport_unknown")

abbrev score_some_transport : Option TransportObs → Score
score_some_transport none = perfect
score_some_transport (some t) =
    if is_text t.kind (bytes "direct_udp") then perfect else score_transport_health t.health

unfoldable pub score_transport : Option TransportObs → Text → Score
score_transport transport state =
    if not (is_text state (bytes "connected")) then perfect else score_some_transport transport

-- `100u8.saturating_sub(((age * 100) / 300) as u8)` and its reason.
unfoldable pub score_age : ℕ → Score
score_age age =
    if leb age 30
    then perfect
    else if leb 300 age
    then (0, some (handshake_age age))
    else (100 - (age * 100 / 300) % 2 ^ 8, if ltb 120 age then some (handshake_age age) else none)

abbrev score_handshake_age : Option ℕ → Score
score_handshake_age none = because 40 (bytes "no_handshake")
score_handshake_age (some age) = score_age age

unfoldable pub score_handshake : Option TunnelObs → Score
unfolding score_age
score_handshake none = perfect
score_handshake (some t) =
    if nat_beq t.stats.peer_count 0
    then because 50 (bytes "no_peers")
    else score_handshake_age t.stats.last_handshake_secs_ago

unfoldable pub score_routing : RoutingObs → Score
score_routing routing = perfect

unfoldable pub score_domain : RoutingObs → DnsObs → Score
score_domain routing dns =
    if ltb 0 routing.domain_rules.enabled && (not dns.redirect_active && not dns.proxy_enabled)
    then because 40 (bytes "domain_rules_no_ingress")
    else if dns.kernel_redirect && not dns.driver.present
    then because 30 (bytes "driver_missing")
    else if dns.driver.present && not dns.driver.ready
    then because 40 (bytes "driver_not_ready")
    else perfect

unfoldable pub score_network_lock : NetworkLockObs → Score
score_network_lock nl =
    if nl.configured && not nl.active
    then because 50 (bytes "nl_configured_not_active")
    else if ltb 10 nl.violations_blocked
    then because 60 (bytes "violation_storm")
    else perfect

unfoldable pub score_driver : DnsObs → Score
score_driver dns =
    if not dns.kernel_redirect
    then perfect
    else if dns.driver.present && dns.driver.ready
    then perfect
    else if dns.driver.present
    then because 40 (bytes "driver_not_ready")
    else because 0 (bytes "driver_absent")

abbrev pub component : Text → Score → HealthComponent
component id score = record {
  id = id;
  score = score.0;
  status = from_score score.0;
  reason = score.1;
}

-- The scores in the order of their weights.
abbrev pub weighted : Bool → Text → ℕ → ℕ → ℕ → ℕ → ℕ → ℕ → ℕ → ℕ
weighted busy state tunnel transport handshake routing domain nl driver =
    if busy
    then (tunnel * 25
        + transport * 20
        + handshake * 20
        + routing * 10
        + domain * 10
        + nl * 10
        + driver * 5)
      / 100
    else (if is_text state (bytes "locked_down") then 0 else 100)

abbrev pub report : ℕ → List HealthComponent → HealthReport
report score components = record {
  score = score;
  status = from_score score;
  components = components;
}

-- `compute_health`
unfoldable pub compute_health :
    Option TunnelObs
    → Option TransportObs
    → RoutingObs
    → NetworkLockObs
    → DnsObs
    → Text
    → HealthReport
unfolding from_score score_tunnel score_transport score_handshake score_routing score_domain
    score_network_lock score_driver
compute_health tunnel transport routing network_lock dns state =
    let t : Score = score_tunnel tunnel state in
    let tp : Score = score_transport transport state in
    let h : Score = score_handshake tunnel in
    let r : Score = score_routing routing in
    let d : Score = score_domain routing dns in
    let n : Score = score_network_lock network_lock in
    let k : Score = score_driver dns in
    let busy : Bool = is_some tunnel || is_text state (bytes "connected") in
    report (min (weighted busy state t.0 tp.0 h.0 r.0 d.0 n.0 k.0) 100 % 2 ^ 8) (
      component (bytes "tunnel") t
      ∷ component (bytes "transport") tp
      ∷ component (bytes "handshake") h
      ∷ component (bytes "routing") r
      ∷ component (bytes "domain") d
      ∷ component (bytes "networkLock") n
      ∷ component (bytes "driver") k
      ∷ [])
