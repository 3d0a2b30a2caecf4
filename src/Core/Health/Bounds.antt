-- ===== src/Core/Health/Bounds.antt =====
-- Health scores are percentages, and an older handshake never scores higher.
use route_guard.Prelude.{
  if◌then◌else◌, ap, ◌∙◌, refl, List, [], ◌∷◌, ◌+◌, ◌*◌, ◌/◌, Bool, true, false, Option-cases, inl,
  inr, is_some, ◌||◌, list_beq, nat_eq, ℕ, ◌≤◌, ◌≡◌, Option, none, some, arith, All,
}
use route_guard.Prelude.Text.{Text, bytes}
use route_guard.Core.Observability.{TunnelObs, TransportObs, RoutingObs, NetworkLockObs, DnsObs}
use route_guard.Core.Health.{
  HealthComponent, Score, component, compute_health, score_age, score_tunnel, score_transport,
  score_handshake, score_domain, score_network_lock, score_driver, score_routing, weighted,
}

score_tunnel-le : (t : Option TunnelObs) (s : Text) → (score_tunnel t s).0 ≤ 100
unfolding score_tunnel
score_tunnel-le t s = ground arith

score_transport-le : (t : Option TransportObs) (s : Text) → (score_transport t s).0 ≤ 100
unfolding score_transport
score_transport-le none s = ground arith
score_transport-le (some t) s = ground arith

score_age-le : (age : ℕ) → (score_age age).0 ≤ 100
unfolding score_age
score_age-le age = ground arith

score_handshake-le : (t : Option TunnelObs) → (score_handshake t).0 ≤ 100
unfolding score_handshake
score_handshake-le none = omega arith
score_handshake-le (some t) = elim (Option-cases t.stats.last_handshake_secs_ago) [
  | inl gone ↦ ground (arith, gone)
  | inr (age, there) ↦ ground (arith, there, score_age-le age)
]

score_domain-le : (r : RoutingObs) (d : DnsObs) → (score_domain r d).0 ≤ 100
unfolding score_domain
score_domain-le r d = ground arith

score_routing-le : (r : RoutingObs) → (score_routing r).0 ≤ 100
unfolding score_routing
score_routing-le r = omega arith

score_network_lock-le : (n : NetworkLockObs) → (score_network_lock n).0 ≤ 100
unfolding score_network_lock
score_network_lock-le n = ground arith

score_driver-le : (d : DnsObs) → (score_driver d).0 ≤ 100
unfolding score_driver
score_driver-le d = ground arith

-- A handshake that is longer ago never scores higher, and no score wraps around.
pub score_age-antitone : (a b : ℕ) → a ≤ b → (score_age b).0 ≤ (score_age a).0
unfolding score_age
score_age-antitone a b h = ground arith

-- The weights of the components, in their order; together they are 100.
abbrev pub weights : List ℕ
weights = 25 ∷ 20 ∷ 20 ∷ 10 ∷ 10 ∷ 10 ∷ 5 ∷ []

abbrev pub weighted_sum : List ℕ → List HealthComponent → ℕ
weighted_sum [] components = 0
weighted_sum (w ∷ ws) [] = 0
weighted_sum (w ∷ ws) (c ∷ components) = w * c.score + weighted_sum ws components

-- What the score of a report is to be, from its components.
abbrev pub overall : Bool → Bool → List HealthComponent → ℕ
overall true is_locked components = weighted_sum weights components / 100
overall false true components = 0
overall false false components = 100

abbrev all_components : Score → Score → Score → Score → Score → Score → Score → List HealthComponent
all_components t tp h r d n k =
    component (bytes "tunnel") t
    ∷ component (bytes "transport") tp
    ∷ component (bytes "handshake") h
    ∷ component (bytes "routing") r
    ∷ component (bytes "domain") d
    ∷ component (bytes "networkLock") n
    ∷ component (bytes "driver") k
    ∷ []

idle-overall :
    (is_locked : Bool) (components : List HealthComponent)
    → (if is_locked then 0 else 100) ≡ overall false is_locked components
idle-overall true components = refl
idle-overall false components = refl

overall-weighted :
    (busy : Bool) (s : Text) (t tp h r d n k : Score)
    → weighted busy s t.0 tp.0 h.0 r.0 d.0 n.0 k.0
      ≡ overall busy (list_beq s (bytes "locked_down")) (all_components t tp h r d n k)
overall-weighted true s t tp h r d n k = ap (λ x. x / 100) (omega (arith))
overall-weighted false s t tp h r d n k =
    idle-overall (list_beq s (bytes "locked_down")) (all_components t tp h r d n k)

-- The score of a report and those of its components are percentages, and neither `min(100)` nor the
-- cast to `u8` changes the score: with a tunnel or in the state connected it is the mean of the
-- components in the report, weighted by 25, 20, 20, 10, 10, 10 and 5 and rounded down; else it is 0
-- in the state locked_down and 100 in every other, whatever the components are.
pub compute_health-bounds :
    (t : Option TunnelObs) (tp : Option TransportObs) (r : RoutingObs) (n : NetworkLockObs)
    (d : DnsObs) (s : Text)
    → let report = compute_health t tp r n d s in
      (report.score ≤ 100)
      × (report.score
          ≡ overall
              (is_some t || list_beq s (bytes "connected"))
              (list_beq s (bytes "locked_down"))
              report.components)
      × All (λ (c : HealthComponent). c.score ≤ 100) report.components
unfolding compute_health
compute_health-bounds t tp r n d s =
    let a = score_tunnel-le t s in
    let b = score_transport-le tp s in
    let c = score_handshake-le t in
    let e = score_domain-le r d in
    let f = score_network_lock-le n in
    let g = score_driver-le d in
    let h = score_routing-le r in
    (
      ground arith,
      ground arith
          ∙ overall-weighted (is_some t || list_beq s (bytes "connected")) s (score_tunnel t s)
              (score_transport tp s) (score_handshake t) (score_routing r) (score_domain r d)
              (score_network_lock n) (score_driver d),
      (a, (b, (c, (h, (e, (f, (g, tt))))))),
    )
