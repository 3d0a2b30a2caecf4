-- ===== src/Service/TransportHealth/Recovery.antt =====
-- How `crates/routeguard-service/src/transport_health.rs` treats a relay that stays down.
use route_guard.Prelude.{
  last, last-snoc, list_beq, list_beq_iff, nat_eq, ◌&&◌, not, ◌∙◌, ◌+◌, ◌≡◌, ◌≤◌, Bool, true, false,
  Option, none, some, List, [], ◌∷◌, length, length-append, All, passes, arith,
}
use route_guard.Prelude.Text.{Text}
use route_guard.Prelude.Result.{err}
use route_guard.Service.TransportHealth.{
  Monitor, MonitorEvent, Turn, ActiveSession, transport_failed, is_direct, is_healthy, tick, run,
  recover, watch, exhausted,
}

-- The failure that the monitor publishes when it gives up.
abbrev pub is_exhausted : MonitorEvent → Bool
is_exhausted (transport_failed name kind reason recoverable) =
    list_beq reason exhausted && not recoverable
is_exhausted _ = false

-- A relay that is needed, is not healthy, and cannot be restarted.
abbrev pub IsFailing : Turn → Type 0
IsFailing turn =
    (active : ActiveSession) × (reason : Text) × (turn.active ≡ some active)
    × (is_direct active.transport_choice ≡ false)
    × (is_healthy turn.health ≡ false)
    × (turn.still_active ≡ true)
    × (turn.restarted ≡ err reason)

recover-bound :
    (turn : Turn) (active : ActiveSession) (m : Monitor)
    → m.recovery_attempts ≤ 3
    → (recover turn active m).recovery_attempts ≤ 3
unfolding recover
recover-bound turn active m h = ground arith

watch-bound :
    (a : Option ActiveSession) (turn : Turn) (m : Monitor)
    → m.recovery_attempts ≤ 3
    → (watch a turn m).recovery_attempts ≤ 3
watch-bound none turn m h = omega arith
watch-bound (some active) turn m h = ground (arith, recover-bound turn active m h)

-- The counter stays at most three, whatever the turns see.
pub run-bound :
    (turns : List Turn) (m : Monitor)
    → m.recovery_attempts ≤ 3
    → (run turns m).recovery_attempts ≤ 3
unfolding run tick
run-bound [] m h = h
run-bound (turn ∷ turns) m h = run-bound turns (tick turn m) (watch-bound turn.active turn m h)

-- A turn of a failing relay before the last attempt counts, pauses, and tries in vain.
tick-tries :
    (turn : Turn) (m : Monitor)
    → IsFailing turn
    → m.recovery_attempts + 1 ≤ 3
    → ((tick turn m).recovery_attempts ≡ m.recovery_attempts + 1)
      × (length (tick turn m).recoveries ≡ length m.recoveries + 1)
      × ((tick turn m).sessions ≡ m.sessions)
unfolding tick recover
tick-tries turn m (active, reason, there, relay, ill, still, failed) h =
    rw (there, relay, ill, still, failed)
      (ground (arith, length-append m.recoveries ((false, some reason) ∷ [])))

-- The next one gives up.
tick-gives_up :
    (turn : Turn) (m : Monitor)
    → IsFailing turn
    → m.recovery_attempts ≡ 3
    → ((tick turn m).recovery_attempts ≡ 0)
      × (length (tick turn m).recoveries ≡ length m.recoveries)
      × ((tick turn m).sessions ≡ m.sessions)
      × (passes is_exhausted (last (tick turn m).events) ≡ true)
unfolding tick recover
tick-gives_up turn m (active, reason, there, relay, ill, still, failed) h =
    let final : MonitorEvent =
      transport_failed active.tunnel_name active.transport_session.kind exhausted false in
    let told = last-snoc m.events final in
    rw (there, relay, ill) (ground (arith, told, list_beq_iff exhausted exhausted))

-- A relay that stays down from `a` attempts on, for `4 - a` turns: each turn but the last tries a
-- restart, the last one publishes that the attempts are used up and that the failure is not
-- recoverable, the counter is back at zero, and no session has been replaced.
pub run-gives_up :
    (turns : List Turn) (m : Monitor)
    → All IsFailing turns
    → m.recovery_attempts ≤ 3
    → m.recovery_attempts + length turns ≡ 4
    → ((run turns m).recovery_attempts ≡ 0)
      × (length (run turns m).recoveries + m.recovery_attempts ≡ length m.recoveries + 3)
      × ((run turns m).sessions ≡ m.sessions)
      × (passes is_exhausted (last (run turns m).events) ≡ true)
unfolding run
run-gives_up [] m failing small four = absurd (omega arith)
run-gives_up (turn ∷ []) m failing small four =
    let (zero_again, same, kept, told) = tick-gives_up turn m failing.0 (omega arith) in
    (zero_again, omega (arith, same), kept, told)
run-gives_up (turn ∷ next ∷ turns) m failing small four =
    let (counted, tried, kept) = tick-tries turn m failing.0 (omega arith) in
    let (zero_again, rest, kept', told) =
      run-gives_up (next ∷ turns) (tick turn m) failing.1 (omega (arith, counted))
        (omega (arith, counted)) in
    (zero_again, omega (arith, rest, counted, tried), kept' ∙ kept, told)
