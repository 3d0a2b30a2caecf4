-- ===== src/Tests/Polling.antt =====
-- Three events in a ring of two, and a relay that is down.
use route_guard.Prelude.{
  last, ℕ, ◌+◌, ◌≡◌, refl, true, some, none, List, [], ◌∷◌, length, drop, passes, arith,
}
use route_guard.Prelude.Text.{bytes}
use route_guard.Prelude.Result.{err}
use route_guard.Core.Net.{v4}
use route_guard.Core.Transport
use route_guard.Core.Transport.{TransportSession, failed}
use route_guard.Core.Events
use route_guard.Core.Events.{push_all, poll}
use route_guard.Core.Events.Polling.{numbered, poll-push_all}
use route_guard.Service.TransportHealth.{Turn, ActiveSession, start, run}
use route_guard.Service.TransportSelector.{lwo}
use route_guard.Service.TransportHealth.Recovery.{IsFailing, is_exhausted, run-gives_up}

abbrev payloads : List ℕ
payloads = 7 ∷ 8 ∷ 9 ∷ []

poll-push_all_example : poll 1 2 (push_all payloads (Events.new 2)) ≡ drop 1 (numbered 1 payloads)
poll-push_all_example = poll-push_all 2 1 2 payloads (omega arith) (omega arith) (omega arith)

abbrev relay : ActiveSession
relay = record {
  tunnel_name = bytes "home";
  transport_choice = lwo;
  transport_session = record {
    kind = Transport.TransportKind.lwo;
    handle_id = 1;
    wireguard_endpoint = record { ip = v4 1; port = 51820 };
    original_endpoint = record { ip = v4 2; port = 51820 };
    remote_transport = none;
    effective_mtu = 1420;
    protocol_version = 1;
    wire_format = none;
  };
}

abbrev down : Turn
down = record {
  active = some relay;
  health = failed;
  still_active = true;
  restarted = err (bytes "bind");
}

down-IsFailing : IsFailing down
down-IsFailing = (relay, bytes "bind", refl, refl, refl, refl, refl)

run-gives_up_example :
    ((run (down ∷ down ∷ down ∷ down ∷ []) start).recovery_attempts ≡ 0)
    × (length (run (down ∷ down ∷ down ∷ down ∷ []) start).recoveries + 0 ≡ 3)
    × ((run (down ∷ down ∷ down ∷ down ∷ []) start).sessions ≡ [])
    × (passes is_exhausted (last (run (down ∷ down ∷ down ∷ down ∷ []) start).events) ≡ true)
run-gives_up_example =
    run-gives_up (down ∷ down ∷ down ∷ down ∷ []) start
      (down-IsFailing, (down-IsFailing, (down-IsFailing, (down-IsFailing, tt)))) (omega arith) refl
