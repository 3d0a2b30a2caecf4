-- ===== src/Core/Events.antt =====
-- `crates/routeguard-core/src/events.rs`: the ring of events that clients poll. A record is its
-- number and what it was pushed with; the time stamp is part of the latter.
pub mod Polling
use route_guard.Prelude.{
  ℕ, ◌+◌, ◌-◌, ◌%◌, ◌^◌, Bool, List, [], ◌∷◌, ◌++◌, length, take, keep, ltb, if◌then◌else◌,
}

pub record EventRecord {ℓ} (Payload : Type ℓ) : Type ℓ where
  pub id : ℕ  -- u64
  pub payload : Payload

pub record EventStore {ℓ} (Payload : Type ℓ) : Type ℓ where
  pub next_id : ℕ  -- u64
  pub events : List (EventRecord Payload)
  pub max_size : ℕ

module _ {ℓ} {Payload : Type ℓ} where
  -- `EventStore::new`
  abbrev pub new : ℕ → EventStore Payload
  new max_size = record { next_id = 1; events = []; max_size = max_size }

  -- `while q.len() > max_size { q.pop_front(); }`
  unfoldable pub trim : ℕ → List (EventRecord Payload) → List (EventRecord Payload)
  trim max_size [] = []
  trim max_size (e ∷ q) =
      let shorter = trim max_size q in if ltb max_size (length (e ∷ q)) then shorter else e ∷ q

  -- `next_id.fetch_add(1)`
  abbrev pub take_id : EventStore Payload → EventStore Payload
  take_id st = record st { next_id = (st.next_id + 1) % 2 ^ 64 }

  -- What `push` does under the lock.
  unfoldable pub enqueue : EventRecord Payload → EventStore Payload → EventStore Payload
  unfolding trim
  enqueue e st = record st { events = trim st.max_size (st.events ++ e ∷ []) }

  -- `push`
  unfoldable pub push : Payload → EventStore Payload → EventStore Payload × ℕ
  unfolding enqueue
  push payload st =
      (enqueue (record { id = st.next_id; payload = payload }) (take_id st), st.next_id)

  -- `poll`
  unfoldable pub poll : ℕ → ℕ → EventStore Payload → List (EventRecord Payload)
  poll since_id limit st =
      take limit (keep (λ (e : EventRecord Payload). ltb since_id e.id) st.events)

  -- `latest_id`
  abbrev pub latest_id : EventStore Payload → ℕ
  latest_id st = st.next_id - 1

  abbrev pub push_all : List Payload → EventStore Payload → EventStore Payload
  push_all [] st = st
  push_all (payload ∷ payloads) st = push_all payloads (push payload st).0
