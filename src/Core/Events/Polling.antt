-- ===== src/Core/Events/Polling.antt =====
-- What a client of `crates/routeguard-core/src/events.rs` gets that polls with the last number it saw.
use route_guard.Prelude.{
  append_nil, append_assoc, ℕ, zero, suc, ◌+◌, ◌-◌, ◌^◌, ◌≡◌, ◌≤◌, ◌<◌, refl, ap, sym, ◌∙◌, List,
  [], ◌∷◌, ◌++◌, length, length-append, length-drop, take, drop, keep, ltb, Bool-cases, inl, inr,
  arith,
}
use route_guard.Core.Events.{EventRecord, EventStore, new, trim, enqueue, push, push_all, poll}

module _ {ℓ} {Payload : Type ℓ} where
  -- The records of pushed payloads, numbered from `n` on.
  abbrev pub numbered : ℕ → List Payload → List (EventRecord Payload)
  numbered n [] = []
  numbered n (p ∷ ps) = record { id = n; payload = p } ∷ numbered (n + 1) ps

  numbered-snoc :
      (n : ℕ) (ps : List Payload) (p : Payload)
      → numbered n (ps ++ p ∷ []) ≡ numbered n ps ++ record { id = n + length ps; payload = p } ∷ []
  numbered-snoc n [] p = ground arith
  numbered-snoc n (q ∷ ps) p = ground (arith, numbered-snoc (n + 1) ps p)

  length-numbered : (n : ℕ) (ps : List Payload) → length (numbered n ps) ≡ length ps
  length-numbered n [] = refl
  length-numbered n (p ∷ ps) = omega (arith, length-numbered (n + 1) ps)

  -- The loop drops what is too much, from the front.
  trim-drop :
      (max_size : ℕ) (q : List (EventRecord Payload))
      → trim max_size q ≡ drop (length q - max_size) q
  unfolding trim
  trim-drop max_size [] = ground arith
  trim-drop max_size (e ∷ q) = elim (Bool-cases (ltb max_size (length (e ∷ q)))) [
    | inl long ↦
        let one_more : length (e ∷ q) - max_size ≡ suc (length q - max_size) = ground arith in
        rw (long, one_more) (trim-drop max_size q)
    | inr short ↦
        let none_more : length (e ∷ q) - max_size ≡ 0 = ground arith in rw (short, none_more) refl
  ]

  abbrev no_records : List (EventRecord Payload)
  no_records = []

  drop-nil : (n : ℕ) → drop n no_records ≡ no_records
  drop-nil zero = refl
  drop-nil (suc n) = refl

  drop-drop : (a b : ℕ) (q : List (EventRecord Payload)) → drop a (drop b q) ≡ drop (b + a) q
  drop-drop a zero q = ap (λ n. drop n q) (omega arith)
  drop-drop a (suc b) [] = drop-nil a ∙ sym (drop-nil (suc b + a))
  drop-drop a (suc b) (e ∷ q) =
      let step : suc b + a ≡ suc (b + a) = omega arith in rw step (drop-drop a b q)

  drop-snoc :
      (k : ℕ) (q : List (EventRecord Payload)) (e : EventRecord Payload)
      → k ≤ length q
      → drop k q ++ e ∷ [] ≡ drop k (q ++ e ∷ [])
  drop-snoc zero q e h = refl
  drop-snoc (suc k) [] e h = absurd (omega arith)
  drop-snoc (suc k) (f ∷ q) e h = drop-snoc k q e (omega arith)

  -- The store after these payloads: the last of them, as many as it holds.
  abbrev Holds : ℕ → List Payload → EventStore Payload → Type ℓ
  Holds max_size ps st =
      (st.next_id ≡ length ps + 1)
      × (st.events ≡ drop (length ps - max_size) (numbered 1 ps))
      × (st.max_size ≡ max_size)

  push-Holds :
      (max_size : ℕ) (ps : List Payload) (p : Payload) (st : EventStore Payload)
      → length ps + 2 < 2 ^ 64
      → Holds max_size ps st
      → Holds max_size (ps ++ p ∷ []) (push p st).0
  unfolding push enqueue
  push-Holds max_size ps p st small (next, events, sized) =
      let e : EventRecord Payload = record { id = length ps + 1; payload = p } in
      let k : ℕ = length ps - max_size in
      let all : List (EventRecord Payload) = numbered 1 ps in
      let size = length-numbered 1 ps in
      let one_first : 1 + length ps ≡ length ps + 1 = omega arith in
      let longer = length-append {ℓ} ps (p ∷ []) in
      let after : length (drop k all ++ e ∷ []) - max_size ≡ length (ps ++ p ∷ []) - max_size - k =
        omega (arith, length-append (drop k all) (e ∷ []), length-drop k all, size, longer) in
      (
        omega (arith, next, longer),
        rw sized (
            trim-drop max_size (st.events ++ record { id = st.next_id; payload = p } ∷ [])
            ∙ (rw
                (
                  events,
                  next,
                  after,
                  drop-snoc k all e (omega (arith, size)),
                  numbered-snoc 1 ps p,
                  one_first,
                )
                (drop-drop (length (ps ++ p ∷ []) - max_size - k) k (all ++ e ∷ [])
                  ∙ ap (λ n. drop n (all ++ e ∷ [])) (omega (arith, longer))))),
        sized,
      )

  push_all-Holds :
      (max_size : ℕ) (more ps : List Payload) (st : EventStore Payload)
      → length ps + length more + 2 < 2 ^ 64
      → Holds max_size ps st
      → Holds max_size (ps ++ more) (push_all more st)
  push_all-Holds max_size [] ps st small h = rw (append_nil ps) h
  push_all-Holds max_size (p ∷ more) ps st small h = rw (append_assoc ps (p ∷ []) more) (
      push_all-Holds max_size more (ps ++ p ∷ []) (push p st).0
        (omega (arith, length-append ps (p ∷ []))) (push-Holds max_size ps p st (omega arith) h))

  keep-numbered-all :
      (since n : ℕ) (ps : List Payload)
      → since < n
      → keep (λ (e : EventRecord Payload). ltb since e.id) (numbered n ps) ≡ numbered n ps
  keep-numbered-all since n [] h = refl
  keep-numbered-all since n (p ∷ ps) h =
      ground (arith, keep-numbered-all since (n + 1) ps (omega arith))

  -- What a client has seen is a prefix.
  keep-drop-numbered :
      (since n k : ℕ) (ps : List Payload)
      → n + k ≤ since + 1
      → keep (λ (e : EventRecord Payload). ltb since e.id) (drop k (numbered n ps))
        ≡ drop (since + 1 - n) (numbered n ps)
  keep-drop-numbered since n k [] h = rw (drop-nil k, drop-nil (since + 1 - n)) refl
  keep-drop-numbered since n zero (p ∷ ps) h = elim (Bool-cases (ltb since n)) [
    | inl new ↦
        let at_once : since + 1 - n ≡ 0 = ground arith in
        rw at_once (keep-numbered-all since n (p ∷ ps) (ground arith))
    | inr seen ↦
        let one_more : since + 1 - n ≡ suc (since + 1 - (n + 1)) = ground arith in
        rw (seen, one_more) (keep-drop-numbered since (n + 1) zero ps (ground arith))
  ]
  keep-drop-numbered since n (suc k) (p ∷ ps) h =
      let one_more : since + 1 - n ≡ suc (since + 1 - (n + 1)) = omega arith in
      rw one_more (keep-drop-numbered since (n + 1) k ps (omega arith))

  take-all : (n : ℕ) (q : List (EventRecord Payload)) → length q ≤ n → take n q ≡ q
  take-all zero [] h = refl
  take-all zero (e ∷ q) h = absurd (omega arith)
  take-all (suc n) [] h = refl
  take-all (suc n) (e ∷ q) h = ap (λ r. e ∷ r) (take-all n q (omega arith))

  -- A client misses nothing: after any pushes into a new store whose counter has not wrapped around,
  -- when no more than the store holds have come since the number that the client saw last, and the
  -- limit allows as many, `poll` gives exactly the records pushed since, in their order.
  pub poll-push_all :
      (max_size since limit : ℕ) (payloads : List Payload)
      → length payloads + 2 < 2 ^ 64
      → length payloads ≤ since + max_size
      → length payloads ≤ since + limit
      → poll since limit (push_all payloads (new max_size)) ≡ drop since (numbered 1 payloads)
  unfolding poll
  poll-push_all max_size since limit payloads small room allowed =
      let (next, events, sized) =
        push_all-Holds max_size payloads [] (new max_size) (omega arith)
          (refl, sym (drop-nil (0 - max_size)), refl) in
      let whole = keep-drop-numbered since 1 (length payloads - max_size) payloads (omega arith) in
      let from : since + 1 - 1 ≡ since = omega arith in
      rw (events, whole, from)
        (take-all limit (drop since (numbered 1 payloads))
          (omega (arith, length-drop since (numbered 1 payloads), length-numbered 1 payloads)))
