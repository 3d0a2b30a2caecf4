-- ===== src/Platform/Dns/Bounds.antt =====
-- `crates/routeguard-platform/src/dns.rs`: how much a response can add, and for how long.
use mathlib.Core.Path.{subst}
use route_guard.Prelude.{
  ℕ, zero, suc, ◌+◌, ◌*◌, ◌≡◌, ◌≤◌, refl, Bool, true, Option, none, some, List, [], ◌∷◌, ◌++◌,
  length, length-append, ltb, nat_beq, min, All, All-append, Bool-cases, inl, inr, arith,
}
use route_guard.Prelude.Text.{Text}
use route_guard.Prelude.Result.{Result, ok, is_ok}
use route_guard.Platform.Dns.{
  Fault, Answer, DnsParsedEvent, event, read_rest, read_fields, read_answer, read_answers,
  read_response, after_question, after_name, parse_dns_response, name_end, clamp,
}
use route_guard.Platform.Dns.Totality.{
  be_at-eq-ok, skip_qname-eq-ok, parse_qname-eq-ok, read_data-eq-ok,
}

abbrev pub InBounds : ℕ → ℕ → Answer → Type 0
InBounds lo hi r = (min lo hi ≤ r.1) × (r.1 ≤ hi)

All-clamp :
    (lo hi ttl : ℕ) (found : List Answer)
    → All (λ (r : Answer). r.1 ≡ clamp lo hi ttl) found
    → All (InBounds lo hi) found
All-clamp lo hi ttl [] h = tt
All-clamp lo hi ttl (r ∷ found) h =
    ((omega (arith, h.0), omega (arith, h.0)), All-clamp lo hi ttl found h.1)

-- A turn of the loop: its records take at least fourteen bytes each, and the next answer starts
-- inside the response.
abbrev IsTurn : Text → ℕ → ℕ → ℕ → Option (ℕ × List Answer) → Type 0
IsTurn response lo hi off none = Unit
IsTurn response lo hi off (some (next, found)) =
    (off + 14 * length found ≤ next) × (next ≤ length response) × All (InBounds lo hi) found

read_rest-eq-ok :
    (response : Text) (lo hi off rtype rdlen ttl start : ℕ)
    → start + 10 ≤ off
    → (turn : Option (ℕ × List Answer)) × (read_rest response lo hi off rtype rdlen ttl ≡ ok turn)
      × IsTurn response lo hi start turn
unfolding read_rest
read_rest-eq-ok response lo hi off rtype rdlen ttl start h =
    elim (Bool-cases (ltb (length response) (off + rdlen))) [
      | inl long ↦ (none, rw long refl, tt)
      | inr short ↦
          let (found, read, size, lifetimes) =
            read_data-eq-ok response lo hi off rtype rdlen (clamp lo hi ttl) (ground arith) in
          (
            some (off + rdlen, found),
            rw (short, read) refl,
            (omega arith, ground arith, All-clamp lo hi ttl found lifetimes),
          )
    ]

read_fields-eq-ok :
    (response : Text) (lo hi off start : ℕ)
    → start ≤ off
    → (turn : Option (ℕ × List Answer)) × (read_fields response lo hi off ≡ ok turn)
      × IsTurn response lo hi start turn
unfolding read_fields
read_fields-eq-ok response lo hi off start h =
    elim (Bool-cases (ltb (length response) (off + 10))) [
      | inl long ↦ (none, rw long refl, tt)
      | inr short ↦
          let (rtype, at_type) = be_at-eq-ok response off 2 (ground arith) in
          let (ttl, at_ttl) = be_at-eq-ok response (off + 4) 4 (ground arith) in
          let (rdlen, at_len) = be_at-eq-ok response (off + 8) 2 (ground arith) in
          let (turn, read, good) =
            read_rest-eq-ok response lo hi (off + 10) rtype rdlen ttl start (omega arith) in
          (turn, rw (short, at_type, at_ttl, at_len) read, good)
    ]

read_answer-eq-ok :
    (response : Text) (lo hi off : ℕ)
    → (turn : Option (ℕ × List Answer)) × (read_answer response lo hi off ≡ ok turn)
      × IsTurn response lo hi off turn
unfolding read_answer
read_answer-eq-ok response lo hi off =
    let (name, skipped, further) = skip_qname-eq-ok response off in
    let (turn, read, good) = read_fields-eq-ok response lo hi (name_end off name) off further in
    (turn, rw skipped read, good)

-- However many answers the response announces, the loop ends with the records that fit into it.
pub read_answers-eq-ok :
    (n : ℕ) (response : Text) (lo hi off : ℕ) (records : List Answer)
    → off ≤ length response
    → 14 * length records ≤ off
    → All (InBounds lo hi) records
    → (all : List Answer) × (read_answers n response lo hi off records ≡ ok all)
      × (14 * length all ≤ length response)
      × All (InBounds lo hi) all
unfolding read_answers
read_answers-eq-ok zero response lo hi off records inside few good =
    (records, refl, omega arith, good)
read_answers-eq-ok (suc n) response lo hi off records inside few good =
    let (turn, read, good_turn) = read_answer-eq-ok response lo hi off in
    (elim turn
        as (λ t.
          read_answer response lo hi off ≡ ok t
          → IsTurn response lo hi off t
          → (all : List Answer) × (read_answers (suc n) response lo hi off records ≡ ok all)
            × (14 * length all ≤ length response)
            × All (InBounds lo hi) all) [
              | none ↦ λ stop t. (records, rw stop refl, omega arith, good)
              | some (next, found) ↦ λ go t.
                  let (all, rest, size, bounds) =
                    read_answers-eq-ok n response lo hi next (records ++ found) t.1
                      (omega (arith, t.0, length-append records found))
                      (All-append (InBounds lo hi) records found good t.2) in
                  (all, rw go rest, size, bounds)
            ])
      read good_turn

-- What a parsed response promises.
abbrev pub IsBounded : Text → ℕ → ℕ → Option DnsParsedEvent → Type 0
IsBounded response lo hi none = Unit
IsBounded response lo hi (some e) =
    (1 ≤ length e.records)
    × (14 * length e.records ≤ length response)
    × All (InBounds lo hi) e.records

event-IsBounded :
    (response domain : Text) (lo hi : ℕ) (records : List Answer)
    → 14 * length records ≤ length response
    → All (InBounds lo hi) records
    → IsBounded response lo hi (event domain records)
event-IsBounded response domain lo hi [] h good = tt
event-IsBounded response domain lo hi (r ∷ records) h good = (omega arith, h, good)

read_response-eq-ok :
    (response domain : Text) (lo hi off : ℕ)
    → 12 ≤ length response
    → (parsed : Option DnsParsedEvent) × (read_response response domain lo hi off ≡ ok parsed)
      × IsBounded response lo hi parsed
unfolding read_response
read_response-eq-ok response domain lo hi off h =
    elim (Bool-cases (ltb (length response) (off + 10))) [
      | inl long ↦ (none, rw long refl, tt)
      | inr short ↦
          let (count, counted) = be_at-eq-ok response 6 2 (omega arith) in
          let (records, read, size, bounds) =
            read_answers-eq-ok count response lo hi off [] (ground arith) (omega arith) tt in
          (
            event domain records,
            rw (short, counted, read) refl,
            event-IsBounded response domain lo hi records size bounds,
          )
    ]

-- An outcome that is no fault, and bounded.
abbrev Succeeds : Text → ℕ → ℕ → Result Fault (Option DnsParsedEvent) → Type 0
Succeeds response lo hi r =
    (parsed : Option DnsParsedEvent) × (r ≡ ok parsed) × IsBounded response lo hi parsed

after_question-Succeeds :
    (response domain : Text) (lo hi : ℕ) (question : Option (ℕ × Bool))
    → 12 ≤ length response
    → Succeeds response lo hi (after_question response domain lo hi question)
unfolding after_question
after_question-Succeeds response domain lo hi none h = (none, refl, tt)
after_question-Succeeds response domain lo hi (some (off, c)) h =
    read_response-eq-ok response domain lo hi (off + 4) h

after_name-Succeeds :
    (query response : Text) (lo hi : ℕ) (name : Option Text)
    → 12 ≤ length response
    → Succeeds response lo hi (after_name query response lo hi name)
unfolding after_name
after_name-Succeeds query response lo hi none h = (none, refl, tt)
after_name-Succeeds query response lo hi (some domain) h =
    let (question, skipped, further) = skip_qname-eq-ok query 12 in
    let (parsed, read, bounds) = after_question-Succeeds response domain lo hi question h in
    (parsed, rw skipped read, bounds)

parse_dns_response-Succeeds :
    (query response : Text) (lo hi : ℕ)
    → Succeeds response lo hi (parse_dns_response query response lo hi)
unfolding parse_dns_response
parse_dns_response-Succeeds query response lo hi = elim (Bool-cases (ltb (length query) 12)) [
  | inl short ↦ (none, rw short refl, tt)
  | inr query_long ↦ elim (Bool-cases (ltb (length response) 12)) [
    | inl short ↦ (none, rw (query_long, short) refl, tt)
    | inr response_long ↦
        let (count, counted) = be_at-eq-ok query 4 2 (ground arith) in
        elim (Bool-cases (nat_beq count 0)) [
          | inl empty ↦ (none, rw (query_long, response_long, counted, empty) refl, tt)
          | inr asked ↦
              let (domain, named) = parse_qname-eq-ok query 12 in
              let (parsed, read, bounds) =
                after_name-Succeeds query response lo hi domain (ground arith) in
              (parsed, rw (query_long, response_long, counted, asked, named) read, bounds)
        ]
  ]
]

-- The parser ends on all bytes: its loops over names have fuel enough, and no index is past the end
-- of its message, so that there is an outcome and never a fault.
pub is_ok-parse_dns_response :
    (query response : Text) (lo hi : ℕ) → is_ok (parse_dns_response query response lo hi) ≡ true
is_ok-parse_dns_response query response lo hi =
    let (parsed, read, bounds) = parse_dns_response-Succeeds query response lo hi in rw read refl

-- A parsed response holds a record at least, and so many that fourteen bytes of the response stand
-- for each; every lifetime is at most the greatest, and at least the least or the greatest, whichever
-- is smaller.
pub parse_dns_response-bounds :
    (query response : Text) (lo hi : ℕ) (e : DnsParsedEvent)
    → parse_dns_response query response lo hi ≡ ok (some e)
    → (1 ≤ length e.records)
      × (14 * length e.records ≤ length response)
      × All (InBounds lo hi) e.records
parse_dns_response-bounds query response lo hi e h =
    let (parsed, read, bounds) = parse_dns_response-Succeeds query response lo hi in
    let same : parsed ≡ some e = ground arith in subst (λ p. IsBounded response lo hi p) same bounds
