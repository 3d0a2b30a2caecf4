-- ===== src/Platform/Dns.antt =====
-- `crates/routeguard-platform/src/dns.rs`: what `parse_dns_response` reads from the bytes of a query
-- and of a response. An index past the end of a message is a fault, as it is a panic there; no
-- offset passes the machine's word, since a `Vec` is shorter than half of it. The loops over names
-- run on fuel.
pub mod Totality
pub mod Bounds
use Prim.Native.Nat.{bit_and}
use route_guard.Prelude.{
  ℕ, zero, suc, ◌+◌, ◌*◌, ◌&&◌, Bool, true, false, Option, none, some, List, [], ◌∷◌, ◌++◌, length,
  ltb, nat_beq, if◌then◌else◌, min, max, map,
}
use route_guard.Prelude.Text.{Text}
use route_guard.Prelude.Utf8.{from_utf8_lossy}
use route_guard.Prelude.Result.{Result, ok, err, ◌>>=◌, ◌>>◌}
use route_guard.Core.Net.{IpAddr, v4, v6}

pub data Fault : Type 0 where
  out_of_range : Fault
  out_of_fuel : Fault

-- `msg[i]`
unfoldable pub byte_at : Text → ℕ → Result Fault ℕ
byte_at [] i = err out_of_range
byte_at (b ∷ msg) zero = ok b
byte_at (b ∷ msg) (suc i) = byte_at msg i

-- `[msg[off], msg[off + 1], ...]`, and `msg[off..off + n]`
unfoldable pub bytes_at : Text → ℕ → ℕ → Result Fault Text
bytes_at msg off zero = ok []
bytes_at msg off (suc n) = do b ← byte_at msg off; rest ← bytes_at msg (suc off) n; ok (b ∷ rest)

-- `from_be_bytes`
abbrev pub be_bytes : ℕ → Text → ℕ
be_bytes acc [] = acc
be_bytes acc (b ∷ s) = be_bytes (acc * 256 + b) s

unfoldable pub be_at : Text → ℕ → ℕ → Result Fault ℕ
unfolding bytes_at
be_at msg off n = do s ← bytes_at msg off n; ok (be_bytes 0 s)

abbrev pub is_pointer : ℕ → Bool
is_pointer len = nat_beq (bit_and len 192) 192

-- The loop of `skip_qname`.
unfoldable pub skip_loop : ℕ → Text → ℕ → Result Fault (Option (ℕ × Bool))
unfolding byte_at
skip_loop zero msg off = err out_of_fuel
skip_loop (suc fuel) msg off =
    if ltb off (length msg)
    then (byte_at msg off >>= λ len.
        let rest = skip_loop fuel msg (off + suc len) in
        if nat_beq len 0
        then ok (some (off + 1, false))
        else if is_pointer len
        then ok (some (off + 2, true))
        else rest)
    else ok none

unfoldable pub skip_qname : Text → ℕ → Result Fault (Option (ℕ × Bool))
unfolding skip_loop
skip_qname msg off = skip_loop (suc (length msg)) msg off

-- The loop of `parse_qname`.
unfoldable pub qname_loop : ℕ → Text → ℕ → List Text → Result Fault (Option (List Text))
unfolding byte_at bytes_at from_utf8_lossy
qname_loop zero msg off labels = err out_of_fuel
qname_loop (suc fuel) msg off labels =
    if ltb off (length msg)
    then (byte_at msg off >>= λ len.
        if nat_beq len 0
        then ok (some labels)
        else if is_pointer len
        then ok (some labels)
        else if ltb (length msg) (suc off + len)
        then ok none
        else (bytes_at msg (suc off) len >>= λ label.
            qname_loop fuel msg (suc off + len) (labels ++ from_utf8_lossy label ∷ [])))
    else ok (some labels)

-- `labels.join(".")`
abbrev pub join : List Text → Text
join [] = []
join (label ∷ []) = label
join (label ∷ more ∷ labels) = label ++ 46 ∷ join (more ∷ labels)

abbrev pub joined : Option (List Text) → Option Text
joined none = none
joined (some []) = none
joined (some (label ∷ labels)) = some (join (label ∷ labels))

unfoldable pub parse_qname : Text → ℕ → Result Fault (Option Text)
unfolding qname_loop
parse_qname msg off = do labels ← qname_loop (suc (length msg)) msg off []; ok (joined labels)

abbrev pub Answer : Type 0
Answer = IpAddr × ℕ

pub record DnsParsedEvent : Type 0 where
  pub domain : Text
  pub records : List Answer

abbrev pub parse_cname_chain : Text → Text → ℕ → ℕ → ℕ → Option (List Answer)
parse_cname_chain response target min_ttl max_ttl depth = none

abbrev pub or_empty : Option (List Answer) → List Answer
or_empty none = []
or_empty (some found) = found

abbrev pub cname_records : Text → ℕ → ℕ → Option Text → List Answer
cname_records response min_ttl max_ttl none = []
cname_records response min_ttl max_ttl (some cname) =
    or_empty (parse_cname_chain response cname min_ttl max_ttl 5)

-- The `match rtype`: the records of one answer, whose data stand at `off`.
unfoldable pub read_data : Text → ℕ → ℕ → ℕ → ℕ → ℕ → ℕ → Result Fault (List Answer)
unfolding be_at parse_qname
read_data response min_ttl max_ttl off rtype rdlen ttl =
    if nat_beq rtype 1 && nat_beq rdlen 4
    then (be_at response off 4 >>= λ ip. ok ((v4 ip, ttl) ∷ []))
    else if nat_beq rtype 28 && nat_beq rdlen 16
    then (be_at response off 16 >>= λ ip. ok ((v6 ip, ttl) ∷ []))
    else if nat_beq rtype 5 && ltb 0 rdlen
    then (parse_qname response off >>= λ cname. ok (cname_records response min_ttl max_ttl cname))
    else ok []

abbrev pub name_end : ℕ → Option (ℕ × Bool) → ℕ
name_end off none = off
name_end off (some (name_off, compressed)) = name_off

-- `ttl.max(min_ttl).min(max_ttl)`
abbrev pub clamp : ℕ → ℕ → ℕ → ℕ
clamp min_ttl max_ttl ttl = min (max ttl min_ttl) max_ttl

-- The data of an answer at `off`, and where the next one starts; `none` is the `break`.
unfoldable pub read_rest : Text → ℕ → ℕ → ℕ → ℕ → ℕ → ℕ → Result Fault (Option (ℕ × List Answer))
unfolding read_data
read_rest response min_ttl max_ttl off rtype rdlen ttl =
    if ltb (length response) (off + rdlen)
    then ok none
    else (read_data response min_ttl max_ttl off rtype rdlen (clamp min_ttl max_ttl ttl)
        >>= λ found. ok (some (off + rdlen, found)))

-- The fixed part of an answer at `off`.
unfoldable pub read_fields : Text → ℕ → ℕ → ℕ → Result Fault (Option (ℕ × List Answer))
unfolding be_at read_rest
read_fields response min_ttl max_ttl off =
    if ltb (length response) (off + 10)
    then ok none
    else (be_at response off 2 >>= λ rtype. be_at response (off + 4) 4 >>= λ ttl.
        be_at response (off + 8) 2 >>= λ rdlen.
        read_rest response min_ttl max_ttl (off + 10) rtype rdlen ttl)

-- One turn of the loop over the answers.
unfoldable pub read_answer : Text → ℕ → ℕ → ℕ → Result Fault (Option (ℕ × List Answer))
unfolding skip_qname read_fields
read_answer response min_ttl max_ttl off = do
  name ← skip_qname response off
  read_fields response min_ttl max_ttl (name_end off name)

unfoldable pub read_answers : ℕ → Text → ℕ → ℕ → ℕ → List Answer → Result Fault (List Answer)
unfolding read_answer
read_answers zero response min_ttl max_ttl off records = ok records
read_answers (suc n) response min_ttl max_ttl off records =
    read_answer response min_ttl max_ttl off >>= λ turn. elim turn [
      | none ↦ ok records
      | some (next, found) ↦ read_answers n response min_ttl max_ttl next (records ++ found)
    ]

abbrev pub event : Text → List Answer → Option DnsParsedEvent
event domain [] = none
event domain (r ∷ records) = some (record { domain = domain; records = r ∷ records })

-- From the end of the question on.
unfoldable pub read_response : Text → Text → ℕ → ℕ → ℕ → Result Fault (Option DnsParsedEvent)
unfolding be_at read_answers
read_response response domain min_ttl max_ttl off =
    if ltb (length response) (off + 10) then ok none else (do
      ans_count ← be_at response 6 2
      records ← read_answers ans_count response min_ttl max_ttl off []
      ok (event domain records))

-- `skip_qname(query, 12)?.0 + 4`
unfoldable pub after_question :
    Text → Text → ℕ → ℕ → Option (ℕ × Bool) → Result Fault (Option DnsParsedEvent)
unfolding read_response
after_question response domain min_ttl max_ttl none = ok none
after_question response domain min_ttl max_ttl (some (off, compressed)) =
    read_response response domain min_ttl max_ttl (off + 4)

-- `parse_qname(query, 12)?`
unfoldable pub after_name : Text → Text → ℕ → ℕ → Option Text → Result Fault (Option DnsParsedEvent)
unfolding skip_qname after_question
after_name query response min_ttl max_ttl none = ok none
after_name query response min_ttl max_ttl (some domain) =
    skip_qname query 12 >>= after_question response domain min_ttl max_ttl

unfoldable pub parse_dns_response : Text → Text → ℕ → ℕ → Result Fault (Option DnsParsedEvent)
unfolding be_at parse_qname after_name
parse_dns_response query response min_ttl max_ttl =
    if ltb (length query) 12
    then ok none
    else if ltb (length response) 12
    then ok none
    else (be_at query 4 2 >>= λ qd_count.
        if nat_beq qd_count 0
        then ok none
        else parse_qname query 12 >>= after_name query response min_ttl max_ttl)

pub record DnsResolvedEvent : Type 0 where
  pub domain : Text
  pub ips : List IpAddr
  pub ttl_secs : ℕ

abbrev pub first_ttl : List Answer → ℕ
first_ttl [] = 300
first_ttl ((ip, ttl) ∷ records) = ttl

-- `From<DnsParsedEvent> for DnsResolvedEvent`
abbrev pub resolved_event : DnsParsedEvent → DnsResolvedEvent
resolved_event e = record {
  domain = e.domain;
  ips = map (λ (r : Answer). r.0) e.records;
  ttl_secs = first_ttl e.records;
}
