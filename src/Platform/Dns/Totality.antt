-- ===== src/Platform/Dns/Totality.antt =====
-- `crates/routeguard-platform/src/dns.rs`: the parser ends and stays inside its messages.
use route_guard.Prelude.{
  ℕ, zero, suc, ◌+◌, ◌≡◌, ◌≤◌, ◌<◌, refl, ap, ◌&&◌, ◌*◌, All, Bool, true, false, Option, none, some,
  List, [], ◌∷◌, ◌++◌, length, ltb, nat_beq, Bool-cases, inl, inr, arith,
}
use route_guard.Prelude.Text.{Text}
use route_guard.Core.Net.{v4, v6}
use route_guard.Prelude.Utf8.{from_utf8_lossy}
use route_guard.Prelude.Result.{ok, ◌>>=◌}
use route_guard.Platform.Dns.{
  Answer, byte_at, bytes_at, be_at, is_pointer, skip_loop, skip_qname, qname_loop, parse_qname,
  read_data, name_end, cname_records, joined, be_bytes,
}

pub byte_at-eq-ok : (msg : Text) (i : ℕ) → i < length msg → (b : ℕ) × (byte_at msg i ≡ ok b)
unfolding byte_at
byte_at-eq-ok [] i h = absurd (omega arith)
byte_at-eq-ok (b ∷ msg) zero h = (b, refl)
byte_at-eq-ok (b ∷ msg) (suc i) h = byte_at-eq-ok msg i (omega arith)

pub bytes_at-eq-ok :
    (msg : Text) (off n : ℕ)
    → off + n ≤ length msg
    → (s : Text) × (bytes_at msg off n ≡ ok s) × (length s ≡ n)
unfolding bytes_at
bytes_at-eq-ok msg off zero h = ([], refl, refl)
bytes_at-eq-ok msg off (suc n) h =
    let (b, first) = byte_at-eq-ok msg off (omega arith) in
    let (s, others, size) = bytes_at-eq-ok msg (suc off) n (omega arith) in
    (b ∷ s, rw (first, others) refl, omega arith)

pub be_at-eq-ok :
    (msg : Text) (off n : ℕ) → off + n ≤ length msg → (v : ℕ) × (be_at msg off n ≡ ok v)
unfolding be_at
be_at-eq-ok msg off n h =
    let (s, found, size) = bytes_at-eq-ok msg off n h in
    (be_bytes 0 s, ap (λ r. r >>= λ t. ok (be_bytes 0 t)) found)

name_end_mono :
    (a b : ℕ) (name : Option (ℕ × Bool)) → a ≤ b → b ≤ name_end b name → a ≤ name_end a name
name_end_mono a b none h g = omega arith
name_end_mono a b (some (x, c)) h g = omega arith

-- Every turn of `skip_qname` moves on, so that as much fuel as there are bytes left is enough; the
-- end of the name is not before its start.
skip_loop-eq-ok :
    (fuel : ℕ) (msg : Text) (off : ℕ)
    → length msg ≤ off + fuel
    → (name : Option (ℕ × Bool)) × (skip_loop (suc fuel) msg off ≡ ok name)
      × (off ≤ name_end off name)
unfolding skip_loop
skip_loop-eq-ok zero msg off h = (none, ground arith, omega arith)
skip_loop-eq-ok (suc fuel) msg off h = elim (Bool-cases (ltb off (length msg))) [
  | inl inside ↦
      let (len, found) = byte_at-eq-ok msg off (ground arith) in
      elim (Bool-cases (nat_beq len 0)) [
        | inl last ↦ (some (off + 1, false), rw (inside, found, last) refl, omega arith)
        | inr more ↦ elim (Bool-cases (is_pointer len)) [
          | inl pointer ↦
              (some (off + 2, true), rw (inside, found, more, pointer) refl, omega arith)
          | inr label ↦
              let (name, rest, further) = skip_loop-eq-ok fuel msg (off + suc len) (omega arith) in
              (
                name,
                rw (inside, found, more, label) rest,
                name_end_mono off (off + suc len) name (omega arith) further,
              )
        ]
      ]
  | inr outside ↦ (none, rw outside refl, omega arith)
]

pub skip_qname-eq-ok :
    (msg : Text) (off : ℕ)
    → (name : Option (ℕ × Bool)) × (skip_qname msg off ≡ ok name) × (off ≤ name_end off name)
unfolding skip_qname
skip_qname-eq-ok msg off = skip_loop-eq-ok (length msg) msg off (omega arith)

qname_loop-eq-ok :
    (fuel : ℕ) (msg : Text) (off : ℕ) (labels : List Text)
    → length msg ≤ off + fuel
    → (found : Option (List Text)) × (qname_loop (suc fuel) msg off labels ≡ ok found)
unfolding qname_loop
qname_loop-eq-ok zero msg off labels h = (some labels, ground arith)
qname_loop-eq-ok (suc fuel) msg off labels h = elim (Bool-cases (ltb off (length msg))) [
  | inl inside ↦
      let (len, found) = byte_at-eq-ok msg off (ground arith) in
      elim (Bool-cases (nat_beq len 0)) [
        | inl last ↦ (some labels, rw (inside, found, last) refl)
        | inr more ↦ elim (Bool-cases (is_pointer len)) [
          | inl pointer ↦ (some labels, rw (inside, found, more, pointer) refl)
          | inr plain ↦ elim (Bool-cases (ltb (length msg) (suc off + len))) [
            | inl long ↦ (none, rw (inside, found, more, plain, long) refl)
            | inr short ↦
                let (label, read, size) = bytes_at-eq-ok msg (suc off) len (ground arith) in
                let (names, rest) =
                  qname_loop-eq-ok fuel msg (suc off + len) (labels ++ from_utf8_lossy label ∷ [])
                    (omega arith) in
                (names, rw (inside, found, more, plain, short, read) rest)
          ]
        ]
      ]
  | inr outside ↦ (some labels, rw outside refl)
]

pub parse_qname-eq-ok :
    (msg : Text) (off : ℕ) → (name : Option Text) × (parse_qname msg off ≡ ok name)
unfolding parse_qname
parse_qname-eq-ok msg off =
    let (labels, found) = qname_loop-eq-ok (length msg) msg off [] (omega arith) in
    (joined labels, ap (λ r. r >>= λ l. ok (joined l)) found)

cname_records-eq-empty :
    (response : Text) (lo hi rdlen ttl : ℕ) (name : Option Text)
    → (14 * length (cname_records response lo hi name) ≤ 10 + rdlen)
      × All (λ (r : Answer). r.1 ≡ ttl) (cname_records response lo hi name)
cname_records-eq-empty response lo hi rdlen ttl none = (omega arith, tt)
cname_records-eq-empty response lo hi rdlen ttl (some name) = (omega arith, tt)

pub read_data-eq-ok :
    (response : Text) (lo hi off rtype rdlen ttl : ℕ)
    → off + rdlen ≤ length response
    → (found : List Answer) × (read_data response lo hi off rtype rdlen ttl ≡ ok found)
      × (14 * length found ≤ 10 + rdlen)
      × All (λ (r : Answer). r.1 ≡ ttl) found
unfolding read_data
read_data-eq-ok response lo hi off rtype rdlen ttl h =
    elim (Bool-cases (nat_beq rtype 1 && nat_beq rdlen 4)) [
      | inl a ↦
          let (ip, read) = be_at-eq-ok response off 4 (ground arith) in
          ((v4 ip, ttl) ∷ [], rw (a, read) refl, ground arith, (refl, tt))
      | inr not_a ↦ elim (Bool-cases (nat_beq rtype 28 && nat_beq rdlen 16)) [
        | inl aaaa ↦
            let (ip, read) = be_at-eq-ok response off 16 (ground arith) in
            ((v6 ip, ttl) ∷ [], rw (not_a, aaaa, read) refl, ground arith, (refl, tt))
        | inr not_aaaa ↦ elim (Bool-cases (nat_beq rtype 5 && ltb 0 rdlen)) [
          | inl cname ↦
              let (name, read) = parse_qname-eq-ok response off in
              let (short, same) = cname_records-eq-empty response lo hi rdlen ttl name in
              (
                cname_records response lo hi name,
                rw (not_a, not_aaaa, cname, read) refl,
                short,
                same,
              )
          | inr other ↦ ([], rw (not_a, not_aaaa, other) refl, omega arith, tt)
        ]
      ]
    ]
