-- ===== src/Lwo/Wire.antt =====
-- `crates/routeguard-lwo/src/wire.rs`: the header of a WireGuard message under a key. A packet is
-- the list of its bytes; a call that returns early leaves it as it is.
pub mod Roundtrip
use Prim.Native.Nat.{bit_xor, bit_or}
use route_guard.Prelude.{
  ℕ, zero, suc, ◌+◌, ◌%◌, ◌^◌, Option, none, some, List, [], ◌∷◌, ◌++◌, length, take, drop, leb,
  nat_beq, if◌then◌else◌,
}

-- `header_type ^ key_byte` is `HANDSHAKE_INIT`, `HANDSHAKE_RESP`, `COOKIE_REPLY` or `DATA`.
unfoldable pub header_size : ℕ → Option ℕ
header_size t =
    if nat_beq t 1
    then some 148
    else if nat_beq t 2
    then some 92
    else if nat_beq t 3
    then some 64
    else if nat_beq t 4
    then some 32
    else none

-- `packet.get_mut(..n)`
abbrev pub get_prefix : List ℕ → Option ℕ → Option ℕ
get_prefix packet none = none
get_prefix packet (some n) = if leb n (length packet) then some n else none

-- `header_mut`: how long the header is, the slice being `take n packet`.
unfoldable pub header_len : List ℕ → ℕ → Option ℕ
header_len [] key_byte = none
header_len (b ∷ packet) key_byte = get_prefix (b ∷ packet) (header_size (bit_xor b key_byte))

-- The key is `[u8; 32]`, so that `i % 32` is never past its end.
unfoldable pub key_byte : List ℕ → ℕ → ℕ
key_byte [] i = 0
key_byte (b ∷ key) zero = b
key_byte (b ∷ key) (suc i) = key_byte key i

-- `xor_bytes`, from the index `i` on.
unfoldable pub xor_bytes : List ℕ → ℕ → List ℕ → List ℕ
xor_bytes key i [] = []
xor_bytes key i (b ∷ rest) = bit_xor b (key_byte key (i % 32)) ∷ xor_bytes key (suc i) rest

-- `header_bytes[1] = b`
abbrev pub set_second : ℕ → List ℕ → List ℕ
set_second b [] = []
set_second b (x ∷ []) = x ∷ []
set_second b (x ∷ y ∷ rest) = x ∷ b ∷ rest

abbrev pub obfuscation_bit : ℕ
obfuscation_bit = 128

abbrev pub rewrite_header : List ℕ → ℕ → List ℕ → Option ℕ → List ℕ
rewrite_header key b packet none = packet
rewrite_header key b packet (some n) =
    set_second b (xor_bytes key 0 (take n packet)) ++ drop n packet

-- `obfuscate`, where `rand` is what `rng.next_u32()` gives.
unfoldable pub obfuscate : ℕ → List ℕ → List ℕ → List ℕ
unfolding header_len xor_bytes
obfuscate rand packet key =
    rewrite_header key (bit_or (rand % 255 % 2 ^ 8) obfuscation_bit) packet (header_len packet 0)

-- `deobfuscate`
unfoldable pub deobfuscate : List ℕ → List ℕ → List ℕ
unfolding header_len xor_bytes key_byte
deobfuscate packet key = rewrite_header key 0 packet (header_len packet (key_byte key 0))
