-- ===== src/Lwo/Wire/Roundtrip.antt =====
-- What `deobfuscate` of wire.rs gives back.
use Prim.Native.Nat.{bit_xor, bit_or}
use route_guard.Prelude.{
  ◌∙◌, sym, ◌-◌, true, ℕ, suc, ◌%◌, ◌^◌, ◌≡◌, ◌≤◌, refl, Option, none, some, List, [], ◌∷◌, length,
  take, drop, leb, arith, ap, length-append, take-append-drop, take-append-eq, drop-append-eq,
  length-take, length-drop,
}
use route_guard.Prelude.Bits.{bit_xor-bit_xor, xor_zero}
use route_guard.Lwo.Wire.{
  header_size, get_prefix, header_len, key_byte, xor_bytes, obfuscate, deobfuscate, obfuscation_bit,
  rewrite_header,
}

pub xor_bytes-xor_bytes :
    (key : List ℕ) (i : ℕ) (xs : List ℕ) → xor_bytes key i (xor_bytes key i xs) ≡ xs
unfolding xor_bytes
xor_bytes-xor_bytes key i [] = refl
xor_bytes-xor_bytes key i (b ∷ xs) =
    cc (bit_xor-bit_xor b (key_byte key (i % 32)), xor_bytes-xor_bytes key (suc i) xs)

length-xor_bytes : (key : List ℕ) (i : ℕ) (xs : List ℕ) → length (xor_bytes key i xs) ≡ length xs
unfolding xor_bytes
length-xor_bytes key i [] = refl
length-xor_bytes key i (b ∷ xs) = ground (arith, length-xor_bytes key (suc i) xs)

-- The reserved byte of a header, which WireGuard sends as 0.
abbrev pub second_byte : List ℕ → Option ℕ
second_byte [] = none
second_byte (x ∷ []) = none
second_byte (x ∷ y ∷ rest) = some y

-- A rewrite keeps the length, and a second one with the same key restores the other bytes.
rewrite_header-twice :
    (key : List ℕ) (b c x m : ℕ) (rest : List ℕ)
    → m ≤ length rest
    → rewrite_header key c
        (rewrite_header key b (x ∷ c ∷ rest) (some (suc (suc m))))
        (some (suc (suc m)))
      ≡ x ∷ c ∷ rest
unfolding xor_bytes
rewrite_header-twice key b c x m rest h =
    let n : length (xor_bytes key 2 (take m rest)) ≡ m =
      omega (arith, length-xor_bytes key 2 (take m rest), length-take {0} m rest) in
    rw
      (
        take-append-eq m (xor_bytes key 2 (take m rest)) (drop m rest) n,
        drop-append-eq m (xor_bytes key 2 (take m rest)) (drop m rest) n,
        xor_bytes-xor_bytes key 2 (take m rest),
        bit_xor-bit_xor x (key_byte key 0),
        take-append-drop m rest,
      )
      refl

header_size-ge : (t n : ℕ) → header_size t ≡ some n → 32 ≤ n
unfolding header_size
header_size-ge t n h = ground arith

get_prefix-some :
    (packet : List ℕ) (o : Option ℕ) (n : ℕ)
    → get_prefix packet o ≡ some n
    → (o ≡ some n) × (n ≤ length packet)
get_prefix-some packet none n h = absurd (ground arith)
get_prefix-some packet (some m) n h = ground arith

length-rewrite_header :
    (key : List ℕ) (b x y m : ℕ) (rest : List ℕ)
    → m ≤ length rest
    → length (rewrite_header key b (x ∷ y ∷ rest) (some (suc (suc m)))) ≡ length (x ∷ y ∷ rest)
unfolding xor_bytes
length-rewrite_header key b x y m rest h = omega (
  arith,
  length-append {0} (xor_bytes key 2 (take m rest)) (drop m rest),
  length-xor_bytes key 2 (take m rest),
  length-take {0} m rest,
  length-drop {0} m rest,
)

restored :
    (rand x m : ℕ) (rest key : List ℕ)
    → header_size x ≡ some (suc (suc m))
    → m ≤ length rest
    → deobfuscate (obfuscate rand (x ∷ 0 ∷ rest) key) key ≡ x ∷ 0 ∷ rest
unfolding obfuscate deobfuscate header_len xor_bytes
restored rand x m rest key size fits =
    let long : leb (suc (suc m)) (length (x ∷ 0 ∷ rest)) ≡ true = ground arith in
    let same =
      length-rewrite_header key (bit_or (rand % 255 % 2 ^ 8) obfuscation_bit) x 0 m rest fits in
    rw (xor_zero x, size, long, bit_xor-bit_xor x (key_byte key 0), size, same, long)
      (rewrite_header-twice key (bit_or (rand % 255 % 2 ^ 8) obfuscation_bit) 0 x m rest fits)

-- A message of one of the four types that is as long as its header, with 0 in its second byte,
-- comes back whole, whatever the random number and the key.
pub deobfuscate-obfuscate :
    (rand n : ℕ) (packet key : List ℕ)
    → header_len packet 0 ≡ some n
    → second_byte packet ≡ some 0
    → deobfuscate (obfuscate rand packet key) key ≡ packet
unfolding header_len
deobfuscate-obfuscate rand n [] key h z = absurd (ground arith)
deobfuscate-obfuscate rand n (x ∷ []) key h z = absurd (ground arith)
deobfuscate-obfuscate rand n (x ∷ y ∷ rest) key h z =
    let (size, long) = get_prefix-some (x ∷ y ∷ rest) (header_size (bit_xor x 0)) n h in
    let typed : header_size x ≡ some n = ap header_size (sym (xor_zero x)) ∙ size in
    let big : 32 ≤ n = header_size-ge x n typed in
    let zeroed : y ≡ 0 = ground arith in
    let (m, two_more) : (m : ℕ) × (n ≡ suc (suc m)) = (n - 2, omega arith) in
    rw zeroed (restored rand x m rest key (typed ∙ ap (λ k. some k) two_more) (omega arith))
