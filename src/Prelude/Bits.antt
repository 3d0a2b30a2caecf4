-- ===== src/Prelude/Bits.antt =====
-- `^` and `|` on machine words are the native `bit_xor` and `bit_or`. Twice the same `^` is nothing.
use Prim.Native.Nat.{
  ℕ, zero, suc, ◌+◌, ◌*◌, ◌/◌, ◌%◌, ◌≤◌, ◌<◌, digits, differ, bit_xor, bit_xor-bitwise,
}
use mathlib.Core.Path.{◌≡◌, refl}
use mathlib.Core.Logic.{◌⊎◌}
use native.Mathlib.Omega.{arith}

abbrev xor_digits : ℕ → ℕ → ℕ → ℕ
xor_digits n a b = digits (λ b. b) differ n a b

xor_digits-fuel : (n m a b : ℕ) → a ≤ n → a ≤ m → xor_digits n a b ≡ xor_digits m a b
xor_digits-fuel zero zero a b h g = refl
xor_digits-fuel zero (suc m) zero b h g = refl
xor_digits-fuel (suc n) zero zero b h g = refl
xor_digits-fuel (suc n) (suc m) zero b h g = refl
xor_digits-fuel (suc n) (suc m) (suc a) b h g =
    ground (arith, xor_digits-fuel n m (suc a / 2) (b / 2) (omega arith) (omega arith))
xor_digits-fuel zero m (suc a) b h g = absurd (omega arith)
xor_digits-fuel (suc n) zero (suc a) b h g = absurd (omega arith)

bit_xor-digits : (a b : ℕ) → bit_xor a b ≡ xor_digits a a b
bit_xor-digits a b = bit_xor-bitwise a b

zero_xor : (b : ℕ) → bit_xor 0 b ≡ b
zero_xor b = bit_xor-digits 0 b

-- The lowest digit and the others.
bit_xor-step : (a b : ℕ) → bit_xor a b ≡ bit_xor (a / 2) (b / 2) * 2 + differ (a % 2) (b % 2)
bit_xor-step zero b = omega (arith, zero_xor b, zero_xor (b / 2))
bit_xor-step (suc a) b = omega (
  arith,
  bit_xor-digits (suc a) b,
  bit_xor-digits (suc a / 2) (b / 2),
  xor_digits-fuel a (suc a / 2) (suc a / 2) (b / 2) (omega arith) (omega arith),
)

differ-differ : (x y : ℕ) → x < 2 → y < 2 → (differ (differ x y) y ≡ x) × (differ x y < 2)
differ-differ zero zero h g = (refl, omega arith)
differ-differ zero (suc zero) h g = (refl, omega arith)
differ-differ (suc zero) zero h g = (refl, omega arith)
differ-differ (suc zero) (suc zero) h g = (refl, omega arith)
differ-differ (suc (suc x)) y h g = absurd (omega arith)
differ-differ zero (suc (suc y)) h g = absurd (omega arith)
differ-differ (suc zero) (suc (suc y)) h g = absurd (omega arith)

bit_xor-bounded : (n a b : ℕ) → a ≤ n → b ≤ n → bit_xor (bit_xor a b) b ≡ a
bit_xor-bounded zero zero zero h g = rw (zero_xor 0, zero_xor 0) refl
bit_xor-bounded zero (suc a) b h g = absurd (omega arith)
bit_xor-bounded zero zero (suc b) h g = absurd (omega arith)
bit_xor-bounded (suc n) a b h g =
    let y : ℕ = bit_xor (a / 2) (b / 2) in
    let d : ℕ = differ (a % 2) (b % 2) in
    let (same, small) = differ-differ (a % 2) (b % 2) (omega arith) (omega arith) in
    let half : (y * 2 + d) / 2 ≡ y = omega arith in
    let rest : (y * 2 + d) % 2 ≡ d = omega arith in
    rw
      (
        bit_xor-step a b,
        bit_xor-step (y * 2 + d) b,
        half,
        rest,
        same,
        bit_xor-bounded n (a / 2) (b / 2) (omega arith) (omega arith),
      )
      (omega arith)

xor_zero-bounded : (n a : ℕ) → a ≤ n → bit_xor a 0 ≡ a
xor_zero-bounded zero zero h = zero_xor 0
xor_zero-bounded zero (suc a) h = absurd (omega arith)
xor_zero-bounded (suc n) zero h = zero_xor 0
xor_zero-bounded (suc n) (suc a) h =
    let small : (suc a % 2 ≡ 0) ⊎ (suc a % 2 ≡ 1) = ground arith in
    let digit : differ (suc a % 2) 0 ≡ suc a % 2 = ground arith in
    rw (bit_xor-step (suc a) 0, digit, xor_zero-bounded n (suc a / 2) (omega arith)) (omega arith)

pub xor_zero : (a : ℕ) → bit_xor a 0 ≡ a
xor_zero a = xor_zero-bounded a a (omega arith)

pub bit_xor-bit_xor : (a b : ℕ) → bit_xor (bit_xor a b) b ≡ a
bit_xor-bit_xor a b = bit_xor-bounded (a + b) a b (omega arith) (omega arith)
