-- ===== src/Prelude/Decimal.antt =====
-- `Display` of an unsigned number: its decimal digits.
use Prim.Native.Nat.{ℕ, zero, suc, ◌+◌, ◌/◌, ◌%◌}
use mathlib.Core.List.{[], ◌∷◌, ◌++◌}
use route_guard.Prelude.Tests.{if◌then◌else◌, ltb}
use route_guard.Prelude.Text.{Text}

-- A number has fewer digits than its value and one.
abbrev decimal_digits : ℕ → ℕ → Text
decimal_digits zero n = []
decimal_digits (suc fuel) n =
    let higher = decimal_digits fuel (n / 10) in
    if ltb n 10 then (48 + n) ∷ [] else higher ++ (48 + n % 10) ∷ []

unfoldable pub decimal : ℕ → Text
decimal n = decimal_digits (suc n) n
