-- ===== src/Prelude/Utf8.antt =====
-- `String::from_utf8_lossy`: every maximal part of the bytes that is no UTF-8 becomes U+FFFD.
use Prim.Native.Nat.{ℕ, zero, suc, ◌<◌}
use mathlib.Core.Path.{◌≡◌, refl}
use mathlib.Core.Bool.{Bool, ◌&&◌}
use mathlib.Core.List.{[], ◌∷◌, ◌++◌}
use native.Mathlib.Omega.{arith}
use route_guard.Prelude.Tests.{if◌then◌else◌, leb, ltb, nat_beq}
use route_guard.Prelude.Lists.{All}
use route_guard.Prelude.Text.{Text}

-- Between two characters, or inside one that still needs `1 + more` bytes, the next of them from
-- `low` to `high`.
pub data Decoder : Type 0 where
  idle : Decoder
  pending : Text → ℕ → ℕ → ℕ → Decoder

abbrev replacement : Text
replacement = 239 ∷ 191 ∷ 189 ∷ []

abbrev between : ℕ → ℕ → ℕ → Bool
between a b c = leb a c && leb c b

-- The first byte of a character.
abbrev begin : ℕ → Text × Decoder
begin b =
    if ltb b 128
    then (b ∷ [], idle)
    else if between 194 223 b
    then ([], pending (b ∷ []) 0 128 191)
    else if nat_beq b 224
    then ([], pending (b ∷ []) 1 160 191)
    else if nat_beq b 237
    then ([], pending (b ∷ []) 1 128 159)
    else if between 225 239 b
    then ([], pending (b ∷ []) 1 128 191)
    else if nat_beq b 240
    then ([], pending (b ∷ []) 2 144 191)
    else if between 241 243 b
    then ([], pending (b ∷ []) 2 128 191)
    else if nat_beq b 244
    then ([], pending (b ∷ []) 2 128 143)
    else (replacement, idle)

abbrev extend : Text → ℕ → Text × Decoder
extend held zero = (held, idle)
extend held (suc more) = ([], pending held more 128 191)

-- A byte that does not continue the character ends it and is looked at again.
abbrev step : Decoder → ℕ → Text × Decoder
step idle b = begin b
step (pending held more low high) b =
    if between low high b
    then extend (held ++ b ∷ []) more
    else (replacement ++ (begin b).0, (begin b).1)

abbrev decode : Decoder → Text → Text
decode idle [] = []
decode (pending held more low high) [] = replacement
decode state (b ∷ s) = (step state b).0 ++ decode (step state b).1 s

unfoldable pub from_utf8_lossy : Text → Text
from_utf8_lossy s = decode idle s

-- ASCII stays as it is.
pub from_utf8_lossy-ascii : (s : Text) → All (λ b. b < 128) s → from_utf8_lossy s ≡ s
unfolding from_utf8_lossy
from_utf8_lossy-ascii [] h = refl
from_utf8_lossy-ascii (b ∷ s) h = ground (arith, from_utf8_lossy-ascii s h.1)
