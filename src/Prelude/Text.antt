-- ===== src/Prelude/Text.antt =====
-- Rust's `str` as the list of its UTF-8 bytes, so that `len`, slices and `find` count bytes.
use Prim.Native.Nat.{ℕ, suc, ◌+◌, ◌-◌}
use Prim.Native.Char.{code}
use Prim.Native.String.{String}
use mathlib.Core.Path.{◌≡◌, refl, ap, sym, ◌∙◌}
use mathlib.Core.Logic.{◌↔◌}
use mathlib.Core.Bool.{Bool, true, false, ◌&&◌}
use mathlib.Core.Option.{Option, none, some}
use mathlib.Core.Option
use mathlib.Core.List.{List, [], ◌∷◌, ◌++◌, map}
use native.Mathlib.Omega.{arith}
use route_guard.Prelude.Tests.{leb, and-split, if◌then◌else◌, nat_beq, nat_beq_iff}
use route_guard.Prelude.Lists.{length, take, drop, length-append, take-append-drop}
use route_guard.Prelude.Equality.{nat_eq, list_beq, list_beq_iff}

abbrev pub Text : Type 0
Text = List ℕ

-- The bytes of an ASCII literal.
abbrev pub bytes : String → Text
bytes String.[] = []
bytes (String.◌∷◌ c s) = code c ∷ bytes s

-- `s.starts_with(p)`
unfoldable pub starts_with : Text → Text → Bool
starts_with s [] = true
starts_with [] (b ∷ p) = false
starts_with (a ∷ s) (b ∷ p) = nat_beq a b && starts_with s p

-- `s.ends_with(p)`
unfoldable pub ends_with : Text → Text → Bool
ends_with s p = leb (length p) (length s) && list_beq (drop (length s - length p) s) p

-- `s.find(p)`: the index of the first occurrence.
unfoldable pub find_sub : Text → Text → Option ℕ
unfolding starts_with
find_sub [] p = if starts_with [] p then some 0 else none
find_sub (a ∷ s) p =
    if starts_with (a ∷ s) p then some 0 else Option.map (λ (i : ℕ). suc i) (find_sub s p)

abbrev pub contains_byte : ℕ → Text → Bool
contains_byte b [] = false
contains_byte b (a ∷ s) = if nat_beq a b then true else contains_byte b s

abbrev pub lower_byte : ℕ → ℕ
lower_byte c = if leb 65 c && leb c 90 then c + 32 else c

-- `s.to_ascii_lowercase()`
unfoldable pub to_ascii_lowercase : Text → Text
to_ascii_lowercase s = map lower_byte s

-- `s.trim_end_matches(b)` for a one-byte character.
unfoldable pub trim_end_matches : ℕ → Text → Text
trim_end_matches b [] = []
trim_end_matches b (a ∷ s) = elim (trim_end_matches b s) [
  | [] ↦ (if nat_beq a b then [] else a ∷ [])
  | c ∷ r ↦ a ∷ c ∷ r
]

-- `s.replace(a, b)` for one-byte characters.
unfoldable pub replace_byte : ℕ → ℕ → Text → Text
replace_byte a b s = map (λ c. if nat_beq c a then b else c) s

pub starts_with-append : (p r : Text) → starts_with (p ++ r) p ≡ true
unfolding starts_with
starts_with-append [] [] = refl
starts_with-append [] (a ∷ r) = refl
starts_with-append (b ∷ p) r = ground (arith, starts_with-append p r)

pub starts_with-drop : (s p : Text) → starts_with s p ≡ true → s ≡ p ++ drop (length p) s
unfolding starts_with
starts_with-drop s [] h = refl
starts_with-drop [] (b ∷ p) h = cc
starts_with-drop (a ∷ s) (b ∷ p) h =
    ground (arith, nat_beq_iff a b, starts_with-drop s p, and-split (nat_beq a b) (starts_with s p))

-- A text starts with `p` exactly when it is `p` with something behind it.
pub starts_with_iff : (s p : Text) → (starts_with s p ≡ true) ↔ ((r : Text) × (s ≡ p ++ r))
starts_with_iff s p =
    (λ h. (drop (length p) s, starts_with-drop s p h), λ w. rw w.1 (starts_with-append p w.0))

pub drop-append {ℓ} : {A : Type ℓ} (xs ys : List A) → drop (length xs) (xs ++ ys) ≡ ys
drop-append [] ys = refl
drop-append (x ∷ xs) ys = drop-append xs ys

pub ends_with-append : (q p : Text) → ends_with (q ++ p) p ≡ true
unfolding ends_with
ends_with-append q p =
    let n : length (q ++ p) - length p ≡ length q = omega (arith, length-append {0} q p) in
    rw n (
      ground
        (arith, length-append {0} q p, drop-append q p, list_beq_iff (drop (length q) (q ++ p)) p))

-- A text ends with `p` exactly when it is `p` with something before it.
pub ends_with_iff : (s p : Text) → (ends_with s p ≡ true) ↔ ((q : Text) × (s ≡ q ++ p))
unfolding ends_with
ends_with_iff s p = (
  λ h.
      let (_, same) = and-split (leb (length p) (length s)) _ h in
      let n : ℕ = length s - length p in
      (
        take n s,
        sym (take-append-drop n s) ∙ ap (λ r. take n s ++ r) ((list_beq_iff (drop n s) p).0 same),
      ),
  λ w. rw w.1 (ends_with-append w.0 p),
)

lower_byte_idem : (c : ℕ) → lower_byte (lower_byte c) ≡ lower_byte c
lower_byte_idem c = ground arith

pub to_ascii_lowercase_idem :
    (s : Text) → to_ascii_lowercase (to_ascii_lowercase s) ≡ to_ascii_lowercase s
unfolding to_ascii_lowercase
to_ascii_lowercase_idem [] = refl
to_ascii_lowercase_idem (c ∷ s) = cc (lower_byte_idem c, to_ascii_lowercase_idem s)

pub trim_end_matches_idem :
    (b : ℕ) (s : Text) → trim_end_matches b (trim_end_matches b s) ≡ trim_end_matches b s
unfolding trim_end_matches
trim_end_matches_idem b [] = refl
trim_end_matches_idem b (a ∷ s) = ground (arith, trim_end_matches_idem b s)

pub trim_end_matches-append :
    (b : ℕ) (s : Text) → trim_end_matches b (s ++ b ∷ []) ≡ trim_end_matches b s
unfolding trim_end_matches
trim_end_matches-append b [] = ground arith
trim_end_matches-append b (a ∷ s) = ground (arith, trim_end_matches-append b s)
