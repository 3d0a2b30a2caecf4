-- ===== src/Routing/App/Glob/Search.antt =====
-- What `str::find` promises, as `glob_match` of app.rs uses it: an occurrence, and the leftmost one.
use mathlib.Core.List.{append_assoc}
use route_guard.Prelude.{
  ℕ, zero, suc, ◌+◌, ◌≤◌, ◌≡◌, refl, ap, sym, ◌∙◌, true, false, some, List, [], ◌∷◌, ◌++◌, arith,
  length, take, drop, Bool-cases, inl, inr, length-append,
}
use route_guard.Prelude.Text.{Text, starts_with, find_sub, starts_with-append, starts_with-drop}

module _ {ℓ} {A : Type ℓ} where
  drop-append_le : (n : ℕ) (x r : List A) → n ≤ length x → drop n (x ++ r) ≡ drop n x ++ r
  drop-append_le zero x r h = refl
  drop-append_le (suc n) [] r h = absurd (omega arith)
  drop-append_le (suc n) (a ∷ x) r h = drop-append_le n x r (omega arith)

  drop-nil : (n : ℕ) → drop {A = A} n [] ≡ []
  drop-nil zero = refl
  drop-nil (suc n) = refl

  pub drop-drop : (n m : ℕ) (x : List A) → drop m (drop n x) ≡ drop (n + m) x
  drop-drop zero m x = ap (λ k. drop k x) (omega arith)
  drop-drop (suc n) m [] = drop-nil m ∙ sym (drop-nil (suc n + m))
  drop-drop (suc n) m (a ∷ x) =
      drop-drop n m x
      ∙ ap (λ k. drop k (a ∷ x)) (let e : suc (n + m) ≡ suc n + m = omega arith in e)

find_sub-zero : (s p : Text) → starts_with s p ≡ true → find_sub s p ≡ some 0
unfolding find_sub
find_sub-zero [] p h = ground arith
find_sub-zero (a ∷ s) p h = ground arith

find_sub-suc :
    (a : ℕ) (s p : Text) (i : ℕ)
    → starts_with (a ∷ s) p ≡ false
    → find_sub s p ≡ some i
    → find_sub (a ∷ s) p ≡ some (suc i)
unfolding find_sub
find_sub-suc a s p i later found = ground arith

-- An occurrence behind `w` is found at `w`'s end or before.
find_sub-le : (w p r : Text) → (i : ℕ) × (find_sub (w ++ (p ++ r)) p ≡ some i) × (i ≤ length w)
find_sub-le [] p r = (0, find_sub-zero (p ++ r) p (starts_with-append p r), omega arith)
find_sub-le (a ∷ w) p r =
    let (i, found, low) = find_sub-le w p r in
    elim (Bool-cases (starts_with (a ∷ w ++ (p ++ r)) p)) [
      | inl here ↦ (0, find_sub-zero (a ∷ w ++ (p ++ r)) p here, omega arith)
      | inr later ↦ (suc i, find_sub-suc a (w ++ (p ++ r)) p i later found, omega arith)
    ]

find_sub-here : (s p : Text) → find_sub s p ≡ some 0 → starts_with s p ≡ true
unfolding find_sub
find_sub-here [] p h = ground arith
find_sub-here (a ∷ s) p h = ground arith

find_sub-there :
    (a : ℕ) (s p : Text) (i : ℕ) → find_sub (a ∷ s) p ≡ some (suc i) → find_sub s p ≡ some i
unfolding find_sub
find_sub-there a s p i h = ground arith

find_sub-nil : (p : Text) (i : ℕ) → find_sub [] p ≡ some (suc i) → ⊥
unfolding find_sub
find_sub-nil p i h = ground arith

-- What is found stands there.
pub find_sub_sound :
    (s p : Text) (i : ℕ) → find_sub s p ≡ some i → s ≡ take i s ++ (p ++ drop (i + length p) s)
find_sub_sound s p zero h =
    starts_with-drop s p (find_sub-here s p h)
    ∙ ap (λ k. p ++ drop k s) (let e : length p ≡ 0 + length p = omega arith in e)
find_sub_sound [] p (suc i) h = absurd (find_sub-nil p i h)
find_sub_sound (a ∷ s) p (suc i) h =
    ap (λ r. a ∷ r) (find_sub_sound s p i (find_sub-there a s p i h))
    ∙ ap (λ k. a ∷ (take i s ++ (p ++ drop k (a ∷ s))))
        (let e : suc (i + length p) ≡ suc i + length p = omega arith in e)

-- A piece that is found leaves at least what any occurrence of it leaves.
pub find_sub-leftmost :
    (w p r : Text)
    → (i : ℕ) × (v : Text) × (find_sub (w ++ (p ++ r)) p ≡ some i)
      × (drop (i + length p) (w ++ (p ++ r)) ≡ v ++ r)
find_sub-leftmost w p r =
    let (i, found, low) = find_sub-le w p r in
    (
      i,
      drop (i + length p) (w ++ p),
      found,
      ap (λ s. drop (i + length p) s) (sym (append_assoc w p r))
          ∙ drop-append_le (i + length p) (w ++ p) r (omega (arith, length-append {0} w p)),
    )
