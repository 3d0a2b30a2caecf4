-- ===== src/Prelude/Sort.antt =====
-- Rust's stable `sort_by_key` and `min_by_key`, and how `find` sees a sorted list.
use Prim.Native.Nat.{ℕ, ◌≤◌}
use mathlib.Core.Path.{◌≡◌, refl, ap, ◌∙◌}
use mathlib.Core.List.{map, ◌++◌, List, [], ◌∷◌}
use mathlib.Core.Bool.{Bool}
use mathlib.Core.Logic.{inl, inr}
use mathlib.Core.Option.{Option, none, some}
use native.Mathlib.Omega.{arith}
use route_guard.Prelude.Tests.{leb, leb→le, Bool-cases, if◌then◌else◌}
use route_guard.Prelude.Lists.{All-leave, length, All, find, keep, Pairwise}

module _ {ℓ} {A : Type ℓ} (key : A → ℕ) where
  -- `x` goes before the first element whose key is not below its own.
  abbrev pub place : A → List A → List A
  place x [] = x ∷ []
  place x (y ∷ ys) = if leb (key x) (key y) then x ∷ y ∷ ys else y ∷ place x ys

  -- A stable sort: elements with equal keys keep their order.
  unfoldable pub sort_by_key : List A → List A
  sort_by_key [] = []
  sort_by_key (x ∷ xs) = place x (sort_by_key xs)

  abbrev pub first_min : A → Option A → Option A
  first_min x none = some x
  first_min x (some y) = if leb (key x) (key y) then some x else some y

  -- The first of the elements with the least key.
  unfoldable pub min_by_key : List A → Option A
  min_by_key [] = none
  min_by_key (x ∷ xs) = first_min x (min_by_key xs)

  abbrev pub IsSorted : List A → Type 0
  IsSorted [] = Unit
  IsSorted (x ∷ xs) = All (λ y. key x ≤ key y) xs × IsSorted xs

  All-place :
      (k : ℕ) (x : A) (ys : List A)
      → k ≤ key x
      → All (λ y. k ≤ key y) ys
      → All (λ y. k ≤ key y) (place x ys)
  All-place k x [] h hs = (h, tt)
  All-place k x (y ∷ ys) h hs = ground (arith, All-place k x ys h hs.1)

  All-weaken : (k j : ℕ) (ys : List A) → k ≤ j → All (λ y. j ≤ key y) ys → All (λ y. k ≤ key y) ys
  All-weaken k j [] h hs = tt
  All-weaken k j (y ∷ ys) h hs = (omega arith, All-weaken k j ys h hs.1)

  place-IsSorted : (x : A) (ys : List A) → IsSorted ys → IsSorted (place x ys)
  place-IsSorted x [] h = (tt, tt)
  place-IsSorted x (y ∷ ys) h =
      ground (arith, All-weaken (key x) (key y) ys, All-place (key y) x ys, place-IsSorted x ys h.1)

  pub sort_by_key-IsSorted : (xs : List A) → IsSorted (sort_by_key xs)
  unfolding sort_by_key
  sort_by_key-IsSorted [] = tt
  sort_by_key-IsSorted (x ∷ xs) = place-IsSorted x (sort_by_key xs) (sort_by_key-IsSorted xs)

  length-place : (x : A) (ys : List A) → length (place x ys) ≡ length (x ∷ ys)
  length-place x [] = refl
  length-place x (y ∷ ys) = ground (arith, length-place x ys)

  pub length-sort_by_key : (xs : List A) → length (sort_by_key xs) ≡ length xs
  unfolding sort_by_key
  length-sort_by_key [] = refl
  length-sort_by_key (x ∷ xs) =
      ground (arith, length-place x (sort_by_key xs), length-sort_by_key xs)

  -- Where no key is below that of `x`, `x` stays the first minimum.
  first_min-find :
      (x : A) (p : A → Bool) (ys : List A)
      → All (λ y. key x ≤ key y) ys
      → first_min x (find p ys) ≡ some x
  first_min-find x p [] h = refl
  first_min-find x p (y ∷ ys) h = ground (arith, first_min-find x p ys h.1)

  find-place :
      (p : A → Bool) (x : A) (ys : List A)
      → IsSorted ys
      → find p (place x ys) ≡ (if p x then first_min x (find p ys) else find p ys)
  find-place p x [] h = ground arith
  find-place p x (y ∷ ys) h = elim (Bool-cases (leb (key x) (key y))) [
    | inl low ↦
        rw low (
          ground
            (arith, first_min-find x p (y ∷ ys), All-weaken (key x) (key y) ys, leb→le _ _ low))
    | inr high ↦ rw high (ground (arith, find-place p x ys h.1))
  ]

  -- In a list sorted by key, `find` returns the first element with the least key among those of the
  -- unsorted list that pass.
  pub find-sort_by_key :
      (p : A → Bool) (xs : List A) → find p (sort_by_key xs) ≡ min_by_key (keep p xs)
  unfolding sort_by_key min_by_key
  find-sort_by_key p [] = refl
  find-sort_by_key p (x ∷ xs) =
      ground
        (arith, find-place p x (sort_by_key xs) (sort_by_key-IsSorted xs), find-sort_by_key p xs)

  -- Sorting keeps what holds of every element, and a symmetric relation of every two.
  All-of-place {κ} : (P : A → Type κ) (x : A) (ys : List A) → P x → All P ys → All P (place x ys)
  All-of-place P x [] h hs = (h, tt)
  All-of-place P x (y ∷ ys) h hs = elim (Bool-cases (leb (key x) (key y))) [
    | inl low ↦ rw low (h, hs)
    | inr high ↦ rw high (hs.0, All-of-place P x ys h hs.1)
  ]

  pub All-sort_by_key {κ} : (P : A → Type κ) (xs : List A) → All P xs → All P (sort_by_key xs)
  unfolding sort_by_key
  All-sort_by_key P [] h = tt
  All-sort_by_key P (x ∷ xs) h = All-of-place P x _ h.0 (All-sort_by_key P xs h.1)

  Pairwise-place {κ} :
      (R : A → A → Type κ) (x : A) (ys : List A)
      → ((a b : A) → R a b → R b a)
      → All (λ y. R x y) ys
      → Pairwise R ys
      → Pairwise R (place x ys)
  Pairwise-place R x [] sy h hs = (tt, tt)
  Pairwise-place R x (y ∷ ys) sy h hs = elim (Bool-cases (leb (key x) (key y))) [
    | inl low ↦ rw low (h, hs)
    | inr high ↦
        rw high
          (All-of-place (λ z. R y z) x ys (sy x y h.0) hs.0, Pairwise-place R x ys sy h.1 hs.1)
  ]

  pub Pairwise-sort_by_key {κ} :
      (R : A → A → Type κ) (xs : List A)
      → ((a b : A) → R a b → R b a)
      → Pairwise R xs
      → Pairwise R (sort_by_key xs)
  unfolding sort_by_key
  Pairwise-sort_by_key R [] sy h = tt
  Pairwise-sort_by_key R (x ∷ xs) sy h =
      Pairwise-place R x (sort_by_key xs) sy (All-sort_by_key (λ y. R x y) xs h.0)
        (Pairwise-sort_by_key R xs sy h.1)

  pub IsSorted-leave : (xs ys : List A) (x : A) → IsSorted (xs ++ x ∷ ys) → IsSorted (xs ++ ys)
  IsSorted-leave [] ys x h = h.1
  IsSorted-leave (z ∷ xs) ys x h =
      (All-leave (λ y. key z ≤ key y) xs ys x h.0, IsSorted-leave xs ys x h.1)

-- Sorting commutes with a map that keeps the keys.
map-place {ℓ κ} :
    {A : Type ℓ} {B : Type κ} (f : A → B) (key : A → ℕ) (key' : B → ℕ) (x : A) (ys : List A)
    → ((a : A) → key' (f a) ≡ key a)
    → map f (place key x ys) ≡ place key' (f x) (map f ys)
map-place f key key' x [] same = refl
map-place f key key' x (y ∷ ys) same =
    ground (arith, same x, same y, map-place f key key' x ys same)

pub map-sort_by_key {ℓ κ} :
    {A : Type ℓ} {B : Type κ} (f : A → B) (key : A → ℕ) (key' : B → ℕ) (xs : List A)
    → ((a : A) → key' (f a) ≡ key a)
    → map f (sort_by_key key xs) ≡ sort_by_key key' (map f xs)
unfolding sort_by_key
map-sort_by_key f key key' [] same = refl
map-sort_by_key f key key' (x ∷ xs) same =
    map-place f key key' x (sort_by_key key xs) same
    ∙ ap (λ r. place key' (f x) r) (map-sort_by_key f key key' xs same)
