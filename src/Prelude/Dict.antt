-- ===== src/Prelude/Dict.antt =====
-- Rust's `HashMap`, as an association list whose order is the order of iteration. A new key goes to
-- the end and a known key keeps its place. `HashMap` fixes no order, so a statement about code that
-- iterates is made for every list.
use Prim.Native.Nat.{ℕ, ◌+◌, ◌≤◌, ◌<◌}
use mathlib.Core.Path.{◌≡◌, refl}
use mathlib.Core.List.{List, [], ◌∷◌, map}
use mathlib.Core.Option.{Option, none, some}
use native.Mathlib.Omega.{arith}
use mathlib.Core.Logic.{inl, inr}
use mathlib.Core.Bool.{Bool}
use route_guard.Prelude.Tests.{if◌then◌else◌, Bool-cases, Option-cases, leb, passes, is_some}
use route_guard.Prelude.Sort.{min_by_key}
use route_guard.Prelude.Lists.{length, All, keep}
use route_guard.Prelude.Equality.{Eq, ◌==◌, contains}

abbrev pub Dict {ℓ κ} : Type ℓ → Type κ → Type (ℓ ⊔ κ)
Dict K V = List (K × V)

module _ {ℓ κ} {K : Type ℓ} {V : Type κ} where
  abbrev pub keys : Dict K V → List K
  keys = map (λ (p : K × V). p.0)

  abbrev pub values : Dict K V → List V
  values = map (λ (p : K × V). p.1)

module _ {ℓ κ} {K : Type ℓ} {V : Type κ} ⦃e : Eq K⦄ where
  -- `get`
  unfoldable pub lookup : K → Dict K V → Option V
  lookup k [] = none
  lookup k ((j, v) ∷ m) = if j == k then some v else lookup k m

  -- `insert`
  unfoldable pub insert : K → V → Dict K V → Dict K V
  insert k v [] = (k, v) ∷ []
  insert k v ((j, w) ∷ m) = if j == k then (k, v) ∷ m else (j, w) ∷ insert k v m

  -- `remove`
  unfoldable pub remove : K → Dict K V → Dict K V
  remove k [] = []
  remove k ((j, w) ∷ m) = let rest = remove k m in if j == k then rest else (j, w) ∷ rest

  pub lookup-insert :
      (k sought : K) (v : V) (m : Dict K V)
      → lookup sought (insert k v m) ≡ (if k == sought then some v else lookup sought m)
  unfolding lookup insert
  lookup-insert put got v [] = refl
  lookup-insert k j v ((i, w) ∷ m) =
      ground (arith, e.beq_iff k j, e.beq_iff i k, e.beq_iff i j, lookup-insert k j v m)

  pub lookup-remove :
      (k j : K) (m : Dict K V) → lookup j (remove k m) ≡ (if k == j then none else lookup j m)
  unfolding lookup remove
  lookup-remove k j [] = ground arith
  lookup-remove k j ((i, w) ∷ m) =
      ground (arith, e.beq_iff k j, e.beq_iff i k, e.beq_iff i j, lookup-remove k j m)

  pub length-insert : (k : K) (v : V) (m : Dict K V) → length (insert k v m) ≤ length m + 1
  unfolding insert
  length-insert k v [] = omega arith
  length-insert k v ((j, w) ∷ m) = ground (arith, length-insert k v m)

  pub length-insert-known :
      (k : K) (v w : V) (m : Dict K V) → lookup k m ≡ some w → length (insert k v m) ≡ length m
  unfolding insert lookup
  length-insert-known k v w [] h = absurd (ground arith)
  length-insert-known k v w ((j, u) ∷ m) h = ground (arith, length-insert-known k v w m)

  pub length-remove : (k : K) (m : Dict K V) → length (remove k m) ≤ length m
  unfolding remove
  length-remove k [] = omega arith
  length-remove k ((j, w) ∷ m) = ground (arith, length-remove k m)

  -- Removing a key that is there makes the map smaller.
  pub length-remove-lt :
      (k : K) (m : Dict K V) (v : V) → lookup k m ≡ some v → length (remove k m) < length m
  unfolding lookup remove
  length-remove-lt k [] v h = cc
  length-remove-lt k ((j, w) ∷ m) v h = ground (arith, length-remove k m, length-remove-lt k m v)

  -- No key occurs twice.
  abbrev pub IsDistinct : Dict K V → Type κ
  IsDistinct [] = Unit
  IsDistinct ((k, v) ∷ m) = (lookup k m ≡ none) × IsDistinct m

  pub insert-IsDistinct : (k : K) (v : V) (m : Dict K V) → IsDistinct m → IsDistinct (insert k v m)
  unfolding lookup insert
  insert-IsDistinct k v [] h = (refl, tt)
  insert-IsDistinct k v ((j, w) ∷ m) h =
      ground
        (arith, e.beq_iff j k, e.beq_iff k j, lookup-insert k j v m, insert-IsDistinct k v m h.1)

  pub remove-IsDistinct : (k : K) (m : Dict K V) → IsDistinct m → IsDistinct (remove k m)
  unfolding lookup remove
  remove-IsDistinct k [] h = tt
  remove-IsDistinct k ((j, w) ∷ m) h =
      ground (arith, lookup-remove k j m, remove-IsDistinct k m h.1)

  -- A property of every binding.
  pub All-insert {ν} :
      (P : V → Type ν) (k : K) (v : V) (m : Dict K V)
      → P v
      → All (λ (b : K × V). P b.1) m
      → All (λ (b : K × V). P b.1) (insert k v m)
  unfolding insert
  All-insert P k v [] p h = (p, tt)
  All-insert P k v ((j, w) ∷ m) p h = elim (Bool-cases (j == k)) [
    | inl same ↦ rw same (p, h.1)
    | inr other ↦ rw other (h.0, All-insert P k v m p h.1)
  ]

  pub All-remove {ν} :
      (P : V → Type ν) (k : K) (m : Dict K V)
      → All (λ (b : K × V). P b.1) m
      → All (λ (b : K × V). P b.1) (remove k m)
  unfolding remove
  All-remove P k [] h = tt
  All-remove P k ((j, w) ∷ m) h = elim (Bool-cases (j == k)) [
    | inl same ↦ rw same (All-remove P k m h.1)
    | inr other ↦ rw other (h.0, All-remove P k m h.1)
  ]

  -- The binding that `min_by_key` picks is found again by its key.
  pub min_by_key-lookup :
      (key : K × V → ℕ) (m : Dict K V) (p : K × V)
      → min_by_key key m ≡ some p
      → (v : V) × (lookup p.0 m ≡ some v)
  unfolding min_by_key lookup
  min_by_key-lookup key [] p h = absurd (ground arith)
  min_by_key-lookup key ((j, w) ∷ m) p h = elim (Bool-cases (j == p.0)) [
    | inl same ↦ (w, rw same)
    | inr other ↦ elim (Option-cases (min_by_key key m)) [
      | inl gone ↦ absurd (ground (arith, e.beq_iff j p.0))
      | inr (q, there) ↦ elim (Bool-cases (leb (key (j, w)) (key q))) [
        | inl low ↦ absurd (ground (arith, e.beq_iff j p.0))
        | inr high ↦
            let (v, found) = min_by_key-lookup key m p (ground arith) in (v, rw other found)
      ]
    ]
  ]

  -- The keys of the bindings that pass a test.
  pub contains-keys-keep :
      (p : V → Bool) (k : K) (m : Dict K V)
      → IsDistinct m
      → contains (keys (keep (λ (b : K × V). p b.1) m)) k ≡ passes p (lookup k m)
  unfolding lookup
  contains-keys-keep p k [] h = refl
  contains-keys-keep p k ((j, v) ∷ m) h =
      ground (arith, contains-keys-keep p k m h.1, e.beq_iff j k, h.0)

  pub contains-keys : (k : K) (m : Dict K V) → contains (keys m) k ≡ is_some (lookup k m)
  unfolding lookup
  contains-keys k [] = refl
  contains-keys k ((j, v) ∷ m) = ground (arith, contains-keys k m)
