-- ===== src/Prelude/Result.antt =====
-- Rust's `Result`, and `?` as the bind of a `do` block.
use mathlib.Core.Path.{◌≡◌, refl}
use mathlib.Core.Bool.{Bool, true, false}

pub data Result {ℓ κ} (E : Type ℓ) (A : Type κ) : Type (ℓ ⊔ κ) where
  ok : A → Result E A
  err : E → Result E A

infixl 5 ◌>>=◌ ◌>>◌
abbrev pub ◌>>=◌ {ℓ κ λ'} :
    {E : Type ℓ} {A : Type κ} {B : Type λ'} → Result E A → (A → Result E B) → Result E B
ok a >>= f = f a
err e >>= f = err e

abbrev pub ◌>>◌ {ℓ κ λ'} :
    {E : Type ℓ} {A : Type κ} {B : Type λ'} → Result E A → Result E B → Result E B
m >> k = m >>= λ _. k

-- An early `return Err(e)` when the test holds.
abbrev pub fail_if {ℓ} : {E : Type ℓ} → Bool → E → Result E (Unit {0})
fail_if true e = err e
fail_if false e = ok tt

abbrev pub is_ok {ℓ κ} : {E : Type ℓ} {A : Type κ} → Result E A → Bool
is_ok (ok a) = true
is_ok (err e) = false

pub >>=-eq-ok {ℓ κ λ'} :
    {E : Type ℓ} {A : Type κ} {B : Type λ'} (m : Result E A) (f : A → Result E B) (b : B)
    → (m >>= f) ≡ ok b
    → (a : A) × (m ≡ ok a) × (f a ≡ ok b)
>>=-eq-ok (ok a) f b h = (a, refl, h)
>>=-eq-ok (err e) f b h = cc

-- `?` in a body that changes a state: what was changed stays when it returns early.
abbrev pub and_then {ℓ κ λ' μ} :
    {S : Type ℓ} {E : Type κ} {A : Type λ'} {B : Type μ}
    → S × Result E A
    → (S → A → S × Result E B)
    → S × Result E B
and_then (s, ok a) f = f s a
and_then (s, err e) f = (s, err e)

-- What holds of the state after each part holds after both.
pub and_then-keeps {ℓ κ λ' μ ν} :
    {S : Type ℓ} {E : Type κ} {A : Type λ'} {B : Type μ} (P Q : S → Type ν) (p : S × Result E A)
    (f : S → A → S × Result E B)
    → ((s : S) → P s → Q s)
    → P p.0
    → ((s : S) (a : A) → P s → Q (f s a).0)
    → Q (and_then p f).0
and_then-keeps P Q (s, ok a) f weaker h step = step s a h
and_then-keeps P Q (s, err e) f weaker h step = weaker s h

-- Both parts of a body that gave no error gave none.
pub and_then-eq {ℓ κ λ' μ} :
    {S : Type ℓ} {E : Type κ} {A : Type λ'} {B : Type μ} (p : S × Result E A)
    (f : S → A → S × Result E B)
    → is_ok (and_then p f).1 ≡ true
    → (a : A) × (p.1 ≡ ok a) × (and_then p f ≡ f p.0 a)
and_then-eq (s, ok a) f h = (a, refl, refl)
and_then-eq (s, err e) f h = cc
