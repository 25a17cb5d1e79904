-- ===== src/Prelude/Effects.antt =====
-- Code that may raise returns a `Result`; code that changes a state and may raise is an `Action`,
-- which returns the state in both cases: what was committed before a raise stays.
use mathlib.Core.Path.{◌≡◌, refl, ap}
use mathlib.Core.Bool.{Bool, true, false}

pub data Result {ℓ} (E A : Type ℓ) : Type ℓ where
  ok : A → Result E A
  err : E → Result E A

infixl 5 ◌>>=◌
abbrev pub ◌>>=◌ {ℓ} : {E A B : Type ℓ} → Result E A → (A → Result E B) → Result E B
ok a >>= next = next a
err e >>= next = err e

abbrev pub is_ok {ℓ} : {E A : Type ℓ} → Result E A → Bool
is_ok (ok a) = true
is_ok (err e) = false

-- To split on a computed result and keep the equation.
pub data Ran {ℓ} {E A : Type ℓ} (r : Result E A) : Type ℓ where
  returned : (a : A) → r ≡ ok a → Ran r
  raised : (e : E) → r ≡ err e → Ran r

pub run {ℓ} : {E A : Type ℓ} (r : Result E A) → Ran r
run (ok a) = returned a refl
run (err e) = raised e refl

-- A computation that went on returned first.
pub >>=-ok {ℓ} :
    {E A B : Type ℓ} (r : Result E A) (next : A → Result E B) (b : B)
    → (r >>= next) ≡ ok b
    → (a : A) × (r ≡ ok a) × (next a ≡ ok b)
>>=-ok (ok a) next b h = (a, refl, h)
>>=-ok (err e) next b h = absurd (cc h)

pub ok_injective {ℓ} : {E A : Type ℓ} {a b : A} → ◌≡◌ {A = Result E A} (ok a) (ok b) → a ≡ b
ok_injective e = cc e

abbrev pub Action {ℓ} : Type ℓ → Type ℓ → Type ℓ → Type ℓ
Action S E A = S → Result E A × S

-- `m`, and then `next` from the state that `m` left, unless `m` raised.
abbrev pub and_then {ℓ} : {S E A B : Type ℓ} → Result E A × S → (A → Action S E B) → Result E B × S
and_then (ok a, s) next = next a s
and_then (err e, s) next = (err e, s)

-- An action that went on returned first.
pub and_then-ok {ℓ} :
    {S E A B : Type ℓ} (r : Result E A × S) (next : A → Action S E B) (b : B) (s : S)
    → and_then r next ≡ (ok b, s)
    → (a : A) × (r.0 ≡ ok a) × (next a r.1 ≡ (ok b, s))
and_then-ok (ok a, t) next b s h = (a, refl, h)
and_then-ok (err e, t) next b s h = absurd (differ (ap (λ r. is_ok r.0) h))
  where
    differ : false ≡ true → ⊥
    differ q = cc
