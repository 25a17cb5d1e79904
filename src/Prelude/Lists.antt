-- ===== src/Prelude/Lists.antt =====
-- Lists measured by native numbers, filtered by Boolean tests, and predicates on their elements
-- that compute.
use Prim.Native.Nat.{ℕ, zero, suc, ◌+◌, ◌≤◌, min}
use mathlib.Core.Path.{◌≡◌, refl, ap}
use mathlib.Core.Logic.{◌≢◌, ◌↔◌, ◌⊎◌, inl, inr}
use mathlib.Core.Bool.{Bool, true, false, not, ◌&&◌, ◌||◌}
use mathlib.Core.List.{List, [], ◌∷◌, ◌++◌}
use native.Mathlib.Omega.{arith}
use lexicon_revision.Prelude.Tests.{if◌then◌else◌, Bool-cases, HasEq, ◌==◌}

module _ {ℓ} {A : Type ℓ} where
  abbrev pub length : List A → ℕ
  length [] = 0
  length (x ∷ xs) = suc (length xs)

  abbrev pub take : ℕ → List A → List A
  take zero xs = []
  take (suc n) [] = []
  take (suc n) (x ∷ xs) = x ∷ take n xs

  abbrev pub drop : ℕ → List A → List A
  drop zero xs = xs
  drop (suc n) [] = []
  drop (suc n) (x ∷ xs) = drop n xs

  abbrev pub is_empty : List A → Bool
  is_empty [] = true
  is_empty (x ∷ xs) = false

  unfoldable pub filter : (A → Bool) → List A → List A
  filter p [] = []
  filter p (x ∷ xs) = let rest = filter p xs in if p x then x ∷ rest else rest

  abbrev pub All {κ} : (A → Type κ) → List A → Type κ
  All P [] = Unit
  All P (x ∷ xs) = P x × All P xs

-- Membership that computes to `⊎`. The empty type stands in `Type 0`, and so do the elements.
module _ {A : Type 0} where
  abbrev pub IsIn : A → List A → Type 0
  IsIn a [] = ⊥
  IsIn a (x ∷ xs) = (a ≡ x) ⊎ IsIn a xs

  abbrev pub IsNodup : List A → Type 0
  IsNodup [] = Unit
  IsNodup (x ∷ xs) = All (λ y. x ≢ y) xs × IsNodup xs

module _ {ℓ} {A : Type ℓ} where
  pub length-append : (xs ys : List A) → length (xs ++ ys) ≡ length xs + length ys
  length-append [] ys = omega arith
  length-append (x ∷ xs) ys = omega (arith, length-append xs ys)

  pub length-take : (n : ℕ) (xs : List A) → length (take n xs) ≡ min n (length xs)
  length-take zero xs = omega arith
  length-take (suc n) [] = omega arith
  length-take (suc n) (x ∷ xs) = omega (arith, length-take n xs)

  pub take_of_le : (n : ℕ) (xs : List A) → length xs ≤ n → take n xs ≡ xs
  take_of_le zero [] h = refl
  take_of_le zero (x ∷ xs) h = absurd (omega arith)
  take_of_le (suc n) [] h = refl
  take_of_le (suc n) (x ∷ xs) h = ap (λ (r : List A). x ∷ r) (take_of_le n xs (omega arith))

  pub All-append {κ} : (P : A → Type κ) (xs ys : List A) → All P xs → All P ys → All P (xs ++ ys)
  All-append P [] ys h k = k
  All-append P (x ∷ xs) ys (p, h) k = (p, All-append P xs ys h k)

  pub All-split {κ} : (P : A → Type κ) (xs ys : List A) → All P (xs ++ ys) → All P xs × All P ys
  All-split P [] ys h = (tt, h)
  All-split P (x ∷ xs) ys (p, h) = let (l, r) = All-split P xs ys h in ((p, l), r)

  pub append-eq-nil : (xs ys : List A) → (xs ++ ys ≡ []) ↔ ((xs ≡ []) × (ys ≡ []))
  append-eq-nil [] ys = (λ e. (refl, e), λ p. p.1)
  append-eq-nil (x ∷ xs) ys = (λ e. cc, λ p. cc (p.0))

  pub All-map {κ μ} :
      (P : A → Type κ) (Q : A → Type μ)
      → ((a : A) → P a → Q a)
      → (xs : List A) → All P xs
      → All Q xs
  All-map P Q f [] h = tt
  All-map P Q f (x ∷ xs) (p, h) = (f x p, All-map P Q f xs h)

module _ {A : Type 0} where
  pub All-IsIn {κ} : (P : A → Type κ) (a : A) (xs : List A) → All P xs → IsIn a xs → P a
  All-IsIn P a [] h m = absurd m
  All-IsIn P a (x ∷ xs) (p, h) (inl e) = subst_P e
    where
      subst_P : a ≡ x → P a
      subst_P q = rw q p
  All-IsIn P a (x ∷ xs) (p, h) (inr m) = All-IsIn P a xs h m

  pub All-of_IsIn {κ} : (P : A → Type κ) (xs : List A) → ((a : A) → IsIn a xs → P a) → All P xs
  All-of_IsIn P [] f = tt
  All-of_IsIn P (x ∷ xs) f = (f x (inl refl), All-of_IsIn P xs (λ a m. f a (inr m)))

  pub IsIn-append : (a : A) (xs ys : List A) → IsIn a (xs ++ ys) → IsIn a xs ⊎ IsIn a ys
  IsIn-append a [] ys m = inr m
  IsIn-append a (x ∷ xs) ys (inl e) = inl (inl e)
  IsIn-append a (x ∷ xs) ys (inr m) = elim (IsIn-append a xs ys m) [
    | inl l ↦ inl (inr l)
    | inr r ↦ inr r
  ]

  pub IsIn-append_left : (a : A) (xs ys : List A) → IsIn a xs → IsIn a (xs ++ ys)
  IsIn-append_left a [] ys m = absurd m
  IsIn-append_left a (x ∷ xs) ys (inl e) = inl e
  IsIn-append_left a (x ∷ xs) ys (inr m) = inr (IsIn-append_left a xs ys m)

  pub IsIn-append_right : (a : A) (xs ys : List A) → IsIn a ys → IsIn a (xs ++ ys)
  IsIn-append_right a [] ys m = m
  IsIn-append_right a (x ∷ xs) ys m = inr (IsIn-append_right a xs ys m)

  pub IsNodup-snoc : (xs : List A) (a : A) → IsNodup xs → (IsIn a xs → ⊥) → IsNodup (xs ++ a ∷ [])
  IsNodup-snoc [] a h k = (tt, tt)
  IsNodup-snoc (x ∷ xs) a (n, h) k = (
    All-append (λ y. x ≢ y) xs (a ∷ []) n ((λ e. k (inl (λ i. e_sym e i))), tt),
    IsNodup-snoc xs a h (λ m. k (inr m)),
  )
    where
      e_sym : x ≡ a → a ≡ x
      e_sym q = cc

  pub IsNodup-append_ne : (a : A) (xs ys : List A) → IsNodup (xs ++ ys) → IsIn a xs → IsIn a ys → ⊥
  IsNodup-append_ne a [] ys n m k = m
  IsNodup-append_ne a (x ∷ xs) ys (n, r) (inl e) k =
      All-IsIn (λ y. x ≢ y) a (xs ++ ys) n (IsIn-append_right a xs ys k) (λ i. flip e i)
    where
      flip : a ≡ x → x ≡ a
      flip q = cc
  IsNodup-append_ne a (x ∷ xs) ys (n, r) (inr m) k = IsNodup-append_ne a xs ys r m k

  pub filter-append :
      (p : A → Bool) (xs ys : List A) → filter p (xs ++ ys) ≡ filter p xs ++ filter p ys
  unfolding filter
  filter-append p [] ys = refl
  filter-append p (x ∷ xs) ys = ground (arith, filter-append p xs ys)

  pub length-filter : (p : A → Bool) (xs : List A) → length (filter p xs) ≤ length xs
  unfolding filter
  length-filter p [] = omega arith
  length-filter p (x ∷ xs) = ground (arith, length-filter p xs)

  pub filter_self : (p : A → Bool) (xs : List A) → All (λ x. p x ≡ true) xs → filter p xs ≡ xs
  unfolding filter
  filter_self p [] h = refl
  filter_self p (x ∷ xs) (e, h) = rw (e, filter_self p xs h) refl

  pub IsIn-filter :
      (p : A → Bool) (a : A) (xs : List A) → IsIn a (filter p xs) → IsIn a xs × (p a ≡ true)
  unfolding filter
  IsIn-filter p a [] m = absurd m
  IsIn-filter p a (x ∷ xs) m = elim (Bool-cases (p x)) [
    | inl e ↦ kept e (IsIn-filter p a xs) (rw e at m)
    | inr e ↦ (let r = IsIn-filter p a xs (rw e at m) in (inr r.0, r.1))
  ]
    where
      kept :
          p x ≡ true
          → (IsIn a (filter p xs) → IsIn a xs × (p a ≡ true))
          → IsIn a (x ∷ filter p xs)
          → IsIn a (x ∷ xs) × (p a ≡ true)
      kept e ih (inl q) = (inl q, rw q e)
      kept e ih (inr r) = (inr (ih r).0, (ih r).1)

  pub IsIn-filter_of :
      (p : A → Bool) (a : A) (xs : List A) → IsIn a xs → p a ≡ true → IsIn a (filter p xs)
  unfolding filter
  IsIn-filter_of p a [] m h = absurd m
  IsIn-filter_of p a (x ∷ xs) (inl e) h = rw (← e, h) (inl refl)
  IsIn-filter_of p a (x ∷ xs) (inr m) h = elim (Bool-cases (p x)) [
    | inl e ↦ rw e (inr (IsIn-filter_of p a xs m h))
    | inr e ↦ rw e (IsIn-filter_of p a xs m h)
  ]

module _ {A : Type 0} ⦃d : HasEq A⦄ where
  -- Python's `x in xs`.
  unfoldable pub contains : List A → A → Bool
  contains [] a = false
  contains (x ∷ xs) a = a == x || contains xs a

  pub IsIn-contains : (xs : List A) (a : A) → contains xs a ≡ true → IsIn a xs
  unfolding contains
  IsIn-contains [] a h = absurd_false h
    where
      absurd_false : false ≡ true → ⊥
      absurd_false q = cc
  IsIn-contains (x ∷ xs) a h = elim (Bool-cases (a == x)) [
    | inl q ↦ inl ((d.test_iff a x).0 q)
    | inr q ↦ inr (IsIn-contains xs a (rw q at h))
  ]

  pub contains-IsIn : (xs : List A) (a : A) → IsIn a xs → contains xs a ≡ true
  unfolding contains
  contains-IsIn [] a m = absurd m
  contains-IsIn (x ∷ xs) a (inl q) = rw ((d.test_iff a x).1 q)
  contains-IsIn (x ∷ xs) a (inr m) = elim (Bool-cases (a == x)) [
    | inl q ↦ rw q
    | inr q ↦ rw q (contains-IsIn xs a m)
  ]

  pub contains_of_not_IsIn : (xs : List A) (a : A) → (IsIn a xs → ⊥) → contains xs a ≡ false
  contains_of_not_IsIn xs a h = elim (Bool-cases (contains xs a)) [
    | inl q ↦ absurd (h (IsIn-contains xs a q))
    | inr q ↦ q
  ]

  pub not_IsIn-contains : (xs : List A) (a : A) → contains xs a ≡ false → IsIn a xs → ⊥
  not_IsIn-contains xs a h m = cc (contains-IsIn xs a m)

  pub contains-length : (xs : List A) (a : A) → contains xs a ≡ true → 1 ≤ length xs
  contains-length [] a h = absurd (IsIn-contains [] a h)
  contains-length (x ∷ xs) a h = omega arith

  -- No element stands twice.
  unfoldable pub distinct : List A → Bool
  distinct [] = true
  distinct (x ∷ xs) = not (contains xs x) && distinct xs

  pub distinct-IsNodup : (xs : List A) → distinct xs ≡ true → IsNodup xs
  unfolding distinct
  distinct-IsNodup [] h = tt
  distinct-IsNodup (x ∷ xs) h = (
    All-of_IsIn (λ y. x ≢ y) xs (λ y m e. not_IsIn-contains xs x (ground arith) (rw e m)),
    distinct-IsNodup xs (ground arith),
  )

  -- `{x for x in xs}`, in the order of the last occurrences
  unfoldable pub to_set : List A → List A
  to_set [] = []
  to_set (x ∷ xs) = let rest = to_set xs in if contains rest x then rest else x ∷ rest

  pub IsIn-to_set : (xs : List A) (a : A) → IsIn a xs → IsIn a (to_set xs)
  unfolding to_set
  IsIn-to_set [] a m = absurd m
  IsIn-to_set (x ∷ xs) a (inl q) = elim (Bool-cases (contains (to_set xs) x)) [
    | inl h ↦ rw h (rw q (IsIn-contains (to_set xs) x h))
    | inr h ↦ rw h (inl q)
  ]
  IsIn-to_set (x ∷ xs) a (inr m) = elim (Bool-cases (contains (to_set xs) x)) [
    | inl h ↦ rw h (IsIn-to_set xs a m)
    | inr h ↦ rw h (inr (IsIn-to_set xs a m))
  ]

  pub to_set-IsIn : (xs : List A) (a : A) → IsIn a (to_set xs) → IsIn a xs
  unfolding to_set
  to_set-IsIn [] a m = absurd m
  to_set-IsIn (x ∷ xs) a m = elim (Bool-cases (contains (to_set xs) x)) [
    | inl h ↦ inr (to_set-IsIn xs a (rw h at m))
    | inr h ↦ split_head (to_set-IsIn xs a) (rw h at m)
  ]
    where
      split_head : (IsIn a (to_set xs) → IsIn a xs) → IsIn a (x ∷ to_set xs) → IsIn a (x ∷ xs)
      split_head ih (inl q) = inl q
      split_head ih (inr n) = inr (ih n)

  pub IsNodup-to_set : (xs : List A) → IsNodup (to_set xs)
  unfolding to_set
  IsNodup-to_set [] = tt
  IsNodup-to_set (x ∷ xs) = elim (Bool-cases (contains (to_set xs) x)) [
    | inl h ↦ rw h (IsNodup-to_set xs)
    | inr h ↦ rw h (
      All-of_IsIn (λ y. x ≢ y) (to_set xs) (λ y m e. not_IsIn-contains (to_set xs) x h (rw e m)),
      IsNodup-to_set xs,
    )
  ]
