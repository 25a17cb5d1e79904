-- ===== src/Prelude/Strings.antt =====
-- Python's `str` as the list of its code points.
use Prim.Native.Nat.{ℕ}
use Prim.Native.Char.{code}
use Prim.Native.String.{String}
use mathlib.Core.Path.{◌≡◌, refl, sym, ap}
use mathlib.Core.Logic.{◌↔◌, inl, inr}
use mathlib.Core.Bool.{Bool, true, false, ◌&&◌, ◌||◌}
use mathlib.Core.List.{List, [], ◌∷◌, ◌++◌}
use native.Mathlib.Omega.{arith}
use lexicon_revision.Prelude.Tests.{nat_eq, nat_eq_iff, Bool-cases, HasEq}

abbrev pub Text : Type 0
Text = List ℕ

-- A literal.
abbrev pub codes : String → Text
codes String.[] = []
codes (String.◌∷◌ c s) = code c ∷ codes s

unfoldable pub text_eq : Text → Text → Bool
text_eq [] [] = true
text_eq (a ∷ s) (b ∷ t) = nat_eq a b && text_eq s t
text_eq _ _ = false

pub text_eq_sound : (s t : Text) → text_eq s t ≡ true → s ≡ t
unfolding text_eq
text_eq_sound [] [] h = refl
text_eq_sound [] (b ∷ t) h = cc
text_eq_sound (a ∷ s) [] h = cc
text_eq_sound (a ∷ s) (b ∷ t) h = ground (arith, nat_eq_iff a b, text_eq_sound s t)

text_eq_refl : (s : Text) → text_eq s s ≡ true
unfolding text_eq
text_eq_refl [] = refl
text_eq_refl (a ∷ s) = ground (arith, nat_eq_iff a a, text_eq_refl s)

pub text_eq_iff : (s t : Text) → (text_eq s t ≡ true) ↔ (s ≡ t)
text_eq_iff s t = (text_eq_sound s t, λ e. rw e (text_eq_refl t))

pub text_eq_comm : (s t : Text) → text_eq s t ≡ text_eq t s
text_eq_comm s t = ground (arith, text_eq_iff s t, text_eq_iff t s)

instance abbrev pub text_HasEq : HasEq Text
text_HasEq = record { test = text_eq; test_iff = text_eq_iff }

-- `s.startswith(p)` is `starts_with p s`.
unfoldable pub starts_with : Text → Text → Bool
starts_with [] s = true
starts_with (a ∷ p) [] = false
starts_with (a ∷ p) (b ∷ s) = nat_eq a b && starts_with p s

-- `p in s`
unfoldable pub has_part : Text → Text → Bool
unfolding starts_with
has_part p [] = starts_with p []
has_part p (b ∷ s) = starts_with p (b ∷ s) || has_part p s

pub starts_with-append : (p s : Text) → starts_with p (p ++ s) ≡ true
unfolding starts_with
starts_with-append [] s = refl
starts_with-append (a ∷ p) s = ground (arith, nat_eq_iff a a, starts_with-append p s)

pub starts_with_split : (p s : Text) → starts_with p s ≡ true → (r : Text) × (s ≡ p ++ r)
unfolding starts_with
starts_with_split [] s h = (s, refl)
starts_with_split (a ∷ p) [] h = absurd (bad h)
  where
    bad : false ≡ true → ⊥
    bad q = cc
starts_with_split (a ∷ p) (b ∷ s) h =
    let (r, q) = starts_with_split p s (ground arith) in (r, ground (arith, nat_eq_iff a b))

-- `s.endswith(p)` is `ends_with p s`.
unfoldable pub ends_with : Text → Text → Bool
unfolding text_eq
ends_with p [] = text_eq p []
ends_with p (c ∷ s) = text_eq p (c ∷ s) || ends_with p s

pub ends_with_split : (p s : Text) → ends_with p s ≡ true → (r : Text) × (s ≡ r ++ p)
unfolding ends_with
ends_with_split p [] h = ([], sym (text_eq_sound p [] h))
ends_with_split p (c ∷ s) h = elim (Bool-cases (text_eq p (c ∷ s))) [
  | inl e ↦ ([], sym (text_eq_sound p (c ∷ s) e))
  | inr e ↦ (let (r, q) = ends_with_split p s (ground arith) in (c ∷ r, ap (λ (t : Text). c ∷ t) q))
]

pub ends_with-append : (p r : Text) → ends_with p (r ++ p) ≡ true
unfolding ends_with
ends_with-append [] [] = ground (arith, text_eq_refl [])
ends_with-append (a ∷ p) [] = ground (arith, text_eq_refl (a ∷ p))
ends_with-append p (c ∷ r) = ground (arith, ends_with-append p r)
