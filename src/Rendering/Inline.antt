-- ===== src/Rendering/Inline.antt =====
-- The runs that `split_inline_math` of src/rendering/blocks.py makes of a text.
use lexicon_revision.Prelude.{
  ℕ, zero, suc, ◌<◌, nat_eq, nat_eq_iff, Text, length, length-append, append_assoc, Bool-cases,
  Option-cases, All, true, false, Option, none, some, List, [], ◌∷◌, ◌++◌, ◌≡◌, ◌≢◌, inl, inr, refl,
  ap, arith,
}
use lexicon_revision.Rendering.{
  InlineRun, text_run, math_run, with_char, up_to_dollar, nonempty_math, match_at, with_text,
  runs_from, split_inline_math, flatten_run, flatten_runs,
}

-- a character that inline math may have
abbrev pub IsMathChar : ℕ → Type 0
IsMathChar c = (nat_eq c 36 ≡ false) × (nat_eq c 10 ≡ false)

-- what a match says of the text behind its first dollar sign
abbrev IsSplitAt : Text → Text × Text → Type 0
IsSplitAt s r = (s ≡ r.0 ++ 36 ∷ r.1) × All IsMathChar r.0

with_char_split :
    (c : ℕ) (s : Text) (o : Option (Text × Text)) (r : Text × Text)
    → IsMathChar c
    → ((q : Text × Text) → o ≡ some q → IsSplitAt s q)
    → with_char c o ≡ some r
    → IsSplitAt (c ∷ s) r
unfolding with_char
with_char_split c s none r k f h = absurd (cc h)
with_char_split c s (some (latex, behind)) r k f h =
    let (e, m) = f (latex, behind) refl in
    rw (← some_injective h) (ap (λ (t : Text). c ∷ t) e, (k, m))
  where
    some_injective : {a b : Text × Text} → ◌≡◌ {A = Option (Text × Text)} (some a) (some b) → a ≡ b
    some_injective e = cc e

up_to_dollar_split : (s : Text) (r : Text × Text) → up_to_dollar s ≡ some r → IsSplitAt s r
unfolding up_to_dollar
up_to_dollar_split [] r h = absurd (cc h)
up_to_dollar_split (c ∷ s) r h = elim (Bool-cases (nat_eq c 36)) [
  | inl e ↦ ends e (rw e at h)
  | inr e ↦ elim (Bool-cases (nat_eq c 10)) [
    | inl k ↦ absurd (newline e k)
    | inr k ↦ with_char_split c s (up_to_dollar s) r (e, k) (up_to_dollar_split s) (rw (e, k) at h)
  ]
]
  where
    newline : nat_eq c 36 ≡ false → nat_eq c 10 ≡ true → ⊥
    newline e k = cc (rw (e, k) at h)

    ends :
        nat_eq c 36 ≡ true
        → ◌≡◌ {A = Option (Text × Text)} (some ([], s)) (some r)
        → IsSplitAt (c ∷ s) r
    ends e q = let w : ([], s) ≡ r = cc q in rw (← w) (rw ((nat_eq_iff c 36).0 e) refl, tt)

-- what a match says of the text that it starts
abbrev IsMatch : Text → Text × Text → Type 0
IsMatch s r = (s ≡ 36 ∷ (r.0 ++ 36 ∷ r.1)) × (r.0 ≢ []) × All IsMathChar r.0

nonempty_math_split :
    (s : Text) (o : Option (Text × Text)) (r : Text × Text)
    → ((q : Text × Text) → o ≡ some q → IsSplitAt s q)
    → nonempty_math o ≡ some r
    → IsMatch (36 ∷ s) r
unfolding nonempty_math
nonempty_math_split s none r f e = absurd (cc e)
nonempty_math_split s (some ([], behind)) r f e = absurd (cc e)
nonempty_math_split s (some (c ∷ latex, behind)) r f e =
    let w : (c ∷ latex, behind) ≡ r = cc e in
    let (split, m) = f (c ∷ latex, behind) refl in
    rw (← w) (ap (λ (t : Text). 36 ∷ t) split, (λ z. cc z), m)

match_at_split : (c : ℕ) (s : Text) (r : Text × Text) → match_at c s ≡ some r → IsMatch (c ∷ s) r
unfolding match_at
match_at_split c s r h = elim (Bool-cases (nat_eq c 36)) [
  | inl e ↦
      rw ((nat_eq_iff c 36).0 e)
        (nonempty_math_split s (up_to_dollar s) r (up_to_dollar_split s) (rw e at h))
  | inr e ↦ absurd (other e)
]
  where
    other : nat_eq c 36 ≡ false → ⊥
    other e = cc (rw e at h)

-- a run of text is not empty, and a run of math is a match of the pattern
abbrev pub IsRun : InlineRun → Type 0
IsRun (text_run text) = text ≢ []
IsRun (math_run latex) = (latex ≢ []) × All IsMathChar latex

-- no two runs of text stand beside each other
abbrev pub Alternates : List InlineRun → Type 0
Alternates [] = Unit
Alternates (math_run latex ∷ runs) = Alternates runs
Alternates (text_run text ∷ []) = Unit
Alternates (text_run text ∷ text_run next ∷ runs) = ⊥
Alternates (text_run text ∷ math_run latex ∷ runs) = Alternates runs

-- the runs of a text
abbrev pub IsSplitInto : Text → List InlineRun → Type 0
IsSplitInto text runs = (flatten_runs runs ≡ text) × All IsRun runs × Alternates runs

with_text_end : (pending : Text) → IsSplitInto (pending ++ []) (with_text pending [])
unfolding with_text flatten_runs flatten_run
with_text_end [] = (refl, tt, tt)
with_text_end (c ∷ pending) = (refl, ((λ z. cc z), tt), tt)

with_text_math :
    (pending latex text : Text) (runs : List InlineRun)
    → (latex ≢ []) × All IsMathChar latex
    → IsSplitInto text runs
    → IsSplitInto (pending ++ 36 ∷ (latex ++ 36 ∷ text)) (with_text pending (math_run latex ∷ runs))
unfolding with_text flatten_runs flatten_run
with_text_math pending latex text runs k (e, r, a) = from pending
  where
    flat : flatten_runs (math_run latex ∷ runs) ≡ 36 ∷ (latex ++ 36 ∷ text)
    flat = rw (e, append_assoc latex (36 ∷ []) text) refl

    from :
        (p : Text)
        → IsSplitInto (p ++ 36 ∷ (latex ++ 36 ∷ text)) (with_text p (math_run latex ∷ runs))
    from [] = (flat, (k, r), a)
    from (c ∷ p) = (ap (λ (t : Text). c ∷ (p ++ t)) flat, ((λ z. cc z), (k, r)), a)

-- With a bound above the length of the text that is left, the runs are those of the whole text.
runs_from_split :
    (n : ℕ) (pending s : Text) → length s < n → IsSplitInto (pending ++ s) (runs_from n pending s)
unfolding runs_from
runs_from_split zero pending s h = absurd (omega arith)
runs_from_split (suc n) pending [] h = with_text_end pending
runs_from_split (suc n) pending (c ∷ s) h = elim (Option-cases (match_at c s)) [
  | inl q ↦
      rw (q, runs_from)
        (rw (append_assoc pending (c ∷ []) s) at
          (runs_from_split n (pending ++ c ∷ []) s (omega arith)))
  | inr (r, q) ↦
      rw (q, runs_from) (matched r (match_at_split c s r q) (λ k. runs_from_split n [] r.1 k))
]
  where
    shorter : (r : Text × Text) → c ∷ s ≡ 36 ∷ (r.0 ++ 36 ∷ r.1) → length r.1 < n
    shorter r e =
        let k : length (c ∷ s) ≡ length (36 ∷ (r.0 ++ 36 ∷ r.1)) = ap length e in
        omega (arith, length-append r.0 (36 ∷ r.1))

    matched :
        (r : Text × Text)
        → IsMatch (c ∷ s) r
        → (length r.1 < n → IsSplitInto r.1 (runs_from n [] r.1))
        → IsSplitInto (pending ++ c ∷ s) (with_text pending (math_run r.0 ∷ runs_from n [] r.1))
    matched r (e, ne, m) ih =
        rw e (with_text_math pending r.0 r.1 (runs_from n [] r.1) (ne, m) (ih (shorter r e)))

-- The runs of `split_inline_math` put together to the text, with a dollar sign on both sides of
-- each run of math; no run is empty, the math has no dollar sign and no newline, and no two runs of
-- text stand beside each other.
pub split_inline_math-IsSplitInto : (text : Text) → IsSplitInto text (split_inline_math text)
unfolding split_inline_math
split_inline_math-IsSplitInto text = runs_from_split (suc (length text)) [] text (omega arith)
