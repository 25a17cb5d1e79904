-- ===== src/Storage/Keys/Segments.antt =====
-- The parts of a key of src/storage/keys.py between its slashes, which a file system reads as names.
use lexicon_revision.Prelude.{
  ℕ, nat_eq, nat_eq_iff, Bool-cases, Text, codes, text_eq, starts_with, ends_with, has_part, true,
  false, List, [], ◌∷◌, All, ◌≡◌, ◌≢◌, ◌⊎◌, inl, inr, refl, arith, if◌then◌else◌,
}

-- a character before the first of the parts
unfoldable pub push : ℕ → List Text → List Text
push c [] = (c ∷ []) ∷ []
push c (p ∷ ps) = (c ∷ p) ∷ ps

-- `s.split("/")`
unfoldable pub segments : Text → List Text
segments [] = [] ∷ []
segments (c ∷ s) = let rest = segments s in if nat_eq c 47 then [] ∷ rest else push c rest

abbrev pub slash : Text
slash = codes "/"

abbrev pub dot : Text
dot = codes "."

abbrev pub dots : Text
dots = codes ".."

-- Every part but the first.
abbrev pub Tail : (Text → Type 0) → List Text → Type 0
Tail P [] = Unit
Tail P (p ∷ ps) = All P ps

abbrev pub Head : (Text → Type 0) → List Text → Type 0
Head P [] = Unit
Head P (p ∷ ps) = P p

-- Every part but the last.
abbrev pub Inner : (Text → Type 0) → List Text → Type 0
Inner P [] = Unit
Inner P (p ∷ []) = Unit
Inner P (p ∷ q ∷ ps) = P p × Inner P (q ∷ ps)

-- Every part but the first and the last.
abbrev pub Middle : (Text → Type 0) → List Text → Type 0
Middle P [] = Unit
Middle P (p ∷ ps) = Inner P ps

abbrev IsPartOf : Text → Text → Type 0
IsPartOf s p = has_part p s ≡ true

starts_with_nil : (s : Text) → starts_with [] s ≡ true
unfolding starts_with
starts_with_nil s = refl

has_part-start : (p s : Text) → starts_with p s ≡ true → has_part p s ≡ true
unfolding has_part
has_part-start p [] h = h
has_part-start p (c ∷ s) h = ground arith

has_part-cons : (p : Text) (c : ℕ) (s : Text) → has_part p s ≡ true → has_part p (c ∷ s) ≡ true
unfolding has_part
has_part-cons p c s h = ground arith

All-IsPartOf-cons :
    (c : ℕ) (s : Text) (ps : List Text) → All (IsPartOf s) ps → All (IsPartOf (c ∷ s)) ps
All-IsPartOf-cons c s [] h = tt
All-IsPartOf-cons c s (p ∷ ps) (h, hs) = (has_part-cons p c s h, All-IsPartOf-cons c s ps hs)

-- The first part starts the text.
Starts : Text → List Text → Type 0
Starts s ps = Head (λ p. starts_with p s ≡ true) ps

push-Starts : (c : ℕ) (s : Text) (ps : List Text) → Starts s ps → Starts (c ∷ s) (push c ps)
unfolding push starts_with Starts
push-Starts c s [] h = ground (arith, nat_eq_iff c c, starts_with_nil s)
push-Starts c s (p ∷ ps) h = ground (arith, nat_eq_iff c c)

segments-Starts : (s : Text) → Starts s (segments s)
unfolding segments starts_with Starts
segments-Starts [] = refl
segments-Starts (c ∷ s) = elim (Bool-cases (nat_eq c 47)) [
  | inl e ↦ rw e refl
  | inr e ↦ rw e (push-Starts c s (segments s) (segments-Starts s))
]

push-Tail : (P : Text → Type 0) (c : ℕ) (ps : List Text) → Tail P ps → Tail P (push c ps)
unfolding push
push-Tail P c [] h = tt
push-Tail P c (p ∷ ps) h = h

Tail-of_All : (P : Text → Type 0) (ps : List Text) → All P ps → Tail P ps
Tail-of_All P [] h = tt
Tail-of_All P (p ∷ ps) (h, hs) = hs

All-IsPartOf-Head :
    (s : Text) (ps : List Text) → Starts s ps → Tail (IsPartOf s) ps → All (IsPartOf s) ps
unfolding Starts
All-IsPartOf-Head s [] h t = tt
All-IsPartOf-Head s (p ∷ ps) h t = (has_part-start p s h, t)

-- Every segment is a part of the text.
pub segments-IsPartOf : (s : Text) → All (λ p. has_part p s ≡ true) (segments s)
unfolding segments
segments-IsPartOf [] = (has_part-start [] [] (starts_with_nil []), tt)
segments-IsPartOf (c ∷ s) = elim (Bool-cases (nat_eq c 47)) [
  | inl e ↦ rw e (
    has_part-start [] (c ∷ s) (starts_with_nil (c ∷ s)),
    All-IsPartOf-cons c s (segments s) (segments-IsPartOf s),
  )
  | inr e ↦ rw e (
      All-IsPartOf-Head (c ∷ s) (push c (segments s))
        (push-Starts c s (segments s) (segments-Starts s))
        (push-Tail (IsPartOf (c ∷ s)) c (segments s) (
          Tail-of_All (IsPartOf (c ∷ s)) (segments s)
            (All-IsPartOf-cons c s (segments s) (segments-IsPartOf s)))))
]

-- The head of the segments is empty only before a slash or at the end.
abbrev pub EndsFirst : Text → Text → Type 0
EndsFirst s p = p ≡ [] → (s ≡ []) ⊎ (starts_with slash s ≡ true)

push-EndsFirst : (c : ℕ) (s : Text) (ps : List Text) → Head (EndsFirst (c ∷ s)) (push c ps)
unfolding push
push-EndsFirst c s [] = λ e. absurd (cc e)
push-EndsFirst c s (p ∷ ps) = λ e. absurd (cc e)

pub Head-segments_nil : (s : Text) → Head (EndsFirst s) (segments s)
unfolding segments starts_with
Head-segments_nil [] = λ e. inl refl
Head-segments_nil (c ∷ s) = elim (Bool-cases (nat_eq c 47)) [
  | inl e ↦ rw e (λ _. inr (ground (arith, nat_eq_iff 47 c, nat_eq_iff c 47)))
  | inr e ↦ rw e (push-EndsFirst c s (segments s))
]

pub All-of_Head : (P : Text → Type 0) (ps : List Text) → Head P ps → Tail P ps → All P ps
All-of_Head P [] h t = tt
All-of_Head P (p ∷ ps) h t = (h, t)

pub Head-map :
    (P Q : Text → Type 0) (ps : List Text) → ((p : Text) → P p → Q p) → Head P ps → Head Q ps
Head-map P Q [] f h = tt
Head-map P Q (p ∷ ps) f h = f p h

HasEmptyPart : Text → Type 0
HasEmptyPart s = (has_part (codes "//") s ≡ true) ⊎ (ends_with slash s ≡ true)

-- after a slash comes no slash, and not the end
empty_after_slash :
    (c : ℕ) (s : Text)
    → nat_eq c 47 ≡ true
    → (s ≡ []) ⊎ (starts_with slash s ≡ true)
    → HasEmptyPart (c ∷ s)
unfolding HasEmptyPart has_part starts_with ends_with text_eq
empty_after_slash c s q (inl e) = inr (rw e (ground (arith, nat_eq_iff 47 c, nat_eq_iff c 47)))
empty_after_slash c s q (inr e) = inl (ground (arith, nat_eq_iff 47 c, nat_eq_iff c 47))

-- No segment but the first is empty.
pub Tail-segments_ne :
    (s : Text)
    → has_part (codes "//") s ≡ false
    → ends_with slash s ≡ false
    → Tail (λ p. p ≢ []) (segments s)
unfolding segments has_part ends_with HasEmptyPart
Tail-segments_ne [] h e = tt
Tail-segments_ne (c ∷ s) h e = elim (Bool-cases (nat_eq c 47)) [
  | inl q ↦ rw q (
      All-of_Head (λ p. p ≢ []) (segments s)
        (Head-map (EndsFirst s) (λ p. p ≢ []) (segments s)
          (λ p f z. ruled_out (empty_after_slash c s q (f z))) (Head-segments_nil s))
        (Tail-segments_ne s (ground arith) (ground arith)))
  | inr q ↦
      rw q
        (push-Tail (λ p. p ≢ []) c (segments s) (Tail-segments_ne s (ground arith) (ground arith)))
]
  where
    ruled_out : HasEmptyPart (c ∷ s) → ⊥
    ruled_out (inl r) = cc
    ruled_out (inr r) = cc

-- A head that is a dot, with a segment behind it, starts the text with a dot and a slash.
abbrev pub StartsDot : Text → List Text → Type 0
StartsDot s [] = Unit
StartsDot s (p ∷ []) = Unit
StartsDot s (p ∷ q ∷ ps) = p ≡ dot → starts_with (codes "./") s ≡ true

abbrev pub StartsSlash : Text → List Text → Type 0
StartsSlash s [] = Unit
StartsSlash s (p ∷ []) = Unit
StartsSlash s (p ∷ q ∷ ps) = p ≡ [] → starts_with slash s ≡ true

push-StartsSlash : (c : ℕ) (s : Text) (ps : List Text) → StartsSlash (c ∷ s) (push c ps)
unfolding push
push-StartsSlash c s [] = tt
push-StartsSlash c s (p ∷ []) = tt
push-StartsSlash c s (p ∷ q ∷ ps) = λ e. absurd (cc e)

pub segments-StartsSlash : (s : Text) → StartsSlash s (segments s)
unfolding segments starts_with
segments-StartsSlash [] = tt
segments-StartsSlash (c ∷ s) = elim (Bool-cases (nat_eq c 47)) [
  | inl e ↦ rw e (from (ground (arith, nat_eq_iff 47 c, nat_eq_iff c 47)) (segments s))
  | inr e ↦ rw e (push-StartsSlash c s (segments s))
]
  where
    from : starts_with slash (c ∷ s) ≡ true → (ps : List Text) → StartsSlash (c ∷ s) ([] ∷ ps)
    from h [] = tt
    from h (p ∷ ps) = λ _. h

push-StartsDot :
    (c : ℕ) (s : Text) (ps : List Text) → StartsSlash s ps → StartsDot (c ∷ s) (push c ps)
unfolding push starts_with
push-StartsDot c s [] h = tt
push-StartsDot c s (p ∷ []) h = tt
push-StartsDot c s (p ∷ q ∷ ps) h = λ e. grind (arith, h, nat_eq_iff 46 c)

pub segments-StartsDot : (s : Text) → StartsDot s (segments s)
unfolding segments starts_with
segments-StartsDot [] = tt
segments-StartsDot (c ∷ s) = elim (Bool-cases (nat_eq c 47)) [
  | inl e ↦ rw e (from (segments s))
  | inr e ↦ rw e (push-StartsDot c s (segments s) (segments-StartsSlash s))
]
  where
    from : (ps : List Text) → StartsDot (c ∷ s) ([] ∷ ps)
    from [] = tt
    from (p ∷ ps) = λ e. absurd (cc e)
