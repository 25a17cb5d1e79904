-- ===== src/Storage/Keys/Contained.antt =====
-- What the segments of a key that `validate_key` of src/storage/keys.py accepts cannot be.
use lexicon_revision.Prelude.{
  ℕ, nat_eq, nat_eq_iff, Bool-cases, Text, codes, starts_with, has_part, true, false, ◌⊎◌, List, [],
  ◌∷◌, All, ◌≡◌, ◌≢◌, inl, inr, arith, ok,
}
use lexicon_revision.Storage.Keys.{is_rejected, validate_key}
use lexicon_revision.Storage.Keys.Segments.{
  push, segments, slash, dot, dots, Tail, Inner, StartsDot, EndsFirst, segments-IsPartOf,
  Head-segments_nil, Tail-segments_ne, All-of_Head, Head-map, segments-StartsDot,
}

-- Every segment but the first and the last.
abbrev Middle : (Text → Type 0) → List Text → Type 0
Middle P [] = Unit
Middle P (p ∷ ps) = Inner P ps

push-Middle : (P : Text → Type 0) (c : ℕ) (ps : List Text) → Middle P ps → Middle P (push c ps)
unfolding push
push-Middle P c [] h = tt
push-Middle P c (p ∷ ps) h = h

Inner-of_Middle :
    (s : Text) (ps : List Text)
    → StartsDot s ps
    → starts_with (codes "./") s ≡ false
    → Middle (λ p. p ≢ dot) ps
    → Inner (λ p. p ≢ dot) ps
Inner-of_Middle s [] d h m = tt
Inner-of_Middle s (p ∷ []) d h m = tt
Inner-of_Middle s (p ∷ q ∷ ps) d h m = (λ e. differ (d e), m)
  where
    differ : starts_with (codes "./") s ≡ true → ⊥
    differ r = cc

not_dot_slash :
    (c : ℕ) (s : Text)
    → nat_eq c 47 ≡ true
    → has_part (codes "/./") (c ∷ s) ≡ false
    → starts_with (codes "./") s ≡ false
unfolding has_part starts_with
not_dot_slash c s q h = ground (arith, nat_eq_iff 47 c, nat_eq_iff c 47)

Middle-segments : (s : Text) → has_part (codes "/./") s ≡ false → Middle (λ p. p ≢ dot) (segments s)
unfolding segments has_part
Middle-segments [] h = tt
Middle-segments (c ∷ s) h = elim (Bool-cases (nat_eq c 47)) [
  | inl q ↦ rw q (
      Inner-of_Middle s (segments s) (segments-StartsDot s) (not_dot_slash c s q h)
        (Middle-segments s (ground arith)))
  | inr q ↦ rw q (push-Middle (λ p. p ≢ dot) c (segments s) (Middle-segments s (ground arith)))
]

-- no segment is empty, none is `..`, and none but the last is `.`
abbrev pub IsContained : List Text → Type 0
IsContained ps = All (λ p. p ≢ []) ps × All (λ p. p ≢ dots) ps × Inner (λ p. p ≢ dot) ps

All-ne_dots :
    (s : Text) (ps : List Text)
    → has_part dots s ≡ false
    → All (λ p. has_part p s ≡ true) ps
    → All (λ p. p ≢ dots) ps
All-ne_dots s [] h a = tt
All-ne_dots s (p ∷ ps) h (a, rest) = (λ e. cc, All-ne_dots s ps h rest)

All-segments_ne :
    (s : Text)
    → s ≢ []
    → starts_with slash s ≡ false
    → Tail (λ p. p ≢ []) (segments s)
    → All (λ p. p ≢ []) (segments s)
All-segments_ne s n h t =
    All-of_Head (λ p. p ≢ []) (segments s)
      (Head-map (EndsFirst s) (λ p. p ≢ []) (segments s) (λ p f e. no_end (f e))
        (Head-segments_nil s))
      t
  where
    no_end : (s ≡ []) ⊎ (starts_with slash s ≡ true) → ⊥
    no_end (inl e) = n e
    no_end (inr e) = cc

-- The segments of a key that `validate_key` accepts are names that stay below the directory they
-- are resolved in: none is empty, none is `..`, and none but the last is `.`.
pub validate_key-IsContained : (key : Text) → validate_key key ≡ ok tt → IsContained (segments key)
unfolding validate_key is_rejected
validate_key-IsContained key h = (
  All-segments_ne key (λ e. rejects_nil e) (ground arith)
      (Tail-segments_ne key (ground arith) (ground arith)),
  All-ne_dots key (segments key) (ground arith) (segments-IsPartOf key),
  Inner-of_Middle key (segments key) (segments-StartsDot key) (ground arith)
      (Middle-segments key (ground arith)),
)
  where
    accepted : is_rejected key ≡ false
    accepted = ground arith

    rejects_nil : key ≡ [] → ⊥
    rejects_nil e = cc (rw e at accepted)
