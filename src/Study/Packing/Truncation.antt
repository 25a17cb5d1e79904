-- ===== src/Study/Packing/Truncation.antt =====
-- How long a truncated text is, by the program's own estimator.
use lexicon_revision.Prelude.{
  ℕ, ◌+◌, ◌-◌, ◌*◌, ◌≤◌, max, Text, codes, words, join, rstrip, length-rstrip, ◌≡◌, refl, ◌⊎◌, inl,
  inr, List, [], ◌∷◌, ◌++◌, is_empty, length, length-append, length-take, take, ltb, Bool-cases,
  true, arith, if◌then◌else◌,
}
use lexicon_revision.Study.Models.{RankedChunk}
use lexicon_revision.Study.Packing.{
  truncation_marker, heuristic_estimate, take_words, truncate_to_token_budget, candidate,
}

-- No word is taken, or the words taken are estimated within the target.
abbrev Fits : ℕ → List Text → Type 0
Fits target current = (current ≡ []) ⊎ (heuristic_estimate (join (codes " ") current) ≤ target)

take_words-Fits :
    (target : ℕ) (current rest : List Text)
    → Fits target current
    → Fits target (take_words heuristic_estimate target current rest)
unfolding take_words
take_words-Fits target current [] h = h
take_words-Fits target current (w ∷ rest) h =
    elim (Bool-cases (ltb target (heuristic_estimate (join (codes " ") (current ++ w ∷ []))))) [
      | inl e ↦ rw e h
      | inr e ↦ rw e (take_words-Fits target (current ++ w ∷ []) rest (inr (ground arith)))
    ]

-- The length that a list of words with one fallback has.
shown_length :
    (target : ℕ) (text : Text) (current : List Text)
    → 1 ≤ target
    → Fits target current
    → length (
        join
          (codes " ")
          (if is_empty current then take (max 1 (target * 4)) text ∷ [] else current))
      ≤ 4 * target + 3
unfolding join heuristic_estimate
shown_length target text [] k h = omega (arith, length-take (max 1 (target * 4)) text)
shown_length target text (w ∷ ws) k (inl e) = absurd (bad e)
  where
    bad : w ∷ ws ≡ [] → ⊥
    bad q = cc
shown_length target text (w ∷ ws) k (inr e) = omega arith

marker_tokens : heuristic_estimate truncation_marker ≡ 8
unfolding heuristic_estimate
marker_tokens = refl

-- The marker and its blank are 34 characters.
closing :
    (t : Text) (k : ℕ)
    → length t ≤ 4 * k + 3
    → heuristic_estimate (rstrip t ++ (codes " " ++ truncation_marker)) ≤ k + 9
unfolding heuristic_estimate
closing t k h =
    omega (arith, length-append (rstrip t) (codes " " ++ truncation_marker), length-rstrip t, h)

-- By the program's own estimator a truncated text is estimated at one token over its limit, at
-- most (at 10, for a limit under 9).
pub truncate_to_token_budget-le :
    (text : Text) (max_tokens : ℕ)
    → heuristic_estimate (truncate_to_token_budget heuristic_estimate text max_tokens)
      ≤ max max_tokens 9 + 1
unfolding truncate_to_token_budget
truncate_to_token_budget-le text m = rw marker_tokens (
    let target : ℕ = max 1 (m - 8) in
    let current : List Text = take_words heuristic_estimate target [] (words text) in
    let shown : List Text =
      if is_empty current then take (max 1 (target * 4)) text ∷ [] else current in
    let fits = take_words-Fits target [] (words text) (inl refl) in
    let tokens =
      closing (join (codes " ") shown) target
        (shown_length target text current (omega arith) fits) in
    omega (arith, tokens))

-- Whatever chunk and limit: what is estimated of a candidate passes the limit by one token at most
-- (by up to 10, for a limit under 9), and only a truncated candidate passes it.
pub candidate-le :
    (limit : ℕ) (c : RankedChunk)
    → ((candidate heuristic_estimate limit c).estimated_tokens ≤ max limit 9 + 1)
      × (((candidate heuristic_estimate limit c).truncated ≡ true)
          ⊎ ((candidate heuristic_estimate limit c).estimated_tokens ≤ limit))
unfolding candidate
candidate-le limit c = ground (arith, truncate_to_token_budget-le c.text limit)
