-- ===== src/Storage/Keys/Joined.antt =====
-- The segments of a key of src/storage/keys.py, joined again.
use lexicon_revision.Prelude.{
  ℕ, nat_eq, nat_eq_iff, Bool-cases, Text, text_HasEq, join, List, [], ◌∷◌, ◌≡◌, ◌∙◌, inl, inr,
  refl, sym, ap,
}
use lexicon_revision.Storage.Keys.Segments.{push, segments, slash}

pub join-push : (c : ℕ) (ps : List Text) → join slash (push c ps) ≡ c ∷ join slash ps
unfolding push join
join-push c [] = refl
join-push c (p ∷ []) = refl
join-push c (p ∷ q ∷ ps) = refl

pub push_cons : (c : ℕ) (ps : List Text) → (p : Text) × (qs : List Text) × (push c ps ≡ p ∷ qs)
unfolding push
push_cons c [] = (c ∷ [], [], refl)
push_cons c (p ∷ ps) = (c ∷ p, ps, refl)

pub segments_cons : (s : Text) → (p : Text) × (ps : List Text) × (segments s ≡ p ∷ ps)
unfolding segments
segments_cons [] = ([], [], refl)
segments_cons (c ∷ s) = elim (Bool-cases (nat_eq c 47)) [
  | inl e ↦ rw e ([], segments s, refl)
  | inr e ↦ rw e (push_cons c (segments s))
]

pub join_nil_cons :
    (p : Text) (ps qs : List Text) → qs ≡ p ∷ ps → join slash ([] ∷ qs) ≡ 47 ∷ join slash qs
unfolding join
join_nil_cons p ps qs e = rw e refl

-- Joining the segments of a text gives the text.
pub join-segments : (s : Text) → join slash (segments s) ≡ s
unfolding segments join
join-segments [] = refl
join-segments (c ∷ s) = elim (Bool-cases (nat_eq c 47)) [
  | inl e ↦
      (let (p, ps, q) = segments_cons s in
        rw e (join_nil_cons p ps (segments s) q ∙ rw (join-segments s, (nat_eq_iff c 47).0 e) refl))
  | inr e ↦ rw e (join-push c (segments s) ∙ ap (λ (t : Text). c ∷ t) (join-segments s))
]

pub segments_injective : (s t : Text) → segments s ≡ segments t → s ≡ t
segments_injective s t e = sym (join-segments s) ∙ ap (join slash) e ∙ join-segments t
