-- ===== src/Search/Media/Fields.antt =====
-- What `sanitized_fields` of src/search/media_refs.py stores, for any list of fields.
use lexicon_revision.Prelude.{
  Text, text_HasEq, text_eq_iff, ◌==◌, contains, IsIn, IsIn-contains, IsNodup, All, All-IsIn,
  Bool-cases, true, false, Option, none, some, List, [], ◌∷◌, ok, ok_injective, >>=-ok, ◌≡◌, ◌≢◌,
  ◌∙◌, inl, inr, refl, sym, arith,
}
use lexicon_revision.Search.Schema.{get_item}
use lexicon_revision.Search.Media.{
  Value, Ref, Field, keys, put_stored, sanitized_fields, has_any, only,
}
use lexicon_revision.Search.Media.Kept.{Stores}

put_stored-here :
    (key : Text) (value : Option Value) (ref : Ref)
    → get_item ref key ≡ none
    → get_item (put_stored key value ref) key ≡ value
unfolding put_stored get_item
put_stored-here key none ref h = h
put_stored-here key (some value) ref h = rw ((text_eq_iff key key).1 refl) refl

put_stored-other :
    (key : Text) (value : Option Value) (ref : Ref) (k : Text)
    → (k ≡ key → ⊥)
    → get_item (put_stored key value ref) k ≡ get_item ref k
unfolding put_stored get_item
put_stored-other key none ref k h = refl
put_stored-other key (some value) ref k h = elim (Bool-cases (key == k)) [
  | inl e ↦ absurd (h (sym ((text_eq_iff key k).0 e)))
  | inr e ↦ rw e refl
]

-- what `sanitized_fields` returned for a field and the rest
sanitized-inv :
    (field : Field) (others : List Field) (ref out : Ref)
    → Stores field
    → sanitized_fields (field ∷ others) ref ≡ ok out
    → (rest : Ref) × (field.1 (get_item ref field.0) ≡ ok (get_item ref field.0))
      × (sanitized_fields others ref ≡ ok rest)
      × (put_stored field.0 (get_item ref field.0) rest ≡ out)
unfolding sanitized_fields
sanitized-inv field others ref out s h =
    let (value, e, h1) = >>=-ok (field.1 (get_item ref field.0)) _ out h in
    let (rest, q, h2) = >>=-ok (sanitized_fields others ref) _ out h1 in
    let p = s (get_item ref field.0) value e in (rest, rw p at e, q, rw p at (ok_injective h2))

sanitized-missing :
    (others : List Field) (ref out : Ref) (k : Text)
    → All Stores others
    → sanitized_fields others ref ≡ ok out
    → (IsIn k (keys others) → ⊥)
    → get_item out k ≡ none
unfolding sanitized_fields get_item
sanitized-missing [] ref out k s h m = rw (← ok_injective h) refl
sanitized-missing (field ∷ others) ref out k (f, s) h m =
    let (rest, c, e, q) = sanitized-inv field others ref out f h in
    rw (← q) (
      put_stored-other field.0 (get_item ref field.0) rest k (λ p. m (inl p))
      ∙ sanitized-missing others ref rest k s e (λ p. m (inr p)))

-- the value of a field is the one that was read
pub sanitized-get :
    (others : List Field) (ref out : Ref) (k : Text)
    → All Stores others
    → IsNodup (keys others)
    → sanitized_fields others ref ≡ ok out
    → IsIn k (keys others)
    → get_item out k ≡ get_item ref k
sanitized-get [] ref out k s d h m = absurd m
sanitized-get (field ∷ others) ref out k (f, s) (n, d) h (inl p) =
    let (rest, c, e, q) = sanitized-inv field others ref out f h in
    rw (← q, p)
      (put_stored-here field.0 (get_item ref field.0) rest (
        sanitized-missing others ref rest field.0 s e
          (λ i. All-IsIn (λ y. field.0 ≢ y) field.0 (keys others) n i refl)))
sanitized-get (field ∷ others) ref out k (f, s) (n, d) h (inr p) =
    let (rest, c, e, q) = sanitized-inv field others ref out f h in
    rw (← q) (
      put_stored-other field.0 (get_item ref field.0) rest k
        (λ i. All-IsIn (λ y. field.0 ≢ y) k (keys others) n p (sym i))
      ∙ sanitized-get others ref rest k s d e p)

-- only the values of the fields are read
pub sanitized-agrees :
    (others : List Field) (ref ref' : Ref)
    → ((k : Text) → IsIn k (keys others) → get_item ref' k ≡ get_item ref k)
    → sanitized_fields others ref' ≡ sanitized_fields others ref
unfolding sanitized_fields
sanitized-agrees [] ref ref' h = refl
sanitized-agrees (field ∷ others) ref ref' h =
    rw (h field.0 (inl refl), sanitized-agrees others ref ref' (λ k m. h k (inr m))) refl

-- the keys are those of the fields
pub sanitized-only :
    (allowed : List Text) (others : List Field) (ref out : Ref)
    → All Stores others
    → All (λ field. contains allowed field.0 ≡ true) others
    → sanitized_fields others ref ≡ ok out
    → only allowed out ≡ true
unfolding sanitized_fields only put_stored
sanitized-only allowed [] ref out s a h = rw (← ok_injective h) refl
sanitized-only allowed (field ∷ others) ref out (f, s) (c, a) h =
    let (rest, v, e, q) = sanitized-inv field others ref out f h in
    rw (← q) (
      put_stored-only field.0 (get_item ref field.0) rest c
        (sanitized-only allowed others ref rest s a e))
  where
    put_stored-only :
        (key : Text) (value : Option Value) (rest : Ref)
        → contains allowed key ≡ true
        → only allowed rest ≡ true
        → only allowed (put_stored key value rest) ≡ true
    put_stored-only key none rest k o = o
    put_stored-only key (some value) rest k o = rw (k, o) refl

-- a dictionary with allowed keys has no other
pub only-missing :
    (allowed : List Text) (ref : Ref) (k : Text)
    → only allowed ref ≡ true
    → (IsIn k allowed → ⊥)
    → get_item ref k ≡ none
unfolding only get_item
only-missing allowed [] k o m = refl
only-missing allowed (entry ∷ ref) k o m = elim (Bool-cases (entry.0 == k)) [
  | inl e ↦
      absurd
        (m (rw ((text_eq_iff entry.0 k).0 e) at (IsIn-contains allowed entry.0 (ground arith))))
  | inr e ↦ rw e (only-missing allowed ref k (ground arith) m)
]

-- allowed keys that are not forbidden
pub only-has_any :
    (allowed names : List Text) (ref : Ref)
    → ((k : Text) → contains allowed k ≡ true → contains names k ≡ false)
    → only allowed ref ≡ true
    → has_any names ref ≡ false
unfolding only has_any
only-has_any allowed names [] a o = refl
only-has_any allowed names (entry ∷ ref) a o =
    let rest = only-has_any allowed names ref a (ground arith) in
    rw (a entry.0 (ground arith), rest) refl

-- each field passes its check
pub sanitized-checks :
    (others : List Field) (ref out : Ref)
    → All Stores others
    → sanitized_fields others ref ≡ ok out
    → All (λ field. field.1 (get_item ref field.0) ≡ ok (get_item ref field.0)) others
sanitized-checks [] ref out s h = tt
sanitized-checks (field ∷ others) ref out (f, s) h =
    let (rest, c, e, q) = sanitized-inv field others ref out f h in
    (c, sanitized-checks others ref rest s e)
