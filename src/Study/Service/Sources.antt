-- ===== src/Study/Service/Sources.antt =====
-- The sources of a response of src/study/service.py.
use lexicon_revision.Prelude.{
  Text, text_HasEq, text_eq, text_eq_iff, contains, IsIn-contains, All, IsIn, IsIn-append, map,
  true, Bool-cases, Option, none, some, Option-cases, List, [], ◌∷◌, ◌++◌, ◌≡◌, refl, sym, ◌⊎◌, inl,
  inr, ◌∙◌,
}
use mathlib.Core.Path.{subst}
use lexicon_revision.Study.Requests.{SearchResult, StudySource}
use lexicon_revision.Study.Service.{study_source, last_by_id, sources_of, unseen, ordered_unique}

abbrev pub id_of : SearchResult → Text
id_of r = r.chunk_id

abbrev pub result_by_id : List SearchResult → Text → Option SearchResult
result_by_id results id = last_by_id (λ (r : SearchResult). r.chunk_id) (λ r. r) results id

some_inv : (x y : SearchResult) → some x ≡ some y → x ≡ y
some_inv x y e = cc

-- The result that is found is one of the results, and has the id.
pub result_by_id_sound :
    (results : List SearchResult) (id : Text) (r : SearchResult)
    → result_by_id results id ≡ some r
    → IsIn r results × (r.chunk_id ≡ id)
unfolding last_by_id
result_by_id_sound [] id r h = absurd (bad h)
  where
    bad : none ≡ some r → ⊥
    bad q = cc
result_by_id_sound (x ∷ xs) id r h = elim (Option-cases (result_by_id xs id)) [
  | inr (y, e) ↦ later y (some_inv y r (rw e at h)) (result_by_id_sound xs id y e)
  | inl e ↦ elim (Bool-cases (text_eq x.chunk_id id)) [
    | inl q ↦ here (some_inv x r (rw (e, q) at h)) q
    | inr q ↦ absurd (missed (rw (e, q) at h))
  ]
]
  where
    missed : none ≡ some r → ⊥
    missed q = cc

    here : x ≡ r → text_eq x.chunk_id id ≡ true → IsIn r (x ∷ xs) × (r.chunk_id ≡ id)
    here p q = (inl (sym p), rw (← p) ((text_eq_iff x.chunk_id id).0 q))

    later :
        (y : SearchResult)
        → y ≡ r
        → IsIn y xs × (y.chunk_id ≡ id)
        → IsIn r (x ∷ xs) × (r.chunk_id ≡ id)
    later y p (m, q) = (inr (subst (λ (z : SearchResult). IsIn z xs) p m), rw (← p) q)

result_by_id_found :
    (results : List SearchResult) (id : Text)
    → IsIn id (map id_of results)
    → (r : SearchResult) × (result_by_id results id ≡ some r)
unfolding last_by_id
result_by_id_found [] id m = absurd m
result_by_id_found (x ∷ xs) id m = elim (Option-cases (result_by_id xs id)) [
  | inr (y, e) ↦ (y, rw (result_by_id, last_by_id, e) refl)
  | inl e ↦ elim m [
    | inl q ↦ (x, simp (result_by_id, last_by_id, e, (text_eq_iff x.chunk_id id).1 (sym q)))
    | inr n ↦ absurd (bad (result_by_id_found xs id n).0 (sym e ∙ (result_by_id_found xs id n).1))
  ]
]
  where
    bad : (y : SearchResult) → none ≡ some y → ⊥
    bad y q = cc

-- Every id of a result gives a source with that id, in the order of the ids.
pub chunk_id-sources_of :
    (results : List SearchResult) (why : Text → Option Text) (ids : List Text)
    → All (λ id. IsIn id (map id_of results)) ids
    → map (λ (s : StudySource). s.chunk_id) (sources_of results why ids) ≡ ids
unfolding sources_of study_source
chunk_id-sources_of results why [] h = refl
chunk_id-sources_of results why (id ∷ ids) (m, h) =
    let (r, e) = result_by_id_found results id m in
    simp
      (sources_of, e, (result_by_id_sound results id r e).1, chunk_id-sources_of results why ids h)

-- The ids that were not seen: each of them once, in the order in which they come first.
All-unseen :
    (P : Text → Type 0) (seen values : List Text) → All P values → All P (unseen seen values)
unfolding unseen
All-unseen P seen [] h = tt
All-unseen P seen (v ∷ vs) (p, h) = elim (Bool-cases (contains seen v)) [
  | inl q ↦ rw (unseen, q) (All-unseen P seen vs h)
  | inr q ↦ rw (unseen, q) (p, All-unseen P (seen ++ v ∷ []) vs h)
]

pub All-ordered_unique :
    (P : Text → Type 0) (values : List Text) → All P values → All P (ordered_unique values)
unfolding ordered_unique
All-ordered_unique P values h = All-unseen P [] values h

-- whatever stands in the list is kept, unless it was seen
IsIn-unseen :
    (seen values : List Text) (v : Text) → IsIn v values → IsIn v seen ⊎ IsIn v (unseen seen values)
unfolding unseen
IsIn-unseen seen [] v m = absurd m
IsIn-unseen seen (x ∷ xs) v m = elim (Bool-cases (contains seen x)) [
  | inl q ↦ elim m [
    | inl e ↦ inl (rw e (IsIn-contains seen x q))
    | inr n ↦ rw (unseen, q) (IsIn-unseen seen xs v n)
  ]
  | inr q ↦ elim m [
    | inl e ↦ rw (unseen, q) (inr (inl e))
    | inr n ↦
        rw (unseen, q)
          (elim (IsIn-unseen (seen ++ x ∷ []) xs v n) [
            | inr k ↦ inr (inr k)
            | inl k ↦ elim (IsIn-append v seen (x ∷ []) k) [
              | inl l ↦ inl l
              | inr (inl e) ↦ inr (inl e)
              | inr (inr l) ↦ absurd l
            ]
          ])
  ]
]

pub IsIn-ordered_unique :
    (values : List Text) (v : Text) → IsIn v values → IsIn v (ordered_unique values)
unfolding ordered_unique
IsIn-ordered_unique values v m = elim (IsIn-unseen [] values v m) [ inl k ↦ absurd k | inr k ↦ k ]
