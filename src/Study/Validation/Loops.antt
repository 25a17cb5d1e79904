-- ===== src/Study/Validation/Loops.antt =====
-- The loops of `validate_citations`: what is kept, and what is counted.
use lexicon_revision.Prelude.{
  ℕ, ◌+◌, ◌≤◌, Text, text_HasEq, contains, contains_of_not_IsIn, not_IsIn-contains, IsIn, IsNodup,
  IsNodup-snoc, All, All-append, is_empty, IsNodup-append_ne, ◌∙◌, ◌≡◌, refl, ap, ◌↔◌,
  contains-length, false, is_some, Bool-cases, Option-cases, inl, inr, Option, none, some, List, [],
  ◌∷◌, ◌++◌, append_assoc, append-nil, length, length-append, arith, if◌then◌else◌,
}
use lexicon_revision.Study.Models.{StudyPattern, CitedSource}
use lexicon_revision.Study.Validation.{
  normalize_chunk_id, IdLoop, take_chunk_id, keep_chunk_ids, PatternLoop, keep_pattern,
  keep_patterns, SourceLoop, keep_source, keep_sources,
}
use lexicon_revision.Study.Validation.Normalize.{normalize_chunk_id_self, normalize_chunk_id-IsIn}

-- The ids that a draft cites.
abbrev pub pattern_ids : List StudyPattern → List Text
pattern_ids [] = []
pattern_ids (p ∷ ps) = p.supporting_chunk_ids ++ pattern_ids ps

abbrev pub source_ids : List CitedSource → List Text
source_ids [] = []
source_ids (c ∷ cs) = c.chunk_id ∷ source_ids cs

module _ (valid : List Text) where
  -- Every id is valid and none stands twice.
  pub record IsClean (ids : List Text) : Type 0 where
    pub within : All (λ c. IsIn c valid) ids
    pub nodup : IsNodup ids

  -- how many of the ids name no valid chunk
  unfoldable pub misses : List Text → ℕ
  misses [] = 0
  misses (c ∷ ids) = (if is_some (normalize_chunk_id c valid) then 0 else 1) + misses ids

  take_chunk_id-IsClean :
      (o : Option Text) (s : IdLoop)
      → ((n : Text) → o ≡ some n → IsIn n valid)
      → IsClean s.valid_ids
      → IsClean (take_chunk_id o s).valid_ids
  unfolding take_chunk_id
  take_chunk_id-IsClean none s f h = h
  take_chunk_id-IsClean (some n) s f h = elim (Bool-cases (contains s.valid_ids n)) [
    | inl e ↦ rw e h
    | inr e ↦ rw e (record {
      within = All-append (λ c. IsIn c valid) s.valid_ids (n ∷ []) h.within (f n refl, tt);
      nodup = IsNodup-snoc s.valid_ids n h.nodup (not_IsIn-contains s.valid_ids n e);
    })
  ]

  pub keep_chunk_ids-IsClean :
      (ids : List Text) (s : IdLoop)
      → IsClean s.valid_ids
      → IsClean (keep_chunk_ids valid ids s).valid_ids
  unfolding keep_chunk_ids
  keep_chunk_ids-IsClean [] s h = h
  keep_chunk_ids-IsClean (c ∷ ids) s h =
      keep_chunk_ids-IsClean ids (take_chunk_id (normalize_chunk_id c valid) s) (
        take_chunk_id-IsClean (normalize_chunk_id c valid) s (λ n. normalize_chunk_id-IsIn c valid)
          h)

  take_chunk_id-drops :
      (o : Option Text) (s : IdLoop)
      → (take_chunk_id o s).citation_drops ≡ s.citation_drops + (if is_some o then 0 else 1)
  unfolding take_chunk_id
  take_chunk_id-drops none s = omega arith
  take_chunk_id-drops (some n) s = ground arith

  pub keep_chunk_ids-drops :
      (ids : List Text) (s : IdLoop)
      → (keep_chunk_ids valid ids s).citation_drops ≡ s.citation_drops + misses ids
  unfolding keep_chunk_ids misses
  keep_chunk_ids-drops [] s = omega arith
  keep_chunk_ids-drops (c ∷ ids) s = ground (
    arith,
    keep_chunk_ids-drops ids (take_chunk_id (normalize_chunk_id c valid) s),
    take_chunk_id-drops (normalize_chunk_id c valid) s,
  )

  take_chunk_id-length :
      (o : Option Text) (s : IdLoop) → length (take_chunk_id o s).valid_ids ≤ length s.valid_ids + 1
  unfolding take_chunk_id
  take_chunk_id-length none s = omega arith
  take_chunk_id-length (some n) s = ground (arith, length-append s.valid_ids (n ∷ []))

  pub keep_chunk_ids-length :
      (ids : List Text) (s : IdLoop)
      → length (keep_chunk_ids valid ids s).valid_ids ≤ length s.valid_ids + length ids
  unfolding keep_chunk_ids
  keep_chunk_ids-length [] s = omega arith
  keep_chunk_ids-length (c ∷ ids) s = omega (
    arith,
    keep_chunk_ids-length ids (take_chunk_id (normalize_chunk_id c valid) s),
    take_chunk_id-length (normalize_chunk_id c valid) s,
  )

  take_chunk_id-grows :
      (o : Option Text) (s : IdLoop) → length s.valid_ids ≤ length (take_chunk_id o s).valid_ids
  unfolding take_chunk_id
  take_chunk_id-grows none s = omega arith
  take_chunk_id-grows (some n) s = ground (arith, length-append s.valid_ids (n ∷ []))

  keep_chunk_ids-grows :
      (ids : List Text) (s : IdLoop)
      → length s.valid_ids ≤ length (keep_chunk_ids valid ids s).valid_ids
  unfolding keep_chunk_ids
  keep_chunk_ids-grows [] s = omega arith
  keep_chunk_ids-grows (c ∷ ids) s = omega (
    arith,
    keep_chunk_ids-grows ids (take_chunk_id (normalize_chunk_id c valid) s),
    take_chunk_id-grows (normalize_chunk_id c valid) s,
  )

  take_chunk_id-fresh :
      (n : Text) (acc : List Text) (d : ℕ)
      → contains acc n ≡ false
      → take_chunk_id (some n) (record { valid_ids = acc; citation_drops = d })
        ≡ record { valid_ids = acc ++ n ∷ []; citation_drops = d }
  unfolding take_chunk_id
  take_chunk_id-fresh n acc d e = rw e

  -- Clean ids that are not there yet are all taken, in their order.
  pub keep_chunk_ids_self :
      (ids acc : List Text) (d : ℕ)
      → All (λ c. IsIn c valid) ids
      → IsNodup (acc ++ ids)
      → keep_chunk_ids valid ids (record { valid_ids = acc; citation_drops = d })
        ≡ record { valid_ids = acc ++ ids; citation_drops = d }
  unfolding keep_chunk_ids
  keep_chunk_ids_self [] acc d h n = rw append-nil
  keep_chunk_ids_self (c ∷ ids) acc d (m, h) n =
      let fresh =
        contains_of_not_IsIn acc c (λ k. IsNodup-append_ne c acc (c ∷ ids) n k (inl refl)) in
      rw (normalize_chunk_id_self c valid m) (
        rw (take_chunk_id-fresh c acc d fresh)
          (keep_chunk_ids_self ids (acc ++ c ∷ []) d h (rw append_assoc n) ∙ rw append_assoc refl))

  keep_chunk_ids-any_drops :
      (ids acc : List Text) (d e : ℕ)
      → (keep_chunk_ids valid ids (record { valid_ids = acc; citation_drops = d })).valid_ids
        ≡ (keep_chunk_ids valid ids (record { valid_ids = acc; citation_drops = e })).valid_ids
  unfolding keep_chunk_ids take_chunk_id
  keep_chunk_ids-any_drops [] acc d e = refl
  keep_chunk_ids-any_drops (c ∷ ids) acc d e = elim (Option-cases (normalize_chunk_id c valid)) [
    | inl q ↦ rw (q, keep_chunk_ids) (keep_chunk_ids-any_drops ids acc (d + 1) (e + 1))
    | inr (n, q) ↦
        rw (q, keep_chunk_ids)
          (elim (Bool-cases (contains acc n)) [
            | inl k ↦ rw k (keep_chunk_ids-any_drops ids acc d e)
            | inr k ↦ rw k (keep_chunk_ids-any_drops ids (acc ++ n ∷ []) d e)
          ])
  ]

  -- Without `citation_drops`: what is left of a pattern's ids, and of the pattern.
  unfoldable pub kept_ids : List Text → List Text
  kept_ids ids =
      (keep_chunk_ids valid ids (record { valid_ids = []; citation_drops = 0 })).valid_ids

  unfoldable pub trimmed : StudyPattern → List StudyPattern
  trimmed p =
      if is_empty (kept_ids p.supporting_chunk_ids)
      then []
      else record p { supporting_chunk_ids = kept_ids p.supporting_chunk_ids } ∷ []

  unfoldable pub patterns_kept : List StudyPattern → List StudyPattern
  patterns_kept [] = []
  patterns_kept (p ∷ ps) = trimmed p ++ patterns_kept ps

  pub misses-append : (xs ys : List Text) → misses (xs ++ ys) ≡ misses xs + misses ys
  unfolding misses
  misses-append [] ys = omega arith
  misses-append (c ∷ xs) ys = omega (arith, misses-append xs ys)

  keep_pattern-eq :
      (p : StudyPattern) (s : PatternLoop)
      → keep_pattern valid p s ≡ record {
        kept_patterns = s.kept_patterns ++ trimmed p;
        citation_drops = s.citation_drops + misses p.supporting_chunk_ids;
      }
  unfolding keep_pattern trimmed kept_ids
  keep_pattern-eq p s = ground (
    arith,
    keep_chunk_ids-any_drops p.supporting_chunk_ids [] s.citation_drops 0,
    keep_chunk_ids-drops p.supporting_chunk_ids
        (record { valid_ids = []; citation_drops = s.citation_drops }),
    append-nil s.kept_patterns,
  )

  pub keep_patterns-eq :
      (ps : List StudyPattern) (s : PatternLoop)
      → keep_patterns valid ps s ≡ record {
        kept_patterns = s.kept_patterns ++ patterns_kept ps;
        citation_drops = s.citation_drops + misses (pattern_ids ps);
      }
  unfolding keep_patterns patterns_kept misses
  keep_patterns-eq [] s = ground (arith, append-nil s.kept_patterns)
  keep_patterns-eq (p ∷ ps) s = rw keep_pattern-eq (
      keep_patterns-eq ps _
      ∙ ground (
        arith,
        misses-append p.supporting_chunk_ids (pattern_ids ps),
        append_assoc s.kept_patterns (trimmed p) (patterns_kept ps),
      ))

  unfoldable pub kept_source : CitedSource → Option Text → List CitedSource
  kept_source c none = []
  kept_source c (some n) = record c { chunk_id = n } ∷ []

  unfoldable pub sources_kept : List CitedSource → List CitedSource
  sources_kept [] = []
  sources_kept (c ∷ cs) = kept_source c (normalize_chunk_id c.chunk_id valid) ++ sources_kept cs

  pub keep_sources-eq :
      (cs : List CitedSource) (s : SourceLoop)
      → keep_sources valid cs s ≡ record {
        kept_sources = s.kept_sources ++ sources_kept cs;
        citation_drops = s.citation_drops + misses (source_ids cs);
      }
  unfolding keep_sources sources_kept kept_source keep_source misses
  keep_sources-eq [] s = ground (arith, append-nil s.kept_sources)
  keep_sources-eq (c ∷ cs) s = elim (Option-cases (normalize_chunk_id c.chunk_id valid)) [
    | inl q ↦
        rw q
          (keep_sources-eq cs (record s { citation_drops = s.citation_drops + 1 }) ∙ ground arith)
    | inr (n, q) ↦ rw q (
        keep_sources-eq cs
          (record s { kept_sources = s.kept_sources ++ record c { chunk_id = n } ∷ [] })
        ∙ ground
            (arith, append_assoc s.kept_sources (record c { chunk_id = n } ∷ []) (sources_kept cs)))
  ]

  take_chunk_id-ne_nil : (n : Text) (s : IdLoop) → 1 ≤ length (take_chunk_id (some n) s).valid_ids
  unfolding take_chunk_id
  take_chunk_id-ne_nil n s = elim (Bool-cases (contains s.valid_ids n)) [
    | inl q ↦ rw q (contains-length s.valid_ids n q)
    | inr q ↦ rw q (omega (arith, length-append s.valid_ids (n ∷ [])))
  ]

  keep_chunk_ids-eq-nil :
      (ids : List Text) (d : ℕ)
      → length (keep_chunk_ids valid ids (record { valid_ids = []; citation_drops = d })).valid_ids
        ≡ 0
      → All (λ c. normalize_chunk_id c valid ≡ none) ids
  unfolding keep_chunk_ids take_chunk_id
  keep_chunk_ids-eq-nil [] d h = tt
  keep_chunk_ids-eq-nil (c ∷ ids) d h = elim (Option-cases (normalize_chunk_id c valid)) [
    | inl q ↦ (q, keep_chunk_ids-eq-nil ids (d + 1) (rw (q, keep_chunk_ids) at h))
    | inr (n, q) ↦ absurd (
        let k = rw (q, keep_chunk_ids) at h in
        omega (
          arith,
          k,
          take_chunk_id-ne_nil n (record { valid_ids = []; citation_drops = d }),
          keep_chunk_ids-grows ids
              (take_chunk_id (some n) (record { valid_ids = []; citation_drops = d })),
        ))
  ]

  keep_chunk_ids-missed :
      (ids : List Text) (s : IdLoop)
      → All (λ c. normalize_chunk_id c valid ≡ none) ids
      → (keep_chunk_ids valid ids s).valid_ids ≡ s.valid_ids
  unfolding keep_chunk_ids
  keep_chunk_ids-missed [] s h = refl
  keep_chunk_ids-missed (c ∷ ids) s (q, h) =
      rw (q, keep_chunk_ids)
        (keep_chunk_ids-missed ids (take_chunk_id none s) h ∙ unfold take_chunk_id in refl)

  -- Nothing is kept exactly when every id misses.
  pub kept_ids-eq-nil :
      (ids : List Text) → (kept_ids ids ≡ []) ↔ All (λ c. normalize_chunk_id c valid ≡ none) ids
  unfolding kept_ids
  kept_ids-eq-nil ids = (
    (λ e. keep_chunk_ids-eq-nil ids 0 (ap length e)),
    keep_chunk_ids-missed ids (record { valid_ids = []; citation_drops = 0 }),
  )
