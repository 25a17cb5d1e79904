-- ===== src/Study/Validation/Grounding/Kept.antt =====
-- What the loops of `validate_citations` keep of the patterns and of the sources.
use lexicon_revision.Prelude.{
  ◌≤◌, Text, IsIn, All, All-append, All-split, All-IsIn, All-of_IsIn, append-eq-nil, ◌≡◌, refl, ◌↔◌,
  Option, none, some, List, [], ◌∷◌, length, length-append, arith, is_empty, Bool-cases,
  Option-cases, inl, inr, true, false, ◌∙◌,
}
use lexicon_revision.Study.Models.{StudyPattern, CitedSource, IsPattern, IsSource}
use lexicon_revision.Study.Validation.{normalize_chunk_id}
use lexicon_revision.Study.Validation.Normalize.{normalize_chunk_id_self, normalize_chunk_id-IsIn}
use lexicon_revision.Study.Validation.Loops.{
  IsClean, misses, misses-append, kept_ids, trimmed, patterns_kept, pattern_ids, sources_kept,
  kept_source, source_ids, keep_chunk_ids-IsClean, keep_chunk_ids-length, keep_chunk_ids_self,
  kept_ids-eq-nil,
}

pub nonempty {ℓ} : {A : Type ℓ} (xs : List A) → is_empty xs ≡ false → 1 ≤ length xs
nonempty [] h = absurd (bad h)
  where
    bad : true ≡ false → ⊥
    bad q = cc
nonempty (x ∷ xs) h = omega arith

module _ (valid : List Text) where
  -- The supporting ids are valid, without repetition, and there is one.
  pub record IsGroundedPattern (p : StudyPattern) : Type 0 where
    pub clean : IsClean valid p.supporting_chunk_ids
    pub some_id : is_empty p.supporting_chunk_ids ≡ false

  kept_ids-IsClean : (ids : List Text) → IsClean valid (kept_ids valid ids)
  unfolding kept_ids
  kept_ids-IsClean ids =
      keep_chunk_ids-IsClean valid ids (record { valid_ids = []; citation_drops = 0 })
        (record { within = tt; nodup = tt })

  kept_ids-length : (ids : List Text) → length (kept_ids valid ids) ≤ length ids
  unfolding kept_ids
  kept_ids-length ids =
      omega (arith, keep_chunk_ids-length valid ids (record { valid_ids = []; citation_drops = 0 }))

  kept_ids_self : (ids : List Text) → IsClean valid ids → kept_ids valid ids ≡ ids
  unfolding kept_ids
  kept_ids_self ids h = rw (keep_chunk_ids_self valid ids [] 0 h.within h.nodup, kept_ids)

  trimmed-All {κ} :
      (P : StudyPattern → Type κ) (p : StudyPattern)
      → (is_empty (kept_ids valid p.supporting_chunk_ids) ≡ false
          → P (record p { supporting_chunk_ids = kept_ids valid p.supporting_chunk_ids }))
      → All P (trimmed valid p)
  unfolding trimmed
  trimmed-All P p f = elim (Bool-cases (is_empty (kept_ids valid p.supporting_chunk_ids))) [
    | inl e ↦ rw e tt
    | inr e ↦ rw e (f e, tt)
  ]

  pub patterns_kept-IsGrounded :
      (ps : List StudyPattern) → All (IsGroundedPattern) (patterns_kept valid ps)
  unfolding patterns_kept
  patterns_kept-IsGrounded [] = tt
  patterns_kept-IsGrounded (p ∷ ps) =
      All-append (IsGroundedPattern) (trimmed valid p) (patterns_kept valid ps)
        (trimmed-All (IsGroundedPattern) p
          (λ e. record { clean = kept_ids-IsClean p.supporting_chunk_ids; some_id = e }))
        (patterns_kept-IsGrounded ps)

  pub patterns_kept-IsPattern :
      (ps : List StudyPattern) → All IsPattern ps → All IsPattern (patterns_kept valid ps)
  unfolding patterns_kept
  patterns_kept-IsPattern [] h = tt
  patterns_kept-IsPattern (p ∷ ps) (k, h) =
      All-append IsPattern (trimmed valid p) (patterns_kept valid ps)
        (trimmed-All IsPattern p (λ e. record {
          label = k.label;
          summary = k.summary;
          some_id = nonempty (kept_ids valid p.supporting_chunk_ids) e;
          few_ids = omega (arith, kept_ids-length p.supporting_chunk_ids, k.few_ids);
        }))
        (patterns_kept-IsPattern ps h)

  pub patterns_kept-length : (ps : List StudyPattern) → length (patterns_kept valid ps) ≤ length ps
  unfolding patterns_kept trimmed
  patterns_kept-length [] = omega arith
  patterns_kept-length (p ∷ ps) =
      ground
        (arith, patterns_kept-length ps, length-append (trimmed valid p) (patterns_kept valid ps))

  clean-misses : (ids : List Text) → All (λ c. IsIn c valid) ids → misses valid ids ≡ 0
  unfolding misses
  clean-misses [] h = refl
  clean-misses (c ∷ ids) (m, h) =
      rw (normalize_chunk_id_self c valid m) (omega (arith, clean-misses ids h))

  trimmed_self : (p : StudyPattern) → IsGroundedPattern p → trimmed valid p ≡ p ∷ []
  unfolding trimmed
  trimmed_self p h = rw (kept_ids_self p.supporting_chunk_ids h.clean) (rw h.some_id)

  pub patterns_kept_self :
      (ps : List StudyPattern)
      → All (IsGroundedPattern) ps
      → (patterns_kept valid ps ≡ ps) × (misses valid (pattern_ids ps) ≡ 0)
  unfolding patterns_kept
  patterns_kept_self [] h = (refl, unfold misses in refl)
  patterns_kept_self (p ∷ ps) (k, h) =
      let (q, z) = patterns_kept_self ps h in
      (
        rw (trimmed_self p k, q) refl,
        misses-append valid p.supporting_chunk_ids (pattern_ids ps)
            ∙ omega (arith, clean-misses p.supporting_chunk_ids k.clean.within, z),
      )

  kept_source-All :
      (P : CitedSource → Type 0) (c : CitedSource) (o : Option Text)
      → o ≡ normalize_chunk_id c.chunk_id valid
      → ((n : Text) → IsIn n valid → P (record c { chunk_id = n }))
      → All P (kept_source valid c o)
  unfolding kept_source
  kept_source-All P c none q f = tt
  kept_source-All P c (some n) q f = (f n (normalize_chunk_id-IsIn c.chunk_id valid (cc)), tt)

  sources_kept-All :
      (P Q : CitedSource → Type 0) (cs : List CitedSource)
      → All Q cs
      → ((c : CitedSource) (n : Text) → Q c → IsIn n valid → P (record c { chunk_id = n }))
      → All P (sources_kept valid cs)
  unfolding sources_kept
  sources_kept-All P Q [] h f = tt
  sources_kept-All P Q (c ∷ cs) (k, h) f =
      let o = normalize_chunk_id c.chunk_id valid in
      All-append P (kept_source valid c o) (sources_kept valid cs)
        (kept_source-All P c o refl (λ n m. f c n k m)) (sources_kept-All P Q cs h f)

  pub sources_kept-within :
      (cs : List CitedSource) → All (λ s. IsIn s.chunk_id valid) (sources_kept valid cs)
  sources_kept-within cs =
      sources_kept-All (λ s. IsIn s.chunk_id valid) (λ _. Unit) cs
        (All-of_IsIn (λ _. Unit) cs (λ _ _. tt)) (λ c n _ m. m)

  pub sources_kept-IsSource :
      (cs : List CitedSource)
      → All (λ v. 1 ≤ length v) valid
      → All IsSource cs
      → All IsSource (sources_kept valid cs)
  sources_kept-IsSource cs v h = sources_kept-All IsSource IsSource cs h (λ c n k m. record {
    chunk_id = All-IsIn (λ t. 1 ≤ length t) n valid v m;
    why_cited = k.why_cited;
  })

  pub sources_kept-length : (cs : List CitedSource) → length (sources_kept valid cs) ≤ length cs
  unfolding sources_kept kept_source
  sources_kept-length [] = omega arith
  sources_kept-length (c ∷ cs) = ground (arith, sources_kept-length cs)

  pub sources_kept_self :
      (cs : List CitedSource)
      → All (λ s. IsIn s.chunk_id valid) cs
      → (sources_kept valid cs ≡ cs) × (misses valid (source_ids cs) ≡ 0)
  unfolding sources_kept kept_source misses
  sources_kept_self [] h = (refl, refl)
  sources_kept_self (c ∷ cs) (m, h) =
      let (q, z) = sources_kept_self cs h in
      (
        rw (normalize_chunk_id_self c.chunk_id valid m, q) refl,
        rw (normalize_chunk_id_self c.chunk_id valid m) (omega (arith, z)),
      )

  -- The id names no valid chunk.
  abbrev pub Missed : Text → Type 0
  Missed c = normalize_chunk_id c valid ≡ none

  pub misses-eq-length : (ids : List Text) → All Missed ids → misses valid ids ≡ length ids
  unfolding misses
  misses-eq-length [] h = refl
  misses-eq-length (c ∷ ids) (q, h) = rw q (omega (arith, misses-eq-length ids h))

  pub sources_kept-eq-nil :
      (cs : List CitedSource) → (sources_kept valid cs ≡ []) ↔ All Missed (source_ids cs)
  unfolding sources_kept kept_source
  sources_kept-eq-nil [] = (λ _. tt, λ _. refl)
  sources_kept-eq-nil (c ∷ cs) = elim (Option-cases (normalize_chunk_id c.chunk_id valid)) [
    | inl q ↦
        rw (q, sources_kept)
          (λ e. (refl, (sources_kept-eq-nil cs).0 e), λ a. (sources_kept-eq-nil cs).1 a.1)
    | inr (n, q) ↦ rw (q, sources_kept) (λ e. cc, λ a. cc (a.0))
  ]

  trimmed-eq-nil :
      (p : StudyPattern) → (trimmed valid p ≡ []) ↔ (kept_ids valid p.supporting_chunk_ids ≡ [])
  unfolding trimmed
  trimmed-eq-nil p = ground arith

  pub patterns_kept-eq-nil :
      (ps : List StudyPattern) → (patterns_kept valid ps ≡ []) ↔ All Missed (pattern_ids ps)
  unfolding patterns_kept
  patterns_kept-eq-nil [] = (λ _. tt, λ _. refl)
  patterns_kept-eq-nil (p ∷ ps) =
      let here = kept_ids-eq-nil valid p.supporting_chunk_ids in
      let later = patterns_kept-eq-nil ps in
      let split = append-eq-nil (trimmed valid p) (patterns_kept valid ps) in
      (
        λ e.
            All-append Missed p.supporting_chunk_ids (pattern_ids ps)
              (here.0 ((trimmed-eq-nil p).0 (split.0 e).0)) (later.0 (split.0 e).1),
        λ a.
            (let parts = All-split Missed p.supporting_chunk_ids (pattern_ids ps) a in
              split.1 ((trimmed-eq-nil p).1 (here.1 parts.0), later.1 parts.1)),
      )
