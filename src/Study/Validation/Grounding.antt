-- ===== src/Study/Validation/Grounding.antt =====
-- `validate_citations` as a whole: what a validated draft cites, what is counted and when the
-- answer is given up.
pub mod Kept
use lexicon_revision.Prelude.{
  ℕ, ◌+◌, ◌≤◌, ◌<◌, Text, text_HasEq, take, length-take, IsIn, All, All-append, All-split, ◌≡◌,
  refl, ◌↔◌, Option, none, some, List, [], ◌∷◌, ◌++◌, length, length-append, arith, is_empty, ap,
}
use lexicon_revision.Study.Models.{
  widen, AnswerStatus, citation_validation_cascade_failure, StudyPattern, CitedSource,
  StudyAnswerDraft, ValidationResult, IsDraft,
}
use lexicon_revision.Study.Validation.{
  normalize_chunk_id, append_limited_limitation, partial_limitation, conclude, validate_citations,
}
use lexicon_revision.Study.Validation.Loops.{
  misses, misses-append, patterns_kept, pattern_ids, sources_kept, source_ids, keep_patterns-eq,
  keep_sources-eq,
}
use Kept.{
  IsGroundedPattern, patterns_kept-IsGrounded, sources_kept-within, patterns_kept_self,
  sources_kept_self, Missed, patterns_kept-eq-nil, sources_kept-eq-nil, misses-eq-length,
  patterns_kept-IsPattern, sources_kept-IsSource, patterns_kept-length, sources_kept-length,
}

pub record IsGrounded (valid : List Text) (d : StudyAnswerDraft) : Type 0 where
  pub patterns : All (IsGroundedPattern valid) d.patterns
  pub sources : All (λ s. IsIn s.chunk_id valid) d.cited_sources

-- All that a draft cites, in its patterns and in its sources.
abbrev pub cited_ids : StudyAnswerDraft → List Text
cited_ids d = pattern_ids d.patterns ++ source_ids d.cited_sources

append_limited-le : (ls : List Text) (l : Text) → length (append_limited_limitation ls l 5) ≤ 5
unfolding append_limited_limitation
append_limited-le ls l = ground (
  arith,
  length-append ls (l ∷ []),
  length-append (take 4 ls) (l ∷ []),
  length-take 4 ls,
  length-take 5 ls,
)

-- What `conclude` answers, for what the loops kept.
module _ (d : StudyAnswerDraft) (ps : List StudyPattern) (cs : List CitedSource) (n : ℕ) where
  conclude-draft :
      (d' : StudyAnswerDraft)
      → (conclude d ps cs n).draft ≡ some d'
      → (d'.patterns ≡ ps)
        × (d'.cited_sources ≡ cs)
        × (d'.overview ≡ d.overview)
        × (length d.limitations ≤ 5 → length d'.limitations ≤ 5)
  unfolding conclude
  conclude-draft d' h = ground (arith, append_limited-le d.limitations partial_limitation)

  conclude-gives_up : ((conclude d ps cs n).draft ≡ none) ↔ ((0 < n) × (ps ≡ []) × (cs ≡ []))
  unfolding conclude
  conclude-gives_up = ground arith

  conclude-drops : (conclude d ps cs n).citation_drops ≡ n
  unfolding conclude
  conclude-drops = ground arith

module _ (d : StudyAnswerDraft) (valid : List Text) where
  validate_citations-eq :
      validate_citations d valid
      ≡ conclude d
          (patterns_kept valid d.patterns)
          (sources_kept valid d.cited_sources)
          (misses valid (cited_ids d))
  unfolding validate_citations
  validate_citations-eq =
      rw (keep_patterns-eq, keep_sources-eq, misses-append)
        (ap (conclude d (patterns_kept valid d.patterns) (sources_kept valid d.cited_sources))
          (omega arith))

  -- An accepted draft cites only valid chunks: each pattern that is left has at least one
  -- supporting id, its ids are valid and none stands twice, and each source that is left is valid.
  pub validate_citations-IsGrounded :
      (d' : StudyAnswerDraft) → (validate_citations d valid).draft ≡ some d' → IsGrounded valid d'
  validate_citations-IsGrounded d' h =
      let (p, s, _, _) =
        conclude-draft d (patterns_kept valid d.patterns) (sources_kept valid d.cited_sources)
          (misses valid (cited_ids d)) d' (rw validate_citations-eq at h) in
      record {
        patterns = rw p (patterns_kept-IsGrounded valid d.patterns);
        sources = rw s (sources_kept-within valid d.cited_sources);
      }

  -- A grounded draft passes unchanged, with no citation dropped.
  pub validate_citations_of_IsGrounded :
      IsGrounded valid d
      → validate_citations d valid ≡ record {
        draft = some d;
        answer_status = widen d.answer_status;
        error_category = none;
        citation_drops = 0;
        limitations = d.limitations;
      }
  validate_citations_of_IsGrounded g =
      let (p, k) = patterns_kept_self valid d.patterns g.patterns in
      let (s, m) = sources_kept_self valid d.cited_sources g.sources in
      rw validate_citations-eq (rw (p, s, misses-append, k, m) (unfold conclude in refl))

  -- The count of dropped citations is the number of cited ids that name no valid chunk.
  pub citation_drops-eq-misses :
      (validate_citations d valid).citation_drops ≡ misses valid (cited_ids d)
  citation_drops-eq-misses = rw (validate_citations-eq, conclude-drops)

  -- The answer is given up exactly when the draft cites something and nothing that it cites names
  -- a valid chunk.
  pub gives_up_iff :
      ((validate_citations d valid).draft ≡ none)
      ↔ ((0 < length (cited_ids d)) × All (Missed valid) (cited_ids d))
  gives_up_iff =
      let given_up =
        conclude-gives_up d (patterns_kept valid d.patterns) (sources_kept valid d.cited_sources)
          (misses valid (cited_ids d)) in
      let ps = patterns_kept-eq-nil valid d.patterns in
      let cs = sources_kept-eq-nil valid d.cited_sources in
      let count = misses-eq-length valid (cited_ids d) in
      rw validate_citations-eq (
        λ h.
            (let (n, p, c) = given_up.0 h in
              let all =
                All-append (Missed valid) (pattern_ids d.patterns) (source_ids d.cited_sources)
                  (ps.0 p) (cs.0 c) in
              (omega (arith, n, count all), all)),
        λ h.
            (let (l, r) =
                All-split (Missed valid) (pattern_ids d.patterns) (source_ids d.cited_sources)
                  h.1 in
              given_up.1 (omega (arith, h.0, count h.1), ps.1 l, cs.1 r)),
      )

  -- From a draft that meets the constraints of its pydantic model, and chunk ids that are not
  -- empty, an accepted draft meets them too, so that building it raises nothing.
  pub validate_citations-IsDraft :
      (d' : StudyAnswerDraft)
      → All (λ v. 1 ≤ length v) valid
      → IsDraft d
      → (validate_citations d valid).draft ≡ some d'
      → IsDraft d'
  validate_citations-IsDraft d' v k h =
      let (p, s, o, l) =
        conclude-draft d (patterns_kept valid d.patterns) (sources_kept valid d.cited_sources)
          (misses valid (cited_ids d)) d' (rw validate_citations-eq at h) in
      record {
        overview = rw o k.overview;
        few_patterns = rw p (omega (arith, patterns_kept-length valid d.patterns, k.few_patterns));
        patterns = rw p (patterns_kept-IsPattern valid d.patterns k.patterns);
        few_sources =
            rw s (omega (arith, sources_kept-length valid d.cited_sources, k.few_sources));
        sources = rw s (sources_kept-IsSource valid d.cited_sources v k.sources);
        limitations = l k.limitations;
      }

-- Validating an accepted draft again, against the same chunks, changes nothing.
pub validate_citations_idempotent :
    (d d' : StudyAnswerDraft) (valid : List Text)
    → (validate_citations d valid).draft ≡ some d'
    → (validate_citations d' valid).draft ≡ some d'
validate_citations_idempotent d d' valid h =
    rw (validate_citations_of_IsGrounded d' valid (validate_citations-IsGrounded d valid d' h)) refl
