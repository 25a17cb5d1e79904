-- ===== src/Study/Validation.antt =====
-- src/study/validation.py: the citations of a generated draft against the retrieved chunks.
-- `valid_chunk_ids`, a Python set, is a list with no repetition. Each `for` loop is a recursion
-- over what the loop changes.
mod Normalize
pub mod Loops
pub mod Grounding
mod Tests
use lexicon_revision.Prelude.{
  ℕ, ◌+◌, ◌-◌, Text, codes, text_HasEq, starts_with, contains, Bool, ◌&&◌, Option, none, some, List,
  [], ◌∷◌, ◌++◌, filter, is_empty, length, take, ltb, if◌then◌else◌,
}
use lexicon_revision.Study.Models.{
  AnswerStatus, DraftAnswerStatus, widen, citation_validation_cascade_failure, StudyPattern,
  CitedSource, StudyAnswerDraft, ValidationResult,
}

abbrev pub partial_limitation : Text
partial_limitation =
    codes "Some generated citations were removed because they did not match the retrieved sources."

abbrev pub cascading_failure_limitation : Text
cascading_failure_limitation = codes "Generated citations did not match retrieved sources."

-- `len(matches) != 1`, and `matches[0]`
pub only {ℓ} : {A : Type ℓ} → List A → Option A
only (a ∷ []) = some a
only _ = none

pub names_part_of : Text → Text → Bool
names_part_of chunk_id valid_id = starts_with (valid_id ++ codes "(") chunk_id

pub normalize_chunk_id : Text → List Text → Option Text
normalize_chunk_id chunk_id valid_chunk_ids =
    if contains valid_chunk_ids chunk_id
    then some chunk_id
    else only (filter (names_part_of chunk_id) valid_chunk_ids)

pub record IdLoop : Type 0 where
  pub valid_ids : List Text
  pub citation_drops : ℕ

pub take_chunk_id : Option Text → IdLoop → IdLoop
take_chunk_id none s = record s { citation_drops = s.citation_drops + 1 }
take_chunk_id (some normalized_id) s =
    if contains s.valid_ids normalized_id
    then s
    else record s { valid_ids = s.valid_ids ++ normalized_id ∷ [] }

pub keep_chunk_ids : List Text → List Text → IdLoop → IdLoop
keep_chunk_ids valid_chunk_ids [] s = s
keep_chunk_ids valid_chunk_ids (chunk_id ∷ rest) s =
    keep_chunk_ids valid_chunk_ids rest
      (take_chunk_id (normalize_chunk_id chunk_id valid_chunk_ids) s)

pub record PatternLoop : Type 0 where
  pub kept_patterns : List StudyPattern
  pub citation_drops : ℕ

pub keep_pattern : List Text → StudyPattern → PatternLoop → PatternLoop
keep_pattern valid_chunk_ids pattern s =
    let ids =
      keep_chunk_ids valid_chunk_ids pattern.supporting_chunk_ids
        (record { valid_ids = []; citation_drops = s.citation_drops }) in
    record {
      kept_patterns =
          if is_empty ids.valid_ids
          then s.kept_patterns
          else s.kept_patterns ++ record pattern { supporting_chunk_ids = ids.valid_ids } ∷ [];
      citation_drops = ids.citation_drops;
    }

pub keep_patterns : List Text → List StudyPattern → PatternLoop → PatternLoop
keep_patterns valid_chunk_ids [] s = s
keep_patterns valid_chunk_ids (p ∷ rest) s =
    keep_patterns valid_chunk_ids rest (keep_pattern valid_chunk_ids p s)

pub record SourceLoop : Type 0 where
  pub kept_sources : List CitedSource
  pub citation_drops : ℕ

pub keep_source : CitedSource → Option Text → SourceLoop → SourceLoop
keep_source source none s = record s { citation_drops = s.citation_drops + 1 }
keep_source source (some normalized_id) s = record s {
  kept_sources = s.kept_sources ++ record source { chunk_id = normalized_id } ∷ [];
}

pub keep_sources : List Text → List CitedSource → SourceLoop → SourceLoop
keep_sources valid_chunk_ids [] s = s
keep_sources valid_chunk_ids (source ∷ rest) s =
    keep_sources valid_chunk_ids rest
      (keep_source source (normalize_chunk_id source.chunk_id valid_chunk_ids) s)

pub append_limited_limitation : List Text → Text → ℕ → List Text
append_limited_limitation limitations limitation max_items =
    if contains limitations limitation
    then take max_items limitations
    else if ltb (length limitations) max_items
    then limitations ++ limitation ∷ []
    else take (max_items - 1) limitations ++ limitation ∷ []

-- the part of `validate_citations` behind its two loops
pub conclude : StudyAnswerDraft → List StudyPattern → List CitedSource → ℕ → ValidationResult
conclude draft kept_patterns kept_sources citation_drops =
    if ltb 0 citation_drops && is_empty kept_patterns && is_empty kept_sources
    then record {
      draft = none;
      answer_status = AnswerStatus.generation_failed;
      error_category = some citation_validation_cascade_failure;
      citation_drops = citation_drops;
      limitations = cascading_failure_limitation ∷ [];
    }
    else (let answer_status =
          if ltb 0 citation_drops then DraftAnswerStatus.partial else draft.answer_status in
        let limitations =
          if ltb 0 citation_drops
          then append_limited_limitation draft.limitations partial_limitation 5
          else draft.limitations in
        record {
          draft = some (record draft {
            answer_status = answer_status;
            patterns = kept_patterns;
            cited_sources = kept_sources;
            limitations = limitations;
          });
          answer_status = widen answer_status;
          error_category = none;
          citation_drops = citation_drops;
          limitations = limitations;
        })

pub validate_citations : StudyAnswerDraft → List Text → ValidationResult
validate_citations draft valid_chunk_ids =
    let patterns =
      keep_patterns valid_chunk_ids draft.patterns
        (record { kept_patterns = []; citation_drops = 0 }) in
    let sources =
      keep_sources valid_chunk_ids draft.cited_sources
        (record { kept_sources = []; citation_drops = patterns.citation_drops }) in
    conclude draft patterns.kept_patterns sources.kept_sources sources.citation_drops
