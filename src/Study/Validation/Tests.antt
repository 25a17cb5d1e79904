-- ===== src/Study/Validation/Tests.antt =====
-- Runs of `validate_citations`, and the theorems about it at an input.
use lexicon_revision.Prelude.{
  ◌<◌, Text, text_HasEq, codes, All, contains, filter, starts_with, text_eq, ◌≡◌, refl, ◌↔◌, none,
  some, List, [], ◌∷◌, length, arith,
}
use lexicon_revision.Study.Models.{DraftAnswerStatus, AnswerStatus, StudyAnswerDraft, IsDraft}
use lexicon_revision.Study.Validation.{
  only, names_part_of, normalize_chunk_id, take_chunk_id, keep_chunk_ids, keep_pattern,
  keep_patterns, keep_source, keep_sources, append_limited_limitation, partial_limitation, conclude,
  validate_citations,
}
use lexicon_revision.Study.Validation.Loops.{misses}
use lexicon_revision.Study.Validation.Grounding.{
  IsGrounded, cited_ids, validate_citations-IsGrounded, validate_citations_of_IsGrounded,
  citation_drops-eq-misses, gives_up_iff, validate_citations-IsDraft, validate_citations_idempotent,
}
use lexicon_revision.Study.Validation.Grounding.Kept.{Missed}

-- what a run computes with
validation : Unit {0}
unfolding only names_part_of filter starts_with contains text_eq normalize_chunk_id take_chunk_id
    keep_chunk_ids keep_pattern keep_patterns keep_source keep_sources append_limited_limitation
    conclude validate_citations
validation = tt

abbrev retrieved : List Text
retrieved = codes "q1" ∷ codes "q2" ∷ []

-- one id as it is, one with a part behind it, one twice, and one that is not there
abbrev draft : StudyAnswerDraft
draft = record {
  answer_status = DraftAnswerStatus.ok;
  overview = codes "o";
  patterns =
      record {
        label = codes "l";
        summary = codes "s";
        supporting_chunk_ids = codes "q1" ∷ codes "q2(a)" ∷ codes "q1" ∷ codes "q9" ∷ [];
      }
      ∷ [];
  cited_sources = record { chunk_id = codes "q2(b)"; why_cited = codes "w" } ∷ [];
  limitations = [];
}

abbrev validated : StudyAnswerDraft
validated = record draft {
  answer_status = DraftAnswerStatus.partial;
  patterns =
      record {
        label = codes "l";
        summary = codes "s";
        supporting_chunk_ids = codes "q1" ∷ codes "q2" ∷ [];
      }
      ∷ [];
  cited_sources = record { chunk_id = codes "q2"; why_cited = codes "w" } ∷ [];
  limitations = partial_limitation ∷ [];
}

validate_draft : validate_citations draft retrieved ≡ record {
  draft = some validated;
  answer_status = AnswerStatus.partial;
  error_category = none;
  citation_drops = 1;
  limitations = partial_limitation ∷ [];
}
unfolding validation
validate_draft = refl

validate_draft_accepts : (validate_citations draft retrieved).draft ≡ some validated
validate_draft_accepts = rw validate_draft

validate_citations-IsGrounded_example : IsGrounded retrieved validated
validate_citations-IsGrounded_example =
    validate_citations-IsGrounded draft retrieved validated validate_draft_accepts

validated-IsGrounded : IsGrounded retrieved validated
validated-IsGrounded =
    validate_citations-IsGrounded draft retrieved validated validate_draft_accepts

validate_citations_of_IsGrounded_example : validate_citations validated retrieved ≡ record {
  draft = some validated;
  answer_status = AnswerStatus.partial;
  error_category = none;
  citation_drops = 0;
  limitations = partial_limitation ∷ [];
}
validate_citations_of_IsGrounded_example =
    validate_citations_of_IsGrounded validated retrieved validated-IsGrounded

citation_drops-eq-misses_example :
    (validate_citations draft retrieved).citation_drops ≡ misses retrieved (cited_ids draft)
citation_drops-eq-misses_example = citation_drops-eq-misses draft retrieved

gives_up_iff_example :
    ((validate_citations draft []).draft ≡ none)
    ↔ ((0 < length (cited_ids draft)) × All (Missed []) (cited_ids draft))
gives_up_iff_example = gives_up_iff draft []

draft-IsDraft : IsDraft draft
draft-IsDraft = omega arith

validate_citations-IsDraft_example : IsDraft validated
validate_citations-IsDraft_example =
    validate_citations-IsDraft draft retrieved validated (omega arith) draft-IsDraft
      validate_draft_accepts

validate_citations_idempotent_example :
    (validate_citations validated retrieved).draft ≡ some validated
validate_citations_idempotent_example =
    validate_citations_idempotent draft validated retrieved validate_draft_accepts
