-- ===== src/Study/Models.antt =====
-- src/study/models.py: the records that the study components exchange. A `str` is a `Text`.
-- A score, which is a finite float that the program only compares, is its rank in the order of
-- the finite floats.
use lexicon_revision.Prelude.{ℕ, ◌≤◌, Text, Bool, Option, List, length, All}

pub data ChunkLevel : Type 0 where
  question sub_question : ChunkLevel

pub data DraftAnswerStatus : Type 0 where
  ok partial insufficient_evidence : DraftAnswerStatus

pub data AnswerStatus : Type 0 where
  ok partial insufficient_evidence generation_failed retrieval_failed no_corpus_answer :
      AnswerStatus

-- A `DraftAnswerStatus` stands for the `AnswerStatus` of the same name.
abbrev pub widen : DraftAnswerStatus → AnswerStatus
widen DraftAnswerStatus.ok = AnswerStatus.ok
widen DraftAnswerStatus.partial = AnswerStatus.partial
widen DraftAnswerStatus.insufficient_evidence = AnswerStatus.insufficient_evidence

pub data ErrorCategory : Type 0 where
  provider_unreachable provider_timeout provider_error model_not_available schema_validation_failed
        citation_validation_cascade_failure context_build_failed context_pack_failed :
      ErrorCategory

pub record StudyPattern : Type 0 where
  pub label : Text
  pub summary : Text
  pub supporting_chunk_ids : List Text

pub record CitedSource : Type 0 where
  pub chunk_id : Text
  pub why_cited : Text

pub record StudyAnswerDraft : Type 0 where
  pub answer_status : DraftAnswerStatus
  pub overview : Text
  pub patterns : List StudyPattern
  pub cited_sources : List CitedSource
  pub limitations : List Text

pub record ValidationResult : Type 0 where
  pub draft : Option StudyAnswerDraft
  pub answer_status : AnswerStatus
  pub error_category : Option ErrorCategory
  pub citation_drops : ℕ
  pub limitations : List Text

pub record RankedChunk : Type 0 where
  pub chunk_id : Text
  pub chunk_level : ChunkLevel
  pub parent_chunk_id : Option Text
  pub text : Text
  pub score : ℕ

pub record PackedChunk : Type 0 where
  pub chunk : RankedChunk
  pub text : Text
  pub estimated_tokens : ℕ
  pub truncated : Bool

pub data PackingStatus : Type 0 where
  ok context_pack_failed : PackingStatus

pub record PackingResult : Type 0 where
  pub chunks : List PackedChunk
  pub omitted_chunk_ids : List Text
  pub truncated_chunk_ids : List Text
  pub status : PackingStatus

-- The `Field` constraints of `StudyPattern`, `CitedSource` and `StudyAnswerDraft`, which pydantic
-- checks when it builds one.
pub record IsPattern (p : StudyPattern) : Type 0 where
  pub label : length p.label ≤ 80
  pub summary : length p.summary ≤ 500
  pub some_id : 1 ≤ length p.supporting_chunk_ids
  pub few_ids : length p.supporting_chunk_ids ≤ 5

pub record IsSource (s : CitedSource) : Type 0 where
  pub chunk_id : 1 ≤ length s.chunk_id
  pub why_cited : length s.why_cited ≤ 400

pub record IsDraft (d : StudyAnswerDraft) : Type 0 where
  pub overview : length d.overview ≤ 1200
  pub few_patterns : length d.patterns ≤ 5
  pub patterns : All IsPattern d.patterns
  pub few_sources : length d.cited_sources ≤ 10
  pub sources : All IsSource d.cited_sources
  pub limitations : length d.limitations ≤ 5
