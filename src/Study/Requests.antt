-- ===== src/Study/Requests.antt =====
-- The records that a study request passes through: src/study/models.py, planning/models.py,
-- planning/intent.py, reflection.py, config.py, and of src/search/models.py what the study part reads.
-- Left out are the fields that are only handed on: temperature, token usage, latencies,
-- telemetry, the metadata, media and render blocks of a chunk.
use lexicon_revision.Prelude.{ℕ, ℤ, Text, codes, Bool, Option, none, some, List, [], ◌∷◌, ◌++◌}
use lexicon_revision.Study.Models.{ChunkLevel, AnswerStatus, ErrorCategory, StudyPattern}

pub data MetadataOperator : Type 0 where
  eq gte lte : MetadataOperator

pub data MetadataScalar : Type 0 where
  integer : ℤ → MetadataScalar
  boolean : Bool → MetadataScalar
  string : Text → MetadataScalar

pub record FilterCondition : Type 0 where
  pub field : Text
  pub op : MetadataOperator
  pub value : MetadataScalar

pub record StudyRequest : Type 0 where
  pub query : Text
  pub collection : Text
  pub filters : List FilterCondition
  pub top_k : ℕ

pub data Intent : Type 0 where
  content_retrieval corpus_analytics ambiguous out_of_scope : Intent

pub data Workflow : Type 0 where
  retrieval direct_response : Workflow

pub data ResponseKind : Type 0 where
  unsupported_analytics needs_refinement out_of_scope : ResponseKind

pub record IntentSpec : Type 0 where
  pub workflow : Workflow
  pub response_kind : Option ResponseKind

-- `INTENT_REGISTRY`
abbrev pub intent_registry : Intent → IntentSpec
intent_registry Intent.content_retrieval = record { workflow = retrieval; response_kind = none }
intent_registry Intent.corpus_analytics = record {
  workflow = direct_response;
  response_kind = some unsupported_analytics;
}
intent_registry Intent.ambiguous = record {
  workflow = direct_response;
  response_kind = some needs_refinement;
}
intent_registry Intent.out_of_scope = record {
  workflow = direct_response;
  response_kind = some ResponseKind.out_of_scope;
}

-- `DIRECT_RESPONSE_MESSAGES`
abbrev pub direct_response_messages : ResponseKind → Text
direct_response_messages unsupported_analytics =
    codes "I can't compute corpus-wide statistics yet — counts, frequencies, or "
    ++ (codes "trends across papers. I can find and explain specific past questions; "
        ++ codes "try naming a topic, paper, or year.")
direct_response_messages needs_refinement =
    codes "Your question is a bit broad to answer from past papers. Try naming a "
    ++ (codes "specific topic, paper, or year — or browse the question bank to see "
        ++ codes "what's covered.")
direct_response_messages ResponseKind.out_of_scope =
    codes "That looks outside this past-paper collection, so I can't answer it "
    ++ (codes "from the corpus. Try a topic, concept, or question from the papers "
        ++ codes "instead.")

pub record QueryPlan : Type 0 where
  pub planner_version : Text
  pub original_query : Text
  pub semantic_queries : List Text
  pub intent : Intent
  pub generation_guidance : Text

abbrev pub default_planner_version : Text
default_planner_version = codes "query_planner_v1"

-- `QueryPlan(original_query=query, semantic_queries=[query])`
abbrev pub raw_plan : Text → QueryPlan
raw_plan query = record {
  planner_version = default_planner_version;
  original_query = query;
  semantic_queries = query ∷ [];
  intent = content_retrieval;
  generation_guidance = [];
}

pub data PlanningErrorCategory : Type 0 where
  provider_unreachable provider_timeout planning_deadline_exceeded provider_error
        model_not_available schema_validation_failed invalid_plan :
      PlanningErrorCategory

-- `status` is "fallback" exactly if there is an error category.
pub record PlanningMetadata : Type 0 where
  pub planner_version : Text
  pub original_query : Text
  pub semantic_queries : List Text
  pub error_category : Option PlanningErrorCategory
  pub intent : Intent
  pub generation_guidance : Text

pub record SearchResult : Type 0 where
  pub chunk_id : Text
  pub chunk_level : ChunkLevel
  pub parent_chunk_id : Option Text
  pub sub_question_label : Option Text
  pub text : Text
  pub score : ℕ

pub data RetrievalStatus : Type 0 where
  ok empty filtered_empty error skipped low_relevance : RetrievalStatus

pub record RetrievalMetadata : Type 0 where
  pub status : RetrievalStatus
  pub top_k : ℕ
  pub returned_result_count : ℕ
  pub context_budget_tokens : ℕ
  pub context_chunk_ids : List Text
  pub omitted_chunk_ids : List Text
  pub truncated_chunk_ids : List Text
  pub filters_applied : List FilterCondition
  pub reflection_graded : Bool
  pub requery_attempted : Bool
  pub graded_chunk_count : ℕ
  pub grader_pruned_chunk_ids : List Text
  pub reflection_critique : Text
  pub reflection_reformulated_query : Text

pub record StudyAnswer : Type 0 where
  pub overview : Text
  pub patterns : List StudyPattern
  pub limitations : List Text

pub record StudySource : Type 0 where
  pub chunk_id : Text
  pub chunk_level : ChunkLevel
  pub parent_chunk_id : Option Text
  pub sub_question_label : Option Text
  pub score : ℕ
  pub excerpt : Text
  pub why_cited : Option Text

pub record GenerationMetadata : Type 0 where
  pub provider : Text
  pub model : Text
  pub prompt_version : Text
  pub attempt_count : ℕ
  pub citation_drops : ℕ
  pub error_category : Option ErrorCategory

pub record StudyResponse : Type 0 where
  pub request_id : Text
  pub query : Text
  pub collection : Text
  pub answer_status : AnswerStatus
  pub answer : StudyAnswer
  pub sources : List StudySource
  pub retrieval : RetrievalMetadata
  pub planning : PlanningMetadata
  pub generation : GenerationMetadata

pub record Message : Type 0 where
  pub role : Text
  pub content : Text

-- the models whose JSON schema a request may carry
pub data Schema : Type 0 where
  study_answer_draft relevance_grading_draft query_reformulation_draft : Schema

pub record GenerationRequest : Type 0 where
  pub messages : List Message
  pub response_schema : Option Schema
  pub max_tokens : Option ℕ
  pub timeout : ℕ

pub record GenerationResult : Type 0 where
  pub raw_content : Text
  pub model : Text
  pub provider : Text

pub record RelevanceGradingDraft : Type 0 where
  pub accepted_chunk_ids : List Text
  pub critique : Text

pub record QueryReformulationDraft : Type 0 where
  pub reformulated_query : Text
