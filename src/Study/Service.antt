-- ===== src/Study/Service.antt =====
-- src/study/service.py: settings, the planning step and the responses; planning/retrieval.py.
pub mod Responses
pub mod Sources
use lexicon_revision.Prelude.{
  ℕ, suc, ◌-◌, min, max, Text, text_HasEq, codes, length, take, map, ◌==◌, contains, Bool, true,
  false, Option, none, some, List, [], ◌∷◌, ◌++◌, is_empty, Result, ok, err, if◌then◌else◌,
}
use lexicon_revision.Study.Models
use lexicon_revision.Study.Models.{
  AnswerStatus, ErrorCategory, StudyPattern, CitedSource, StudyAnswerDraft, ValidationResult,
  RankedChunk, PackedChunk,
}
use lexicon_revision.Study.Requests
use lexicon_revision.Study.Requests.{
  FilterCondition, StudyRequest, intent_registry, ResponseKind, QueryPlan, raw_plan,
  PlanningErrorCategory, PlanningMetadata, SearchResult, RetrievalStatus, RetrievalMetadata,
  StudyAnswer, StudySource, GenerationMetadata, StudyResponse, Message, GenerationRequest,
  GenerationResult, RelevanceGradingDraft, QueryReformulationDraft,
}

-- Times are in a unit of the model; `runtime` holds `study_context_budget_tokens` and
-- `study_generation_max_output_tokens` of the runtime settings, if there are any.
pub record StudySettings : Type 0 where
  pub provider : Text
  pub model : Text
  pub prompt_version : Text
  pub budget_tokens : ℕ
  pub max_single_chunk_tokens : ℕ
  pub runtime : Option (ℕ × ℕ)
  pub request_timeout : ℕ
  pub schema_repair_retries : ℕ
  pub reflection_enabled : Bool
  pub step_timeout : ℕ
  pub grader_excerpt_chars : ℕ
  pub requery_min_remaining : ℕ

-- What an awaited `provider.generate` raises: `deadline` is the `TimeoutError` of `asyncio.timeout`
-- around it, `malformed` a `ValidationError` of the provider's own, `unexpected` any exception that
-- is none of these and not one of `PROVIDER_ERRORS`.
pub data CallFailure : Type 0 where
  connection timeout model_not_available http deadline malformed unexpected : CallFailure

-- What `query_planner.plan` raises under its deadline.
pub data PlanningFailure : Type 0 where
  provider_timeout deadline connection model_not_available validation invalid_plan other :
      PlanningFailure

-- What `search_service.search` raises.
pub data SearchFailure : Type 0 where
  invalid_metadata_filter other : SearchFailure

-- The collaborators of a `StudyService`. The number in front of an argument counts the earlier calls,
-- since a call may answer anew each time. What they return, and the request, satisfies the constraints
-- of its pydantic class, as the classes do not let another value be constructed. `parse_…` is pydantic's `model_validate_json`, `none`
-- its `ValidationError`, `error_summary` the text of one.
pub record Deps : Type 0 where
  pub settings : StudySettings
  pub json_schema_output : Bool
  pub plan_query : Text → List FilterCondition → Result PlanningFailure QueryPlan
  pub search :
      ℕ → Text → Text → Option (List FilterCondition) → ℕ → Result SearchFailure (List SearchResult)
  pub generate : ℕ → GenerationRequest → Result CallFailure GenerationResult
  pub clock : ℕ → ℕ
  pub parse_grading : Text → Option RelevanceGradingDraft
  pub parse_reformulation : Text → Option QueryReformulationDraft
  pub parse_draft : Text → Option StudyAnswerDraft
  pub error_summary : Text → Text
  pub grading_prompt : Text → List (Text × Text) → List Message
  pub reformulation_prompt : Text → Text → List Message
  pub answer_prompt : Text → List Text → List PackedChunk → Text → List Message
  pub lower : Text → Text

unfoldable pub planning_error_category : PlanningFailure → PlanningErrorCategory
planning_error_category provider_timeout = PlanningErrorCategory.provider_timeout
planning_error_category deadline = PlanningErrorCategory.planning_deadline_exceeded
planning_error_category connection = PlanningErrorCategory.provider_unreachable
planning_error_category model_not_available = PlanningErrorCategory.model_not_available
planning_error_category validation = PlanningErrorCategory.schema_validation_failed
planning_error_category invalid_plan = PlanningErrorCategory.invalid_plan
planning_error_category other = PlanningErrorCategory.provider_error

unfoldable pub metadata_of : QueryPlan → Option PlanningErrorCategory → PlanningMetadata
metadata_of plan error_category = record {
  planner_version = plan.planner_version;
  original_query = plan.original_query;
  semantic_queries = plan.semantic_queries;
  error_category = error_category;
  intent = plan.intent;
  generation_guidance = plan.generation_guidance;
}

unfoldable pub ranked_chunk : SearchResult → RankedChunk
ranked_chunk r = record {
  chunk_id = r.chunk_id;
  chunk_level = r.chunk_level;
  parent_chunk_id = r.parent_chunk_id;
  text = r.text;
  score = r.score;
}

-- `STUDY_SOURCE_EXCERPT_CHARS` is 500; what the constructor requires of the id is asked where the
-- response is constructed (`is_valid_response` of Responses)
unfoldable pub study_source : SearchResult → Option Text → StudySource
study_source r why_cited = record {
  chunk_id = r.chunk_id;
  chunk_level = r.chunk_level;
  parent_chunk_id = r.parent_chunk_id;
  sub_question_label = r.sub_question_label;
  score = r.score;
  excerpt = take 500 r.text;
  why_cited = why_cited;
}

-- `{x.chunk_id: f(x) for x in xs}.get(chunk_id)`: the last one with that id
unfoldable pub last_by_id {ℓ κ} :
    {A : Type ℓ} {B : Type κ} → (A → Text) → (A → B) → List A → Text → Option B
last_by_id key value [] chunk_id = none
last_by_id key value (x ∷ xs) chunk_id = elim (last_by_id key value xs chunk_id) [
  | some last ↦ some last
  | none ↦ if key x == chunk_id then some (value x) else none
]

-- the sources of the ids that name a result
unfoldable pub sources_of : List SearchResult → (Text → Option Text) → List Text → List StudySource
sources_of results why [] = []
sources_of results why (chunk_id ∷ ids) =
    let rest = sources_of results why ids in
    elim (last_by_id (λ (r : SearchResult). r.chunk_id) (λ r. r) results chunk_id) [
      | none ↦ rest
      | some result ↦ study_source result (why chunk_id) ∷ rest
    ]

unfoldable pub fallback_sources : List SearchResult → RetrievalMetadata → List StudySource
fallback_sources results retrieval =
    sources_of results (λ _. none)
      (if is_empty retrieval.context_chunk_ids
        then map (λ (r : SearchResult). r.chunk_id) (take 10 results)
        else retrieval.context_chunk_ids)

-- `_ordered_unique`, behind the values seen so far
unfoldable pub unseen : List Text → List Text → List Text
unseen seen [] = []
unseen seen (value ∷ values) = elim (contains seen value) [
  | true ↦ unseen seen values
  | false ↦ value ∷ unseen (seen ++ value ∷ []) values
]

unfoldable pub ordered_unique : List Text → List Text
ordered_unique values = unseen [] values
