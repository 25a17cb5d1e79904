-- ===== src/Study/Service/Responses.antt =====
-- The budgets and the response builders of src/study/service.py.
use lexicon_revision.Prelude.{
  ℕ, ◌-◌, min, max, Text, text_HasEq, codes, map, is_empty, Bool, true, false, not, ◌&&◌, Option,
  none, some, List, [], ◌∷◌, ◌++◌, ok, err,
}
use lexicon_revision.Study.Models.{
  AnswerStatus, ErrorCategory, StudyPattern, CitedSource, StudyAnswerDraft, ValidationResult,
}
use lexicon_revision.Study.Requests.{
  FilterCondition, StudyRequest, intent_registry, direct_response_messages, ResponseKind, QueryPlan,
  raw_plan, PlanningMetadata, SearchResult, RetrievalStatus, RetrievalMetadata, GenerationMetadata,
  StudySource, StudyResponse, GenerationResult,
}
use lexicon_revision.Study.Service.{
  Deps, planning_error_category, metadata_of, sources_of, fallback_sources, ordered_unique,
  last_by_id,
}

-- the ids that the patterns give, pattern by pattern
abbrev pub supporting_ids : List StudyPattern → List Text
supporting_ids [] = []
supporting_ids (p ∷ ps) = p.supporting_chunk_ids ++ supporting_ids ps

-- the ids that a draft cites, in the order of the response's sources
unfoldable pub source_ids_of : StudyAnswerDraft → List Text
source_ids_of draft =
    ordered_unique
      (supporting_ids draft.patterns ++ map (λ (s : CitedSource). s.chunk_id) draft.cited_sources)

-- What the constructors of src/study/models.py require of a response: `min_length=1` of the texts of
-- `GenerationMetadata`, of the chunk id of a `StudySource`, and of the response's own id. The request,
-- the plan, and the draft were constructed before, and their own constraints imply what the response
-- requires of their fields.
unfoldable pub is_valid_generation : GenerationMetadata → Bool
is_valid_generation g =
    not (is_empty g.provider) && not (is_empty g.model) && not (is_empty g.prompt_version)

unfoldable pub are_valid_sources : List StudySource → Bool
are_valid_sources [] = true
are_valid_sources (source ∷ sources) = not (is_empty source.chunk_id) && are_valid_sources sources

unfoldable pub is_valid_response : StudyResponse → Bool
is_valid_response response =
    not (is_empty response.request_id)
    && is_valid_generation response.generation
    && are_valid_sources response.sources

module _ (deps : Deps) where
  -- `_plan`: whatever the planner raises, there is a plan
  unfoldable pub plan_request : Text → List FilterCondition → QueryPlan × PlanningMetadata
  plan_request raw_query hard_filters = elim (deps.plan_query raw_query hard_filters) [
    | ok plan ↦ (plan, metadata_of plan none)
    | err failure ↦ (
      raw_plan raw_query,
      metadata_of (raw_plan raw_query) (some (planning_error_category failure)),
    )
  ]

  unfoldable pub context_budget_tokens : ℕ
  context_budget_tokens = elim deps.settings.runtime [
    | none ↦ deps.settings.budget_tokens
    | some runtime ↦ min deps.settings.budget_tokens runtime.0
  ]

  unfoldable pub generation_max_output_tokens : Option ℕ
  generation_max_output_tokens = elim deps.settings.runtime [
    | none ↦ none
    | some runtime ↦ some runtime.1
  ]

  -- a budget below 1 gives `max(1, …)` its 1, as the difference of ℕ does
  unfoldable pub single_chunk_limit : ℕ
  single_chunk_limit = min deps.settings.max_single_chunk_tokens (max 1 (context_budget_tokens - 1))

  -- the arguments of `GenerationMetadata(…)`; the constructor's requirements are `is_valid_generation`
  unfoldable pub generation_metadata :
      ℕ → ℕ → Option ErrorCategory → Option GenerationResult → GenerationMetadata
  generation_metadata attempt_count citation_drops error_category none = record {
    provider = deps.settings.provider;
    model = deps.settings.model;
    prompt_version = deps.settings.prompt_version;
    attempt_count = attempt_count;
    citation_drops = citation_drops;
    error_category = error_category;
  }
  generation_metadata attempt_count citation_drops error_category (some result) = record {
    provider = result.provider;
    model = result.model;
    prompt_version = deps.settings.prompt_version;
    attempt_count = attempt_count;
    citation_drops = citation_drops;
    error_category = error_category;
  }

  -- the `RetrievalMetadata` of a response without chunks
  unfoldable pub empty_retrieval :
      RetrievalStatus → StudyRequest → List FilterCondition → RetrievalMetadata
  empty_retrieval status request filters = record {
    status = status;
    top_k = request.top_k;
    returned_result_count = 0;
    context_budget_tokens = context_budget_tokens;
    context_chunk_ids = [];
    omitted_chunk_ids = [];
    truncated_chunk_ids = [];
    filters_applied = filters;
    reflection_graded = false;
    requery_attempted = false;
    graded_chunk_count = 0;
    grader_pruned_chunk_ids = [];
    reflection_critique = [];
    reflection_reformulated_query = [];
  }

  -- `_empty_response` with the `RetrievalMetadata` that it builds
  unfoldable pub empty_response :
      StudyRequest
      → Text
      → AnswerStatus
      → List Text
      → RetrievalMetadata
      → PlanningMetadata
      → StudyResponse
  empty_response request request_id answer_status limitations retrieval planning = record {
    request_id = request_id;
    query = request.query;
    collection = request.collection;
    answer_status = answer_status;
    answer = record { overview = []; patterns = []; limitations = limitations };
    sources = [];
    retrieval = retrieval;
    planning = planning;
    generation = generation_metadata 0 0 none none;
  }

  unfoldable pub direct_response :
      StudyRequest → Text → QueryPlan → PlanningMetadata → StudyResponse
  direct_response request request_id plan planning =
      let response_kind : ResponseKind = elim (intent_registry plan.intent).response_kind [
        | none ↦ ResponseKind.out_of_scope
        | some kind ↦ kind
      ] in
      record {
        request_id = request_id;
        query = request.query;
        collection = request.collection;
        answer_status = AnswerStatus.no_corpus_answer;
        answer = record {
          overview = direct_response_messages response_kind;
          patterns = [];
          limitations = [];
        };
        sources = [];
        retrieval = empty_retrieval RetrievalStatus.skipped request request.filters;
        planning = planning;
        generation = generation_metadata 0 0 none none;
      }

  unfoldable pub generation_failed_response :
      StudyRequest
      → Text
      → List SearchResult
      → RetrievalMetadata
      → PlanningMetadata
      → ErrorCategory
      → ℕ
      → ℕ
      → Option GenerationResult
      → StudyResponse
  generation_failed_response request request_id results retrieval planning error_category
        attempt_count citation_drops generation_result =
      record {
        request_id = request_id;
        query = request.query;
        collection = request.collection;
        answer_status = AnswerStatus.generation_failed;
        answer = record {
          overview = [];
          patterns = [];
          limitations = codes "Generation failed; showing retrieved sources only." ∷ [];
        };
        sources = fallback_sources results retrieval;
        retrieval = retrieval;
        planning = planning;
        generation =
            generation_metadata attempt_count citation_drops (some error_category)
              generation_result;
      }

  unfoldable pub success_response :
      StudyRequest
      → Text
      → List SearchResult
      → RetrievalMetadata
      → PlanningMetadata
      → GenerationResult
      → ValidationResult
      → StudyAnswerDraft
      → ℕ
      → StudyResponse
  success_response request request_id results retrieval planning generation_result validation draft
        attempt_count =
      record {
        request_id = request_id;
        query = request.query;
        collection = request.collection;
        answer_status = validation.answer_status;
        answer = record {
          overview = draft.overview;
          patterns = draft.patterns;
          limitations = validation.limitations;
        };
        sources =
            sources_of results
              (last_by_id (λ (s : CitedSource). s.chunk_id) (λ (s : CitedSource). s.why_cited)
                draft.cited_sources)
              (source_ids_of draft);
        retrieval = retrieval;
        planning = planning;
        generation =
            generation_metadata attempt_count validation.citation_drops none
              (some generation_result);
      }
