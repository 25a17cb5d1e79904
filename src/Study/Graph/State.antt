-- ===== src/Study/Graph/State.antt =====
-- `StudyGraphState` of src/study/graph.py, and what a node changes outside of it.
use lexicon_revision.Prelude.{ℕ, suc, Text, Bool, false, Option, none, List, [], Result, Action}
use lexicon_revision.Study.Models.{RankedChunk, StudyAnswerDraft, ValidationResult}
use lexicon_revision.Study.Requests.{
  StudyRequest, FilterCondition, QueryPlan, PlanningMetadata, SearchResult, RetrievalMetadata,
  GenerationRequest, GenerationResult, StudyResponse,
}
use lexicon_revision.Study.Service.{Deps, CallFailure}

pub record StudyGraphState : Type 0 where
  pub request : StudyRequest
  pub request_id : Text
  pub hard_filters : List FilterCondition
  pub plan : Option QueryPlan
  pub planning_metadata : Option PlanningMetadata
  pub search_response : Option (List SearchResult)
  pub filters_applied : List FilterCondition
  pub retrieval_metadata : Option RetrievalMetadata
  pub generation_request : Option GenerationRequest
  pub draft : Option StudyAnswerDraft
  pub generation_result : Option GenerationResult
  pub attempt_count : ℕ
  pub graded_chunks : Option (List RankedChunk)
  pub reflection_graded : Bool
  pub critique : Text
  pub requery_semantic : Option (List Text)
  pub requery_count : ℕ
  pub seen_chunk_ids : List Text
  pub deadline_monotonic : Option ℕ
  pub validation : Option ValidationResult
  pub response : Option StudyResponse

-- The state that `orchestrate` starts from.
abbrev pub initial : StudyRequest → Text → Option ℕ → StudyGraphState
initial request request_id deadline = record {
  request = request;
  request_id = request_id;
  hard_filters = request.filters;
  plan = none;
  planning_metadata = none;
  search_response = none;
  filters_applied = [];
  retrieval_metadata = none;
  generation_request = none;
  draft = none;
  generation_result = none;
  attempt_count = 0;
  graded_chunks = none;
  reflection_graded = false;
  critique = [];
  requery_semantic = none;
  requery_count = 0;
  seen_chunk_ids = [];
  deadline_monotonic = deadline;
  validation = none;
  response = none;
}

-- How often the provider, the search and the clock were asked, and what `_log_response` logged.
pub record World : Type 0 where
  pub calls : ℕ
  pub searches : ℕ
  pub readings : ℕ
  pub logged : List StudyResponse

-- What leaves the graph as an exception. `attribute_error` is an access to a field of `None`,
-- `value_error` the check on `requery_semantic`, `validation_error` what pydantic raises when a response
-- or a part of one is constructed, and `recursion_limit` is LangGraph's, for too many steps.
pub data GraphError : Type 0 where
  invalid_metadata_filter unexpected attribute_error value_error validation_error recursion_limit :
      GraphError

abbrev pub Step : Type 0 → Type 0
Step A = Action World GraphError A

module _ (deps : Deps) where
  -- `await provider.generate(request)`
  unfoldable pub call : GenerationRequest → World → Result CallFailure GenerationResult × World
  call request w = (deps.generate w.calls request, record w { calls = suc w.calls })

  -- `loop.time()`
  unfoldable pub read_clock : World → ℕ × World
  read_clock w = (deps.clock w.readings, record w { readings = suc w.readings })
