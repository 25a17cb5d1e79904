-- ===== src/Study/Graph/Answering.antt =====
-- The nodes `pack`, `generate`, `validate` and `respond` of src/study/graph.py. Nothing in the `try`
-- of `pack` raises here, so that its degraded branch has no counterpart.
use lexicon_revision.Prelude.{
  ℕ, zero, suc, Text, text_HasEq, codes, length, map, filter, contains, to_set, nat_eq, not, Option,
  none, some, List, [], ◌∷◌, ◌++◌, ok, err, if◌then◌else◌,
}
use lexicon_revision.Study.Models.{
  ErrorCategory, RankedChunk, PackedChunk, PackingStatus, PackingResult, StudyAnswerDraft,
  ValidationResult,
}
use lexicon_revision.Study.Requests.{
  QueryPlan, PlanningMetadata, SearchResult, RetrievalStatus, RetrievalMetadata, Schema,
  GenerationRequest, GenerationResult,
}
use lexicon_revision.Study.Packing.{heuristic_estimate, dedupe_parent_child, pack_chunks}
use lexicon_revision.Study.Validation.{validate_citations}
use lexicon_revision.Study.Service.{Deps, CallFailure, ranked_chunk}
use lexicon_revision.Study.Service.Responses.{
  context_budget_tokens, single_chunk_limit, generation_max_output_tokens,
  generation_failed_response, success_response,
}
use lexicon_revision.Study.Graph.State.{StudyGraphState, World, unexpected, Step, call}
use lexicon_revision.Study.Graph.Retrieval.{demand, finish}
use lexicon_revision.Study.Graph.Reflection.{chunk_ids, reformulated_query_of, schema_if_supported}

unfoldable pub ranked_chunks_of : Option (List RankedChunk) → List SearchResult → List RankedChunk
ranked_chunks_of (some graded) results = graded
ranked_chunks_of none results = map ranked_chunk results

-- the retrieved ids that are not among the chunks
unfoldable pub pruned_ids : List RankedChunk → List SearchResult → List Text
pruned_ids chunks results =
    filter (λ (id : Text). not (contains (map (λ (c : RankedChunk). c.chunk_id) chunks) id))
      (chunk_ids results)

-- `state.requery_semantic or list(state.plan.semantic_queries)`
unfoldable pub effective_queries : QueryPlan → Option (List Text) → List Text
effective_queries plan none = plan.semantic_queries
effective_queries plan (some []) = plan.semantic_queries
effective_queries plan (some (query ∷ queries)) = query ∷ queries

unfoldable pub call_error_category : CallFailure → ErrorCategory
call_error_category CallFailure.connection = ErrorCategory.provider_unreachable
call_error_category CallFailure.timeout = ErrorCategory.provider_timeout
call_error_category CallFailure.model_not_available = ErrorCategory.model_not_available
call_error_category CallFailure.deadline = ErrorCategory.provider_timeout
call_error_category _ = ErrorCategory.provider_error

-- `_repair_message`
abbrev pub repair_message : Text → Text → Text
repair_message malformed_output summary =
    codes "Your previous response was not valid JSON for the required schema. "
    ++ (codes "Return only a corrected JSON object that conforms to the schema.\n\n"
        ++ (codes "Malformed output:\n"
            ++ (malformed_output ++ (codes "\n\nValidation error summary:\n" ++ summary))))

unfoldable pub repair_request : GenerationRequest → Text → Text → GenerationRequest
repair_request request malformed_output summary = record request {
  messages =
      request.messages
      ++ record { role = codes "user"; content = repair_message malformed_output summary } ∷ [];
}

-- What the generation block ends in: a draft with its result and the number of attempts, or a failed
-- response with category, attempts and the first result, or an exception.
pub data Generated : Type 0 where
  drafted : StudyAnswerDraft → GenerationResult → ℕ → Generated
  failed : ErrorCategory → ℕ → Option GenerationResult → Generated
  raised : Generated

module _ (deps : Deps) where
  unfoldable pub packing_of : List RankedChunk → PackingResult
  packing_of chunks =
      pack_chunks heuristic_estimate (dedupe_parent_child chunks) (context_budget_tokens deps)
        (single_chunk_limit deps)

  unfoldable pub retrieval_of :
      StudyGraphState → List SearchResult → List RankedChunk → PackingResult → RetrievalMetadata
  retrieval_of s results chunks packing = record {
    status = RetrievalStatus.ok;
    top_k = s.request.top_k;
    returned_result_count = length results;
    context_budget_tokens = context_budget_tokens deps;
    context_chunk_ids = map (λ (p : PackedChunk). p.chunk.chunk_id) packing.chunks;
    omitted_chunk_ids = packing.omitted_chunk_ids;
    truncated_chunk_ids = packing.truncated_chunk_ids;
    filters_applied = s.filters_applied;
    reflection_graded = s.reflection_graded;
    requery_attempted = not (nat_eq s.requery_count 0);
    graded_chunk_count = if s.reflection_graded then length chunks else 0;
    grader_pruned_chunk_ids = pruned_ids chunks results;
    reflection_critique = s.critique;
    reflection_reformulated_query = reformulated_query_of s.requery_semantic;
  }

  -- `_pack_node` behind the packing
  unfoldable pub accept_packing :
      StudyGraphState
      → List SearchResult
      → QueryPlan
      → PlanningMetadata
      → RetrievalMetadata
      → PackingResult
      → PackingStatus
      → Step StudyGraphState
  accept_packing s results plan planning retrieval packing PackingStatus.context_pack_failed =
      finish (record s { retrieval_metadata = some retrieval })
        (generation_failed_response deps s.request s.request_id results retrieval planning
          ErrorCategory.context_pack_failed 0 0 none)
  accept_packing s results plan planning retrieval packing PackingStatus.ok = λ w. (
    ok (record s {
      retrieval_metadata = some retrieval;
      generation_request = some (record {
        messages =
            deps.answer_prompt s.request.query (effective_queries plan s.requery_semantic)
              packing.chunks plan.generation_guidance;
        response_schema = schema_if_supported deps Schema.study_answer_draft;
        max_tokens = generation_max_output_tokens deps;
        timeout = deps.settings.request_timeout;
      });
    }),
    w,
  )

  unfoldable pub pack_node : StudyGraphState → Step StudyGraphState
  pack_node s = demand s.search_response (λ results. demand s.plan (λ plan.
      demand s.planning_metadata (λ planning.
        let chunks = ranked_chunks_of s.graded_chunks results in
        let packing = packing_of chunks in
        accept_packing s results plan planning (retrieval_of s results chunks packing) packing
          packing.status)))

  -- the loop over the repairs that are left, behind `attempt_count` attempts
  unfoldable pub repair :
      GenerationRequest → Option GenerationResult → ℕ → ℕ → World → Generated × World
  repair request first zero attempt_count w =
      (failed ErrorCategory.schema_validation_failed attempt_count first, w)
  repair request first (suc left) attempt_count w =
      let (answer, v) = call deps request w in
      let again = repair request first left (suc attempt_count) v in
      elim answer [
        | err CallFailure.unexpected ↦ (raised, v)
        | err CallFailure.malformed ↦ again
        | err failure ↦ (failed (call_error_category failure) (suc attempt_count) first, v)
        | ok result ↦ elim (deps.parse_draft result.raw_content) [
          | none ↦ again
          | some draft ↦ (drafted draft result (suc attempt_count), v)
        ]
      ]

  -- the repairs of an output that is no draft
  unfoldable pub repair_output :
      GenerationRequest → Option GenerationResult → Text → World → Generated × World
  repair_output request first malformed_output =
      repair (repair_request request malformed_output (deps.error_summary malformed_output)) first
        deps.settings.schema_repair_retries 1

  unfoldable pub generated : GenerationRequest → World → Generated × World
  generated request w =
      let (answer, v) = call deps request w in
      elim answer [
        | err CallFailure.unexpected ↦ (raised, v)
        | err CallFailure.malformed ↦ repair_output request none [] v
        | err failure ↦ (failed (call_error_category failure) 1 none, v)
        | ok result ↦ elim (deps.parse_draft result.raw_content) [
          | none ↦ repair_output request (some result) result.raw_content v
          | some draft ↦ (drafted draft result 1, v)
        ]
      ]

  unfoldable pub accept_generated :
      StudyGraphState
      → List SearchResult
      → RetrievalMetadata
      → PlanningMetadata
      → Generated
      → Step StudyGraphState
  accept_generated s results retrieval planning raised w = (err unexpected, w)
  accept_generated s results retrieval planning (failed category attempts first) w =
      finish s
        (generation_failed_response deps s.request s.request_id results retrieval planning category
          attempts 0 first)
        w
  accept_generated s results retrieval planning (drafted draft result attempts) w = (
    ok (record s { draft = some draft; generation_result = some result; attempt_count = attempts }),
    w,
  )

  unfoldable pub generate_node : StudyGraphState → Step StudyGraphState
  generate_node s = demand s.search_response (λ results. demand s.retrieval_metadata (λ retrieval.
      demand s.planning_metadata (λ planning. demand s.generation_request (λ request w.
        let (outcome, v) = generated request w in
        accept_generated s results retrieval planning outcome v))))

  -- the response that a validation leads to
  unfoldable pub accept_validation :
      StudyGraphState
      → List SearchResult
      → RetrievalMetadata
      → PlanningMetadata
      → GenerationResult
      → ValidationResult
      → Option StudyAnswerDraft
      → Step StudyGraphState
  accept_validation s results retrieval planning result validation none =
      finish (record s { validation = some validation })
        (generation_failed_response deps s.request s.request_id results retrieval planning
          (elim validation.error_category [
            | none ↦ ErrorCategory.citation_validation_cascade_failure
            | some category ↦ category
          ])
          s.attempt_count validation.citation_drops (some result))
  accept_validation s results retrieval planning result validation (some draft) =
      finish (record s { validation = some validation })
        (success_response deps s.request s.request_id results retrieval planning result validation
          draft s.attempt_count)

  unfoldable pub validate_node : StudyGraphState → Step StudyGraphState
  validate_node s = demand s.search_response (λ results. demand s.retrieval_metadata (λ retrieval.
      demand s.planning_metadata (λ planning. demand s.generation_result (λ result.
        demand s.draft (λ draft.
          let validation = validate_citations draft (to_set retrieval.context_chunk_ids) in
          accept_validation s results retrieval planning result validation validation.draft)))))

  -- `_log_response(state.response)`
  unfoldable pub respond_node : StudyGraphState → Step StudyGraphState
  respond_node s =
      demand s.response (λ response w. (ok s, record w { logged = w.logged ++ response ∷ [] }))
