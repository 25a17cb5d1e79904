-- ===== src/Study/Graph/Retrieval.antt =====
-- The nodes `plan`, `direct_response` and `retrieve` of src/study/graph.py, and
-- src/study/planning/retrieval.py.
use lexicon_revision.Prelude.{
  ℕ, suc, Text, codes, Option, none, some, List, [], ◌∷◌, is_empty, Result, ok, err, and_then,
  if◌then◌else◌,
}
use lexicon_revision.Study.Models.{AnswerStatus}
use lexicon_revision.Study.Requests.{
  FilterCondition, QueryPlan, raw_plan, PlanningMetadata, SearchResult, RetrievalStatus,
  StudyResponse,
}
use lexicon_revision.Study.Service.{Deps, SearchFailure}
use lexicon_revision.Study.Service.Responses.{
  plan_request, empty_retrieval, empty_response, direct_response, is_valid_response,
}
use lexicon_revision.Study.Graph.State.{
  StudyGraphState, World, GraphError, invalid_metadata_filter, attribute_error, value_error,
  validation_error, Step,
}

-- An access to an attribute of a value that may be `None`. The nodes make their accesses first.
unfoldable pub demand : {A B : Type 0} → Option A → (A → Step B) → Step B
demand none next w = (err attribute_error, w)
demand (some a) next w = next a w

-- A node that ends the run constructs the response, which raises when it is not valid.
unfoldable pub finish : StudyGraphState → StudyResponse → Step StudyGraphState
finish s response w =
    if is_valid_response response
    then (ok (record s { response = some response }), w)
    else (err validation_error, w)

abbrev pub retrieval_failed_limitations : List Text
retrieval_failed_limitations =
    codes "Retrieval failed before any past questions could be selected." ∷ []

abbrev pub no_match_limitations : List Text
no_match_limitations = codes "No past questions matched the query." ∷ []

-- the plan of a re-query, if `requery_semantic` is set
unfoldable pub effective_plan : QueryPlan → Option (List Text) → Result GraphError QueryPlan
effective_plan plan none = ok plan
effective_plan plan (some (query ∷ [])) = ok (record plan { semantic_queries = query ∷ [] })
effective_plan plan (some _) = err value_error

-- `filters or None`
unfoldable pub filters_or_none : List FilterCondition → Option (List FilterCondition)
filters_or_none filters = if is_empty filters then none else some filters

module _ (deps : Deps) where
  unfoldable pub plan_node : StudyGraphState → Step StudyGraphState
  plan_node s w =
      let (plan, planning) = plan_request deps s.request.query s.hard_filters in
      (ok (record s { plan = some plan; planning_metadata = some planning }), w)

  unfoldable pub direct_response_node : StudyGraphState → Step StudyGraphState
  direct_response_node s =
      let plan : QueryPlan = elim s.plan [ none ↦ raw_plan s.request.query | some p ↦ p ] in
      demand s.planning_metadata
        (λ planning. finish s (direct_response deps s.request s.request_id plan planning))

  -- the search for the first of the queries; the index error of an empty list is caught like another
  unfoldable pub search_first :
      List Text
      → List FilterCondition
      → Text
      → ℕ
      → World
      → Result SearchFailure (List SearchResult) × World
  search_first [] filters collection limit w = (err SearchFailure.other, w)
  search_first (query ∷ _) filters collection limit w = (
    deps.search w.searches query collection (filters_or_none filters) limit,
    record w { searches = suc w.searches },
  )

  -- `PlannedRetrievalService.retrieve`
  unfoldable pub retrieve :
      QueryPlan
      → List FilterCondition
      → Text
      → ℕ
      → World
      → Result SearchFailure (List SearchResult) × World
  retrieve plan filters collection limit w =
      search_first plan.semantic_queries filters collection limit w

  -- `retrieve` behind the search
  unfoldable pub accept_results :
      StudyGraphState
      → PlanningMetadata
      → Result SearchFailure (List SearchResult)
      → Step StudyGraphState
  accept_results s planning (err SearchFailure.invalid_metadata_filter) w =
      (err invalid_metadata_filter, w)
  accept_results s planning (err SearchFailure.other) w =
      finish s
        (empty_response deps s.request s.request_id AnswerStatus.retrieval_failed
          retrieval_failed_limitations
          (empty_retrieval deps RetrievalStatus.error s.request s.hard_filters) planning)
        w
  accept_results s planning (ok []) w =
      finish s
        (empty_response deps s.request s.request_id AnswerStatus.insufficient_evidence
          no_match_limitations
          (empty_retrieval deps
            (if is_empty s.hard_filters
              then RetrievalStatus.empty
              else RetrievalStatus.filtered_empty)
            s.request s.hard_filters)
          planning)
        w
  accept_results s planning (ok (r ∷ rs)) w =
      (ok (record s { search_response = some (r ∷ rs); filters_applied = s.hard_filters }), w)

  unfoldable pub retrieve_node : StudyGraphState → Step StudyGraphState
  retrieve_node s w =
      demand s.plan
        (λ plan. demand s.planning_metadata (λ planning v.
          and_then (effective_plan plan s.requery_semantic, v)
            (λ effective u.
              let (found, u') =
                retrieve effective s.hard_filters s.request.collection s.request.top_k u in
              accept_results s planning found u')))
        w
