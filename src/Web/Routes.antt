-- ===== src/Web/Routes.antt =====
-- The routes `/search` and `/study` of src/main.py. Responses leave out what the services' models
-- leave out; an `HTTPException` is its status.
use lexicon_revision.Prelude.{
  ℕ, ltb, Text, codes, length, Bool, true, false, ◌&&◌, Option, none, some, List, [], ◌∷◌, ◌++◌,
  Result, ok, err, ◌>>=◌, Action, and_then, if◌then◌else◌,
}
use lexicon_revision.Access.Models.{AuthorizationContext}
use lexicon_revision.Study.Models.{ErrorCategory, AnswerStatus}
use lexicon_revision.Study.Requests.{
  FilterCondition, SearchResult, StudyRequest, StudyResponse, RetrievalStatus, low_relevance,
}
use lexicon_revision.Search.Service.{rerank_candidate_cap}
use lexicon_revision.Web.Usage.{
  Endpoint, search, study, Call, called_search, called_study, World, http_exception_outcome,
  log_usage,
}
use lexicon_revision.Web.Guards.{
  RouteError, http, access_denied, provisioning, not_found, invalid_filter, timed_out, unexpected,
  App, app_user_id, enforce_at_most, authorize, log_failure, enforce_cost_rate_limit,
  validate_filters,
}

-- of src/search/models.py
pub record SearchRequest : Type 0 where
  pub query : Text
  pub collection : Text
  pub filters : List FilterCondition
  pub limit : ℕ
  pub rerank : Bool

-- What the `except` clauses of `search` log and raise; none handles a timeout.
unfoldable pub search_handler : RouteError → Option (Text × ℕ)
search_handler (http status_code) = some (http_exception_outcome status_code, status_code)
search_handler access_denied = some (codes "forbidden", 403)
search_handler provisioning = some (codes "forbidden", 403)
search_handler not_found = some (codes "not_found", 404)
search_handler invalid_filter = some (codes "invalid_request", 422)
search_handler timed_out = none
search_handler unexpected = none

-- those of `study`
unfoldable pub study_handler : RouteError → Option (Text × ℕ)
study_handler (http status_code) = some (http_exception_outcome status_code, status_code)
study_handler access_denied = some (codes "forbidden", 403)
study_handler provisioning = some (codes "forbidden", 403)
study_handler not_found = some (codes "not_found", 404)
study_handler invalid_filter = some (codes "invalid_request", 422)
study_handler timed_out = some (codes "timeout", 504)
study_handler unexpected = none

unfoldable pub category_text : ErrorCategory → Text
category_text ErrorCategory.provider_unreachable = codes "provider_unreachable"
category_text ErrorCategory.provider_timeout = codes "provider_timeout"
category_text ErrorCategory.provider_error = codes "provider_error"
category_text ErrorCategory.model_not_available = codes "model_not_available"
category_text ErrorCategory.schema_validation_failed = codes "schema_validation_failed"
category_text ErrorCategory.citation_validation_cascade_failure =
    codes "citation_validation_cascade_failure"
category_text ErrorCategory.context_build_failed = codes "context_build_failed"
category_text ErrorCategory.context_pack_failed = codes "context_pack_failed"

-- behind the test of the retrieval's status
unfoldable pub answer_outcome : AnswerStatus → Option ErrorCategory → Text
answer_outcome AnswerStatus.ok category = codes "ok"
answer_outcome AnswerStatus.partial category = codes "ok"
answer_outcome AnswerStatus.insufficient_evidence category = codes "ok"
answer_outcome AnswerStatus.no_corpus_answer category = codes "no_corpus_answer"
answer_outcome AnswerStatus.generation_failed none = codes "generation_failed"
answer_outcome AnswerStatus.generation_failed (some category) = category_text category
answer_outcome AnswerStatus.retrieval_failed category = codes "retrieval_failed"

unfoldable pub is_low_relevance : RetrievalStatus → Bool
is_low_relevance low_relevance = true
is_low_relevance _ = false

-- `_study_outcome`
unfoldable pub study_outcome : StudyResponse → Text
study_outcome response =
    if is_low_relevance response.retrieval.status
    then codes "reflection_abstained"
    else answer_outcome response.answer_status response.generation.error_category

-- What the two routes have of their own.
pub record Route (B L R : Type 0) : Type 0 where
  pub endpoint : Endpoint
  pub collection : Text
  pub filters : List FilterCondition
  pub limits : Result RouteError Unit
  pub call : Action (World B L) RouteError R
  pub handler : RouteError → Option (Text × ℕ)
  pub outcome : R → Text

module _ {B L R : Type 0} (app : App B L) (route : Route B L R) where
  -- the `try` block behind the authorization, up to the call of the service
  unfoldable pub guarded_call : Option AuthorizationContext → Action (World B L) RouteError R
  guarded_call auth_context w =
      and_then (route.limits, w)
        (λ _ v. and_then (validate_filters app route.collection route.filters v) (λ _ u.
          and_then (enforce_cost_rate_limit app route.endpoint route.collection auth_context u)
            (λ _. route.call)))

  -- the `except` clauses
  unfoldable pub fail :
      Option AuthorizationContext → RouteError → Option (Text × ℕ) → Action (World B L) RouteError R
  fail auth_context e none w = (err e, w)
  fail auth_context e (some (outcome, status_code)) w = (
    err (http status_code),
    log_failure app route.endpoint route.collection auth_context outcome status_code w,
  )

  -- the rest of the `try` block, where the service returned
  unfoldable pub respond :
      Option AuthorizationContext
      → Result RouteError R × World B L
      → Result RouteError R × World B L
  respond auth_context (err e, w) = fail auth_context e (route.handler e) w
  respond auth_context (ok r, w) = (
    ok r,
    log_usage app.has_usage_log
        (record {
          endpoint = route.endpoint;
          collection_name = route.collection;
          app_user_id = app_user_id auth_context;
          outcome = route.outcome r;
          status_code = none;
        })
        w,
  )

  unfoldable pub with_context :
      Result RouteError (Option AuthorizationContext) × World B L → Result RouteError R × World B L
  with_context (err e, w) = fail none e (route.handler e) w
  with_context (ok auth_context, w) = respond auth_context (guarded_call auth_context w)

  unfoldable pub run_route : Action (World B L) RouteError R
  run_route w = with_context (authorize app route.collection w)

unfoldable pub search_limits : {B L : Type 0} → App B L → SearchRequest → Result RouteError Unit
search_limits app payload = do
  _ ← enforce_at_most (length payload.query) app.query_max_chars
  _ ← enforce_at_most payload.limit app.search_limit_max
  if payload.rerank && ltb rerank_candidate_cap payload.limit then err (http 422) else ok tt

unfoldable pub study_limits : {B L : Type 0} → App B L → StudyRequest → Result RouteError Unit
study_limits app payload = do
  _ ← enforce_at_most (length payload.query) app.query_max_chars
  enforce_at_most payload.top_k app.study_top_k_max

-- a call of a service, which changes the services' state
unfoldable pub called :
    {B L R : Type 0}
    → List Call
    → Result RouteError R × B
    → World B L
    → Result RouteError R × World B L
called calls (r, b) w = (r, record w { services = b; calls = calls })

module _ {B L : Type 0} (app : App B L) where
  abbrev pub search_parts :
      (SearchRequest → B → Result RouteError (List SearchResult) × B)
      → SearchRequest
      → Route B L (List SearchResult)
  search_parts service payload = record {
    endpoint = search;
    collection = payload.collection;
    filters = payload.filters;
    limits = search_limits app payload;
    call = λ w. called (w.calls ++ called_search ∷ []) (service payload w.services) w;
    handler = search_handler;
    outcome = λ _. codes "ok";
  }

  abbrev pub study_parts :
      (StudyRequest → B → Result RouteError StudyResponse × B)
      → StudyRequest
      → Route B L StudyResponse
  study_parts service payload = record {
    endpoint = study;
    collection = payload.collection;
    filters = payload.filters;
    limits = study_limits app payload;
    call = λ w. called (w.calls ++ called_study ∷ []) (service payload w.services) w;
    handler = study_handler;
    outcome = study_outcome;
  }

  unfoldable pub search_route :
      (SearchRequest → B → Result RouteError (List SearchResult) × B)
      → SearchRequest
      → Action (World B L) RouteError (List SearchResult)
  search_route service payload = run_route app (search_parts service payload)

  -- where the service is configured, or not
  unfoldable pub study_route :
      Option (StudyRequest → B → Result RouteError StudyResponse × B)
      → StudyRequest
      → Action (World B L) RouteError StudyResponse
  study_route none payload w = (
    err (http 503),
    log_failure app study payload.collection none (codes "service_unavailable") 503 w,
  )
  study_route (some service) payload w = run_route app (study_parts service payload) w
