-- ===== src/Web/Guards.antt =====
-- What the routes of src/main.py do before they call a service: the authorization, the limits of
-- src/runtime/limits.py, the filters and the rate limit.
use lexicon_revision.Prelude.{
  ℕ, ltb, Text, Bool, Option, none, some, List, [], ◌∷◌, Result, ok, err, ◌>>=◌, Action, and_then,
  if◌then◌else◌, codes,
}
use lexicon_revision.Access.Models.{
  RequestIdentity, AuthorizationContext, AccessError, value_error, no_row, collection_not_found,
  collection_access_denied, identity_provisioning,
}
use lexicon_revision.Access.Tables.{Tables}
use lexicon_revision.Access.Service.{authorize_collection}
use lexicon_revision.Study.Requests.{FilterCondition}
use lexicon_revision.Search.Schema.{CollectionMetadataSchema, SchemaError}
use lexicon_revision.Search.Filtering.{validate_filter_conditions}
use lexicon_revision.Web.Usage.{Endpoint, World, log_usage}

-- What a route may raise before its handlers: an `HTTPException` with its status, the errors that
-- the handlers name, and all others.
pub data RouteError : Type 0 where
  http : ℕ → RouteError
  access_denied provisioning not_found invalid_filter timed_out unexpected : RouteError

pub record RateLimitDecision : Type 0 where
  pub allowed : Bool
  pub retry_after_seconds : ℕ

-- `RateLimitUnavailableError` or the limiter's own timeout, and the deadline of the request
pub data LimiterFailure : Type 0 where
  unavailable deadline : LimiterFailure

-- `app.state`, its settings, and the request's identity as the resolver gives it or raises. The
-- first four are the parameters of `authorize_collection`.
pub record App (B L : Type 0) : Type 0 where
  pub lower : Text → Text
  pub now : ℕ
  pub has_resolver : Bool
  pub new_user_id : Text
  pub has_access_service : Bool
  pub request_identity : Result RouteError RequestIdentity
  pub has_usage_log : Bool
  pub query_max_chars : ℕ
  pub search_limit_max : ℕ
  pub study_top_k_max : ℕ
  pub rate_limiter :
      Option
        (Endpoint → Option AuthorizationContext → L → Result LimiterFailure RateLimitDecision × L)
  pub get_collection_schema : Option (Text → B → Result RouteError CollectionMetadataSchema × B)

unfoldable pub of_access : AccessError → RouteError
of_access (value_error message) = unexpected
of_access no_row = unexpected
of_access (collection_not_found name) = not_found
of_access (collection_access_denied name) = access_denied
of_access (identity_provisioning message reason) = provisioning

-- the context, where there is an access service
unfoldable pub authorized :
    {B L : Type 0}
    → Result AccessError AuthorizationContext × Tables
    → World B L
    → Result RouteError (Option AuthorizationContext) × World B L
authorized (ok context, t) w = (ok (some context), record w { tables = t })
authorized (err e, t) w = (err (of_access e), record w { tables = t })

-- `_app_user_id`
unfoldable pub app_user_id : Option AuthorizationContext → Option Text
app_user_id none = none
app_user_id (some context) = elim context.identity.user [
  | none ↦ none
  | some user ↦ some user.user_id
]

-- `enforce_query_length`, `enforce_search_limit` and `enforce_study_top_k`
unfoldable pub enforce_at_most : ℕ → ℕ → Result RouteError Unit
enforce_at_most n limit = if ltb limit n then err (http 422) else ok tt

unfoldable pub of_schema : {A : Type 0} → Result SchemaError A → Result RouteError A
of_schema (ok a) = ok a
of_schema (err _) = err invalid_filter

unfoldable pub with_schema :
    {B L : Type 0}
    → List FilterCondition
    → Result RouteError CollectionMetadataSchema × B
    → World B L
    → Result RouteError Unit × World B L
with_schema filters (err e, b) w = (err e, record w { services = b })
with_schema filters (ok schema, b) w = (
  of_schema (validate_filter_conditions filters schema) >>= (λ _. ok tt),
  record w { services = b },
)

module _ {B L : Type 0} (app : App B L) where
  -- `authorize_collection` of the application
  unfoldable pub authorize : Text → Action (World B L) RouteError (Option AuthorizationContext)
  authorize collection_name w =
      if app.has_access_service
      then and_then (app.request_identity, w)
          (λ identity v.
            authorized
              (authorize_collection app.lower app.now app.has_resolver app.new_user_id
                collection_name identity v.tables)
              v)
      else (ok none, w)

  unfoldable pub log_failure :
      Endpoint → Text → Option AuthorizationContext → Text → ℕ → World B L → World B L
  log_failure endpoint collection_name auth_context outcome status_code w =
      log_usage app.has_usage_log
        (record {
          endpoint = endpoint;
          collection_name = collection_name;
          app_user_id = app_user_id auth_context;
          outcome = outcome;
          status_code = some status_code;
        })
        w

  -- `_raise_rate_limit_unavailable`
  unfoldable pub rate_limit_unavailable :
      Endpoint
      → Text
      → Option AuthorizationContext
      → Action (World B L) RouteError RateLimitDecision
  rate_limit_unavailable endpoint collection_name auth_context w = (
    err (http 503),
    log_failure endpoint collection_name auth_context (codes "service_unavailable") 503 w,
  )

  -- behind the call of the limiter
  unfoldable pub on_decision :
      Endpoint
      → Text
      → Option AuthorizationContext
      → Result LimiterFailure RateLimitDecision
      → Action (World B L) RouteError RateLimitDecision
  on_decision endpoint collection_name auth_context (err unavailable) w =
      rate_limit_unavailable endpoint collection_name auth_context w
  on_decision endpoint collection_name auth_context (err deadline) w = (err timed_out, w)
  on_decision endpoint collection_name auth_context (ok decision) w =
      if decision.allowed then (ok decision, w) else (
        err (http 429),
        log_failure endpoint collection_name auth_context (codes "rate_limited") 429 w,
      )

  -- `_enforce_cost_rate_limit`
  unfoldable pub enforce_cost_rate_limit :
      Endpoint
      → Text
      → Option AuthorizationContext
      → Action (World B L) RouteError RateLimitDecision
  enforce_cost_rate_limit endpoint collection_name auth_context w = elim app.rate_limiter [
    | none ↦ rate_limit_unavailable endpoint collection_name auth_context w
    | some check ↦
        (let (decision, after) = check endpoint auth_context w.limiter in
          on_decision endpoint collection_name auth_context decision (record w { limiter = after }))
  ]

  -- `_validate_metadata_filters_if_available`
  unfoldable pub validate_filters : Text → List FilterCondition → Action (World B L) RouteError Unit
  validate_filters collection_name [] w = (ok tt, w)
  validate_filters collection_name (item ∷ filters) w = elim app.get_collection_schema [
    | none ↦ (ok tt, w)
    | some load ↦ with_schema (item ∷ filters) (load collection_name w.services) w
  ]
