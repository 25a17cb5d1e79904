-- ===== src/Web/Tests.antt =====
-- An application with two collections of which the first is public, a limiter that counts down, and
-- requests for the routes.
use lexicon_revision.Prelude.{
  ℕ, ltb, Text, text_eq, codes, true, false, Option, none, some, List, [], ◌∷◌, ◌-◌, ◌+◌, Result,
  ok, err, ◌≡◌, refl, ◌⊎◌, is_ok,
}
use lexicon_revision.Access.Models.{AuthorizationContext, anonymous, is_anonymous, is_authenticated}
use lexicon_revision.Access.Tables.{first, get_collection_access}
use lexicon_revision.Access.Service.{
  authorize_collection, resolve_identity_with_affiliation, admit, may_read,
}
use lexicon_revision.Study.Models.{question}
use lexicon_revision.Study.Requests.{SearchResult, StudyRequest, StudyResponse}
use lexicon_revision.Web.Usage.{
  Endpoint, search, study, UsageRecord, called_search, called_study, World, http_exception_outcome,
  log_usage,
}
use lexicon_revision.Web.Guards.{
  RouteError, http, timed_out, App, RateLimitDecision, LimiterFailure, of_access, authorized,
  app_user_id, enforce_at_most, authorize, log_failure, rate_limit_unavailable, on_decision,
  enforce_cost_rate_limit, validate_filters,
}
use lexicon_revision.Web.Routes.{
  SearchRequest, search_handler, guarded_call, fail, respond, with_context, run_route,
  study_handler, search_limits, study_limits, called, search_route, study_route, study_outcome,
}
use lexicon_revision.Web.Readers.{SearchCleared, search_route-SearchCleared}
use lexicon_revision.Web.Reported.{IsReported, study_route-IsReported}

-- a limiter whose state is the number of requests left
abbrev count_down :
    Endpoint → Option AuthorizationContext → ℕ → Result LimiterFailure RateLimitDecision × ℕ
count_down endpoint auth_context left =
    (ok (record { allowed = ltb 0 left; retry_after_seconds = 60 }), left - 1)

abbrev app : App ℕ ℕ
app = record {
  lower = λ s. s;
  now = 0;
  has_resolver = false;
  new_user_id = codes "u1";
  has_access_service = true;
  request_identity = ok anonymous;
  has_usage_log = true;
  query_max_chars = 5;
  search_limit_max = 50;
  study_top_k_max = 20;
  rate_limiter = some count_down;
  get_collection_schema = none;
}

-- with `left` requests left
abbrev world : ℕ → World ℕ ℕ
world left = record {
  tables = record {
    users = [];
    identities = [];
    memberships = [];
    email_domains = [];
    overrides = [];
    collections =
        record { id = codes "c1"; name = codes "open"; community_id = none }
        ∷ record { id = codes "c2"; name = codes "exams"; community_id = some (codes "edinburgh") }
        ∷ [];
  };
  services = 0;
  limiter = left;
  usage_log_attempted = false;
  usage = [];
  calls = [];
}

abbrev found : SearchResult
found = record {
  chunk_id = codes "q1";
  chunk_level = question;
  parent_chunk_id = none;
  sub_question_label = none;
  text = codes "Prove it.";
  score = 7;
}

-- a search service that counts its calls
abbrev search_service : SearchRequest → ℕ → Result RouteError (List SearchResult) × ℕ
search_service payload n = (ok (found ∷ []), n + 1)

-- a study service that does not return in time
abbrev study_service : StudyRequest → ℕ → Result RouteError StudyResponse × ℕ
study_service payload n = (err timed_out, n + 1)

abbrev asked : Text → Text → SearchRequest
asked collection query = record {
  query = query;
  collection = collection;
  filters = [];
  limit = 10;
  rerank = false;
}

abbrev studied : StudyRequest
studied = record { query = codes "trees"; collection = codes "open"; filters = []; top_k = 10 }

-- the record that a request leaves
abbrev entry : Endpoint → Text → Text → Option ℕ → UsageRecord
entry endpoint collection outcome status_code = record {
  endpoint = endpoint;
  collection_name = collection;
  app_user_id = none;
  outcome = outcome;
  status_code = status_code;
}

routes : Unit {0}
unfolding text_eq is_anonymous is_authenticated first get_collection_access authorize_collection
    resolve_identity_with_affiliation admit may_read http_exception_outcome log_usage of_access
    authorized app_user_id enforce_at_most authorize log_failure rate_limit_unavailable on_decision
    enforce_cost_rate_limit validate_filters search_handler study_handler guarded_call fail respond
    with_context run_route search_limits study_limits called search_route study_route
routes = tt

allowed : search_route app search_service (asked (codes "open") (codes "trees")) (world 3) ≡ (
  ok (found ∷ []),
  record (world 2) {
    services = 1;
    usage_log_attempted = true;
    usage = entry search (codes "open") (codes "ok") none ∷ [];
    calls = called_search ∷ [];
  },
)
unfolding routes
allowed = refl

rate_limited : search_route app search_service (asked (codes "open") (codes "trees")) (world 0) ≡ (
  err (http 429),
  record (world 0) {
    usage_log_attempted = true;
    usage = entry search (codes "open") (codes "rate_limited") (some 429) ∷ [];
  },
)
unfolding routes
rate_limited = refl

denied : search_route app search_service (asked (codes "exams") (codes "trees")) (world 3) ≡ (
  err (http 403),
  record (world 3) {
    usage_log_attempted = true;
    usage = entry search (codes "exams") (codes "forbidden") (some 403) ∷ [];
  },
)
unfolding routes
denied = refl

missing : search_route app search_service (asked (codes "none") (codes "trees")) (world 3) ≡ (
  err (http 404),
  record (world 3) {
    usage_log_attempted = true;
    usage = entry search (codes "none") (codes "not_found") (some 404) ∷ [];
  },
)
unfolding routes
missing = refl

too_long : search_route app search_service (asked (codes "open") (codes "graphs")) (world 3) ≡ (
  err (http 422),
  record (world 3) {
    usage_log_attempted = true;
    usage = entry search (codes "open") (codes "invalid_request") (some 422) ∷ [];
  },
)
unfolding routes
too_long = refl

timeout : study_route app (some study_service) studied (world 3) ≡ (
  err (http 504),
  record (world 2) {
    services = 1;
    usage_log_attempted = true;
    usage = entry study (codes "open") (codes "timeout") (some 504) ∷ [];
    calls = called_study ∷ [];
  },
)
unfolding routes
timeout = refl

search_route-SearchCleared_example :
    (((search_route app search_service (asked (codes "open") (codes "trees")) (world 3)).1.calls
        ≡ [])
      × (is_ok (search_route app search_service (asked (codes "open") (codes "trees")) (world 3)).0
          ≡ false))
    ⊎ (((search_route app search_service (asked (codes "open") (codes "trees")) (world 3)).1.calls
          ≡ called_search ∷ [])
        × SearchCleared app (asked (codes "open") (codes "trees")) (world 3))
search_route-SearchCleared_example =
    search_route-SearchCleared app search_service (asked (codes "open") (codes "trees")) (world 3)

study_route-IsReported_example :
    IsReported study_outcome
      (world 3)
      (study_route app (some study_service) studied (world 3)).0
      (study_route app (some study_service) studied (world 3)).1
study_route-IsReported_example =
    study_route-IsReported app (some study_service) studied (world 3) refl refl
