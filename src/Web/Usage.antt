-- ===== src/Web/Usage.antt =====
-- The usage log of src/main.py and src/runtime/usage_logs.py, and what a route works on. Left out
-- of a record are the request's id, the latency, the telemetry and the details besides the status.
use lexicon_revision.Prelude.{
  ℕ, nat_eq, Text, codes, Bool, true, Option, List, [], ◌∷◌, ◌++◌, if◌then◌else◌,
}
use lexicon_revision.Access.Tables.{Tables}

-- the endpoints that are logged
pub data Endpoint : Type 0 where
  search study chunk_detail : Endpoint

pub record UsageRecord : Type 0 where
  pub endpoint : Endpoint
  pub collection_name : Text
  pub app_user_id : Option Text
  pub outcome : Text
  pub status_code : Option ℕ

-- the calls of the services that cost money
pub data Call : Type 0 where
  called_search called_study : Call

-- What a request reads and changes: the tables, the state `B` of the services behind the routes, the
-- state `L` of the rate limiter, `usage_log_attempted` of the request, the records handed to the
-- usage log, and the calls made.
pub record World (B L : Type 0) : Type 0 where
  pub tables : Tables
  pub services : B
  pub limiter : L
  pub usage_log_attempted : Bool
  pub usage : List UsageRecord
  pub calls : List Call

-- `_http_exception_outcome`
unfoldable pub http_exception_outcome : ℕ → Text
http_exception_outcome status_code =
    if nat_eq status_code 413
    then codes "request_too_large"
    else (if nat_eq status_code 429
        then codes "rate_limited"
        else (if nat_eq status_code 504
            then codes "timeout"
            else (if nat_eq status_code 503
                then codes "service_unavailable"
                else (if nat_eq status_code 404
                    then codes "not_found"
                    else (if nat_eq status_code 403
                        then codes "forbidden"
                        else (if nat_eq status_code 422
                            then codes "invalid_request"
                            else codes "error"))))))

-- `_log_usage_best_effort`, where `has_usage_log` says whether a repository is configured
unfoldable pub log_usage : {B L : Type 0} → Bool → UsageRecord → World B L → World B L
log_usage has_usage_log entry w =
    if has_usage_log
    then (if w.usage_log_attempted
        then w
        else record w { usage_log_attempted = true; usage = w.usage ++ entry ∷ [] })
    else w
