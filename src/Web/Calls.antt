-- ===== src/Web/Calls.antt =====
-- The guards of src/main.py call no service, and what they let pass.
use lexicon_revision.Prelude.{
  Text, Bool-cases, Option-cases, Bool, true, Option, none, some, List, [], ◌∷◌, Result, ok, err,
  is_ok, and_then, ◌≡◌, inl, inr, refl, arith,
}
use lexicon_revision.Access.Models.{AccessError, RequestIdentity, AuthorizationContext}
use lexicon_revision.Access.Tables.{Tables}
use lexicon_revision.Access.Service.{authorize_collection}
use lexicon_revision.Study.Requests.{FilterCondition}
use lexicon_revision.Search.Schema.{CollectionMetadataSchema}
use lexicon_revision.Web.Usage.{Endpoint, UsageRecord, World, log_usage}
use lexicon_revision.Web.Guards.{
  RouteError, App, RateLimitDecision, LimiterFailure, unavailable, deadline, authorized, authorize,
  log_failure, rate_limit_unavailable, on_decision, enforce_cost_rate_limit, with_schema,
  validate_filters,
}

pub log_usage-calls :
    {B L : Type 0} (has_usage_log : Bool) (entry : UsageRecord) (w : World B L)
    → (log_usage has_usage_log entry w).calls ≡ w.calls
unfolding log_usage
log_usage-calls has_usage_log entry w = ground arith

authorized-calls :
    {B L : Type 0} (r : Result AccessError AuthorizationContext × Tables) (w : World B L)
    → (authorized r w).1.calls ≡ w.calls
unfolding authorized
authorized-calls (ok context, t) w = refl
authorized-calls (err e, t) w = refl

with_schema-calls :
    {B L : Type 0} (filters : List FilterCondition)
    (r : Result RouteError CollectionMetadataSchema × B) (w : World B L)
    → (with_schema filters r w).1.calls ≡ w.calls
unfolding with_schema
with_schema-calls filters (err e, b) w = refl
with_schema-calls filters (ok schema, b) w = refl

module _ {B L : Type 0} (app : App B L) where
  pub authorize-calls :
      (collection : Text) (w : World B L) → (authorize app collection w).1.calls ≡ w.calls
  unfolding authorize
  authorize-calls collection w = elim (Bool-cases app.has_access_service) [
    | inl e ↦ rw e (from app.request_identity)
    | inr e ↦ rw e refl
  ]
    where
      from :
          (r : Result RouteError RequestIdentity)
          → (and_then
              (r, w)
              (λ identity v.
                authorized
                  (authorize_collection app.lower app.now app.has_resolver app.new_user_id
                    collection identity v.tables)
                  v)).1.calls
            ≡ w.calls
      from (ok identity) = authorized-calls _ w
      from (err e) = refl

  pub validate_filters-calls :
      (collection : Text) (filters : List FilterCondition) (w : World B L)
      → (validate_filters app collection filters w).1.calls ≡ w.calls
  unfolding validate_filters
  validate_filters-calls collection [] w = refl
  validate_filters-calls collection (item ∷ filters) w =
      elim (Option-cases app.get_collection_schema) [
        | inl e ↦ rw (e, validate_filters) refl
        | inr (load, e) ↦
            rw (e, validate_filters)
              (with_schema-calls (item ∷ filters) (load collection w.services) w)
      ]

  on_decision-calls :
      (endpoint : Endpoint) (collection : Text) (auth_context : Option AuthorizationContext)
      (r : Result LimiterFailure RateLimitDecision) (w : World B L)
      → (on_decision app endpoint collection auth_context r w).1.calls ≡ w.calls
  unfolding on_decision rate_limit_unavailable log_failure
  on_decision-calls endpoint collection auth_context (err unavailable) w =
      log_usage-calls app.has_usage_log _ w
  on_decision-calls endpoint collection auth_context (err deadline) w = refl
  on_decision-calls endpoint collection auth_context (ok decision) w =
      elim (Bool-cases decision.allowed) [
        | inl e ↦ rw e refl
        | inr e ↦ rw e (log_usage-calls app.has_usage_log _ w)
      ]

  pub enforce-calls :
      (endpoint : Endpoint) (collection : Text) (auth_context : Option AuthorizationContext)
      (w : World B L)
      → (enforce_cost_rate_limit app endpoint collection auth_context w).1.calls ≡ w.calls
  unfolding enforce_cost_rate_limit rate_limit_unavailable log_failure
  enforce-calls endpoint collection auth_context w = elim (Option-cases app.rate_limiter) [
    | inl e ↦ rw (e, enforce_cost_rate_limit) (log_usage-calls app.has_usage_log _ w)
    | inr (check, e) ↦
        rw (e, enforce_cost_rate_limit)
          (on_decision-calls endpoint collection auth_context
            (check endpoint auth_context w.limiter).0
            (record w { limiter = (check endpoint auth_context w.limiter).1 }))
  ]

  -- the limiter allowed the request
  abbrev pub IsAllowed : Endpoint → Option AuthorizationContext → World B L → Type 0
  IsAllowed endpoint auth_context w =
      (check : Endpoint
        → Option AuthorizationContext
        → L
        → Result LimiterFailure RateLimitDecision × L)
      × (decision : RateLimitDecision) × (app.rate_limiter ≡ some check)
      × ((check endpoint auth_context w.limiter).0 ≡ ok decision)
      × (decision.allowed ≡ true)

  on_decision-allowed :
      (endpoint : Endpoint) (collection : Text) (auth_context : Option AuthorizationContext)
      (r : Result LimiterFailure RateLimitDecision) (w : World B L)
      → is_ok (on_decision app endpoint collection auth_context r w).0 ≡ true
      → (decision : RateLimitDecision) × (r ≡ ok decision) × (decision.allowed ≡ true)
  unfolding on_decision rate_limit_unavailable
  on_decision-allowed endpoint collection auth_context (err unavailable) w h = absurd (cc h)
  on_decision-allowed endpoint collection auth_context (err deadline) w h = absurd (cc h)
  on_decision-allowed endpoint collection auth_context (ok decision) w h =
      elim (Bool-cases decision.allowed) [
        | inl e ↦ (decision, refl, e)
        | inr e ↦ absurd (cc (rw e at h))
      ]

  pub enforce-IsAllowed :
      (endpoint : Endpoint) (collection : Text) (auth_context : Option AuthorizationContext)
      (w : World B L)
      → is_ok (enforce_cost_rate_limit app endpoint collection auth_context w).0 ≡ true
      → IsAllowed endpoint auth_context w
  unfolding enforce_cost_rate_limit rate_limit_unavailable
  enforce-IsAllowed endpoint collection auth_context w h = elim (Option-cases app.rate_limiter) [
    | inl e ↦ absurd (none_allowed e)
    | inr (check, e) ↦
        (let (decision, d, a) =
            on_decision-allowed endpoint collection auth_context
              (check endpoint auth_context w.limiter).0
              (record w { limiter = (check endpoint auth_context w.limiter).1 })
              (rw (e, enforce_cost_rate_limit) at h) in
          (check, decision, e, d, a))
  ]
    where
      none_allowed : app.rate_limiter ≡ none → ⊥
      none_allowed e = cc (rw (e, enforce_cost_rate_limit) at h)
