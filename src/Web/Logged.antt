-- ===== src/Web/Logged.antt =====
-- What the guards of src/main.py write to the usage log.
use lexicon_revision.Prelude.{
  ℕ, Text, codes, Bool-cases, Option-cases, true, false, Option, List, [], ◌∷◌, ◌++◌, Result, ok,
  err, and_then, ◌≡◌, ◌⊎◌, inl, inr, refl, ap,
}
use lexicon_revision.Access.Models.{AccessError, RequestIdentity, AuthorizationContext}
use lexicon_revision.Access.Tables.{Tables}
use lexicon_revision.Access.Service.{authorize_collection}
use lexicon_revision.Study.Requests.{FilterCondition}
use lexicon_revision.Search.Schema.{CollectionMetadataSchema}
use lexicon_revision.Web.Usage.{Endpoint, UsageRecord, World, http_exception_outcome, log_usage}
use lexicon_revision.Web.Guards.{
  RouteError, http, App, RateLimitDecision, LimiterFailure, unavailable, deadline, authorized,
  authorize, log_failure, rate_limit_unavailable, on_decision, enforce_cost_rate_limit, with_schema,
  validate_filters,
}

-- nothing was logged
abbrev pub IsUnlogged : {B L : Type 0} → World B L → World B L → Type 0
IsUnlogged w v = (v.usage ≡ w.usage) × (v.usage_log_attempted ≡ false)

-- one record was logged, with that outcome
abbrev pub HasLogged : {B L : Type 0} → Text → World B L → World B L → Type 0
HasLogged outcome w v =
    (entry : UsageRecord) × (entry.outcome ≡ outcome)
    × (v.usage ≡ w.usage ++ entry ∷ [])
    × (v.usage_log_attempted ≡ true)

-- nothing was logged, or an `HTTPException` was raised and logged
abbrev pub MayHaveLogged : {A B L : Type 0} → World B L → Result RouteError A × World B L → Type 0
MayHaveLogged w r =
    IsUnlogged w r.1
    ⊎ ((status_code : ℕ) × (r.0 ≡ err (http status_code))
        × HasLogged (http_exception_outcome status_code) w r.1)

pub log_usage-fresh :
    {B L : Type 0} (entry : UsageRecord) (w v : World B L)
    → IsUnlogged w v
    → HasLogged entry.outcome w (log_usage true entry v)
unfolding log_usage
log_usage-fresh entry w v (u, a) =
    (entry, refl, rw a (ap (λ (l : List UsageRecord). l ++ entry ∷ []) u), rw a refl)

pub log_usage-again :
    {B L : Type 0} (entry : UsageRecord) (outcome : Text) (w v : World B L)
    → HasLogged outcome w v
    → HasLogged outcome w (log_usage true entry v)
unfolding log_usage
log_usage-again entry outcome w v (first, o, u, a) = rw a (first, o, u, refl)

authorized-IsUnlogged :
    {B L : Type 0} (r : Result AccessError AuthorizationContext × Tables) (w v : World B L)
    → IsUnlogged w v
    → IsUnlogged w (authorized r v).1
unfolding authorized
authorized-IsUnlogged (ok context, t) w v h = h
authorized-IsUnlogged (err e, t) w v h = h

with_schema-IsUnlogged :
    {B L : Type 0} (filters : List FilterCondition)
    (r : Result RouteError CollectionMetadataSchema × B) (w v : World B L)
    → IsUnlogged w v
    → IsUnlogged w (with_schema filters r v).1
unfolding with_schema
with_schema-IsUnlogged filters (err e, b) w v h = h
with_schema-IsUnlogged filters (ok schema, b) w v h = h

module _ {B L : Type 0} (app : App B L) where
  pub authorize-IsUnlogged :
      (collection : Text) (w : World B L)
      → w.usage_log_attempted ≡ false
      → IsUnlogged w (authorize app collection w).1
  unfolding authorize
  authorize-IsUnlogged collection w h = elim (Bool-cases app.has_access_service) [
    | inl e ↦ rw e (from app.request_identity)
    | inr e ↦ rw e (refl, h)
  ]
    where
      from :
          (r : Result RouteError RequestIdentity)
          → IsUnlogged w
              (and_then
                (r, w)
                (λ identity v.
                  authorized
                    (authorize_collection app.lower app.now app.has_resolver app.new_user_id
                      collection identity v.tables)
                    v)).1
      from (ok identity) = authorized-IsUnlogged _ w w (refl, h)
      from (err e) = (refl, h)

  pub validate_filters-IsUnlogged :
      (collection : Text) (filters : List FilterCondition) (w v : World B L)
      → IsUnlogged w v
      → IsUnlogged w (validate_filters app collection filters v).1
  unfolding validate_filters
  validate_filters-IsUnlogged collection [] w v h = h
  validate_filters-IsUnlogged collection (item ∷ filters) w v h =
      elim (Option-cases app.get_collection_schema) [
        | inl e ↦ rw (e, validate_filters) h
        | inr (load, e) ↦
            rw (e, validate_filters)
              (with_schema-IsUnlogged (item ∷ filters) (load collection v.services) w v h)
      ]

  pub log_failure-fresh :
      (endpoint : Endpoint) (collection : Text) (ctx : Option AuthorizationContext) (outcome : Text)
      (status_code : ℕ) (w v : World B L)
      → app.has_usage_log ≡ true
      → IsUnlogged w v
      → HasLogged outcome w (log_failure app endpoint collection ctx outcome status_code v)
  unfolding log_failure
  log_failure-fresh endpoint collection ctx outcome status_code w v l h =
      rw l (log_usage-fresh _ w v h)

  on_decision-logged :
      (endpoint : Endpoint) (collection : Text) (ctx : Option AuthorizationContext)
      (r : Result LimiterFailure RateLimitDecision) (w v : World B L)
      → app.has_usage_log ≡ true
      → IsUnlogged w v
      → MayHaveLogged w (on_decision app endpoint collection ctx r v)
  unfolding on_decision rate_limit_unavailable http_exception_outcome
  on_decision-logged endpoint collection ctx (err unavailable) w v l h = inr (
    503,
    refl,
    log_failure-fresh endpoint collection ctx (codes "service_unavailable") 503 w v l h,
  )
  on_decision-logged endpoint collection ctx (err deadline) w v l h = inl h
  on_decision-logged endpoint collection ctx (ok decision) w v l h =
      elim (Bool-cases decision.allowed) [
        | inl e ↦ rw e (inl h)
        | inr e ↦ rw e (
            inr (
              429,
              refl,
              log_failure-fresh endpoint collection ctx (codes "rate_limited") 429 w v l h,
            ))
      ]

  pub enforce-logged :
      (endpoint : Endpoint) (collection : Text) (ctx : Option AuthorizationContext)
      (w v : World B L)
      → app.has_usage_log ≡ true
      → IsUnlogged w v
      → MayHaveLogged w (enforce_cost_rate_limit app endpoint collection ctx v)
  unfolding enforce_cost_rate_limit rate_limit_unavailable http_exception_outcome
  enforce-logged endpoint collection ctx w v l h = elim (Option-cases app.rate_limiter) [
    | inl e ↦
        rw (e, enforce_cost_rate_limit)
          (inr (
            503,
            refl,
            log_failure-fresh endpoint collection ctx (codes "service_unavailable") 503 w v l h,
          ))
    | inr (check, e) ↦
        rw (e, enforce_cost_rate_limit)
          (on_decision-logged endpoint collection ctx (check endpoint ctx v.limiter).0 w
            (record v { limiter = (check endpoint ctx v.limiter).1 }) l h)
  ]
