-- ===== src/Web/Reported.antt =====
-- What the routes `/search` and `/study` of src/main.py write to the usage log.
use lexicon_revision.Prelude.{
  ℕ, Text, codes, true, false, Option, none, some, List, [], ◌∷◌, ◌++◌, Result, ok, err, and_then,
  ◌≡◌, ◌∙◌, inl, inr, refl, ap,
}
use lexicon_revision.Access.Models.{AuthorizationContext}
use lexicon_revision.Study.Requests.{SearchResult, StudyRequest, StudyResponse}
use lexicon_revision.Web.Usage.{
  study, Call, called_search, called_study, World, http_exception_outcome,
}
use lexicon_revision.Web.Guards.{
  RouteError, http, access_denied, provisioning, not_found, invalid_filter, timed_out, unexpected,
  App, RateLimitDecision, authorize, log_failure, enforce_cost_rate_limit, validate_filters,
}
use lexicon_revision.Web.Routes.{
  Route, search_handler, study_handler, study_outcome, guarded_call, fail, respond, with_context,
  run_route, SearchRequest, search_parts, study_parts, called, search_route, study_route,
}
use lexicon_revision.Web.Logged.{
  IsUnlogged, HasLogged, MayHaveLogged, authorize-IsUnlogged, validate_filters-IsUnlogged,
  enforce-logged, log_failure-fresh, log_usage-fresh, log_usage-again,
}

-- What is logged of a result: its outcome, or that of the status; and nothing of an error that the
-- handlers of a route leave to those of the application.
abbrev pub IsReported :
    {B L R : Type 0} → (R → Text) → World B L → Result RouteError R → World B L → Type 0
IsReported outcome w (ok a) v = HasLogged (outcome a) w v
IsReported outcome w (err (http status_code)) v = HasLogged (http_exception_outcome status_code) w v
IsReported outcome w (err access_denied) v = IsUnlogged w v
IsReported outcome w (err provisioning) v = IsUnlogged w v
IsReported outcome w (err not_found) v = IsUnlogged w v
IsReported outcome w (err invalid_filter) v = IsUnlogged w v
IsReported outcome w (err timed_out) v = IsUnlogged w v
IsReported outcome w (err unexpected) v = IsUnlogged w v

-- the outcome that a handler logs is that of the status that it raises
abbrev Agrees : (RouteError → Option (Text × ℕ)) → Type 0
Agrees handler =
    ((e : RouteError) (o : Text × ℕ) → handler e ≡ some o → o.0 ≡ http_exception_outcome o.1)
    × ((status_code : ℕ)
        → handler (http status_code) ≡ some (http_exception_outcome status_code, status_code))

search_handler-Agrees : Agrees search_handler
unfolding search_handler http_exception_outcome
search_handler-Agrees = (each, λ status_code. refl)
  where
    each :
        (e : RouteError) (o : Text × ℕ)
        → search_handler e ≡ some o
        → o.0 ≡ http_exception_outcome o.1
    each (http status_code) o q =
        let r : (http_exception_outcome status_code, status_code) ≡ o = cc q in rw (← r) refl
    each access_denied o q = let r : (codes "forbidden", 403) ≡ o = cc q in rw (← r) refl
    each provisioning o q = let r : (codes "forbidden", 403) ≡ o = cc q in rw (← r) refl
    each not_found o q = let r : (codes "not_found", 404) ≡ o = cc q in rw (← r) refl
    each invalid_filter o q = let r : (codes "invalid_request", 422) ≡ o = cc q in rw (← r) refl
    each timed_out o q = absurd (cc q)
    each unexpected o q = absurd (cc q)

study_handler-Agrees : Agrees study_handler
unfolding study_handler http_exception_outcome
study_handler-Agrees = (each, λ status_code. refl)
  where
    each :
        (e : RouteError) (o : Text × ℕ)
        → study_handler e ≡ some o
        → o.0 ≡ http_exception_outcome o.1
    each (http status_code) o q =
        let r : (http_exception_outcome status_code, status_code) ≡ o = cc q in rw (← r) refl
    each access_denied o q = let r : (codes "forbidden", 403) ≡ o = cc q in rw (← r) refl
    each provisioning o q = let r : (codes "forbidden", 403) ≡ o = cc q in rw (← r) refl
    each not_found o q = let r : (codes "not_found", 404) ≡ o = cc q in rw (← r) refl
    each invalid_filter o q = let r : (codes "invalid_request", 422) ≡ o = cc q in rw (← r) refl
    each timed_out o q = let r : (codes "timeout", 504) ≡ o = cc q in rw (← r) refl
    each unexpected o q = absurd (cc q)

module _ {B L R : Type 0} (app : App B L) (route : Route B L R) where
  abbrev CallsQuietly : Type 0
  CallsQuietly =
      (v : World B L)
      → ((route.call v).1.usage ≡ v.usage)
        × ((route.call v).1.usage_log_attempted ≡ v.usage_log_attempted)

  guarded_call-logged :
      (ctx : Option AuthorizationContext) (w v : World B L)
      → app.has_usage_log ≡ true
      → CallsQuietly
      → IsUnlogged w v
      → MayHaveLogged w (guarded_call app route ctx v)
  unfolding guarded_call
  guarded_call-logged ctx w v l quiet h = by_limits route.limits
    where
      by_rate :
          (r : Result RouteError RateLimitDecision × World B L)
          → MayHaveLogged w r
          → MayHaveLogged w (and_then r (λ _. route.call))
      by_rate (ok d, t) (inl (u, a)) = inl ((quiet t).0 ∙ u, (quiet t).1 ∙ a)
      by_rate (ok d, t) (inr (k, e, m)) = absurd (cc e)
      by_rate (err e, t) (inl m) = inl m
      by_rate (err e, t) (inr (k, q, m)) = inr (k, cc q, m)

      by_filters :
          (r : Result RouteError Unit × World B L)
          → IsUnlogged w r.1
          → MayHaveLogged w (
              and_then r (λ _ u.
                and_then
                  (enforce_cost_rate_limit app route.endpoint route.collection ctx u)
                  (λ _. route.call)))
      by_filters (err e, u) m = inl m
      by_filters (ok _, u) m =
          by_rate (enforce_cost_rate_limit app route.endpoint route.collection ctx u)
            (enforce-logged app route.endpoint route.collection ctx w u l m)

      by_limits :
          (r : Result RouteError Unit)
          → MayHaveLogged w (
              and_then
                (r, v)
                (λ _ t. and_then (validate_filters app route.collection route.filters t) (λ _ u.
                  and_then
                    (enforce_cost_rate_limit app route.endpoint route.collection ctx u)
                    (λ _. route.call))))
      by_limits (err e) = inl h
      by_limits (ok _) =
          by_filters (validate_filters app route.collection route.filters v)
            (validate_filters-IsUnlogged app route.collection route.filters w v h)

  other_error :
      (e : RouteError) (w v : World B L)
      → ((status_code : ℕ) → e ≡ http status_code → ⊥)
      → IsUnlogged w v
      → IsReported route.outcome w (err e) v
  other_error (http status_code) w v n h = absurd (n status_code refl)
  other_error access_denied w v n h = h
  other_error provisioning w v n h = h
  other_error not_found w v n h = h
  other_error invalid_filter w v n h = h
  other_error timed_out w v n h = h
  other_error unexpected w v n h = h

  fail-IsReported :
      (ctx : Option AuthorizationContext) (e : RouteError) (o : Option (Text × ℕ)) (w v : World B L)
      → app.has_usage_log ≡ true
      → Agrees route.handler
      → route.handler e ≡ o
      → MayHaveLogged {A = R} w (err e, v)
      → IsReported route.outcome w (fail app route ctx e o v).0 (fail app route ctx e o v).1
  unfolding fail log_failure
  fail-IsReported ctx e none w v l agrees q m = other_error e w v no_status (unlogged m)
    where
      no_status : (status_code : ℕ) → e ≡ http status_code → ⊥
      no_status k z = let r : route.handler (http k) ≡ none = rw z at q in cc (r, agrees.1 k)

      unlogged : MayHaveLogged {A = R} w (err e, v) → IsUnlogged w v
      unlogged (inl h) = h
      unlogged (inr (k, z, h)) = absurd (no_status k (cc z))
  fail-IsReported ctx e (some o) w v l agrees q (inl h) =
      let (entry, same, u, a) =
        log_failure-fresh app route.endpoint route.collection ctx o.0 o.1 w v l h in
      (entry, same ∙ agrees.0 e o q, u, a)
  fail-IsReported ctx e (some o) w v l agrees q (inr (k, z, h)) =
      let r : route.handler (http k) ≡ some o = rw (ok_injective_err z) at q in
      let same : (http_exception_outcome k, k) ≡ o = cc (r, agrees.1 k) in
      let status : k ≡ o.1 = ap (λ (x : Text × ℕ). x.1) same in again (rw status at h)
    where
      ok_injective_err : {k : ℕ} → ◌≡◌ {A = Result RouteError R} (err e) (err (http k)) → e ≡ http k
      ok_injective_err x = cc x

      again :
          HasLogged (http_exception_outcome o.1) w v
          → HasLogged
              (http_exception_outcome o.1)
              w
              (log_failure app route.endpoint route.collection ctx o.0 o.1 v)
      again h = rw l (log_usage-again _ (http_exception_outcome o.1) w v h)

  respond-IsReported :
      (ctx : Option AuthorizationContext) (w : World B L) (r : Result RouteError R × World B L)
      → app.has_usage_log ≡ true
      → Agrees route.handler
      → MayHaveLogged w r
      → IsReported route.outcome w (respond app route ctx r).0 (respond app route ctx r).1
  unfolding respond
  respond-IsReported ctx w (err e, v) l agrees m =
      fail-IsReported ctx e (route.handler e) w v l agrees refl m
  respond-IsReported ctx w (ok a, v) l agrees (inl h) = rw l (log_usage-fresh _ w v h)
  respond-IsReported ctx w (ok a, v) l agrees (inr (k, z, h)) = absurd (cc z)

  run_route-IsReported :
      (w : World B L)
      → app.has_usage_log ≡ true
      → w.usage_log_attempted ≡ false
      → Agrees route.handler
      → CallsQuietly
      → IsReported route.outcome w (run_route app route w).0 (run_route app route w).1
  unfolding run_route with_context
  run_route-IsReported w l a agrees quiet =
      by_context (authorize app route.collection w) (authorize-IsUnlogged app route.collection w a)
    where
      by_context :
          (r : Result RouteError (Option AuthorizationContext) × World B L)
          → IsUnlogged w r.1
          → IsReported route.outcome w (with_context app route r).0 (with_context app route r).1
      by_context (err e, v) h = fail-IsReported none e (route.handler e) w v l agrees refl (inl h)
      by_context (ok ctx, v) h =
          respond-IsReported ctx w (guarded_call app route ctx v) l agrees
            (guarded_call-logged ctx w v l quiet h)

called_quietly :
    {B L R : Type 0} (f : World B L → Result RouteError R × B) (calls : World B L → List Call)
    (v : World B L)
    → ((called (calls v) (f v) v).1.usage ≡ v.usage)
      × ((called (calls v) (f v) v).1.usage_log_attempted ≡ v.usage_log_attempted)
unfolding called
called_quietly f calls v = (refl, refl)

-- With a usage log, a request that was not logged before leaves exactly one record when `/search`
-- returns or raises an `HTTPException`: its outcome is `ok`, or the one of the status. An error
-- that the route does not handle leaves none.
pub search_route-IsReported :
    {B L : Type 0} (app : App B L)
    (service : SearchRequest → B → Result RouteError (List SearchResult) × B)
    (payload : SearchRequest) (w : World B L)
    → app.has_usage_log ≡ true
    → w.usage_log_attempted ≡ false
    → IsReported
        (λ (results : List SearchResult). codes "ok")
        w
        (search_route app service payload w).0
        (search_route app service payload w).1
unfolding search_route
search_route-IsReported app service payload w l a =
    run_route-IsReported app (search_parts app service payload) w l a search_handler-Agrees
      (called_quietly (λ v. service payload v.services) (λ v. v.calls ++ called_search ∷ []))

-- With a usage log, a request that was not logged before leaves exactly one record when `/study`
-- returns or raises an `HTTPException`, also when the study service is not configured: its outcome
-- is the one that `_study_outcome` gives the response, or the one of the status. An error that the
-- route does not handle leaves none.
pub study_route-IsReported :
    {B L : Type 0} (app : App B L)
    (service : Option (StudyRequest → B → Result RouteError StudyResponse × B))
    (payload : StudyRequest) (w : World B L)
    → app.has_usage_log ≡ true
    → w.usage_log_attempted ≡ false
    → IsReported study_outcome w
        (study_route app service payload w).0
        (study_route app service payload w).1
unfolding study_route http_exception_outcome
study_route-IsReported app none payload w l a =
    log_failure-fresh app study payload.collection none (codes "service_unavailable") 503 w w l
      (refl, a)
study_route-IsReported app (some service) payload w l a =
    run_route-IsReported app (study_parts app service payload) w l a study_handler-Agrees
      (called_quietly (λ v. service payload v.services) (λ v. v.calls ++ called_study ∷ []))
