-- ===== src/Web/Cleared.antt =====
-- When the routes of src/main.py call a service.
use lexicon_revision.Prelude.{
  ℕ, Text, true, false, Option, none, some, List, [], ◌∷◌, ◌++◌, Result, ok, err, is_ok, and_then,
  ◌≡◌, ◌⊎◌, ◌∙◌, inl, inr, refl, ap,
}
use lexicon_revision.Access.Models.{AuthorizationContext}
use lexicon_revision.Web.Usage.{Call, World}
use lexicon_revision.Web.Guards.{
  RouteError, App, RateLimitDecision, authorize, log_failure, enforce_cost_rate_limit,
  validate_filters,
}
use lexicon_revision.Web.Routes.{Route, guarded_call, fail, respond, with_context, run_route}
use lexicon_revision.Web.Calls.{
  log_usage-calls, authorize-calls, validate_filters-calls, enforce-calls, enforce-IsAllowed,
  IsAllowed,
}

module _ {B L R : Type 0} (app : App B L) (route : Route B L R) (c : Call) where
  -- the call of the service is recorded once
  abbrev pub CallsOnce : Type 0
  CallsOnce = (v : World B L) → (route.call v).1.calls ≡ v.calls ++ c ∷ []

  -- every guard let the request pass
  pub record Passed (auth_context : Option AuthorizationContext) (w : World B L) : Type 0 where
    pub limits : route.limits ≡ ok tt
    pub filtered : (validate_filters app route.collection route.filters w).0 ≡ ok tt
    pub allowed :
        IsAllowed app route.endpoint auth_context
          (validate_filters app route.collection route.filters w).1

  -- the service was not called, and then nothing is returned, or it was called behind the guards
  abbrev pub CalledBehind :
      Option AuthorizationContext → World B L → Result RouteError R × World B L → Type 0
  CalledBehind auth_context w r =
      ((r.1.calls ≡ w.calls) × (is_ok r.0 ≡ false))
      ⊎ ((r.1.calls ≡ w.calls ++ c ∷ []) × Passed auth_context w)

  guarded_call-CalledBehind :
      (auth_context : Option AuthorizationContext) (w : World B L)
      → CallsOnce
      → CalledBehind auth_context w (guarded_call app route auth_context w)
  unfolding guarded_call
  guarded_call-CalledBehind auth_context w once = by_limits route.limits refl
    where
      filters : World B L → Result RouteError Unit × World B L
      filters = validate_filters app route.collection route.filters

      rate : World B L → Result RouteError RateLimitDecision × World B L
      rate = enforce_cost_rate_limit app route.endpoint route.collection auth_context

      by_rate :
          (u : World B L) (r : Result RouteError RateLimitDecision × World B L)
          → route.limits ≡ ok tt
          → (filters w).0 ≡ ok tt
          → (filters w).1 ≡ u
          → u.calls ≡ w.calls
          → rate u ≡ r
          → r.1.calls ≡ u.calls
          → CalledBehind auth_context w (and_then r (λ _. route.call))
      by_rate u (err e, t) l f g k q n = inl (n ∙ k, refl)
      by_rate u (ok decision, t) l f g k q n =
          let passes : is_ok (rate u).0 ≡ true =
            ap (λ (x : Result RouteError RateLimitDecision × World B L). is_ok x.0) q in
          inr (
            once t ∙ ap (λ (x : List Call). x ++ c ∷ []) (n ∙ k),
            record {
              limits = l;
              filtered = f;
              allowed =
                  rw g
                    (enforce-IsAllowed app route.endpoint route.collection auth_context u passes);
            },
          )

      by_filters :
          (r : Result RouteError Unit × World B L)
          → route.limits ≡ ok tt
          → filters w ≡ r
          → r.1.calls ≡ w.calls
          → CalledBehind auth_context w (and_then r (λ _ u. and_then (rate u) (λ _. route.call)))
      by_filters (err e, u) l f k = inl (k, refl)
      by_filters (ok _, u) l f k =
          by_rate u (rate u) l (ap (λ (x : Result RouteError Unit × World B L). x.0) f)
            (ap (λ (x : Result RouteError Unit × World B L). x.1) f) k refl
            (enforce-calls app route.endpoint route.collection auth_context u)

      by_limits :
          (r : Result RouteError Unit)
          → route.limits ≡ r
          → CalledBehind auth_context w (
              and_then
                (r, w)
                (λ _ v. and_then (filters v) (λ _ u. and_then (rate u) (λ _. route.call))))
      by_limits (err e) l = inl (refl, refl)
      by_limits (ok _) l =
          by_filters (filters w) l refl
            (validate_filters-calls app route.collection route.filters w)

  fail-calls :
      (auth_context : Option AuthorizationContext) (e : RouteError) (o : Option (Text × ℕ))
      (w : World B L)
      → ((fail app route auth_context e o w).1.calls ≡ w.calls)
        × (is_ok (fail app route auth_context e o w).0 ≡ false)
  unfolding fail log_failure
  fail-calls auth_context e none w = (refl, refl)
  fail-calls auth_context e (some (outcome, status_code)) w =
      (log_usage-calls app.has_usage_log _ w, refl)

  respond-CalledBehind :
      (auth_context : Option AuthorizationContext) (w : World B L)
      (r : Result RouteError R × World B L)
      → CalledBehind auth_context w r
      → CalledBehind auth_context w (respond app route auth_context r)
  unfolding respond
  respond-CalledBehind auth_context w (ok a, v) (inl (k, h)) = absurd (cc h)
  respond-CalledBehind auth_context w (ok a, v) (inr (k, p)) =
      inr (log_usage-calls app.has_usage_log _ v ∙ k, p)
  respond-CalledBehind auth_context w (err e, v) (inl (k, h)) =
      let (f, n) = fail-calls auth_context e (route.handler e) v in inl (f ∙ k, n)
  respond-CalledBehind auth_context w (err e, v) (inr (k, p)) =
      inr ((fail-calls auth_context e (route.handler e) v).0 ∙ k, p)

  -- the authorization returned its context, and left a state from which every guard let pass
  pub record IsCleared (w : World B L) : Type 0 where
    pub auth_context : Option AuthorizationContext
    pub after : World B L
    pub authorization : authorize app route.collection w ≡ (ok auth_context, after)
    pub passed : Passed auth_context after

  -- the service was called once, behind the guards, or not at all, and then nothing is returned
  abbrev pub CallsCleared : World B L → Result RouteError R × World B L → Type 0
  CallsCleared w r =
      ((r.1.calls ≡ w.calls) × (is_ok r.0 ≡ false))
      ⊎ ((r.1.calls ≡ w.calls ++ c ∷ []) × IsCleared w)

  pub run_route-CallsCleared : (w : World B L) → CallsOnce → CallsCleared w (run_route app route w)
  unfolding run_route with_context
  run_route-CallsCleared w once =
      by_context (authorize app route.collection w) refl (authorize-calls app route.collection w)
    where
      by_call :
          (ctx : Option AuthorizationContext) (v : World B L)
          → authorize app route.collection w ≡ (ok ctx, v)
          → v.calls ≡ w.calls
          → CalledBehind ctx v (respond app route ctx (guarded_call app route ctx v))
          → CallsCleared w (respond app route ctx (guarded_call app route ctx v))
      by_call ctx v a k (inl (n, h)) = inl (n ∙ k, h)
      by_call ctx v a k (inr (n, p)) = inr (
        n ∙ ap (λ (x : List Call). x ++ c ∷ []) k,
        record { auth_context = ctx; after = v; authorization = a; passed = p },
      )

      by_context :
          (r : Result RouteError (Option AuthorizationContext) × World B L)
          → authorize app route.collection w ≡ r
          → r.1.calls ≡ w.calls
          → CallsCleared w (with_context app route r)
      by_context (err e, v) a k =
          let (f, n) = fail-calls none e (route.handler e) v in inl (f ∙ k, n)
      by_context (ok ctx, v) a k = by_call ctx v a k (
          respond-CalledBehind ctx v (guarded_call app route ctx v)
            (guarded_call-CalledBehind ctx v once))
