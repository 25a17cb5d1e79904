-- ===== src/Web/Readers.antt =====
-- Who reaches the services behind the routes `/search` and `/study` of src/main.py.
use lexicon_revision.Prelude.{
  ℕ, ltb, ◌≤◌, Text, length, true, false, ◌&&◌, Option, some, List, [], ◌∷◌, ◌++◌, Result, ok, err,
  >>=-ok, is_ok, and_then, if◌then◌else◌, ◌≡◌, ◌⊎◌, inl, inr, refl, sym, ap, arith,
}
use lexicon_revision.Access.Models.{AccessError, RequestIdentity, AuthorizationContext}
use lexicon_revision.Access.Tables.{Tables, get_collection_access}
use lexicon_revision.Access.Service.{authorize_collection}
use lexicon_revision.Access.Service.Authorization.{MayRead, authorize_collection-MayRead}
use lexicon_revision.Study.Requests.{SearchResult, StudyRequest}
use lexicon_revision.Search.Service.{rerank_candidate_cap}
use lexicon_revision.Web.Usage.{search, study, Call, called_search, World}
use lexicon_revision.Web.Guards.{
  validate_filters, RouteError, http, App, authorized, enforce_at_most, authorize,
}
use lexicon_revision.Web.Routes.{
  search_parts, Route, SearchRequest, search_limits, called, search_route,
}
use lexicon_revision.Web.Calls.{IsAllowed}
use lexicon_revision.Web.Cleared.{IsCleared, CallsCleared, run_route-CallsCleared}

-- the user may read the collection of that name
abbrev pub IsReader :
    {B L : Type 0} → Text → World B L → Option AuthorizationContext → World B L → Type 0
IsReader collection w ctx after =
    (context : AuthorizationContext) × (ctx ≡ some context)
    × (get_collection_access w.tables collection ≡ some context.collection)
    × MayRead after.tables context

authorized-inverse :
    {B L : Type 0} (r : Result AccessError AuthorizationContext × Tables) (w : World B L)
    (ctx : Option AuthorizationContext) (after : World B L)
    → authorized r w ≡ (ok ctx, after)
    → (context : AuthorizationContext) × (t : Tables) × (r ≡ (ok context, t))
      × (ctx ≡ some context)
      × (after.tables ≡ t)
unfolding authorized
authorized-inverse (ok context, t) w ctx after h =
    (context, t, refl, sym (cc (ap (λ r. r.0) h)), ap (λ r. r.1.tables) (sym h))
authorized-inverse (err e, t) w ctx after h = absurd (differ (ap (λ r. is_ok r.0) h))
  where
    differ : false ≡ true → ⊥
    differ q = cc

module _ {B L : Type 0} (app : App B L) where
  authorize-IsReader :
      (collection : Text) (w : World B L) (ctx : Option AuthorizationContext) (after : World B L)
      → app.has_access_service ≡ true
      → authorize app collection w ≡ (ok ctx, after)
      → IsReader collection w ctx after
  unfolding authorize
  authorize-IsReader collection w ctx after s h = by_identity app.request_identity (rw s at h)
    where
      outcome : RequestIdentity → Result AccessError AuthorizationContext × Tables
      outcome identity =
          authorize_collection app.lower app.now app.has_resolver app.new_user_id collection
            identity w.tables

      by_identity :
          (r : Result RouteError RequestIdentity)
          → and_then
              (r, w)
              (λ identity v.
                authorized
                  (authorize_collection app.lower app.now app.has_resolver app.new_user_id
                    collection identity v.tables)
                  v)
            ≡ (ok ctx, after)
          → IsReader collection w ctx after
      by_identity (err e) q = absurd (differ (ap (λ r. is_ok r.0) q))
        where
          differ : false ≡ true → ⊥
          differ z = cc
      by_identity (ok identity) q =
          let (context, t, e, c, k) = authorized-inverse (outcome identity) w ctx after q in
          let (found, reads) =
            authorize_collection-MayRead app.lower app.now app.has_resolver app.new_user_id
              collection identity w.tables t context e in
          (context, c, found, rw k reads)

  enforce_at_most-le : (n limit : ℕ) → enforce_at_most n limit ≡ ok tt → n ≤ limit
  unfolding enforce_at_most
  enforce_at_most-le n limit h = ground arith

  -- what holds of a request that reaches the search service
  pub record SearchCleared (payload : SearchRequest) (w : World B L) : Type 0 where
    pub query : length payload.query ≤ app.query_max_chars
    pub limit : payload.limit ≤ app.search_limit_max
    pub capped : payload.rerank ≡ true → payload.limit ≤ rerank_candidate_cap
    pub context : Option AuthorizationContext
    pub after : World B L
    pub authorization : authorize app payload.collection w ≡ (ok context, after)
    pub reader : app.has_access_service ≡ true → IsReader payload.collection w context after
    pub filtered : (validate_filters app payload.collection payload.filters after).0 ≡ ok tt
    pub allowed :
        IsAllowed app search context
          (validate_filters app payload.collection payload.filters after).1

  search_limits-ok :
      (payload : SearchRequest)
      → search_limits app payload ≡ ok tt
      → (length payload.query ≤ app.query_max_chars)
        × (payload.limit ≤ app.search_limit_max)
        × (payload.rerank ≡ true → payload.limit ≤ rerank_candidate_cap)
  unfolding search_limits
  search_limits-ok payload h =
      let (_, a, h1) = >>=-ok (enforce_at_most (length payload.query) app.query_max_chars) _ tt h in
      let (_, b, h2) = >>=-ok (enforce_at_most payload.limit app.search_limit_max) _ tt h1 in
      (enforce_at_most-le _ _ a, enforce_at_most-le _ _ b, λ r. capped r (rw r at h2))
    where
      capped :
          payload.rerank ≡ true
          → (if true && ltb rerank_candidate_cap payload.limit then err (http 422) else ok tt)
            ≡ ok tt
          → payload.limit ≤ rerank_candidate_cap
      capped r e = ground arith

  called_once :
      {R : Type 0} (c : Call) (f : World B L → Result RouteError R × B) (v : World B L)
      → (called (v.calls ++ c ∷ []) (f v) v).1.calls ≡ v.calls ++ c ∷ []
  unfolding called
  called_once c f v = refl

  CallsCleared-IsReader :
      {R : Type 0} (route : Route B L R) (c : Call) (w : World B L) (p : IsCleared app route c w)
      → app.has_access_service ≡ true
      → IsReader route.collection w p.auth_context p.after
  CallsCleared-IsReader route c w p s =
      authorize-IsReader route.collection w p.auth_context p.after s p.authorization

  -- The search service is called at most once, and without a call nothing is returned. It is called
  -- only when the query and the limit are within the settings, with reranking also within the cap;
  -- when the authorization of this request returned a context, which, where the application has an
  -- access service, has the collection of that name and a user who may read it in the tables that
  -- the authorization left; when the filters, if they are checked, passed behind it; and when the
  -- rate limiter, asked for that context in the state behind the filters, allowed the request.
  pub search_route-SearchCleared :
      (service : SearchRequest → B → Result RouteError (List SearchResult) × B)
      (payload : SearchRequest) (w : World B L)
      → (((search_route app service payload w).1.calls ≡ w.calls)
          × (is_ok (search_route app service payload w).0 ≡ false))
        ⊎ (((search_route app service payload w).1.calls ≡ w.calls ++ called_search ∷ [])
            × SearchCleared payload w)
  unfolding search_route
  search_route-SearchCleared service payload w = cleared (
      run_route-CallsCleared app (search_parts app service payload) called_search w
        (called_once called_search (λ v. service payload v.services)))
    where
      cleared :
          CallsCleared app
            (search_parts app service payload)
            called_search
            w
            (search_route app service payload w)
          → (((search_route app service payload w).1.calls ≡ w.calls)
              × (is_ok (search_route app service payload w).0 ≡ false))
            ⊎ (((search_route app service payload w).1.calls ≡ w.calls ++ called_search ∷ [])
                × SearchCleared payload w)
      cleared (inl n) = inl n
      cleared (inr (n, p)) =
          let (q, l, k) = search_limits-ok payload p.passed.limits in
          inr (
            n,
            record {
              query = q;
              limit = l;
              capped = k;
              context = p.auth_context;
              after = p.after;
              authorization = p.authorization;
              reader = CallsCleared-IsReader (search_parts app service payload) called_search w p;
              filtered = p.passed.filtered;
              allowed = p.passed.allowed;
            },
          )

  -- what holds of a request that reaches the study service
  pub record StudyCleared (payload : StudyRequest) (w : World B L) : Type 0 where
    pub query : length payload.query ≤ app.query_max_chars
    pub top_k : payload.top_k ≤ app.study_top_k_max
    pub context : Option AuthorizationContext
    pub after : World B L
    pub authorization : authorize app payload.collection w ≡ (ok context, after)
    pub reader : app.has_access_service ≡ true → IsReader payload.collection w context after
    pub filtered : (validate_filters app payload.collection payload.filters after).0 ≡ ok tt
    pub allowed :
        IsAllowed app study context
          (validate_filters app payload.collection payload.filters after).1
