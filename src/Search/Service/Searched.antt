-- ===== src/Search/Service/Searched.antt =====
-- The limits that `search` of src/search/pg_service.py keeps, and what it asks of the index.
use lexicon_revision.Prelude.{
  ℕ, zero, suc, ◌≤◌, ltb, Text, length, length-take, take, Bool, true, ◌&&◌, List, [], Result, ok,
  err, >>=-ok, and_then-ok, if◌then◌else◌, ◌≡◌, ◌⊎◌, inl, inr, ap, arith,
}
use lexicon_revision.Study.Requests.{FilterCondition, SearchResult}
use lexicon_revision.Search.Schema.{CollectionMetadataSchema, SchemaError}
use lexicon_revision.Search.Filtering.{validate_filter_conditions}
use lexicon_revision.Search.Filtering.Allowed.{validate_filter_conditions-Fits}
use lexicon_revision.Search.Service.{
  value_error, PgChunkRow, SearchBackend, SchemaCache, rerank_candidate_cap, above_min, check_limit,
  candidate_count, get_collection_schema, as_search_error, one_vector, search_with, search,
}
use lexicon_revision.Search.Service.Collecting.{results_of}
use lexicon_revision.Search.Service.Ranking.{IsSelected, respond-IsSelected}

module _ {V : Type 0} (backend : SearchBackend V) where
  as_search_error-ok :
      {A : Type 0} (r : Result SchemaError A) (a : A) → as_search_error r ≡ ok a → r ≡ ok a
  unfolding as_search_error
  as_search_error-ok (ok b) a h = cc h
  as_search_error-ok (err e) a h = absurd (cc h)

  length_selected :
      (limit : ℕ) (results all : List SearchResult)
      → results ≡ take limit all
      → length results ≤ limit
  length_selected limit results all e = rw e (omega (arith, length-take limit all))

  few_results :
      (query collection : Text) (n : ℕ) (rerank : Bool) (rows : List PgChunkRow)
      (results : List SearchResult)
      → ((rows ≡ []) × (results ≡ [])) ⊎ IsSelected backend query collection n rerank rows results
      → length results ≤ n
  few_results query collection n rerank rows results (inl (_, e)) = rw e (omega arith)
  few_results query collection n rerank rows results (inr s) =
      length_selected n results (results_of (above_min s.min_score s.ranking)) s.selected

  -- what a search that returned did: the limits it kept, the rows it found, the results it kept
  pub record IsSearched (query collection : Text) (filters : List FilterCondition) (limit : ℕ)
      (rerank : Bool) (results : List SearchResult) : Type 0 where
    pub positive : 1 ≤ limit
    pub capped : rerank ≡ true → limit ≤ rerank_candidate_cap
    pub vector : V
    pub rows : List PgChunkRow
    pub found : backend.find_rows collection vector filters (candidate_count limit rerank) ≡ ok rows
    pub few : length results ≤ limit
    pub chosen :
        ((rows ≡ []) × (results ≡ []))
        ⊎ IsSelected backend query collection limit rerank rows results

  search_with-IsSearched :
      (query collection : Text) (filters : List FilterCondition) (n : ℕ) (rerank : Bool)
      (schema : CollectionMetadataSchema) (results : List SearchResult)
      → check_limit (suc n) rerank ≡ ok tt
      → search_with backend query collection filters (suc n) rerank schema ≡ ok results
      → IsSearched query collection filters (suc n) rerank results
  unfolding search_with check_limit
  search_with-IsSearched query collection filters n rerank schema results c h =
      let (validated, v, h1) =
        >>=-ok (as_search_error (validate_filter_conditions filters schema)) _ results h in
      let (vectors, _, h2) = >>=-ok (backend.embed_query query) _ results h1 in
      let (vector, _, h3) = >>=-ok (one_vector vectors) _ results h2 in
      let (rows, f, h4) =
        >>=-ok (backend.find_rows collection vector validated (candidate_count (suc n) rerank)) _
          results h3 in
      let same : validated ≡ filters =
        (validate_filter_conditions-Fits filters schema validated
          (as_search_error-ok _ validated v)).0 in
      let chosen = respond-IsSelected backend query collection n rerank rows results h4 in
      record {
        positive = omega arith;
        capped = λ r. capped_by r (rw r at c);
        vector = vector;
        rows = rows;
        found = rw same at f;
        few = few_results query collection (suc n) rerank rows results chosen;
        chosen = chosen;
      }
    where
      capped_by :
          rerank ≡ true
          → (if true && ltb rerank_candidate_cap (suc n) then err value_error else ok tt) ≡ ok tt
          → suc n ≤ rerank_candidate_cap
      capped_by r e = ground arith

  -- A search that returned had a limit that is positive and, with reranking, at most the cap; it
  -- asked the index with exactly the filters of the request for the candidates of that limit; and
  -- it returns no more than the limit: nothing when nothing was found, and else the first results,
  -- up to the limit, of the rows with a valid level whose score reaches the threshold of the
  -- collection, in the order of the index or, when the reranker was asked, by falling score.
  pub search-IsSearched :
      (query collection : Text) (filters : List FilterCondition) (limit : ℕ) (rerank : Bool)
      (results : List SearchResult) (cache after : SchemaCache)
      → search backend query collection filters limit rerank cache ≡ (ok results, after)
      → IsSearched query collection filters limit rerank results
  unfolding search check_limit
  search-IsSearched query collection filters zero rerank results cache after h = absurd (cc h)
  search-IsSearched query collection filters (suc n) rerank results cache after h =
      let (_, c, h1) = and_then-ok (check_limit (suc n) rerank, cache) _ results after h in
      let (schema, _, h2) =
        and_then-ok (get_collection_schema backend collection cache) _ results after h1 in
      search_with-IsSearched query collection filters n rerank schema results c (ap (λ r. r.0) h2)
