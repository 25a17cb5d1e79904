-- ===== src/Search/Service.antt =====
-- `PgSearchService` of src/search/pg_service.py. Left out are the telemetry, the media, and the
-- fields of a row that are only handed on; a score is its rank in the order of the finite floats.
pub mod Collecting
pub mod Ranking
pub mod Searched
use lexicon_revision.Prelude.{
  ℕ, zero, suc, ◌+◌, ◌*◌, min, ltb, leb, nat_eq, Text, text_HasEq, codes, ◌==◌, length, map, filter,
  is_some, Bool, true, false, ◌&&◌, not, Option, none, some, List, [], ◌∷◌, ◌++◌, Result, ok, err,
  ◌>>=◌, Action, and_then, if◌then◌else◌,
}
use lexicon_revision.Study.Models.{ChunkLevel, question, sub_question}
use lexicon_revision.Study.Requests.{FilterCondition, SearchResult}
use lexicon_revision.Search.Schema.{CollectionMetadataSchema, SchemaError, get_item}
use lexicon_revision.Search.Filtering.{validate_filter_conditions}

-- what `search` raises; `backend_error` is what the provider or the repository raises besides
pub data SearchError : Type 0 where
  value_error runtime_error invalid_metadata_filter collection_not_found backend_error : SearchError

pub record PgChunkRow : Type 0 where
  pub chunk_id : Text
  pub chunk_level : Text
  pub parent_chunk_id : Option Text
  pub sub_question_label : Option Text
  pub text : Text
  pub score : ℕ

-- a threshold of the database, which may be infinite or no number
pub data Threshold : Type 0 where
  finite : ℕ → Threshold
  not_finite : Threshold

pub record CollectionRetrievalThresholds : Type 0 where
  pub vector_min_score : Option Threshold
  pub rerank_min_score : Option Threshold

-- The repository and the providers, for vectors `V`.
pub record SearchBackend (V : Type 0) : Type 0 where
  pub load_schema : Text → Result SearchError CollectionMetadataSchema
  pub embed_query : Text → Result SearchError (List V)
  pub find_rows : Text → V → List FilterCondition → ℕ → Result SearchError (List PgChunkRow)
  pub reranker : Option (Text → List Text → Result SearchError (List ℕ))
  pub thresholds : Text → Result SearchError CollectionRetrievalThresholds
  pub apply_collection_thresholds : Bool

-- `RERANK_CANDIDATE_CAP`
abbrev pub rerank_candidate_cap : ℕ
rerank_candidate_cap = 50

-- `_schema_cache`
abbrev pub SchemaCache : Type 0
SchemaCache = List (Text × CollectionMetadataSchema)

unfoldable pub level_of : Text → Option ChunkLevel
level_of value =
    if value == codes "question"
    then some question
    else (if value == codes "sub_question" then some sub_question else none)

unfoldable pub result_of : PgChunkRow → ChunkLevel → ℕ → SearchResult
result_of row level score = record {
  chunk_id = row.chunk_id;
  chunk_level = level;
  parent_chunk_id = row.parent_chunk_id;
  sub_question_label = row.sub_question_label;
  text = row.text;
  score = score;
}

-- The loop over the rows and their scores, which leaves with `limit` results.
unfoldable pub collect : ℕ → List SearchResult → List (PgChunkRow × ℕ) → List SearchResult
collect limit results [] = results
collect limit results (pair ∷ pairs) = elim (level_of pair.0.chunk_level) [
  | none ↦ collect limit results pairs
  | some level ↦ elim (nat_eq (length (results ++ result_of pair.0 level pair.1 ∷ [])) limit) [
    | true ↦ results ++ result_of pair.0 level pair.1 ∷ []
    | false ↦ collect limit (results ++ result_of pair.0 level pair.1 ∷ []) pairs
  ]
]

-- a pair into pairs that are sorted by falling score, before those of its own score
unfoldable pub insert_pair : PgChunkRow × ℕ → List (PgChunkRow × ℕ) → List (PgChunkRow × ℕ)
insert_pair pair [] = pair ∷ []
insert_pair pair (other ∷ pairs) =
    let rest = insert_pair pair pairs in
    if leb other.1 pair.1 then pair ∷ other ∷ pairs else other ∷ rest

-- `sorted(pairs, key=lambda pair: pair[1], reverse=True)`, which is stable
unfoldable pub sort_pairs : List (PgChunkRow × ℕ) → List (PgChunkRow × ℕ)
sort_pairs [] = []
sort_pairs (pair ∷ pairs) = insert_pair pair (sort_pairs pairs)

-- `zip(rows, scores)`
unfoldable pub zip_scores : List PgChunkRow → List ℕ → List (PgChunkRow × ℕ)
zip_scores (row ∷ rows) (score ∷ scores) = (row, score) ∷ zip_scores rows scores
zip_scores _ _ = []

-- the rows with the scores that the index gave them
unfoldable pub own_scores : List PgChunkRow → List (PgChunkRow × ℕ)
own_scores rows = map (λ row. (row, row.score)) rows

-- `_validate_optional_min_score`
unfoldable pub validate_optional_min_score : Option Threshold → Result SearchError (Option ℕ)
validate_optional_min_score none = ok none
validate_optional_min_score (some (finite score)) = ok (some score)
validate_optional_min_score (some not_finite) = err value_error

unfoldable pub above_min : Option ℕ → List (PgChunkRow × ℕ) → List (PgChunkRow × ℕ)
above_min none pairs = pairs
above_min (some min_score) pairs = filter (λ pair. leb min_score pair.1) pairs

-- the schema's errors, as `search` raises them
unfoldable pub as_search_error : {A : Type 0} → Result SchemaError A → Result SearchError A
as_search_error (ok a) = ok a
as_search_error (err _) = err invalid_metadata_filter

unfoldable pub one_vector : {V : Type 0} → List V → Result SearchError V
one_vector (v ∷ []) = ok v
one_vector _ = err runtime_error

-- the guards at the start
unfoldable pub check_limit : ℕ → Bool → Result SearchError Unit
check_limit zero rerank = err value_error
check_limit (suc n) rerank =
    if rerank && ltb rerank_candidate_cap (suc n) then err value_error else ok tt

unfoldable pub candidate_count : ℕ → Bool → ℕ
candidate_count limit rerank = if rerank then min (limit * 3) rerank_candidate_cap else limit

-- the test of the number of scores, and the sorting
unfoldable pub with_scores :
    List PgChunkRow → List ℕ → Result SearchError (List (PgChunkRow × ℕ) × Bool)
with_scores rows scores =
    if nat_eq (length scores) (length rows)
    then ok (sort_pairs (zip_scores rows scores), true)
    else err runtime_error

module _ {V : Type 0} (backend : SearchBackend V) where
  -- `get_collection_schema` where the cache holds nothing
  unfoldable pub cached :
      Text
      → Option CollectionMetadataSchema
      → Action SchemaCache SearchError CollectionMetadataSchema
  cached collection (some schema) cache = (ok schema, cache)
  cached collection none cache = elim (backend.load_schema collection) [
    | err e ↦ (err e, cache)
    | ok schema ↦ (ok schema, (collection, schema) ∷ cache)
  ]

  unfoldable pub get_collection_schema :
      Text → Action SchemaCache SearchError CollectionMetadataSchema
  get_collection_schema collection cache = cached collection (get_item cache collection) cache

  -- The pairs of the reranker, in their order, or those of the index; and whether it was called.
  unfoldable pub rerank_rows :
      Text
      → List PgChunkRow
      → Option (Text → List Text → Result SearchError (List ℕ))
      → Result SearchError (List (PgChunkRow × ℕ) × Bool)
  rerank_rows query rows none = ok (own_scores rows, false)
  rerank_rows query rows (some reranker) =
      reranker query (map (λ row. row.text) rows) >>= with_scores rows

  unfoldable pub rank_rows :
      Text → Bool → List PgChunkRow → Result SearchError (List (PgChunkRow × ℕ) × Bool)
  rank_rows query rerank rows = rerank_rows query rows (if rerank then backend.reranker else none)

  unfoldable pub min_score_of : Text → Bool → Result SearchError (Option ℕ)
  min_score_of collection reranked =
      if backend.apply_collection_thresholds
      then (backend.thresholds collection >>= (λ t.
          validate_optional_min_score
            (if reranked then t.rerank_min_score else t.vector_min_score)))
      else ok none

  -- from `if not rows` on
  unfoldable pub respond :
      Text → Text → ℕ → Bool → List PgChunkRow → Result SearchError (List SearchResult)
  respond query collection limit rerank [] = ok []
  respond query collection limit rerank (row ∷ rows) = do
    (pairs, reranked) ← rank_rows query rerank (row ∷ rows)
    min_score ← min_score_of collection reranked
    ok (collect limit [] (above_min min_score pairs))

  -- from the validation of the filters on
  unfoldable pub search_with :
      Text
      → Text
      → List FilterCondition
      → ℕ
      → Bool
      → CollectionMetadataSchema
      → Result SearchError (List SearchResult)
  search_with query collection filters limit rerank schema = do
    validated ← as_search_error (validate_filter_conditions filters schema)
    vectors ← backend.embed_query query
    vector ← one_vector vectors
    rows ← backend.find_rows collection vector validated (candidate_count limit rerank)
    respond query collection limit rerank rows

  unfoldable pub search :
      Text
      → Text
      → List FilterCondition
      → ℕ
      → Bool
      → Action SchemaCache SearchError (List SearchResult)
  search query collection filters limit rerank cache =
      and_then (check_limit limit rerank, cache)
        (λ _ c.
          and_then (get_collection_schema collection c)
            (λ schema after. (search_with query collection filters limit rerank schema, after)))
