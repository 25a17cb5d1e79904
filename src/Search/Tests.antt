-- ===== src/Search/Tests.antt =====
-- A schema with two fields, a chunk, and a search with a reranker.
use lexicon_revision.Prelude.{
  ℕ, Text, text_eq, codes, contains, filter, pos, true, false, none, some, List, [], ◌∷◌, inl, ok,
  err, ◌≡◌, refl,
}
use lexicon_revision.Study.Models.{question}
use lexicon_revision.Study.Requests.{
  eq, gte, integer, string, FilterCondition, SearchResult, MetadataScalar,
}
use lexicon_revision.Search.Schema.{
  MetadataType, integer_type, string_type, chunk_attribute, chunk_metadata,
  CollectionMetadataSchema, invalid_metadata_filter, same_type, get_item, put_item, has_source_type,
  source_fits, validate_fields, validate_unique_keys, find_field, Chunk, text_attribute,
  number_attribute, attributes, value_has_type, source_value, store_value, store_field,
  store_fields, build_chunk_metadata,
}
use lexicon_revision.Search.Filtering.{
  same_operator, has_operator, validate_condition, declared, validate_item,
  validate_filter_conditions, condition_of, filter_conditions_from_mapping,
}
use lexicon_revision.Search.Filtering.Allowed.{filters_typed}
use lexicon_revision.Search.Service.{
  PgChunkRow, finite, SearchBackend, level_of, result_of, collect, insert_pair, sort_pairs,
  zip_scores, own_scores, validate_optional_min_score, above_min, as_search_error, one_vector,
  check_limit, candidate_count, with_scores, cached, get_collection_schema, rerank_rows, rank_rows,
  min_score_of, respond, search_with, search,
}
use lexicon_revision.Search.Service.Searched.{IsSearched, search-IsSearched}

schemas : Unit {0}
unfolding text_eq contains same_type get_item put_item has_source_type source_fits validate_fields
    validate_unique_keys find_field text_attribute number_attribute attributes value_has_type
    source_value store_value store_field store_fields build_chunk_metadata same_operator
    has_operator validate_condition declared validate_item validate_filter_conditions condition_of
    filter_conditions_from_mapping
schemas = tt

abbrev schema : CollectionMetadataSchema
schema = record {
  version = 1;
  fields =
      record {
        key = codes "marks";
        label = codes "Marks";
        type_of = integer_type;
        operators = eq ∷ gte ∷ [];
        exposed = true;
        source = some (chunk_attribute (codes "marks"));
      }
      ∷ record {
        key = codes "term";
        label = codes "Term";
        type_of = string_type;
        operators = eq ∷ [];
        exposed = true;
        source = some (chunk_metadata (codes "term"));
      }
      ∷ [];
}

abbrev pub chunk : Chunk
chunk = record {
  id = codes "c";
  chunk_level = codes "question";
  parent_chunk_id = none;
  text = codes "t";
  year = none;
  paper = none;
  question_number = none;
  topic = none;
  author = none;
  tripos_part = none;
  sub_question_label = none;
  marks = some (pos 5);
  total_marks = none;
  has_code = false;
  has_figure = false;
  has_table = false;
  source_pdf = codes "p";
  metadata = (codes "term", string (codes "Lent")) ∷ [];
}

valid : validate_unique_keys schema ≡ ok tt
unfolding schemas
valid = refl

abbrev stored : List (Text × MetadataScalar)
stored = (codes "marks", integer (pos 5)) ∷ (codes "term", string (codes "Lent")) ∷ []

built : build_chunk_metadata chunk schema ≡ ok stored
unfolding schemas
built = refl

abbrev at_least_three : FilterCondition
at_least_three = record { field = codes "marks"; op = gte; value = integer (pos 3) }

mapped :
    filter_conditions_from_mapping
      ((codes "marks_min", some (integer (pos 3))) ∷ (codes "topic", none) ∷ [])
    ≡ at_least_three ∷ []
unfolding schemas
mapped = refl

wrong_type :
    validate_filter_conditions
      (record { field = codes "marks"; op = eq; value = string (codes "5") } ∷ [])
      schema
    ≡ err invalid_metadata_filter
unfolding schemas
wrong_type = refl

undeclared :
    validate_filter_conditions
      (record { field = codes "year"; op = eq; value = integer (pos 5) } ∷ [])
      schema
    ≡ err invalid_metadata_filter
unfolding schemas
undeclared = refl

filters_typed_example :
    (t : MetadataType) × (value_has_type t (integer (pos 3)) ≡ true)
    × (value_has_type t (integer (pos 5)) ≡ true)
unfolding schemas
filters_typed_example =
    filters_typed (at_least_three ∷ []) schema chunk stored at_least_three (integer (pos 5)) valid
      built refl (inl refl) refl refl

searching : Unit {0}
unfolding schemas filter level_of result_of collect insert_pair sort_pairs zip_scores own_scores
    validate_optional_min_score above_min as_search_error one_vector check_limit candidate_count
    with_scores cached get_collection_schema rerank_rows rank_rows min_score_of respond search_with
    search
searching = tt

abbrev row : Text → Text → ℕ → PgChunkRow
row id level score = record {
  chunk_id = id;
  chunk_level = level;
  parent_chunk_id = none;
  sub_question_label = none;
  text = id;
  score = score;
}

-- The reranker turns the order round.
abbrev backend : SearchBackend ℕ
backend = record {
  load_schema = λ collection. ok schema;
  embed_query = λ query. ok (7 ∷ []);
  find_rows = λ collection vector filters limit. ok (
      row (codes "a") (codes "question") 9
      ∷ row (codes "b") (codes "page") 8
      ∷ row (codes "c") (codes "question") 7
      ∷ []);
  reranker = some (λ query texts. ok (1 ∷ 5 ∷ 6 ∷ []));
  thresholds =
      λ collection. ok (record { vector_min_score = none; rerank_min_score = some (finite 4) });
  apply_collection_thresholds = true;
}

abbrev result : Text → ℕ → SearchResult
result id score = record {
  chunk_id = id;
  chunk_level = question;
  parent_chunk_id = none;
  sub_question_label = none;
  text = id;
  score = score;
}

-- the row of no valid level is left out, and the one below the threshold
reranked :
    (search backend (codes "q") (codes "exams") (at_least_three ∷ []) 2 true []).0
    ≡ ok (result (codes "c") 6 ∷ [])
unfolding searching
reranked = refl

by_index :
    (search backend (codes "q") (codes "exams") [] 2 false []).0
    ≡ ok (result (codes "a") 9 ∷ result (codes "c") 7 ∷ [])
unfolding searching
by_index = refl

search-IsSearched_example :
    IsSearched backend
      (codes "q")
      (codes "exams")
      (at_least_three ∷ [])
      2
      true
      (result (codes "c") 6 ∷ [])
unfolding searching
search-IsSearched_example =
    search-IsSearched backend (codes "q") (codes "exams") (at_least_three ∷ []) 2 true
      (result (codes "c") 6 ∷ []) [] ((codes "exams", schema) ∷ []) refl
