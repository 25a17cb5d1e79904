-- ===== src/Search/Filtering.antt =====
-- src/search/filtering.py, without the SQL that `build_pg_conditions` writes.
pub mod Allowed
use lexicon_revision.Prelude.{
  Text, text_HasEq, codes, ◌==◌, contains, Bool, true, false, ◌||◌, not, Option, none, some, List,
  [], ◌∷◌, ◌++◌, Result, ok, err, ◌>>=◌, if◌then◌else◌,
}
use lexicon_revision.Study.Requests.{
  MetadataOperator, eq, gte, lte, MetadataScalar, FilterCondition,
}
use lexicon_revision.Search.Schema.{
  MetadataType, string_type, MetadataField, CollectionMetadataSchema, SchemaError,
  invalid_metadata_filter, find_field, value_has_type,
}

unfoldable pub same_operator : MetadataOperator → MetadataOperator → Bool
same_operator eq eq = true
same_operator gte gte = true
same_operator lte lte = true
same_operator _ _ = false

-- `op in operators`
unfoldable pub has_operator : List MetadataOperator → MetadataOperator → Bool
has_operator [] op = false
has_operator (operator ∷ operators) op = same_operator operator op || has_operator operators op

-- the keys of `_STRUCTURAL_FILTER_FIELDS`; both have the type string and the operator `eq`
abbrev pub structural_fields : List Text
structural_fields = codes "source_pdf" ∷ codes "chunk_level" ∷ []

-- the test of the operator, and `_validate_value_type`
unfoldable pub validate_condition :
    FilterCondition → MetadataType → List MetadataOperator → Result SchemaError Unit
validate_condition item type_of operators =
    if not (has_operator operators item.op)
    then err invalid_metadata_filter
    else (if value_has_type type_of item.value then ok tt else err invalid_metadata_filter)

-- `except KeyError as exc: raise InvalidMetadataFilterError`
unfoldable pub declared : Result SchemaError MetadataField → Result SchemaError MetadataField
declared (ok field) = ok field
declared (err _) = err invalid_metadata_filter

unfoldable pub validate_item : CollectionMetadataSchema → FilterCondition → Result SchemaError Unit
validate_item schema item =
    if contains structural_fields item.field
    then validate_condition item string_type (eq ∷ [])
    else (declared (find_field schema.fields item.field)
        >>= (λ field. validate_condition item field.type_of field.operators))

-- `filters or []`, which are returned when the loop does not raise
unfoldable pub validate_filter_conditions :
    List FilterCondition → CollectionMetadataSchema → Result SchemaError (List FilterCondition)
validate_filter_conditions [] schema = ok []
validate_filter_conditions (item ∷ filters) schema =
    validate_item schema item
    >>= (λ _. validate_filter_conditions filters schema >>= (λ rest. ok (item ∷ rest)))

unfoldable pub condition_of : Text → MetadataScalar → FilterCondition
condition_of key value =
    if key == codes "marks_min"
    then record { field = codes "marks"; op = gte; value = value }
    else (if key == codes "question"
        then record { field = codes "question_number"; op = eq; value = value }
        else record { field = key; op = eq; value = value })

unfoldable pub filter_conditions_from_mapping :
    List (Text × Option MetadataScalar) → List FilterCondition
filter_conditions_from_mapping [] = []
filter_conditions_from_mapping ((key, none) ∷ filters) = filter_conditions_from_mapping filters
filter_conditions_from_mapping ((key, some value) ∷ filters) =
    condition_of key value ∷ filter_conditions_from_mapping filters
