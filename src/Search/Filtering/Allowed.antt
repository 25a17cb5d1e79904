-- ===== src/Search/Filtering/Allowed.antt =====
-- What the filters that `validate_filter_conditions` of src/search/filtering.py accepts compare.
use lexicon_revision.Prelude.{
  text_HasEq, contains, IsIn, Bool-cases, true, false, some, List, [], ◌∷◌, Result, ok, err, >>=-ok,
  ok_injective, ◌≡◌, ◌⊎◌, ◌∙◌, inl, inr, sym, ap, arith,
}
use lexicon_revision.Study.Requests.{MetadataOperator, eq, MetadataScalar, FilterCondition}
use lexicon_revision.Search.Schema.{
  MetadataType, string_type, MetadataField, CollectionMetadataSchema, SchemaError, find_field,
  value_has_type, get_item, Chunk, validate_unique_keys, build_chunk_metadata,
}
use lexicon_revision.Search.Schema.Types.{Metadata, build_chunk_metadata-typed}
use lexicon_revision.Search.Filtering.{
  has_operator, structural_fields, validate_condition, declared, validate_item,
  validate_filter_conditions,
}

abbrev pub IsStructural : FilterCondition → Type 0
IsStructural item = contains structural_fields item.field ≡ true

-- the operator is one of those that the field has, and the value has its type
abbrev pub Fits : FilterCondition → MetadataType → List MetadataOperator → Type 0
Fits item type_of operators =
    (has_operator operators item.op ≡ true) × (value_has_type type_of item.value ≡ true)

abbrev pub FitsField : CollectionMetadataSchema → FilterCondition → Type 0
FitsField schema item =
    (field : MetadataField) × (find_field schema.fields item.field ≡ ok field)
    × Fits item field.type_of field.operators

validate_condition-Fits :
    (item : FilterCondition) (type_of : MetadataType) (operators : List MetadataOperator)
    → validate_condition item type_of operators ≡ ok tt
    → Fits item type_of operators
unfolding validate_condition
validate_condition-Fits item type_of operators h = ground arith

declared-ok :
    (r : Result SchemaError MetadataField) (field : MetadataField)
    → declared r ≡ ok field
    → r ≡ ok field
unfolding declared
declared-ok (ok field) g h = h
declared-ok (err e) g h = absurd (cc h)

validate_item-Fits :
    (schema : CollectionMetadataSchema) (item : FilterCondition)
    → validate_item schema item ≡ ok tt
    → (IsStructural item × Fits item string_type (eq ∷ [])) ⊎ FitsField schema item
unfolding validate_item
validate_item-Fits schema item h = elim (Bool-cases (contains structural_fields item.field)) [
  | inl e ↦ inl (e, validate_condition-Fits item string_type (eq ∷ []) (rw e at h))
  | inr e ↦
      (let (field, d, v) =
          >>=-ok (declared (find_field schema.fields item.field)) _ tt (rw e at h) in
        inr (
          field,
          declared-ok _ field d,
          validate_condition-Fits item field.type_of field.operators v,
        ))
]

-- `validate_filter_conditions` returns the filters that it was given, and each of them is on a
-- structural field, with `eq` and a string, or on a field that the schema declares, with an
-- operator of that field and a value of its type.
pub validate_filter_conditions-Fits :
    (filters : List FilterCondition) (schema : CollectionMetadataSchema)
    (validated : List FilterCondition)
    → validate_filter_conditions filters schema ≡ ok validated
    → (validated ≡ filters)
      × ((item : FilterCondition)
          → IsIn item filters
          → (IsStructural item × Fits item string_type (eq ∷ [])) ⊎ FitsField schema item)
unfolding validate_filter_conditions
validate_filter_conditions-Fits [] schema validated h = (sym (ok_injective h), λ item i. absurd i)
validate_filter_conditions-Fits (item ∷ filters) schema validated h =
    let (_, p, q) = >>=-ok (validate_item schema item) _ validated h in
    let (rest, r, e) = >>=-ok (validate_filter_conditions filters schema) _ validated q in
    let (same, fit) = validate_filter_conditions-Fits filters schema rest r in
    (
      sym (ok_injective e) ∙ ap (λ (l : List FilterCondition). item ∷ l) same,
      each fit (validate_item-Fits schema item p),
    )
  where
    each :
        ((other : FilterCondition)
          → IsIn other filters
          → (IsStructural other × Fits other string_type (eq ∷ [])) ⊎ FitsField schema other)
        → (IsStructural item × Fits item string_type (eq ∷ [])) ⊎ FitsField schema item
        → (other : FilterCondition) → IsIn other (item ∷ filters)
        → (IsStructural other × Fits other string_type (eq ∷ [])) ⊎ FitsField schema other
    each fit this other (inl e) = rw e this
    each fit this other (inr i) = fit other i

-- A filter that is accepted and on no structural field compares its value with a stored value of
-- the same type, where the metadata were built for a chunk from the same valid schema.
pub filters_typed :
    (filters : List FilterCondition) (schema : CollectionMetadataSchema) (c : Chunk) (m : Metadata)
    (item : FilterCondition) (value : MetadataScalar)
    → validate_unique_keys schema ≡ ok tt
    → build_chunk_metadata c schema ≡ ok m
    → validate_filter_conditions filters schema ≡ ok filters
    → IsIn item filters
    → contains structural_fields item.field ≡ false
    → get_item m item.field ≡ some value
    → (t : MetadataType) × (value_has_type t item.value ≡ true) × (value_has_type t value ≡ true)
filters_typed filters schema c m item value h b v i n g =
    from ((validate_filter_conditions-Fits filters schema filters v).1 item i)
      (build_chunk_metadata-typed c schema m item.field value h b g)
  where
    from :
        (IsStructural item × Fits item string_type (eq ∷ [])) ⊎ FitsField schema item
        → ((field : MetadataField) × (find_field schema.fields item.field ≡ ok field)
            × (value_has_type field.type_of value ≡ true))
        → (t : MetadataType) × (value_has_type t item.value ≡ true)
          × (value_has_type t value ≡ true)
    from (inl s) r = absurd (cc (n, s.0))
    from (inr (field, e, f)) (other, q, t) =
        let same : field ≡ other = ok_injective (sym e ∙ q) in (field.type_of, f.1, rw same t)
