-- ===== src/Search/Schema/Types.antt =====
-- The types of the metadata that src/metadata_schema/mapping.py builds.
use lexicon_revision.Prelude.{
  Text, text_HasEq, text_eq_iff, text_eq, ◌==◌, contains, IsIn, contains-IsIn, Bool-cases, true,
  false, Option, none, some, List, [], ◌∷◌, All, ok, >>=-ok, ok_injective, ◌≡◌, inl, inr, refl, sym,
}
use lexicon_revision.Study.Requests.{MetadataScalar}
use lexicon_revision.Search.Schema.{
  SourcePath, MetadataField, CollectionMetadataSchema, get_item, put_item, source_fits,
  validate_fields, validate_unique_keys, find_field, Chunk, Attribute, scalar, compound,
  value_has_type, source_value, store_value, store_field, store_fields, build_chunk_metadata,
}

abbrev pub Metadata : Type 0
Metadata = List (Text × MetadataScalar)

-- what `schema.field(key)` returned, if anything, has the type of the value of the key
abbrev IsTyped : List MetadataField → Text × MetadataScalar → Type 0
IsTyped fields entry =
    (field : MetadataField) × (find_field fields entry.0 ≡ ok field)
    × (value_has_type field.type_of entry.1 ≡ true)

put_item-All :
    (P : Text × MetadataScalar → Type 0) (m : Metadata) (key : Text) (value : MetadataScalar)
    → All P m
    → P (key, value)
    → All P (put_item m key value)
unfolding put_item
put_item-All P [] key value h p = (p, tt)
put_item-All P (item ∷ items) key value (q, h) p = elim (Bool-cases (item.0 == key)) [
  | inl e ↦ rw e (p, h)
  | inr e ↦ rw e (q, put_item-All P items key value h p)
]

-- what one field stores is typed, when the schema finds that field by its key
store_value-typed :
    (P : Text × MetadataScalar → Type 0) (field : MetadataField) (a : Attribute) (m m' : Metadata)
    → ((value : MetadataScalar) → value_has_type field.type_of value ≡ true → P (field.key, value))
    → All P m
    → store_value field a m ≡ ok m'
    → All P m'
unfolding store_value
store_value-typed P field compound m m' f h e = absurd (cc e)
store_value-typed P field (scalar none) m m' f h e = rw (← ok_injective e) h
store_value-typed P field (scalar (some value)) m m' f h e =
    elim (Bool-cases (value_has_type field.type_of value)) [
      | inl t ↦
          (let q = ok_injective (rw t at e) in
            rw (← q) (put_item-All P m field.key value h (f value t)))
      | inr t ↦ absurd (refused t)
    ]
  where
    refused : value_has_type field.type_of value ≡ false → ⊥
    refused t = cc (rw t at e)

store_field-typed :
    (P : Text × MetadataScalar → Type 0) (c : Chunk) (field : MetadataField)
    (source : Option SourcePath) (m m' : Metadata)
    → ((value : MetadataScalar) → value_has_type field.type_of value ≡ true → P (field.key, value))
    → All P m
    → store_field c field source m ≡ ok m'
    → All P m'
unfolding store_field
store_field-typed P c field none m m' f h e = rw (← ok_injective e) h
store_field-typed P c field (some source) m m' f h e =
    let (a, _, q) = >>=-ok (source_value c source) _ m' e in store_value-typed P field a m m' f h q

store_fields-typed :
    (P : Text × MetadataScalar → Type 0) (c : Chunk) (fields : List MetadataField) (m m' : Metadata)
    → ((field : MetadataField)
        → IsIn field fields
        → (value : MetadataScalar) → value_has_type field.type_of value ≡ true
        → P (field.key, value))
    → All P m
    → store_fields c fields m ≡ ok m'
    → All P m'
unfolding store_fields
store_fields-typed P c [] m m' f h e = rw (← ok_injective e) h
store_fields-typed P c (field ∷ fields) m m' f h e =
    let (n, p, q) = >>=-ok (store_field c field field.source m) _ m' e in
    store_fields-typed P c fields n m' (λ g i. f g (inr i))
      (store_field-typed P c field field.source m n (f field (inl refl)) h p) q

validate_fields-cons :
    (seen : List Text) (g : MetadataField) (fields : List MetadataField)
    → validate_fields seen (g ∷ fields) ≡ ok tt
    → (contains seen g.key ≡ false) × (validate_fields (g.key ∷ seen) fields ≡ ok tt)
unfolding validate_fields
validate_fields-cons seen g fields h = elim (Bool-cases (contains seen g.key)) [
  | inl e ↦ absurd (repeated e)
  | inr e ↦ elim (Bool-cases (source_fits g g.source)) [
    | inl q ↦ (e, rw (e, q) at h)
    | inr q ↦ absurd (misfit e q)
  ]
]
  where
    repeated : contains seen g.key ≡ true → ⊥
    repeated e = cc (rw e at h)

    misfit : contains seen g.key ≡ false → source_fits g g.source ≡ false → ⊥
    misfit e q = cc (rw (e, q) at h)

-- No field of a schema that passes the validator has a key that was seen, or that of an earlier one.
validate_fields-fresh :
    (seen : List Text) (fields : List MetadataField) (field : MetadataField)
    → validate_fields seen fields ≡ ok tt
    → IsIn field fields
    → IsIn field.key seen
    → ⊥
validate_fields-fresh seen [] field h i k = i
validate_fields-fresh seen (g ∷ fields) field h (inl e) k =
    let (n, _) = validate_fields-cons seen g fields h in
    let m : IsIn g.key seen = rw e at k in cc (n, contains-IsIn seen g.key m)
validate_fields-fresh seen (g ∷ fields) field h (inr i) k =
    validate_fields-fresh (g.key ∷ seen) fields field (validate_fields-cons seen g fields h).1 i
      (inr k)

find_field-IsIn :
    (seen : List Text) (fields : List MetadataField) (field : MetadataField)
    → validate_fields seen fields ≡ ok tt
    → IsIn field fields
    → find_field fields field.key ≡ ok field
unfolding find_field
find_field-IsIn seen [] field h i = absurd i
find_field-IsIn seen (g ∷ fields) field h (inl e) = rw (e, (text_eq_iff g.key g.key).1 refl) refl
find_field-IsIn seen (g ∷ fields) field h (inr i) = elim (Bool-cases (text_eq g.key field.key)) [
  | inl e ↦ absurd (
      validate_fields-fresh (g.key ∷ seen) fields field (validate_fields-cons seen g fields h).1 i
        (inl (sym ((text_eq_iff g.key field.key).0 e))))
  | inr e ↦
      rw e (find_field-IsIn (g.key ∷ seen) fields field (validate_fields-cons seen g fields h).1 i)
]

get_item-All :
    (P : Text × MetadataScalar → Type 0) (m : Metadata) (key : Text) (value : MetadataScalar)
    → All P m
    → get_item m key ≡ some value
    → P (key, value)
unfolding get_item
get_item-All P [] key value h e = absurd (cc e)
get_item-All P (item ∷ items) key value (p, h) e = elim (Bool-cases (text_eq item.0 key)) [
  | inl q ↦ first q (rw q at e)
  | inr q ↦ get_item-All P items key value h (rw q at e)
]
  where
    first :
        text_eq item.0 key ≡ true
        → ◌≡◌ {A = Option MetadataScalar} (some item.1) (some value)
        → P (key, value)
    first q r = let w : item ≡ (key, value) = cc ((text_eq_iff item.0 key).0 q, r) in rw (← w) p

-- Of a schema that the validator accepts, every value that `build_chunk_metadata` stores has the
-- type of the field that the schema finds by its key.
pub build_chunk_metadata-typed :
    (c : Chunk) (schema : CollectionMetadataSchema) (m : Metadata) (key : Text)
    (value : MetadataScalar)
    → validate_unique_keys schema ≡ ok tt
    → build_chunk_metadata c schema ≡ ok m
    → get_item m key ≡ some value
    → (field : MetadataField) × (find_field schema.fields key ≡ ok field)
      × (value_has_type field.type_of value ≡ true)
unfolding validate_unique_keys build_chunk_metadata
build_chunk_metadata-typed c schema m key value h e g =
    get_item-All (IsTyped schema.fields) m key value
      (store_fields-typed (IsTyped schema.fields) c schema.fields [] m
        (λ field i v t. (field, find_field-IsIn [] schema.fields field h i, t)) tt e)
      g
