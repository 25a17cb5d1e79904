-- ===== src/Search/Schema.antt =====
-- src/metadata_schema/models.py and mapping.py, with `Chunk` of src/chunking/models.py. The pattern
-- of a source is read by its constructors.
pub mod Types
use lexicon_revision.Prelude.{
  ℕ, ℤ, Text, text_HasEq, codes, ◌==◌, contains, Bool, true, false, not, ◌||◌, Option, none, some,
  List, [], ◌∷◌, ◌++◌, Result, ok, err, ◌>>=◌, if◌then◌else◌,
}
use lexicon_revision.Study.Requests.{MetadataOperator, MetadataScalar, integer, boolean, string}

pub data MetadataType : Type 0 where
  string_type integer_type boolean_type : MetadataType

-- `chunk.NAME` and `chunk.metadata.KEY`
pub data SourcePath : Type 0 where
  chunk_attribute chunk_metadata : Text → SourcePath

pub record MetadataField : Type 0 where
  pub key : Text
  pub label : Text
  pub type_of : MetadataType
  pub operators : List MetadataOperator
  pub exposed : Bool
  pub source : Option SourcePath

pub record CollectionMetadataSchema : Type 0 where
  pub version : ℕ
  pub fields : List MetadataField

-- `ValueError`, `KeyError` and `InvalidMetadataFilterError`
pub data SchemaError : Type 0 where
  value_error key_error invalid_metadata_filter : SchemaError

unfoldable pub same_type : MetadataType → MetadataType → Bool
same_type string_type string_type = true
same_type integer_type integer_type = true
same_type boolean_type boolean_type = true
same_type _ _ = false

-- the fields of `Chunk` whose annotation is one of the three types, or that or `None`
abbrev pub chunk_source_types : List (Text × MetadataType)
chunk_source_types =
    (codes "id", string_type)
    ∷ (codes "chunk_level", string_type)
    ∷ (codes "parent_chunk_id", string_type)
    ∷ (codes "text", string_type)
    ∷ (codes "year", integer_type)
    ∷ (codes "paper", integer_type)
    ∷ (codes "question_number", integer_type)
    ∷ (codes "topic", string_type)
    ∷ (codes "author", string_type)
    ∷ (codes "tripos_part", string_type)
    ∷ (codes "sub_question_label", string_type)
    ∷ (codes "marks", integer_type)
    ∷ (codes "total_marks", integer_type)
    ∷ (codes "has_code", boolean_type)
    ∷ (codes "has_figure", boolean_type)
    ∷ (codes "has_table", boolean_type)
    ∷ (codes "source_pdf", string_type)
    ∷ []

-- `d.get(key)` of a dictionary
unfoldable pub get_item : {A : Type 0} → List (Text × A) → Text → Option A
get_item [] key = none
get_item (item ∷ items) key =
    let rest = get_item items key in if item.0 == key then some item.1 else rest

-- `d[key] = value`
unfoldable pub put_item : {A : Type 0} → List (Text × A) → Text → A → List (Text × A)
put_item [] key value = (key, value) ∷ []
put_item (item ∷ items) key value =
    let rest = put_item items key value in
    if item.0 == key then (key, value) ∷ items else item ∷ rest

-- `_chunk_source_type(source_name) == type`
unfoldable pub has_source_type : MetadataType → Option MetadataType → Bool
has_source_type t none = false
has_source_type t (some source_type) = same_type t source_type

-- what the validator asks of the source of a field
unfoldable pub source_fits : MetadataField → Option SourcePath → Bool
source_fits field none = true
source_fits field (some (chunk_metadata key)) = true
source_fits field (some (chunk_attribute name)) =
    has_source_type field.type_of (get_item chunk_source_types name)

-- `_validate_unique_keys`, where `seen` holds the keys of the fields before
unfoldable pub validate_fields : List Text → List MetadataField → Result SchemaError Unit
validate_fields seen [] = ok tt
validate_fields seen (field ∷ fields) =
    let rest = validate_fields (field.key ∷ seen) fields in
    if contains seen field.key
    then err value_error
    else (if source_fits field field.source then rest else err value_error)

unfoldable pub validate_unique_keys : CollectionMetadataSchema → Result SchemaError Unit
validate_unique_keys schema = validate_fields [] schema.fields

-- `CollectionMetadataSchema.field`
unfoldable pub find_field : List MetadataField → Text → Result SchemaError MetadataField
find_field [] key = err key_error
find_field (field ∷ fields) key =
    let rest = find_field fields key in if field.key == key then ok field else rest

pub record Chunk : Type 0 where
  pub id : Text
  pub chunk_level : Text
  pub parent_chunk_id : Option Text
  pub text : Text
  pub year : Option ℤ
  pub paper : Option ℤ
  pub question_number : Option ℤ
  pub topic : Option Text
  pub author : Option Text
  pub tripos_part : Option Text
  pub sub_question_label : Option Text
  pub marks : Option ℤ
  pub total_marks : Option ℤ
  pub has_code : Bool
  pub has_figure : Bool
  pub has_table : Bool
  pub source_pdf : Text
  pub metadata : List (Text × MetadataScalar)

-- what `getattr` finds: a value of one of the three types or `None`, or a list or dictionary; where
-- it finds nothing it raises
pub data Attribute : Type 0 where
  scalar : Option MetadataScalar → Attribute
  compound : Attribute

unfoldable pub text_attribute : Option Text → Attribute
text_attribute none = scalar none
text_attribute (some s) = scalar (some (string s))

unfoldable pub number_attribute : Option ℤ → Attribute
number_attribute none = scalar none
number_attribute (some n) = scalar (some (integer n))

unfoldable pub attributes : Chunk → List (Text × Attribute)
attributes c =
    (codes "id", text_attribute (some c.id))
    ∷ (codes "chunk_level", text_attribute (some c.chunk_level))
    ∷ (codes "parent_chunk_id", text_attribute c.parent_chunk_id)
    ∷ (codes "text", text_attribute (some c.text))
    ∷ (codes "year", number_attribute c.year)
    ∷ (codes "paper", number_attribute c.paper)
    ∷ (codes "question_number", number_attribute c.question_number)
    ∷ (codes "topic", text_attribute c.topic)
    ∷ (codes "author", text_attribute c.author)
    ∷ (codes "tripos_part", text_attribute c.tripos_part)
    ∷ (codes "sub_question_label", text_attribute c.sub_question_label)
    ∷ (codes "marks", number_attribute c.marks)
    ∷ (codes "total_marks", number_attribute c.total_marks)
    ∷ (codes "has_code", scalar (some (boolean c.has_code)))
    ∷ (codes "has_figure", scalar (some (boolean c.has_figure)))
    ∷ (codes "has_table", scalar (some (boolean c.has_table)))
    ∷ (codes "media", compound)
    ∷ (codes "source_pdf", text_attribute (some c.source_pdf))
    ∷ (codes "warnings", compound)
    ∷ (codes "render_blocks", compound)
    ∷ (codes "metadata", compound)
    ∷ []

-- `type(value) is int` and its like, as `_validate_value_type` compares them
unfoldable pub value_has_type : MetadataType → MetadataScalar → Bool
value_has_type string_type (string s) = true
value_has_type integer_type (integer n) = true
value_has_type boolean_type (boolean b) = true
value_has_type _ _ = false

-- the value of the source of a field, or the raise
unfoldable pub source_value : Chunk → SourcePath → Result SchemaError Attribute
source_value c (chunk_metadata key) = ok (scalar (get_item c.metadata key))
source_value c (chunk_attribute name) = elim (get_item (attributes c) name) [
  | none ↦ err value_error
  | some a ↦ ok a
]

-- one round of the loop, from `if value is None`
unfoldable pub store_value :
    MetadataField
    → Attribute
    → List (Text × MetadataScalar)
    → Result SchemaError (List (Text × MetadataScalar))
store_value field compound metadata = err value_error
store_value field (scalar none) metadata = ok metadata
store_value field (scalar (some value)) metadata =
    if value_has_type field.type_of value
    then ok (put_item metadata field.key value)
    else err value_error

unfoldable pub store_field :
    Chunk
    → MetadataField
    → Option SourcePath
    → List (Text × MetadataScalar)
    → Result SchemaError (List (Text × MetadataScalar))
store_field c field none metadata = ok metadata
store_field c field (some source) metadata =
    source_value c source >>= (λ a. store_value field a metadata)

unfoldable pub store_fields :
    Chunk
    → List MetadataField
    → List (Text × MetadataScalar)
    → Result SchemaError (List (Text × MetadataScalar))
store_fields c [] metadata = ok metadata
store_fields c (field ∷ fields) metadata =
    store_field c field field.source metadata >>= store_fields c fields

unfoldable pub build_chunk_metadata :
    Chunk → CollectionMetadataSchema → Result SchemaError (List (Text × MetadataScalar))
build_chunk_metadata c schema = store_fields c schema.fields []
