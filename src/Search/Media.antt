-- ===== src/Search/Media.antt =====
-- src/search/media_refs.py.
pub mod Chunks
pub mod Stored
pub mod Kept
pub mod Fields
pub mod Sanitized
pub mod Served
mod Tests
use lexicon_revision.Prelude.{
  ℕ, ltb, nat_eq, Text, text_HasEq, ◌==◌, codes, length, contains, map, ℤ, pos, negsuc, is_empty,
  is_some, Bool, true, false, not, ◌&&◌, ◌||◌, Option, none, some, List, [], ◌∷◌, Result, ok, err,
  ◌>>=◌, if◌then◌else◌,
}
use lexicon_revision.Storage.Keys.{StorageError, validate_key}
use lexicon_revision.Search.Schema.{get_item}

-- What may stand in a list. A finite float is its rank, none is an infinite one or not a number; a
-- list or a dictionary that is not looked into is its text.
pub data Scalar : Type 0 where
  null : Scalar
  boolean : Bool → Scalar
  integer : ℤ → Scalar
  float : Option ℕ → Scalar
  text nested : Text → Scalar

-- a value of a dictionary that was read from JSON
pub data Value : Type 0 where
  scalar : Scalar → Value
  items : List Scalar → Value
  object : Text → Value

abbrev pub Ref : Type 0
Ref = List (Text × Value)

-- `type_error` is raised where a list or a dictionary is looked up in a set.
pub data MediaError : Type 0 where
  value_error type_error : MediaError

abbrev pub forbidden_keys : List Text
forbidden_keys = codes "file_path" ∷ codes "access_url" ∷ []

abbrev pub supported_kinds : List Text
supported_kinds = codes "image" ∷ codes "table" ∷ []

abbrev pub supported_relations : List Text
supported_relations = codes "direct" ∷ codes "inherited_shared" ∷ codes "visible_from_child" ∷ []

-- `media_id`
unfoldable pub nonempty_text : Value → Result MediaError Value
nonempty_text (scalar (text [])) = err value_error
nonempty_text (scalar (text (c ∷ s))) = ok (scalar (text (c ∷ s)))
nonempty_text (scalar null) = err value_error
nonempty_text (scalar (boolean b)) = err value_error
nonempty_text (scalar (integer i)) = err value_error
nonempty_text (scalar (float f)) = err value_error
nonempty_text (scalar (nested s)) = err value_error
nonempty_text (items xs) = err value_error
nonempty_text (object s) = err value_error

-- `value in names` with the error when it is not
unfoldable pub one_of : List Text → Value → Result MediaError Value
one_of names (scalar (text s)) = if contains names s then ok (scalar (text s)) else err value_error
one_of names (scalar null) = err value_error
one_of names (scalar (boolean b)) = err value_error
one_of names (scalar (integer i)) = err value_error
one_of names (scalar (float f)) = err value_error
one_of names (scalar (nested s)) = err type_error
one_of names (items xs) = err type_error
one_of names (object s) = err type_error

-- `object_key`, behind `validate_key`
unfoldable pub on_key : Text → Result StorageError Unit → Result MediaError Value
on_key key (ok _) = ok (scalar (text key))
on_key key (err e) = err value_error

unfoldable pub optional_object_key : Value → Result MediaError Value
optional_object_key (scalar null) = ok (scalar null)
optional_object_key (scalar (text key)) = on_key key (validate_key key)
optional_object_key (scalar (boolean b)) = err value_error
optional_object_key (scalar (integer i)) = err value_error
optional_object_key (scalar (float f)) = err value_error
optional_object_key (scalar (nested s)) = err value_error
optional_object_key (items xs) = err value_error
optional_object_key (object s) = err value_error

-- `_validate_optional_page_number` from 1 and `_validate_optional_order_index` from 0
unfoldable pub optional_at_least : ℕ → Value → Result MediaError Value
optional_at_least least (scalar null) = ok (scalar null)
optional_at_least least (scalar (integer (pos n))) =
    if ltb n least then err value_error else ok (scalar (integer (pos n)))
optional_at_least least (scalar (integer (negsuc n))) = err value_error
optional_at_least least (scalar (boolean b)) = err value_error
optional_at_least least (scalar (float f)) = err value_error
optional_at_least least (scalar (text s)) = err value_error
optional_at_least least (scalar (nested s)) = err value_error
optional_at_least least (items xs) = err value_error
optional_at_least least (object s) = err value_error

-- a coordinate that is finite
unfoldable pub is_finite : Scalar → Bool
is_finite (integer i) = true
is_finite (float f) = is_some f
is_finite null = false
is_finite (boolean b) = false
is_finite (text s) = false
is_finite (nested s) = false

unfoldable pub all_finite : List Scalar → Bool
all_finite [] = true
all_finite (x ∷ xs) = is_finite x && all_finite xs

-- `_validate_optional_bbox`
unfoldable pub optional_bbox : Value → Result MediaError Value
optional_bbox (scalar null) = ok (scalar null)
optional_bbox (items xs) =
    if nat_eq (length xs) 4 && all_finite xs then ok (items xs) else err value_error
optional_bbox (scalar (boolean b)) = err value_error
optional_bbox (scalar (integer i)) = err value_error
optional_bbox (scalar (float f)) = err value_error
optional_bbox (scalar (text s)) = err value_error
optional_bbox (scalar (nested s)) = err value_error
optional_bbox (object s) = err value_error

-- `_validate_optional_string_or_none`
unfoldable pub optional_text : Value → Result MediaError Value
optional_text (scalar null) = ok (scalar null)
optional_text (scalar (text s)) = ok (scalar (text s))
optional_text (scalar (boolean b)) = err value_error
optional_text (scalar (integer i)) = err value_error
optional_text (scalar (float f)) = err value_error
optional_text (scalar (nested s)) = err value_error
optional_text (items xs) = err value_error
optional_text (object s) = err value_error

unfoldable pub stored : Result MediaError Value → Result MediaError (Option Value)
stored (ok value) = ok (some value)
stored (err e) = err e

-- a field that is read by `ref.get` and always stored, and one that is stored when it is there
unfoldable pub required :
    (Value → Result MediaError Value) → Option Value → Result MediaError (Option Value)
required check none = stored (check (scalar null))
required check (some value) = stored (check value)

unfoldable pub optional :
    (Value → Result MediaError Value) → Option Value → Result MediaError (Option Value)
optional check none = ok none
optional check (some value) = stored (check value)

abbrev pub Field : Type 0
Field = Text × (Option Value → Result MediaError (Option Value))

-- the fields, in the order in which they are checked and stored
abbrev pub fields : List Field
fields =
    (codes "media_id", required nonempty_text)
    ∷ (codes "kind", required (one_of supported_kinds))
    ∷ (codes "relation", required (one_of supported_relations))
    ∷ (codes "object_key", optional optional_object_key)
    ∷ (codes "page_number", optional (optional_at_least 1))
    ∷ (codes "bbox", optional optional_bbox)
    ∷ (codes "owner_level", optional nonempty_text)
    ∷ (codes "owner_label", optional optional_text)
    ∷ (codes "order_index", optional (optional_at_least 0))
    ∷ (codes "text_payload", optional optional_text)
    ∷ (codes "description", optional optional_text)
    ∷ []

-- `DB_MEDIA_REF_ALLOWED_KEYS`
abbrev pub keys : List Field → List Text
keys [] = []
keys (field ∷ rest) = field.0 ∷ keys rest

unfoldable pub put_stored : Text → Option Value → Ref → Ref
put_stored key none ref = ref
put_stored key (some value) ref = (key, value) ∷ ref

unfoldable pub sanitized_fields : List Field → Ref → Result MediaError Ref
sanitized_fields [] ref = ok []
sanitized_fields (field ∷ fields) ref = field.1 (get_item ref field.0) >>= (λ value.
    sanitized_fields fields ref >>= (λ sanitized. ok (put_stored field.0 value sanitized)))

-- `field in ref`, of any of the names
unfoldable pub has_any : List Text → Ref → Bool
has_any names [] = false
has_any names (entry ∷ ref) = contains names entry.0 || has_any names ref

-- `set(ref) - allowed` is empty
unfoldable pub only : List Text → Ref → Bool
only allowed [] = true
only allowed (entry ∷ ref) = contains allowed entry.0 && only allowed ref

-- `_sanitize_db_media_ref`
unfoldable pub sanitize_db_media_ref : Ref → Result MediaError Ref
sanitize_db_media_ref ref =
    if has_any forbidden_keys ref
    then err value_error
    else (if only (keys fields) ref then sanitized_fields fields ref else err value_error)

unfoldable pub sanitize_db_media_refs : List Ref → Result MediaError (List Ref)
sanitize_db_media_refs [] = ok []
sanitize_db_media_refs (ref ∷ refs) = do
  sanitized ← sanitize_db_media_ref ref
  rest ← sanitize_db_media_refs refs
  ok (sanitized ∷ rest)
