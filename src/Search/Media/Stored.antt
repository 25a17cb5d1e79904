-- ===== src/Search/Media/Stored.antt =====
-- The validation and the materialization of references in src/search/media_sidecar.py.
use lexicon_revision.Prelude.{
  Text, codes, Option, none, some, List, [], ◌∷◌, Result, ok, err, ◌>>=◌, if◌then◌else◌,
}
use lexicon_revision.Storage.Keys.{StorageError}
use lexicon_revision.Search.Schema.{get_item}
use lexicon_revision.Search.Media.{
  null, boolean, integer, float, text, nested, Value, scalar, items, object, Ref, MediaError,
  value_error, type_error, forbidden_keys, supported_kinds, supported_relations, nonempty_text,
  one_of, optional_object_key, has_any,
}

-- `ref.get(key)`
unfoldable pub or_null : Option Value → Value
or_null none = scalar null
or_null (some value) = value

unfoldable pub get_or_null : Ref → Text → Value
get_or_null ref key = or_null (get_item ref key)

-- `return None` where a check fails, and else what follows
unfoldable pub when_valid :
    {A : Type 0}
    → Result MediaError Value
    → Result MediaError (Option A)
    → Result MediaError (Option A)
when_valid (ok value) next = next
when_valid (err value_error) next = ok none
when_valid (err type_error) next = err type_error

-- `_validate_stored_media_ref`
unfoldable pub validate_stored_media_ref : Ref → Result MediaError (Option Ref)
validate_stored_media_ref ref =
    if has_any forbidden_keys ref
    then ok none
    else when_valid (nonempty_text (get_or_null ref (codes "media_id"))) (
        when_valid (one_of supported_kinds (get_or_null ref (codes "kind"))) (
          when_valid (one_of supported_relations (get_or_null ref (codes "relation"))) (
            when_valid (optional_object_key (get_or_null ref (codes "object_key")))
              (ok (some ref)))))

-- `MediaRefResponse` of src/search/models.py, as it is made here
pub record MediaRefResponse : Type 0 where
  pub media_id : Text
  pub kind : Text
  pub object_key : Option Text
  pub access_url : Option Text
  pub relation : Text

-- `value` where it is a `str`
unfoldable pub as_text : Value → Option Text
as_text (scalar (text s)) = some s
as_text (scalar null) = none
as_text (scalar (boolean b)) = none
as_text (scalar (integer i)) = none
as_text (scalar (float f)) = none
as_text (scalar (nested s)) = none
as_text (items xs) = none
as_text (object s) = none

unfoldable pub or_empty : Option Text → Text
or_empty none = []
or_empty (some s) = s

-- the URL, or none where `presign_get` raised
unfoldable pub url_of : Result StorageError Text → Option Text
url_of (ok url) = some url
url_of (err e) = none

-- `object_storage` is what `presign_get` gives for a key, where there is a storage.
module _ (object_storage : Option (Text → Result StorageError Text)) where
  unfoldable pub access_url_of : Option Text → Option Text
  access_url_of none = none
  access_url_of (some key) = elim object_storage [
    | none ↦ none
    | some presign_get ↦ url_of (presign_get key)
  ]

  unfoldable pub materialized : Ref → MediaRefResponse
  materialized ref = record {
    media_id = or_empty (as_text (get_or_null ref (codes "media_id")));
    kind = or_empty (as_text (get_or_null ref (codes "kind")));
    object_key = as_text (get_or_null ref (codes "object_key"));
    access_url = access_url_of (as_text (get_or_null ref (codes "object_key")));
    relation = or_empty (as_text (get_or_null ref (codes "relation")));
  }

  unfoldable pub append_materialized : Option Ref → List MediaRefResponse → List MediaRefResponse
  append_materialized none rest = rest
  append_materialized (some ref) rest = materialized ref ∷ rest

  unfoldable pub materialize_media_refs : List Ref → Result MediaError (List MediaRefResponse)
  materialize_media_refs [] = ok []
  materialize_media_refs (ref ∷ refs) = do
    validated ← validate_stored_media_ref ref
    rest ← materialize_media_refs refs
    ok (append_materialized validated rest)
