-- ===== src/Search/Media/Tests.antt =====
-- References of one chunk.
use lexicon_revision.Prelude.{
  Text, text_HasEq, text_eq, codes, contains, map, pos, has_part, starts_with, ends_with, is_space,
  inl, Option, none, some, List, [], ◌∷◌, Result, ok, err, ◌≡◌, refl,
}
use lexicon_revision.Storage.Keys.{StorageError, auth_error, is_rejected, validate_key, any_char}
use lexicon_revision.Search.Schema.{get_item, put_item}
use lexicon_revision.Search.Tests.{chunk}
use lexicon_revision.Search.Media.{
  integer, float, text, Value, scalar, items, Ref, value_error, type_error, nonempty_text, one_of,
  on_key, optional_object_key, optional_at_least, is_finite, all_finite, optional_bbox,
  optional_text, stored, required, optional, put_stored, sanitized_fields, has_any, only,
  sanitize_db_media_ref, sanitize_db_media_refs,
}
use lexicon_revision.Search.Media.Chunks.{
  refs_of, refs_by_chunk, chunk_ids, or_no_refs, known_chunks, validate_media_refs_by_chunk_id,
}
use lexicon_revision.Search.Media.Stored.{
  or_null, get_or_null, when_valid, validate_stored_media_ref, as_text, or_empty, url_of,
  access_url_of, materialized, append_materialized, materialize_media_refs,
}
use lexicon_revision.Search.Media.Sanitized.{IsSanitized, sanitize_db_media_ref-IsSanitized}
use lexicon_revision.Search.Media.Served.{validate_media_refs-IsServed}

media : Unit {0}
unfolding text_eq contains is_rejected validate_key any_char has_part starts_with ends_with is_space
    get_item put_item nonempty_text one_of on_key optional_object_key optional_at_least is_finite
    all_finite optional_bbox optional_text stored required optional put_stored sanitized_fields
    has_any only sanitize_db_media_ref sanitize_db_media_refs refs_of refs_by_chunk chunk_ids
    or_no_refs known_chunks validate_media_refs_by_chunk_id or_null get_or_null when_valid
    validate_stored_media_ref as_text or_empty url_of access_url_of materialized append_materialized
    materialize_media_refs
media = tt

abbrev string : Text → Value
string s = scalar (text s)

abbrev given : Ref
given =
    (codes "object_key", string (codes "a/b.png"))
    ∷ (codes "relation", string (codes "direct"))
    ∷ (codes "media_id", string (codes "m1"))
    ∷ (codes "page_number", scalar (integer (pos 2)))
    ∷ (codes "kind", string (codes "image"))
    ∷ []

abbrev kept : Ref
kept =
    (codes "media_id", string (codes "m1"))
    ∷ (codes "kind", string (codes "image"))
    ∷ (codes "relation", string (codes "direct"))
    ∷ (codes "object_key", string (codes "a/b.png"))
    ∷ (codes "page_number", scalar (integer (pos 2)))
    ∷ []

in_order : sanitize_db_media_ref given ≡ ok kept
unfolding media
in_order = refl

first_page :
    sanitize_db_media_ref ((codes "page_number", scalar (integer (pos 0))) ∷ kept) ≡ err value_error
unfolding media
first_page = refl

with_path :
    sanitize_db_media_ref ((codes "file_path", string (codes "/tmp/x")) ∷ given) ≡ err value_error
unfolding media
with_path = refl

listed_kind :
    sanitize_db_media_ref ((codes "media_id", string (codes "m1")) ∷ (codes "kind", items []) ∷ [])
    ≡ err type_error
unfolding media
listed_kind = refl

listed_kind_stored :
    validate_stored_media_ref
      ((codes "media_id", string (codes "m1")) ∷ (codes "kind", items []) ∷ [])
    ≡ err type_error
unfolding media
listed_kind_stored = refl

infinite :
    sanitize_db_media_ref (
      (codes "bbox", items (integer (pos 1) ∷ integer (pos 2) ∷ float none ∷ integer (pos 4) ∷ []))
      ∷ given)
    ≡ err value_error
unfolding media
infinite = refl

above_directory :
    validate_stored_media_ref ((codes "object_key", string (codes "../x")) ∷ given) ≡ ok none
unfolding media
above_directory = refl

abbrev by_chunk : List (Text × List Ref)
by_chunk = (codes "c", given ∷ []) ∷ []

unknown_chunk : validate_media_refs_by_chunk_id [] (some by_chunk) ≡ err value_error
unfolding media
unknown_chunk = refl

stored_refs :
    validate_media_refs_by_chunk_id (chunk ∷ []) (some by_chunk) ≡ ok ((codes "c", kept ∷ []) ∷ [])
unfolding media
stored_refs = refl

-- an object storage that signs
abbrev signing : Option (Text → Result StorageError Text)
signing = some (λ key. ok (codes "u"))

served :
    materialize_media_refs signing (given ∷ [] ∷ [])
    ≡ ok (
        record {
          media_id = codes "m1";
          kind = codes "image";
          object_key = some (codes "a/b.png");
          access_url = some (codes "u");
          relation = codes "direct";
        }
        ∷ [])
unfolding media
served = refl

refused : access_url_of (some (λ key. err auth_error)) (some (codes "a")) ≡ none
unfolding media
refused = refl

sanitize_db_media_ref-IsSanitized_example : IsSanitized given kept
sanitize_db_media_ref-IsSanitized_example = sanitize_db_media_ref-IsSanitized given kept in_order

validate_media_refs-IsServed_example :
    (refs : List Ref) × (sanitize_db_media_refs
        (refs_of (get_item (or_no_refs (some by_chunk)) (codes "c")))
      ≡ ok refs)
    × (get_item ((codes "c", kept ∷ []) ∷ []) (codes "c") ≡ some refs)
    × (materialize_media_refs signing refs ≡ ok (map (materialized signing) refs))
unfolding chunk_ids
validate_media_refs-IsServed_example =
    validate_media_refs-IsServed (chunk ∷ []) (some by_chunk) ((codes "c", kept ∷ []) ∷ [])
      (codes "c") signing stored_refs (inl refl)
