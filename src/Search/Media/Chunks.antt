-- ===== src/Search/Media/Chunks.antt =====
-- The references of chunks in src/search/media_refs.py.
use lexicon_revision.Prelude.{
  Text, text_HasEq, contains, Bool, true, ◌&&◌, Option, none, some, List, [], ◌∷◌, Result, ok, err,
  ◌>>=◌, if◌then◌else◌,
}
use lexicon_revision.Search.Schema.{get_item, put_item, Chunk}
use lexicon_revision.Search.Media.{Ref, MediaError, value_error, sanitize_db_media_refs}

-- `media_refs_by_chunk_id.get(chunk.id, [])`
unfoldable pub refs_of : Option (List Ref) → List Ref
refs_of none = []
refs_of (some refs) = refs

-- the dictionary of the chunks, where `done` are those before
unfoldable pub refs_by_chunk :
    List (Text × List Ref)
    → List Chunk
    → List (Text × List Ref)
    → Result MediaError (List (Text × List Ref))
refs_by_chunk media [] done = ok done
refs_by_chunk media (chunk ∷ chunks) done =
    sanitize_db_media_refs (refs_of (get_item media chunk.id))
    >>= (λ refs. refs_by_chunk media chunks (put_item done chunk.id refs))

-- the ids of chunks
unfoldable pub chunk_ids : List Chunk → List Text
chunk_ids [] = []
chunk_ids (chunk ∷ chunks) = chunk.id ∷ chunk_ids chunks

-- `media_refs_by_chunk_id` with `None` as an empty dictionary
unfoldable pub or_no_refs : Option (List (Text × List Ref)) → List (Text × List Ref)
or_no_refs none = []
or_no_refs (some media) = media

-- no unknown chunk id
unfoldable pub known_chunks : List Text → List (Text × List Ref) → Bool
known_chunks ids [] = true
known_chunks ids (entry ∷ media) = contains ids entry.0 && known_chunks ids media

unfoldable pub validate_media_refs_by_chunk_id :
    List Chunk → Option (List (Text × List Ref)) → Result MediaError (List (Text × List Ref))
validate_media_refs_by_chunk_id chunks media =
    if known_chunks (chunk_ids chunks) (or_no_refs media)
    then refs_by_chunk (or_no_refs media) chunks []
    else err value_error
