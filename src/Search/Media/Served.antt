-- ===== src/Search/Media/Served.antt =====
-- From the references that src/search/media_refs.py stores to those that media_sidecar.py serves.
use lexicon_revision.Prelude.{
  Text, text_HasEq, text_eq_iff, ◌==◌, contains, IsIn, IsIn-contains, not_IsIn-contains, Bool-cases,
  true, false, Option, some, List, [], ◌∷◌, map, Result, ok, ok_injective, >>=-ok, ◌≡◌, ◌∙◌, inl,
  inr, refl, sym, arith,
}
use lexicon_revision.Storage.Keys.{StorageError}
use lexicon_revision.Search.Schema.{get_item, put_item, Chunk}
use lexicon_revision.Search.Media.{Ref, sanitize_db_media_ref, sanitize_db_media_refs}
use lexicon_revision.Search.Media.Chunks.{
  refs_of, refs_by_chunk, chunk_ids, or_no_refs, known_chunks, validate_media_refs_by_chunk_id,
}
use lexicon_revision.Search.Media.Stored.{materialized, append_materialized, materialize_media_refs}
use lexicon_revision.Search.Media.Sanitized.{sanitize_db_media_ref-IsSanitized}

put_item-here :
    {A : Type 0} (items : List (Text × A)) (key : Text) (value : A)
    → get_item (put_item items key value) key ≡ some value
unfolding get_item put_item
put_item-here [] key value = rw ((text_eq_iff key key).1 refl) refl
put_item-here (item ∷ items) key value = elim (Bool-cases (item.0 == key)) [
  | inl e ↦ rw e (rw ((text_eq_iff key key).1 refl) refl)
  | inr e ↦ rw (e, e) (put_item-here items key value)
]

put_item-other :
    {A : Type 0} (items : List (Text × A)) (key : Text) (value : A) (k : Text)
    → (key == k) ≡ false
    → get_item (put_item items key value) k ≡ get_item items k
unfolding get_item put_item
put_item-other [] key value k h = rw h refl
put_item-other (item ∷ items) key value k h = elim (Bool-cases (item.0 == key)) [
  | inl e ↦ rw (e, (text_eq_iff item.0 key).0 e, h) refl
  | inr e ↦ rw (e, put_item-other items key value k h) refl
]

-- Sanitized references are all served.
materialize-sanitized :
    (object_storage : Option (Text → Result StorageError Text)) (refs out : List Ref)
    → sanitize_db_media_refs refs ≡ ok out
    → materialize_media_refs object_storage out ≡ ok (map (materialized object_storage) out)
unfolding sanitize_db_media_refs materialize_media_refs append_materialized
materialize-sanitized object_storage [] out h = rw (← ok_injective h) refl
materialize-sanitized object_storage (ref ∷ refs) out h =
    let (one, e, h1) = >>=-ok (sanitize_db_media_ref ref) _ out h in
    let (rest, q, h2) = >>=-ok (sanitize_db_media_refs refs) _ out h1 in
    rw
      (
        ← ok_injective h2,
        (sanitize_db_media_ref-IsSanitized ref one e).accepted,
        materialize-sanitized object_storage refs rest q,
      )
      refl

refs_by_chunk-other :
    (media : List (Text × List Ref)) (chunks : List Chunk) (done result : List (Text × List Ref))
    (id : Text)
    → refs_by_chunk media chunks done ≡ ok result
    → contains (chunk_ids chunks) id ≡ false
    → get_item result id ≡ get_item done id
unfolding refs_by_chunk chunk_ids contains
refs_by_chunk-other media [] done result id h n = rw (← ok_injective h) refl
refs_by_chunk-other media (chunk ∷ chunks) done result id h n =
    let (refs, e, h1) =
      >>=-ok (sanitize_db_media_refs (refs_of (get_item media chunk.id))) _ result h in
    refs_by_chunk-other media chunks _ result id h1 (ground arith)
    ∙ put_item-other done chunk.id refs id other
  where
    other : (chunk.id == id) ≡ false
    other = elim (Bool-cases (chunk.id == id)) [ inl e ↦ absurd (differs e) | inr e ↦ e ]
      where
        differs : (chunk.id == id) ≡ true → ⊥
        differs e = cc (rw ((text_eq_iff id chunk.id).1 (sym ((text_eq_iff chunk.id id).0 e))) at n)

-- the references of a chunk, sanitized
abbrev IsStoredFor : List (Text × List Ref) → List (Text × List Ref) → Text → Type 0
IsStoredFor media result id =
    (refs : List Ref) × (sanitize_db_media_refs (refs_of (get_item media id)) ≡ ok refs)
    × (get_item result id ≡ some refs)

refs_by_chunk-IsStoredFor :
    (media : List (Text × List Ref)) (chunks : List Chunk) (done result : List (Text × List Ref))
    (id : Text)
    → refs_by_chunk media chunks done ≡ ok result
    → IsIn id (chunk_ids chunks)
    → IsStoredFor media result id
unfolding refs_by_chunk chunk_ids
refs_by_chunk-IsStoredFor media [] done result id h m = absurd m
refs_by_chunk-IsStoredFor media (chunk ∷ chunks) done result id h m =
    let (refs, e, h1) =
      >>=-ok (sanitize_db_media_refs (refs_of (get_item media chunk.id))) _ result h in
    elim (Bool-cases (contains (chunk_ids chunks) id)) [
      | inl i ↦
          refs_by_chunk-IsStoredFor media chunks _ result id h1
            (IsIn-contains (chunk_ids chunks) id i)
      | inr n ↦ last refs e h1 n m
    ]
  where
    last :
        (refs : List Ref)
        → sanitize_db_media_refs (refs_of (get_item media chunk.id)) ≡ ok refs
        → refs_by_chunk media chunks (put_item done chunk.id refs) ≡ ok result
        → contains (chunk_ids chunks) id ≡ false
        → IsIn id (chunk.id ∷ chunk_ids chunks)
        → IsStoredFor media result id
    last refs e h1 n (inr i) = absurd (not_IsIn-contains (chunk_ids chunks) id n i)
    last refs e h1 n (inl p) = (
      refs,
      rw p e,
      refs_by_chunk-other media chunks _ result id h1 n ∙ rw p (put_item-here done chunk.id refs),
    )

-- Where `validate_media_refs_by_chunk_id` returns, it holds for the id of every chunk the sanitized
-- references that were given for that id, or none where none were given; with any object storage,
-- `materialize_media_refs` of these returns, and has a response for each of them.
pub validate_media_refs-IsServed :
    (chunks : List Chunk) (media : Option (List (Text × List Ref)))
    (result : List (Text × List Ref)) (id : Text)
    (object_storage : Option (Text → Result StorageError Text))
    → validate_media_refs_by_chunk_id chunks media ≡ ok result
    → IsIn id (chunk_ids chunks)
    → (refs : List Ref) × (sanitize_db_media_refs (refs_of (get_item (or_no_refs media) id))
        ≡ ok refs)
      × (get_item result id ≡ some refs)
      × (materialize_media_refs object_storage refs ≡ ok (map (materialized object_storage) refs))
unfolding validate_media_refs_by_chunk_id
validate_media_refs-IsServed chunks media result id object_storage h m =
    let (refs, e, g) = refs_by_chunk-IsStoredFor (or_no_refs media) chunks [] result id passed m in
    (refs, e, g, materialize-sanitized object_storage _ refs e)
  where
    passed : refs_by_chunk (or_no_refs media) chunks [] ≡ ok result
    passed = elim (Bool-cases (known_chunks (chunk_ids chunks) (or_no_refs media))) [
      | inl k ↦ rw k at h
      | inr k ↦ absurd (refused k)
    ]
      where
        refused : known_chunks (chunk_ids chunks) (or_no_refs media) ≡ false → ⊥
        refused k = cc (rw k at h)
