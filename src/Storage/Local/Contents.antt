-- ===== src/Storage/Local/Contents.antt =====
-- The objects that `LocalObjectStorage` of src/storage/local.py holds, as a function of their keys.
use lexicon_revision.Prelude.{
  Text, Bool, true, false, ◌&&◌, Option, some, [], ◌++◌, Result, ok, err, is_ok, and_then,
  if◌then◌else◌, ◌≡◌, refl, arith, codes, starts_with, run, raised, returned,
}
use lexicon_revision.Storage.Keys.{StorageError, is_rejected, validate_key}
use lexicon_revision.Storage.Keys.Segments.{segments}
use lexicon_revision.Storage.Keys.Contained.{validate_key-IsContained}
use lexicon_revision.Storage.Disk.{
  FilePath, Bytes, Disk, path_eq, drop_last, resolve_path, make_dirs, write_bytes, file_at,
}
use lexicon_revision.Storage.Disk.Files.{file_at-make_dirs, file_at-write_bytes}
use lexicon_revision.Storage.Disk.Resolving.{names_of, follow_all-names_of, is_relative_to-append}
use lexicon_revision.Storage.Local.{
  resolve, store_at, put_bytes, found, get_bytes, StoredObject, stored_object,
}

-- where a key stands below the root
abbrev pub place : FilePath → Text → FilePath
place root key = root ++ names_of (segments key)

relative_key : (key : Text) → validate_key key ≡ ok tt → starts_with (codes "/") key ≡ false
unfolding validate_key is_rejected
relative_key key h = ground arith

-- `_resolve` never raises on a key that `validate_key` accepts, and what it returns stands below
-- the root, under the names of the key.
pub resolve-place :
    (root : FilePath) (key : Text)
    → validate_key key ≡ ok tt
    → resolve root key ≡ ok (place root key)
unfolding resolve resolve_path
resolve-place root key h =
    let c = validate_key-IsContained key h in
    rw
      (
        relative_key key h,
        follow_all-names_of (segments key) root c.0 c.1,
        is_relative_to-append root (names_of (segments key)),
      )
      refl

pub get_bytes_lem :
    (root : FilePath) (key : Text) (disk : Disk)
    → validate_key key ≡ ok tt
    → get_bytes root key disk ≡ found key (file_at disk (place root key))
unfolding get_bytes
get_bytes_lem root key disk h = rw (h, resolve-place root key h) refl

-- what is stored at one place changes what stands at another, or at the same
file_at-store_at :
    (hexdigest : Bytes → Text) (key : Text) (content : Bytes) (content_type : Option Text)
    (dest p : FilePath) (disk : Disk)
    → file_at (store_at hexdigest key content content_type dest disk).1 p ≡ (
        if is_ok (store_at hexdigest key content content_type dest disk).0 && path_eq p dest
        then some content
        else file_at disk p)
unfolding store_at
file_at-store_at hexdigest key content content_type dest p disk =
    after_dirs (make_dirs [] (drop_last dest) disk) (file_at-make_dirs [] (drop_last dest) disk p)
  where
    stored : Result StorageError Unit × Disk → Result StorageError StoredObject × Disk
    stored w =
        and_then w (λ _ written. (ok (stored_object hexdigest key content content_type), written))

    after_write :
        (w : Result StorageError Unit × Disk) (f : Option Bytes)
        → file_at w.1 p ≡ (if is_ok w.0 && path_eq p dest then some content else f)
        → file_at (stored w).1 p
          ≡ (if is_ok (stored w).0 && path_eq p dest then some content else f)
    after_write (ok _, written) f h = h
    after_write (err _, written) f h = h

    after_dirs :
        (r : Result StorageError Unit × Disk)
        → file_at r.1 p ≡ file_at disk p
        → file_at (and_then r (λ _ made. stored (write_bytes dest content made))).1 p ≡ (
            if is_ok (and_then r (λ _ made. stored (write_bytes dest content made))).0
              && path_eq p dest
            then some content
            else file_at disk p)
    after_dirs (ok _, made) h =
        after_write (write_bytes dest content made) (file_at disk p)
          (rw (← h) (file_at-write_bytes dest content made p))
    after_dirs (err _, made) h = h

-- After `put_bytes` the object of every valid key is what was put when `put_bytes` returned and
-- the key resolves to the place of the key that was put, and what it was before otherwise.
pub get_bytes-put_bytes :
    (hexdigest : Bytes → Text) (root : FilePath) (key key' : Text) (content : Bytes)
    (content_type : Option Text) (disk : Disk)
    → validate_key key' ≡ ok tt
    → get_bytes root key' (put_bytes hexdigest root key content content_type disk).1 ≡ (
        if is_ok (put_bytes hexdigest root key content content_type disk).0
          && path_eq (place root key') (place root key)
        then ok content
        else get_bytes root key' disk)
unfolding put_bytes found
get_bytes-put_bytes hexdigest root key key' content content_type disk h =
    elim (run (validate_key key)) [
      | raised e q ↦ rw q refl
      | returned _ q ↦ rw (q, resolve-place root key q) stored
    ]
  where
    after : Result StorageError StoredObject × Disk
    after = store_at hexdigest key content content_type (place root key) disk

    looked_up :
        (b : Bool) (x y : Option Bytes)
        → x ≡ (if b then some content else y)
        → found key' x ≡ (if b then ok content else found key' y)
    looked_up true x y e = rw e refl
    looked_up false x y e = rw e refl

    stored : get_bytes root key' after.1 ≡ (
        if is_ok after.0 && path_eq (place root key') (place root key)
        then ok content
        else get_bytes root key' disk)
    stored =
        rw (get_bytes_lem root key' after.1 h, get_bytes_lem root key' disk h)
          (looked_up (is_ok after.0 && path_eq (place root key') (place root key))
            (file_at after.1 (place root key')) (file_at disk (place root key'))
            (file_at-store_at hexdigest key content content_type (place root key) (place root key')
              disk))
