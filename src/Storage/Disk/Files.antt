-- ===== src/Storage/Disk/Files.antt =====
-- How the operations of a file system that src/storage/local.py uses change its files.
use lexicon_revision.Prelude.{
  Text, Bool-cases, ◌&&◌, Option, none, some, List, [], ◌∷◌, ◌++◌, Result, ok, err, is_ok, and_then,
  if◌then◌else◌, ◌≡◌, ◌∙◌, inl, inr, refl, arith,
}
use lexicon_revision.Storage.Disk.{
  FilePath, Bytes, Disk, Entry, file, directory, path_eq, path_eq_iff, write_entry, make_dir_at,
  make_dirs, write_at, write_bytes, file_of, file_at,
}

file_at-write_dir :
    (path : FilePath) (disk : Disk) (p : FilePath)
    → disk path ≡ none
    → file_at (write_entry path (some directory) disk) p ≡ file_at disk p
unfolding file_at file_of
file_at-write_dir path disk p h = elim (Bool-cases (path_eq p path)) [
  | inl e ↦ let q : p ≡ path = (path_eq_iff p path).0 e in rw (e, q, h) refl
  | inr e ↦ rw e refl
]

pub file_at-make_dir_at :
    (path : FilePath) (entry : Option Entry) (disk : Disk) (p : FilePath)
    → disk path ≡ entry
    → file_at (make_dir_at path entry disk).1 p ≡ file_at disk p
unfolding make_dir_at
file_at-make_dir_at path none disk p h = file_at-write_dir path disk p h
file_at-make_dir_at path (some directory) disk p h = refl
file_at-make_dir_at path (some (file old)) disk p h = refl

-- making directories leaves the files as they are, also when it fails half way
pub file_at-make_dirs :
    (above : FilePath) (names : List Text) (disk : Disk) (p : FilePath)
    → file_at (make_dirs above names disk).1 p ≡ file_at disk p
unfolding make_dirs
file_at-make_dirs above [] disk p = refl
file_at-make_dirs above (name ∷ names) disk p =
    after (make_dir_at (above ++ name ∷ []) (disk (above ++ name ∷ [])) disk)
      (file_at-make_dir_at (above ++ name ∷ []) (disk (above ++ name ∷ [])) disk p refl)
      (λ made. file_at-make_dirs (above ++ name ∷ []) names made p)
  where
    after :
        (r : Result _ Unit × Disk)
        → file_at r.1 p ≡ file_at disk p
        → ((made : Disk) → file_at (make_dirs (above ++ name ∷ []) names made).1 p ≡ file_at made p)
        → file_at (and_then r (λ _. make_dirs (above ++ name ∷ []) names)).1 p ≡ file_at disk p
    after (ok _, made) h ih = ih made ∙ h
    after (err _, made) h ih = h

file_at-write_file :
    (path : FilePath) (content : Bytes) (disk : Disk) (p : FilePath)
    → file_at (write_entry path (some (file content)) disk) p
      ≡ (if path_eq p path then some content else file_at disk p)
unfolding file_at file_of
file_at-write_file path content disk p = ground arith

-- writing a file changes that file, and nothing when it fails
pub file_at-write_bytes :
    (path : FilePath) (content : Bytes) (disk : Disk) (p : FilePath)
    → file_at (write_bytes path content disk).1 p ≡ (
        if is_ok (write_bytes path content disk).0 && path_eq p path
        then some content
        else file_at disk p)
unfolding write_bytes write_at
file_at-write_bytes path content disk p = from (disk path)
  where
    from :
        (entry : Option Entry)
        → file_at (write_at path content entry disk).1 p ≡ (
            if is_ok (write_at path content entry disk).0 && path_eq p path
            then some content
            else file_at disk p)
    from none = file_at-write_file path content disk p
    from (some directory) = refl
    from (some (file old)) = file_at-write_file path content disk p
