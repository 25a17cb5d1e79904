-- ===== src/Storage/Disk.antt =====
-- What src/storage/local.py uses of a file system through `pathlib.Path`: absolute paths without
-- symbolic links, directories, and files of bytes.
pub mod Files
pub mod Writable
pub mod Resolving
use lexicon_revision.Prelude.{
  ℕ, Text, text_eq, text_eq_sound, text_eq_iff, text_HasEq, codes, starts_with, HasEq, ◌==◌, Bool,
  true, false, ◌&&◌, ◌||◌, not, Option, none, some, List, [], ◌∷◌, ◌++◌, is_empty, Result, ok, err,
  Action, and_then, if◌then◌else◌, ◌≡◌, ◌↔◌, refl, arith,
}
use lexicon_revision.Storage.Keys.{StorageError, os_error}
use lexicon_revision.Storage.Keys.Segments.{segments, dot, dots}

abbrev pub FilePath : Type 0
FilePath = List Text

unfoldable pub path_eq : FilePath → FilePath → Bool
path_eq [] [] = true
path_eq (a ∷ p) (b ∷ q) = text_eq a b && path_eq p q
path_eq _ _ = false

path_eq_sound : (p q : FilePath) → path_eq p q ≡ true → p ≡ q
unfolding path_eq
path_eq_sound [] [] h = refl
path_eq_sound [] (b ∷ q) h = cc
path_eq_sound (a ∷ p) [] h = cc
path_eq_sound (a ∷ p) (b ∷ q) h = ground (arith, text_eq_sound a b, path_eq_sound p q)

path_eq_refl : (p : FilePath) → path_eq p p ≡ true
unfolding path_eq
path_eq_refl [] = refl
path_eq_refl (a ∷ p) = ground (arith, text_eq_iff a a, path_eq_refl p)

pub path_eq_iff : (p q : FilePath) → (path_eq p q ≡ true) ↔ (p ≡ q)
path_eq_iff p q = (path_eq_sound p q, λ e. rw e (path_eq_refl q))

abbrev pub Bytes : Type 0
Bytes = List ℕ

pub data Entry : Type 0 where
  file : Bytes → Entry
  directory : Entry

-- what stands at each path
abbrev pub Disk : Type 0
Disk = FilePath → Option Entry

abbrev pub write_entry : FilePath → Option Entry → Disk → Disk
write_entry path entry disk p = if path_eq p path then entry else disk p

unfoldable pub drop_last : FilePath → FilePath
drop_last [] = []
drop_last (a ∷ []) = []
drop_last (a ∷ b ∷ p) = a ∷ drop_last (b ∷ p)

-- one component of a path that `resolve` follows
unfoldable pub follow : FilePath → Text → FilePath
follow path name =
    if is_empty name || text_eq name dot
    then path
    else (if text_eq name dots then drop_last path else path ++ name ∷ [])

unfoldable pub follow_all : FilePath → List Text → FilePath
follow_all path [] = path
follow_all path (name ∷ names) = follow_all (follow path name) names

-- `(root / key).resolve(strict=False)`: an absolute `key` replaces `root`
unfoldable pub resolve_path : FilePath → Text → FilePath
resolve_path root key =
    if starts_with (codes "/") key
    then follow_all [] (segments key)
    else follow_all root (segments key)

-- `path.is_relative_to(root)` is `is_relative_to root path`.
unfoldable pub is_relative_to : FilePath → FilePath → Bool
is_relative_to [] path = true
is_relative_to (a ∷ root) [] = false
is_relative_to (a ∷ root) (b ∷ path) = text_eq a b && is_relative_to root path

-- `path.mkdir(exist_ok=True)`, where what stands at `path` is given
unfoldable pub make_dir_at : FilePath → Option Entry → Action Disk StorageError Unit
make_dir_at path none disk = (ok tt, write_entry path (some directory) disk)
make_dir_at path (some directory) disk = (ok tt, disk)
make_dir_at path (some (file content)) disk = (err os_error, disk)

-- `path.mkdir(parents=True, exist_ok=True)`: from the directory `above`, the components that are left
unfoldable pub make_dirs : FilePath → List Text → Action Disk StorageError Unit
make_dirs above [] disk = (ok tt, disk)
make_dirs above (name ∷ names) disk =
    and_then (make_dir_at (above ++ name ∷ []) (disk (above ++ name ∷ [])) disk)
      (λ _. make_dirs (above ++ name ∷ []) names)

unfoldable pub write_at : FilePath → Bytes → Option Entry → Action Disk StorageError Unit
write_at path content (some directory) disk = (err os_error, disk)
write_at path content none disk = (ok tt, write_entry path (some (file content)) disk)
write_at path content (some (file old)) disk = (ok tt, write_entry path (some (file content)) disk)

-- `path.write_bytes(content)`
unfoldable pub write_bytes : FilePath → Bytes → Action Disk StorageError Unit
write_bytes path content disk = write_at path content (disk path) disk

unfoldable pub file_of : Option Entry → Option Bytes
file_of none = none
file_of (some directory) = none
file_of (some (file content)) = some content

-- the bytes of `path`, when `path.is_file()`
unfoldable pub file_at : Disk → FilePath → Option Bytes
file_at disk path = file_of (disk path)

-- `path.unlink(missing_ok=True)`
unfoldable pub unlink_at : FilePath → Option Entry → Action Disk StorageError Unit
unlink_at path none disk = (ok tt, disk)
unlink_at path (some directory) disk = (err os_error, disk)
unlink_at path (some (file content)) disk = (ok tt, write_entry path none disk)
