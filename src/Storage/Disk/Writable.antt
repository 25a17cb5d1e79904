-- ===== src/Storage/Disk/Writable.antt =====
-- Where the file system that src/storage/local.py uses lets a file be written.
use lexicon_revision.Prelude.{
  suc, ◌+◌, ◌<◌, Text, Bool-cases, true, false, ◌≢◌, Option, none, some, length, length-append,
  List, [], ◌∷◌, ◌++◌, Result, ok, err, is_ok, and_then, ◌≡◌, ◌∙◌, inl, inr, refl, ap, arith,
}
use lexicon_revision.Storage.Keys.{StorageError}
use lexicon_revision.Storage.Disk.{
  FilePath, Bytes, Disk, Entry, file, directory, path_eq, path_eq_iff, write_entry, make_dir_at,
  make_dirs, drop_last, write_at, write_bytes, file_of, file_at,
}
use lexicon_revision.Storage.Disk.Files.{file_at-make_dir_at}

-- no file stands at a path that begins with `above` and goes on with some of `names`
abbrev pub IsClear : Disk → FilePath → List Text → Type 0
IsClear disk above [] = Unit
IsClear disk above (name ∷ names) =
    (file_at disk (above ++ name ∷ []) ≡ none) × IsClear disk (above ++ name ∷ []) names

IsClear-same :
    (disk other : Disk) (above : FilePath) (names : List Text)
    → ((p : FilePath) → file_at other p ≡ file_at disk p)
    → IsClear disk above names
    → IsClear other above names
IsClear-same disk other above [] f h = tt
IsClear-same disk other above (name ∷ names) f (h, hs) =
    (f (above ++ name ∷ []) ∙ h, IsClear-same disk other (above ++ name ∷ []) names f hs)

make_dir_at-ok :
    (path : FilePath) (entry : Option Entry) (disk : Disk)
    → file_of entry ≡ none
    → (made : Disk) × (make_dir_at path entry disk ≡ (ok tt, made))
unfolding make_dir_at file_of
make_dir_at-ok path none disk h = (write_entry path (some directory) disk, refl)
make_dir_at-ok path (some directory) disk h = (disk, refl)
make_dir_at-ok path (some (file old)) disk h = absurd (cc h)

pub make_dirs-ok :
    (above : FilePath) (names : List Text) (disk : Disk)
    → IsClear disk above names
    → is_ok (make_dirs above names disk).0 ≡ true
unfolding make_dirs file_at
make_dirs-ok above [] disk h = refl
make_dirs-ok above (name ∷ names) disk (h, hs) =
    let (made, e) = make_dir_at-ok (above ++ name ∷ []) (disk (above ++ name ∷ [])) disk h in
    rw e (
      make_dirs-ok (above ++ name ∷ []) names made (
        IsClear-same disk made (above ++ name ∷ []) names
          (λ p.
            rw e at
              (file_at-make_dir_at (above ++ name ∷ []) (disk (above ++ name ∷ [])) disk p refl))
          hs))

-- a longer path than any that is made keeps its entry
longer_ne : (p path : FilePath) → length path < length p → path_eq p path ≡ false
longer_ne p path h = elim (Bool-cases (path_eq p path)) [
  | inl e ↦ absurd (equal ((path_eq_iff p path).0 e))
  | inr e ↦ e
]
  where
    equal : p ≡ path → ⊥
    equal e = let q : length p ≡ length path = ap length e in omega arith

make_dir_at-longer :
    (path : FilePath) (entry : Option Entry) (disk : Disk) (p : FilePath)
    → length path < length p
    → (make_dir_at path entry disk).1 p ≡ disk p
unfolding make_dir_at
make_dir_at-longer path none disk p h = rw (longer_ne p path h) refl
make_dir_at-longer path (some directory) disk p h = refl
make_dir_at-longer path (some (file old)) disk p h = refl

pub make_dirs-longer :
    (above : FilePath) (names : List Text) (disk : Disk) (p : FilePath)
    → length above + length names < length p
    → (make_dirs above names disk).1 p ≡ disk p
unfolding make_dirs
make_dirs-longer above [] disk p h = refl
make_dirs-longer above (name ∷ names) disk p h =
    after (make_dir_at (above ++ name ∷ []) (disk (above ++ name ∷ [])) disk)
      (make_dir_at-longer (above ++ name ∷ []) (disk (above ++ name ∷ [])) disk p
        (omega (arith, length-append above (name ∷ []))))
      (λ made.
        make_dirs-longer (above ++ name ∷ []) names made p
          (omega (arith, length-append above (name ∷ []))))
  where
    after :
        (r : Result StorageError Unit × Disk)
        → r.1 p ≡ disk p
        → ((made : Disk) → (make_dirs (above ++ name ∷ []) names made).1 p ≡ made p)
        → (and_then r (λ _. make_dirs (above ++ name ∷ []) names)).1 p ≡ disk p
    after (ok _, made) h ih = ih made ∙ h
    after (err _, made) h ih = h

pub length-drop_last : (a : Text) (p : FilePath) → suc (length (drop_last (a ∷ p))) ≡ length (a ∷ p)
unfolding drop_last
length-drop_last a [] = refl
length-drop_last a (b ∷ p) = ap suc (length-drop_last b p)

pub write_bytes-ok :
    (path : FilePath) (content : Bytes) (disk : Disk)
    → disk path ≢ some directory
    → is_ok (write_bytes path content disk).0 ≡ true
unfolding write_bytes write_at
write_bytes-ok path content disk h = from (disk path) h
  where
    from :
        (entry : Option Entry)
        → entry ≢ some directory
        → is_ok (write_at path content entry disk).0 ≡ true
    from none k = refl
    from (some directory) k = absurd (k refl)
    from (some (file old)) k = refl
