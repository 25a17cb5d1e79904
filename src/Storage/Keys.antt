-- ===== src/Storage/Keys.antt =====
-- src/storage/keys.py, with the errors of src/storage/base.py.
pub mod Segments
pub mod Contained
pub mod Joined
use lexicon_revision.Prelude.{
  ℕ, nat_eq, ltb, leb, Text, codes, text_eq, starts_with, ends_with, has_part, is_space, length,
  take, drop, is_empty, Bool, true, false, ◌&&◌, ◌||◌, List, [], ◌∷◌, ◌++◌, Result, ok, err,
  if◌then◌else◌,
}

-- `value_error` is Python's `ValueError`, `os_error` its `OSError`, `type_error` its `TypeError`.
pub data StorageError : Type 0 where
  invalid_key object_not_found : Text → StorageError
  storage_error auth_error value_error : StorageError
  os_error type_error : StorageError

-- `any(test(c) for c in s)`
unfoldable pub any_char : (ℕ → Bool) → Text → Bool
any_char test [] = false
any_char test (c ∷ s) = test c || any_char test s

-- `all(test(c) for c in s)`
unfoldable pub all_chars : (ℕ → Bool) → Text → Bool
all_chars test [] = true
all_chars test (c ∷ s) = test c && all_chars test s

-- the conditions of the guards of `validate_key`, one for each `if`
unfoldable pub is_rejected : Text → Bool
is_rejected key =
    (is_empty key || ltb 1024 (length key))
    || has_part (codes "..") key
    || (starts_with (codes "/") key || starts_with (codes "./") key)
    || (has_part (codes "\\") key || has_part (0 ∷ []) key)
    || (has_part (codes "//") key || has_part (codes "/./") key || ends_with (codes "/") key)
    || any_char is_space key
    || (has_part (codes "?") key || has_part (codes "#") key)

unfoldable pub validate_key : Text → Result StorageError Unit
validate_key key = if is_rejected key then err (invalid_key key) else ok tt

-- a character of `[0-9a-f]`
unfoldable pub is_hex : ℕ → Bool
is_hex c = (leb 48 c && leb c 57) || (leb 97 c && leb c 102)

-- a character of `[a-z0-9]`
unfoldable pub is_lower_alnum : ℕ → Bool
is_lower_alnum c = (leb 48 c && leb c 57) || (leb 97 c && leb c 122)

-- `_SHA256_RE.fullmatch(s) is not None`
unfoldable pub matches_sha256 : Text → Bool
matches_sha256 s = nat_eq (length s) 64 && all_chars is_hex s

-- `_EXT_RE.fullmatch(s) is not None`
unfoldable pub matches_extension : Text → Bool
matches_extension s = if is_empty s then false else all_chars is_lower_alnum s

-- a character of `[a-z0-9-]`
unfoldable pub is_run_char : ℕ → Bool
is_run_char c = is_lower_alnum c || nat_eq c 45

-- `_RUN_ID_RE.fullmatch(s) is not None`
unfoldable pub matches_run_id : Text → Bool
matches_run_id [] = false
matches_run_id (c ∷ s) = is_lower_alnum c && (leb (length s) 63 && all_chars is_run_char s)

unfoldable pub blob_key : Text → Text → Text
blob_key sha256_hex extension =
    codes "blobs/sha256/"
    ++ (take 2 sha256_hex
        ++ (codes "/"
            ++ (take 2 (drop 2 sha256_hex)
                ++ (codes "/" ++ (sha256_hex ++ (codes "." ++ extension))))))

-- `validate_key(key)` and `return key`
unfoldable pub checked : Text → Result StorageError Text
checked key = if is_rejected key then err (invalid_key key) else ok key

unfoldable pub sha256_blob_key : Text → Text → Result StorageError Text
sha256_blob_key sha256_hex extension =
    if matches_sha256 sha256_hex
    then (if matches_extension extension
        then checked (blob_key sha256_hex extension)
        else err (invalid_key extension))
    else err (invalid_key sha256_hex)

pub data ArtifactKind : Type 0 where
  content_list markdown image manifest : ArtifactKind

-- `_CANONICAL[kind]`; `image` has none
unfoldable pub canonical : ArtifactKind → Text
canonical content_list = codes "content_list.json"
canonical markdown = codes "document.md"
canonical manifest = codes "manifest.json"
canonical image = []

unfoldable pub artifact_prefix : Text → Text
artifact_prefix conversion_run_id = codes "artifacts/mineru/" ++ (conversion_run_id ++ codes "/")

-- behind the test of `conversion_run_id`
unfoldable pub artifact_key : Text → ArtifactKind → Text → Result StorageError Text
artifact_key conversion_run_id image filename =
    if is_empty filename || (has_part (codes "/") filename || has_part (codes "..") filename)
    then err (invalid_key filename)
    else checked (artifact_prefix conversion_run_id ++ (codes "images/" ++ filename))
artifact_key conversion_run_id kind filename =
    if is_empty filename
    then checked (artifact_prefix conversion_run_id ++ canonical kind)
    else err (invalid_key filename)

unfoldable pub mineru_artifact_key : Text → ArtifactKind → Text → Result StorageError Text
mineru_artifact_key conversion_run_id kind filename =
    if matches_run_id conversion_run_id
    then artifact_key conversion_run_id kind filename
    else err (invalid_key conversion_run_id)

-- `_RUN_ID_SLUG_RE.sub("-", s)` behind the runs before: `inside` says that the text before ended in one
unfoldable pub slug_from : Bool → Text → Text
slug_from inside [] = []
slug_from inside (c ∷ s) =
    let kept = slug_from false s in
    let dropped = slug_from true s in
    if is_lower_alnum c then c ∷ kept else (if inside then dropped else 45 ∷ dropped)

-- `s.lstrip("-")` and `s.rstrip("-")`
unfoldable pub lstrip_dashes : Text → Text
lstrip_dashes [] = []
lstrip_dashes (c ∷ s) = let rest = lstrip_dashes s in if nat_eq c 45 then rest else c ∷ s

unfoldable pub rstrip_dashes : Text → Text
rstrip_dashes [] = []
rstrip_dashes (c ∷ s) =
    let rest = rstrip_dashes s in if is_empty rest && nat_eq c 45 then [] else c ∷ rest

-- behind `stem.lower()`, which is the standard library's
unfoldable pub conversion_run_id_from : Text → Text → Result StorageError Text
conversion_run_id_from stem lowered =
    let slug = rstrip_dashes (lstrip_dashes (slug_from false lowered)) in
    if is_empty slug
    then err (invalid_key stem)
    else (if matches_run_id (codes "run-" ++ slug)
        then ok (codes "run-" ++ slug)
        else err (invalid_key stem))

unfoldable pub conversion_run_id_from_stem : (Text → Text) → Text → Result StorageError Text
conversion_run_id_from_stem lower stem = conversion_run_id_from stem (lower stem)
