-- ===== src/Storage/Local.antt =====
-- `LocalObjectStorage` of src/storage/local.py, without its presigned URLs.
pub mod Contents
pub mod Objects
use lexicon_revision.Prelude.{
  ℕ, Text, codes, length, Bool, true, false, Option, none, some, List, [], ◌∷◌, ◌++◌, Result, ok,
  err, ◌>>=◌, Action, and_then, is_some, if◌then◌else◌,
}
use lexicon_revision.Storage.Keys.{
  StorageError, invalid_key, object_not_found, os_error, validate_key,
}
use lexicon_revision.Storage.Disk.{
  FilePath, Bytes, Disk, Entry, drop_last, resolve_path, is_relative_to, make_dirs, write_bytes,
  file_at, unlink_at,
}

pub record StoredObject : Type 0 where
  pub key : Text
  pub size_bytes : ℕ
  pub sha256_hex : Text
  pub content_type : Option Text

pub data HealthStatus : Type 0 where
  healthy unhealthy : HealthStatus

-- `_resolve`
unfoldable pub resolve : FilePath → Text → Result StorageError FilePath
resolve root key =
    if is_relative_to root (resolve_path root key)
    then ok (resolve_path root key)
    else err (invalid_key key)

-- `root` is `self._root`, and `hexdigest` is that of `hashlib.sha256`.
unfoldable pub stored_object : (Bytes → Text) → Text → Bytes → Option Text → StoredObject
stored_object hexdigest key content content_type = record {
  key = key;
  size_bytes = length content;
  sha256_hex = hexdigest content;
  content_type = content_type;
}

-- a computation that only reads
abbrev pub lifted : {A : Type 0} → Result StorageError A → Action Disk StorageError A
lifted r disk = (r, disk)

-- from `dest.parent.mkdir` on
unfoldable pub store_at :
    (Bytes → Text) → Text → Bytes → Option Text → FilePath → Action Disk StorageError StoredObject
store_at hexdigest key content content_type dest disk =
    and_then (make_dirs [] (drop_last dest) disk) (λ _ made.
      and_then (write_bytes dest content made)
        (λ _ written. (ok (stored_object hexdigest key content content_type), written)))

unfoldable pub put_bytes :
    (Bytes → Text) → FilePath → Text → Bytes → Option Text → Action Disk StorageError StoredObject
put_bytes hexdigest root key content content_type disk =
    and_then (validate_key key >>= (λ _. resolve root key), disk)
      (store_at hexdigest key content content_type)

-- `path.read_bytes()`
unfoldable pub read_bytes : Option Bytes → Result StorageError Bytes
read_bytes none = err os_error
read_bytes (some content) = ok content

unfoldable pub put_file :
    (Bytes → Text)
    → FilePath
    → Text
    → FilePath
    → Option Text
    → Action Disk StorageError StoredObject
put_file hexdigest root key path content_type disk =
    and_then (validate_key key >>= (λ _. read_bytes (file_at disk path)), disk)
      (λ content read.
        and_then (resolve root key, read) (store_at hexdigest key content content_type))

-- behind `self._resolve(key)`
unfoldable pub found : Text → Option Bytes → Result StorageError Bytes
found key none = err (object_not_found key)
found key (some content) = ok content

unfoldable pub get_bytes : FilePath → Text → Disk → Result StorageError Bytes
get_bytes root key disk =
    validate_key key >>= (λ _. resolve root key) >>= (λ dest. found key (file_at disk dest))

unfoldable pub object_exists : FilePath → Text → Disk → Result StorageError Bool
object_exists root key disk =
    validate_key key >>= (λ _. resolve root key) >>= (λ dest. ok (is_some (file_at disk dest)))

unfoldable pub health_status : Result StorageError Unit → HealthStatus
health_status (ok _) = healthy
health_status (err _) = unhealthy

-- the body of the `try` of `health`, where `probe` is the name with the drawn `uuid4().hex`
unfoldable pub probe_disk : FilePath → Text → Action Disk StorageError Unit
probe_disk root probe disk = and_then (make_dirs [] root disk) (λ _ made.
    and_then (write_bytes (root ++ probe ∷ []) (codes "ok") made)
      (λ _ written. unlink_at (root ++ probe ∷ []) (written (root ++ probe ∷ [])) written))

unfoldable pub health : FilePath → Text → Disk → HealthStatus × Disk
health root hex disk =
    let (r, after) = probe_disk root (codes ".storage-healthcheck-" ++ hex) disk in
    (health_status r, after)
