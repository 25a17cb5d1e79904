-- ===== src/Storage/Manifest.antt =====
-- src/storage/manifest.py. `Raw` is what `json.loads` returns for an object whose fields, where
-- they stand in it, have the types that the classes declare.
pub mod RoundTrip
mod Tests
use lexicon_revision.Prelude.{
  ℕ, Text, text_HasEq, codes, contains, Bool, true, false, not, Option, none, some, List, [], ◌∷◌,
  ◌++◌, map, ℤ, pos, negsuc, Result, ok, err, ◌>>=◌, if◌then◌else◌,
}
use lexicon_revision.Storage.Keys.{StorageError, value_error, is_rejected, matches_sha256}

-- an aware datetime has an offset from UTC
pub record DateTime : Type 0 where
  pub instant : ℤ
  pub offset : Option ℤ

pub record ManifestArtifact : Type 0 where
  pub kind : Text
  pub key : Text
  pub content_type : Text
  pub sha256_hex : Text
  pub size_bytes : ℤ

pub record ArtifactManifest : Type 0 where
  pub conversion_run_id : Text
  pub paper_id : Text
  pub source_pdf_key : Text
  pub mineru_version : Text
  pub created_at : DateTime
  pub artifacts : List ManifestArtifact

pub record RawArtifact : Type 0 where
  pub kind : Option Text
  pub key : Option Text
  pub content_type : Option Text
  pub sha256_hex : Option Text
  pub size_bytes : Option ℤ

pub record RawManifest : Type 0 where
  pub conversion_run_id : Option Text
  pub paper_id : Option Text
  pub source_pdf_key : Option Text
  pub mineru_version : Option Text
  pub created_at : Option Text
  pub artifacts : Option (List RawArtifact)

-- the standard library's `json` and `datetime`, where `Document` is the text of a JSON document
pub record Codec (Document : Type 0) : Type 0 where
  pub dumps : RawManifest → Document
  pub loads : Document → Option RawManifest
  pub isoformat : DateTime → Text
  pub fromisoformat : Text → Option DateTime

-- `_ALLOWED_KINDS`
abbrev pub allowed_kinds : List Text
allowed_kinds = codes "content_list" ∷ codes "markdown" ∷ codes "image" ∷ codes "manifest" ∷ []

unfoldable pub is_negative : ℤ → Bool
is_negative (pos n) = false
is_negative (negsuc n) = true

-- the four tests of one artifact, which `_validate_artifacts` and `_parse_artifact` share
unfoldable pub validate_artifact : ManifestArtifact → Result StorageError Unit
validate_artifact a =
    if not (contains allowed_kinds a.kind)
    then err value_error
    else (if is_rejected a.key
        then err value_error
        else (if not (matches_sha256 a.sha256_hex)
            then err value_error
            else (if is_negative a.size_bytes then err value_error else ok tt)))

-- `_validate_artifacts`
unfoldable pub validate_artifacts : List ManifestArtifact → Result StorageError Unit
validate_artifacts [] = ok tt
validate_artifacts (a ∷ artifacts) = validate_artifact a >>= (λ _. validate_artifacts artifacts)

-- `if created_at.tzinfo is None: raise`
unfoldable pub require_aware : Option ℤ → Result StorageError Unit
require_aware none = err value_error
require_aware (some offset) = ok tt

-- the `try` around `validate_key(source_pdf_key)`
unfoldable pub require_key : Text → Result StorageError Unit
require_key key = if is_rejected key then err value_error else ok tt

-- `d.astimezone(timezone.utc)` of an aware `d`
unfoldable pub to_utc : DateTime → DateTime
to_utc d = record { instant = d.instant; offset = some (pos 0) }

unfoldable pub raw_artifact : ManifestArtifact → RawArtifact
raw_artifact a = record {
  kind = some a.kind;
  key = some a.key;
  content_type = some a.content_type;
  sha256_hex = some a.sha256_hex;
  size_bytes = some a.size_bytes;
}

-- the dictionary that `to_json` writes, with the text of `created_at`
unfoldable pub raw_manifest : ArtifactManifest → Text → RawManifest
raw_manifest m created = record {
  conversion_run_id = some m.conversion_run_id;
  paper_id = some m.paper_id;
  source_pdf_key = some m.source_pdf_key;
  mineru_version = some m.mineru_version;
  created_at = some created;
  artifacts = some (map raw_artifact m.artifacts);
}

-- a field that has to stand in the object
unfoldable pub field : {A : Type 0} → Option A → Result StorageError A
field none = err value_error
field (some a) = ok a

-- `_parse_artifact`
unfoldable pub parse_artifact : RawArtifact → Result StorageError ManifestArtifact
parse_artifact r = do
  kind ← field r.kind
  key ← field r.key
  content_type ← field r.content_type
  sha256_hex ← field r.sha256_hex
  size_bytes ← field r.size_bytes
  let a : ManifestArtifact = record {
    kind = kind;
    key = key;
    content_type = content_type;
    sha256_hex = sha256_hex;
    size_bytes = size_bytes;
  }
  _ ← validate_artifact a
  ok a

unfoldable pub parse_artifacts : List RawArtifact → Result StorageError (List ManifestArtifact)
parse_artifacts [] = ok []
parse_artifacts (r ∷ raws) =
    parse_artifact r >>= (λ a. parse_artifacts raws >>= (λ artifacts. ok (a ∷ artifacts)))

module _ {Document : Type 0} (codec : Codec Document) where
  unfoldable pub to_json : ArtifactManifest → Result StorageError Document
  to_json m = do
    _ ← validate_artifacts m.artifacts
    _ ← require_aware m.created_at.offset
    _ ← require_key m.source_pdf_key
    ok (codec.dumps (raw_manifest m (codec.isoformat (to_utc m.created_at))))

  -- the fields that have to stand in the object, and what is done with them
  unfoldable pub from_raw : RawManifest → Result StorageError ArtifactManifest
  from_raw raw = do
    conversion_run_id ← field raw.conversion_run_id
    paper_id ← field raw.paper_id
    source_pdf_key ← field raw.source_pdf_key
    mineru_version ← field raw.mineru_version
    created ← field raw.created_at
    raws ← field raw.artifacts
    artifacts ← parse_artifacts raws
    _ ← require_key source_pdf_key
    created_at ← field (codec.fromisoformat created)
    _ ← require_aware created_at.offset
    ok (record {
      conversion_run_id = conversion_run_id;
      paper_id = paper_id;
      source_pdf_key = source_pdf_key;
      mineru_version = mineru_version;
      created_at = to_utc created_at;
      artifacts = artifacts;
    })

  unfoldable pub from_json : Document → Result StorageError ArtifactManifest
  from_json document = field (codec.loads document) >>= from_raw
