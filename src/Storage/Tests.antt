-- ===== src/Storage/Tests.antt =====
-- Keys, and a disk with one object.
use lexicon_revision.Prelude.{
  Text, text_eq, codes, starts_with, has_part, ends_with, is_space, filter, true, false, none, some,
  [], ◌∷◌, ok, err, ◌≡◌, refl,
}
use lexicon_revision.Storage.Keys.{
  invalid_key, os_error, any_char, all_chars, is_rejected, validate_key, is_hex, is_lower_alnum,
  matches_sha256, matches_extension, is_run_char, matches_run_id, checked, blob_key,
  sha256_blob_key, image, canonical, artifact_prefix, artifact_key, mineru_artifact_key, slug_from,
  lstrip_dashes, rstrip_dashes, conversion_run_id_from, conversion_run_id_from_stem,
}
use lexicon_revision.Storage.Keys.Segments.{push, segments}
use lexicon_revision.Storage.Keys.Contained.{IsContained, validate_key-IsContained}
use lexicon_revision.Storage.Disk.{
  FilePath, Bytes, Disk, file, path_eq, drop_last, follow, follow_all, resolve_path, is_relative_to,
  make_dir_at, make_dirs, write_at, write_bytes, file_of, file_at, unlink_at,
}
use lexicon_revision.Storage.Local.{
  resolve, stored_object, store_at, put_bytes, put_file, read_bytes, found, get_bytes,
  object_exists, health_status, probe_disk, health, healthy,
}
use lexicon_revision.Storage.Local.Objects.{
  put_object, get_object, objects_of, put_bytes-put_object,
}

unfoldable pub keys : Unit {0}
unfolding starts_with has_part ends_with text_eq is_space any_char all_chars is_rejected
    validate_key is_hex is_lower_alnum matches_sha256 matches_extension is_run_char matches_run_id
    checked blob_key sha256_blob_key canonical artifact_prefix artifact_key mineru_artifact_key
    slug_from lstrip_dashes rstrip_dashes conversion_run_id_from conversion_run_id_from_stem push
    segments
keys = tt

disks : Unit {0}
unfolding keys filter path_eq drop_last follow follow_all resolve_path is_relative_to make_dir_at
    make_dirs write_at write_bytes file_of file_at unlink_at resolve stored_object store_at
    put_bytes put_file read_bytes found get_bytes object_exists health_status probe_disk health
disks = tt

abbrev pub report : Text
report = codes "papers/2020.pdf"

accepted : validate_key report ≡ ok tt
unfolding keys
accepted = refl

-- a key that names the directory itself is accepted
accepted_dot : validate_key (codes ".") ≡ ok tt
unfolding keys
accepted_dot = refl

traversal : validate_key (codes "papers/../../etc") ≡ err (invalid_key (codes "papers/../../etc"))
unfolding keys
traversal = refl

run_id :
    conversion_run_id_from_stem (λ s. s) (codes "2020  paper_1.") ≡ ok (codes "run-2020-paper-1")
unfolding keys
run_id = refl

image_key :
    mineru_artifact_key (codes "run-1") image (codes "a.png")
    ≡ ok (codes "artifacts/mineru/run-1/images/a.png")
unfolding keys
image_key = refl

image_key_slash :
    mineru_artifact_key (codes "run-1") image (codes "a/b") ≡ err (invalid_key (codes "a/b"))
unfolding keys
image_key_slash = refl

validate_key-IsContained_example : IsContained (codes "papers" ∷ codes "2020.pdf" ∷ [])
unfolding keys
validate_key-IsContained_example = validate_key-IsContained report accepted

abbrev root : FilePath
root = codes "srv" ∷ []

-- a file of an older year
abbrev disk : Disk
disk p = elim (path_eq p (codes "srv" ∷ codes "papers" ∷ codes "2019.pdf" ∷ [])) [
  | true ↦ some (file (9 ∷ []))
  | false ↦ none
]

abbrev digest : Bytes → Text
digest content = codes "d"

stored :
    get_bytes root report (put_bytes digest root report (1 ∷ 2 ∷ []) none disk).1 ≡ ok (1 ∷ 2 ∷ [])
unfolding disks
stored = refl

kept :
    get_bytes root (codes "papers/2019.pdf") (put_bytes digest root report (1 ∷ []) none disk).1
    ≡ ok (9 ∷ [])
unfolding disks
kept = refl

below_file : (put_bytes digest root (codes "papers/2019.pdf/a") (1 ∷ []) none disk).0 ≡ err os_error
unfolding disks
below_file = refl

probed : (health root (codes "0") disk).0 ≡ healthy
unfolding disks
probed = refl

put_bytes-put_object_example :
    get_bytes root report (put_bytes digest root report (1 ∷ []) none disk).1
    ≡ get_object (put_object (objects_of root disk) report (1 ∷ [])) report
unfolding disks
put_bytes-put_object_example =
    put_bytes-put_object digest root report report (1 ∷ []) none disk
      (refl, ((λ e. cc), ((λ e. cc), tt))) (refl, ((λ e. cc), ((λ e. cc), tt))) refl
