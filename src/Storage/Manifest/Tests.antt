-- ===== src/Storage/Manifest/Tests.antt =====
-- A manifest of one artifact.
use lexicon_revision.Prelude.{
  Text, codes, contains, Option, none, some, [], ◌∷◌, ℤ, pos, negsuc, ok, err, ◌≡◌, refl,
}
use lexicon_revision.Storage.Keys.{value_error}
use lexicon_revision.Storage.Manifest.{
  DateTime, ArtifactManifest, RawManifest, Codec, is_negative, validate_artifact,
  validate_artifacts, require_aware, require_key, to_utc, raw_artifact, raw_manifest, field,
  parse_artifact, parse_artifacts, to_json, from_raw, from_json,
}
use lexicon_revision.Storage.Manifest.RoundTrip.{
  Decodes, in_utc, from_json-to_json, to_json-from_json,
}
use lexicon_revision.Storage.Tests.{keys, report}

-- one sign, and the magnitude of the instant
abbrev codec : Codec RawManifest
codec = record {
  dumps = λ raw. raw;
  loads = some;
  isoformat = λ d. elim d.instant [ pos n ↦ n ∷ [] | negsuc n ↦ 45 ∷ n ∷ [] ];
  fromisoformat = read_time;
}
  where
    read_time : Text → Option DateTime
    read_time (n ∷ []) = some (record { instant = pos n; offset = some (pos 0) })
    read_time (s ∷ n ∷ []) = some (record { instant = negsuc n; offset = some (pos 0) })
    read_time _ = none

decodes : Decodes codec
unfolding to_utc
decodes = (λ raw. refl, λ d. times d.instant)
  where
    times :
        (i : ℤ)
        → codec.fromisoformat (codec.isoformat (record { instant = i; offset = some (pos 0) }))
          ≡ some (record { instant = i; offset = some (pos 0) })
    times (pos n) = refl
    times (negsuc n) = refl

-- 64 digits
abbrev hash : Text
hash = codes "0123456789abcdef0123456789abcdef0123456789abcdef0123456789abcdef"

abbrev paper : ArtifactManifest
paper = record {
  conversion_run_id = codes "run-1";
  paper_id = codes "p";
  source_pdf_key = report;
  mineru_version = codes "2";
  created_at = record { instant = pos 7; offset = some (pos 60) };
  artifacts =
      record {
        kind = codes "image";
        key = codes "a/b.png";
        content_type = codes "image/png";
        sha256_hex = hash;
        size_bytes = pos 3;
      }
      ∷ [];
}

manifests : Unit {0}
unfolding keys contains is_negative validate_artifact validate_artifacts require_aware require_key
    to_utc raw_artifact raw_manifest field parse_artifact parse_artifacts to_json from_raw from_json
manifests = tt

negative_size :
    to_json codec (record paper {
      artifacts =
          record {
            kind = codes "image";
            key = codes "a";
            content_type = codes "t";
            sha256_hex = hash;
            size_bytes = negsuc 0;
          }
          ∷ [];
    })
    ≡ err value_error
unfolding manifests
negative_size = refl

abbrev written : RawManifest
unfolding manifests
written = raw_manifest paper (7 ∷ [])

from_json-to_json_example : from_json codec written ≡ ok (in_utc codec paper)
unfolding manifests
from_json-to_json_example = from_json-to_json codec paper written decodes refl

to_json-from_json_example :
    (document : RawManifest) × (to_json codec (in_utc codec paper) ≡ ok document)
    × (from_json codec document ≡ ok (in_utc codec paper))
unfolding manifests
to_json-from_json_example = to_json-from_json codec written (in_utc codec paper) decodes refl
