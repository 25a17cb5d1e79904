-- ===== src/Storage/Manifest/RoundTrip.antt =====
-- `ArtifactManifest` of src/storage/manifest.py, written and read again.
use lexicon_revision.Prelude.{
  >>=-ok, ok_injective, some, List, [], ◌∷◌, map, Result, ok, ◌≡◌, ◌∙◌, refl, sym, ap,
}
use lexicon_revision.Storage.Keys.{StorageError}
use lexicon_revision.Storage.Manifest.{
  DateTime, ManifestArtifact, ArtifactManifest, RawArtifact, RawManifest, Codec, validate_artifact,
  validate_artifacts, require_aware, require_key, to_utc, raw_artifact, raw_manifest, field,
  parse_artifact, parse_artifacts, to_json, from_raw, from_json,
}

parse_artifact-raw :
    (a : ManifestArtifact) → validate_artifact a ≡ ok tt → parse_artifact (raw_artifact a) ≡ ok a
unfolding parse_artifact raw_artifact field
parse_artifact-raw a h = rw h refl

parse_artifacts-raw :
    (artifacts : List ManifestArtifact)
    → validate_artifacts artifacts ≡ ok tt
    → parse_artifacts (map raw_artifact artifacts) ≡ ok artifacts
unfolding parse_artifacts validate_artifacts
parse_artifacts-raw [] h = refl
parse_artifacts-raw (a ∷ artifacts) h =
    let (_, p, q) = >>=-ok (validate_artifact a) (λ _. validate_artifacts artifacts) tt h in
    rw (parse_artifact-raw a p, parse_artifacts-raw artifacts q) refl

validate-parse_artifact :
    (r : RawArtifact) (a : ManifestArtifact) → parse_artifact r ≡ ok a → validate_artifact a ≡ ok tt
unfolding parse_artifact
validate-parse_artifact r a h =
    let (kind, _, h1) = >>=-ok (field r.kind) _ a h in
    let (key, _, h2) = >>=-ok (field r.key) _ a h1 in
    let (content_type, _, h3) = >>=-ok (field r.content_type) _ a h2 in
    let (sha256_hex, _, h4) = >>=-ok (field r.sha256_hex) _ a h3 in
    let (size_bytes, _, h5) = >>=-ok (field r.size_bytes) _ a h4 in
    let (_, v, e) = >>=-ok (validate_artifact _) _ a h5 in validated v e
  where
    validated :
        {b : ManifestArtifact} {u : Unit}
        → validate_artifact b ≡ ok u
        → ◌≡◌ {A = Result StorageError ManifestArtifact} (ok b) (ok a)
        → validate_artifact a ≡ ok tt
    validated v e = rw (← ok_injective e) v

validate-parse_artifacts :
    (raws : List RawArtifact) (artifacts : List ManifestArtifact)
    → parse_artifacts raws ≡ ok artifacts
    → validate_artifacts artifacts ≡ ok tt
unfolding parse_artifacts validate_artifacts
validate-parse_artifacts [] artifacts h = rw (← ok_injective h) refl
validate-parse_artifacts (r ∷ raws) artifacts h =
    let (a, p, h1) = >>=-ok (parse_artifact r) _ artifacts h in
    let (rest, q, e) = >>=-ok (parse_artifacts raws) _ artifacts h1 in
    rw (← ok_injective e)
      (rw (validate-parse_artifact r a p, validate-parse_artifacts raws rest q) refl)

module _ {Document : Type 0} (codec : Codec Document) where
  -- what `json.loads` does to what `json.dumps` wrote, and `datetime.fromisoformat` to what
  -- `isoformat` wrote of an instant in UTC
  abbrev pub Decodes : Type 0
  Decodes =
      ((raw : RawManifest) → codec.loads (codec.dumps raw) ≡ some raw)
      × ((d : DateTime) → codec.fromisoformat (codec.isoformat (to_utc d)) ≡ some (to_utc d))

  -- what `to_json` asks of a manifest
  abbrev pub IsWellFormed : ArtifactManifest → Type 0
  IsWellFormed m =
      (validate_artifacts m.artifacts ≡ ok tt)
      × (require_aware m.created_at.offset ≡ ok tt)
      × (require_key m.source_pdf_key ≡ ok tt)

  abbrev pub in_utc : ArtifactManifest → ArtifactManifest
  in_utc m = record m { created_at = to_utc m.created_at }

  to_json-IsWellFormed :
      (m : ArtifactManifest) (document : Document) → to_json codec m ≡ ok document → IsWellFormed m
  unfolding to_json
  to_json-IsWellFormed m document h =
      let (_, a, h1) = >>=-ok (validate_artifacts m.artifacts) _ document h in
      let (_, b, h2) = >>=-ok (require_aware m.created_at.offset) _ document h1 in
      let (_, c, _) = >>=-ok (require_key m.source_pdf_key) _ document h2 in (a, b, c)

  to_json_of_writable :
      (m : ArtifactManifest)
      → IsWellFormed m
      → to_json codec m ≡ ok (codec.dumps (raw_manifest m (codec.isoformat (to_utc m.created_at))))
  unfolding to_json
  to_json_of_writable m (a, b, c) = rw (a, b, c) refl

  from_json-dumps :
      (m : ArtifactManifest)
      → Decodes
      → IsWellFormed m
      → from_json codec (codec.dumps (raw_manifest m (codec.isoformat (to_utc m.created_at))))
        ≡ ok (in_utc m)
  unfolding from_json from_raw raw_manifest field to_utc require_aware
  from_json-dumps m (json, iso) (a, b, c) =
      rw (json (raw_manifest m (codec.isoformat (to_utc m.created_at))))
        (rw (parse_artifacts-raw m.artifacts a, c, iso m.created_at) refl)

  -- Reading what `to_json` wrote gives the manifest back, with its creation time in UTC.
  pub from_json-to_json :
      (m : ArtifactManifest) (document : Document)
      → Decodes
      → to_json codec m ≡ ok document
      → from_json codec document ≡ ok (in_utc m)
  from_json-to_json m document d h =
      let w = to_json-IsWellFormed m document h in
      let e = ok_injective (sym (to_json_of_writable m w) ∙ h) in rw (← e) (from_json-dumps m d w)

  from_raw-IsWellFormed :
      (raw : RawManifest) (m : ArtifactManifest)
      → from_raw codec raw ≡ ok m
      → IsWellFormed m × (to_utc m.created_at ≡ m.created_at)
  unfolding from_raw to_utc require_aware
  from_raw-IsWellFormed raw m h =
      let (_, _, h1) = >>=-ok (field raw.conversion_run_id) _ m h in
      let (_, _, h2) = >>=-ok (field raw.paper_id) _ m h1 in
      let (source, _, h3) = >>=-ok (field raw.source_pdf_key) _ m h2 in
      let (_, _, h4) = >>=-ok (field raw.mineru_version) _ m h3 in
      let (created, _, h5) = >>=-ok (field raw.created_at) _ m h4 in
      let (raws, _, h6) = >>=-ok (field raw.artifacts) _ m h5 in
      let (artifacts, p, h7) = >>=-ok (parse_artifacts raws) _ m h6 in
      let (_, k, h8) = >>=-ok (require_key source) _ m h7 in
      let (created_at, _, h9) = >>=-ok (field (codec.fromisoformat created)) _ m h8 in
      let (_, _, e) = >>=-ok (require_aware created_at.offset) _ m h9 in
      rw (← ok_injective e) ((validate-parse_artifacts raws artifacts p, refl, k), refl)

  -- What `from_json` returned can be written, and reading it again gives the same manifest.
  pub to_json-from_json :
      (document : Document) (m : ArtifactManifest)
      → Decodes
      → from_json codec document ≡ ok m
      → (written : Document) × (to_json codec m ≡ ok written) × (from_json codec written ≡ ok m)
  unfolding from_json
  to_json-from_json document m d h =
      let (raw, _, r) = >>=-ok (field (codec.loads document)) _ m h in
      let (w, e) = from_raw-IsWellFormed raw m r in
      let written : Document =
        codec.dumps (raw_manifest m (codec.isoformat (to_utc m.created_at))) in
      (
        written,
        to_json_of_writable m w,
        from_json-dumps m d w ∙ ap (λ (t : DateTime). ok (record m { created_at = t })) e,
      )
