-- ===== src/Search/Media/Sanitized.antt =====
-- What the references are that src/search/media_refs.py lets pass.
use lexicon_revision.Prelude.{
  Text, text_HasEq, text_eq, codes, contains, IsIn, IsIn-contains, not_IsIn-contains, IsNodup,
  distinct, distinct-IsNodup, All, All-IsIn, Bool-cases, true, false, Option, none, some, Result,
  ok, ◌≡◌, ◌∙◌, inl, inr, refl, sym,
}
use lexicon_revision.Storage.Keys.{validate_key}
use lexicon_revision.Search.Schema.{get_item}
use lexicon_revision.Search.Media.{
  null, text, Value, scalar, Ref, MediaError, forbidden_keys, nonempty_text, one_of,
  supported_kinds, supported_relations, optional_object_key, required, optional, Field, fields,
  keys, sanitized_fields, has_any, only, sanitize_db_media_ref,
}
use lexicon_revision.Search.Media.Stored.{
  or_null, get_or_null, when_valid, validate_stored_media_ref,
}
use lexicon_revision.Search.Media.Kept.{stored-ok, on_key-ok, fields-Stores}
use lexicon_revision.Search.Media.Fields.{
  sanitized-get, sanitized-agrees, sanitized-only, only-missing, only-has_any, sanitized-checks,
}

required-valid :
    (check : Value → Result MediaError Value) (o p : Option Value)
    (next : Result MediaError (Option Ref))
    → required check o ≡ ok p
    → when_valid (check (or_null o)) next ≡ next
unfolding required or_null when_valid
required-valid check none p next h =
    let (w, e, q) = stored-ok (check (scalar null)) p h in rw e refl
required-valid check (some v) p next h = let (w, e, q) = stored-ok (check v) p h in rw e refl

key-valid :
    (o p : Option Value) (next : Result MediaError (Option Ref))
    → optional optional_object_key o ≡ ok p
    → when_valid (optional_object_key (or_null o)) next ≡ next
unfolding optional optional_object_key or_null when_valid
key-valid none p next h = refl
key-valid (some v) p next h = let (w, e, q) = stored-ok (optional_object_key v) p h in rw e refl

key-checked :
    (o p : Option Value) (key : Text)
    → optional optional_object_key o ≡ ok p
    → o ≡ some (scalar (text key))
    → validate_key key ≡ ok tt
unfolding optional optional_object_key
key-checked o p key h e =
    let (w, q, r) = stored-ok (optional_object_key (scalar (text key))) p (rw e at h) in
    (on_key-ok key (validate_key key) w q).0

fields-distinct : IsNodup (keys fields)
unfolding distinct contains text_eq
fields-distinct = distinct-IsNodup (keys fields) refl

fields-allowed : All (λ (field : Field). contains (keys fields) field.0 ≡ true) fields
unfolding contains text_eq
fields-allowed =
    (refl, (refl, (refl, (refl, (refl, (refl, (refl, (refl, (refl, (refl, (refl, tt)))))))))))

not_forbidden : (k : Text) → contains (keys fields) k ≡ true → contains forbidden_keys k ≡ false
unfolding contains text_eq
not_forbidden k h =
    All-IsIn (λ key. contains forbidden_keys key ≡ false) k (keys fields) each
      (IsIn-contains (keys fields) k h)
  where
    each : All (λ key. contains forbidden_keys key ≡ false) (keys fields)
    each =
        (refl, (refl, (refl, (refl, (refl, (refl, (refl, (refl, (refl, (refl, (refl, tt)))))))))))

-- `out` is what was stored for `ref`
pub record IsSanitized (ref out : Ref) : Type 0 where
  pub kept : (key : Text) → get_item out key ≡ get_item ref key
  pub again : sanitize_db_media_ref out ≡ ok out
  pub accepted : validate_stored_media_ref out ≡ ok (some out)
  pub object_key :
      (key : Text)
      → get_item out (codes "object_key") ≡ some (scalar (text key))
      → validate_key key ≡ ok tt

-- A reference with allowed keys only.
sanitize-passes :
    (ref : Ref)
    → only (keys fields) ref ≡ true
    → sanitize_db_media_ref ref ≡ sanitized_fields fields ref
unfolding sanitize_db_media_ref
sanitize-passes ref o = rw (only-has_any (keys fields) forbidden_keys ref not_forbidden o, o) refl

sanitize-inv :
    (ref out : Ref)
    → sanitize_db_media_ref ref ≡ ok out
    → (only (keys fields) ref ≡ true) × (sanitized_fields fields ref ≡ ok out)
unfolding sanitize_db_media_ref
sanitize-inv ref out h = elim (Bool-cases (has_any forbidden_keys ref)) [
  | inl e ↦ absurd (cc (rw e at h))
  | inr e ↦ elim (Bool-cases (only (keys fields) ref)) [
    | inl o ↦ (o, rw (e, o) at h)
    | inr o ↦ absurd (cc (rw (e, o) at h))
  ]
]

-- A reference that `_sanitize_db_media_ref` lets pass has the same value under every key as the
-- given one, so no key is lost or added. Sanitizing it again leaves it as it is, the sidecar's
-- validator accepts it as it is, and its object key, if it is a text, is a valid key.
pub sanitize_db_media_ref-IsSanitized :
    (ref out : Ref) → sanitize_db_media_ref ref ≡ ok out → IsSanitized ref out
unfolding validate_stored_media_ref get_or_null
sanitize_db_media_ref-IsSanitized ref out h = record {
  kept = kept;
  again = sanitize-passes out allowed ∙ again;
  accepted =
      rw
        (
          only-has_any (keys fields) forbidden_keys out not_forbidden allowed,
          required-valid nonempty_text (get_item out (codes "media_id")) _ _ checks.0,
          required-valid (one_of supported_kinds) (get_item out (codes "kind")) _ _ checks.1.0,
          required-valid (one_of supported_relations) (get_item out (codes "relation")) _ _
              checks.1.1.0,
          key-valid (get_item out (codes "object_key")) _ _ checks.1.1.1.0,
        )
        refl;
  object_key = λ key. key-checked (get_item out (codes "object_key")) _ key checks.1.1.1.0;
}
  where
    o : only (keys fields) ref ≡ true
    o = (sanitize-inv ref out h).0

    e : sanitized_fields fields ref ≡ ok out
    e = (sanitize-inv ref out h).1

    allowed : only (keys fields) out ≡ true
    allowed = sanitized-only (keys fields) fields ref out fields-Stores fields-allowed e

    known : (key : Text) → IsIn key (keys fields) → get_item out key ≡ get_item ref key
    known key m = sanitized-get fields ref out key fields-Stores fields-distinct e m

    again : sanitized_fields fields out ≡ ok out
    again = sanitized-agrees fields ref out known ∙ e

    checks :
        All (λ (field : Field). field.1 (get_item out field.0) ≡ ok (get_item out field.0)) fields
    checks = sanitized-checks fields out out fields-Stores again

    kept : (key : Text) → get_item out key ≡ get_item ref key
    kept key = elim (Bool-cases (contains (keys fields) key)) [
      | inl i ↦ known key (IsIn-contains (keys fields) key i)
      | inr n ↦
          only-missing (keys fields) out key allowed (not_IsIn-contains (keys fields) key n)
          ∙ sym (only-missing (keys fields) ref key o (not_IsIn-contains (keys fields) key n))
    ]
