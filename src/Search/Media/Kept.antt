-- ===== src/Search/Media/Kept.antt =====
-- The checks of src/search/media_refs.py return the value that they were given.
use lexicon_revision.Prelude.{
  ℕ, ltb, nat_eq, Text, text_HasEq, codes, length, contains, All, Bool-cases, pos, negsuc, Bool,
  true, false, ◌&&◌, Option, none, some, List, [], ◌∷◌, Result, ok, err, ok_injective,
  if◌then◌else◌, ◌≡◌, ◌∙◌, inl, inr, refl, sym, ap,
}
use lexicon_revision.Storage.Keys.{StorageError, validate_key}
use lexicon_revision.Search.Media.{
  null, boolean, integer, float, text, nested, Value, scalar, items, object, MediaError,
  value_error, supported_kinds, supported_relations, nonempty_text, one_of, on_key,
  optional_object_key, optional_at_least, all_finite, optional_bbox, optional_text, stored,
  required, optional, Field, fields,
}

-- a check returns the value that it was given
abbrev Keeps : (Value → Result MediaError Value) → Type 0
Keeps check = (v w : Value) → check v ≡ ok w → w ≡ v

nonempty_text-Keeps : Keeps nonempty_text
unfolding nonempty_text
nonempty_text-Keeps (scalar (text [])) w h = absurd (cc h)
nonempty_text-Keeps (scalar (text (c ∷ s))) w h = sym (ok_injective h)
nonempty_text-Keeps (scalar null) w h = absurd (cc h)
nonempty_text-Keeps (scalar (boolean b)) w h = absurd (cc h)
nonempty_text-Keeps (scalar (integer i)) w h = absurd (cc h)
nonempty_text-Keeps (scalar (float f)) w h = absurd (cc h)
nonempty_text-Keeps (scalar (nested s)) w h = absurd (cc h)
nonempty_text-Keeps (items xs) w h = absurd (cc h)
nonempty_text-Keeps (object s) w h = absurd (cc h)

-- `if b then ok v else err e` returns `v`
tested-keeps :
    (b : Bool) (v w : Value) (e : MediaError) → (if b then ok v else err e) ≡ ok w → w ≡ v
tested-keeps true v w e h = sym (ok_injective h)
tested-keeps false v w e h = absurd (cc h)

one_of-Keeps : (names : List Text) → Keeps (one_of names)
unfolding one_of
one_of-Keeps names (scalar (text s)) w h = tested-keeps (contains names s) _ w value_error h
one_of-Keeps names (scalar null) w h = absurd (cc h)
one_of-Keeps names (scalar (boolean b)) w h = absurd (cc h)
one_of-Keeps names (scalar (integer i)) w h = absurd (cc h)
one_of-Keeps names (scalar (float f)) w h = absurd (cc h)
one_of-Keeps names (scalar (nested s)) w h = absurd (cc h)
one_of-Keeps names (items xs) w h = absurd (cc h)
one_of-Keeps names (object s) w h = absurd (cc h)

pub on_key-ok :
    (key : Text) (r : Result StorageError Unit) (w : Value)
    → on_key key r ≡ ok w
    → (r ≡ ok tt) × (w ≡ scalar (text key))
unfolding on_key
on_key-ok key (ok tt) w h = (refl, sym (ok_injective h))
on_key-ok key (err e) w h = absurd (cc h)

optional_object_key-Keeps : Keeps optional_object_key
unfolding optional_object_key
optional_object_key-Keeps (scalar null) w h = sym (ok_injective h)
optional_object_key-Keeps (scalar (text s)) w h = (on_key-ok s (validate_key s) w h).1
optional_object_key-Keeps (scalar (boolean b)) w h = absurd (cc h)
optional_object_key-Keeps (scalar (integer i)) w h = absurd (cc h)
optional_object_key-Keeps (scalar (float f)) w h = absurd (cc h)
optional_object_key-Keeps (scalar (nested s)) w h = absurd (cc h)
optional_object_key-Keeps (items xs) w h = absurd (cc h)
optional_object_key-Keeps (object s) w h = absurd (cc h)

optional_at_least-Keeps : (least : ℕ) → Keeps (optional_at_least least)
unfolding optional_at_least
optional_at_least-Keeps least (scalar null) w h = sym (ok_injective h)
optional_at_least-Keeps least (scalar (integer (pos n))) w h = elim (Bool-cases (ltb n least)) [
  | inl e ↦ absurd (cc (rw e at h))
  | inr e ↦ sym (ok_injective (rw e at h))
]
optional_at_least-Keeps least (scalar (integer (negsuc n))) w h = absurd (cc h)
optional_at_least-Keeps least (scalar (boolean b)) w h = absurd (cc h)
optional_at_least-Keeps least (scalar (float f)) w h = absurd (cc h)
optional_at_least-Keeps least (scalar (text s)) w h = absurd (cc h)
optional_at_least-Keeps least (scalar (nested s)) w h = absurd (cc h)
optional_at_least-Keeps least (items xs) w h = absurd (cc h)
optional_at_least-Keeps least (object s) w h = absurd (cc h)

optional_bbox-Keeps : Keeps optional_bbox
unfolding optional_bbox
optional_bbox-Keeps (scalar null) w h = sym (ok_injective h)
optional_bbox-Keeps (items xs) w h =
    tested-keeps (nat_eq (length xs) 4 && all_finite xs) _ w value_error h
optional_bbox-Keeps (scalar (boolean b)) w h = absurd (cc h)
optional_bbox-Keeps (scalar (integer i)) w h = absurd (cc h)
optional_bbox-Keeps (scalar (float f)) w h = absurd (cc h)
optional_bbox-Keeps (scalar (text s)) w h = absurd (cc h)
optional_bbox-Keeps (scalar (nested s)) w h = absurd (cc h)
optional_bbox-Keeps (object s) w h = absurd (cc h)

optional_text-Keeps : Keeps optional_text
unfolding optional_text
optional_text-Keeps (scalar null) w h = sym (ok_injective h)
optional_text-Keeps (scalar (text s)) w h = sym (ok_injective h)
optional_text-Keeps (scalar (boolean b)) w h = absurd (cc h)
optional_text-Keeps (scalar (integer i)) w h = absurd (cc h)
optional_text-Keeps (scalar (float f)) w h = absurd (cc h)
optional_text-Keeps (scalar (nested s)) w h = absurd (cc h)
optional_text-Keeps (items xs) w h = absurd (cc h)
optional_text-Keeps (object s) w h = absurd (cc h)

-- a field stores what it read
abbrev pub Stores : Field → Type 0
Stores field = (o p : Option Value) → field.1 o ≡ ok p → p ≡ o

pub stored-ok :
    (r : Result MediaError Value) (p : Option Value)
    → stored r ≡ ok p
    → (w : Value) × (r ≡ ok w) × (p ≡ some w)
unfolding stored
stored-ok (ok v) p h = (v, refl, sym (ok_injective h))
stored-ok (err e) p h = absurd (cc h)

optional-Stores :
    (key : Text) (check : Value → Result MediaError Value)
    → Keeps check
    → Stores (key, optional check)
unfolding optional
optional-Stores key check k none p h = sym (ok_injective h)
optional-Stores key check k (some v) p h =
    let (w, e, q) = stored-ok (check v) p h in q ∙ ap some (k v w e)

required-Stores :
    (key : Text) (check : Value → Result MediaError Value) (e : MediaError)
    → Keeps check
    → check (scalar null) ≡ err e
    → Stores (key, required check)
unfolding required
required-Stores key check e k n none p h =
    let (w, q, r) = stored-ok (check (scalar null)) p h in absurd (cc (n, q))
required-Stores key check e k n (some v) p h =
    let (w, q, r) = stored-ok (check v) p h in r ∙ ap some (k v w q)

pub fields-Stores : All Stores fields
unfolding nonempty_text one_of
fields-Stores = (
  required-Stores (codes "media_id") nonempty_text value_error nonempty_text-Keeps refl,
  (
    required-Stores (codes "kind") (one_of supported_kinds) value_error
        (one_of-Keeps supported_kinds) refl,
    (
      required-Stores (codes "relation") (one_of supported_relations) value_error
          (one_of-Keeps supported_relations) refl,
      (
        optional-Stores (codes "object_key") optional_object_key optional_object_key-Keeps,
        (
          optional-Stores (codes "page_number") (optional_at_least 1) (optional_at_least-Keeps 1),
          (
            optional-Stores (codes "bbox") optional_bbox optional_bbox-Keeps,
            (
              optional-Stores (codes "owner_level") nonempty_text nonempty_text-Keeps,
              (
                optional-Stores (codes "owner_label") optional_text optional_text-Keeps,
                (
                  optional-Stores (codes "order_index") (optional_at_least 0)
                      (optional_at_least-Keeps 0),
                  (
                    optional-Stores (codes "text_payload") optional_text optional_text-Keeps,
                    (optional-Stores (codes "description") optional_text optional_text-Keeps, tt),
                  ),
                ),
              ),
            ),
          ),
        ),
      ),
    ),
  ),
)
