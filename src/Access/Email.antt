-- ===== src/Access/Email.antt =====
-- src/access/email.py. `str.lower` is a parameter: its tables of Unicode are not in the program.
use lexicon_revision.Prelude.{
  Text, text_HasEq, codes, strip, nat_eq, ◌||◌, Option, none, some, [], ◌∷◌, is_empty, Result, ok,
  err, ◌>>=◌, if◌then◌else◌,
}
use lexicon_revision.Access.Models.{AccessError, value_error}

-- `s.partition("@")` as the part before, and the part behind if there is a separator
unfoldable pub partition_at : Text → Text × Option Text
partition_at [] = ([], none)
partition_at (c ∷ s) =
    let (before, behind) = partition_at s in
    if nat_eq c b'@' then ([], some s) else (c ∷ before, behind)

abbrev pub blank_email : AccessError
blank_email = value_error (codes "email must not be blank")

abbrev pub partial_email : AccessError
partial_email = value_error (codes "email must include local-part and domain")

-- `value or None`
unfoldable pub nonblank : Text → Option Text
nonblank s = if is_empty s then none else some s

module _ (lower : Text → Text) where
  unfoldable pub normalize_email : Option Text → Option Text
  normalize_email none = none
  normalize_email (some email) = nonblank (lower (strip email))

  unfoldable pub require_normalized_email : Option Text → Result AccessError Text
  require_normalized_email email = elim (normalize_email email) [
    | none ↦ err blank_email
    | some normalized ↦ ok normalized
  ]

  unfoldable pub email_domain : Text → Result AccessError Text
  email_domain email = do
    normalized ← require_normalized_email (some email)
    let (local_part, found) = partition_at normalized
    elim found [
      | none ↦ err partial_email
      | some domain ↦
          if is_empty local_part || is_empty domain then err partial_email else ok domain
    ]
