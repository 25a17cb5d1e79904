-- ===== src/Access/Users.antt =====
-- `get_or_create_user_for_identity` of src/access/repository.py. What it raises inside its session
-- is rolled back, so an error carries no tables. `new_user_id` is the `uuid4()` of the user row.
pub mod Memberships
use lexicon_revision.Prelude.{
  Text, text_HasEq, codes, ◌==◌, Bool, true, false, not, ◌&&◌, ◌||◌, Option, none, some, List, [],
  ◌∷◌, ◌++◌, Result, ok, err, ◌>>=◌, is_some, if◌then◌else◌,
}
use lexicon_revision.Access.Models.{
  RequestIdentity, AuthenticatedUser, stub_email_identity_provider, AccessError, value_error,
  no_row,
}
use lexicon_revision.Access.Email.{require_normalized_email}
use lexicon_revision.Access.Tables.{Tables, UserRow, ExternalIdentityRow, first}

abbrev pub missing_subject : AccessError
missing_subject =
    value_error (codes "external identities require both provider and external_subject")

abbrev pub unverified_email : AccessError
unverified_email =
    value_error (codes "verified email is required for external identity provisioning")

abbrev pub email_collision : AccessError
email_collision =
    value_error (codes "external identity email collision requires explicit account linking")

-- The checked identity: its provider and subject, its normalized e-mail and whether it is verified.
pub record Claim : Type 0 where
  pub provider : Text
  pub subject : Text
  pub email : Text
  pub verified : Bool

unfoldable pub is_stub : Text → Bool
is_stub provider = provider == stub_email_identity_provider

unfoldable pub is_verified_external : Claim → Bool
is_verified_external c = not (is_stub c.provider) && c.verified

-- `select users join user_external_identities where …`, of the given identities
unfoldable pub join_identity :
    List UserRow → Text → Text → List ExternalIdentityRow → Option UserRow
join_identity users provider subject [] = none
join_identity users provider subject (i ∷ is) =
    let rest = join_identity users provider subject is in
    if i.provider == provider && i.external_subject == subject
    then elim (first (λ (u : UserRow). u.id == i.user_id) users) [ some u ↦ some u | none ↦ rest ]
    else rest

unfoldable pub by_external_identity : Tables → Claim → Option UserRow
by_external_identity t c = join_identity t.users c.provider c.subject t.identities

unfoldable pub by_email : Tables → Text → Option UserRow
by_email t email = first (λ (u : UserRow). u.email == email) t.users

-- the user has this provider under another subject
unfoldable pub has_conflicting_subjects : Tables → Claim → Text → Bool
has_conflicting_subjects t c user_id = is_some (
    first
      (λ (i : ExternalIdentityRow).
        i.user_id == user_id && i.provider == c.provider && not (i.external_subject == c.subject))
      t.identities)

unfoldable pub without_conflict : Tables → Claim → UserRow → Result AccessError (UserRow × Tables)
without_conflict t c row =
    if has_conflicting_subjects t c row.id then err email_collision else ok (row, t)

-- `.one()`
unfoldable pub one : Option UserRow → Result AccessError UserRow
one none = err no_row
one (some row) = ok row

-- what follows when the insert met a user with this e-mail and returned no row
unfoldable pub after_conflict : Tables → Claim → Result AccessError (UserRow × Tables)
after_conflict t c =
    if is_stub c.provider
    then (do row ← one (by_email t c.email); ok (row, t))
    else elim (by_email t c.email) [
      | some row ↦ ok (row, t)
      | none ↦ elim (by_external_identity t c) [
        | some row ↦ ok (row, t)
        | none ↦ err email_collision
      ]
    ]

-- `insert into users … on conflict (email) do nothing returning …`
unfoldable pub insert_user : Text → Tables → Claim → Result AccessError (UserRow × Tables)
insert_user new_user_id t c = elim (by_email t c.email) [
  | some _ ↦ after_conflict t c
  | none ↦
      (let row : UserRow = record {
        id = new_user_id;
        email = c.email;
        email_verified = c.verified;
      } in
        ok (row, record t { users = t.users ++ row ∷ [] }))
]

unfoldable pub find_or_insert_user : Text → Tables → Claim → Result AccessError (UserRow × Tables)
find_or_insert_user new_user_id t c = elim (by_external_identity t c) [
  | some row ↦ without_conflict t c row
  | none ↦ elim (if is_verified_external c then by_email t c.email else none) [
    | some row ↦ without_conflict t c row
    | none ↦ insert_user new_user_id t c
  ]
]

-- `insert into user_external_identities … on conflict (provider, external_subject) do nothing`
unfoldable pub link_identity : Tables → Claim → Text → Tables
link_identity t c user_id =
    elim (first
      (λ (i : ExternalIdentityRow). i.provider == c.provider && i.external_subject == c.subject)
      t.identities) [
        | some _ ↦ t
        | none ↦ record t {
          identities =
              t.identities
              ++ record { user_id = user_id; provider = c.provider; external_subject = c.subject }
                ∷ [];
        }
      ]

unfoldable pub verify_in : Text → List UserRow → List UserRow
verify_in id [] = []
verify_in id (u ∷ us) =
    (if u.id == id then record u { email_verified = true } else u) ∷ verify_in id us

-- `update users set email_verified = true where id = …`, if the identity is verified
unfoldable pub mark_verified : Tables → Claim → Text → Tables
mark_verified t c id = if c.verified then record t { users = verify_in id t.users } else t

unfoldable pub provision : Text → Tables → Claim → Result AccessError (AuthenticatedUser × Tables)
provision new_user_id t c = find_or_insert_user new_user_id t c >>= λ (found : UserRow × Tables).
    let linked = link_identity found.1 c found.0.id in
    one (by_external_identity linked c) >>= λ (row : UserRow).
    ok (record { user_id = row.id; email = row.email }, mark_verified linked c row.id)

module _ (lower : Text → Text) where
  unfoldable pub check_claim :
      Option Text → Option Text → RequestIdentity → Result AccessError Claim
  check_claim (some provider) (some subject) identity =
      if not (is_stub provider) && not identity.email_verified then err unverified_email else do
        email ← require_normalized_email lower identity.email
        ok (record {
          provider = provider;
          subject = subject;
          email = email;
          verified = identity.email_verified;
        })
  check_claim _ _ identity = err missing_subject

  unfoldable pub get_or_create_user_for_identity :
      Text → Tables → RequestIdentity → Result AccessError (AuthenticatedUser × Tables)
  get_or_create_user_for_identity new_user_id t identity = do
    claim ← check_claim identity.provider identity.external_subject identity
    provision new_user_id t claim
