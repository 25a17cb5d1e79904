-- ===== src/Access/Users/Memberships.antt =====
-- `get_or_create_user_for_identity` of src/access/repository.py and the memberships.
use lexicon_revision.Prelude.{
  Text, text_HasEq, List, ◌≡◌, refl, Result, ok, err, returned, raised, run, Bool-cases,
  Option-cases, inl, inr, arith, ◌∙◌,
}
use lexicon_revision.Access.Models.{RequestIdentity, AccessError}
use lexicon_revision.Access.Tables.{Tables, UserRow, MembershipRow}
use lexicon_revision.Access.Users.{
  Claim, is_stub, is_verified_external, by_external_identity, by_email, has_conflicting_subjects,
  without_conflict, one, after_conflict, insert_user, find_or_insert_user, link_identity,
  mark_verified, provision, check_claim, get_or_create_user_for_identity,
}

-- The tables of a result hold these memberships.
abbrev pub Keeps : {A : Type 0} → List MembershipRow → Result AccessError (A × Tables) → Type 0
Keeps ms (ok r) = (r.1.memberships ≡ ms)
Keeps ms (err e) = Unit

Keeps-without_conflict :
    (t : Tables) (c : Claim) (row : UserRow) → Keeps t.memberships (without_conflict t c row)
unfolding without_conflict
Keeps-without_conflict t c row = elim (Bool-cases (has_conflicting_subjects t c row.id)) [
  | inl q ↦ rw q tt
  | inr q ↦ rw q refl
]

Keeps-after_conflict : (t : Tables) (c : Claim) → Keeps t.memberships (after_conflict t c)
unfolding after_conflict one
Keeps-after_conflict t c = elim (Bool-cases (is_stub c.provider)) [
  | inl q ↦ elim (Option-cases (by_email t c.email)) [
    | inl e ↦ rw (q, e) tt
    | inr (row, e) ↦ rw (q, e) refl
  ]
  | inr q ↦ elim (Option-cases (by_email t c.email)) [
    | inr (row, e) ↦ rw (q, e) refl
    | inl e ↦ elim (Option-cases (by_external_identity t c)) [
      | inl f ↦ rw (q, e, f) tt
      | inr (row, f) ↦ rw (q, e, f) refl
    ]
  ]
]

Keeps-insert_user : (id : Text) (t : Tables) (c : Claim) → Keeps t.memberships (insert_user id t c)
unfolding insert_user
Keeps-insert_user id t c = elim (Option-cases (by_email t c.email)) [
  | inl e ↦ rw (Keeps, e) refl
  | inr (row, e) ↦ rw (Keeps, e) (Keeps-after_conflict t c)
]

Keeps-find_or_insert_user :
    (id : Text) (t : Tables) (c : Claim) → Keeps t.memberships (find_or_insert_user id t c)
unfolding find_or_insert_user
Keeps-find_or_insert_user id t c = elim (Option-cases (by_external_identity t c)) [
  | inr (row, e) ↦ rw (Keeps, e) (Keeps-without_conflict t c row)
  | inl e ↦ elim (Bool-cases (is_verified_external c)) [
    | inr v ↦ rw (Keeps, e, v) (Keeps-insert_user id t c)
    | inl v ↦ elim (Option-cases (by_email t c.email)) [
      | inr (row, f) ↦ rw (Keeps, e, v, f) (Keeps-without_conflict t c row)
      | inl f ↦ rw (Keeps, e, v, f) (Keeps-insert_user id t c)
    ]
  ]
]

memberships-link_identity :
    (t : Tables) (c : Claim) (id : Text) → (link_identity t c id).memberships ≡ t.memberships
unfolding link_identity
memberships-link_identity t c id = ground arith

memberships-mark_verified :
    (t : Tables) (c : Claim) (id : Text) → (mark_verified t c id).memberships ≡ t.memberships
unfolding mark_verified
memberships-mark_verified t c id = elim (Bool-cases c.verified) [
  | inl q ↦ rw q refl
  | inr q ↦ rw q refl
]

Keeps-provision : (id : Text) (t : Tables) (c : Claim) → Keeps t.memberships (provision id t c)
unfolding provision one
Keeps-provision id t c = elim (run (find_or_insert_user id t c)) [
  | raised e q ↦ rw q tt
  | returned found q ↦ finish found q (rw q at (Keeps-find_or_insert_user id t c))
]
  where
    finish :
        (found : UserRow × Tables)
        → find_or_insert_user id t c ≡ ok found
        → found.1.memberships ≡ t.memberships
        → Keeps t.memberships (provision id t c)
    finish found q k =
        elim (Option-cases (by_external_identity (link_identity found.1 c found.0.id) c)) [
          | inl e ↦ rw (q, e) tt
          | inr (row, e) ↦
              rw (q, e)
                (memberships-mark_verified (link_identity found.1 c found.0.id) c row.id
                  ∙ memberships-link_identity found.1 c found.0.id
                  ∙ k)
        ]

pub Keeps-get_or_create_user_for_identity :
    (lower : Text → Text) (id : Text) (t : Tables) (r : RequestIdentity)
    → Keeps t.memberships (get_or_create_user_for_identity lower id t r)
unfolding get_or_create_user_for_identity
Keeps-get_or_create_user_for_identity lower id t r =
    elim (run (check_claim lower r.provider r.external_subject r)) [
      | raised e q ↦ rw q tt
      | returned c q ↦ rw q (Keeps-provision id t c)
    ]
