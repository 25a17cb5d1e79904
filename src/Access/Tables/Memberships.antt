-- ===== src/Access/Tables/Memberships.antt =====
-- The memberships after `ensure_active_membership` of src/access/repository.py.
use lexicon_revision.Prelude.{
  text_eq_comm, Text, text_HasEq, ◌==◌, Bool, true, false, ◌&&◌, ◌||◌, List, [], ◌∷◌, ◌≡◌, refl,
  is_some, arith, text_eq_iff, text_eq, Bool-cases, inl, inr,
}
use lexicon_revision.Access.Tables.{
  Tables, MembershipRow, active, first, is_member, upsert_active, ensure_active_membership,
  has_active_membership, is_active_status,
}

-- whether some row has the property
unfoldable has_row {ℓ} : {A : Type ℓ} → (A → Bool) → List A → Bool
has_row p [] = false
has_row p (x ∷ xs) = p x || has_row p xs

first-has_row {ℓ} : {A : Type ℓ} (p : A → Bool) (xs : List A) → is_some (first p xs) ≡ has_row p xs
unfolding first has_row
first-has_row p [] = refl
first-has_row p (x ∷ xs) = ground (arith, first-has_row p xs)

-- the test on the row that is changed or stays
is_member_activated :
    (u c v d : Text) (m : MembershipRow)
    → text_eq m.user_id u ≡ true
    → text_eq m.community_id c ≡ true
    → is_member v d (record m { status = active }) ≡ text_eq v u && text_eq d c
unfolding is_member is_active_status
is_member_activated u c v d m p q = ground (
  arith,
  (text_eq_iff m.user_id u).0 p,
  (text_eq_iff m.community_id c).0 q,
  text_eq_comm v u,
  text_eq_comm d c,
)

is_member_upserted :
    (u c v d : Text) (ms : List MembershipRow)
    → has_row (is_member v d) (upsert_active u c ms)
      ≡ (text_eq v u && text_eq d c) || has_row (is_member v d) ms
unfolding has_row upsert_active is_member is_active_status
is_member_upserted u c v d [] = ground (arith, text_eq_comm v u, text_eq_comm d c)
is_member_upserted u c v d (m ∷ ms) =
    elim (Bool-cases (text_eq m.user_id u && text_eq m.community_id c)) [
      | inl q ↦ ground (arith, is_member_activated u c v d m)
      | inr q ↦ ground (arith, is_member_upserted u c v d ms)
    ]

-- After the call the user is an active member of the community, and nobody's membership in another
-- community changed.
pub has_active_membership-ensure_active_membership :
    (t : Tables) (u c v d : Text)
    → has_active_membership (ensure_active_membership t u c) v d
      ≡ (v == u && d == c) || has_active_membership t v d
unfolding has_active_membership ensure_active_membership
has_active_membership-ensure_active_membership t u c v d =
    rw
      (
        first-has_row (is_member v d) (upsert_active u c t.memberships),
        first-has_row (is_member v d) t.memberships,
        is_member_upserted u c v d t.memberships,
      )
      refl
