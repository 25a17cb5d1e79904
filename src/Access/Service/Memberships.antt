-- ===== src/Access/Service/Memberships.antt =====
-- What src/access/service.py does to the memberships.
use lexicon_revision.Prelude.{
  ℕ, Text, text_HasEq, Bool, true, false, Option, none, some, ◌≡◌, text_eq_iff, refl, sym, ok, err,
  returned, raised, run, Bool-cases, Option-cases, inl, inr, arith, ◌⊎◌,
}
use lexicon_revision.Access.Models.{
  RequestIdentity, AuthenticatedUser, AffiliationDecision, is_anonymous,
}
use lexicon_revision.Access.Tables.{Tables, has_active_membership, ensure_active_membership}
use lexicon_revision.Access.Tables.Memberships.{has_active_membership-ensure_active_membership}
use lexicon_revision.Access.Users.{get_or_create_user_for_identity}
use lexicon_revision.Access.Users.Memberships.{Keeps-get_or_create_user_for_identity}
use lexicon_revision.Access.Service.{
  wrapped, resolve_affiliation, join_affiliation, resolve_user, resolve_identity_with_affiliation,
}

-- the decision names the community
abbrev pub Names : Option AffiliationDecision → Text → Type 0
Names none community_id = ⊥
Names (some decision) community_id = (decision.community_id ≡ some community_id)

-- A membership that is active after was active before, unless the decision named its community, and
-- one that was active before still is.
abbrev pub OnlyJoins : Option AffiliationDecision → Tables → Tables → Type 0
OnlyJoins affiliation t t' =
    (user_id community_id : Text)
    → ((has_active_membership t' user_id community_id ≡ true)
        → (has_active_membership t user_id community_id ≡ true) ⊎ Names affiliation community_id)
      × (has_active_membership t user_id community_id ≡ true
          → has_active_membership t' user_id community_id ≡ true)

OnlyJoins-refl :
    (affiliation : Option AffiliationDecision) (t t' : Tables)
    → t'.memberships ≡ t.memberships
    → OnlyJoins affiliation t t'
unfolding has_active_membership
OnlyJoins-refl affiliation t t' e u c = (λ h. inl (rw (sym e) h), λ h. rw e h)

OnlyJoins-trans :
    (affiliation : Option AffiliationDecision) (t t' t'' : Tables)
    → t'.memberships ≡ t.memberships
    → OnlyJoins affiliation t' t''
    → OnlyJoins affiliation t t''
unfolding has_active_membership
OnlyJoins-trans affiliation t t' t'' e h u c =
    (λ k. rw (sym e) ((h u c).0 k), λ k. (h u c).1 (rw e k))

joins_one :
    (t : Tables) (u c v k : Text)
    → has_active_membership (ensure_active_membership t u c) v k ≡ true
    → (has_active_membership t v k ≡ true) ⊎ (some c ≡ some k)
joins_one t u c v k h = elim (Bool-cases (has_active_membership t v k)) [
  | inl q ↦ inl q
  | inr q ↦ inr (named q)
]
  where
    named : has_active_membership t v k ≡ false → some c ≡ some k
    named q =
        ground (arith, has_active_membership-ensure_active_membership t u c v k, text_eq_iff k c)

keeps_active :
    (t : Tables) (u c v k : Text)
    → has_active_membership t v k ≡ true
    → has_active_membership (ensure_active_membership t u c) v k ≡ true
keeps_active t u c v k h = ground (arith, has_active_membership-ensure_active_membership t u c v k)

OnlyJoins-join_affiliation :
    (t : Tables) (u : Text) (affiliation : Option AffiliationDecision)
    → OnlyJoins affiliation t (join_affiliation t u affiliation)
unfolding join_affiliation
OnlyJoins-join_affiliation t u none = OnlyJoins-refl none t t refl
OnlyJoins-join_affiliation t u (some d) = elim (Option-cases d.community_id) [
  | inl e ↦ rw e (λ v k. (λ h. inl h, λ h. h))
  | inr (c, e) ↦ rw e (λ v k. (joins_one t u c v k, keeps_active t u c v k))
]

module _ (lower : Text → Text) (now : ℕ) (has_resolver : Bool) (new_user_id : Text) where
  OnlyJoins-resolve_user :
      (r : RequestIdentity) (affiliation : Option AffiliationDecision) (t : Tables)
      → OnlyJoins affiliation t (resolve_user lower now has_resolver new_user_id r affiliation t).1
  unfolding resolve_user wrapped
  OnlyJoins-resolve_user r affiliation t =
      elim (run (get_or_create_user_for_identity lower new_user_id t r)) [
        | raised e q ↦ rw (resolve_user, wrapped, q) (OnlyJoins-refl affiliation t t refl)
        | returned a q ↦
            joined a q (rw q at (Keeps-get_or_create_user_for_identity lower new_user_id t r))
      ]
    where
      joined :
          (a : AuthenticatedUser × Tables)
          → get_or_create_user_for_identity lower new_user_id t r ≡ ok a
          → a.1.memberships ≡ t.memberships
          → OnlyJoins affiliation t
              (resolve_user lower now has_resolver new_user_id r affiliation t).1
      joined a q k =
          rw (resolve_user, wrapped, q)
            (OnlyJoins-trans affiliation t a.1 (join_affiliation a.1 a.0.user_id affiliation) k
              (OnlyJoins-join_affiliation a.1 a.0.user_id affiliation))

  -- the decision on the e-mail of a request, if there is one
  unfoldable pub affiliation_of : RequestIdentity → Tables → Option AffiliationDecision
  affiliation_of r t = elim (resolve_affiliation lower now has_resolver new_user_id t r) [
    | err e ↦ none
    | ok a ↦ a
  ]

  pub OnlyJoins-resolve_identity_with_affiliation :
      (r : RequestIdentity) (t : Tables)
      → OnlyJoins
          (affiliation_of r t)
          t
          (resolve_identity_with_affiliation lower now has_resolver new_user_id r t).1
  unfolding resolve_identity_with_affiliation affiliation_of
  OnlyJoins-resolve_identity_with_affiliation r t = elim (Bool-cases (is_anonymous r)) [
    | inl q ↦
        rw (resolve_identity_with_affiliation, q) (OnlyJoins-refl (affiliation_of r t) t t refl)
    | inr q ↦ elim (run (resolve_affiliation lower now has_resolver new_user_id t r)) [
      | raised e p ↦
          rw (resolve_identity_with_affiliation, affiliation_of, q, p)
            (OnlyJoins-refl none t t refl)
      | returned a p ↦
          rw (resolve_identity_with_affiliation, affiliation_of, q, p)
            (OnlyJoins-resolve_user r a t)
    ]
  ]
