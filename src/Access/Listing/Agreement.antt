-- ===== src/Access/Listing/Agreement.antt =====
-- `list_collections` and `authorize_collection` of src/access/service.py on the same request.
use lexicon_revision.Prelude.{
  ℕ, Text, text_HasEq, Bool, true, false, not, ◌||◌, Bool-cases, Option, none, some, is_some, [],
  ◌≡◌, refl, ap, ◌∙◌, inl, inr, Result, ok, err, is_ok, returned, raised, run, Action, and_then,
  if◌then◌else◌,
}
use lexicon_revision.Access.Models.{
  RequestIdentity, ResolvedIdentity, AuthorizationContext, CollectionAccess, AffiliationDecision,
  DenyReason, AccessError, identity_provisioning, is_anonymous, is_allowed,
}
use lexicon_revision.Access.Tables.{Tables, get_collection_access}
use lexicon_revision.Access.Affiliation.{resolve_verified_email}
use lexicon_revision.Access.Users.{get_or_create_user_for_identity}
use lexicon_revision.Access.Service.{
  wrapped, is_stub_identity, verified_email, accept_decision, decide_affiliation,
  resolve_affiliation, resolve_user, resolve_identity_with_affiliation, may_read, admit,
  authorize_collection,
}
use lexicon_revision.Access.Listing.{
  compute_access_state, is_accessible, active_membership_community_ids, community_of, id_of_user,
  IsSettled, compute_access_state-may_read,
}

-- The user and the community that `list_collections` lists for: none if the e-mail's domain is
-- unsupported or ambiguous, which are the only errors that carry a code.
unfoldable pub subject_of :
    Result AccessError (ResolvedIdentity × Option AffiliationDecision) × Tables
    → Result AccessError (Option Text × Option Text) × Tables
subject_of (ok resolved, t) = (ok (id_of_user resolved.0.user, community_of resolved.1), t)
subject_of (err (identity_provisioning message (some code)), t) = (ok (none, none), t)
subject_of (err e, t) = (err e, t)

abbrev IsAccepted : Result AccessError (Option AffiliationDecision) → Type 0
IsAccepted (ok affiliation) = IsSettled affiliation
IsAccepted (err e) = Unit

-- a user exactly if the request is not anonymous, and a community if there is an affiliation
abbrev IsResolved :
    Bool → Result AccessError (ResolvedIdentity × Option AffiliationDecision) × Tables → Type 0
IsResolved anonymous (ok resolved, t) =
    (is_some resolved.0.user ≡ not anonymous) × IsSettled resolved.1
IsResolved anonymous (err e, t) = Unit

IsAccepted-accept_decision : (d : AffiliationDecision) → IsAccepted (accept_decision d)
unfolding accept_decision is_allowed
IsAccepted-accept_decision d = elim (Bool-cases (is_some d.community_id)) [
  | inl q ↦ simp (accept_decision, is_allowed, q) refl
  | inr q ↦ simp (accept_decision, is_allowed, q) tt
]

module _ (lower : Text → Text) (now : ℕ) (has_resolver : Bool) (new_user_id : Text) where
  unfoldable pub listing_subject :
      RequestIdentity → Action Tables AccessError (Option Text × Option Text)
  listing_subject r t =
      if is_anonymous r
      then (ok (none, none), t)
      else subject_of (resolve_identity_with_affiliation lower now has_resolver new_user_id r t)

  IsAccepted-decide_affiliation :
      (t : Tables) (email : Option Text)
      → IsAccepted (decide_affiliation lower now has_resolver new_user_id t email)
  unfolding decide_affiliation
  IsAccepted-decide_affiliation t none = tt
  IsAccepted-decide_affiliation t (some email) = elim (Bool-cases has_resolver) [
    | inr q ↦ simp (decide_affiliation, q) tt
    | inl q ↦ elim (run (wrapped (resolve_verified_email lower now t email))) [
      | raised e p ↦ simp (decide_affiliation, q, p) tt
      | returned d p ↦ simp (decide_affiliation, q, p) (IsAccepted-accept_decision d)
    ]
  ]

  IsAccepted-resolve_affiliation :
      (t : Tables) (r : RequestIdentity)
      → IsAccepted (resolve_affiliation lower now has_resolver new_user_id t r)
  unfolding resolve_affiliation
  IsAccepted-resolve_affiliation t r =
      elim (Bool-cases (is_anonymous r || is_stub_identity r.provider)) [
        | inl q ↦ simp (resolve_affiliation, q) tt
        | inr q ↦
            simp (resolve_affiliation, q)
              (IsAccepted-decide_affiliation t (verified_email r r.email))
      ]

  IsResolved-resolve_user :
      (r : RequestIdentity) (affiliation : Option AffiliationDecision) (t : Tables)
      → IsSettled affiliation
      → IsResolved false (resolve_user lower now has_resolver new_user_id r affiliation t)
  unfolding resolve_user
  IsResolved-resolve_user r affiliation t h =
      elim (run (wrapped (get_or_create_user_for_identity lower new_user_id t r))) [
        | raised e q ↦ simp (resolve_user, q) tt
        | returned a q ↦ simp (resolve_user, q) (refl, h)
      ]

  IsResolved-resolve_identity :
      (r : RequestIdentity) (t : Tables)
      → IsResolved
          (is_anonymous r)
          (resolve_identity_with_affiliation lower now has_resolver new_user_id r t)
  unfolding resolve_identity_with_affiliation
  IsResolved-resolve_identity r t = elim (Bool-cases (is_anonymous r)) [
    | inl q ↦ simp (resolve_identity_with_affiliation, q) (refl, tt)
    | inr q ↦ elim (run (resolve_affiliation lower now has_resolver new_user_id t r)) [
      | raised e p ↦ simp (resolve_identity_with_affiliation, q, p) tt
      | returned a p ↦
          simp (resolve_identity_with_affiliation, q, p)
            (IsResolved-resolve_user r a t (rw p at (IsAccepted-resolve_affiliation t r)))
    ]
  ]

  abbrev Subject : Type 0
  Subject = Result AccessError (Option Text × Option Text) × Tables

  abbrev Resolution : Type 0
  Resolution = Result AccessError (ResolvedIdentity × Option AffiliationDecision) × Tables

  listing_subject_resolved :
      (r : RequestIdentity) (t s : Tables)
      (resolved : ResolvedIdentity × Option AffiliationDecision)
      → ◌≡◌ {A = Resolution}
          (resolve_identity_with_affiliation lower now has_resolver new_user_id r t)
          (ok resolved, s)
      → ◌≡◌ {A = Subject}
          (listing_subject r t)
          (ok (id_of_user resolved.0.user, community_of resolved.1), s)
  unfolding listing_subject subject_of resolve_identity_with_affiliation
  listing_subject_resolved r t s resolved e = elim (Bool-cases (is_anonymous r)) [
    | inl q ↦
        simp (listing_subject, q)
          (ap (λ (x : Resolution). subject_of x) (simp (resolve_identity_with_affiliation, q) at e))
    | inr q ↦
        simp (listing_subject, q)
          (ap (λ (x : Resolution). subject_of x) (simp (resolve_identity_with_affiliation, q) at e))
  ]

  admit-is_accessible :
      (name : Text) (collection : CollectionAccess) (r : RequestIdentity) (display : Option Text)
      (x : Resolution) (resolved : ResolvedIdentity × Option AffiliationDecision) (s : Tables)
      → x ≡ (ok resolved, s)
      → IsResolved (is_anonymous r) x
      → is_accessible
          (compute_access_state r collection.community_id display
            (community_of resolved.1)
            (active_membership_community_ids s (id_of_user resolved.0.user))).0
        ≡ is_ok (and_then x (admit name collection)).0
  unfolding admit
  admit-is_accessible name collection r display x resolved s e h =
      compute_access_state-may_read s r resolved.0.user resolved.1 collection.community_id display
        (rw e at h).0 (rw e at h).1
      ∙ rw e passes
    where
      passes :
          may_read s resolved.0.user resolved.1 collection.community_id
          ≡ is_ok (admit name collection resolved s).0
      passes = elim (Bool-cases (may_read s resolved.0.user resolved.1 collection.community_id)) [
        | inl q ↦ simp (admit, q)
        | inr q ↦ simp (admit, q)
      ]

  -- If the identity of a request resolves, then `list_collections` lists for the user and community
  -- that it resolves to, and shows a collection as accessible exactly if `authorize_collection` of the
  -- same request passes.
  pub authorize_collection-is_accessible :
      (collection_name : Text) (collection : CollectionAccess) (r : RequestIdentity)
      (display : Option Text) (t s : Tables)
      (resolved : ResolvedIdentity × Option AffiliationDecision)
      → get_collection_access t collection_name ≡ some collection
      → ◌≡◌ {A = Resolution}
          (resolve_identity_with_affiliation lower now has_resolver new_user_id r t)
          (ok resolved, s)
      → (◌≡◌ {A = Subject}
          (listing_subject r t)
          (ok (id_of_user resolved.0.user, community_of resolved.1), s))
        × (is_accessible
              (compute_access_state r collection.community_id display
                (community_of resolved.1)
                (active_membership_community_ids s (id_of_user resolved.0.user))).0
            ≡ is_ok (authorize_collection lower now has_resolver new_user_id collection_name r t).0)
  unfolding authorize_collection
  authorize_collection-is_accessible name collection r display t s resolved e f = (
    listing_subject_resolved r t s resolved f,
    simp (authorize_collection, e)
        (admit-is_accessible name collection r display
          (resolve_identity_with_affiliation lower now has_resolver new_user_id r t) resolved s f
          (IsResolved-resolve_identity r t)),
  )

  -- If the e-mail's domain of a request is unsupported or ambiguous, then `list_collections` still shows
  -- public collections as accessible, but `authorize_collection` raises for them too.
  pub authorize_collection-unsupported :
      (collection_name : Text) (collection : CollectionAccess) (r : RequestIdentity)
      (display : Option Text) (t : Tables) (message : Text) (code : DenyReason)
      → get_collection_access t collection_name ≡ some collection
      → collection.community_id ≡ none
      → is_anonymous r ≡ false
      → resolve_affiliation lower now has_resolver new_user_id t r
        ≡ err (identity_provisioning message (some code))
      → (◌≡◌ {A = Subject} (listing_subject r t) (ok (none, none), t))
        × (is_accessible (compute_access_state r collection.community_id display none []).0 ≡ true)
        × (◌≡◌ {A = Result AccessError AuthorizationContext × Tables}
            (authorize_collection lower now has_resolver new_user_id collection_name r t)
            (err (identity_provisioning message (some code)), t))
  unfolding authorize_collection listing_subject subject_of resolve_identity_with_affiliation
      compute_access_state is_accessible
  authorize_collection-unsupported name collection r display t message code e f g h = (
    simp (listing_subject, resolve_identity_with_affiliation, g, h),
    simp (compute_access_state, f),
    simp (authorize_collection, resolve_identity_with_affiliation, e, g, h),
  )
