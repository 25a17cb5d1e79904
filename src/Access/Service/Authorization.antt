-- ===== src/Access/Service/Authorization.antt =====
-- Who passes `authorize_collection` of src/access/service.py.
use lexicon_revision.Prelude.{
  ℕ, Text, text_HasEq, ◌==◌, Bool, true, false, Option, none, some, ◌≡◌, refl, ap, is_ok, Result,
  ok, err, Bool-cases, Option-cases, inl, inr, arith, ◌⊎◌, and_then, text_eq_iff, text_eq, ==-refl,
  if◌then◌else◌,
}
use mathlib.Core.Path.{subst}
use lexicon_revision.Access.Models.{
  RequestIdentity, AuthenticatedUser, ResolvedIdentity, AuthorizationContext, CollectionAccess,
  AffiliationDecision, AccessError, is_anonymous, collection_not_found, collection_access_denied,
}
use lexicon_revision.Access.Tables.{
  Tables, has_active_membership, ensure_active_membership, get_collection_access,
}
use lexicon_revision.Access.Tables.Memberships.{has_active_membership-ensure_active_membership}
use lexicon_revision.Access.Users.{get_or_create_user_for_identity}
use lexicon_revision.Access.Service.{
  wrapped, resolve_affiliation, join_affiliation, resolve_user, resolve_identity_with_affiliation,
  wrong_affiliation, may_read, admit, authorize_collection,
}
use lexicon_revision.Access.Service.Memberships.{
  OnlyJoins, affiliation_of, OnlyJoins-resolve_identity_with_affiliation,
}

-- The collection is public, or the user is known and an active member of its community.
abbrev pub MayRead : Tables → AuthorizationContext → Type 0
MayRead t context =
    (context.collection.community_id ≡ none)
    ⊎ ((user : AuthenticatedUser) × (community_id : Text) × (context.identity.user ≡ some user)
        × (context.collection.community_id ≡ some community_id)
        × (has_active_membership t user.user_id community_id ≡ true))

may_read-MayRead :
    (t : Tables) (collection : CollectionAccess) (identity : ResolvedIdentity)
    (affiliation : Option AffiliationDecision)
    → may_read t identity.user affiliation collection.community_id ≡ true
    → MayRead t (record { collection = collection; identity = identity })
unfolding may_read
may_read-MayRead t collection identity affiliation h = elim (Option-cases collection.community_id) [
  | inl e ↦ inl e
  | inr (c, e) ↦ elim (Option-cases identity.user) [
    | inl f ↦ absurd (nobody c (rw (e, f) at h))
    | inr (user, f) ↦ inr (user, c, f, e, member user c (rw (e, f) at h))
  ]
]
  where
    nobody : (c : Text) → may_read t none affiliation (some c) ≡ true → ⊥
    nobody c q = cc

    member :
        (user : AuthenticatedUser) (c : Text)
        → may_read t (some user) affiliation (some c) ≡ true
        → has_active_membership t user.user_id c ≡ true
    member user c q = ground arith

abbrev pub Outcome : Type 0
Outcome = Result AccessError AuthorizationContext × Tables

raised_not_ok :
    (e : AccessError) (context : AuthorizationContext) (s t : Tables)
    → ◌≡◌ {A = Outcome} (err e, s) (ok context, t)
    → ⊥
raised_not_ok e context s t h = absurd (not_ok (ap (λ (o : Outcome). is_ok o.0) h))
  where
    not_ok : false ≡ true → ⊥
    not_ok q = cc

carry_over :
    (c d : AuthorizationContext) (s t : Tables)
    → ◌≡◌ {A = Outcome} (ok c, s) (ok d, t)
    → MayRead s c
    → (some c.collection ≡ some d.collection) × MayRead t d
carry_over c d s t h m = (
  ap (λ (o : Outcome). elim o.0 [ ok x ↦ some x.collection | err e ↦ none ]) h,
  subst_context (ap (λ (o : Outcome). elim o.0 [ ok x ↦ x | err e ↦ c ]) h)
      (ap (λ (o : Outcome). o.1) h),
)
  where
    subst_context : c ≡ d → s ≡ t → MayRead t d
    subst_context p q =
        subst (λ (x : Tables). MayRead x d) q
          (subst (λ (x : AuthorizationContext). MayRead s x) p m)

admit-MayRead :
    (name : Text) (collection : CollectionAccess)
    (resolved : Result AccessError (ResolvedIdentity × Option AffiliationDecision) × Tables)
    (context : AuthorizationContext) (t' : Tables)
    → ◌≡◌ {A = Outcome} (and_then resolved (admit name collection)) (ok context, t')
    → (some collection ≡ some context.collection) × MayRead t' context
unfolding admit
admit-MayRead name collection (err e, s) context t' h = absurd (raised_not_ok e context s t' h)
admit-MayRead name collection (ok (identity, affiliation), s) context t' h =
    elim (Bool-cases (may_read s identity.user affiliation collection.community_id)) [
      | inr q ↦ absurd (raised_not_ok (collection_access_denied name) context s t' (rw q at h))
      | inl q ↦
          carry_over (record { collection = collection; identity = identity }) context s t'
            (rw q at h) (may_read-MayRead s collection identity affiliation q)
    ]

-- what an anonymous request gets
unfoldable pub public_only :
    Text → Option CollectionAccess → RequestIdentity → Result AccessError AuthorizationContext
public_only collection_name none r = err (collection_not_found collection_name)
public_only collection_name (some collection) r = elim collection.community_id [
  | none ↦
      ok (record {
        collection = collection;
        identity = record { request_identity = r; user = none };
      })
  | some _ ↦ err (collection_access_denied collection_name)
]

module _ (lower : Text → Text) (now : ℕ) (has_resolver : Bool) (new_user_id : Text) where
  -- What passes is the collection of that name, and the user may read it in the tables that the call
  -- left: it is public, or the user is an active member of its community.
  pub authorize_collection-MayRead :
      (collection_name : Text) (r : RequestIdentity) (t t' : Tables)
      (context : AuthorizationContext)
      → ◌≡◌ {A = Outcome}
          (authorize_collection lower now has_resolver new_user_id collection_name r t)
          (ok context, t')
      → (get_collection_access t collection_name ≡ some context.collection) × MayRead t' context
  unfolding authorize_collection
  authorize_collection-MayRead name r t t' context h =
      elim (Option-cases (get_collection_access t name)) [
        | inl e ↦ absurd (
            raised_not_ok (collection_not_found name) context t t'
              (rw (authorize_collection, e) at h))
        | inr (collection, e) ↦ rw e (
            admit-MayRead name collection
              (resolve_identity_with_affiliation lower now has_resolver new_user_id r t) context t'
              (rw (authorize_collection, e) at h))
      ]

  -- An anonymous request reads public collections and no others, and changes nothing.
  pub authorize_collection-public_only :
      (collection_name : Text) (r : RequestIdentity) (t : Tables)
      → is_anonymous r ≡ true
      → authorize_collection lower now has_resolver new_user_id collection_name r t
        ≡ (public_only collection_name (get_collection_access t collection_name) r, t)
  unfolding authorize_collection public_only resolve_identity_with_affiliation admit may_read
  authorize_collection-public_only name r t h = elim (Option-cases (get_collection_access t name)) [
    | inl e ↦ rw (authorize_collection, e) refl
    | inr (collection, e) ↦ elim (Option-cases collection.community_id) [
      | inl f ↦ simp (authorize_collection, resolve_identity_with_affiliation, admit, e, h, f)
      | inr (c, f) ↦ simp (authorize_collection, resolve_identity_with_affiliation, admit, e, h, f)
    ]
  ]

  admit-state :
      (name : Text) (collection : CollectionAccess)
      (resolved : Result AccessError (ResolvedIdentity × Option AffiliationDecision) × Tables)
      → (and_then resolved (admit name collection)).1 ≡ resolved.1
  unfolding admit
  admit-state name collection (err e, s) = refl
  admit-state name collection (ok (identity, affiliation), s) =
      elim (Bool-cases (may_read s identity.user affiliation collection.community_id)) [
        | inl q ↦ rw q refl
        | inr q ↦ rw q refl
      ]

  -- Whatever the call answers, it takes no active membership away, and the only community that it
  -- may add one of is the one that the e-mail of the request decides.
  pub OnlyJoins-authorize_collection :
      (collection_name : Text) (r : RequestIdentity) (t : Tables)
      → OnlyJoins
          (affiliation_of lower now has_resolver new_user_id r t)
          t
          (authorize_collection lower now has_resolver new_user_id collection_name r t).1
  unfolding authorize_collection
  OnlyJoins-authorize_collection name r t = elim (Option-cases (get_collection_access t name)) [
    | inl e ↦ rw (authorize_collection, e) (λ u c. (λ h. inl h, λ h. h))
    | inr (collection, e) ↦
        rw
          (
            authorize_collection,
            e,
            admit-state name collection
                (resolve_identity_with_affiliation lower now has_resolver new_user_id r t),
          )
          (OnlyJoins-resolve_identity_with_affiliation lower now has_resolver new_user_id r t)
  ]

  -- A request with an affiliation becomes an active member of its community, and passes to a
  -- collection of a community exactly if that is the one.
  pub authorize_collection-affiliation :
      (collection_name : Text) (r : RequestIdentity) (t t' : Tables) (collection : CollectionAccess)
      (community_id : Text) (decision : AffiliationDecision) (home : Text)
      (user : AuthenticatedUser)
      → get_collection_access t collection_name ≡ some collection
      → collection.community_id ≡ some community_id
      → is_anonymous r ≡ false
      → resolve_affiliation lower now has_resolver new_user_id t r ≡ ok (some decision)
      → decision.community_id ≡ some home
      → get_or_create_user_for_identity lower new_user_id t r ≡ ok (user, t')
      → authorize_collection lower now has_resolver new_user_id collection_name r t ≡ (
        if home == community_id
            then ok (record {
              collection = collection;
              identity = record { request_identity = r; user = some user };
            })
            else err (collection_access_denied collection_name),
        ensure_active_membership t' user.user_id home,
      )
  unfolding authorize_collection resolve_identity_with_affiliation resolve_user wrapped
      join_affiliation admit may_read wrong_affiliation
  authorize_collection-affiliation name r t t' collection c decision home user e f g h k l =
      elim (Bool-cases (text_eq home c)) [
        | inr q ↦ simp (
          authorize_collection, resolve_identity_with_affiliation, resolve_user, wrapped,
          join_affiliation, admit, may_read, wrong_affiliation, e, f, g, h, k, l, q,
        )
        | inl q ↦ simp (
          authorize_collection,
          resolve_identity_with_affiliation,
          resolve_user,
          wrapped,
          join_affiliation,
          admit,
          may_read,
          wrong_affiliation,
          e,
          f,
          g,
          h,
          k,
          l,
          q,
          member ((text_eq_iff home c).0 q),
        )
      ]
    where
      member :
          home ≡ c
          → has_active_membership (ensure_active_membership t' user.user_id home) user.user_id c
            ≡ true
      member q = ground (
        arith,
        has_active_membership-ensure_active_membership t' user.user_id home user.user_id c,
        ==-refl user.user_id,
        ==-refl c,
        q,
      )
