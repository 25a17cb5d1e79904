-- ===== src/Access/Service.antt =====
-- src/access/service.py: identities, affiliation and authorization. Each repository call commits,
-- so what happened before a raise stays in the tables.
pub mod Memberships
pub mod Authorization
use lexicon_revision.Prelude.{
  ℕ, Text, text_HasEq, codes, ◌==◌, Bool, true, false, not, ◌||◌, Option, none, some, is_empty,
  Result, ok, err, Action, and_then, if◌then◌else◌,
}
use lexicon_revision.Access.Models.{
  RequestIdentity, AuthenticatedUser, ResolvedIdentity, CollectionAccess, AuthorizationContext,
  AffiliationDecision, DenyReason, unsupported_email_domain, ambiguous_email_domain, is_anonymous,
  is_allowed, stub_email_identity_provider, AccessError, value_error, collection_not_found,
  collection_access_denied, identity_provisioning,
}
use lexicon_revision.Access.Tables.{
  Tables, has_active_membership, ensure_active_membership, get_collection_access,
}
use lexicon_revision.Access.Affiliation.{resolve_verified_email}
use lexicon_revision.Access.Users.{get_or_create_user_for_identity}

abbrev pub deny_text : DenyReason → Text
deny_text unsupported_email_domain = codes "unsupported_email_domain"
deny_text ambiguous_email_domain = codes "ambiguous_email_domain"

-- `decision.deny_reason or "unsupported_authenticated_identity"`
abbrev pub deny_message : Option DenyReason → Text
deny_message none = codes "unsupported_authenticated_identity"
deny_message (some reason) = deny_text reason

abbrev pub verified_email_required : AccessError
verified_email_required =
    identity_provisioning (codes "verified email is required for external identity provisioning")
      none

abbrev pub resolver_required : AccessError
resolver_required =
    identity_provisioning
      (codes "affiliation_resolver is required for authenticated external identities") none

-- `except ValueError as exc: raise IdentityProvisioningError(str(exc))`
unfoldable pub wrap_value_error : AccessError → AccessError
wrap_value_error (value_error message) = identity_provisioning message none
wrap_value_error other = other

unfoldable pub wrapped : {A : Type 0} → Result AccessError A → Result AccessError A
wrapped (ok a) = ok a
wrapped (err e) = err (wrap_value_error e)

unfoldable pub is_stub_identity : Option Text → Bool
is_stub_identity none = false
is_stub_identity (some provider) = provider == stub_email_identity_provider

-- the e-mail, if the identity has one that is verified and not empty
unfoldable pub verified_email : RequestIdentity → Option Text → Option Text
verified_email r none = none
verified_email r (some email) = if not r.email_verified || is_empty email then none else some email

unfoldable pub accept_decision :
    AffiliationDecision → Result AccessError (Option AffiliationDecision)
accept_decision decision =
    if is_allowed decision
    then ok (some decision)
    else err (identity_provisioning (deny_message decision.deny_reason) decision.deny_reason)

-- `ensure_active_membership`, if there is an affiliation with a community
unfoldable pub join_affiliation : Tables → Text → Option AffiliationDecision → Tables
join_affiliation t user_id none = t
join_affiliation t user_id (some decision) = elim decision.community_id [
  | none ↦ t
  | some community_id ↦ ensure_active_membership t user_id community_id
]

-- `affiliation is not None and affiliation.community_id != collection.community_id`
unfoldable pub wrong_affiliation : Option AffiliationDecision → Text → Bool
wrong_affiliation none community_id = false
wrong_affiliation (some decision) community_id = elim decision.community_id [
  | none ↦ true
  | some c ↦ not (c == community_id)
]

-- the checks of `authorize_collection` for a collection of a community
unfoldable pub may_read :
    Tables → Option AuthenticatedUser → Option AffiliationDecision → Option Text → Bool
may_read t user affiliation none = true
may_read t none affiliation (some community_id) = false
may_read t (some user) affiliation (some community_id) =
    if wrong_affiliation affiliation community_id
    then false
    else has_active_membership t user.user_id community_id

unfoldable pub admit :
    Text
    → CollectionAccess
    → ResolvedIdentity × Option AffiliationDecision
    → Action Tables AccessError AuthorizationContext
admit collection_name collection resolved t =
    if may_read t resolved.0.user resolved.1 collection.community_id
    then (ok (record { collection = collection; identity = resolved.0 }), t)
    else (err (collection_access_denied collection_name), t)

-- `lower` and `now` are the standard library's; `has_resolver` says whether the service was built
-- with an affiliation resolver; `new_user_id` is the `uuid4()` that a call may draw.
module _ (lower : Text → Text) (now : ℕ) (has_resolver : Bool) (new_user_id : Text) where
  unfoldable pub decide_affiliation :
      Tables → Option Text → Result AccessError (Option AffiliationDecision)
  decide_affiliation t none = err verified_email_required
  decide_affiliation t (some email) =
      if not has_resolver
      then err resolver_required
      else elim (wrapped (resolve_verified_email lower now t email)) [
        | err e ↦ err e
        | ok decision ↦ accept_decision decision
      ]

  unfoldable pub resolve_affiliation :
      Tables → RequestIdentity → Result AccessError (Option AffiliationDecision)
  resolve_affiliation t r =
      if is_anonymous r || is_stub_identity r.provider
      then ok none
      else decide_affiliation t (verified_email r r.email)

  -- the second half of `_resolve_identity_with_affiliation`
  unfoldable pub resolve_user :
      RequestIdentity
      → Option AffiliationDecision
      → Action Tables AccessError (ResolvedIdentity × Option AffiliationDecision)
  resolve_user r affiliation t =
      elim (wrapped (get_or_create_user_for_identity lower new_user_id t r)) [
        | err e ↦ (err e, t)
        | ok (user, t') ↦ (
          ok (record { request_identity = r; user = some user }, affiliation),
          join_affiliation t' user.user_id affiliation,
        )
      ]

  unfoldable pub resolve_identity_with_affiliation :
      RequestIdentity → Action Tables AccessError (ResolvedIdentity × Option AffiliationDecision)
  resolve_identity_with_affiliation r t =
      if is_anonymous r
      then (ok (record { request_identity = r; user = none }, none), t)
      else and_then (resolve_affiliation t r, t) (resolve_user r)

  unfoldable pub resolve_identity : RequestIdentity → Action Tables AccessError ResolvedIdentity
  resolve_identity r t =
      and_then (resolve_identity_with_affiliation r t) (λ resolved s. (ok resolved.0, s))

  unfoldable pub authorize_collection :
      Text → RequestIdentity → Action Tables AccessError AuthorizationContext
  authorize_collection collection_name r t = elim (get_collection_access t collection_name) [
    | none ↦ (err (collection_not_found collection_name), t)
    | some collection ↦
        and_then (resolve_identity_with_affiliation r t) (admit collection_name collection)
  ]
