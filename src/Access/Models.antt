-- ===== src/Access/Models.antt =====
-- src/access/models.py, errors.py and the records of affiliation.py.
use lexicon_revision.Prelude.{Text, codes, Bool, false, not, ◌||◌, Option, none, is_some}

abbrev pub stub_email_identity_provider : Text
stub_email_identity_provider = codes "stub_header"

pub record AuthenticatedUser : Type 0 where
  pub user_id : Text
  pub email : Text

pub record RequestIdentity : Type 0 where
  pub provider : Option Text
  pub external_subject : Option Text
  pub email : Option Text
  pub email_verified : Bool

abbrev pub anonymous : RequestIdentity
anonymous = record {
  provider = none;
  external_subject = none;
  email = none;
  email_verified = false;
}

unfoldable pub is_authenticated : RequestIdentity → Bool
is_authenticated r = is_some r.provider || is_some r.external_subject || is_some r.email

unfoldable pub is_anonymous : RequestIdentity → Bool
unfolding is_authenticated
is_anonymous r = not (is_authenticated r)

pub record CollectionAccess : Type 0 where
  pub collection_id : Text
  pub collection_name : Text
  pub community_id : Option Text

pub record ResolvedIdentity : Type 0 where
  pub request_identity : RequestIdentity
  pub user : Option AuthenticatedUser

pub record AuthorizationContext : Type 0 where
  pub collection : CollectionAccess
  pub identity : ResolvedIdentity

pub data CollectionAccessState : Type 0 where
  accessible locked_requires_signin locked_wrong_affiliation : CollectionAccessState

pub record ManualAccessOverride : Type 0 where
  pub email : Text
  pub community_id : Text
  pub note : Option Text

pub data DenyReason : Type 0 where
  unsupported_email_domain ambiguous_email_domain : DenyReason

pub record AffiliationDecision : Type 0 where
  pub community_id : Option Text
  pub deny_reason : Option DenyReason

unfoldable pub is_allowed : AffiliationDecision → Bool
is_allowed d = is_some d.community_id

-- What the access code raises. `value_error` is Python's `ValueError`, `no_row` is what `.one()`
-- raises on an empty result.
pub data AccessError : Type 0 where
  value_error : Text → AccessError
  no_row : AccessError
  collection_not_found : Text → AccessError
  collection_access_denied : Text → AccessError
  identity_provisioning : Text → Option DenyReason → AccessError
