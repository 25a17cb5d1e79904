-- ===== src/Access/Tests.antt =====
-- A university with one rule, a public and a restricted collection, and requests for them.
use lexicon_revision.Prelude.{
  Option, is_ok, Result, Text, text_HasEq, text_eq, codes, contains, to_set, filter, strip, rstrip,
  lstrip, is_space, ends_with, true, none, some, [], ◌∷◌, ◌≡◌, ◌↔◌, refl, ok, err, ◌==◌,
  if◌then◌else◌,
}
use lexicon_revision.Access.Listing.{
  compute_access_state, is_accessible, active_membership_community_ids,
}
use lexicon_revision.Access.Listing.Agreement.{
  listing_subject, authorize_collection-is_accessible, authorize_collection-unsupported,
}
use lexicon_revision.Access.Models.{
  ResolvedIdentity, AccessError, identity_provisioning, unsupported_email_domain, RequestIdentity,
  AuthenticatedUser, AuthorizationContext, CollectionAccess, AffiliationDecision, anonymous,
  is_anonymous, is_authenticated, is_allowed, collection_access_denied,
}
use lexicon_revision.Access.Email.{
  normalize_email, require_normalized_email, email_domain, partition_at, nonblank,
}
use lexicon_revision.Access.Tables.{
  Tables, active, EmailDomainRow, suffix, first, is_active_status, is_member, has_active_membership,
  upsert_active, ensure_active_membership, get_collection_access, in_force, domain_rule_matches,
  matching_rules, get_manual_access_override, list_matching_communities_for_email_domain,
}
use lexicon_revision.Access.Tables.Rules.{Covers, domain_rule_matches-Covers}
use lexicon_revision.Access.Affiliation.{
  decide_community, decide_matches, resolve_by_domain, resolve_verified_email,
}
use lexicon_revision.Access.Affiliation.Decision.{Decides, resolve_verified_email-Decides}
use lexicon_revision.Access.Users.{
  is_stub, is_verified_external, join_identity, by_external_identity, by_email,
  has_conflicting_subjects, without_conflict, one, after_conflict, insert_user, find_or_insert_user,
  link_identity, verify_in, mark_verified, provision, check_claim, get_or_create_user_for_identity,
}
use lexicon_revision.Access.Service.{
  wrap_value_error, wrapped, is_stub_identity, verified_email, accept_decision, decide_affiliation,
  resolve_affiliation, join_affiliation, resolve_user, resolve_identity_with_affiliation,
  wrong_affiliation, may_read, admit, authorize_collection,
}
use lexicon_revision.Access.Service.Memberships.{OnlyJoins, affiliation_of}
use lexicon_revision.Access.Service.Authorization.{
  MayRead, Outcome, public_only, authorize_collection-MayRead, authorize_collection-public_only,
  OnlyJoins-authorize_collection, authorize_collection-affiliation,
}

access : Unit {0}
unfolding is_space strip lstrip rstrip ends_with text_eq filter contains to_set is_anonymous
    is_authenticated list_matching_communities_for_email_domain get_manual_access_override in_force
    email_domain require_normalized_email normalize_email nonblank partition_at matching_rules
    domain_rule_matches first is_active_status is_member has_active_membership upsert_active
    ensure_active_membership get_collection_access decide_community decide_matches resolve_by_domain
    resolve_verified_email is_stub is_verified_external join_identity by_external_identity by_email
    has_conflicting_subjects without_conflict one after_conflict insert_user find_or_insert_user
    link_identity verify_in mark_verified provision check_claim get_or_create_user_for_identity
    wrap_value_error wrapped is_stub_identity verified_email accept_decision decide_affiliation
    resolve_affiliation join_affiliation resolve_user resolve_identity_with_affiliation
    wrong_affiliation may_read admit authorize_collection is_allowed
access = tt

abbrev same_case : Text → Text
same_case s = s

abbrev rule : EmailDomainRow
rule = record {
  community_id = codes "edinburgh";
  domain = codes "ed.ac.uk";
  match_mode = suffix;
  is_active = true;
}

abbrev tables : Tables
tables = record {
  users = [];
  identities = [];
  memberships = [];
  email_domains = rule ∷ [];
  overrides = [];
  collections =
      record { id = codes "c1"; name = codes "open"; community_id = none }
      ∷ record { id = codes "c2"; name = codes "exams"; community_id = some (codes "edinburgh") }
      ∷ [];
}

abbrev request : RequestIdentity
request = record {
  provider = some (codes "clerk");
  external_subject = some (codes "sub1");
  email = some (codes "bo@inf.ed.ac.uk");
  email_verified = true;
}

abbrev user : AuthenticatedUser
user = record { user_id = codes "u1"; email = codes "bo@inf.ed.ac.uk" }

abbrev exams : CollectionAccess
exams = record {
  collection_id = codes "c2";
  collection_name = codes "exams";
  community_id = some (codes "edinburgh");
}

abbrev provisioned : Tables
provisioned = record tables {
  users = record { id = codes "u1"; email = codes "bo@inf.ed.ac.uk"; email_verified = true } ∷ [];
  identities =
      record { user_id = codes "u1"; provider = codes "clerk"; external_subject = codes "sub1" }
      ∷ [];
}

abbrev joined : Tables
joined = record provisioned {
  memberships =
      record { user_id = codes "u1"; community_id = codes "edinburgh"; status = active } ∷ [];
}

abbrev context : AuthorizationContext
context = record {
  collection = exams;
  identity = record { request_identity = request; user = some user };
}

abbrev decision : AffiliationDecision
decision = record { community_id = some (codes "edinburgh"); deny_reason = none }

rules_found :
    list_matching_communities_for_email_domain same_case tables (codes "bo@inf.ed.ac.uk")
    ≡ ok (rule ∷ [])
unfolding access
rules_found = refl

decided : resolve_affiliation same_case 0 true (codes "u1") tables request ≡ ok (some decision)
unfolding access
decided = refl

created :
    get_or_create_user_for_identity same_case (codes "u1") tables request ≡ ok (user, provisioned)
unfolding access
created = refl

admitted :
    ◌≡◌ {A = Outcome}
      (authorize_collection same_case 0 true (codes "u1") (codes "exams") request tables)
      (ok context, joined)
unfolding access
admitted = refl

authorize_collection-MayRead_example :
    (get_collection_access tables (codes "exams") ≡ some exams) × MayRead joined context
authorize_collection-MayRead_example =
    authorize_collection-MayRead same_case 0 true (codes "u1") (codes "exams") request tables joined
      context admitted

authorize_collection-public_only_example :
    authorize_collection same_case 0 true (codes "u1") (codes "exams") anonymous tables
    ≡ (err (collection_access_denied (codes "exams")), tables)
unfolding public_only access
authorize_collection-public_only_example =
    authorize_collection-public_only same_case 0 true (codes "u1") (codes "exams") anonymous tables
      refl

OnlyJoins-authorize_collection_example :
    OnlyJoins
      (affiliation_of same_case 0 true (codes "u1") request tables)
      tables
      (authorize_collection same_case 0 true (codes "u1") (codes "exams") request tables).1
OnlyJoins-authorize_collection_example =
    OnlyJoins-authorize_collection same_case 0 true (codes "u1") (codes "exams") request tables

authorize_collection-affiliation_example :
    authorize_collection same_case 0 true (codes "u1") (codes "exams") request tables ≡ (
      if codes "edinburgh" == codes "edinburgh"
          then ok context
          else err (collection_access_denied (codes "exams")),
      ensure_active_membership provisioned (codes "u1") (codes "edinburgh"),
    )
unfolding access
authorize_collection-affiliation_example =
    authorize_collection-affiliation same_case 0 true (codes "u1") (codes "exams") request tables
      provisioned exams (codes "edinburgh") decision (codes "edinburgh") user refl refl refl decided
      refl created

resolve_verified_email-Decides_example :
    (d : AffiliationDecision) × (resolve_verified_email same_case 0 tables (codes "bo@inf.ed.ac.uk")
      ≡ ok d)
    × Decides (codes "edinburgh" ∷ []) d
unfolding access
resolve_verified_email-Decides_example =
    resolve_verified_email-Decides same_case 0 tables (codes "bo@inf.ed.ac.uk")
      (codes "bo@inf.ed.ac.uk") (rule ∷ []) refl refl rules_found

domain_rule_matches-Covers_example :
    (domain_rule_matches (codes "inf.ed.ac.uk") (codes "ed.ac.uk") suffix ≡ ok true)
    ↔ Covers (codes "ed.ac.uk") (codes "inf.ed.ac.uk")
domain_rule_matches-Covers_example =
    domain_rule_matches-Covers (codes "inf.ed.ac.uk") (codes "ed.ac.uk")

-- a request from a domain that no rule covers
abbrev stranger : RequestIdentity
stranger = record request {
  external_subject = some (codes "sub2");
  email = some (codes "al@x.org");
}

abbrev open_collection : CollectionAccess
open_collection = record {
  collection_id = codes "c1";
  collection_name = codes "open";
  community_id = none;
}

resolved :
    ◌≡◌ {A = Result AccessError (ResolvedIdentity × Option AffiliationDecision) × Tables}
      (resolve_identity_with_affiliation same_case 0 true (codes "u1") request tables)
      (ok (record { request_identity = request; user = some user }, some decision), joined)
unfolding access
resolved = refl

turned_away :
    resolve_affiliation same_case 0 true (codes "u1") tables stranger
    ≡ err (identity_provisioning (codes "unsupported_email_domain") (some unsupported_email_domain))
unfolding access
turned_away = refl

authorize_collection-is_accessible_example :
    (◌≡◌ {A = Result AccessError (Option Text × Option Text) × Tables}
      (listing_subject same_case 0 true (codes "u1") request tables)
      (ok (some (codes "u1"), some (codes "edinburgh")), joined))
    × (is_accessible
          (compute_access_state request
            (some (codes "edinburgh"))
            none
            (some (codes "edinburgh"))
            (active_membership_community_ids joined (some (codes "u1")))).0
        ≡ is_ok
            (authorize_collection same_case 0 true (codes "u1") (codes "exams") request tables).0)
unfolding access
authorize_collection-is_accessible_example =
    authorize_collection-is_accessible same_case 0 true (codes "u1") (codes "exams") exams request
      none tables joined (record { request_identity = request; user = some user }, some decision)
      refl resolved

authorize_collection-unsupported_example :
    (◌≡◌ {A = Result AccessError (Option Text × Option Text) × Tables}
      (listing_subject same_case 0 true (codes "u1") stranger tables)
      (ok (none, none), tables))
    × (is_accessible (compute_access_state stranger none none none []).0 ≡ true)
    × (◌≡◌ {A = Outcome}
        (authorize_collection same_case 0 true (codes "u1") (codes "open") stranger tables)
        (
          err (
              identity_provisioning
                (codes "unsupported_email_domain")
                (some unsupported_email_domain)),
          tables,
        ))
unfolding access
authorize_collection-unsupported_example =
    authorize_collection-unsupported same_case 0 true (codes "u1") (codes "open") open_collection
      stranger none tables (codes "unsupported_email_domain") unsupported_email_domain refl refl
      refl turned_away
